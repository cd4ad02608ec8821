-- ===== src/Crab/View.antt =====
-- A table of src/lua-crab.c as a map: what it has for a key is a flag and the address of a further table.
-- The sums over the nodes that are taken determine it.
pub mod Insert
pub mod Run
use my_skynet.Prelude.{
  ℕ, zero, suc, ◌+◌, ◌-◌, ◌≤◌, ◌<◌, ◌≡◌, ◌≢◌, refl, sym, ap, ◌∙◌, arith, List, [], ◌∷◌, Bool, true,
  false, not, Option, none, some, ◌==◌, ==_iff, if◌then◌else◌, length, get_or, set, Bool-cases, inl,
  inr,
}
use my_skynet.Crab.{TableNode, Table, initnode, tisnil, tnode, table_get}
use my_skynet.Crab.Chain.{is_live}
use my_skynet.Crab.Chain.Get.{live_inside, table_get_lem}
use my_skynet.Crab.Newkey.{Weight, weight, total, total-set, IsSound}

abbrev pub View : Type 0
View = Option (ℕ × Option ℕ)

unfoldable pub view : Table → ℕ → View
view t key = elim (table_get t key) [
  | none ↦ none
  | some i ↦ some ((tnode t i).flag, (tnode t i).value)
]

-- a number for what is at one key
abbrev pub at_key : ℕ → (ℕ → Option ℕ → ℕ) → Weight
at_key k g = λ key flag value. if key == k then g flag value else 0

abbrev pub number : (ℕ → Option ℕ → ℕ) → View → ℕ
number g none = 0
number g (some (flag, value)) = g flag value

abbrev pub any : ℕ → Option ℕ → ℕ
any flag value = 1

-- No two nodes that are taken have one key.
pub record IsMap (t : Table) : Type 0 where
  pub sound : IsSound t
  pub unique : (k : ℕ) → total (at_key k any) t.node ≤ 1

nothing_at :
    (k : ℕ) (g : ℕ → Option ℕ → ℕ) (nodes : List TableNode)
    → total (at_key k any) nodes ≡ 0
    → total (at_key k g) nodes ≡ 0
unfolding total weight
nothing_at k g [] h = refl
nothing_at k g (n ∷ nodes) h = ground (arith, h, nothing_at k g nodes)

absent_at :
    (k : ℕ) (g : ℕ → Option ℕ → ℕ) (nodes : List TableNode)
    → ((a : ℕ) → tisnil (get_or nodes a initnode) ≡ false → (get_or nodes a initnode).key ≢ k)
    → total (at_key k g) nodes ≡ 0
unfolding total weight
absent_at k g [] h = refl
absent_at k g (n ∷ nodes) h = ground (arith, h 0, absent_at k g nodes (λ a. h (suc a)))

-- A node that is taken is all that is at its key.
pub total_here :
    (t : Table) (i : ℕ) (g : ℕ → Option ℕ → ℕ)
    → i < length t.node
    → is_live t i ≡ true
    → total (at_key (tnode t i).key any) t.node ≤ 1
    → total (at_key (tnode t i).key g) t.node ≡ g (tnode t i).flag (tnode t i).value
unfolding weight is_live tisnil tnode
total_here t i g h live once =
    let k = (tnode t i).key in
    let left = set t.node i initnode in
    let taken : tisnil (get_or t.node i initnode) ≡ false = ground (arith, live) in
    let same : (k == k) ≡ true = (==_iff k k).1 refl in
    ground (
      arith,
      h,
      taken,
      same,
      once,
      total-set (at_key k any) t.node i initnode h,
      total-set (at_key k g) t.node i initnode h,
      nothing_at k g left,
    )

-- The sum of what is at a key is the number of what the table has for it.
pub total-view :
    (t : Table) (k : ℕ) (g : ℕ → Option ℕ → ℕ)
    → IsMap t
    → total (at_key k g) t.node ≡ number g (view t k)
unfolding view is_live tnode
total-view t k g m = elim (table_get_lem t m.sound.chain m.sound.chains k) [
  | inl (a, got, live, same) ↦
      rw (view, got, ← same)
        (total_here t a g (live_inside t m.sound.chain m.sound.chains a live) live
          (rw same (m.unique k)))
  | inr (got, absent) ↦ rw (view, got) (absent_at k g t.node (λ a taken. absent a (ap not taken)))
]

-- Numbers tell views apart.
pub view_eq : (x y : View) → ((g : ℕ → Option ℕ → ℕ) → number g x ≡ number g y) → x ≡ y
view_eq none none h = refl
view_eq none (some (flag, value)) h = absurd (omega (arith, h any))
view_eq (some (flag, value)) none h = absurd (omega (arith, h any))
view_eq (some (flag, none)) (some (flag', none)) h = rw (h (λ f v. f)) refl
view_eq (some (flag, none)) (some (flag', some b)) h =
    absurd (omega (arith, h (λ f v. elim v [ none ↦ 0 | some a ↦ 1 ])))
view_eq (some (flag, some a)) (some (flag', none)) h =
    absurd (omega (arith, h (λ f v. elim v [ none ↦ 0 | some a ↦ 1 ])))
view_eq (some (flag, some a)) (some (flag', some b)) h =
    rw (h (λ f v. f), h (λ f v. elim v [ none ↦ 0 | some a ↦ a ])) refl

-- What a table has at the key of a node that is taken.
pub view_here :
    (t : Table) (i : ℕ)
    → IsMap t
    → i < length t.node
    → is_live t i ≡ true
    → view t (tnode t i).key ≡ some ((tnode t i).flag, (tnode t i).value)
view_here t i m h live =
    view_eq (view t (tnode t i).key) (some ((tnode t i).flag, (tnode t i).value)) (λ g.
      sym (total-view t (tnode t i).key g m) ∙ total_here t i g h live (m.unique (tnode t i).key))
