-- ===== src/Crab/Chain/Splice.antt =====
-- Lists of linked nodes that are changed in one place, and the loop of src/lua-crab.c that finds the node in
-- front of another.
use my_skynet.Prelude.{
  ℕ, zero, suc, ◌+◌, ◌≤◌, ◌<◌, ◌≡◌, refl, ap, ◌∙◌, arith, List, [], ◌∷◌, ◌++◌, false, some, ◌==◌,
  ==_iff, length, Bool-cases, inl, inr,
}
use my_skynet.Crab.{Table, tnode, before_from}
use my_skynet.Crab.Chain.{occurs, IsLinked, BeginsAt}

pub occurs-append : (a : ℕ) (xs ys : List ℕ) → occurs a (xs ++ ys) ≡ occurs a xs + occurs a ys
unfolding occurs
occurs-append a [] ys = omega arith
occurs-append a (x ∷ xs) ys = omega (arith, occurs-append a xs ys)

-- Links depend on the nodes of the list alone.
pub IsLinked_same :
    (t t' : Table) (list : List ℕ)
    → ((a : ℕ) → 0 < occurs a list → (tnode t' a).next ≡ (tnode t a).next)
    → IsLinked t list
    → IsLinked t' list
unfolding IsLinked occurs
IsLinked_same t t' [] same l = tt
IsLinked_same t t' (a ∷ []) same l = same a (ground arith) ∙ l
IsLinked_same t t' (a ∷ b ∷ list) same l = (
  same a (ground arith) ∙ l.0,
  IsLinked_same t t' (b ∷ list) (λ c h. same c (omega (arith, h))) l.1,
)

-- The first node of a list and the rest.
pub IsLinked-cons :
    (t : Table) (a b : ℕ) (list : List ℕ)
    → (tnode t a).next ≡ some b
    → IsLinked t (b ∷ list)
    → IsLinked t (a ∷ b ∷ list)
unfolding IsLinked
IsLinked-cons t a b list e l = (e, l)

pub IsLinked-append :
    (t : Table) (a : ℕ) (xs ys : List ℕ) → IsLinked t (xs ++ a ∷ ys) → IsLinked t (a ∷ ys)
unfolding IsLinked
IsLinked-append t a [] ys l = l
IsLinked-append t a (x ∷ []) ys l = l.1
IsLinked-append t a (x ∷ y ∷ xs) ys l = IsLinked-append t a (y ∷ xs) ys l.1

-- What is behind a node is exchanged.
pub IsLinked-splice :
    (t t' : Table) (a : ℕ) (xs ys zs : List ℕ)
    → ((b : ℕ) → 0 < occurs b xs → (tnode t' b).next ≡ (tnode t b).next)
    → IsLinked t (xs ++ a ∷ ys)
    → IsLinked t' (a ∷ zs)
    → IsLinked t' (xs ++ a ∷ zs)
unfolding IsLinked occurs
IsLinked-splice t t' a [] ys zs same l m = m
IsLinked-splice t t' a (x ∷ []) ys zs same l m = (same x (ground arith) ∙ l.0, m)
IsLinked-splice t t' a (x ∷ y ∷ xs) ys zs same l m = (
  same x (ground arith) ∙ l.0,
  IsLinked-splice t t' a (y ∷ xs) ys zs (λ b h. same b (omega (arith, h))) l.1 m,
)

-- Another node in front of the same list.
pub IsLinked-head :
    (t t' : Table) (a b : ℕ) (list : List ℕ)
    → (tnode t' b).next ≡ (tnode t a).next
    → ((c : ℕ) → 0 < occurs c list → (tnode t' c).next ≡ (tnode t c).next)
    → IsLinked t (a ∷ list)
    → IsLinked t' (b ∷ list)
unfolding IsLinked
IsLinked-head t t' a b [] e same l = e ∙ l
IsLinked-head t t' a b (c ∷ list) e same l = (e ∙ l.0, IsLinked_same t t' (c ∷ list) same l.1)

pub no_chain : (p : ℕ) (list : List ℕ) → BeginsAt p list → occurs p list ≡ 0 → list ≡ []
unfolding BeginsAt occurs
no_chain p [] b e = refl
no_chain p (a ∷ list) b e = absurd (ground (arith, b, e))

pub a_chain :
    (p m : ℕ) (list : List ℕ)
    → BeginsAt p list
    → 0 < occurs m list
    → (rest : List ℕ) × (list ≡ p ∷ rest)
unfolding BeginsAt occurs
a_chain p m [] b h = absurd (omega (arith, h))
a_chain p m (a ∷ list) b h = (list, ap (λ (c : ℕ). c ∷ list) b)

pub BeginsAt-append :
    (p a : ℕ) (xs ys zs : List ℕ) → BeginsAt p (xs ++ a ∷ ys) → BeginsAt p (xs ++ a ∷ zs)
unfolding BeginsAt
BeginsAt-append p a [] ys zs b = b
BeginsAt-append p a (x ∷ xs) ys zs b = b

-- The loop finds the node in front of one that is in the list, but not first.
pub before_from_lem :
    (t : Table) (list : List ℕ) (fuel a m : ℕ)
    → length (a ∷ list) ≤ fuel
    → (a == m) ≡ false
    → 0 < occurs m (a ∷ list)
    → IsLinked t (a ∷ list)
    → (xs : List ℕ) × (o : ℕ) × (ys : List ℕ) × (a ∷ list ≡ xs ++ o ∷ m ∷ ys)
      × (before_from fuel t a m ≡ some o)
unfolding before_from occurs IsLinked
before_from_lem t list zero a m h d here l = absurd (omega (arith, h))
before_from_lem t [] (suc fuel) a m h d here l = absurd (ground (arith, d, here))
before_from_lem t (b ∷ list) (suc fuel) a m h d here l = elim (Bool-cases (b == m)) [
  | inl e ↦
      ([], a, list, ap (λ (c : ℕ). a ∷ c ∷ list) ((==_iff b m).0 e), rw (before_from, l.0, e) refl)
  | inr e ↦
      let (xs, o, ys, same, run) =
        before_from_lem t list fuel b m (omega (arith, h)) e (ground (arith, here, d)) l.1 in
      (a ∷ xs, o, ys, ap (◌∷◌ a) same, rw (before_from, l.0, e) run)
]
