-- ===== src/Crab/Tree/Grow.antt =====
-- The steps of `_dict_insert` in src/lua-crab.c keep the tree: a key that is put in, a table that is made, and a
-- mark.
use my_skynet.Prelude.{
  ℕ, ◌<◌, ◌≡◌, refl, sym, ap, ◌∙◌, arith, [], ◌∷◌, ◌++◌, true, false, ◌&&◌, Option, none, some,
  ◌==◌, ==_iff, if◌then◌else◌, length, length-set, get_or-set, set, Bool-cases, inl, inr,
}
use my_skynet.Crab.{Table, table_new}
use my_skynet.Crab.Words.{Tables, table_at}
use my_skynet.Crab.View.{View, view, IsMap}
use my_skynet.Crab.View.Insert.{IsAt, Keyed, or_new}
use my_skynet.Crab.Tree.{is_end, next, view_in, IsTree}
use my_skynet.Crab.Tree.Quiet.{IsQuiet}
use my_skynet.Crab.Tree.Mark.{both}

-- one table is another, which has something else at one key
pub record Rewritten (mem mem' : Tables) (a r : ℕ) (x : Table) (v : View) : Type 0 where
  pub tables : (b : ℕ) → table_at mem' b ≡ (if a == b then x else table_at mem b)
  pub views : (b s : ℕ) → view_in mem' b s ≡ (if b == a && s == r then v else view_in mem b s)

pub rewritten :
    (mem mem' : Tables) (a r : ℕ) (x : Table) (v : View)
    → ((b : ℕ) → table_at mem' b ≡ (if a == b then x else table_at mem b))
    → ((k : ℕ) → view x k ≡ (if r == k then v else view_in mem a k))
    → Rewritten mem mem' a r x v
rewritten mem mem' a r x v at look = record { tables = at; views = views }
  where
    views : (b s : ℕ) → view_in mem' b s ≡ (if b == a && s == r then v else view_in mem b s)
    views b s = elim (Bool-cases (a == b)) [
      | inr e ↦
          let other : (b == a && s == r) ≡ false = ground (arith, e) in rw (at b, e, other) refl
      | inl e ↦
          let here : b ≡ a = sym ((==_iff a b).0 e) in
          let turn : (b == a && s == r) ≡ (r == s) = ground (arith, here) in
          rw (at b, e, turn) (look s ∙ ap (λ c. if r == s then v else view_in mem c s) (sym here))
    ]

pub at_key_of :
    {mem mem' : Tables} {a r : ℕ} {x : Table} {v : View}
    → Rewritten mem mem' a r x v
    → view_in mem' a r ≡ v
at_key_of {mem} {mem'} {a} {r} w =
    let here : (a == a && r == r) ≡ true = ground arith in w.views a r ∙ rw here refl

pub Rewritten-IsMap :
    (mem mem' : Tables) (a r : ℕ) (x : Table) (v : View)
    → IsTree mem
    → IsMap x
    → Rewritten mem mem' a r x v
    → (b : ℕ) → IsMap (table_at mem' b)
Rewritten-IsMap mem mem' a r x v t m w b = elim (Bool-cases (a == b)) [
  | inl e ↦ rw (w.tables b, e) m
  | inr e ↦ rw (w.tables b, e) (t.maps b)
]

-- Where no table leads elsewhere, the tree stays.
pub kept-IsTree :
    (mem mem' : Tables)
    → (t : IsTree mem) → length mem' ≡ length mem
    → ((b : ℕ) → IsMap (table_at mem' b))
    → ((b s : ℕ) → next (view_in mem' b s) ≡ next (view_in mem b s))
    → IsTree mem'
kept-IsTree mem mem' t size maps nexts = record {
  label = t.label;
  nonempty = omega (arith, size, t.nonempty);
  root = t.root;
  maps = maps;
  below = below;
  above = above;
}
  where
    below :
        (a r b : ℕ)
        → next (view_in mem' a r) ≡ some b
        → (a < b) × (b < length mem') × (t.label b ≡ t.label a ++ r ∷ [])
    below a r b e =
        let (i, j, path) = t.below a r b (sym (nexts a r) ∙ e) in (i, omega (arith, j, size), path)

    above :
        (b : ℕ) → 0 < b → b < length mem' → (a : ℕ) × (r : ℕ) × (next (view_in mem' a r) ≡ some b)
    above b h k = let (a, r, e) = t.above b h (omega (arith, k, size)) in (a, r, nexts a r ∙ e)

pub set_tables :
    (mem : Tables) (a : ℕ) (x : Table)
    → a < length mem
    → (b : ℕ) → table_at (set mem a x) b ≡ (if a == b then x else table_at mem b)
unfolding table_at
set_tables mem a x h b = get_or-set mem a b x table_new h

next-or_new : (v : View) → next (or_new v) ≡ next v
next-or_new none = refl
next-or_new (some x) = refl

is_end-or_new : (v : View) → is_end (or_new v) ≡ is_end v
is_end-or_new none = refl
is_end-or_new (some x) = refl

-- A key is put in.
module _ (mem : Tables) (a r i : ℕ) (x : Table) (t : IsTree mem) (h : a < length mem)
    (k : Keyed (table_at mem a) x i r) where
  keyed : Rewritten mem (set mem a x) a r x (or_new (view_in mem a r))
  keyed =
      rewritten mem (set mem a x) a r x (or_new (view_in mem a r)) (set_tables mem a x h)
        (λ s. k.views s)

  keyed_next : (b s : ℕ) → next (view_in (set mem a x) b s) ≡ next (view_in mem b s)
  keyed_next b s = elim (Bool-cases (b == a && s == r)) [
    | inl e ↦
        let (f, g) = both b a s r e in
        rw (keyed.views b s, e, next-or_new (view_in mem a r), f, g) refl
    | inr e ↦ rw (keyed.views b s, e) refl
  ]

  keyed_end : (b s : ℕ) → is_end (view_in (set mem a x) b s) ≡ is_end (view_in mem b s)
  keyed_end b s = elim (Bool-cases (b == a && s == r)) [
    | inl e ↦
        let (f, g) = both b a s r e in
        rw (keyed.views b s, e, is_end-or_new (view_in mem a r), f, g) refl
    | inr e ↦ rw (keyed.views b s, e) refl
  ]

  pub keyed-IsTree : IsTree (set mem a x)
  keyed-IsTree =
      kept-IsTree mem (set mem a x) t (length-set mem a x)
        (Rewritten-IsMap mem (set mem a x) a r x (or_new (view_in mem a r)) t k.is_map keyed)
        keyed_next

  pub keyed-IsQuiet : IsQuiet mem (set mem a x)
  keyed-IsQuiet = record {
    ends = keyed_end;
    keeps = λ b s c e. keyed_next b s ∙ e;
    grows = λ b s c e f.
        let bad : ◌≡◌ {A = Option ℕ} none (some c) = sym e ∙ sym (keyed_next b s) ∙ f in cc;
  }

  pub keyed-IsAt : IsAt (table_at (set mem a x) a) i r
  keyed-IsAt =
      let here : table_at (set mem a x) a ≡ x =
        set_tables mem a x h a ∙ rw ((==_iff a a).1 refl) refl in
      rw here k.at
