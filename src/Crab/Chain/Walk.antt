-- ===== src/Crab/Chain/Walk.antt =====
-- The walk of `table_get` of src/lua-crab.c along linked nodes.
use my_skynet.Prelude.{
  ℕ, zero, suc, ◌≤◌, ◌<◌, ◌≡◌, ◌≢◌, inl, inr, refl, sym, ap, ◌∙◌, arith, List, [], ◌∷◌, Bool, true,
  false, Option, none, some, ◌==◌, ==_iff, if◌then◌else◌, length, Bool-cases,
}
use mathlib.Core.Path.{subst}
use my_skynet.Crab.{Table, tisnil, tnode, get_from}
use my_skynet.Crab.Chain.{occurs, is_live, IsLinked}

-- the first node of a list that has the key
unfoldable pub first_with : Table → ℕ → List ℕ → Option ℕ
first_with t key [] = none
first_with t key (a ∷ list) = if (tnode t a).key == key then some a else first_with t key list

unfoldable pub AreLive : Table → List ℕ → Type 0
AreLive t list = (a : ℕ) → 0 < occurs a list → is_live t a ≡ true

pub live_first :
    (t : Table) (a : ℕ) (list : List ℕ) → AreLive t (a ∷ list) → tisnil (tnode t a) ≡ false
unfolding AreLive occurs is_live
live_first t a list v = ground (arith, v a (ground arith))

pub live_rest : (t : Table) (a : ℕ) (list : List ℕ) → AreLive t (a ∷ list) → AreLive t list
unfolding AreLive occurs
live_rest t a list v b h = v b (omega (arith, h))

-- A walk along a linked list of nodes that are taken finds the first with the key.
pub get_from-first_with :
    (t : Table) (key : ℕ) (list : List ℕ) (fuel a : ℕ)
    → length (a ∷ list) ≤ fuel
    → AreLive t (a ∷ list)
    → IsLinked t (a ∷ list)
    → get_from fuel t a key ≡ first_with t key (a ∷ list)
unfolding get_from first_with IsLinked
get_from-first_with t key list zero a h v l = absurd (omega (arith, h))
get_from-first_with t key [] (suc fuel) a h v l = rw (get_from, live_first t a [] v, l) refl
get_from-first_with t key (b ∷ list) (suc fuel) a h v l =
    rw
      (
        get_from,
        live_first t a (b ∷ list) v,
        l.0,
        get_from-first_with t key list fuel b (omega (arith, h)) (live_rest t a (b ∷ list) v) l.1,
      )
      refl

pub first_with-none :
    (t : Table) (key : ℕ) (list : List ℕ) (a : ℕ)
    → first_with t key list ≡ none
    → 0 < occurs a list
    → (tnode t a).key ≢ key
unfolding first_with occurs
first_with-none t key [] a e h same = absurd (omega (arith, h))
first_with-none t key (b ∷ list) a e h same = elim (Bool-cases (b == a)) [
  | inl g ↦
      let here : (tnode t b).key ≡ key =
        ap (λ (i : ℕ). (tnode t i).key) ((==_iff b a).0 g) ∙ same in
      ground (arith, e, here)
  | inr g ↦ first_with-none t key list a (ground (arith, e)) (ground (arith, h, g)) same
]

pub first_with-some :
    (t : Table) (key : ℕ) (list : List ℕ) (a : ℕ)
    → first_with t key list ≡ some a
    → (0 < occurs a list) × ((tnode t a).key ≡ key)
unfolding first_with occurs
first_with-some t key [] a e = ground (arith, e)
first_with-some t key (b ∷ list) a e = ground (arith, e, first_with-some t key list a)

key_differs : (t : Table) (a key : ℕ) → (tnode t a).key ≢ key → ((tnode t a).key == key) ≡ false
key_differs t a key d = elim (Bool-cases ((tnode t a).key == key)) [
  | inl e ↦ absurd (d ((==_iff (tnode t a).key key).0 e))
  | inr e ↦ e
]

if_same : {B : Type 0} (b : Bool) (x : B) → (if b then x else x) ≡ x
if_same true x = refl
if_same false x = refl

IsLinked-rest : (t : Table) (a : ℕ) (list : List ℕ) → IsLinked t (a ∷ list) → IsLinked t list
unfolding IsLinked
IsLinked-rest t a [] l = tt
IsLinked-rest t a (b ∷ list) l = l.1

-- A walk from a node that is taken, along nodes whose keys have another main position, finds nothing.
pub get_from_apart :
    (t : Table) (p key : ℕ) (list : List ℕ) (fuel a : ℕ)
    → ((b : ℕ) → 0 < occurs b (a ∷ list) → (tnode t b).key ≢ key)
    → IsLinked t (a ∷ list)
    → get_from fuel t a key ≡ none
unfolding get_from IsLinked occurs
get_from_apart t p key list zero a d l = refl
get_from_apart t p key [] (suc fuel) a d l =
    let differ : ((tnode t a).key == key) ≡ false = key_differs t a key (d a (ground arith)) in
    rw (get_from, differ, l) (if_same _ none)
get_from_apart t p key (b ∷ list) (suc fuel) a d l =
    let differ : ((tnode t a).key == key) ≡ false = key_differs t a key (d a (ground arith)) in
    let rest = get_from_apart t p key list fuel b (λ c h. d c (omega (arith, h))) l.1 in
    rw (get_from, differ, l.0, rest) (if_same _ none)

-- The rest of a linked list from one of its nodes on.
pub from_node :
    (t : Table) (a : ℕ) (list : List ℕ)
    → 0 < occurs a list
    → IsLinked t list
    → (rest : List ℕ) × IsLinked t (a ∷ rest)
      × ((b : ℕ) → 0 < occurs b (a ∷ rest) → 0 < occurs b list)
unfolding occurs IsLinked
from_node t a [] h l = absurd (omega (arith, h))
from_node t a (b ∷ list) h l = elim (Bool-cases (b == a)) [
  | inl e ↦
      let same = (==_iff b a).0 e in
      (
        list,
        subst (λ i. IsLinked t (i ∷ list)) same l,
        λ c k. subst (λ i. 0 < occurs c (i ∷ list)) (sym same) k,
      )
  | inr e ↦
      let (rest, links, within) =
        from_node t a list (ground (arith, h, e)) (IsLinked-rest t b list l) in
      (rest, links, λ c k. omega (arith, within c k))
]
