-- ===== src/Crab/Chain.antt =====
-- The chains of a table of src/lua-crab.c. Each position has one, which begins at the position itself, and a
-- node that is taken stands in the chain of the main position of its key, once.
pub mod Walk
pub mod Get
pub mod Splice
pub mod Collide
pub mod Reroute
pub mod Place
use my_skynet.Prelude.{
  ℕ, zero, suc, ◌+◌, ◌≤◌, ◌<◌, ◌≡◌, refl, arith, List, [], ◌∷◌, Bool, true, false, not, ◌&&◌,
  Option, none, some, ◌==◌, if◌then◌else◌, length, Bool-cases, inl, inr,
}
use my_skynet.Crab.{TableNode, Table, tisnil, tnode, mainposition}

unfoldable pub occurs : ℕ → List ℕ → ℕ
occurs a [] = 0
occurs a (b ∷ list) = (if b == a then 1 else 0) + occurs a list

unfoldable pub is_live : Table → ℕ → Bool
is_live t a = not (tisnil (tnode t a))

-- the main position of the node at an index
unfoldable pub home : Table → ℕ → ℕ
home t a = mainposition t (tnode t a).key

-- Each node of a list links to the next one, the last to none.
unfoldable pub IsLinked : Table → List ℕ → Type 0
IsLinked t [] = Unit {0}
IsLinked t (a ∷ []) = (tnode t a).next ≡ none
IsLinked t (a ∷ b ∷ list) = ((tnode t a).next ≡ some b) × IsLinked t (b ∷ list)

unfoldable pub BeginsAt : ℕ → List ℕ → Type 0
BeginsAt p [] = Unit {0}
BeginsAt p (a ∷ list) = a ≡ p

pub record HasChains (t : Table) (chain : ℕ → List ℕ) : Type 0 where
  pub size : length t.node ≡ t.capacity
  pub holds : (p a : ℕ) → occurs a (chain p) ≡ (if is_live t a && home t a == p then 1 else 0)
  pub begins : (p : ℕ) → BeginsAt p (chain p)
  pub linked : (p : ℕ) → IsLinked t (chain p)

sum_below : (ℕ → ℕ) → ℕ → ℕ
sum_below f zero = 0
sum_below f (suc n) = f n + sum_below f n

sum_below-le : (f : ℕ → ℕ) (n : ℕ) → ((a : ℕ) → f a ≤ 1) → sum_below f n ≤ n
unfolding sum_below
sum_below-le f zero h = omega arith
sum_below-le f (suc n) h = omega (arith, h n, sum_below-le f n h)

sum_below_add : (f g : ℕ → ℕ) (n : ℕ) → sum_below (λ a. f a + g a) n ≡ sum_below f n + sum_below g n
unfolding sum_below
sum_below_add f g zero = refl
sum_below_add f g (suc n) = omega (arith, sum_below_add f g n)

sum_below_hit : (b n : ℕ) → b < n → 1 ≤ sum_below (λ a. if b == a then 1 else 0) n
unfolding sum_below
sum_below_hit b zero h = absurd (omega (arith, h))
sum_below_hit b (suc n) h = elim (Bool-cases (b == n)) [
  | inl e ↦ ground (arith, e)
  | inr e ↦ omega (arith, sum_below_hit b n (ground (arith, h, e)))
]

length-sum_below :
    (list : List ℕ) (n : ℕ)
    → ((a : ℕ) → n ≤ a → occurs a list ≡ 0)
    → length list ≤ sum_below (λ a. occurs a list) n
unfolding occurs
length-sum_below [] n h = omega arith
length-sum_below (b ∷ list) n h = omega (
  arith,
  sum_below_add (λ a. if b == a then 1 else 0) (λ a. occurs a list) n,
  sum_below_hit b n (ground (arith, h b)),
  length-sum_below list n (λ a k. omega (arith, h a k)),
)

-- A list of different numbers below `n` has at most `n` of them.
pub length-occurs :
    (list : List ℕ) (n : ℕ)
    → ((a : ℕ) → occurs a list ≤ 1)
    → ((a : ℕ) → n ≤ a → occurs a list ≡ 0)
    → length list ≤ n
length-occurs list n once below =
    omega (arith, length-sum_below list n below, sum_below-le (λ a. occurs a list) n once)
