-- ===== src/MinHeap/Order.antt =====
-- The order that the heap of src/lua-minheap.c keeps, and the multiset of its nodes.
use my_skynet.Prelude.{
  ℕ, zero, suc, ◌+◌, ◌-◌, ◌/◌, ◌≤◌, ◌<◌, ◌≡◌, ◌≢◌, refl, List, Bool, arith, ◌==◌, if◌then◌else◌,
  length, set, length-set, get_or-set,
}
use native.Mathlib.Decide.{ℕ_discrete}
use my_skynet.MinHeap.{Node, cell, wild}

abbrev pub parent : ℕ → ℕ
parent c = (c - 1) / 2

-- An array seen as a function of the index.
abbrev pub Cells : Type 0
Cells = ℕ → Node

-- Among the first `n` cells no node expires before its parent.
abbrev pub IsHeap : ℕ → Cells → Type 0
IsHeap n f = (c : ℕ) → 0 < c → c < n → (f (parent c)).expire ≤ (f c).expire

-- The cells of an array whose cell `hole` is about to be given `val`.
abbrev pub filled : List Node → ℕ → Node → Cells
filled array hole val c = if hole == c then val else cell array c

pub cell-set :
    (array : List Node) (hole c : ℕ) (val : Node)
    → hole < length array
    → cell (set array hole val) c ≡ filled array hole val c
cell-set array hole c val h = get_or-set array hole c val wild h

abbrev pub one_if : Bool → ℕ
one_if b = if b then 1 else 0

-- How many of the first `n` cells satisfy `p`: the multiset of the nodes.
unfoldable pub tally : (Node → Bool) → Cells → ℕ → ℕ
tally p f zero = 0
tally p f (suc n) = tally p f n + one_if (p (f n))

pub tally_same :
    (p : Node → Bool) (f g : Cells) (n : ℕ)
    → ((j : ℕ) → j < n → f j ≡ g j)
    → tally p f n ≡ tally p g n
unfolding tally
tally_same p f g zero h = refl
tally_same p f g (suc n) h = rw (h n (omega arith), tally_same p f g n (λ j q. h j (omega arith)))

-- To change one cell trades one node for another.
pub tally_change :
    (p : Node → Bool) (f g : Cells) (n i : ℕ)
    → i < n
    → ((j : ℕ) → j ≢ i → f j ≡ g j)
    → tally p f n + one_if (p (g i)) ≡ tally p g n + one_if (p (f i))
unfolding tally
tally_change p f g zero i k h = absurd (omega arith)
tally_change p f g (suc n) i k h = elim (ℕ_discrete i n) [
  | yes e ↦ let same = tally_same p f g n (λ j q. h j (omega arith)) in rw (e, same) (omega arith)
  | no d ↦
      let rest = tally_change p f g n i (omega arith) h in
      rw (h n (λ q. d (omega arith))) (omega arith)
]

-- The root expires first.
root_least_from : (k n i : ℕ) (f : Cells) → IsHeap n f → i < k → i < n → (f 0).expire ≤ (f i).expire
root_least_from zero n i f h p q = absurd (omega arith)
root_least_from (suc k) n zero f h p q = omega arith
root_least_from (suc k) n (suc i) f h p q = omega (
  arith,
  h (suc i) (omega arith) q,
  root_least_from k n (parent (suc i)) f h (omega arith) (omega arith),
)

pub root_least : (n i : ℕ) (f : Cells) → IsHeap n f → i < n → (f 0).expire ≤ (f i).expire
root_least n i f h q = root_least_from (suc i) n i f h (omega arith) q

-- `array` becomes `b`: a heap of `n` nodes, the same nodes as in `f`.
pub record Settled (n : ℕ) (array : List Node) (f : Cells) (b : List Node) : Type 0 where
  pub size : length b ≡ length array
  pub heap : IsHeap n (cell b)
  pub same : (p : Node → Bool) → tally p (cell b) n ≡ tally p f n

-- Moving the node of cell `i` into the hole and the hole to `i` keeps the nodes.
pub tally-moved :
    (p : Node → Bool) (array : List Node) (n hole i : ℕ) (val : Node)
    → hole < n
    → i < n
    → n ≤ length array
    → hole ≢ i
    → tally p (filled (set array hole (cell array i)) i val) n ≡ tally p (filled array hole val) n
tally-moved p array n hole i val h k room d =
    let moved = set array hole (cell array i) in
    let at = λ (c : ℕ). cell-set array hole c (cell array i) (omega arith) in
    let away =
      tally_change p (filled array hole val) (cell moved) n hole h (λ j q. ground (arith, at j)) in
    let back = tally_change p (cell moved) (filled moved i val) n i k (λ j q. ground arith) in
    ground (arith, away, back, at hole, at i)

-- the write of `val` into a hole where it belongs
pub settle :
    (n : ℕ) (array : List Node) (val : Node) (hole : ℕ)
    → hole < length array
    → IsHeap n (filled array hole val)
    → Settled n array (filled array hole val) (set array hole val)
settle n array val hole h heap = record {
  size = length-set array hole val;
  heap =
      λ c p q. rw (cell-set array hole c val h, cell-set array hole (parent c) val h) (heap c p q);
  same = λ p. tally_same p _ _ n (λ j _. cell-set array hole j val h);
}
