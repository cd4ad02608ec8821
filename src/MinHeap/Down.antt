-- ===== src/MinHeap/Down.antt =====
-- `heap_shiftdown` of src/lua-minheap.c restores the heap.
use my_skynet.Prelude.{
  ℕ, zero, suc, ◌+◌, ◌*◌, ◌/◌, ◌≤◌, ◌<◌, ◌≡◌, ◌≢◌, ◌∙◌, List, arith, ◌⊎◌, length, set, length-set,
  some, inl, inr, Bool-cases, ltb,
}
use my_skynet.MinHeap.{Node, cell, smaller_child, shiftdown_from}
use my_skynet.MinHeap.Order.{parent, Cells, filled, cell-set, tally-moved, Settled, settle}

-- Only the edges below the hole may be out of order.
pub record DownInv (n : ℕ) (f : Cells) (hole : ℕ) : Type 0 where
  pub edges : (c : ℕ) → 0 < c → c < n → parent c ≢ hole → (f (parent c)).expire ≤ (f c).expire
  pub bridged :
      (c : ℕ) → 0 < c → c < n → parent c ≡ hole → 0 < hole → (f (parent hole)).expire ≤ (f c).expire

-- The child chosen lies below the hole and inside, and no child of the hole expires before it.
pub record IsLeastChild (n : ℕ) (array : List Node) (hole child : ℕ) : Type 0 where
  pub below : parent child ≡ hole
  pub after : hole < child
  pub inside : child < n
  pub least :
      (c : ℕ) → 0 < c → c < n → parent c ≡ hole → (cell array child).expire ≤ (cell array c).expire

two_children : (c hole : ℕ) → 0 < c → parent c ≡ hole → (c ≡ 2 * hole + 1) ⊎ (c ≡ 2 * hole + 1 + 1)
two_children c hole p e = omega arith

smaller_child-least :
    (array : List Node) (n hole : ℕ)
    → hole < n / 2
    → IsLeastChild n array hole (smaller_child array n hole)
unfolding smaller_child
smaller_child-least array n hole h = record {
  below = ground arith;
  after = ground arith;
  inside = ground arith;
  least = λ c p q e. ground (arith, two_children c hole p e);
}

module _ (n : ℕ) (array : List Node) (val : Node) (room : n ≤ length array) where
  sink :
      (hole child : ℕ)
      → DownInv n (filled array hole val) hole
      → IsLeastChild n array hole child
      → (cell array child).expire ≤ val.expire
      → DownInv n (filled (set array hole (cell array child)) child val) child
  sink hole child v l below =
      let at =
        λ (c : ℕ). cell-set array hole c (cell array child) (omega (arith, l.inside, l.after)) in
      let (under, after) : (parent child ≡ hole) × (hole < child) = (l.below, l.after) in
      record {
        edges = λ c p q d. ground (
          arith,
          v.edges c,
          v.bridged c,
          v.bridged child,
          l.least c,
          l.inside,
          at c,
          at (parent c),
        );
        bridged = λ c p q e r. ground (arith, v.edges c, at c, at hole, l.inside);
      }

pub shiftdown_from-settles :
    (fuel n : ℕ) (array : List Node) (hole : ℕ) (val : Node)
    → n ≤ length array
    → hole < length array
    → hole ≤ n
    → n < fuel + hole
    → DownInv n (filled array hole val) hole
    → (b : List Node) × (shiftdown_from fuel array n hole val ≡ some b)
      × Settled n array (filled array hole val) b
unfolding shiftdown_from
shiftdown_from-settles zero n array hole val room h low f v = absurd (omega arith)
shiftdown_from-settles (suc fuel) n array hole val room h low f v =
    let child = smaller_child array n hole in
    elim (Bool-cases (ltb hole (n / 2))) [
      | inr leaf ↦ (
        set array hole val,
        ground arith,
        settle n array val hole h (λ c p q. v.edges c p q (ground arith)),
      )
      | inl inner ↦
          let l = smaller_child-least array n hole (ground arith) in
          elim (Bool-cases (ltb val.expire (cell array child).expire)) [
            | inl stop ↦ (
              set array hole val,
              ground arith,
              settle n array val hole h (λ c p q. ground (arith, v.edges c, l.least c)),
            )
            | inr go ↦
                let moved = set array hole (cell array child) in
                let inside : child < n = l.inside in
                let after : hole < child = l.after in
                let (b, run, s) =
                  shiftdown_from-settles fuel n moved child val (rw length-set room)
                    (rw length-set (omega arith)) (omega arith) (omega arith)
                    (sink n array val room hole child v l (ground arith)) in
                (
                  b,
                  rw (inner, go, run),
                  record {
                    size = s.size ∙ length-set array hole (cell array child);
                    heap = s.heap;
                    same = λ p.
                        s.same p
                        ∙ tally-moved p array n hole child val (omega arith) inside room
                            (omega arith);
                  },
                )
          ]
    ]
