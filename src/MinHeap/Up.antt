-- ===== src/MinHeap/Up.antt =====
-- `heap_shiftup` of src/lua-minheap.c restores the heap.
use my_skynet.Prelude.{
  ℕ, zero, suc, ◌≤◌, ◌<◌, ◌≡◌, ◌≢◌, refl, ◌∙◌, List, arith, length, set, length-set, some, inl, inr,
  Bool-cases, ltb,
}
use my_skynet.MinHeap.{Node, cell, shiftup_from}
use my_skynet.MinHeap.Order.{parent, Cells, filled, cell-set, tally-moved, Settled, settle}

-- Only the edge above the hole may be out of order.
pub record UpInv (n : ℕ) (f : Cells) (hole : ℕ) : Type 0 where
  pub inside : hole < n
  pub edges : (c : ℕ) → 0 < c → c < n → c ≢ hole → (f (parent c)).expire ≤ (f c).expire
  pub bridged :
      (c : ℕ) → 0 < c → c < n → parent c ≡ hole → 0 < hole → (f (parent hole)).expire ≤ (f c).expire

module _ (n : ℕ) (array : List Node) (val : Node) (room : n ≤ length array) where
  rise :
      (hole : ℕ)
      → UpInv n (filled array hole val) hole
      → 0 < hole
      → val.expire ≤ (cell array (parent hole)).expire
      → UpInv n (filled (set array hole (cell array (parent hole))) (parent hole) val) (parent hole)
  rise hole v pos above =
      let at = λ (c : ℕ). cell-set array hole c (cell array (parent hole)) (omega arith) in
      record {
        inside = omega arith;
        edges = λ c p q d.
            ground (arith, v.edges c, v.bridged c, at c, at (parent c), at hole, at (parent hole));
        bridged = λ c p q e r.
            ground (arith, v.edges c, v.edges (parent hole), at c, at (parent (parent hole)));
      }

pub shiftup_from-settles :
    (fuel n : ℕ) (array : List Node) (hole : ℕ) (val : Node)
    → n ≤ length array
    → hole < fuel
    → UpInv n (filled array hole val) hole
    → (b : List Node) × (shiftup_from fuel array hole val ≡ some b)
      × Settled n array (filled array hole val) b
unfolding shiftup_from
shiftup_from-settles zero n array hole val room f v = absurd (omega arith)
shiftup_from-settles (suc fuel) n array zero val room f v = (
  set array zero val,
  refl,
  settle n array val zero (omega arith) (λ c p q. v.edges c p q (omega arith)),
)
shiftup_from-settles (suc fuel) n array (suc hole') val room f v =
    let hole : ℕ = suc hole' in
    let above = cell array (parent hole) in
    elim (Bool-cases (ltb above.expire val.expire)) [
      | inl stop ↦ (
        set array hole val,
        ground arith,
        settle n array val hole (omega arith) (λ c p q. ground (arith, v.edges c)),
      )
      | inr go ↦
          let moved = set array hole above in
          let (b, run, s) =
            shiftup_from-settles fuel n moved (parent hole) val (rw length-set room) (omega arith)
              (rise n array val room hole v (omega arith) (ground arith)) in
          (
            b,
            rw (go, run) (ground arith),
            record {
              size = s.size ∙ length-set array hole above;
              heap = s.heap;
              same = λ p.
                  s.same p
                  ∙ tally-moved p array n hole (parent hole) val v.inside (omega arith) room
                      (omega arith);
            },
          )
    ]
