-- ===== src/MinHeap/Add.antt =====
-- `new`, `clean`, `heap_resize` and `heap_add` of src/lua-minheap.c.
use my_skynet.Prelude.{
  ℕ, zero, suc, ◌+◌, ◌*◌, ◌≤◌, ◌<◌, ◌≡◌, refl, ◌∙◌, List, [], ◌∷◌, Bool, arith, leb, ltb,
  if◌then◌else◌, length, some, inl, inr, Bool-cases,
}
use native.Mathlib.Numerals.{add-one}
use my_skynet.MinHeap.{
  Node, MinHeap, cell, copy_cells, heap_resize, heap_shiftup, add_last, heap_add,
}
use my_skynet.MinHeap.Order.{parent, filled, one_if, tally, tally_same}
use my_skynet.MinHeap.Up.{shiftup_from-settles}
use my_skynet.MinHeap.Queue.{IsValid, timers, Added}

length-copy_cells : (a b : List Node) → length a ≤ length b → length (copy_cells a b) ≡ length b
unfolding copy_cells
length-copy_cells [] b h = refl
length-copy_cells (x ∷ a) [] h = absurd (omega arith)
length-copy_cells (x ∷ a) (y ∷ b) h = omega (arith, length-copy_cells a b)

cell-copy_cells :
    (a b : List Node) (i : ℕ)
    → length a ≤ length b
    → i < length a
    → cell (copy_cells a b) i ≡ cell a i
unfolding copy_cells
cell-copy_cells [] b i h k = absurd (omega arith)
cell-copy_cells (x ∷ a) [] i h k = absurd (omega arith)
cell-copy_cells (x ∷ a) (y ∷ b) zero h k = refl
cell-copy_cells (x ∷ a) (y ∷ b) (suc i) h k = cell-copy_cells a b i (omega arith) (omega arith)

tally-last :
    (p : Node → Bool) (array : List Node) (n : ℕ) (val : Node)
    → tally p (filled array n val) (suc n) ≡ tally p (cell array) n + one_if (p val)
unfolding tally
tally-last p array n val =
    let before = tally_same p (filled array n val) (cell array) n (λ j h. ground arith) in
    ground (arith, before)

add_last-Added :
    (heap : MinHeap) (val : Node)
    → IsValid heap
    → heap.num < heap.cap
    → (heap' : MinHeap) × (add_last heap val ≡ some heap') × Added heap val heap'
unfolding add_last heap_shiftup tally
add_last-Added heap val v more =
    let n = heap.num in
    let array = heap.array in
    let (b, run, s) =
      shiftup_from-settles (suc n) (suc n) array n val (omega (arith, v.cells)) (omega arith)
        (record {
          inside = omega arith;
          edges = λ c p q d. ground (arith, v.order c);
          bridged = λ c p q e r. absurd (omega arith);
        }) in
    (
      record heap { array = b; num = n + 1 },
      rw run,
      record {
        valid = record {
          cells = s.size ∙ v.cells;
          room = omega arith;
          order = λ c p q. s.heap c p (omega arith);
        };
        num = refl;
        same = λ p. rw add-one (s.same p ∙ tally-last p array n val);
      },
    )

-- Fresh memory has the size that was asked for.
module _ (malloc : ℕ → List Node) (sized : (n : ℕ) → length (malloc n) ≡ n) where
  -- A resize keeps the timers and makes room.
  pub record Resized (heap heap' : MinHeap) : Type 0 where
    pub valid : IsValid heap'
    pub num : heap'.num ≡ heap.num
    pub more : heap.num < heap'.cap
    pub same : (p : Node → Bool) → timers p heap' ≡ timers p heap

  copied :
      (heap : MinHeap) (ncap : ℕ)
      → IsValid heap
      → heap.cap < ncap
      → Resized heap (record heap { array = copy_cells heap.array (malloc ncap); cap = ncap })
  copied heap ncap v more =
      let fits : length heap.array ≤ length (malloc ncap) = omega (arith, v.cells, sized ncap) in
      let kept = λ (i : ℕ) (h : i < heap.num).
        cell-copy_cells heap.array (malloc ncap) i fits (omega (arith, v.cells, v.room)) in
      record {
        valid = record {
          cells = length-copy_cells heap.array (malloc ncap) fits ∙ sized ncap;
          room = omega (arith, v.room);
          order = λ c p q. rw (kept c q, kept (parent c) (omega arith)) (v.order c p q);
        };
        num = refl;
        more = omega (arith, v.room);
        same = λ p. tally_same p _ _ heap.num kept;
      }

  grow : MinHeap → MinHeap
  grow heap = if leb heap.cap (heap.num + 1) then heap_resize malloc heap else heap

  grow-Resized : (heap : MinHeap) → IsValid heap → Resized heap (grow heap)
  unfolding grow heap_resize
  grow-Resized heap v = elim (Bool-cases (leb heap.cap (heap.num + 1))) [
    | inl full ↦ rw full (copied heap (if ltb 0 heap.cap then heap.cap * 2 else 8) v (ground arith))
    | inr free ↦ rw free (record { valid = v; num = refl; more = ground arith; same = λ p. refl })
  ]

  -- Where fresh memory has the size asked for, `add` on a valid heap succeeds: the heap stays valid and
  -- exactly the timer is added to the multiset.
  pub heap_add-Added :
      (heap : MinHeap) (val : Node)
      → IsValid heap
      → (heap' : MinHeap) × (heap_add malloc heap val ≡ some heap') × Added heap val heap'
  unfolding heap_add grow
  heap_add-Added heap val v =
      let r = grow-Resized heap v in
      let (heap', run, a) = add_last-Added (grow heap) val r.valid (omega (arith, r.more, r.num)) in
      (
        heap',
        run,
        record {
          valid = a.valid;
          num = omega (arith, a.num, r.num);
          same = λ p. omega (arith, a.same p, r.same p);
        },
      )
