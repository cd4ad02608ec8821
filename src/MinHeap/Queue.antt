-- ===== src/MinHeap/Queue.antt =====
-- The invariant of a heap of src/lua-minheap.c, and what `add` and `pop` are to leave.
use my_skynet.Prelude.{ℕ, ◌+◌, ◌≤◌, ◌<◌, ◌≡◌, Bool, arith, length}
use my_skynet.MinHeap.{Node, MinHeap, cell, new, heap_clean}
use my_skynet.MinHeap.Order.{IsHeap, one_if, tally}

pub record IsValid (heap : MinHeap) : Type 0 where
  pub cells : length heap.array ≡ heap.cap
  pub room : heap.num ≤ heap.cap
  pub order : IsHeap heap.num (cell heap.array)

-- How many timers in the heap satisfy `p`.
abbrev pub timers : (Node → Bool) → MinHeap → ℕ
timers p heap = tally p (cell heap.array) heap.num

pub new-IsValid : IsValid new
new-IsValid = omega arith

pub heap_clean-IsValid : (heap : MinHeap) → IsValid heap → IsValid (heap_clean heap)
unfolding heap_clean
heap_clean-IsValid heap v = record { cells = v.cells; room = omega arith; order = omega arith }

-- What `add` leaves when it has put `val` in.
pub record Added (heap : MinHeap) (val : Node) (heap' : MinHeap) : Type 0 where
  pub valid : IsValid heap'
  pub num : heap'.num ≡ heap.num + 1
  pub same : (p : Node → Bool) → timers p heap' ≡ timers p heap + one_if (p val)

-- What `pop` leaves when it has taken `out` from the root.
pub record Popped (heap : MinHeap) (out : Node) (heap' : MinHeap) : Type 0 where
  pub valid : IsValid heap'
  pub num : heap'.num + 1 ≡ heap.num
  pub same : (p : Node → Bool) → timers p heap' + one_if (p out) ≡ timers p heap
  pub least : (i : ℕ) → i < heap.num → out.expire ≤ (cell heap.array i).expire
