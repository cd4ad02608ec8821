-- ===== src/MinHeap.antt =====
-- src/lua-minheap.c: a binary min-heap of timers in a growing array.
-- An `int64_t` is kept as its value plus 2^63, so that its order is that of the numbers; the file
-- only compares `expire` and carries `value`. The counts stay far below `size_t`'s 2^64.
-- The array of a heap is the list of its `cap` cells. `malloc` is a parameter: what fresh memory
-- of a number of cells holds. A read out of the array gives `wild`.
mod Tests
pub mod Order
pub mod Up
pub mod Down
pub mod Queue
pub mod Add
pub mod Pop
pub mod Drain
use my_skynet.Prelude.{
  ℕ, zero, suc, ◌+◌, ◌-◌, ◌*◌, ◌/◌, List, [], ◌∷◌, Bool, ◌&&◌, Option, none, some, ltb, leb, ◌==◌,
  if◌then◌else◌, get_or, set,
}
use mathlib.Core.Option

pub record Node : Type 0 where
  pub expire : ℕ
  pub value : ℕ

pub record MinHeap : Type 0 where
  pub cap : ℕ
  pub num : ℕ
  pub array : List Node

abbrev pub wild : Node
wild = record { expire = 0; value = 0 }

abbrev pub cell : List Node → ℕ → Node
cell array i = get_or array i wild

-- the loop that copies the `cap` old cells to the new array
unfoldable pub copy_cells : List Node → List Node → List Node
copy_cells [] narray = narray
copy_cells (x ∷ array) [] = []
copy_cells (x ∷ array) (y ∷ narray) = x ∷ copy_cells array narray

unfoldable pub heap_resize : (ℕ → List Node) → MinHeap → MinHeap
unfolding copy_cells
heap_resize malloc heap =
    let ncap = if ltb 0 heap.cap then heap.cap * 2 else 8 in
    record heap { array = copy_cells heap.array (malloc ncap); cap = ncap }

-- The loop of `heap_shiftup`, and the write behind it; none if the fuel runs out.
unfoldable pub shiftup_from : ℕ → List Node → ℕ → Node → Option (List Node)
shiftup_from zero array hole val = none
shiftup_from (suc fuel) array hole val =
    let parent = (hole - 1) / 2 in
    let rest = shiftup_from fuel (set array hole (cell array parent)) parent val in
    if ltb 0 hole
    then (if ltb (cell array parent).expire val.expire then some (set array hole val) else rest)
    else some (set array hole val)

-- `hole` falls with every round.
unfoldable pub heap_shiftup : List Node → ℕ → Node → Option (List Node)
heap_shiftup array hole val = shiftup_from (suc hole) array hole val

-- the child that a round of `heap_shiftdown` chooses
unfoldable pub smaller_child : List Node → ℕ → ℕ → ℕ
smaller_child array num hole =
    let child = 2 * hole + 1 in
    let right = child + 1 in
    if ltb right num && ltb (cell array right).expire (cell array child).expire
    then right
    else child

unfoldable pub shiftdown_from : ℕ → List Node → ℕ → ℕ → Node → Option (List Node)
shiftdown_from zero array num hole val = none
shiftdown_from (suc fuel) array num hole val =
    let child = smaller_child array num hole in
    let rest = shiftdown_from fuel (set array hole (cell array child)) num child val in
    if ltb hole (num / 2)
    then (if ltb val.expire (cell array child).expire then some (set array hole val) else rest)
    else some (set array hole val)

-- `hole` grows with every round and stays below `num`.
unfoldable pub heap_shiftdown : List Node → ℕ → ℕ → Node → Option (List Node)
heap_shiftdown array num hole val = shiftdown_from (suc num) array num hole val

-- `lminheap_new`
abbrev pub new : MinHeap
new = record { cap = 0; num = 0; array = [] }

-- the call `heap_shiftup(heap, heap->num++, val)`
unfoldable pub add_last : MinHeap → Node → Option MinHeap
add_last heap val =
    Option.map (λ array. record heap { array = array; num = heap.num + 1 })
      (heap_shiftup heap.array heap.num val)

unfoldable pub heap_add : (ℕ → List Node) → MinHeap → Node → Option MinHeap
unfolding heap_resize
heap_add malloc heap val =
    let heap' = if leb heap.cap (heap.num + 1) then heap_resize malloc heap else heap in
    add_last heap' val

unfoldable pub heap_top : MinHeap → Option Node
heap_top heap = if heap.num == 0 then none else some (cell heap.array 0)

-- The heap after the call, and the node that it gives out, none for `NULL`.
unfoldable pub heap_pop : MinHeap → ℕ → Option (MinHeap × Option Node)
heap_pop heap cmp =
    let out = cell heap.array 0 in
    let num = heap.num - 1 in
    let popped =
      Option.map (λ array. (record heap { num = num; array = array }, some out))
        (heap_shiftdown heap.array num 0 (cell heap.array num)) in
    if heap.num == 0
    then some (heap, none)
    else if leb out.expire cmp
    then popped
    else some (heap, none)

-- `lminheap_size` and `lminheap_clean`
unfoldable pub heap_size : MinHeap → ℕ
heap_size heap = heap.num

unfoldable pub heap_clean : MinHeap → MinHeap
heap_clean heap = record heap { num = 0 }
