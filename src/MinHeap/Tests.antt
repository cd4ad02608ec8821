-- ===== src/MinHeap/Tests.antt =====
-- Runs of src/lua-minheap.c, and its theorems at concrete heaps.
use my_skynet.Prelude.{
  ℕ, ◌<◌, ◌≡◌, ◌↔◌, refl, List, [], ◌∷◌, some, none, arith, replicate, length-replicate,
}
use my_skynet.MinHeap.{
  Node, MinHeap, wild, cell, new, heap_shiftup, shiftup_from, heap_shiftdown, shiftdown_from,
  smaller_child, add_last, heap_add, heap_pop,
}
use my_skynet.MinHeap.Queue.{IsValid, Added, Popped}
use my_skynet.MinHeap.Add.{heap_add-Added}
use my_skynet.MinHeap.Drain.{drain, Drained, drain_lem}
use my_skynet.MinHeap.Pop.{heap_pop-due, heap_pop-none}

abbrev timer : ℕ → ℕ → Node
timer expire value = record { expire = expire; value = value }

abbrev fresh : ℕ → List Node
fresh n = replicate n wild

abbrev sample : MinHeap
sample = record { cap = 4; num = 3; array = timer 3 1 ∷ timer 7 2 ∷ timer 5 3 ∷ timer 0 0 ∷ [] }

sample-IsValid : IsValid sample
sample-IsValid = grind arith

abbrev left : MinHeap
left = record sample { num = 2; array = timer 5 3 ∷ timer 7 2 ∷ timer 5 3 ∷ timer 0 0 ∷ [] }

popped : heap_pop sample 4 ≡ some (left, some (timer 3 1))
unfolding heap_pop heap_shiftdown shiftdown_from smaller_child
popped = refl

first_add :
    heap_add fresh new (timer 9 1)
    ≡ some (record { cap = 8; num = 1; array = timer 9 1 ∷ replicate 7 wild })
unfolding heap_add add_last heap_shiftup shiftup_from
first_add = refl

heap_add-Added_example :
    (heap' : MinHeap) × (heap_add fresh sample (timer 1 9) ≡ some heap')
    × Added sample (timer 1 9) heap'
heap_add-Added_example =
    heap_add-Added fresh (λ n. length-replicate n wild) sample (timer 1 9) sample-IsValid

heap_pop-due_example :
    (heap' : MinHeap) × (heap_pop sample 4 ≡ some (heap', some (timer 3 1)))
    × Popped sample (timer 3 1) heap'
heap_pop-due_example = heap_pop-due sample 4 sample-IsValid (omega arith) (omega arith)

heap_pop-none_example :
    (heap_pop sample 2 ≡ some (sample, none)) ↔ ((i : ℕ) → i < 3 → 2 < (cell sample.array i).expire)
heap_pop-none_example = heap_pop-none sample 2 sample-IsValid

drain_lem_example :
    (heap' : MinHeap) × (outs : List Node) × (drain 3 sample 6 ≡ some (heap', outs))
    × Drained sample 6 0 heap' outs
drain_lem_example = drain_lem sample 6 sample-IsValid
