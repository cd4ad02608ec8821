-- ===== src/MinHeap/Drain.antt =====
-- Calls of `pop` of src/lua-minheap.c one after the other, until nothing is due.
use my_skynet.Prelude.{
  ℕ, zero, suc, ◌+◌, ◌≤◌, ◌<◌, ◌≡◌, refl, List, [], ◌∷◌, Bool, arith, Option, none, some,
}
use native.Mathlib.Decide.{dec_le}
use my_skynet.MinHeap.{Node, MinHeap, cell, heap_pop}
use my_skynet.MinHeap.Order.{one_if, root_least}
use my_skynet.MinHeap.Queue.{IsValid, timers}
use my_skynet.MinHeap.Pop.{heap_pop-due, heap_pop-none, heap_pop_later}

-- at most `n` calls; `pop` leaves the heap with what it gives
unfoldable pub drain : ℕ → MinHeap → ℕ → Option (MinHeap × List Node)
drain zero heap cmp = some (heap, [])
drain (suc n) heap cmp = elim (heap_pop heap cmp) [
  | none ↦ none
  | some (heap', none) ↦ some (heap', [])
  | some (heap', some out) ↦ elim (drain n heap' cmp) [
    | none ↦ none
    | some (rest, outs) ↦ some (rest, out ∷ outs)
  ]
]

-- in order of expiry, from a bound up to another
abbrev pub Ascending : ℕ → ℕ → List Node → Type 0
Ascending low high [] = Unit {0}
Ascending low high (out ∷ outs) =
    (low ≤ out.expire) × (out.expire ≤ high) × Ascending out.expire high outs

unfoldable pub count : (Node → Bool) → List Node → ℕ
count p [] = 0
count p (out ∷ outs) = one_if (p out) + count p outs

-- What draining leaves of a heap, and what it gives out.
pub record Drained (heap : MinHeap) (cmp low : ℕ) (heap' : MinHeap) (outs : List Node)
    : Type 0 where
  pub valid : IsValid heap'
  pub sorted : Ascending low cmp outs
  pub same : (p : Node → Bool) → timers p heap' + count p outs ≡ timers p heap
  pub none_due : (i : ℕ) → i < heap'.num → cmp < (cell heap'.array i).expire

drained :
    (n : ℕ) (heap : MinHeap) (cmp low : ℕ)
    → IsValid heap
    → heap.num ≤ n
    → (0 < heap.num → low ≤ (cell heap.array 0).expire)
    → (heap' : MinHeap) × (outs : List Node) × (drain n heap cmp ≡ some (heap', outs))
      × Drained heap cmp low heap' outs
unfolding drain count
drained zero heap cmp low v h b = (
  heap,
  [],
  refl,
  record {
    valid = v;
    sorted = tt;
    same = λ p. omega arith;
    none_due = λ i k. absurd (omega (arith, h, k));
  },
)
drained (suc n) heap cmp low v h b = elim (dec_le heap.num 0) [
  | yes empty ↦ stop (λ i k. absurd (omega (arith, empty, k)))
  | no some_left ↦ elim (dec_le (cell heap.array 0).expire cmp) [
    | yes due ↦
        let busy : 0 < heap.num = omega (arith, some_left) in
        let (heap1, run, p) = heap_pop-due heap cmp v busy due in
        let (heap', outs, runs, d) =
          drained n heap1 cmp (cell heap.array 0).expire p.valid (omega (arith, h, p.num))
            (heap_pop_later heap heap1 (cell heap.array 0) p) in
        (
          heap',
          cell heap.array 0 ∷ outs,
          rw (drain, run, runs) refl,
          record {
            valid = d.valid;
            sorted = (b busy, due, d.sorted);
            same = λ q. omega (arith, d.same q, p.same q);
            none_due = d.none_due;
          },
        )
    | no late ↦ stop (λ i k. omega (arith, root_least heap.num i (cell heap.array) v.order k, late))
  ]
]
  where
    stop :
        ((i : ℕ) → i < heap.num → cmp < (cell heap.array i).expire)
        → (heap' : MinHeap) × (outs : List Node) × (drain (suc n) heap cmp ≡ some (heap', outs))
          × Drained heap cmp low heap' outs
    stop none_due = (
      heap,
      [],
      rw (drain, (heap_pop-none heap cmp v).1 none_due) refl,
      record { valid = v; sorted = tt; same = λ p. omega arith; none_due = none_due },
    )

-- On a valid heap, as many calls of `pop` as it has timers give out, in order of expiry, timers that are due. The
-- heap that is left is valid, none of its timers is due, and they are, with those that were given out, the timers
-- that there were, each as often.
pub drain_lem :
    (heap : MinHeap) (cmp : ℕ)
    → IsValid heap
    → (heap' : MinHeap) × (outs : List Node) × (drain heap.num heap cmp ≡ some (heap', outs))
      × Drained heap cmp 0 heap' outs
drain_lem heap cmp v = drained heap.num heap cmp 0 v (omega arith) (λ h. omega arith)
