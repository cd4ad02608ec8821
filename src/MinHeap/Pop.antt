-- ===== src/MinHeap/Pop.antt =====
-- `heap_top` and `heap_pop` of src/lua-minheap.c.
use my_skynet.Prelude.{
  ℕ, zero, suc, ◌+◌, ◌-◌, ◌≤◌, ◌<◌, ◌≡◌, refl, ap, ◌∙◌, ◌↔◌, true, false, List, Bool, arith, ◌==◌,
  leb, ltb, none, some, inl, inr, ◌⊎◌,
}
use native.Mathlib.Decide.{dec_le}
use my_skynet.MinHeap.{Node, MinHeap, cell, heap_shiftdown, heap_top, heap_pop}
use my_skynet.MinHeap.Order.{Cells, filled, one_if, tally, tally_change, root_least}
use my_skynet.MinHeap.Down.{shiftdown_from-settles}
use my_skynet.MinHeap.Queue.{IsValid, Popped}

-- the multiset that is left when the last node takes the place of the root
tally-root :
    (p : Node → Bool) (array : List Node) (n : ℕ)
    → tally p (filled array 0 (cell array n)) n + one_if (p (cell array 0))
      ≡ tally p (cell array) (suc n)
unfolding tally
tally-root p array zero = omega arith
tally-root p array (suc n) =
    let last = cell array (suc n) in
    let put =
      tally_change p (filled array 0 last) (cell array) (suc n) 0 (omega arith)
        (λ j d. ground arith) in
    ground (arith, put)

pop_root :
    (heap : MinHeap) (k cmp : ℕ)
    → IsValid heap
    → heap.num ≡ suc k
    → (cell heap.array 0).expire ≤ cmp
    → (heap' : MinHeap) × (heap_pop heap cmp ≡ some (heap', some (cell heap.array 0)))
      × Popped heap (cell heap.array 0) heap'
unfolding heap_pop heap_shiftdown
pop_root heap k cmp v size due =
    let array = heap.array in
    let (b, run, s) =
      shiftdown_from-settles (suc k) k array 0 (cell array k) (omega (arith, v.cells, v.room))
        (omega (arith, v.cells, v.room)) (omega arith) (omega arith)
        (record {
          edges = λ c p q d. ground (arith, v.order c);
          bridged = λ c p q e r. absurd (omega arith);
        }) in
    let last : heap.num - 1 ≡ k = omega arith in
    let busy : (heap.num == 0) ≡ false = ground arith in
    let go : leb (cell array 0).expire cmp ≡ true = ground arith in
    (
      record heap { num = k; array = b },
      rw (last, run, busy, go),
      record {
        valid = record { cells = s.size ∙ v.cells; room = omega (arith, v.room); order = s.heap };
        num = omega arith;
        same = λ p.
            ap (λ t. t + one_if (p (cell array 0))) (s.same p) ∙ rw size (tally-root p array k);
        least = λ i h. root_least heap.num i (cell array) v.order h;
      },
    )

-- `pop` on a valid heap whose root is due gives out the root: no timer expires before it, and exactly
-- it leaves the multiset; the heap that is left is valid.
pub heap_pop-due :
    (heap : MinHeap) (cmp : ℕ)
    → IsValid heap
    → 0 < heap.num
    → (cell heap.array 0).expire ≤ cmp
    → (heap' : MinHeap) × (heap_pop heap cmp ≡ some (heap', some (cell heap.array 0)))
      × Popped heap (cell heap.array 0) heap'
heap_pop-due heap cmp v some_left due = pop_root heap (heap.num - 1) cmp v (omega arith) due

-- `pop` leaves a valid heap as it is and gives nothing out where no timer is due, and only there.
pub heap_pop-none :
    (heap : MinHeap) (cmp : ℕ)
    → IsValid heap
    → (heap_pop heap cmp ≡ some (heap, none))
      ↔ ((i : ℕ) → i < heap.num → cmp < (cell heap.array i).expire)
unfolding heap_pop
heap_pop-none heap cmp v = (nothing, λ all. ground (arith, all 0))
  where
    nothing :
        heap_pop heap cmp ≡ some (heap, none)
        → (i : ℕ) → i < heap.num
        → cmp < (cell heap.array i).expire
    nothing e i h = elim (dec_le (cell heap.array 0).expire cmp) [
      | yes due ↦ let (heap', run, _) = heap_pop-due heap cmp v (omega arith) due in cc
      | no late ↦ omega (arith, root_least heap.num i (cell heap.array) v.order h)
    ]

-- On a valid heap `top` shows nothing where it is empty; else it shows a timer before which none
-- expires.
pub heap_top-least :
    (heap : MinHeap)
    → IsValid heap
    → ((heap.num ≡ 0) × (heap_top heap ≡ none))
      ⊎ ((out : Node) × (heap_top heap ≡ some out)
          × ((i : ℕ) → i < heap.num → out.expire ≤ (cell heap.array i).expire))
unfolding heap_top
heap_top-least heap v = elim (dec_le heap.num 0) [
  | yes e ↦ inl (omega arith, ground arith)
  | no d ↦
      inr
        (cell heap.array 0, ground arith, λ i h. root_least heap.num i (cell heap.array) v.order h)
]

tally_none :
    (p : Node → Bool) (f : Cells) (n : ℕ) → ((i : ℕ) → i < n → p (f i) ≡ false) → tally p f n ≡ 0
unfolding tally
tally_none p f zero h = refl
tally_none p f (suc n) h =
    rw (h n (omega arith)) (omega (arith, tally_none p f n (λ i q. h i (omega arith))))

tally_some : (p : Node → Bool) (f : Cells) (n : ℕ) → 0 < n → p (f 0) ≡ true → 0 < tally p f n
unfolding tally
tally_some p f zero k h = absurd (omega arith)
tally_some p f (suc zero) k h = ground arith
tally_some p f (suc (suc n)) k h = omega (arith, tally_some p f (suc n) (omega arith) h)

-- What stands at the root after a `pop` expires no earlier than what was given out.
pub heap_pop_later :
    (heap heap' : MinHeap) (out : Node)
    → Popped heap out heap'
    → 0 < heap'.num
    → out.expire ≤ (cell heap'.array 0).expire
heap_pop_later heap heap' out first busy =
    let early = λ (x : Node). ltb x.expire out.expire in
    let none_early =
      tally_none early (cell heap.array) heap.num (λ i h. ground (arith, first.least i h)) in
    elim (dec_le out.expire (cell heap'.array 0).expire) [
      | yes h ↦ h
      | no h ↦
          let found : early (cell heap'.array 0) ≡ true = ground (arith, h) in
          absurd (
            omega (
              arith,
              first.same early,
              none_early,
              tally_some early (cell heap'.array) heap'.num busy found,
            ))
    ]
