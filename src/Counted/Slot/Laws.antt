-- ===== src/Counted/Slot/Laws.antt =====
-- The shared steps of src/lua-textdict.c and src/lua-shareval.c keep the counts and the lock right, whatever
-- the points of the threads are.
use my_skynet.Prelude.{
  ℕ, ◌+◌, ◌≤◌, ◌≡◌, refl, arith, Bool, true, false, Option, none, some, if◌then◌else◌, inl,
}
use my_skynet.Counted.{points, ref_of, AreLive, grab_ref-live, release_ref-live}
use my_skynet.Counted.System.{Shared, Outcome, ok, IsGood}
use my_skynet.Counted.Slot.{Thread, take_lock, release, count_up}

-- What a protocol makes of its points: what the locals hold beside the slot, 1 between `LOCK` and `UNLOCK`,
-- what the locals know of the shared pointer and the slot, and what the owner of the lock may do to the
-- shared pointer.
pub record Roles (P : Type 0) : Type 1 where
  pub local_refs : P → ℕ → ℕ
  pub critical : P → ℕ
  pub Knows : Option ℕ → Option ℕ → P → Type 0
  pub Change : Option ℕ → Option ℕ → Type 0

module _ {P : Type 0} (k : Roles P) where
  abbrev pub slot_held : ℕ → Thread P → ℕ
  slot_held a t = points t.specific a + k.local_refs t.point a

  abbrev pub slot_inside : Thread P → ℕ
  slot_inside t = k.critical t.point

  abbrev pub Agrees : Option ℕ → Thread P → Type 0
  Agrees ctx t = k.Knows ctx t.specific t.point

module _ {A P : Type 0} (k : Roles P) where
  abbrev pub Good : Shared A → Thread P → Outcome A (Thread P) → Type 0
  Good = IsGood (slot_held k) (slot_inside k) (Agrees k) k.Change

  pub IsGood-if :
      (sh : Shared A) (t : Thread P) (b : Bool) (o o' : Outcome A (Thread P))
      → (b ≡ true → Good sh t o)
      → (b ≡ false → Good sh t o')
      → Good sh t (if b then o else o')
  IsGood-if sh t true o o' f g = f refl
  IsGood-if sh t false o o' f g = g refl

  module _ (sh : Shared A) (t : Thread P) (live : AreLive sh.cells) where
    -- A step that changes neither the instance nor a count.
    pub quiet-IsGood :
        (t' : Thread P)
        → ((a : ℕ) → slot_held k a t ≡ slot_held k a t')
        → slot_inside k t ≡ slot_inside k t'
        → k.Knows sh.ctx t'.specific t'.point
        → Good sh t (ok sh t')
    unfolding IsGood
    quiet-IsGood t' same bit agree = record {
      live = live;
      moved = λ a. omega (arith, same a);
      bit = omega (arith, bit);
      owner = inl refl;
      agree = agree;
    }

    pub take_lock-IsGood :
        (next : P)
        → slot_inside k t ≡ 0
        → k.critical next ≡ 1
        → ((a : ℕ) → k.local_refs t.point a ≡ k.local_refs next a)
        → k.Knows sh.ctx t.specific t.point
        → k.Knows sh.ctx t.specific next
        → Good sh t (take_lock sh t next)
    unfolding take_lock IsGood
    take_lock-IsGood next out in_next same before after =
        IsGood-if sh t sh.lock _ _ (λ e. quiet-IsGood t (λ a. refl) refl before)
          (λ e. record {
            live = live;
            moved = λ a. omega (arith, same a);
            bit = ground (arith, e, out, in_next);
            owner = inl refl;
            agree = after;
          })

    -- To release what the thread holds beside its slot.
    pub release-IsGood :
        (old : Option ℕ) (next : P)
        → ((a : ℕ) → points old a ≤ ref_of sh.cells a)
        → ((a : ℕ) → k.local_refs t.point a ≡ points old a + k.local_refs next a)
        → slot_inside k t ≡ k.critical next
        → k.Knows sh.ctx t.specific next
        → Good sh t (release sh t old next)
    unfolding release IsGood
    release-IsGood none next mine same bit agree =
        quiet-IsGood (record t { point = next }) (λ a. omega (arith, same a)) bit agree
    release-IsGood (some c) next mine same bit agree =
        let (cells, run, after) = release_ref-live sh.cells c live (ground (arith, mine c)) in
        rw (run, release)
          (record {
            live = after.live;
            moved = λ a. omega (arith, same a, after.counts a);
            bit = omega (arith, bit);
            owner = inl refl;
            agree = agree;
          })

    pub count_up-IsGood :
        (new : Option ℕ) (next : P)
        → ((a : ℕ) → points new a ≤ ref_of sh.cells a)
        → ((a : ℕ) → k.local_refs next a ≡ points new a + k.local_refs t.point a)
        → slot_inside k t ≡ k.critical next
        → k.Knows sh.ctx t.specific next
        → Good sh t (count_up sh t new next)
    unfolding count_up IsGood
    count_up-IsGood none next mine same bit agree =
        quiet-IsGood (record t { point = next }) (λ a. omega (arith, same a)) bit agree
    count_up-IsGood (some c) next mine same bit agree =
        let (cells, run, after) = grab_ref-live sh.cells c live (ground (arith, mine c)) in
        rw (run, count_up)
          (record {
            live = after.live;
            moved = λ a. omega (arith, same a, after.counts a);
            bit = omega (arith, bit);
            owner = inl refl;
            agree = agree;
          })
