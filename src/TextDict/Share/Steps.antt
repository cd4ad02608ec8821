-- ===== src/TextDict/Share/Steps.antt =====
-- Each step of a thread of src/lua-textdict.c keeps the counts and the lock right.
use my_skynet.Prelude.{
  ℕ, ◌+◌, ◌≤◌, refl, arith, Bool, true, false, Option, none, some, if◌then◌else◌, inl, inr,
}
use my_skynet.Counted.{
  points, same_pointer, same_pointer-true, ref_of, AreLive, read-live, allocate-live,
  ref_of-allocate,
}
use my_skynet.Counted.Slot.Laws.{
  Agrees, Good, IsGood-if, quiet-IsGood, take_lock-IsGood, release-IsGood, count_up-IsGood,
}
use my_skynet.Counted.System.{Shared, ok, lock_bit, IsGood}
use my_skynet.TextDict.Share.{
  Point, idle, checking, grabbing, reading, counting, releasing, storing, dropping, using, changing,
  swapping, comparing, unlocking, finishing, DictThread, Request, check, build, abandon, checked,
  step_at, step,
}
use my_skynet.TextDict.Share.Refs.{local_refs, critical, held, inside, LocalsAgree, dict_roles}

abbrev thread_at : Option ℕ → Point → DictThread
thread_at specific p = record { specific = specific; point = p }

checked-IsGood :
    {A : Type 0} (sh : Shared A) (specific : Option ℕ) (b : Bool)
    → AreLive sh.cells
    → Good dict_roles sh
        (thread_at specific checking)
        (ok sh (thread_at specific (if b then checked specific else grabbing specific)))
unfolding checked local_refs critical LocalsAgree
checked-IsGood sh none true live =
    quiet-IsGood dict_roles sh _ live (thread_at none idle) (λ a. refl) refl tt
checked-IsGood sh (some c) true live =
    quiet-IsGood dict_roles sh _ live (thread_at (some c) (using c)) (λ a. refl) refl refl
checked-IsGood sh specific false live =
    quiet-IsGood dict_roles sh _ live (thread_at specific (grabbing specific)) (λ a. refl) refl refl

module _ {A : Type 0} (sh : Shared A) (live : AreLive sh.cells) (specific : Option ℕ) where
  abbrev at : Point → DictThread
  at p = thread_at specific p

  -- A step of a thread whose references are counted and whose locals agree.
  step_at-IsGood :
      (p : Point) (r : Request A)
      → ((a : ℕ) → points sh.ctx a + held a (at p) ≤ ref_of sh.cells a)
      → critical p ≤ lock_bit sh.lock
      → LocalsAgree sh.ctx specific p
      → Good dict_roles sh (at p) (step_at sh (at p) r p)
  unfolding step_at local_refs critical LocalsAgree IsGood
  step_at-IsGood idle check mine mutex agree =
      quiet-IsGood dict_roles sh _ live (at checking) (λ a. refl) refl tt
  step_at-IsGood idle (build x) mine mutex agree = record {
    live = allocate-live sh.cells x live;
    moved = λ a. omega (arith, ref_of-allocate sh.cells x a);
    bit = refl;
    owner = inl refl;
    agree = tt;
  }
  step_at-IsGood idle abandon mine mutex agree =
      quiet-IsGood dict_roles sh _ live (at idle) (λ a. refl) refl tt
  step_at-IsGood checking r mine mutex agree =
      checked-IsGood sh specific (same_pointer specific sh.ctx) live
  step_at-IsGood (grabbing old) r mine mutex agree =
      take_lock-IsGood dict_roles sh _ live (reading old) refl refl (λ a. refl) agree agree
  step_at-IsGood (reading old) r mine mutex agree =
      quiet-IsGood dict_roles sh _ live (at (counting old sh.ctx)) (λ a. refl) refl (agree, refl)
  step_at-IsGood (counting old new) r mine mutex agree =
      count_up-IsGood dict_roles sh _ live new (releasing old new)
        (λ a. rw agree.1 (omega (arith, mine a))) (λ a. omega arith) refl agree.0
  step_at-IsGood (releasing old new) r mine mutex agree = record {
    live = live;
    moved = λ a. refl;
    bit = ground (arith, mutex);
    owner = inl refl;
    agree = agree;
  }
  step_at-IsGood (storing old new) r mine mutex agree =
      quiet-IsGood dict_roles sh _ live (record { specific = new; point = dropping old })
        (λ a. rw agree (omega arith)) refl tt
  step_at-IsGood (dropping old) r mine mutex agree =
      release-IsGood dict_roles sh _ live old checking (λ a. omega (arith, mine a))
        (λ a. omega arith) refl tt
  step_at-IsGood (using c) r mine mutex agree =
      let (x, run) = read-live sh.cells c live (ground (arith, mine c, agree)) in
      rw (run, IsGood, step_at) (quiet-IsGood dict_roles sh _ live (at idle) (λ a. refl) refl tt)
  step_at-IsGood (changing c) abandon mine mutex agree =
      release-IsGood dict_roles sh _ live (some c) idle (λ a. omega (arith, mine a))
        (λ a. omega arith) refl tt
  step_at-IsGood (changing c) check mine mutex agree =
      take_lock-IsGood dict_roles sh _ live (swapping c) refl refl (λ a. refl) agree tt
  step_at-IsGood (changing c) (build x) mine mutex agree =
      take_lock-IsGood dict_roles sh _ live (swapping c) refl refl (λ a. refl) agree tt
  step_at-IsGood (swapping c) r mine mutex agree =
      quiet-IsGood dict_roles sh _ live (at (comparing c sh.ctx)) (λ a. refl) refl tt
  step_at-IsGood (comparing c old) r mine mutex agree =
      IsGood-if dict_roles sh _ (same_pointer sh.ctx old) _ _
        (λ e. record {
          live = live;
          moved = λ a. rw (same_pointer-true sh.ctx old e) (omega arith);
          bit = refl;
          owner = inr (refl, tt);
          agree = tt;
        })
        (λ e. quiet-IsGood dict_roles sh _ live (at (swapping c)) (λ a. refl) refl tt)
  step_at-IsGood (unlocking old) r mine mutex agree = record {
    live = live;
    moved = λ a. refl;
    bit = ground (arith, mutex);
    owner = inl refl;
    agree = tt;
  }
  step_at-IsGood (finishing old) r mine mutex agree =
      release-IsGood dict_roles sh _ live old idle (λ a. omega (arith, mine a)) (λ a. omega arith)
        refl tt

pub step-IsGood :
    {A : Type 0} (sh : Shared A) (t : DictThread) (r : Request A)
    → AreLive sh.cells
    → ((a : ℕ) → points sh.ctx a + held a t ≤ ref_of sh.cells a)
    → inside t ≤ lock_bit sh.lock
    → Agrees dict_roles sh.ctx t
    → Good dict_roles sh t (step sh t r)
unfolding step
step-IsGood sh t r live mine mutex agree =
    step_at-IsGood sh live t.specific t.point r mine mutex agree
