-- ===== src/Shareval/Share/Safety.antt =====
-- No thread of src/lua-shareval.c touches a value that was freed, or one that is `NULL`.
use my_skynet.Prelude.{
  ℕ, ◌+◌, ◌≤◌, ◌<◌, ◌≡◌, ◌≢◌, ◌⊎◌, refl, sym, arith, Bool, true, false, Option, none, some, ◌==◌,
  if◌then◌else◌, inl, inr,
}
use mathlib.Core.Path.{subst}
use my_skynet.Counted.{
  points, same_pointer, ref_of, freed_of, AreLive, read-live, release_ref-live, allocate-live,
  ref_of-allocate,
}
use my_skynet.Counted.Threads.{total}
use my_skynet.Counted.System.{
  Shared, fault, ok, System, lock_bit, IsGood, Protocol, Reach, Reach-IsValid, Reach-no_fault,
}
use my_skynet.Counted.Slot.{release}
use my_skynet.Counted.Slot.Laws.{
  Agrees, Good, quiet-IsGood, take_lock-IsGood, release-IsGood, count_up-IsGood,
}
use my_skynet.Shareval.Share.{
  Point, idle, ended, checking, locking, reading, counting, storing, unlocking, dropping, using,
  updating, taking, putting, leaving, finishing, Request, query, update, exit, SvalThread, fresh,
  returned, count_cur, step_at, step,
}
use my_skynet.Shareval.Share.Refs.{
  local_refs, critical, HasValue, LocalsAgree, KnowsValue, SetsValue, sval_roles, held, inside,
  KnowsValue-outside, fresh_Agrees,
}

abbrev thread_at : Option ℕ → Point → SvalThread
thread_at specific p = record { specific = specific; point = p }

-- A thread whose value is not the shared one can take the shared one.
stale-HasValue :
    (specific ctx : Option ℕ)
    → (specific ≡ none) ⊎ HasValue ctx
    → same_pointer specific ctx ≡ false
    → HasValue ctx
unfolding same_pointer
stale-HasValue specific (some c) had e = tt
stale-HasValue none none had e = cc
stale-HasValue (some b) none (inl f) e = cc
stale-HasValue (some b) none (inr f) e = f

checked-IsGood :
    {A : Type 0} (sh : Shared A) (specific : Option ℕ) (b : Bool)
    → AreLive sh.cells
    → (specific ≡ none) ⊎ HasValue sh.ctx
    → (b ≡ false → HasValue sh.ctx)
    → Good sval_roles sh
        (thread_at specific checking)
        (ok sh (thread_at specific (if b then returned specific else locking specific)))
unfolding returned local_refs critical LocalsAgree
checked-IsGood sh none true live had stale =
    quiet-IsGood sval_roles sh _ live (thread_at none idle) (λ a. refl) refl (had, tt)
checked-IsGood sh (some c) true live had stale =
    quiet-IsGood sval_roles sh _ live (thread_at (some c) (using c)) (λ a. refl) refl (had, refl)
checked-IsGood sh specific false live had stale =
    quiet-IsGood sval_roles sh _ live (thread_at specific (locking specific)) (λ a. refl) refl
      (had, (refl, stale refl))

-- The end of a thread.
exit-IsGood :
    {A : Type 0} (sh : Shared A) (specific : Option ℕ)
    → AreLive sh.cells
    → ((a : ℕ) → points specific a ≤ ref_of sh.cells a)
    → Good sval_roles sh (thread_at specific idle) (release sh (thread_at none idle) specific ended)
unfolding release local_refs critical LocalsAgree IsGood
exit-IsGood sh none live mine =
    quiet-IsGood sval_roles sh _ live (thread_at none ended) (λ a. refl) refl (inl refl, tt)
exit-IsGood sh (some c) live mine =
    let (cells, run, after) = release_ref-live sh.cells c live (ground (arith, mine c)) in
    rw (run, release)
      (record {
        live = after.live;
        moved = λ a. omega (arith, after.counts a);
        bit = refl;
        owner = inl refl;
        agree = (inl refl, tt);
      })

module _ {A : Type 0} (sh : Shared A) (live : AreLive sh.cells) (specific : Option ℕ) where
  abbrev at : Point → SvalThread
  at p = thread_at specific p

  counting-IsGood :
      (old cur : Option ℕ)
      → ((a : ℕ) → points cur a ≤ ref_of sh.cells a)
      → (specific ≡ none) ⊎ HasValue sh.ctx
      → old ≡ specific
      → HasValue cur
      → HasValue sh.ctx
      → Good sval_roles sh (at (counting old cur)) (count_cur sh (at (counting old cur)) old cur)
  unfolding count_cur local_refs critical LocalsAgree
  counting-IsGood old none mine had same set now = absurd set
  counting-IsGood old (some c) mine had same set now =
      count_up-IsGood sval_roles sh _ live (some c) (storing old c) mine (λ a. omega arith) refl
        (had, (same, now))

  -- A step of a thread whose references are counted and whose locals agree.
  step_at-IsGood :
      (p : Point) (r : Request A)
      → ((a : ℕ) → points sh.ctx a + held a (at p) ≤ ref_of sh.cells a)
      → critical p ≤ lock_bit sh.lock
      → KnowsValue sh.ctx specific p
      → Good sval_roles sh (at p) (step_at sh (at p) r p)
  unfolding step_at local_refs critical LocalsAgree IsGood
  step_at-IsGood idle query mine mutex (had, agree) =
      quiet-IsGood sval_roles sh _ live (at checking) (λ a. refl) refl (had, tt)
  step_at-IsGood idle (update x) mine mutex (had, agree) = record {
    live = allocate-live sh.cells x live;
    moved = λ a. omega (arith, ref_of-allocate sh.cells x a);
    bit = refl;
    owner = inl refl;
    agree = (had, tt);
  }
  step_at-IsGood idle exit mine mutex (had, agree) =
      exit-IsGood sh specific live (λ a. omega (arith, mine a))
  step_at-IsGood ended r mine mutex agree =
      quiet-IsGood sval_roles sh _ live (at ended) (λ a. refl) refl agree
  step_at-IsGood checking r mine mutex (had, agree) =
      checked-IsGood sh specific (same_pointer specific sh.ctx) live had
        (stale-HasValue specific sh.ctx had)
  step_at-IsGood (locking old) r mine mutex agree =
      take_lock-IsGood sval_roles sh _ live (reading old) refl refl (λ a. refl) agree agree
  step_at-IsGood (reading old) r mine mutex (had, (same, set)) =
      quiet-IsGood sval_roles sh _ live (at (counting old sh.ctx)) (λ a. refl) refl
        (had, (same, refl, set))
  step_at-IsGood (counting old cur) r mine mutex (had, (same, now, set)) =
      counting-IsGood old cur (λ a. rw now (omega (arith, mine a))) had same
        (subst HasValue (sym now) set) set
  step_at-IsGood (storing old cur) r mine mutex (had, (same, set)) =
      quiet-IsGood sval_roles sh _ live (thread_at (some cur) (unlocking old cur))
        (λ a. rw same (omega arith)) refl (inr set, refl)
  step_at-IsGood (unlocking old cur) r mine mutex (had, agree) = record {
    live = live;
    moved = λ a. refl;
    bit = ground (arith, mutex);
    owner = inl refl;
    agree = (had, agree);
  }
  step_at-IsGood (dropping old cur) r mine mutex (had, agree) =
      release-IsGood sval_roles sh _ live old (using cur) (λ a. omega (arith, mine a))
        (λ a. omega arith) refl (had, agree)
  step_at-IsGood (using c) r mine mutex (had, agree) =
      let (x, run) = read-live sh.cells c live (ground (arith, mine c, agree)) in
      rw (run, IsGood, step_at)
        (quiet-IsGood sval_roles sh _ live (at idle) (λ a. refl) refl (had, tt))
  step_at-IsGood (updating c) r mine mutex (had, agree) =
      take_lock-IsGood sval_roles sh _ live (taking c) refl refl (λ a. refl) (had, agree) (had, tt)
  step_at-IsGood (taking c) r mine mutex (had, agree) =
      quiet-IsGood sval_roles sh _ live (at (putting c sh.ctx)) (λ a. refl) refl (had, refl)
  step_at-IsGood (putting c old) r mine mutex (had, agree) = record {
    live = live;
    moved = λ a. rw agree (omega arith);
    bit = refl;
    owner = inr (refl, tt);
    agree = (inr tt, tt);
  }
  step_at-IsGood (leaving old) r mine mutex (had, agree) = record {
    live = live;
    moved = λ a. refl;
    bit = ground (arith, mutex);
    owner = inl refl;
    agree = (had, tt);
  }
  step_at-IsGood (finishing old) r mine mutex (had, agree) =
      release-IsGood sval_roles sh _ live old idle (λ a. omega (arith, mine a)) (λ a. omega arith)
        refl (had, tt)

pub step-IsGood :
    {A : Type 0} (sh : Shared A) (t : SvalThread) (r : Request A)
    → AreLive sh.cells
    → ((a : ℕ) → points sh.ctx a + held a t ≤ ref_of sh.cells a)
    → inside t ≤ lock_bit sh.lock
    → Agrees sval_roles sh.ctx t
    → Good sval_roles sh t (step sh t r)
unfolding step
step-IsGood sh t r live mine mutex agree =
    step_at-IsGood sh live t.specific t.point r mine mutex agree

-- `sval_check`, `sval_update` and the end of a thread as a protocol.
abbrev pub sval_protocol : (A : Type 0) → Protocol A SvalThread (Request A)
sval_protocol A = record {
  step = step;
  fresh = fresh;
  held = held;
  inside = inside;
  Agree = Agrees sval_roles;
  Change = SetsValue;
  fresh_lem = fresh_Agrees;
  stable = KnowsValue-outside;
  good = step-IsGood;
}

module _ {A : Type 0} {n : ℕ} {s : System A SvalThread}
    (reached : Reach (sval_protocol A) n s) where
  -- However the threads take turns, no step of theirs counts on `NULL`, touches a value that was freed,
  -- frees one twice or counts below 0.
  pub step-safe : (i : ℕ) (r : Request A) → i < n → step s.shared (s.threads i) r ≢ fault
  step-safe = Reach-no_fault (sval_protocol A) reached

  -- However the threads take turns, the count of each value is the number of references to it, from the
  -- shared pointer and from the threads, and it is freed exactly when there are none.
  pub ref_of-sval :
      (a : ℕ)
      → (ref_of s.shared.cells a ≡ points s.shared.ctx a + total (held a) n s.threads)
        × (freed_of s.shared.cells a ≡ (ref_of s.shared.cells a == 0))
  ref_of-sval a = let v = Reach-IsValid (sval_protocol A) reached in (v.counted a, v.live a)
