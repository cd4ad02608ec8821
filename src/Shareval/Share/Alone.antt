-- ===== src/Shareval/Share/Alone.antt =====
-- A thread of src/lua-shareval.c that asks for the value while no other takes a turn.
use my_skynet.Prelude.{
  ℕ, ◌<◌, ◌≡◌, ◌⊎◌, inl, inr, refl, ap, ◌∙◌, Bool, true, false, Option, some, replicate, Bool-cases,
}
use my_skynet.Counted.{same_pointer, same_pointer-true}
use my_skynet.Counted.System.{ok, System, Reach}
use my_skynet.Counted.Schedule.{run_turns}
use my_skynet.Counted.Slot.Alone.{Keeps, release-Keeps, count_up-Keeps, Stands, Gets, turn}
use my_skynet.Counted.Slot.{take_lock}
use my_skynet.Shareval.Share.{
  Point, idle, checking, locking, reading, counting, storing, unlocking, dropping, using, query,
  SvalThread, returned, count_cur, step_at, step,
}
use my_skynet.Shareval.Share.Safety.{sval_protocol}

abbrev stands_at : Option ℕ → Point → SvalThread
stands_at sp p = record { specific = sp; point = p }

module _ {A : Type 0} {n : ℕ} (i : ℕ) (h : i < n) (c : ℕ) where
  abbrev Here : System A SvalThread → SvalThread → Bool → Type 0
  Here = Stands (sval_protocol A) query (using c) i h c

  abbrev Reads : System A SvalThread → ℕ → Type 0
  Reads = Gets (sval_protocol A) query (using c) i h c

  from_using :
      (s : System A SvalThread) (sp : Option ℕ) (l : Bool)
      → Here s (stands_at sp (using c)) l
      → Reads s 0
  unfolding run_turns Gets
  from_using s sp l here = (s, refl, (ap (λ (t : SvalThread). t.point) here.thread, here.shared))

  from_dropping :
      (s : System A SvalThread) (sp old : Option ℕ)
      → Here s (stands_at sp (dropping old c)) false
      → Reads s 1
  unfolding step step_at count_cur
  from_dropping s sp old here =
      turn (sval_protocol A) query (using c) i h c s _ (stands_at sp (using c)) false false 0 here
        (release-Keeps s.shared (stands_at sp (dropping old c)) old (using c) false here.locked)
        (λ s' there. from_using s' sp false there)

  from_unlocking :
      (s : System A SvalThread) (sp old : Option ℕ)
      → Here s (stands_at sp (unlocking old c)) true
      → Reads s 2
  unfolding step step_at Keeps
  from_unlocking s sp old here =
      turn (sval_protocol A) query (using c) i h c s _ (stands_at sp (dropping old c)) true false 1
        here (inr (record s.shared { lock = false }, refl, refl, refl))
        (λ s' there. from_dropping s' sp old there)

  from_storing :
      (s : System A SvalThread) (sp old : Option ℕ)
      → Here s (stands_at sp (storing old c)) true
      → Reads s 3
  unfolding step step_at Keeps
  from_storing s sp old here =
      turn (sval_protocol A) query (using c) i h c s _ (stands_at (some c) (unlocking old c)) true
        true 2 here (inr (s.shared, refl, refl, here.locked))
        (λ s' there. from_unlocking s' (some c) old there)

  from_counting :
      (s : System A SvalThread) (sp old : Option ℕ)
      → Here s (stands_at sp (counting old (some c))) true
      → Reads s 4
  unfolding step step_at count_cur
  from_counting s sp old here =
      turn (sval_protocol A) query (using c) i h c s _ (stands_at sp (storing old c)) true true 3
        here
        (count_up-Keeps s.shared (stands_at sp (counting old (some c))) (some c) (storing old c)
          true here.locked)
        (λ s' there. from_storing s' sp old there)

  from_reading :
      (s : System A SvalThread) (sp old : Option ℕ)
      → Here s (stands_at sp (reading old)) true
      → Reads s 5
  unfolding step step_at Keeps
  from_reading s sp old here =
      turn (sval_protocol A) query (using c) i h c s _ (stands_at sp (counting old (some c))) true
        true 4 here (inr (s.shared, rw here.shared refl, refl, here.locked))
        (λ s' there. from_counting s' sp old there)

  from_locking :
      (s : System A SvalThread) (sp old : Option ℕ)
      → Here s (stands_at sp (locking old)) false
      → Reads s 6
  unfolding step step_at Keeps take_lock
  from_locking s sp old here =
      turn (sval_protocol A) query (using c) i h c s _ (stands_at sp (reading old)) false true 5
        here (inr (record s.shared { lock = true }, rw (take_lock, here.locked) refl, refl, refl))
        (λ s' there. from_reading s' sp old there)

  -- A check that finds the value of before returns at once.
  from_same :
      (s : System A SvalThread) (sp : Option ℕ)
      → same_pointer sp (some c) ≡ true
      → Here s (stands_at sp checking) false
      → Reads s 1
  unfolding step step_at Keeps returned
  from_same s sp e here =
      turn (sval_protocol A) query (using c) i h c s _ (stands_at sp (using c)) false false 0 here
        (inr (
          s.shared,
          rw (ap (same_pointer sp) here.shared ∙ e) (
              ap (λ (o : Option ℕ). ok s.shared (stands_at sp (returned o)))
                (same_pointer-true sp (some c) e)),
          refl,
          here.locked,
        ))
        (λ s' there. from_using s' sp false there)

  from_other :
      (s : System A SvalThread) (sp : Option ℕ)
      → same_pointer sp (some c) ≡ false
      → Here s (stands_at sp checking) false
      → Reads s 7
  unfolding step step_at Keeps
  from_other s sp e here =
      turn (sval_protocol A) query (using c) i h c s _ (stands_at sp (locking sp)) false false 6
        here (inr (s.shared, rw (ap (same_pointer sp) here.shared ∙ e) refl, refl, here.locked))
        (λ s' there. from_locking s' sp sp there)

  from_idle :
      (s : System A SvalThread) (sp : Option ℕ)
      → Here s (stands_at sp idle) false
      → Reads s 2 ⊎ Reads s 8
  unfolding step step_at Keeps
  from_idle s sp here = elim (Bool-cases (same_pointer sp (some c))) [
    | inl e ↦ inl (
        turn (sval_protocol A) query (using c) i h c s _ (stands_at sp checking) false false 1 here
          (inr (s.shared, refl, refl, here.locked)) (λ s' there. from_same s' sp e there))
    | inr e ↦ inr (
        turn (sval_protocol A) query (using c) i h c s _ (stands_at sp checking) false false 7 here
          (inr (s.shared, refl, refl, here.locked)) (λ s' there. from_other s' sp e there))
  ]

-- Where a value is shared and nobody has the lock, a thread that is not busy and asks for the value gets the
-- one that is shared, in 2 turns or in 8, if no other thread takes a turn meanwhile.
pub query_alone :
    {A : Type 0} {n : ℕ} (i c : ℕ) (s : System A SvalThread)
    → i < n
    → Reach (sval_protocol A) n s
    → (s.threads i).point ≡ idle
    → s.shared.ctx ≡ some c
    → s.shared.lock ≡ false
    → (k : ℕ) × (s' : System A SvalThread) × ((k ≡ 2) ⊎ (k ≡ 8))
      × (run_turns (sval_protocol A) s (replicate k (i, query)) ≡ some s')
      × ((s'.threads i).point ≡ using c)
      × (s'.shared.ctx ≡ some c)
unfolding Gets
query_alone {A} i c s h reached quiet shared free =
    let here : Stands (sval_protocol A) query (using c) i h c s
        (stands_at (s.threads i).specific idle) false =
      record {
        thread = ap (stands_at (s.threads i).specific) quiet;
        shared = shared;
        locked = free;
        reached = reached;
      } in
    elim (from_idle i h c s (s.threads i).specific here) [
      | inl (s', run, (at_value, same)) ↦ (2, s', inl refl, run, at_value, same)
      | inr (s', run, (at_value, same)) ↦ (8, s', inr refl, run, at_value, same)
    ]
