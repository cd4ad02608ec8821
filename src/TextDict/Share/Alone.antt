-- ===== src/TextDict/Share/Alone.antt =====
-- A thread of src/lua-textdict.c that looks the dictionary up while no other takes a turn.
use my_skynet.Prelude.{
  ℕ, ◌<◌, ◌≡◌, ◌⊎◌, inl, inr, refl, ap, ◌∙◌, Bool, true, false, Option, some, replicate, Bool-cases,
  ==_iff,
}
use my_skynet.Counted.{same_pointer, same_pointer-true}
use my_skynet.Counted.System.{ok, System, Reach}
use my_skynet.Counted.Schedule.{run_turns}
use my_skynet.Counted.Slot.Alone.{Keeps, release-Keeps, count_up-Keeps, Stands, Gets, turn}
use my_skynet.Counted.Slot.{take_lock}
use my_skynet.TextDict.Share.{
  Point, idle, checking, grabbing, reading, counting, releasing, storing, dropping, using, check,
  DictThread, checked, step_at, step,
}
use my_skynet.TextDict.Share.Safety.{dict_protocol}

abbrev stands_at : Option ℕ → Point → DictThread
stands_at sp p = record { specific = sp; point = p }

same_pointer_refl : (c : ℕ) → same_pointer (some c) (some c) ≡ true
unfolding same_pointer
same_pointer_refl c = (==_iff c c).1 refl

module _ {A : Type 0} {n : ℕ} (i : ℕ) (h : i < n) (c : ℕ) where
  abbrev Here : System A DictThread → DictThread → Bool → Type 0
  Here = Stands (dict_protocol A) check (using c) i h c

  abbrev Reads : System A DictThread → ℕ → Type 0
  Reads = Gets (dict_protocol A) check (using c) i h c

  from_using :
      (s : System A DictThread) (sp : Option ℕ) (l : Bool)
      → Here s (stands_at sp (using c)) l
      → Reads s 0
  unfolding run_turns Gets
  from_using s sp l here = (s, refl, (ap (λ (t : DictThread). t.point) here.thread, here.shared))

  -- A check that finds the dictionary of before returns at once.
  from_same :
      (s : System A DictThread) (sp : Option ℕ)
      → same_pointer sp (some c) ≡ true
      → Here s (stands_at sp checking) false
      → Reads s 1
  unfolding step step_at Keeps checked
  from_same s sp e here =
      turn (dict_protocol A) check (using c) i h c s _ (stands_at sp (using c)) false false 0 here
        (inr (
          s.shared,
          rw (ap (same_pointer sp) here.shared ∙ e) (
              ap (λ (o : Option ℕ). ok s.shared (stands_at sp (checked o)))
                (same_pointer-true sp (some c) e)),
          refl,
          here.locked,
        ))
        (λ s' there. from_using s' sp false there)

  from_dropping :
      (s : System A DictThread) (old : Option ℕ)
      → Here s (stands_at (some c) (dropping old)) false
      → Reads s 2
  unfolding step step_at
  from_dropping s old here =
      turn (dict_protocol A) check (using c) i h c s _ (stands_at (some c) checking) false false 1
        here
        (release-Keeps s.shared (stands_at (some c) (dropping old)) old checking false here.locked)
        (λ s' there. from_same s' (some c) (same_pointer_refl c) there)

  from_storing :
      (s : System A DictThread) (sp old : Option ℕ)
      → Here s (stands_at sp (storing old (some c))) false
      → Reads s 3
  unfolding step step_at Keeps
  from_storing s sp old here =
      turn (dict_protocol A) check (using c) i h c s _ (stands_at (some c) (dropping old)) false
        false 2 here (inr (s.shared, refl, refl, here.locked))
        (λ s' there. from_dropping s' old there)

  from_releasing :
      (s : System A DictThread) (sp old : Option ℕ)
      → Here s (stands_at sp (releasing old (some c))) true
      → Reads s 4
  unfolding step step_at Keeps
  from_releasing s sp old here =
      turn (dict_protocol A) check (using c) i h c s _ (stands_at sp (storing old (some c))) true
        false 3 here (inr (record s.shared { lock = false }, refl, refl, refl))
        (λ s' there. from_storing s' sp old there)

  from_counting :
      (s : System A DictThread) (sp old : Option ℕ)
      → Here s (stands_at sp (counting old (some c))) true
      → Reads s 5
  unfolding step step_at
  from_counting s sp old here =
      turn (dict_protocol A) check (using c) i h c s _ (stands_at sp (releasing old (some c))) true
        true 4 here
        (count_up-Keeps s.shared (stands_at sp (counting old (some c))) (some c)
          (releasing old (some c)) true here.locked)
        (λ s' there. from_releasing s' sp old there)

  from_reading :
      (s : System A DictThread) (sp old : Option ℕ)
      → Here s (stands_at sp (reading old)) true
      → Reads s 6
  unfolding step step_at Keeps
  from_reading s sp old here =
      turn (dict_protocol A) check (using c) i h c s _ (stands_at sp (counting old (some c))) true
        true 5 here (inr (s.shared, rw here.shared refl, refl, here.locked))
        (λ s' there. from_counting s' sp old there)

  from_grabbing :
      (s : System A DictThread) (sp old : Option ℕ)
      → Here s (stands_at sp (grabbing old)) false
      → Reads s 7
  unfolding step step_at Keeps take_lock
  from_grabbing s sp old here =
      turn (dict_protocol A) check (using c) i h c s _ (stands_at sp (reading old)) false true 6
        here (inr (record s.shared { lock = true }, rw (take_lock, here.locked) refl, refl, refl))
        (λ s' there. from_reading s' sp old there)

  from_other :
      (s : System A DictThread) (sp : Option ℕ)
      → same_pointer sp (some c) ≡ false
      → Here s (stands_at sp checking) false
      → Reads s 8
  unfolding step step_at Keeps
  from_other s sp e here =
      turn (dict_protocol A) check (using c) i h c s _ (stands_at sp (grabbing sp)) false false 7
        here (inr (s.shared, rw (ap (same_pointer sp) here.shared ∙ e) refl, refl, here.locked))
        (λ s' there. from_grabbing s' sp sp there)

  from_idle :
      (s : System A DictThread) (sp : Option ℕ)
      → Here s (stands_at sp idle) false
      → Reads s 2 ⊎ Reads s 9
  unfolding step step_at Keeps
  from_idle s sp here = elim (Bool-cases (same_pointer sp (some c))) [
    | inl e ↦ inl (
        turn (dict_protocol A) check (using c) i h c s _ (stands_at sp checking) false false 1 here
          (inr (s.shared, refl, refl, here.locked)) (λ s' there. from_same s' sp e there))
    | inr e ↦ inr (
        turn (dict_protocol A) check (using c) i h c s _ (stands_at sp checking) false false 8 here
          (inr (s.shared, refl, refl, here.locked)) (λ s' there. from_other s' sp e there))
  ]

-- Where an instance has a dictionary and nobody has its lock, a thread that is not busy and looks it up gets
-- that dictionary, in 2 turns or in 9, if no other thread takes a turn meanwhile.
pub check_alone :
    {A : Type 0} {n : ℕ} (i c : ℕ) (s : System A DictThread)
    → i < n
    → Reach (dict_protocol A) n s
    → (s.threads i).point ≡ idle
    → s.shared.ctx ≡ some c
    → s.shared.lock ≡ false
    → (k : ℕ) × (s' : System A DictThread) × ((k ≡ 2) ⊎ (k ≡ 9))
      × (run_turns (dict_protocol A) s (replicate k (i, check)) ≡ some s')
      × ((s'.threads i).point ≡ using c)
      × (s'.shared.ctx ≡ some c)
unfolding Gets
check_alone {A} i c s h reached quiet shared free =
    let here : Stands (dict_protocol A) check (using c) i h c s
        (stands_at (s.threads i).specific idle) false =
      record {
        thread = ap (stands_at (s.threads i).specific) quiet;
        shared = shared;
        locked = free;
        reached = reached;
      } in
    elim (from_idle i h c s (s.threads i).specific here) [
      | inl (s', run, (at_value, same)) ↦ (2, s', inl refl, run, at_value, same)
      | inr (s', run, (at_value, same)) ↦ (9, s', inr refl, run, at_value, same)
    ]
