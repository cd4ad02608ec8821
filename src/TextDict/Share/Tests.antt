-- ===== src/TextDict/Share/Tests.antt =====
-- Two threads of TextDict.Share take turns.
use my_skynet.TextDict.Share.Alone.{check_alone}
use my_skynet.TextDict.Share.{using}
use my_skynet.Prelude.{
  replicate, ◌⊎◌, ℕ, ◌≡◌, ◌≢◌, refl, true, arith, List, [], ◌∷◌, some, ◌==◌, ◌+◌,
}
use my_skynet.Counted.{points, ref_of, freed_of, grab_ref, release_ref, allocate, same_pointer}
use my_skynet.Counted.Threads.{total}
use my_skynet.Counted.System.{System, fault}
use my_skynet.Counted.Slot.{take_lock, release, count_up}
use my_skynet.Counted.Schedule.{all_below, run_turns, state_after, state_after-Reach}
use my_skynet.TextDict.Share.{DictThread, Request, check, build, step_at, step}
use my_skynet.TextDict.Share.Refs.{held}
use my_skynet.TextDict.Share.Safety.{dict_protocol, step-no_fault, ref_of-held}

-- thread 0 loads the dictionary 5
abbrev first_load : List (ℕ × Request ℕ)
first_load = (0, build 5) ∷ (0, build 5) ∷ (0, check) ∷ (0, check) ∷ (0, check) ∷ (0, check) ∷ []

-- thread 1 takes it, while thread 0 loads 7 in its place
abbrev turns : List (ℕ × Request ℕ)
turns =
    (0, build 5)
    ∷ (0, build 5)
    ∷ (0, check)
    ∷ (0, check)
    ∷ (0, check)
    ∷ (0, check)
    ∷ (1, check)
    ∷ (1, check)
    ∷ (1, check)
    ∷ (1, check)
    ∷ (1, check)
    ∷ (0, build 7)
    ∷ (0, check)
    ∷ (1, check)
    ∷ (0, check)
    ∷ (0, check)
    ∷ (0, check)
    ∷ (0, check)
    ∷ (0, check)
    ∷ []

abbrev now : System ℕ DictThread
now = state_after (dict_protocol ℕ) turns

turns_below : all_below 2 turns ≡ true
turns_below = refl

loaded : (state_after (dict_protocol ℕ) first_load).shared.ctx ≡ some 0
unfolding run_turns step step_at allocate take_lock same_pointer release
loaded = refl

-- the old dictionary is left to thread 1
changed : (now.shared.ctx ≡ some 1) × (ref_of now.shared.cells 0 ≡ 1)
unfolding run_turns step step_at allocate take_lock same_pointer release release_ref count_up
    grab_ref ref_of
changed = (refl, refl)

step-no_fault_example : step now.shared (now.threads 1) check ≢ fault
step-no_fault_example =
    step-no_fault {n = 2} (state_after-Reach (dict_protocol ℕ) turns turns_below) 1 check
      (omega arith)

ref_of-held_example :
    (ref_of now.shared.cells 0 ≡ points now.shared.ctx 0 + total (held 0) 2 now.threads)
    × (freed_of now.shared.cells 0 ≡ (ref_of now.shared.cells 0 == 0))
ref_of-held_example = ref_of-held {n = 2} (state_after-Reach (dict_protocol ℕ) turns turns_below) 0

-- thread 0 loads the dictionary 5 and unlocks
abbrev first_build : List (ℕ × Request ℕ)
first_build =
    (0, build 5) ∷ (0, check) ∷ (0, check) ∷ (0, check) ∷ (0, check) ∷ (0, check) ∷ (0, check) ∷ []

abbrev one_dict : System ℕ DictThread
one_dict = state_after (dict_protocol ℕ) first_build

first_build_below : all_below 2 first_build ≡ true
first_build_below = refl

check_alone_example :
    (k : ℕ) × (s' : System ℕ DictThread) × ((k ≡ 2) ⊎ (k ≡ 9))
    × (run_turns (dict_protocol ℕ) one_dict (replicate k (1, check)) ≡ some s')
    × ((s'.threads 1).point ≡ using 0)
    × (s'.shared.ctx ≡ some 0)
unfolding run_turns step step_at allocate take_lock release same_pointer
check_alone_example =
    check_alone 1 0 one_dict (omega arith)
      (state_after-Reach (dict_protocol ℕ) {n = 2} first_build first_build_below) refl refl refl
