-- ===== src/Shareval/Tests.antt =====
-- Tests of Shareval, and its theorems at concrete inputs.
use my_skynet.Prelude.{
  replicate, ℕ, zero, suc, ◌≡◌, ◌≢◌, ◌⊎◌, refl, arith, List, [], ◌∷◌, Bool, true, Option, none,
  some, length,
}
use my_skynet.Prelude.Int.{pos}
use my_skynet.Counted.{ref_of, grab_ref, release_ref, allocate, same_pointer}
use my_skynet.Counted.System.{System, fault}
use my_skynet.Counted.Slot.{take_lock, release, count_up}
use my_skynet.Counted.Schedule.{all_below, run_turns, state_after, state_after-Reach}
use my_skynet.Shareval.{nil, integer, string, Sval, shown}
use my_skynet.Shareval.Lua.{
  max_inst, updated, update_wild, pushed, not_inited, lgrab_id, sval_check, lsval_update,
  lsval_query,
}
use my_skynet.Shareval.Service.{lsval_query-lsval_update, lsval_query_lost, TakenAndLost}
use my_skynet.Shareval.Share.{SvalThread, Request, query, update, exit, count_cur, step_at, step}
use my_skynet.Shareval.Share.Alone.{query_alone}
use my_skynet.Shareval.Share.{using}
use my_skynet.Shareval.Share.Safety.{sval_protocol, step-safe}

abbrev Svals : Type 0
Svals = List (Option (Sval ℕ))

abbrev nones : ℕ → Svals
nones zero = []
nones (suc n) = none ∷ nones n

abbrev fresh_insts : Svals
fresh_insts = nones 64

not_inited_yet : lsval_query fresh_insts 3 true ≡ not_inited
unfolding lsval_query lgrab_id sval_check
not_inited_yet = refl

-- thread 0 puts 5 in, thread 1 takes it, thread 0 puts 7 in, and thread 1 ends
abbrev turns : List (ℕ × Request ℕ)
turns =
    (0, update 5)
    ∷ (0, query)
    ∷ (0, query)
    ∷ (0, query)
    ∷ (0, query)
    ∷ (0, query)
    ∷ (1, query)
    ∷ (1, query)
    ∷ (1, query)
    ∷ (1, query)
    ∷ (1, query)
    ∷ (1, query)
    ∷ (1, query)
    ∷ (1, query)
    ∷ (0, update 7)
    ∷ (0, query)
    ∷ (0, query)
    ∷ (0, query)
    ∷ (0, query)
    ∷ (0, query)
    ∷ []

abbrev first_update : List (ℕ × Request ℕ)
first_update = (0, update 5) ∷ (0, query) ∷ (0, query) ∷ (0, query) ∷ (0, query) ∷ (0, query) ∷ []

abbrev now : System ℕ SvalThread
now = state_after (sval_protocol ℕ) turns

turns_below : all_below 2 turns ≡ true
turns_below = refl

-- the old value is left to thread 1
kept : (now.shared.ctx ≡ some 1) × (ref_of now.shared.cells 0 ≡ 1)
unfolding run_turns step step_at allocate take_lock same_pointer release release_ref count_cur
    count_up grab_ref ref_of
kept = (refl, refl)

step-safe_example : step now.shared (now.threads 1) exit ≢ fault
step-safe_example =
    step-safe {n = 2} (state_after-Reach (sval_protocol ℕ) turns turns_below) 1 exit (omega arith)

lsval_query-lsval_update_example :
    (insts' : Svals) × (lsval_update fresh_insts 3 (integer (pos 7)) ≡ updated insts')
    × (length insts' ≡ max_inst)
    × ((throw : Bool)
        → (lsval_query insts' 3 throw ≡ pushed (shown (integer (pos 7))))
          × ((j : ℕ) → j ≢ 3 → lsval_query insts' j throw ≡ lsval_query fresh_insts j throw))
lsval_query-lsval_update_example =
    lsval_query-lsval_update fresh_insts 3 refl (omega arith) (integer (pos 7)) tt

lsval_query_lost_example :
    ((c : ℕ) (s : List ℕ) → lsval_update fresh_insts 3 (string (c ∷ s)) ≡ update_wild)
    × TakenAndLost fresh_insts 3 nil
    × TakenAndLost fresh_insts 3 (string [])
lsval_query_lost_example = lsval_query_lost fresh_insts 3 refl (omega arith)

-- thread 1 asks for the value that thread 0 put in
abbrev one_value : System ℕ SvalThread
one_value = state_after (sval_protocol ℕ) first_update

first_update_below : all_below 2 first_update ≡ true
first_update_below = refl

query_alone_example :
    (k : ℕ) × (s' : System ℕ SvalThread) × ((k ≡ 2) ⊎ (k ≡ 8))
    × (run_turns (sval_protocol ℕ) one_value (replicate k (1, query)) ≡ some s')
    × ((s'.threads 1).point ≡ using 0)
    × (s'.shared.ctx ≡ some 0)
unfolding run_turns step step_at allocate take_lock release
query_alone_example =
    query_alone 1 0 one_value (omega arith)
      (state_after-Reach (sval_protocol ℕ) {n = 2} first_update first_update_below) refl refl refl
