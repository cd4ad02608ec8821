-- ===== src/TextDict/Share.antt =====
-- One `dict_inst` of src/lua-textdict.c and the threads that use it, in atomic steps: each read of the
-- instance and each operation on a count or the lock is one. A thread goes through `dictctx_check` and
-- reads what it returns, or loads a dictionary and goes through `dict_change`.
mod Tests
pub mod Refs
pub mod Steps
pub mod Safety
pub mod Alone
use my_skynet.Prelude.{
  ℕ, ◌<◌, ◌≡◌, List, [], Bool, true, false, Option, none, some, if◌then◌else◌, length,
}
use my_skynet.Counted.{Cell, same_pointer, read, grab_ref, release_ref, allocate}
use my_skynet.Counted.System.{Shared, Outcome, fault, ok}
use my_skynet.Counted.Slot.{Thread, take_lock, release, count_up}

-- Where a thread is, with its locals: `old` is `ctx` of `dictctx_check`, or what `dict_change` takes out;
-- `new` is what `dctx_grab` has read.
pub data Point : Type 0 where
  idle : Point
  checking : Point
  grabbing : Option ℕ → Point
  reading : Option ℕ → Point
  counting : Option ℕ → Option ℕ → Point
  releasing : Option ℕ → Option ℕ → Point
  storing : Option ℕ → Option ℕ → Point
  dropping : Option ℕ → Point
  using : ℕ → Point
  changing : ℕ → Point
  swapping : ℕ → Point
  comparing : ℕ → Option ℕ → Point
  unlocking : Option ℕ → Point
  finishing : Option ℕ → Point

abbrev pub DictThread : Type 0
DictThread = Thread Point

-- What a thread is asked for: to look the dictionary up, to load one, and whether the load succeeds.
pub data Request (A : Type 0) : Type 0 where
  check : Request A
  build : A → Request A
  abandon : Request A

-- the end of `dictctx_check`: no dictionary, or one to read
unfoldable pub checked : Option ℕ → Point
checked none = idle
checked (some c) = using c

module _ {A : Type 0} where
  -- One step of a thread at a point.
  unfoldable pub step_at : Shared A → DictThread → Request A → Point → Outcome A DictThread
  step_at sh t check idle = ok sh (record t { point = checking })
  step_at sh t (build x) idle =
      ok (record sh { cells = allocate sh.cells x })
        (record t { point = changing (length sh.cells) })
  step_at sh t abandon idle = ok sh t
  step_at sh t r checking =
      let next =
        if same_pointer t.specific sh.ctx then checked t.specific else grabbing t.specific in
      ok sh (record t { point = next })
  step_at sh t r (grabbing old) = take_lock sh t (reading old)
  step_at sh t r (reading old) = ok sh (record t { point = counting old sh.ctx })
  step_at sh t r (counting old new) = count_up sh t new (releasing old new)
  step_at sh t r (releasing old new) =
      ok (record sh { lock = false }) (record t { point = storing old new })
  step_at sh t r (storing old new) = ok sh (record { specific = new; point = dropping old })
  step_at sh t r (dropping old) = release sh t old checking
  step_at sh t r (using c) = elim (read sh.cells c) [
    | none ↦ fault
    | some x ↦ ok sh (record t { point = idle })
  ]
  step_at sh t abandon (changing c) = release sh t (some c) idle
  step_at sh t check (changing c) = take_lock sh t (swapping c)
  step_at sh t (build x) (changing c) = take_lock sh t (swapping c)
  step_at sh t r (swapping c) = ok sh (record t { point = comparing c sh.ctx })
  step_at sh t r (comparing c old) =
      if same_pointer sh.ctx old
      then ok (record sh { ctx = some c }) (record t { point = unlocking old })
      else ok sh (record t { point = swapping c })
  step_at sh t r (unlocking old) =
      ok (record sh { lock = false }) (record t { point = finishing old })
  step_at sh t r (finishing old) = release sh t old idle

  unfoldable pub step : Shared A → DictThread → Request A → Outcome A DictThread
  step sh t r = step_at sh t r t.point

abbrev pub fresh : DictThread
fresh = record { specific = none; point = idle }
