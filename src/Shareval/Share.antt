-- ===== src/Shareval/Share.antt =====
-- One `sctx_t` of src/lua-shareval.c and the threads that use it, in atomic steps. A thread goes through
-- `sval_check` and reads what it returns, goes through `sval_update` with a value of its own, or ends.
pub mod Refs
pub mod Safety
pub mod Alone
use my_skynet.Prelude.{ℕ, Bool, true, false, Option, none, some, if◌then◌else◌, length}
use my_skynet.Counted.{same_pointer, read, allocate}
use my_skynet.Counted.System.{Shared, Outcome, fault, ok}
use my_skynet.Counted.Slot.{Thread, take_lock, release, count_up}

-- Where a thread is, with its locals `old` and `cur` of `sval_check`, and `val` and `old` of `sval_update`.
pub data Point : Type 0 where
  idle : Point
  ended : Point
  checking : Point
  locking : Option ℕ → Point
  reading : Option ℕ → Point
  counting : Option ℕ → Option ℕ → Point
  storing : Option ℕ → ℕ → Point
  unlocking : Option ℕ → ℕ → Point
  dropping : Option ℕ → ℕ → Point
  using : ℕ → Point
  updating : ℕ → Point
  taking : ℕ → Point
  putting : ℕ → Option ℕ → Point
  leaving : Option ℕ → Point
  finishing : Option ℕ → Point

pub data Request (A : Type 0) : Type 0 where
  query : Request A
  update : A → Request A
  exit : Request A

abbrev pub SvalThread : Type 0
SvalThread = Thread Point

abbrev pub fresh : SvalThread
fresh = record { specific = none; point = idle }

-- what a check returns where the thread has the value already
unfoldable pub returned : Option ℕ → Point
returned none = idle
returned (some c) = using c

module _ {A : Type 0} where
  -- the increment in `sval_check`, which a `NULL` would not survive
  unfoldable pub count_cur : Shared A → SvalThread → Option ℕ → Option ℕ → Outcome A SvalThread
  count_cur sh t old none = fault
  count_cur sh t old (some c) = count_up sh t (some c) (storing old c)

  -- One step of a thread at a point; at the end of a thread `tls_release` gets its slot, if that is set.
  unfoldable pub step_at : Shared A → SvalThread → Request A → Point → Outcome A SvalThread
  step_at sh t query idle = ok sh (record t { point = checking })
  step_at sh t (update x) idle =
      ok (record sh { cells = allocate sh.cells x })
        (record t { point = updating (length sh.cells) })
  step_at sh t exit idle = release sh (record t { specific = none }) t.specific ended
  step_at sh t r ended = ok sh t
  step_at sh t r checking =
      let next =
        if same_pointer t.specific sh.ctx then returned t.specific else locking t.specific in
      ok sh (record t { point = next })
  step_at sh t r (locking old) = take_lock sh t (reading old)
  step_at sh t r (reading old) = ok sh (record t { point = counting old sh.ctx })
  step_at sh t r (counting old cur) = count_cur sh t old cur
  step_at sh t r (storing old cur) =
      ok sh (record { specific = some cur; point = unlocking old cur })
  step_at sh t r (unlocking old cur) =
      ok (record sh { lock = false }) (record t { point = dropping old cur })
  step_at sh t r (dropping old cur) = release sh t old (using cur)
  step_at sh t r (using c) = elim (read sh.cells c) [
    | none ↦ fault
    | some x ↦ ok sh (record t { point = idle })
  ]
  step_at sh t r (updating c) = take_lock sh t (taking c)
  step_at sh t r (taking c) = ok sh (record t { point = putting c sh.ctx })
  step_at sh t r (putting c old) =
      ok (record sh { ctx = some c }) (record t { point = leaving old })
  step_at sh t r (leaving old) =
      ok (record sh { lock = false }) (record t { point = finishing old })
  step_at sh t r (finishing old) = release sh t old idle

  unfoldable pub step : Shared A → SvalThread → Request A → Outcome A SvalThread
  step sh t r = step_at sh t r t.point
