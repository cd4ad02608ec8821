-- ===== src/Counted/Slot.antt =====
-- A thread of src/lua-textdict.c or src/lua-shareval.c with a slot of its own, and the steps that the two
-- files share: `LOCK`, an increment and a release.
pub mod Laws
pub mod Alone
use my_skynet.Prelude.{ℕ, Bool, true, false, Option, none, some, if◌then◌else◌}
use my_skynet.Counted.{grab_ref, release_ref}
use my_skynet.Counted.System.{Shared, Outcome, fault, ok}

-- `specific` is what `pthread_getspecific` gives, and `point` where the thread is.
pub record Thread (P : Type 0) : Type 0 where
  pub specific : Option ℕ
  pub point : P

module _ {A P : Type 0} where
  -- `LOCK`: one more round, or the lock is taken.
  unfoldable pub take_lock : Shared A → Thread P → P → Outcome A (Thread P)
  take_lock sh t next =
      if sh.lock then ok sh t else ok (record sh { lock = true }) (record t { point = next })

  -- `dict_release` and `sval_release` of a pointer that may be `NULL`
  unfoldable pub release : Shared A → Thread P → Option ℕ → P → Outcome A (Thread P)
  release sh t none next = ok sh (record t { point = next })
  release sh t (some c) next = elim (release_ref sh.cells c) [
    | none ↦ fault
    | some cells ↦ ok (record sh { cells = cells }) (record t { point = next })
  ]

  -- the increment in `dctx_grab`, where the pointer may be `NULL`
  unfoldable pub count_up : Shared A → Thread P → Option ℕ → P → Outcome A (Thread P)
  count_up sh t none next = ok sh (record t { point = next })
  count_up sh t (some c) next = elim (grab_ref sh.cells c) [
    | none ↦ fault
    | some cells ↦ ok (record sh { cells = cells }) (record t { point = next })
  ]
