-- ===== src/TextDict/Share/Refs.antt =====
-- What a thread of src/lua-textdict.c holds and knows, by the point where it is.
use my_skynet.Prelude.{ℕ, ◌≡◌, refl, arith, Option, none, some}
use my_skynet.Counted.{points}
use my_skynet.Counted.Slot.Laws.{Roles, slot_held, slot_inside, Agrees}
use my_skynet.TextDict.Share.{
  Point, idle, checking, grabbing, reading, counting, releasing, storing, dropping, using, changing,
  swapping, comparing, unlocking, finishing, DictThread, fresh,
}

-- The references that a thread's locals hold, beside the one in its thread-specific slot.
unfoldable pub local_refs : Point → ℕ → ℕ
local_refs (releasing old new) a = points new a
local_refs (storing old new) a = points new a
local_refs (dropping old) a = points old a
local_refs (changing c) a = points (some c) a
local_refs (swapping c) a = points (some c) a
local_refs (comparing c old) a = points (some c) a
local_refs (unlocking old) a = points old a
local_refs (finishing old) a = points old a
local_refs _ a = 0

-- The thread is between `LOCK` and `UNLOCK`.
unfoldable pub critical : Point → ℕ
critical (reading old) = 1
critical (counting old new) = 1
critical (releasing old new) = 1
critical (swapping c) = 1
critical (comparing c old) = 1
critical (unlocking old) = 1
critical _ = 0

-- What a thread's locals say of its slot and of the instance.
unfoldable pub LocalsAgree : Option ℕ → Option ℕ → Point → Type 0
LocalsAgree ctx specific (grabbing old) = old ≡ specific
LocalsAgree ctx specific (reading old) = old ≡ specific
LocalsAgree ctx specific (counting old new) = (old ≡ specific) × (new ≡ ctx)
LocalsAgree ctx specific (releasing old new) = old ≡ specific
LocalsAgree ctx specific (storing old new) = old ≡ specific
LocalsAgree ctx specific (using c) = specific ≡ some c
LocalsAgree ctx specific _ = Unit {0}

-- The owner of the lock may change the pointer to anything.
abbrev pub AnyChange : Option ℕ → Option ℕ → Type 0
AnyChange ctx ctx' = Unit {0}

abbrev pub dict_roles : Roles Point
dict_roles = record {
  local_refs = local_refs;
  critical = critical;
  Knows = LocalsAgree;
  Change = AnyChange;
}

abbrev pub held : ℕ → DictThread → ℕ
held = slot_held dict_roles

abbrev pub inside : DictThread → ℕ
inside = slot_inside dict_roles

-- Outside the lock a thread's locals say nothing of the instance.
pub LocalsAgree-outside :
    (ctx ctx' specific : Option ℕ) (p : Point)
    → critical p ≡ 0
    → LocalsAgree ctx specific p
    → LocalsAgree ctx' specific p
unfolding LocalsAgree critical
LocalsAgree-outside ctx ctx' specific (counting old new) e h = absurd (omega (arith, e))
LocalsAgree-outside ctx ctx' specific idle e h = tt
LocalsAgree-outside ctx ctx' specific checking e h = tt
LocalsAgree-outside ctx ctx' specific (grabbing old) e h = h
LocalsAgree-outside ctx ctx' specific (reading old) e h = h
LocalsAgree-outside ctx ctx' specific (releasing old new) e h = h
LocalsAgree-outside ctx ctx' specific (storing old new) e h = h
LocalsAgree-outside ctx ctx' specific (dropping old) e h = tt
LocalsAgree-outside ctx ctx' specific (using c) e h = h
LocalsAgree-outside ctx ctx' specific (changing c) e h = tt
LocalsAgree-outside ctx ctx' specific (swapping c) e h = tt
LocalsAgree-outside ctx ctx' specific (comparing c old) e h = tt
LocalsAgree-outside ctx ctx' specific (unlocking old) e h = tt
LocalsAgree-outside ctx ctx' specific (finishing old) e h = tt

pub fresh_Agrees : ((a : ℕ) → held a fresh ≡ 0) × (inside fresh ≡ 0) × Agrees dict_roles none fresh
unfolding local_refs critical LocalsAgree
fresh_Agrees = (λ a. refl, refl, tt)
