-- ===== src/Shareval/Share/Refs.antt =====
-- What a thread of src/lua-shareval.c holds and knows, by the point where it is.
use my_skynet.Prelude.{ℕ, ◌≡◌, ◌⊎◌, inl, inr, refl, arith, Option, none, some}
use my_skynet.Counted.{points}
use my_skynet.Counted.Slot.Laws.{Roles, slot_held, slot_inside, Agrees}
use my_skynet.Shareval.Share.{
  Point, idle, ended, checking, locking, reading, counting, storing, unlocking, dropping, using,
  updating, taking, putting, leaving, finishing, SvalThread, fresh,
}

-- The references that a thread's locals hold, beside the one in its thread-specific slot.
unfoldable pub local_refs : Point → ℕ → ℕ
local_refs (storing old cur) a = points (some cur) a
local_refs (unlocking old cur) a = points old a
local_refs (dropping old cur) a = points old a
local_refs (updating c) a = points (some c) a
local_refs (taking c) a = points (some c) a
local_refs (putting c old) a = points (some c) a
local_refs (leaving old) a = points old a
local_refs (finishing old) a = points old a
local_refs _ a = 0

-- The thread is between `LOCK` and `UNLOCK`.
unfoldable pub critical : Point → ℕ
critical (reading old) = 1
critical (counting old cur) = 1
critical (storing old cur) = 1
critical (unlocking old cur) = 1
critical (taking c) = 1
critical (putting c old) = 1
critical (leaving old) = 1
critical _ = 0

abbrev pub HasValue : Option ℕ → Type 0
HasValue none = ⊥
HasValue (some c) = Unit {0}

-- What a thread's locals say of its slot and of the shared value.
unfoldable pub LocalsAgree : Option ℕ → Option ℕ → Point → Type 0
LocalsAgree ctx specific (locking old) = (old ≡ specific) × HasValue ctx
LocalsAgree ctx specific (reading old) = (old ≡ specific) × HasValue ctx
LocalsAgree ctx specific (counting old cur) = (old ≡ specific) × (cur ≡ ctx) × HasValue ctx
LocalsAgree ctx specific (storing old cur) = (old ≡ specific) × HasValue ctx
LocalsAgree ctx specific (unlocking old cur) = specific ≡ some cur
LocalsAgree ctx specific (dropping old cur) = specific ≡ some cur
LocalsAgree ctx specific (using c) = specific ≡ some c
LocalsAgree ctx specific (putting c old) = old ≡ ctx
LocalsAgree ctx specific _ = Unit {0}

-- Also, a thread that has a value was given one: the shared value is set.
abbrev pub KnowsValue : Option ℕ → Option ℕ → Point → Type 0
KnowsValue ctx specific p = ((specific ≡ none) ⊎ HasValue ctx) × LocalsAgree ctx specific p

-- The shared value is changed to another, never back to `NULL`.
abbrev pub SetsValue : Option ℕ → Option ℕ → Type 0
SetsValue ctx ctx' = HasValue ctx'

abbrev pub sval_roles : Roles Point
sval_roles = record {
  local_refs = local_refs;
  critical = critical;
  Knows = KnowsValue;
  Change = SetsValue;
}

abbrev pub held : ℕ → SvalThread → ℕ
held = slot_held sval_roles

abbrev pub inside : SvalThread → ℕ
inside = slot_inside sval_roles

LocalsAgree-outside :
    (ctx ctx' specific : Option ℕ) (p : Point)
    → critical p ≡ 0
    → HasValue ctx'
    → LocalsAgree ctx specific p
    → LocalsAgree ctx' specific p
unfolding LocalsAgree critical
LocalsAgree-outside ctx ctx' specific idle e s h = tt
LocalsAgree-outside ctx ctx' specific ended e s h = tt
LocalsAgree-outside ctx ctx' specific checking e s h = tt
LocalsAgree-outside ctx ctx' specific (locking old) e s h = (h.0, s)
LocalsAgree-outside ctx ctx' specific (reading old) e s h = (h.0, s)
LocalsAgree-outside ctx ctx' specific (counting old cur) e s h = absurd (omega (arith, e))
LocalsAgree-outside ctx ctx' specific (storing old cur) e s h = (h.0, s)
LocalsAgree-outside ctx ctx' specific (unlocking old cur) e s h = h
LocalsAgree-outside ctx ctx' specific (dropping old cur) e s h = h
LocalsAgree-outside ctx ctx' specific (using c) e s h = h
LocalsAgree-outside ctx ctx' specific (updating c) e s h = tt
LocalsAgree-outside ctx ctx' specific (taking c) e s h = tt
LocalsAgree-outside ctx ctx' specific (putting c old) e s h = absurd (omega (arith, e))
LocalsAgree-outside ctx ctx' specific (leaving old) e s h = tt
LocalsAgree-outside ctx ctx' specific (finishing old) e s h = tt

-- What a thread outside the lock knows stays true when another changes the shared value.
pub KnowsValue-outside :
    (ctx ctx' : Option ℕ) (t : SvalThread)
    → inside t ≡ 0
    → SetsValue ctx ctx'
    → Agrees sval_roles ctx t
    → Agrees sval_roles ctx' t
KnowsValue-outside ctx ctx' t e s (had, h) =
    (inr s, LocalsAgree-outside ctx ctx' t.specific t.point e s h)

pub fresh_Agrees : ((a : ℕ) → held a fresh ≡ 0) × (inside fresh ≡ 0) × Agrees sval_roles none fresh
unfolding local_refs critical LocalsAgree
fresh_Agrees = (λ a. refl, refl, (inl refl, tt))
