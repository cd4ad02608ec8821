-- ===== src/TextDict/Refine.antt =====
-- What the functions for Lua of src/lua-textdict.c promise: an instance is the table that was last loaded
-- into it.
pub mod Run
use my_skynet.Prelude.{
  ℕ, zero, suc, ◌+◌, ◌-◌, ◌≤◌, ◌<◌, ◌≡◌, ◌≢◌, refl, ap, sym, ◌∙◌, arith, List, [], ◌∷◌, Bool, true,
  false, Option, none, some, ◌==◌, ==_iff, ltb, if◌then◌else◌, length, get_elem?, set, length-set,
  inl, inr, Bool-cases, Option-cases, ◌⊎◌,
}
use my_skynet.TextDict.{Text, DictNode, Ctx, dict_new, load, dict_get, Found, fault, found, find}
use my_skynet.TextDict.Chain.{count}
use my_skynet.TextDict.Load.{dict_get-load}
use my_skynet.TextDict.Instances.{
  DictInst, Answer, error, crash, nil, value, Outcome, done, no_instance, reads_before, int_id,
  lload_dict, dictctx_check, ldict_get,
}

-- A call for Lua: a load of a table of at least one pair, or a `get`.
pub data Call : Type 0 where
  load_call : ℕ → DictNode → List DictNode → Call
  get_call : ℕ → Text → Call

-- what a call gives
pub data Output : Type 0 where
  loaded : Output
  refused : Output
  broken : Output
  answered : Answer → Output

unfoldable pub call : List DictInst → Call → List DictInst × Output
call insts (load_call id pair pairs) = elim (lload_dict insts id (pair ∷ pairs)) [
  | done insts' ↦ (insts', loaded)
  | no_instance ↦ (insts, refused)
  | reads_before ↦ (insts, broken)
]
call insts (get_call id key) = (insts, answered (ldict_get insts id key))

-- Behind a read outside of the arrays nothing is known of the program.
unfoldable pub ends : Output → Bool
ends loaded = false
ends refused = false
ends broken = true
ends (answered error) = false
ends (answered crash) = true
ends (answered nil) = false
ends (answered (value v)) = false

unfoldable pub run_calls : List DictInst → List Call → List Output
run_calls insts [] = []
run_calls insts (c ∷ calls) =
    let (insts', out) = call insts c in
    let rest = run_calls insts' calls in out ∷ (if ends out then [] else rest)

-- The promise: the number of instances, and for each the table that was last loaded.
pub record Tables : Type 0 where
  pub size : ℕ
  pub table : ℕ → Option (DictNode × List DictNode)

-- the value of a key in a table
unfoldable pub spec_get : Option (DictNode × List DictNode) → Text → Answer
spec_get none key = error
spec_get (some (pair, pairs)) key = elim (find key (pair ∷ pairs)) [ none ↦ nil | some v ↦ value v ]

-- an id is cut to an `int`, and a negative one promises nothing
unfoldable pub spec_call : Tables → Call → Tables × Output
spec_call s (load_call id pair pairs) = elim (int_id id) [
  | none ↦ (s, broken)
  | some idx ↦
      if ltb idx s.size
      then (record s { table = λ j. if idx == j then some (pair, pairs) else s.table j }, loaded)
      else (s, refused)
]
spec_call s (get_call id key) = elim (int_id id) [
  | none ↦ (s, answered crash)
  | some idx ↦ (s, answered (spec_get (s.table idx) key))
]

unfoldable pub spec_run : Tables → List Call → List Output
spec_run s [] = []
spec_run s (c ∷ calls) =
    let (s', out) = spec_call s c in
    let rest = spec_run s' calls in out ∷ (if ends out then [] else rest)

-- A table of Lua has a key at most once.
abbrev pub IsTable : DictNode → List DictNode → Type 0
IsTable pair pairs = (key : Text) → count key (pair ∷ pairs) ≤ 1

abbrev pub LoadsTables : List Call → Type 0
LoadsTables [] = Unit {0}
LoadsTables (load_call id pair pairs ∷ calls) = IsTable pair pairs × LoadsTables calls
LoadsTables (get_call id key ∷ calls) = LoadsTables calls

-- the dictionary that a load of a table makes
unfoldable pub dict_of : Option (DictNode × List DictNode) → Option Ctx
dict_of none = none
dict_of (some (pair, pairs)) = some (load dict_new (pair ∷ pairs))

abbrev pub HasTable : Option (DictNode × List DictNode) → Type 0
HasTable none = Unit {0}
HasTable (some (pair, pairs)) = IsTable pair pairs

-- The instances have the dictionaries of the tables.
pub record Represents (insts : List DictInst) (s : Tables) : Type 0 where
  pub size : length insts ≡ s.size
  pub dicts : (id : ℕ) → dictctx_check insts id ≡ dict_of (s.table id)
  pub tables : (id : ℕ) → HasTable (s.table id)
