-- ===== src/TextDict/Instances.antt =====
-- The instances of src/lua-textdict.c by name, and its functions for Lua as one thread sees them: to a
-- single thread `dictctx_check` gives the dictionary that the instance has.
use my_skynet.Prelude.{
  ℕ, zero, suc, ◌+◌, ◌-◌, ◌%◌, ◌^◌, List, [], ◌∷◌, ◌++◌, Bool, true, false, ◌&&◌, Option, none,
  some, ◌==◌, leb, if◌then◌else◌, length, get_elem?, set, take,
}
use my_skynet.TextDict.{Text, DictNode, Ctx, dict_new, load, dict_get, fault, found, getall}

abbrev pub max_dict_inst : ℕ
max_dict_inst = 8

-- the size of the field `name`
abbrev pub name_size : ℕ
name_size = 64

-- `struct dict_inst` but for what the threads share
pub record DictInst : Type 0 where
  pub name : Text
  pub ctx : Option Ctx

-- `strncmp(a, b, n) == 0`
unfoldable pub same_start : ℕ → Text → Text → Bool
same_start zero a b = true
same_start (suc n) [] [] = true
same_start (suc n) [] (d ∷ b) = false
same_start (suc n) (c ∷ a) [] = false
same_start (suc n) (c ∷ a) (d ∷ b) = c == d && same_start n a b

-- the loop over the instances, from `idx` on
unfoldable pub inst_from : ℕ → List DictInst → Text → Option ℕ
inst_from idx [] name = none
inst_from idx (inst ∷ insts) name =
    let rest = inst_from (idx + 1) insts name in
    if same_start name_size inst.name name then some idx else rest

-- `dinst_alloc`, where the second look under the lock finds what the first did; `strncpy` and the 0 at
-- the end keep one byte less than the field has
unfoldable pub dinst_alloc : List DictInst → Text → List DictInst × Option ℕ
dinst_alloc insts name = elim (inst_from 0 insts name) [
  | some idx ↦ (insts, some idx)
  | none ↦ if leb max_dict_inst (length insts) then (insts, none) else (
    insts ++ (record { name = take (name_size - 1) name; ctx = none }) ∷ [],
    some (length insts),
  )
]

-- what a function of the module leaves Lua with
pub data Answer : Type 0 where
  error : Answer
  crash : Answer
  nil : Answer
  value : Text → Answer

-- what a function of the module does with its id: its work, the error of an id with no instance, or a read
-- before the start of `G_INST`
pub data Outcome (A : Type 0) : Type 0 where
  done : A → Outcome A
  no_instance : Outcome A
  reads_before : Outcome A

-- `int id = luaL_checkinteger(...)` for the 64 bits of an integer of Lua: the low 32, or none where they
-- are those of a negative `int`, which `dinst_get` takes for the place of an instance
unfoldable pub int_id : ℕ → Option ℕ
int_id id = let low = id % 2 ^ 32 in if leb (2 ^ 31) low then none else some low

-- the end of `lload_dict`, with `dict_change`
unfoldable pub load_at : List DictInst → ℕ → List DictNode → Outcome (List DictInst)
load_at insts idx pairs = elim (get_elem? insts idx) [
  | none ↦ no_instance
  | some inst ↦ done (set insts idx (record inst { ctx = some (load dict_new pairs) }))
]

unfoldable pub lload_dict : List DictInst → ℕ → List DictNode → Outcome (List DictInst)
lload_dict insts id pairs = elim (int_id id) [
  | none ↦ reads_before
  | some idx ↦ load_at insts idx pairs
]

-- `dictctx_check`
unfoldable pub dictctx_check : List DictInst → ℕ → Option Ctx
dictctx_check insts id = elim (get_elem? insts id) [ none ↦ none | some inst ↦ inst.ctx ]

-- `ldict_get` behind its arguments
unfoldable pub get_at : List DictInst → ℕ → Text → Answer
get_at insts idx key = elim (dictctx_check insts idx) [
  | none ↦ error
  | some ctx ↦ elim (dict_get ctx key) [
    | fault ↦ crash
    | found none ↦ nil
    | found (some v) ↦ value v
  ]
]

unfoldable pub ldict_get : List DictInst → ℕ → Text → Answer
ldict_get insts id key = elim (int_id id) [ none ↦ crash | some idx ↦ get_at insts idx key ]

unfoldable pub ldict_getall : List DictInst → ℕ → Outcome (List DictNode)
ldict_getall insts id = elim (int_id id) [
  | none ↦ reads_before
  | some idx ↦ elim (dictctx_check insts idx) [ none ↦ no_instance | some ctx ↦ done (getall ctx) ]
]
