-- ===== src/Shareval/Lua.antt =====
-- The functions for Lua of src/lua-shareval.c as one thread sees them: to a single thread `sval_check`
-- gives the value that was last put in. An id is the
-- `int` that `lgrab_id` makes of the Lua integer, from 0 on.
use my_skynet.Prelude.{ℕ, List, Bool, Option, none, some, leb, if◌then◌else◌, get_or, set}
use my_skynet.Shareval.{
  LuaValue, Sval, stored, wild_write, not_supported, Shown, store_value, show_value,
}

abbrev pub max_inst : ℕ
max_inst = 64

-- what an update leaves: the values, or one of its errors
pub data Updated (Double : Type 0) : Type 0 where
  updated : List (Option (Sval Double)) → Updated Double
  update_wild : Updated Double
  update_not_supported : Updated Double
  update_bad_id : Updated Double

-- what a query gives Lua
pub data Queried (Double : Type 0) : Type 0 where
  pushed : Shown Double → Queried Double
  nothing : Queried Double
  not_inited : Queried Double
  query_bad_id : Queried Double

-- none for the error
unfoldable pub lgrab_id : ℕ → Option ℕ
lgrab_id id = if leb max_inst id then none else some id

module _ {Double : Type 0} where
  unfoldable pub sval_update :
      List (Option (Sval Double)) → ℕ → Sval Double → List (Option (Sval Double))
  sval_update insts id val = set insts id (some val)

  unfoldable pub sval_check : List (Option (Sval Double)) → ℕ → Option (Sval Double)
  sval_check insts id = get_or insts id none

  unfoldable pub lsval_update : List (Option (Sval Double)) → ℕ → LuaValue Double → Updated Double
  lsval_update insts id v = elim (lgrab_id id) [
    | none ↦ update_bad_id
    | some i ↦ elim (store_value v) [
      | stored val ↦ updated (sval_update insts i val)
      | wild_write ↦ update_wild
      | not_supported ↦ update_not_supported
    ]
  ]

  unfoldable pub lsval_query : List (Option (Sval Double)) → ℕ → Bool → Queried Double
  lsval_query insts id throw = elim (lgrab_id id) [
    | none ↦ query_bad_id
    | some i ↦ elim (sval_check insts i) [
      | none ↦ if throw then not_inited else nothing
      | some val ↦ pushed (show_value val)
    ]
  ]
