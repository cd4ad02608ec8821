-- ===== src/Shareval.antt =====
-- src/lua-shareval.c: values that the threads of a process share. Here is what `lsval_update` makes of a
-- value of Lua and what `lsval_query` makes of that; Shareval.Share has the threads. A `double` is of any
-- type; a string is the list of its bytes.
mod Tests
pub mod Share
pub mod Values
pub mod Lua
pub mod Service
use my_skynet.Prelude.{ℕ, List, [], ◌∷◌, Bool, ◌==◌, if◌then◌else◌}
use my_skynet.Prelude.Int.{ℤ}

abbrev pub st_string : ℕ
st_string = 0

abbrev pub st_integer : ℕ
st_integer = 1

abbrev pub st_double : ℕ
st_double = 2

abbrev pub st_nil : ℕ
st_nil = 3

abbrev pub st_boolean : ℕ
st_boolean = 4

-- `LUA_TNIL` of lua.h
abbrev pub lua_tnil : ℕ
lua_tnil = 0

-- what a Lua argument is
pub data LuaValue (Double : Type 0) : Type 0 where
  nil : LuaValue Double
  boolean : Bool → LuaValue Double
  integer : ℤ → LuaValue Double
  number : Double → LuaValue Double
  string : List ℕ → LuaValue Double
  other : LuaValue Double

-- the `union`, with what was last written to it
pub data Body (Double : Type 0) : Type 0 where
  unset : Body Double
  body_i : ℤ → Body Double
  body_d : Double → Body Double
  body_b : Bool → Body Double

-- `struct sval_t` but for its count
pub record Sval (Double : Type 0) : Type 0 where
  pub type : ℕ
  pub body : Body Double

-- What the `switch` of `lsval_update` leaves: a value, a write through the pointer `s`, which nothing has
-- set, or the error on the type.
pub data Stored (Double : Type 0) : Type 0 where
  stored : Sval Double → Stored Double
  wild_write : Stored Double
  not_supported : Stored Double

-- What the `switch` of `lsval_query` pushes: a value, what a read through the unset pointer `s` or of
-- another member of the union gives, or the error on the type.
pub data Shown (Double : Type 0) : Type 0 where
  shown : LuaValue Double → Shown Double
  wild_read : Shown Double
  bad_type : Shown Double

module _ {Double : Type 0} where
  -- `memcpy` of no byte writes nothing.
  unfoldable pub store_value : LuaValue Double → Stored Double
  store_value nil = stored (record { type = lua_tnil; body = unset })
  store_value (boolean b) = stored (record { type = st_boolean; body = body_b b })
  store_value (integer i) = stored (record { type = st_integer; body = body_i i })
  store_value (number d) = stored (record { type = st_double; body = body_d d })
  store_value (string []) = stored (record { type = st_string; body = unset })
  store_value (string (c ∷ s)) = wild_write
  store_value other = not_supported

  unfoldable pub push_integer : Body Double → Shown Double
  push_integer (body_i i) = shown (integer i)
  push_integer unset = wild_read
  push_integer (body_d d) = wild_read
  push_integer (body_b b) = wild_read

  unfoldable pub push_number : Body Double → Shown Double
  push_number (body_d d) = shown (number d)
  push_number unset = wild_read
  push_number (body_i i) = wild_read
  push_number (body_b b) = wild_read

  unfoldable pub push_boolean : Body Double → Shown Double
  push_boolean (body_b b) = shown (boolean b)
  push_boolean unset = wild_read
  push_boolean (body_i i) = wild_read
  push_boolean (body_d d) = wild_read

  -- No value has its member `s` set, so that the case of a string reads through no pointer.
  unfoldable pub show_value : Sval Double → Shown Double
  show_value val =
      if val.type == st_string
      then wild_read
      else if val.type == st_integer
      then push_integer val.body
      else if val.type == st_double
      then push_number val.body
      else if val.type == st_nil
      then shown nil
      else if val.type == st_boolean
      then push_boolean val.body
      else bad_type
