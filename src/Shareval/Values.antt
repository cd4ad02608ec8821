-- ===== src/Shareval/Values.antt =====
-- Which values come back from src/lua-shareval.c.
use my_skynet.Prelude.{◌≡◌, refl}
use my_skynet.Shareval.{
  LuaValue, nil, boolean, integer, number, string, other, Sval, stored, shown, store_value,
  show_value, push_integer, push_number, push_boolean,
}

module _ {Double : Type 0} where
  -- a boolean, an integer or another number
  abbrev pub IsPlain : LuaValue Double → Type 0
  IsPlain (boolean b) = Unit {0}
  IsPlain (integer i) = Unit {0}
  IsPlain (number d) = Unit {0}
  IsPlain _ = ⊥

  -- A boolean, an integer or another number is stored, and a query pushes it as it was.
  pub show_value-store_value :
      (v : LuaValue Double)
      → IsPlain v
      → (val : Sval Double) × (store_value v ≡ stored val) × (show_value val ≡ shown v)
  unfolding store_value show_value push_integer push_number push_boolean
  show_value-store_value (boolean b) h = (_, refl, refl)
  show_value-store_value (integer i) h = (_, refl, refl)
  show_value-store_value (number d) h = (_, refl, refl)
  show_value-store_value nil h = elim h [ ]
  show_value-store_value (string s) h = elim h [ ]
  show_value-store_value other h = elim h [ ]
