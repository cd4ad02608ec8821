-- ===== src/Utf8.antt =====
-- src/lua-utf8.c: UTF-8 byte strings and tables of code points. A byte string is a list of numbers
-- below 256, and `str + i` is the list of the bytes from `i` on. An element of a Lua table is what
-- `lua_tointegerx` finds there: none for what is no number, or the 64 bits of the integer.
mod Tests
pub mod Form
pub mod Code
pub mod RoundTrip
pub mod Strings
use my_skynet.Prelude.{
  ℕ, zero, suc, ◌+◌, ◌-◌, ◌*◌, ◌/◌, ◌%◌, ◌^◌, List, [], ◌∷◌, ◌++◌, Option, none, some, bit_and,
  bit_or, ◌==◌, ltb, ◌||◌, if◌then◌else◌, length, get_or, drop,
}

abbrev pub u32_mod : ℕ
u32_mod = 2 ^ 32

unfoldable pub steps : ℕ → ℕ
steps c =
    if ltb c 0x80
    then 1
    else if ltb c 0xc0
    then 0
    else if ltb c 0xe0
    then 2
    else if ltb c 0xf0
    then 3
    else if ltb c 0xf8
    then 4
    else 0

unfoldable pub bytes : ℕ → ℕ
bytes rune =
    if ltb rune 0x80
    then 1
    else if ltb rune 0x800
    then 2
    else if ltb rune 0x10000
    then 3
    else if ltb rune 0x110000
    then 4
    else 0

-- The loop of `_decode` from `j` on: `n` rounds are left and `v` is the value so far.
unfoldable pub decode_from : ℕ → ℕ → List ℕ → ℕ → ℕ
decode_from zero v str j = v
decode_from (suc n) v str j =
    decode_from n (bit_or (v * 2 ^ 6 % u32_mod) (bit_and (get_or str j 0) 0x3f)) str (j + 1)

-- `_decode(str, i, step)`, with `str` the bytes from `i` on
unfoldable pub decode : List ℕ → ℕ → ℕ
unfolding decode_from
decode str step = decode_from (step - 1) (bit_and (get_or str 0 0) (0xff / 2 ^ step)) str 1

-- FILL_LOW_BITS: the byte that is stored, and the rune that is left
abbrev pub low_byte : ℕ → ℕ
low_byte rune = bit_or (bit_and rune 0x3f) 0x80 % 256

abbrev pub low_rest : ℕ → ℕ
low_rest rune = rune / 2 ^ 6

-- The bytes that `_encode` stores; `n` is its `bytes`.
unfoldable pub encode : ℕ → ℕ → List ℕ
encode rune n =
    if n == 1
    then bit_and rune 0x7f ∷ []
    else if n == 2
    then (let r1 = low_rest rune in (bit_or r1 0xc0 % 256) ∷ low_byte rune ∷ [])
    else if n == 3
    then (let r1 = low_rest rune in
        let r2 = low_rest r1 in (bit_or r2 0xe0 % 256) ∷ low_byte r1 ∷ low_byte rune ∷ [])
    else let r1 = low_rest rune in
      let r2 = low_rest r1 in
      let r3 = low_rest r2 in
      (bit_or r3 0xf0 % 256) ∷ low_byte r2 ∷ low_byte r1 ∷ low_byte rune ∷ []

-- What `_toutf32` leaves: the entries that it appended to the table, and the count that it
-- returns, none where it returns nothing.
pub record Runes : Type 0 where
  pub table : List ℕ
  pub count : Option ℕ

-- The loop of `_toutf32` at the bytes that are left, with the table so far. Every round takes a
-- byte at least, so the number of bytes is fuel enough.
unfoldable pub toutf32_from : ℕ → List ℕ → List ℕ → ℕ → Runes
toutf32_from fuel [] table count = record { table = table; count = some count }
toutf32_from zero (c ∷ str) table count = record { table = table; count = none }
toutf32_from (suc fuel) (c ∷ str) table count =
    let step = steps c in
    let rest =
      toutf32_from fuel (drop step (c ∷ str)) (table ++ decode (c ∷ str) step ∷ []) (count + 1) in
    if step == 0 || ltb (length (c ∷ str)) step
    then record { table = table; count = none }
    else rest

unfoldable pub toutf32 : List ℕ → Runes
unfolding toutf32_from
toutf32 str = toutf32_from (length str) str [] 0

-- The first loop of `_toutf8`: the size, none where it returns early.
unfoldable pub toutf8_size : ℕ → List (Option ℕ) → Option ℕ
toutf8_size sz [] = some sz
toutf8_size sz (none ∷ table) = none
toutf8_size sz (some w ∷ table) =
    let rest = toutf8_size (sz + bytes (w % u32_mod)) table in
    if bytes (w % u32_mod) == 0 then none else rest

-- The second loop: the bytes that it stores. `lua_tointeger` is 0 for what is no number.
unfoldable pub toutf8_bytes : List (Option ℕ) → List ℕ
toutf8_bytes [] = []
toutf8_bytes (none ∷ table) = encode 0 (bytes 0) ++ toutf8_bytes table
toutf8_bytes (some w ∷ table) = encode (w % u32_mod) (bytes (w % u32_mod)) ++ toutf8_bytes table

-- The string that `_toutf8` pushes with the size that it allocated, none where it returns nothing.
unfoldable pub toutf8 : List (Option ℕ) → Option (List ℕ × ℕ)
toutf8 table = elim (toutf8_size 0 table) [ none ↦ none | some sz ↦ some (toutf8_bytes table, sz) ]

-- The loop of `_len`.
unfoldable pub utf8_len_from : ℕ → List ℕ → ℕ → Option ℕ
utf8_len_from fuel [] count = some count
utf8_len_from zero (c ∷ str) count = none
utf8_len_from (suc fuel) (c ∷ str) count =
    let step = steps c in
    let rest = utf8_len_from fuel (drop step (c ∷ str)) (count + 1) in
    if step == 0 || ltb (length (c ∷ str)) step then none else rest

unfoldable pub utf8_len : List ℕ → Option ℕ
unfolding utf8_len_from
utf8_len str = utf8_len_from (length str) str 0
