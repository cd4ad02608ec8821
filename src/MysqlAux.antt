-- ===== src/MysqlAux.antt =====
-- src/lua-mysqlaux.c: escaping of byte strings for SQL text. A byte string is a list of numbers
-- below 256, and a function that writes through `dst` returns the bytes that it writes.
mod Tests
pub mod Escape
use my_skynet.Prelude.{
  ℕ, ◌+◌, ◌%◌, ◌^◌, List, [], ◌∷◌, ◌++◌, Bool, ◌&&◌, ◌||◌, bit_and, ◌==◌, ltb, if◌then◌else◌,
  length,
}

-- `unsigned int` and `size_t`
abbrev pub uint_mod : ℕ
uint_mod = 2 ^ 32

abbrev pub size_mod : ℕ
size_mod = 2 ^ 64

abbrev pub max_buff_char : ℕ
max_buff_char = 256

abbrev pub backslash : ℕ
backslash = 92

abbrev pub quote : ℕ
quote = 39

-- the `case` labels of the switch that counts
unfoldable pub is_escaped : ℕ → Bool
is_escaped c =
    c == 0
    || c == 8
    || c == 10
    || c == 13
    || c == 9
    || c == 26
    || c == backslash
    || c == quote
    || c == 34

-- the loop, with the count `n`
unfoldable pub num_escape_from : ℕ → List ℕ → ℕ
num_escape_from n [] = n
num_escape_from n (c ∷ src) =
    num_escape_from (if bit_and c 0x80 == 0 && is_escaped c then (n + 1) % uint_mod else n) src

unfoldable pub num_escape_sql_str : List ℕ → ℕ
num_escape_sql_str src = num_escape_from 0 src

-- the switch that writes
unfoldable pub escape_ascii : ℕ → List ℕ
escape_ascii c =
    if c == 0
    then backslash ∷ b'0' ∷ []
    else if c == 8
    then backslash ∷ b'b' ∷ []
    else if c == 10
    then backslash ∷ b'n' ∷ []
    else if c == 13
    then backslash ∷ b'r' ∷ []
    else if c == 9
    then backslash ∷ b't' ∷ []
    else if c == 26
    then backslash ∷ b'Z' ∷ []
    else if c == backslash
    then backslash ∷ backslash ∷ []
    else if c == quote
    then backslash ∷ quote ∷ []
    else if c == 34
    then backslash ∷ 34 ∷ []
    else c ∷ []

-- one round of the loop
unfoldable pub escape_byte : ℕ → List ℕ
unfolding escape_ascii
escape_byte c = if bit_and c 0x80 == 0 then escape_ascii c else c ∷ []

unfoldable pub escape_sql_str : List ℕ → List ℕ
escape_sql_str [] = []
escape_sql_str (c ∷ src) = escape_byte c ++ escape_sql_str src

-- What a call leaves: the string that it pushes, the error raised where the length is not the one
-- computed, or a write past the end of the buffer.
pub data Pushed : Type 0 where
  pushed : List ℕ → Pushed
  quote_error overrun : Pushed

-- the checks on what has been written to a buffer of `room` bytes for a string of `dlen` bytes
unfoldable pub push_written : ℕ → ℕ → List ℕ → Pushed
push_written room dlen written =
    if ltb room (length written)
    then overrun
    else if length written == dlen
    then pushed written
    else quote_error

-- the local `buff` for a short string, else a userdata of just the size
unfoldable pub no_quote_room : ℕ → ℕ
no_quote_room dlen = if ltb dlen max_buff_char then max_buff_char + max_buff_char else dlen

unfoldable pub escape_sql_str_no_quote : List ℕ → Pushed
unfolding push_written no_quote_room
escape_sql_str_no_quote src =
    let escape = num_escape_sql_str src in
    let dlen = (length src + escape) % size_mod in
    if length src == 0
    then pushed src
    else if escape == 0
    then pushed src
    else push_written (no_quote_room dlen) dlen (escape_sql_str src)

unfoldable pub escape_sql_str_quote : List ℕ → Pushed
unfolding push_written
escape_sql_str_quote src =
    let escape = num_escape_sql_str src in
    let dlen = (2 + length src + escape) % size_mod in
    let body = if escape == 0 then src else escape_sql_str src in
    if length src == 0
    then pushed (quote ∷ quote ∷ [])
    else push_written dlen dlen (quote ∷ body ++ quote ∷ [])
