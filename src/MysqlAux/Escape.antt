-- ===== src/MysqlAux/Escape.antt =====
-- What src/lua-mysqlaux.c promises: the count of escapes is exact, so the buffers are filled to
-- the byte, and a reader of SQL literals gets the string back.
use my_skynet.Prelude.{
  ℕ, ◌+◌, ◌*◌, ◌≤◌, ◌<◌, ◌≡◌, refl, ap, List, [], ◌∷◌, ◌++◌, Bool, true, false, arith, Option, none,
  some, bit_and, ◌&&◌, ◌==◌, if◌then◌else◌, length, length-append, append_assoc,
}
use my_skynet.MysqlAux.{
  backslash, quote, uint_mod, is_escaped, num_escape_from, num_escape_sql_str, escape_byte,
  escape_sql_str, pushed, escape_sql_str_no_quote, escape_sql_str_quote,
}

abbrev escapes : ℕ → ℕ
escapes c = if bit_and c 0x80 == 0 && is_escaped c then 1 else 0

length-escape_byte : (c : ℕ) → length (escape_byte c) ≡ 1 + escapes c
unfolding escape_byte is_escaped
length-escape_byte c = ground arith

escape_byte_plain : (c : ℕ) → length (escape_byte c) ≡ 1 → escape_byte c ≡ c ∷ []
unfolding escape_byte
escape_byte_plain c h = ground arith

num_escape_from-exact :
    (n : ℕ) (src : List ℕ)
    → n + length src < uint_mod
    → num_escape_from n src + length src ≡ n + length (escape_sql_str src)
unfolding num_escape_from escape_sql_str
num_escape_from-exact n [] h = omega arith
num_escape_from-exact n (c ∷ src) h = ground (
  arith,
  length-escape_byte c,
  length-append (escape_byte c) (escape_sql_str src),
  num_escape_from-exact n src,
  num_escape_from-exact (n + 1) src,
)

length-escape_sql_str-ge : (src : List ℕ) → length src ≤ length (escape_sql_str src)
unfolding escape_sql_str
length-escape_sql_str-ge [] = omega arith
length-escape_sql_str-ge (c ∷ src) = omega (
  arith,
  length-escape_byte c,
  length-append (escape_byte c) (escape_sql_str src),
  length-escape_sql_str-ge src,
)

escapes-le : (c : ℕ) → escapes c ≤ 1
escapes-le c = ground arith

length-escape_sql_str-le : (src : List ℕ) → length (escape_sql_str src) ≤ 2 * length src
unfolding escape_sql_str
length-escape_sql_str-le [] = omega arith
length-escape_sql_str-le (c ∷ src) = omega (
  arith,
  escapes-le c,
  length-escape_byte c,
  length-append (escape_byte c) (escape_sql_str src),
  length-escape_sql_str-le src,
)

-- Nothing to escape leaves the string as it is.
escape_sql_str_plain :
    (src : List ℕ) → length (escape_sql_str src) ≡ length src → escape_sql_str src ≡ src
unfolding escape_sql_str
escape_sql_str_plain [] h = refl
escape_sql_str_plain (c ∷ src) h =
    let one : length (escape_byte c) ≡ 1 = omega (
      arith,
      length-escape_byte c,
      length-append (escape_byte c) (escape_sql_str src),
      length-escape_sql_str-ge src,
    ) in
    rw (escape_byte_plain c one) (
      ap (◌∷◌ c) (
        escape_sql_str_plain src
          (omega (arith, length-append (escape_byte c) (escape_sql_str src)))))

-- The count made in advance is the number of bytes that the escaping adds.
pub num_escape-exact :
    (src : List ℕ)
    → length src < uint_mod
    → length (escape_sql_str src) ≡ length src + num_escape_sql_str src
unfolding num_escape_sql_str
num_escape-exact src h = omega (arith, num_escape_from-exact 0 src)

-- `escape` never raises its error nor writes past its buffer: for every string below 4 GiB it
-- pushes the escaped string, by the shortcuts as well.
pub escape_sql_str_no_quote-total :
    (src : List ℕ)
    → length src < uint_mod
    → escape_sql_str_no_quote src ≡ pushed (escape_sql_str src)
unfolding escape_sql_str_no_quote
escape_sql_str_no_quote-total src h =
    ground (arith, num_escape-exact src h, escape_sql_str_plain src, length-escape_sql_str-le src)

quote_body :
    (src : List ℕ)
    → length src < uint_mod
    → (if num_escape_sql_str src == 0 then src else escape_sql_str src) ≡ escape_sql_str src
quote_body src h = ground (arith, num_escape-exact src h, escape_sql_str_plain src)

-- `escape_quote` never raises its error nor writes past its buffer: for every string below 4 GiB
-- it pushes the escaped string between two quotes.
pub escape_sql_str_quote-total :
    (src : List ℕ)
    → length src < uint_mod
    → escape_sql_str_quote src ≡ pushed (quote ∷ escape_sql_str src ++ quote ∷ [])
unfolding escape_sql_str_quote
escape_sql_str_quote-total [] h = unfold escape_sql_str in refl
escape_sql_str_quote-total (c ∷ src) h = rw (quote_body (c ∷ src) h) (
    ground (
      arith,
      num_escape-exact (c ∷ src) h,
      length-escape_sql_str-le (c ∷ src),
      length-append (escape_sql_str (c ∷ src)) (quote ∷ []),
    ))

-- A reader of the text after an opening quote: it undoes the escapes and stops at the first quote
-- that none precedes. `after` says that the last byte was a backslash.
unfoldable pub read_escape : ℕ → ℕ
read_escape c =
    if c == b'0'
    then 0
    else if c == b'b'
    then 8
    else if c == b'n'
    then 10
    else if c == b'r'
    then 13
    else if c == b't'
    then 9
    else if c == b'Z'
    then 26
    else c

abbrev pub read_more : ℕ → Option (List ℕ × List ℕ) → Option (List ℕ × List ℕ)
read_more c none = none
read_more c (some (s, rest)) = some (c ∷ s, rest)

unfoldable pub read_literal : Bool → List ℕ → Option (List ℕ × List ℕ)
unfolding read_escape
read_literal after [] = none
read_literal true (c ∷ text) = read_more (read_escape c) (read_literal false text)
read_literal false (c ∷ text) =
    let more = read_more c (read_literal false text) in
    let next = read_literal true text in
    if c == quote then some ([], text) else if c == backslash then next else more

read_literal-escape_byte :
    (c : ℕ) (text : List ℕ)
    → read_literal false (escape_byte c ++ text) ≡ read_more c (read_literal false text)
unfolding read_literal escape_byte
read_literal-escape_byte c text = ground arith

-- The reader of the escaped string, whatever text follows, gets exactly the string: no byte of it
-- ends the literal early, and the text after the closing quote is left.
pub read_literal-escape_sql_str :
    (src rest : List ℕ) → read_literal false (escape_sql_str src ++ quote ∷ rest) ≡ some (src, rest)
unfolding escape_sql_str
read_literal-escape_sql_str [] rest = unfold read_literal in refl
read_literal-escape_sql_str (c ∷ src) rest =
    rw
      (append_assoc (escape_byte c), read_literal-escape_byte, read_literal-escape_sql_str src rest)
