-- ===== src/MysqlAux/Tests.antt =====
-- Runs of src/lua-mysqlaux.c on small strings, and its theorems at one of them.
use my_skynet.Prelude.{ℕ, ◌≡◌, refl, List, [], ◌∷◌, ◌++◌, some, false, arith}
use my_skynet.MysqlAux.{
  quote, escape_sql_str, num_escape_sql_str, num_escape_from, is_escaped, escape_byte, pushed,
  escape_sql_str_no_quote, escape_sql_str_quote,
}
use my_skynet.MysqlAux.Escape.{
  escape_sql_str_no_quote-total, escape_sql_str_quote-total, read_literal,
  read_literal-escape_sql_str,
}

-- it's, with a newline
abbrev sample : List ℕ
sample = b'i' ∷ b't' ∷ quote ∷ b's' ∷ 10 ∷ []

escaped : escape_sql_str sample ≡ b'i' ∷ b't' ∷ 92 ∷ quote ∷ b's' ∷ 92 ∷ b'n' ∷ []
unfolding escape_sql_str escape_byte
escaped = refl

quoted : escape_sql_str_quote (b'a' ∷ []) ≡ pushed (quote ∷ b'a' ∷ quote ∷ [])
unfolding escape_sql_str_quote num_escape_sql_str num_escape_from is_escaped
quoted = refl

escape_sql_str_no_quote-total_example :
    escape_sql_str_no_quote sample ≡ pushed (escape_sql_str sample)
escape_sql_str_no_quote-total_example = escape_sql_str_no_quote-total sample (omega arith)

escape_sql_str_quote-total_example :
    escape_sql_str_quote sample ≡ pushed (quote ∷ escape_sql_str sample ++ quote ∷ [])
escape_sql_str_quote-total_example = escape_sql_str_quote-total sample (omega arith)

read_literal-escape_sql_str_example :
    read_literal false (escape_sql_str sample ++ quote ∷ b';' ∷ []) ≡ some (sample, b';' ∷ [])
read_literal-escape_sql_str_example = read_literal-escape_sql_str sample (b';' ∷ [])
