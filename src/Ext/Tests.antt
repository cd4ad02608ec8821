-- ===== src/Ext/Tests.antt =====
-- Runs of src/lua-ext.c, and its theorems at concrete strings.
use my_skynet.Prelude.{ℕ, ◌≡◌, refl, List, [], ◌∷◌, Bool, true, arith, ◌==◌}
use my_skynet.Ext.{strstr, split_string, callback, lsplit_string, name_trim}
use my_skynet.Ext.Split.{IsSplit, split_string-IsSplit, split_string_long}
use my_skynet.Ext.Blank.{IsTrimmed}
use my_skynet.Ext.Words.{word_list, words_from}
use my_skynet.Ext.Trim.{name_trim-IsTrimmed}

abbrev is_blank : ℕ → Bool
is_blank c = c == 32

-- "a,b,,c"
abbrev list : List ℕ
list = b'a' ∷ b',' ∷ b'b' ∷ b',' ∷ b',' ∷ b'c' ∷ []

pieces : split_string list (b',' ∷ []) ≡ (b'a' ∷ []) ∷ (b'b' ∷ []) ∷ [] ∷ (b'c' ∷ []) ∷ []
unfolding split_string strstr
pieces = refl

filled_pieces : lsplit_string list (b',' ∷ []) true ≡ (b'a' ∷ []) ∷ (b'b' ∷ []) ∷ (b'c' ∷ []) ∷ []
unfolding lsplit_string callback split_string strstr
filled_pieces = refl

-- " a  b "
abbrev name : List ℕ
name = 32 ∷ b'a' ∷ 32 ∷ 32 ∷ b'b' ∷ 32 ∷ []

trimmed : name_trim is_blank name ≡ b'a' ∷ 32 ∷ b'b' ∷ []
unfolding name_trim
trimmed = refl

split_string-IsSplit_example : IsSplit b',' list (split_string list (b',' ∷ []))
split_string-IsSplit_example =
    split_string-IsSplit b',' list (omega arith) (ground arith) (omega arith)

split_string_long_example :
    split_string (b'a' ∷ b'-' ∷ b'>' ∷ b'b' ∷ []) (b'-' ∷ b'>' ∷ [])
    ≡ (b'a' ∷ []) ∷ (b'>' ∷ b'b' ∷ []) ∷ []
split_string_long_example =
    split_string_long (b'a' ∷ []) b'-' b'>' (b'b' ∷ []) (omega arith) (omega arith) (omega arith)
      (omega arith) (omega arith)

name_trim-IsTrimmed_example :
    IsTrimmed is_blank (name_trim is_blank name)
    × (word_list is_blank (name_trim is_blank name) ≡ word_list is_blank name)
name_trim-IsTrimmed_example = name_trim-IsTrimmed is_blank name

two_words : word_list is_blank name ≡ (b'a' ∷ []) ∷ (b'b' ∷ []) ∷ []
unfolding word_list words_from
two_words = refl
