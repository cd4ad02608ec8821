-- ===== src/Utf8/Tests.antt =====
-- Runs of src/lua-utf8.c, and its theorems at concrete inputs.
use my_skynet.Prelude.{
  ℕ, ◌≡◌, refl, List, [], ◌∷◌, some, none, true, map, length, arith, if◌then◌else◌,
}
use my_skynet.Utf8.{
  steps, bytes, decode, encode, toutf32, toutf32_from, toutf8, toutf8_size, toutf8_bytes, utf8_len,
}
use my_skynet.Utf8.Form.{has_form}
use my_skynet.Utf8.Strings.{toutf8-has_form}
use my_skynet.Utf8.RoundTrip.{
  all_encodable, toutf8_lem, toutf32-toutf8, utf8_len-toutf32, toutf32_from-fuel,
}

-- a, é, 中 and an emoji
abbrev sample : List ℕ
sample = 0x61 ∷ 0xe9 ∷ 0x4e2d ∷ 0x1f600 ∷ []

abbrev text : List ℕ
text = 0x61 ∷ 0xc3 ∷ 0xa9 ∷ 0xe4 ∷ 0xb8 ∷ 0xad ∷ 0xf0 ∷ 0x9f ∷ 0x98 ∷ 0x80 ∷ []

encoded : toutf8 (map some sample) ≡ some (text, 10)
unfolding toutf8 toutf8_size toutf8_bytes bytes encode
encoded = refl

decoded : toutf32 text ≡ record { table = sample; count = some 4 }
unfolding toutf32 steps decode
decoded = refl

-- a lead byte with no byte behind it: the table keeps what came before
cut_short : toutf32 (0x61 ∷ 0xc3 ∷ []) ≡ record { table = 0x61 ∷ []; count = none }
unfolding toutf32 steps decode
cut_short = refl

toutf8_lem_example : toutf8 (map some sample) ≡ (
    if all_encodable (map some sample)
    then some (toutf8_bytes (map some sample), length (toutf8_bytes (map some sample)))
    else none)
toutf8_lem_example = toutf8_lem (map some sample)

toutf32-toutf8_example :
    (s : List ℕ) × (toutf8 (map some sample) ≡ some (s, length s))
    × (toutf32 s ≡ record { table = sample; count = some (length sample) })
toutf32-toutf8_example = toutf32-toutf8 sample (omega arith)

utf8_len-toutf32_example : utf8_len text ≡ (toutf32 text).count
utf8_len-toutf32_example = utf8_len-toutf32 text

toutf32_from-fuel_example : toutf32_from 10 text [] 0 ≡ toutf32_from 99 text [] 0
toutf32_from-fuel_example = toutf32_from-fuel 10 99 0 text [] (omega arith) (omega arith)

toutf8-has_form_example : (has_form 0 text ≡ true) × (length text ≡ 10)
toutf8-has_form_example = toutf8-has_form (map some sample) text 10 encoded
