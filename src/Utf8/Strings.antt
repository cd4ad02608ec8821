-- ===== src/Utf8/Strings.antt =====
-- What `toutf8` of src/lua-utf8.c pushes has the form of UTF-8.
use my_skynet.Prelude.{
  ℕ, ◌%◌, ◌<◌, ◌≡◌, refl, sym, ap, ◌∙◌, List, [], ◌∷◌, ◌++◌, arith, Option, none, some, true,
  length, Bool-cases, inl, inr,
}
use my_skynet.Utf8.{u32_mod, bytes, encode, toutf8_bytes, toutf8}
use my_skynet.Utf8.Code.{IsCode-of}
use my_skynet.Utf8.Form.{has_form}
use my_skynet.Utf8.RoundTrip.{all_encodable, toutf8_lem}

encode-has_form :
    (rune : ℕ) (rest : List ℕ)
    → rune < 0x110000
    → has_form 0 (encode rune (bytes rune) ++ rest) ≡ has_form 0 rest
encode-has_form rune rest h = let (c, e, code) = IsCode-of rune h in rw code.stored (code.form rest)

toutf8_bytes-has_form :
    (table : List (Option ℕ)) → all_encodable table ≡ true → has_form 0 (toutf8_bytes table) ≡ true
unfolding toutf8_bytes has_form
toutf8_bytes-has_form [] h = refl
toutf8_bytes-has_form (none ∷ table) h = cc
toutf8_bytes-has_form (some w ∷ table) h =
    encode-has_form (w % u32_mod) (toutf8_bytes table) (ground (arith, h))
    ∙ toutf8_bytes-has_form table (ground (arith, h))

-- Whatever `toutf8` pushes is a string in the form of UTF-8, codes of a leading byte and the bytes that it calls
-- for, and is as long as the buffer.
pub toutf8-has_form :
    (table : List (Option ℕ)) (str : List ℕ) (size : ℕ)
    → toutf8 table ≡ some (str, size)
    → (has_form 0 str ≡ true) × (length str ≡ size)
toutf8-has_form table str size e = elim (Bool-cases (all_encodable table)) [
  | inr f ↦
      let bad : ◌≡◌ {A = Option (List ℕ × ℕ)} none (some (str, size)) =
        sym (toutf8_lem table ∙ rw f refl) ∙ e in
      cc
  | inl f ↦
      let pushed : ◌≡◌ {A = Option (List ℕ × ℕ)}
          (some (toutf8_bytes table, length (toutf8_bytes table))) (some (str, size)) =
        sym (toutf8_lem table ∙ rw f refl) ∙ e in
      let same : toutf8_bytes table ≡ str = cc in
      let count : length (toutf8_bytes table) ≡ size = cc in
      (
        sym (ap (has_form 0) same) ∙ toutf8_bytes-has_form table f,
        sym (ap (length {A = ℕ}) same) ∙ count,
      )
]
