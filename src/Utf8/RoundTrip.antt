-- ===== src/Utf8/RoundTrip.antt =====
-- The three functions of src/lua-utf8.c against one another.
use my_skynet.Prelude.{
  ℕ, zero, suc, ◌+◌, ◌%◌, ◌≤◌, ◌<◌, ◌≡◌, refl, List, [], ◌∷◌, ◌++◌, arith, Option, none, some, Bool,
  true, false, ◌&&◌, ◌||◌, if◌then◌else◌, map, append-nil, append_assoc, ◌==◌, length, ltb, drop,
  drop-append, length-append, length-drop, Bool-cases, inl, inr,
}
use my_skynet.Utf8.{
  u32_mod, steps, bytes, decode, encode, toutf32_from, toutf32, toutf8_size, toutf8_bytes, toutf8,
  utf8_len_from, utf8_len,
}
use my_skynet.Utf8.Code.{IsCode, IsCode-of, bytes-zero}

abbrev pub encodable : Option ℕ → Bool
encodable none = false
encodable (some w) = ltb (w % u32_mod) 0x110000

abbrev pub all_encodable : List (Option ℕ) → Bool
all_encodable [] = true
all_encodable (x ∷ table) = encodable x && all_encodable table

length-encode : (rune : ℕ) → rune < 0x110000 → length (encode rune (bytes rune)) ≡ bytes rune
length-encode rune h = let (c, e, code) = IsCode-of rune h in rw (code.stored, code.size)

toutf8_size_lem :
    (sz : ℕ) (table : List (Option ℕ))
    → toutf8_size sz table
      ≡ (if all_encodable table then some (sz + length (toutf8_bytes table)) else none)
unfolding toutf8_size toutf8_bytes
toutf8_size_lem sz [] = ground arith
toutf8_size_lem sz (none ∷ table) = refl
toutf8_size_lem sz (some w ∷ table) =
    let rune = w % u32_mod in
    ground (
      arith,
      bytes-zero rune,
      length-encode rune,
      length-append (encode rune (bytes rune)) (toutf8_bytes table),
      toutf8_size_lem (sz + bytes rune) table,
    )

-- `toutf8` returns nothing exactly where an entry is no number or, cut to 32 bits, lies past the
-- last code point; otherwise it fills the buffer that it allocated to the byte.
pub toutf8_lem :
    (table : List (Option ℕ))
    → toutf8 table ≡ (
        if all_encodable table
        then some (toutf8_bytes table, length (toutf8_bytes table))
        else none)
unfolding toutf8
toutf8_lem table = ground (arith, toutf8_size_lem 0 table)

-- A list of code points.
abbrev pub AllRunes : List ℕ → Type 0
AllRunes [] = Unit {0}
AllRunes (r ∷ runes) = (r < 0x110000) × AllRunes runes

all_encodable-runes : (runes : List ℕ) → AllRunes runes → all_encodable (map some runes) ≡ true
all_encodable-runes [] h = refl
all_encodable-runes (r ∷ runes) h = ground (arith, all_encodable-runes runes h.1)

module _ (rune c : ℕ) (e : List ℕ) (code : IsCode rune c e) (rest : List ℕ) where
  toutf32_round :
      (fuel n : ℕ) (table : List ℕ)
      → toutf32_from (suc fuel) (c ∷ e ++ rest) table n
        ≡ toutf32_from fuel rest (table ++ rune ∷ []) (n + 1)
  unfolding toutf32_from
  toutf32_round fuel n table =
      rw (code.step, code.value rest, drop-append) (ground (arith, length-append e rest))

toutf32_from-runes :
    (runes : List ℕ) (fuel n : ℕ) (table : List ℕ)
    → AllRunes runes
    → length (toutf8_bytes (map some runes)) ≤ fuel
    → toutf32_from fuel (toutf8_bytes (map some runes)) table n
      ≡ record { table = table ++ runes; count = some (n + length runes) }
unfolding toutf8_bytes
toutf32_from-runes [] fuel n table h f = unfold toutf32_from in ground (arith, append-nil table)
toutf32_from-runes (r ∷ runes) zero n table h f =
    let fits : r % u32_mod ≡ r = omega arith in
    let (c, e, code) = IsCode-of r h.0 in
    let g : length (c ∷ e ++ toutf8_bytes (map some runes)) ≤ 0 = rw (fits, code.stored) at f in
    absurd (omega arith)
toutf32_from-runes (r ∷ runes) (suc fuel) n table h f =
    let fits : r % u32_mod ≡ r = omega arith in
    let (c, e, code) = IsCode-of r h.0 in
    let rest = toutf8_bytes (map some runes) in
    let g : length (c ∷ e ++ rest) ≤ suc fuel = rw (fits, code.stored) at f in
    rw
      (
        fits,
        code.stored,
        toutf32_round r c e code rest fuel n table,
        toutf32_from-runes runes fuel (n + 1) (table ++ r ∷ []) h.1
            (omega (arith, length-append e rest)),
        append_assoc table (r ∷ []) runes,
      )
      (ground arith)

-- Every list of code points is encoded, into a buffer filled to the byte, and decoding the string
-- gives the list back with its length as the count.
pub toutf32-toutf8 :
    (runes : List ℕ)
    → AllRunes runes
    → (s : List ℕ) × (toutf8 (map some runes) ≡ some (s, length s))
      × (toutf32 s ≡ record { table = runes; count = some (length runes) })
unfolding toutf32
toutf32-toutf8 runes h = (
  toutf8_bytes (map some runes),
  rw (toutf8_lem, all_encodable-runes runes h),
  rw (toutf32_from-runes runes (length (toutf8_bytes (map some runes))) 0 [] h (omega arith))
      (ground arith),
)

utf8_len_from-count :
    (fuel : ℕ) (str table : List ℕ) (n : ℕ)
    → utf8_len_from fuel str n ≡ (toutf32_from fuel str table n).count
unfolding utf8_len_from toutf32_from
utf8_len_from-count zero [] table n = refl
utf8_len_from-count zero (c ∷ str) table n = refl
utf8_len_from-count (suc fuel) [] table n = refl
utf8_len_from-count (suc fuel) (c ∷ str) table n =
    let step = steps c in
    ground (
      arith,
      utf8_len_from-count fuel (drop step (c ∷ str)) (table ++ decode (c ∷ str) step ∷ []) (n + 1),
    )

-- `len` agrees with `toutf32` on every byte string: the same count, and nothing on the same errors.
pub utf8_len-toutf32 : (str : List ℕ) → utf8_len str ≡ (toutf32 str).count
unfolding utf8_len toutf32
utf8_len-toutf32 str = utf8_len_from-count (length str) str [] 0

unmoved : (step : ℕ) (b : Bool) → (step == 0 || b) ≡ false → 0 < step
unmoved step b h = ground arith

-- Two amounts of fuel, each at least the number of bytes, give the same.
pub toutf32_from-fuel :
    (f g n : ℕ) (str table : List ℕ)
    → length str ≤ f
    → length str ≤ g
    → toutf32_from f str table n ≡ toutf32_from g str table n
unfolding toutf32_from
toutf32_from-fuel zero g n [] table p q = ground arith
toutf32_from-fuel (suc f) g n [] table p q = ground arith
toutf32_from-fuel (suc f) (suc g) n (c ∷ str) table p q =
    let step = steps c in
    elim (Bool-cases (step == 0 || ltb (length (c ∷ str)) step)) [
      | inl stop ↦ rw stop
      | inr go ↦
          let moved : 0 < step = unmoved step (ltb (length (c ∷ str)) step) go in
          let size = length-drop step (c ∷ str) in
          rw go (
            toutf32_from-fuel f g (n + 1) (drop step (c ∷ str))
              (table ++ decode (c ∷ str) step ∷ []) (omega (arith, size)) (omega (arith, size)))
    ]
toutf32_from-fuel _ _ n (c ∷ str) table p q = absurd (omega arith)
