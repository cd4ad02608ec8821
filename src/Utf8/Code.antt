-- ===== src/Utf8/Code.antt =====
-- One code point of src/lua-utf8.c: what `_encode` stores, in arithmetic, and that `_steps` and
-- `_decode` take it back.
use my_skynet.Prelude.{
  ℕ, suc, ◌+◌, ◌*◌, ◌/◌, ◌%◌, ◌^◌, ◌≤◌, ◌<◌, ◌≡◌, ◌∙◌, refl, List, [], ◌∷◌, ◌++◌, arith, bit_and,
  bit_or, ◌==◌, ==_iff, length, ltb, true, false, if◌then◌else◌,
}
use native.Mathlib.Decide.{dec_lt}
use my_skynet.Prelude.Bits.{bit_and_mask, bit_or_shifted, holds_below, holds_below-at}
use my_skynet.Utf8.Form.{
  has_form, has_form_lead, has_form_follow, followers_none, followers_one, followers_two,
  followers_three,
}
use my_skynet.Utf8.{u32_mod, steps, bytes, decode, encode, low_byte}

-- `rune | mark` for a mark of high bits, over the bytes that have room below it
or_mark :
    (mark n x : ℕ)
    → holds_below (λ y. bit_or y mark % 256 == mark + y) n ≡ true
    → x < n
    → bit_or x mark % 256 ≡ mark + x
or_mark mark n x table h =
    (==_iff _ _).0 (holds_below-at (λ y. bit_or y mark % 256 == mark + y) n x table h)

low_byte_lem : (r : ℕ) → low_byte r ≡ 128 + r % 64
unfolding holds_below
low_byte_lem r = rw (bit_and_mask 6 r) (or_mark 0x80 64 (r % 2 ^ 6) refl (omega arith))

lead_two : (x : ℕ) → x < 32 → bit_or x 0xc0 % 256 ≡ 192 + x
unfolding holds_below
lead_two x h = or_mark 0xc0 32 x refl h

lead_three : (x : ℕ) → x < 16 → bit_or x 0xe0 % 256 ≡ 224 + x
unfolding holds_below
lead_three x h = or_mark 0xe0 16 x refl h

lead_four : (x : ℕ) → x < 8 → bit_or x 0xf0 % 256 ≡ 240 + x
unfolding holds_below
lead_four x h = or_mark 0xf0 8 x refl h

-- a round of `_decode`, while the value stays below 32 bits
decode_round :
    (v b : ℕ) → v < 2 ^ 26 → bit_or (v * 2 ^ 6 % u32_mod) (bit_and b 0x3f) ≡ v * 64 + b % 64
decode_round v b h =
    let fits : v * 2 ^ 6 % u32_mod ≡ v * 2 ^ 6 = omega arith in
    rw (fits, bit_and_mask 6 b) (bit_or_shifted 6 v (b % 2 ^ 6) (omega arith))

-- What `encode` promises of one code point, whatever bytes follow.
pub record IsCode (rune c : ℕ) (e : List ℕ) : Type 0 where
  pub stored : encode rune (bytes rune) ≡ c ∷ e
  pub size : bytes rune ≡ suc (length e)
  pub step : steps c ≡ suc (length e)
  pub form : (rest : List ℕ) → has_form 0 (c ∷ e ++ rest) ≡ has_form 0 rest
  pub value : (rest : List ℕ) → decode (c ∷ e ++ rest) (suc (length e)) ≡ rune

IsCode-one : (rune : ℕ) → rune < 0x80 → IsCode rune rune []
unfolding encode bytes steps decode
IsCode-one rune h = record {
  stored = ground (arith, bit_and_mask 7 rune);
  size = ground arith;
  step = ground arith;
  form = λ rest. has_form_lead rune 0 rest (followers_none rune h);
  value = λ rest. ground (arith, bit_and_mask 7 rune);
}

IsCode-two :
    (rune : ℕ) → 0x80 ≤ rune → rune < 0x800 → IsCode rune (192 + rune / 64) ((128 + rune % 64) ∷ [])
unfolding encode bytes steps decode
IsCode-two rune h k = record {
  stored = ground (arith, low_byte_lem rune, lead_two (rune / 64));
  size = ground arith;
  step = ground arith;
  form = λ rest.
      has_form_lead (192 + rune / 64) 1 ((128 + rune % 64) ∷ rest)
        (followers_one (rune / 64) (omega arith))
      ∙ has_form_follow 0 rune rest;
  value = λ rest.
      ground (arith, bit_and_mask 6 (192 + rune / 64), decode_round (rune / 64) (128 + rune % 64));
}

IsCode-three :
    (rune : ℕ)
    → 0x800 ≤ rune
    → rune < 0x10000
    → IsCode rune (224 + rune / 4096) ((128 + rune / 64 % 64) ∷ (128 + rune % 64) ∷ [])
unfolding encode bytes steps decode
IsCode-three rune h k =
    let lead = rune / 64 / 64 in
    record {
      stored = ground (arith, low_byte_lem rune, low_byte_lem (rune / 64), lead_three lead);
      size = ground arith;
      step = ground arith;
      form = λ rest.
          has_form_lead (224 + rune / 4096) 2 ((128 + rune / 64 % 64) ∷ (128 + rune % 64) ∷ rest)
            (followers_two (rune / 4096) (omega arith))
          ∙ has_form_follow 1 (rune / 64) ((128 + rune % 64) ∷ rest)
          ∙ has_form_follow 0 rune rest;
      value = λ rest. ground (
        arith,
        bit_and_mask 5 (224 + rune / 4096),
        decode_round (rune / 4096) (128 + rune / 64 % 64),
        decode_round (rune / 64) (128 + rune % 64),
      );
    }

IsCode-four :
    (rune : ℕ)
    → 0x10000 ≤ rune
    → rune < 0x110000
    → IsCode rune
        (240 + rune / 262144)
        ((128 + rune / 4096 % 64) ∷ (128 + rune / 64 % 64) ∷ (128 + rune % 64) ∷ [])
unfolding encode bytes steps decode
IsCode-four rune h k =
    let lead = rune / 64 / 64 / 64 in
    record {
      stored = ground (
        arith,
        low_byte_lem rune,
        low_byte_lem (rune / 64),
        low_byte_lem (rune / 64 / 64),
        lead_four lead,
      );
      size = ground arith;
      step = ground arith;
      form = λ rest.
          has_form_lead (240 + rune / 262144) 3
            ((128 + rune / 4096 % 64) ∷ (128 + rune / 64 % 64) ∷ (128 + rune % 64) ∷ rest)
            (followers_three (rune / 262144) (omega arith))
          ∙ has_form_follow 2 (rune / 4096) ((128 + rune / 64 % 64) ∷ (128 + rune % 64) ∷ rest)
          ∙ has_form_follow 1 (rune / 64) ((128 + rune % 64) ∷ rest)
          ∙ has_form_follow 0 rune rest;
      value = λ rest. ground (
        arith,
        bit_and_mask 4 (240 + rune / 262144),
        decode_round (rune / 262144) (128 + rune / 4096 % 64),
        decode_round (rune / 4096) (128 + rune / 64 % 64),
        decode_round (rune / 64) (128 + rune % 64),
      );
    }

pub IsCode-of : (rune : ℕ) → rune < 0x110000 → (c : ℕ) × (e : List ℕ) × IsCode rune c e
IsCode-of rune h = elim (dec_lt rune 0x80) [
  | yes a ↦ (_, _, IsCode-one rune a)
  | no a ↦ elim (dec_lt rune 0x800) [
    | yes b ↦ (_, _, IsCode-two rune (omega arith) b)
    | no b ↦ elim (dec_lt rune 0x10000) [
      | yes c ↦ (_, _, IsCode-three rune (omega arith) c)
      | no c ↦ (_, _, IsCode-four rune (omega arith) h)
    ]
  ]
]

-- `_bytes` refuses exactly the code points past the last.
pub bytes-zero : (rune : ℕ) → (bytes rune == 0) ≡ (if ltb rune 0x110000 then false else true)
unfolding bytes
bytes-zero rune = ground arith
