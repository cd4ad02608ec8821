-- ===== src/Uniq/Hex.antt =====
-- The hexadecimal text of src/lua-uniq.c.
use my_skynet.Prelude.{
  ℕ, zero, suc, ◌+◌, ◌-◌, ◌*◌, ◌/◌, ◌%◌, ◌^◌, ◌<◌, ◌≡◌, refl, arith, bit_and, leb, ◌==◌, ==_iff,
  if◌then◌else◌, List, [], ◌∷◌, get_or, ap, sym, ◌∙◌,
}
use native.Mathlib.Nat.{pow-suc, div-div-eq-div-mul, div-add-mod'}
use my_skynet.Prelude.Bits.{bit_and_mask, pow-pos, holds_below, holds_below-at}
use my_skynet.Uniq.{hex_digits, hex_from, uint64_str, u64_mod}

-- The value of a hexadecimal digit, and of a text that goes on a value.
unfoldable pub digit_value : ℕ → ℕ
digit_value c = if leb c b'9' then c - b'0' else c - b'A' + 10

unfoldable pub hex_value : ℕ → List ℕ → ℕ
hex_value acc [] = acc
hex_value acc (c ∷ text) = hex_value (acc * 16 + digit_value c) text

digit_value-hex_digits : (d : ℕ) → d < 16 → digit_value (get_or hex_digits d 0) ≡ d
unfolding holds_below digit_value
digit_value-hex_digits d h =
    (==_iff _ _).0 (holds_below-at (λ x. digit_value (get_or hex_digits x 0) == x) 16 d refl h)

digit :
    (n u : ℕ)
    → digit_value (get_or hex_digits (bit_and (u / 2 ^ (n * 4)) 0xf) 0) ≡ u / 2 ^ (n * 4) % 16
digit n u = rw (bit_and_mask 4 (u / 2 ^ (n * 4))) (digit_value-hex_digits _ (omega arith))

pow-next : (n : ℕ) → 2 ^ (suc n * 4) ≡ 2 ^ (n * 4) * 16
pow-next n =
    let m = n * 4 in
    let e : suc n * 4 ≡ suc (suc (suc (suc m))) = omega arith in
    rw e (
      omega (
        arith,
        pow-suc 2 (suc (suc (suc m))),
        pow-suc 2 (suc (suc m)),
        pow-suc 2 (suc m),
        pow-suc 2 m,
      ))

mod-next : (u p : ℕ) → 0 < p → u % (p * 16) ≡ u / p % 16 * p + u % p
mod-next u p h =
    let e : u / (p * 16) ≡ u / p / 16 = sym (div-div-eq-div-mul u p 16) in
    let whole = rw e at (div-add-mod' u (p * 16)) in
    let tens = ap (λ (t : ℕ). t * p) (div-add-mod' (u / p) 16) in
    omega (arith, whole, tens, div-add-mod' u p)

hex_value-hex_from :
    (n acc u : ℕ) → hex_value acc (hex_from n u) ≡ acc * 2 ^ (n * 4) + u % 2 ^ (n * 4)
unfolding hex_value hex_from
hex_value-hex_from zero acc u = omega arith
hex_value-hex_from (suc n) acc u =
    let d = u / 2 ^ (n * 4) % 16 in
    ap (λ (t : ℕ). hex_value (acc * 16 + t) (hex_from n u)) (digit n u)
    ∙ hex_value-hex_from n (acc * 16 + d) u
    ∙ rw (pow-next n) (omega (arith, mod-next u (2 ^ (n * 4)) (pow-pos (n * 4))))

-- The text of a 64-bit number reads back as the number.
pub hex_value-uint64_str : (u : ℕ) → u < u64_mod → hex_value 0 (uint64_str u) ≡ u
unfolding uint64_str
hex_value-uint64_str u h = hex_value-hex_from 16 0 u ∙ omega arith
