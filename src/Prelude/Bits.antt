-- ===== src/Prelude/Bits.antt =====
-- Masks and disjunctions at variables: `x & (2^k - 1)` is a remainder, and `|` of a shifted number
-- with one that fits below it is a sum. Both come from one law of the library's digit recursion.
use Prim.Native.Nat.{
  ℕ, zero, suc, ◌+◌, ◌-◌, ◌*◌, ◌/◌, ◌%◌, ◌^◌, ◌≤◌, ◌<◌, min, max, bit_and, bit_or, digits, bitwise,
  bit_and-bitwise, bit_or-bitwise,
}
use mathlib.Core.Path.{◌≡◌, refl, sym, ap, ◌∙◌}
use mathlib.Core.Bool.{Bool, true, false}
use my_skynet.Prelude.Tests.{if◌then◌else◌}
use native.Mathlib.Nat.{pow-suc, mul_comm, mul-one, div-div-eq-div-mul, div-add-mod'}
use native.Mathlib.Omega.{arith}

module _ (z : ℕ → ℕ) (f : ℕ → ℕ → ℕ) where
  digits-zero : (n b : ℕ) → digits z f n 0 b ≡ z b
  digits-zero zero b = refl
  digits-zero (suc n) b = refl

  -- Any count of digits that the first number fits in gives the same result.
  digits-enough : (n m a b : ℕ) → a ≤ n → a ≤ m → digits z f n a b ≡ digits z f m a b
  digits-enough (suc n) (suc m) (suc a) b p q =
      omega (arith, digits-enough n m (suc a / 2) (b / 2) (omega arith) (omega arith))
  digits-enough n m zero b p q = digits-zero n b ∙ sym (digits-zero m b)
  digits-enough _ _ _ b p q = absurd (omega arith)

  -- The lowest digit apart, where the rule for an exhausted number agrees with that for digits.
  bitwise-low :
      ((b : ℕ) → z b ≡ z (b / 2) * 2 + f 0 (b % 2))
      → (a b : ℕ) → bitwise z f a b ≡ bitwise z f (a / 2) (b / 2) * 2 + f (a % 2) (b % 2)
  bitwise-low tail zero b = tail b
  bitwise-low tail (suc a) b =
      omega (arith, digits-enough a (suc a / 2) (suc a / 2) (b / 2) (omega arith) (omega arith))

pub bit_and-low : (a b : ℕ) → bit_and a b ≡ bit_and (a / 2) (b / 2) * 2 + min (a % 2) (b % 2)
bit_and-low a b = omega (
  arith,
  bit_and-bitwise a b,
  bit_and-bitwise (a / 2) (b / 2),
  bitwise-low (λ b. zero) min (λ b. omega arith) a b,
)

pub bit_or-low : (a b : ℕ) → bit_or a b ≡ bit_or (a / 2) (b / 2) * 2 + max (a % 2) (b % 2)
bit_or-low a b = omega (
  arith,
  bit_or-bitwise a b,
  bit_or-bitwise (a / 2) (b / 2),
  bitwise-low (λ b. b) max (λ b. omega arith) a b,
)

bit_and-zero_below : (n a : ℕ) → a ≤ n → bit_and a 0 ≡ 0
bit_and-zero_below zero a h = let e : a ≡ 0 = omega arith in rw e (bit_and-bitwise 0 0)
bit_and-zero_below (suc n) zero h = bit_and-bitwise 0 0
bit_and-zero_below (suc n) (suc a) h =
    omega (arith, bit_and-low (suc a) 0, bit_and-zero_below n (suc a / 2) (omega arith))

bit_or-zero_below : (n a : ℕ) → a ≤ n → bit_or a 0 ≡ a
bit_or-zero_below zero a h = let e : a ≡ 0 = omega arith in rw e (bit_or-bitwise 0 0)
bit_or-zero_below (suc n) zero h = bit_or-bitwise 0 0
bit_or-zero_below (suc n) (suc a) h =
    omega (arith, bit_or-low (suc a) 0, bit_or-zero_below n (suc a / 2) (omega arith))

pub pow-pos : (k : ℕ) → 0 < 2 ^ k
pow-pos zero = omega arith
pow-pos (suc k) = omega (arith, pow-suc 2 k, pow-pos k)

mod-double : (a p : ℕ) → 0 < p → a % (p * 2) ≡ (a / 2 % p) * 2 + a % 2
mod-double a p h =
    let e : a / (p * 2) ≡ a / 2 / p = rw mul_comm (sym (div-div-eq-div-mul a 2 p)) in
    let whole = rw e at (div-add-mod' a (p * 2)) in omega (arith, whole, div-add-mod' (a / 2) p)

-- 2^k - 1 masks all but the lowest k digits.
pub bit_and_mask : (k a : ℕ) → bit_and a (2 ^ k - 1) ≡ a % 2 ^ k
bit_and_mask zero a = omega (arith, bit_and-zero_below a a (omega arith))
bit_and_mask (suc k) a =
    let half : (2 ^ suc k - 1) / 2 ≡ 2 ^ k - 1 = omega (arith, pow-suc 2 k, pow-pos k) in
    let low : (2 ^ suc k - 1) % 2 ≡ 1 = omega (arith, pow-suc 2 k, pow-pos k) in
    bit_and-low a (2 ^ suc k - 1)
    ∙ rw (half, low, bit_and_mask k (a / 2), pow-suc 2 k, mod-double a (2 ^ k) (pow-pos k))
        (omega arith)

-- A number shifted up by k digits and one below 2^k share no digit.
pub bit_or_shifted : (k a b : ℕ) → b < 2 ^ k → bit_or (a * 2 ^ k) b ≡ a * 2 ^ k + b
bit_or_shifted zero a b h =
    let e : b ≡ 0 = omega arith in
    rw e (bit_or-zero_below (a * 1) (a * 1) (omega arith) ∙ omega arith)
bit_or_shifted (suc k) a b h =
    let shifted = ap (λ (t : ℕ). a * t) (pow-suc 2 k) in
    let half : (a * 2 ^ suc k) / 2 ≡ a * 2 ^ k = omega (arith, shifted) in
    let low : (a * 2 ^ suc k) % 2 ≡ 0 = omega (arith, shifted) in
    let ih = bit_or_shifted k a (b / 2) (omega (arith, pow-suc 2 k)) in
    bit_or-low (a * 2 ^ suc k) b ∙ rw (half, low, ih) (omega (arith, shifted))

-- A statement about every number below a bound, by evaluation.
unfoldable pub holds_below : (ℕ → Bool) → ℕ → Bool
holds_below p zero = true
holds_below p (suc n) = if p n then holds_below p n else false

pub holds_below-at : (p : ℕ → Bool) (n x : ℕ) → holds_below p n ≡ true → x < n → p x ≡ true
unfolding holds_below
holds_below-at p zero x h lt = absurd (omega arith)
holds_below-at p (suc n) x h lt = ground (arith, holds_below-at p n x)

-- Two numbers shifted up by k digits.
pub bit_and_shifted : (k a b : ℕ) → bit_and (a * 2 ^ k) (b * 2 ^ k) ≡ bit_and a b * 2 ^ k
bit_and_shifted zero a b = rw (mul-one a, mul-one b) (omega arith)
bit_and_shifted (suc k) a b =
    let sa = ap (λ (t : ℕ). a * t) (pow-suc 2 k) in
    let sb = ap (λ (t : ℕ). b * t) (pow-suc 2 k) in
    let sc = ap (λ (t : ℕ). bit_and a b * t) (pow-suc 2 k) in
    let ha : (a * 2 ^ suc k) / 2 ≡ a * 2 ^ k = omega (arith, sa) in
    let hb : (b * 2 ^ suc k) / 2 ≡ b * 2 ^ k = omega (arith, sb) in
    let la : (a * 2 ^ suc k) % 2 ≡ 0 = omega (arith, sa) in
    let lb : (b * 2 ^ suc k) % 2 ≡ 0 = omega (arith, sb) in
    bit_and-low (a * 2 ^ suc k) (b * 2 ^ suc k)
    ∙ rw (ha, hb, la, lb, bit_and_shifted k a b) (omega (arith, sc))

bit_and-le_below : (n a b : ℕ) → a ≤ n → bit_and a b ≤ b
bit_and-le_below n zero b h = omega (arith, bit_and-bitwise 0 b)
bit_and-le_below zero (suc a) b h = absurd (omega arith)
bit_and-le_below (suc n) (suc a) b h =
    omega (arith, bit_and-low (suc a) b, bit_and-le_below n (suc a / 2) (b / 2) (omega arith))

pub bit_and-le : (a b : ℕ) → bit_and a b ≤ b
bit_and-le a b = bit_and-le_below a a b (omega arith)

bit_and-le_left_below : (n a b : ℕ) → a ≤ n → bit_and a b ≤ a
bit_and-le_left_below n zero b h = omega (arith, bit_and-bitwise 0 b)
bit_and-le_left_below zero (suc a) b h = absurd (omega arith)
bit_and-le_left_below (suc n) (suc a) b h =
    omega (arith, bit_and-low (suc a) b, bit_and-le_left_below n (suc a / 2) (b / 2) (omega arith))

pub bit_and-le_left : (a b : ℕ) → bit_and a b ≤ a
bit_and-le_left a b = bit_and-le_left_below a a b (omega arith)
