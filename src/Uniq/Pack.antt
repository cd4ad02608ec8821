-- ===== src/Uniq/Pack.antt =====
-- The layout of an identifier of src/lua-uniq.c: three fields that do not overlap.
use my_skynet.Prelude.{ℕ, ◌+◌, ◌-◌, ◌*◌, ◌%◌, ◌^◌, ◌<◌, ◌≡◌, arith, bit_and, ◌↔◌, ◌⊎◌, inl, inr}
use native.Mathlib.Decide.{ℕ_discrete}
use my_skynet.Prelude.Bits.{bit_and_mask, bit_and_shifted, bit_or_shifted}
use my_skynet.Uniq.{
  uniq_main, uniq_time, uniq_incr, uniq_main_mask, uniq_time_mask, u64_mod, Statics, next_inc, pack,
  issue, genid,
}

main_field :
    (main_id : ℕ)
    → bit_and (main_id * 2 ^ 48 % u64_mod) uniq_main_mask ≡ main_id % uniq_main * 2 ^ 48
main_field main_id =
    let cut : main_id * 2 ^ 48 % u64_mod ≡ main_id % 2 ^ 16 * 2 ^ 48 = omega arith in
    rw
      (
        cut,
        bit_and_shifted 48 (main_id % 2 ^ 16) (uniq_main - 1),
        bit_and_mask 15 (main_id % 2 ^ 16),
      )
      (omega arith)

time_field : (now : ℕ) → bit_and (now * 2 ^ 19 % u64_mod) uniq_time_mask ≡ now % uniq_time * 2 ^ 19
time_field now =
    let cut : now * 2 ^ 19 % u64_mod ≡ now % 2 ^ 45 * 2 ^ 19 = omega arith in
    rw (cut, bit_and_shifted 19 (now % 2 ^ 45) (uniq_time - 1), bit_and_mask 29 (now % 2 ^ 45))
      (omega arith)

-- An identifier is its three fields, one beside the other.
pub pack_fields :
    (main_id now inc : ℕ)
    → pack main_id now inc
      ≡ main_id % uniq_main * 2 ^ 48 + now % uniq_time * 2 ^ 19 + inc % uniq_incr
unfolding pack
pack_fields main_id now inc =
    let high = main_id % uniq_main * 2 ^ 29 + now % uniq_time in
    let shifted : main_id % uniq_main * 2 ^ 48 + now % uniq_time * 2 ^ 19 ≡ high * 2 ^ 19 =
      omega arith in
    rw
      (
        main_field main_id,
        time_field now,
        bit_and_mask 19 inc,
        bit_or_shifted 48 (main_id % uniq_main) (now % uniq_time * 2 ^ 19) (omega arith),
        shifted,
        bit_or_shifted 19 high (inc % 2 ^ 19) (omega arith),
      )
      (omega arith)

-- Two identifiers are equal exactly where the application numbers, the seconds and the counters
-- agree in the bits that are kept of them.
pub pack-eq_iff :
    (m n i m' n' i' : ℕ)
    → (pack m n i ≡ pack m' n' i') ↔ (
        (m % uniq_main ≡ m' % uniq_main)
        × (n % uniq_time ≡ n' % uniq_time)
        × (i % uniq_incr ≡ i' % uniq_incr))
pack-eq_iff m n i m' n' i' = (
  λ e. omega (arith, pack_fields m n i, pack_fields m' n' i'),
  λ same. omega (arith, pack_fields m n i, pack_fields m' n' i', same.0, same.1, same.2),
)

pub next_inc_lem : (inc : ℕ) → inc < uniq_incr → next_inc inc ≡ (inc + 1) % uniq_incr
unfolding next_inc
next_inc_lem inc h = ground arith

-- From a counter in its range, `genid` refuses exactly where the counter has come round within the second in which it started;
-- otherwise it moves the counter on and returns the three fields.
pub genid_lem :
    (s : Statics) (now : ℕ)
    → s.inc < uniq_incr
    → ((s.last_inc ≡ s.inc) × (s.last_sec ≡ now) × (genid s now ≡ (0, s)))
      ⊎ (¬ ((s.last_inc ≡ s.inc) × (s.last_sec ≡ now))
          × ((genid s now).0
              ≡ s.main_id % uniq_main * 2 ^ 48 + now % uniq_time * 2 ^ 19 + (s.inc + 1) % uniq_incr)
          × ((genid s now).1.inc ≡ (s.inc + 1) % uniq_incr)
          × ((genid s now).1.main_id ≡ s.main_id))
unfolding genid issue
genid_lem s now h = elim (ℕ_discrete s.last_inc s.inc) [
  | yes a ↦ elim (ℕ_discrete s.last_sec now) [
    | yes b ↦ inl (a, b, ground arith)
    | no b ↦ inr (
      λ q. b q.1,
      ground (arith, pack_fields s.main_id now (next_inc s.inc), next_inc_lem s.inc h),
      ground (arith, next_inc_lem s.inc h),
      ground arith,
    )
  ]
  | no a ↦ inr (
    λ q. a q.0,
    ground (arith, pack_fields s.main_id now (next_inc s.inc), next_inc_lem s.inc h),
    ground (arith, next_inc_lem s.inc h),
    ground arith,
  )
]
