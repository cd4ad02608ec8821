-- ===== src/TimeCore/Day.antt =====
-- Days and midnights of src/lua-time.c.
use my_skynet.Prelude.{◌-◌, ◌≡◌, ◌↔◌, ◌∙◌, sym, ap, true, arith}
use my_skynet.Prelude.Int.{
  ℤ, pos, negsuc, pos_part, neg_part, ◌+ℤ◌, ◌-ℤ◌, ◌≤ℤ◌, div_ℤ, mod_ℤ, scale_ℤ, eqb_ℤ, int_laws,
  -ℤ_parts, eq_of_parts,
}
use my_skynet.TimeCore.{Zone, day_seconds, local_time, same_day, to_daysec, next_midnight, midnight}

-- For a local time that is not negative: the quotient and the rest.
div_pos :
    (l : ℤ) → pos 0 ≤ℤ l → scale_ℤ (div_ℤ l day_seconds) day_seconds +ℤ mod_ℤ l day_seconds ≡ l
unfolding div_ℤ mod_ℤ scale_ℤ ◌+ℤ◌
div_pos (pos n) h = ground arith
div_pos (negsuc n) h = absurd (omega arith)

mod_range :
    (l : ℤ)
    → pos 0 ≤ℤ l
    → (pos 0 ≤ℤ mod_ℤ l day_seconds) × (mod_ℤ l day_seconds +ℤ pos 1 ≤ℤ pos day_seconds)
unfolding mod_ℤ ◌+ℤ◌
mod_range (pos n) h = ground arith
mod_range (negsuc n) h = absurd (omega arith)

scale_next : (q : ℤ) → scale_ℤ (q +ℤ pos 1) day_seconds ≡ scale_ℤ q day_seconds +ℤ pos day_seconds
unfolding scale_ℤ ◌+ℤ◌
scale_next (pos n) = ground arith
scale_next (negsuc n) = ground arith

-ℤ_cancel_right : (a b c : ℤ) → a -ℤ c ≡ b -ℤ c → a ≡ b
-ℤ_cancel_right a b c e =
    eq_of_parts a b (omega (int_laws, -ℤ_parts a c, -ℤ_parts b c, ap pos_part e, ap neg_part e))

scale-injective : (a b : ℤ) → scale_ℤ a day_seconds ≡ scale_ℤ b day_seconds → a ≡ b
unfolding scale_ℤ
scale-injective (pos a) (pos b) e = ground arith
scale-injective (pos a) (negsuc b) e = ground arith
scale-injective (negsuc a) (pos b) e = ground arith
scale-injective (negsuc a) (negsuc b) e = ground arith

eqb_ℤ_iff : (a b : ℤ) → (eqb_ℤ a b ≡ true) ↔ (a ≡ b)
eqb_ℤ_iff a b = (λ e. eq_of_parts a b (ground arith), λ e. rw e (ground arith))

-- How a time splits: the midnight before it, and the seconds since.
pub record Splits (zone : Zone) (t offset : ℤ) : Type 0 where
  pub whole : midnight zone t offset +ℤ to_daysec zone t offset ≡ t -ℤ offset
  pub from_midnight : pos 0 ≤ℤ to_daysec zone t offset
  pub within_day : to_daysec zone t offset +ℤ pos 1 ≤ℤ pos day_seconds
  pub next : next_midnight zone t offset ≡ midnight zone t offset +ℤ pos day_seconds

-- From the epoch on in local time: `to_daysec` is the time since `midnight`, less than a day, and
-- `next_midnight` is a day later; all of the time shifted back by `offset`.
pub midnight-to_daysec :
    (zone : Zone) (t offset : ℤ) → pos 0 ≤ℤ local_time zone t offset → Splits zone t offset
unfolding midnight to_daysec next_midnight local_time
midnight-to_daysec zone t offset h =
    let l = t +ℤ zone.gmt_off -ℤ offset in
    let q = div_ℤ l day_seconds in
    let whole = div_pos l h in
    let range = mod_range l h in
    record {
      whole = omega (int_laws, ap pos_part whole, ap neg_part whole);
      from_midnight = range.0;
      within_day = range.1;
      next = rw (scale_next q) (omega int_laws);
    }

-- `same_day` holds exactly where the two midnights are the same, for every pair of times.
pub same_day-midnight :
    (zone : Zone) (t1 t2 offset : ℤ)
    → (same_day zone t1 t2 offset ≡ true) ↔ (midnight zone t1 offset ≡ midnight zone t2 offset)
unfolding same_day midnight
same_day-midnight zone t1 t2 offset =
    let q1 = div_ℤ (local_time zone t1 offset) day_seconds in
    let q2 = div_ℤ (local_time zone t2 offset) day_seconds in
    let same = eqb_ℤ_iff q1 q2 in
    (λ e. rw (same.0 e), λ e. same.1 (scale-injective q1 q2 (-ℤ_cancel_right _ _ zone.gmt_off e)))

near_epoch :
    (l : ℤ)
    → negsuc (day_seconds - 2) ≤ℤ l
    → l ≤ℤ pos (day_seconds - 1)
    → div_ℤ l day_seconds ≡ pos 0
unfolding div_ℤ
near_epoch (pos n) a b = ground arith
near_epoch (negsuc n) a b = ground arith

-- The day before the epoch and the day after it are one to `same_day`, since the division of C
-- rounds toward zero: for local times within a day of the epoch, on either side.
pub same_day_epoch :
    (zone : Zone) (t1 t2 offset : ℤ)
    → negsuc (day_seconds - 2) ≤ℤ local_time zone t1 offset
    → local_time zone t1 offset ≤ℤ negsuc 0
    → pos 0 ≤ℤ local_time zone t2 offset
    → local_time zone t2 offset ≤ℤ pos (day_seconds - 1)
    → same_day zone t1 t2 offset ≡ true
unfolding same_day
same_day_epoch zone t1 t2 offset a b c d = (eqb_ℤ_iff _ _).1 (
    near_epoch (local_time zone t1 offset) a (omega arith)
    ∙ sym (near_epoch (local_time zone t2 offset) (omega arith) d))
