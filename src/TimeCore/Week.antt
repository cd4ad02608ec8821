-- ===== src/TimeCore/Week.antt =====
-- The week days of src/lua-time.c.
use my_skynet.Prelude.{◌≡◌, refl, arith, if◌then◌else◌}
use my_skynet.Prelude.Int.{
  ℤ, pos, negsuc, ◌+ℤ◌, ◌-ℤ◌, ◌≤ℤ◌, div_ℤ, mod_ℤ, scale_ℤ, ltb_ℤ, eqb_ℤ, int_laws,
}
use my_skynet.TimeCore.{Zone, day_seconds, init_starttime, time_get_wday}

-- The last lines of `time_get_wday`: a week day from a number of days.
wrap : ℤ → ℤ
wrap days = let wday = mod_ℤ days 7 in if ltb_ℤ wday (pos 0) then pos 7 +ℤ wday else wday

wrap_range : (days : ℤ) → (pos 0 ≤ℤ wrap days) × (wrap days ≤ℤ pos 6)
unfolding wrap mod_ℤ ◌+ℤ◌
wrap_range (pos n) = ground arith
wrap_range (negsuc n) = ground arith

wrap_next :
    (days : ℤ)
    → wrap (days +ℤ pos 1) ≡ (if eqb_ℤ (wrap days) (pos 6) then pos 0 else wrap days +ℤ pos 1)
unfolding wrap mod_ℤ ◌+ℤ◌
wrap_next (pos n) = ground arith
wrap_next (negsuc n) = ground arith

wrap_small : (d : ℤ) → pos 0 ≤ℤ d → d ≤ℤ pos 6 → wrap d ≡ d
unfolding wrap mod_ℤ
wrap_small (pos n) a b = ground arith
wrap_small (negsuc n) a b = absurd (omega arith)

abbrev day_number : Zone → ℤ → ℤ
day_number zone ti = div_ℤ (ti +ℤ zone.gmt_off) day_seconds

abbrev days_since : Zone → ℤ → ℤ
days_since zone ti = div_ℤ (scale_ℤ (day_number zone ti) day_seconds -ℤ zone.init_time) day_seconds

time_get_wday-wrap :
    (zone : Zone) (ti : ℤ) → time_get_wday zone ti ≡ wrap (zone.init_wday +ℤ days_since zone ti)
unfolding time_get_wday wrap
time_get_wday-wrap zone ti = refl

-- A week day is one of seven, whatever the time and the zone.
pub time_get_wday_range :
    (zone : Zone) (ti : ℤ) → (pos 0 ≤ℤ time_get_wday zone ti) × (time_get_wday zone ti ≤ℤ pos 6)
time_get_wday_range zone ti =
    rw (time_get_wday-wrap zone ti) (wrap_range (zone.init_wday +ℤ days_since zone ti))

days_between :
    (a b : ℤ) → div_ℤ (scale_ℤ a day_seconds -ℤ scale_ℤ b day_seconds) day_seconds ≡ a -ℤ b
unfolding div_ℤ scale_ℤ ◌-ℤ◌
days_between (pos a) (pos b) = ground arith
days_between (pos a) (negsuc b) = ground arith
days_between (negsuc a) (pos b) = ground arith
days_between (negsuc a) (negsuc b) = ground arith

day_number_next :
    (l : ℤ) → pos 0 ≤ℤ l → div_ℤ (l +ℤ pos day_seconds) day_seconds ≡ div_ℤ l day_seconds +ℤ pos 1
unfolding div_ℤ ◌+ℤ◌
day_number_next (pos n) h = ground arith
day_number_next (negsuc n) h = absurd (omega arith)

module _ (sec tm_gmtoff tm_wday : ℤ) where
  abbrev pub started : Zone
  started = record {
    gmt_off = tm_gmtoff;
    init_time = scale_ℤ (div_ℤ (sec +ℤ tm_gmtoff) day_seconds) day_seconds;
    init_wday = tm_wday;
  }

  -- The time from which the zone was set up has the week day, between 0 and 6, that was given for it.
  pub time_get_wday-init_starttime :
      pos 0 ≤ℤ tm_wday
      → tm_wday ≤ℤ pos 6
      → time_get_wday (init_starttime sec tm_gmtoff tm_wday) sec ≡ tm_wday
  unfolding init_starttime
  time_get_wday-init_starttime a b =
      let today = div_ℤ (sec +ℤ tm_gmtoff) day_seconds in
      rw (time_get_wday-wrap started sec, days_between today today, stays tm_wday today)
        (wrap_small tm_wday a b)
    where
      stays : (w d : ℤ) → w +ℤ (d -ℤ d) ≡ w
      stays w d = omega int_laws

  -- From the epoch on in local time, a day later is the next day of the week: Sunday after
  -- Saturday, else one more.
  pub time_get_wday_next :
      (ti : ℤ)
      → pos 0 ≤ℤ ti +ℤ tm_gmtoff
      → time_get_wday (init_starttime sec tm_gmtoff tm_wday) (ti +ℤ pos day_seconds) ≡ (
          if eqb_ℤ (time_get_wday (init_starttime sec tm_gmtoff tm_wday) ti) (pos 6)
          then pos 0
          else time_get_wday (init_starttime sec tm_gmtoff tm_wday) ti +ℤ pos 1)
  unfolding init_starttime
  time_get_wday_next ti h =
      let today = div_ℤ (sec +ℤ tm_gmtoff) day_seconds in
      let d = div_ℤ (ti +ℤ tm_gmtoff) day_seconds in
      let shift : ti +ℤ pos day_seconds +ℤ tm_gmtoff ≡ ti +ℤ tm_gmtoff +ℤ pos day_seconds =
        omega int_laws in
      let one_more : tm_wday +ℤ (d +ℤ pos 1 -ℤ today) ≡ tm_wday +ℤ (d -ℤ today) +ℤ pos 1 =
        omega int_laws in
      rw
        (
          time_get_wday-wrap started (ti +ℤ pos day_seconds),
          time_get_wday-wrap started ti,
          shift,
          day_number_next (ti +ℤ tm_gmtoff) h,
          days_between (d +ℤ pos 1) today,
          days_between d today,
          one_more,
        )
        (wrap_next (tm_wday +ℤ (d -ℤ today)))
