-- ===== src/TimeCore/Tests.antt =====
-- Runs of src/lua-time.c, and its theorems at concrete times.
use my_skynet.Prelude.{◌≡◌, ◌↔◌, refl, true, arith}
use my_skynet.Prelude.Int.{pos, negsuc, ◌+ℤ◌, ◌-ℤ◌, div_ℤ, mod_ℤ, scale_ℤ}
use my_skynet.TimeCore.{
  Zone, init_starttime, local_time, same_day, midnight, next_midnight, to_daysec, time_get_wday,
}
use my_skynet.TimeCore.Day.{Splits, midnight-to_daysec, same_day-midnight, same_day_epoch}

-- UTC+8, set up on Thursday, 1 January 1970
abbrev sample : Zone
sample = record { init_time = pos 0; init_wday = pos 4; gmt_off = pos 28800 }

set_up : init_starttime (pos 100) (pos 28800) (pos 4) ≡ sample
unfolding init_starttime ◌+ℤ◌ div_ℤ scale_ℤ
set_up = refl

-- noon in London on 2 January 1970
times :
    (midnight sample (pos 129600) (pos 0) ≡ pos 57600)
    × (next_midnight sample (pos 129600) (pos 0) ≡ pos 144000)
    × (to_daysec sample (pos 129600) (pos 0) ≡ pos 72000)
    × (time_get_wday sample (pos 129600) ≡ pos 5)
unfolding midnight next_midnight to_daysec time_get_wday local_time ◌+ℤ◌ ◌-ℤ◌ div_ℤ mod_ℤ scale_ℤ
times = (refl, refl, refl, refl)

midnight-to_daysec_example : Splits sample (pos 129600) (pos 0)
unfolding local_time ◌+ℤ◌ ◌-ℤ◌
midnight-to_daysec_example = midnight-to_daysec sample (pos 129600) (pos 0) (omega arith)

same_day-midnight_example :
    (same_day sample (pos 100) (pos 129600) (pos 0) ≡ true)
    ↔ (midnight sample (pos 100) (pos 0) ≡ midnight sample (pos 129600) (pos 0))
same_day-midnight_example = same_day-midnight sample (pos 100) (pos 129600) (pos 0)

day_at_epoch : same_day sample (negsuc 30000) (pos 100) (pos 0) ≡ true
unfolding local_time ◌+ℤ◌ ◌-ℤ◌
day_at_epoch =
    same_day_epoch sample (negsuc 30000) (pos 100) (pos 0) (omega arith) (omega arith) (omega arith)
      (omega arith)
