-- ===== src/TimeCore.antt =====
-- src/lua-time.c: days, midnights and week days of the server's time zone. `time_t` and
-- `lua_Integer` are integers that stay far from the ends of 64 bits. What `localtime_r` says of a
-- time, and skynet's own clock, are arguments.
mod Tests
pub mod Day
pub mod Week
use my_skynet.Prelude.{ℕ, ◌+◌, ◌*◌, ◌/◌, ◌%◌, ◌^◌, Bool, if◌then◌else◌}
use my_skynet.Prelude.Int.{ℤ, pos, negsuc, ◌+ℤ◌, ◌-ℤ◌, div_ℤ, mod_ℤ, scale_ℤ, eqb_ℤ, ltb_ℤ}

abbrev pub day_seconds : ℕ
day_seconds = 24 * 60 * 60

abbrev pub hour_seconds : ℕ
hour_seconds = 60 * 60

-- `struct time_zone_ctx`
pub record Zone : Type 0 where
  pub init_time : ℤ
  pub init_wday : ℤ
  pub gmt_off : ℤ

-- `tm_gmtoff` and `tm_wday` are what `localtime_r` gives for `sec`.
unfoldable pub init_starttime : ℤ → ℤ → ℤ → Zone
init_starttime sec tm_gmtoff tm_wday = record {
  gmt_off = tm_gmtoff;
  init_time = scale_ℤ (div_ℤ (sec +ℤ tm_gmtoff) day_seconds) day_seconds;
  init_wday = tm_wday;
}

-- `core_now` and `core_time`, from `skynet_now()` and `skynet_starttime()`
unfoldable pub core_now : ℕ → ℕ → ℕ
core_now skynet_now tick_offset = skynet_now + tick_offset

unfoldable pub core_time : ℕ → ℕ → ℕ → ℕ
core_time skynet_starttime skynet_now tick_offset =
    skynet_starttime + core_now skynet_now tick_offset / 100

-- `lua_systime_offset`: the new `tick_offset`, a uint32_t
unfoldable pub time_elapse : ℕ → ℕ → ℕ
time_elapse tick_offset offset = (tick_offset + offset * 100 % 2 ^ 64) % 2 ^ 32

-- `t + get_zonediff() - offset`
unfoldable pub local_time : Zone → ℤ → ℤ → ℤ
local_time zone t offset = t +ℤ zone.gmt_off -ℤ offset

unfoldable pub same_day : Zone → ℤ → ℤ → ℤ → Bool
same_day zone t1 t2 offset =
    eqb_ℤ (div_ℤ (local_time zone t1 offset) day_seconds)
      (div_ℤ (local_time zone t2 offset) day_seconds)

-- for a positive number of hours
unfoldable pub same_hours : Zone → ℤ → ℤ → ℤ → ℕ → Bool
same_hours zone t1 t2 offset hours =
    eqb_ℤ (div_ℤ (local_time zone t1 offset) (hour_seconds * hours))
      (div_ℤ (local_time zone t2 offset) (hour_seconds * hours))

unfoldable pub to_daysec : Zone → ℤ → ℤ → ℤ
to_daysec zone t1 offset = mod_ℤ (local_time zone t1 offset) day_seconds

unfoldable pub next_midnight : Zone → ℤ → ℤ → ℤ
next_midnight zone t1 offset =
    scale_ℤ (div_ℤ (local_time zone t1 offset) day_seconds +ℤ pos 1) day_seconds -ℤ zone.gmt_off

unfoldable pub midnight : Zone → ℤ → ℤ → ℤ
midnight zone t1 offset =
    scale_ℤ (div_ℤ (local_time zone t1 offset) day_seconds) day_seconds -ℤ zone.gmt_off

unfoldable pub time_get_wday : Zone → ℤ → ℤ
time_get_wday zone ti =
    let ti_midnight = scale_ℤ (div_ℤ (ti +ℤ zone.gmt_off) day_seconds) day_seconds in
    let diff = div_ℤ (ti_midnight -ℤ zone.init_time) day_seconds in
    let wday = mod_ℤ (zone.init_wday +ℤ diff) 7 in
    if ltb_ℤ wday (pos 0) then pos 7 +ℤ wday else wday
