-- ===== src/Uniq.antt =====
-- src/lua-uniq.c: 63-bit identifiers from an application number, the clock's second and a counter.
-- The statics are a record; the spin lock makes every call of `genid` one step. `time(NULL)` is an
-- argument, and so is what `sprintf` prints of a number in a base.
mod Tests
pub mod Pack
pub mod Run
pub mod Hex
pub mod Repeat
pub mod Round
use my_skynet.Prelude.{
  ℕ, zero, suc, ◌+◌, ◌-◌, ◌*◌, ◌/◌, ◌%◌, ◌^◌, List, [], ◌∷◌, Option, none, some, bit_and, bit_or,
  ◌==◌, leb, if◌then◌else◌, get_or,
}

-- UNIQ_MAIN, UNIQ_TIME and UNIQ_INCR: 15, 29 and 19 bits
abbrev pub uniq_main : ℕ
uniq_main = 2 ^ 15

abbrev pub uniq_time : ℕ
uniq_time = 2 ^ 29

abbrev pub uniq_incr : ℕ
uniq_incr = 2 ^ 19

abbrev pub uniq_main_mask : ℕ
uniq_main_mask = (uniq_main - 1) * 2 ^ 48

abbrev pub uniq_time_mask : ℕ
uniq_time_mask = (uniq_time - 1) * 2 ^ 19

abbrev pub uniq_incr_mask : ℕ
uniq_incr_mask = uniq_incr - 1

abbrev pub u64_mod : ℕ
u64_mod = 2 ^ 64

pub record Statics : Type 0 where
  pub main_id : ℕ
  pub last_sec : ℕ
  pub last_inc : ℕ
  pub inc : ℕ

-- `++inc` on a uint32_t, and back to 0 at UNIQ_INCR
unfoldable pub next_inc : ℕ → ℕ
next_inc inc = let inc' = (inc + 1) % 2 ^ 32 in if leb uniq_incr inc' then 0 else inc'

-- the value returned
unfoldable pub pack : ℕ → ℕ → ℕ → ℕ
pack main_id now inc_id =
    bit_or
      (bit_or (bit_and (main_id * 2 ^ 48 % u64_mod) uniq_main_mask)
        (bit_and (now * 2 ^ 19 % u64_mod) uniq_time_mask))
      (bit_and inc_id uniq_incr_mask)

-- what follows the check: the counter moves and the value is made
unfoldable pub issue : Statics → ℕ → ℕ × Statics
issue s now = let inc' = next_inc s.inc in (pack s.main_id now inc', record s { inc = inc' })

-- 0 is the refusal.
unfoldable pub genid : Statics → ℕ → ℕ × Statics
genid s now =
    if s.last_inc == s.inc
    then (if s.last_sec == now
        then (0, s)
        else issue (record s { last_sec = now; last_inc = s.inc }) now)
    else issue s now

-- `luauniq_init`, none where it raises an error; `start` is 0 where it is not given.
unfoldable pub init : Statics → ℕ → ℕ → Option Statics
init s id start =
    let start_inc = bit_and start uniq_incr_mask in
    let s' = record s { main_id = id; last_sec = 0 } in
    if leb uniq_main id
    then none
    else some (if s.inc == 0 then record s' { last_inc = start_inc; inc = start_inc } else s')

-- GEN_ID and `luauniq_genid`: none where it raises its error
unfoldable pub lua_genid : Statics → ℕ → Option ℕ × Statics
lua_genid s now = let (val, s') = genid s now in if val == 0 then (none, s') else (some val, s')

-- The table `c` of `uint64_str`.
abbrev pub hex_digits : List ℕ
hex_digits =
    b'0' ∷ b'1' ∷ b'2' ∷ b'3' ∷ b'4' ∷ b'5' ∷ b'6' ∷ b'7' ∷ b'8' ∷ b'9' ∷ b'A' ∷ b'B' ∷ b'C' ∷ b'D'
    ∷ b'E' ∷ b'F' ∷ []

-- the loop of `uint64_str` with `n` rounds left: `15 - i` is `n - 1`
unfoldable pub hex_from : ℕ → ℕ → List ℕ
hex_from zero u = []
hex_from (suc n) u = get_or hex_digits (bit_and (u / 2 ^ (n * 4)) 0xf) 0 ∷ hex_from n u

unfoldable pub uint64_str : ℕ → List ℕ
unfolding hex_from
uint64_str u = hex_from 16 u

-- `luauniq_genstr`
unfoldable pub lua_genstr : Statics → ℕ → Option (List ℕ) × Statics
lua_genstr s now =
    let (val, s') = genid s now in if val == 0 then (none, s') else (some (uint64_str val), s')

-- `luauniq_gennums`: the identifier is drawn before the base is looked at.
unfoldable pub lua_gennums : (ℕ → ℕ → List ℕ) → Statics → ℕ → ℕ → Option (List ℕ) × Statics
lua_gennums sprintf s now bit =
    let (val, s') = genid s now in
    let text =
      if bit == 16
      then some (sprintf 16 val)
      else if bit == 10
      then some (sprintf 10 val)
      else if bit == 8
      then some (sprintf 8 val)
      else none in
    if val == 0 then (none, s') else (text, s')
