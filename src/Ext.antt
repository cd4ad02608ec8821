-- ===== src/Ext.antt =====
-- src/lua-ext.c: splitting strings and trimming names. A string is the list of its bytes; a C
-- function that takes a `char *` alone stops at the first 0. `isspace`, which depends on the
-- locale, is a parameter.
mod Tests
pub mod Split
pub mod Blank
pub mod Words
pub mod Trim
use my_skynet.Prelude.{
  ℕ, zero, suc, ◌+◌, ◌-◌, ◌<◌, List, [], ◌∷◌, ◌++◌, Bool, true, false, ◌&&◌, Option, none, some,
  ◌==◌, ltb, if◌then◌else◌, length, get_or, take, drop,
}
use mathlib.Core.Option

-- whether `sp` stands at the head of the string
unfoldable pub stands_at : List ℕ → List ℕ → Bool
stands_at [] s = true
stands_at (c ∷ sp) [] = false
stands_at (c ∷ sp) (d ∷ s) = c == d && stands_at sp s

-- `strstr` of the C library: the offset of the first place where `sp` stands, before the first 0
unfoldable pub strstr : List ℕ → List ℕ → Option ℕ
unfolding stands_at
strstr [] sp = if stands_at sp [] then some 0 else none
strstr (c ∷ s) sp =
    let rest = Option.map suc (strstr s sp) in
    if stands_at sp (c ∷ s) then some 0 else if c == 0 then none else rest

-- The loop of `split_string`: the pieces that the callback is given, from `src` on. Every round
-- leaves a byte at least behind, so the length is fuel enough.
unfoldable pub split_from : ℕ → List ℕ → List ℕ → List (List ℕ)
split_from zero sp src = src ∷ []
split_from (suc fuel) sp src = elim (strstr src sp) [
  | none ↦ src ∷ []
  | some k ↦
      let rest = split_from fuel sp (drop (k + 1) src) in
      if get_or src k 0 == 0 then src ∷ [] else take k src ∷ rest
]

unfoldable pub split_string : List ℕ → List ℕ → List (List ℕ)
unfolding split_from
split_string source sp =
    if ltb 0 (length source)
    then (if get_or sp 0 0 == 0 then source ∷ [] else split_from (length source) sp source)
    else []

-- The two callbacks: the pieces that are pushed, in order.
unfoldable pub callback : Bool → List (List ℕ) → List (List ℕ)
callback skip [] = []
callback skip (s ∷ pieces) =
    let rest = callback skip pieces in if length s == 0 && skip then rest else s ∷ rest

-- `lsplit_string` leaves them in a table; `lsplit_string_row` returns them, and their number.
unfoldable pub lsplit_string : List ℕ → List ℕ → Bool → List (List ℕ)
lsplit_string src sp skip = callback skip (split_string src sp)

unfoldable pub lsplit_string_row : List ℕ → List ℕ → Bool → List (List ℕ) × ℕ
lsplit_string_row src sp skip =
    let pushed = callback skip (split_string src sp) in (pushed, length pushed)

module _ (is_space : ℕ → Bool) where
  -- the bytes from `out_buff` on
  unfoldable pub trim_left : List ℕ → List ℕ
  trim_left [] = []
  trim_left (c ∷ s) = let rest = trim_left s in if is_space c then rest else c ∷ s

  -- the `while` of `trim_right`, from `end` down
  unfoldable pub right_end : List ℕ → ℕ → ℕ
  right_end s zero = zero
  right_end s (suc end) =
      let rest = right_end s end in if is_space (get_or s (suc end) 0) then rest else suc end

  -- `*out_len`
  unfoldable pub trim_right : List ℕ → ℕ
  unfolding right_end
  trim_right s =
      let end = right_end s (length s - 1) in
      if ltb 0 (length s) then (if end == 0 && is_space (get_or s 0 0) then 0 else end + 1) else 0

  -- The loop of `ignore_multi_space` with its flag `is_space`: the bytes that it stores.
  unfoldable pub ignore_from : Bool → List ℕ → List ℕ
  ignore_from in_space [] = []
  ignore_from in_space (c ∷ s) =
      let rest = ignore_from (is_space c) s in if is_space c && in_space then rest else c ∷ rest

  unfoldable pub ignore_multi_space : List ℕ → List ℕ
  unfolding ignore_from
  ignore_multi_space s = ignore_from false s

  unfoldable pub name_trim : List ℕ → List ℕ
  unfolding trim_left trim_right ignore_multi_space
  name_trim s = let out = trim_left s in ignore_multi_space (take (trim_right out) out)
