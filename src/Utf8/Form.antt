-- ===== src/Utf8/Form.antt =====
-- The form of a UTF-8 string, without the rules on overlong codes and surrogates, which src/lua-utf8.c does not have.
use my_skynet.Prelude.{
  ◌+◌, ◌%◌, ◌<◌, ◌≡◌, refl, arith, ℕ, zero, suc, List, [], ◌∷◌, Bool, true, false, ◌&&◌, Option,
  none, some, ltb, if◌then◌else◌,
}

-- how many bytes of the form 10xxxxxx follow a byte, where it may begin a code
unfoldable pub followers : ℕ → Option ℕ
followers c =
    if ltb c 0x80
    then some 0
    else if ltb c 0xc0
    then none
    else if ltb c 0xe0
    then some 1
    else if ltb c 0xf0
    then some 2
    else if ltb c 0xf8
    then some 3
    else none

-- The string is codes one after the other, behind the given number of bytes that follow.
unfoldable pub has_form : ℕ → List ℕ → Bool
has_form zero [] = true
has_form (suc n) [] = false
has_form zero (c ∷ str) = elim (followers c) [ none ↦ false | some n ↦ has_form n str ]
has_form (suc n) (c ∷ str) = elim (ltb 0x7f c && ltb c 0xc0) [
  | true ↦ has_form n str
  | false ↦ false
]

pub has_form_lead :
    (c n : ℕ) (str : List ℕ) → followers c ≡ some n → has_form 0 (c ∷ str) ≡ has_form n str
unfolding has_form
has_form_lead c n str e = rw (has_form, e) refl

pub has_form_follow :
    (n x : ℕ) (str : List ℕ) → has_form (suc n) ((128 + x % 64) ∷ str) ≡ has_form n str
unfolding has_form
has_form_follow n x str =
    let inside : (ltb 0x7f (128 + x % 64) && ltb (128 + x % 64) 0xc0) ≡ true = ground arith in
    rw (has_form, inside) refl

pub followers_none : (x : ℕ) → x < 128 → followers x ≡ some 0
unfolding followers
followers_none x h = ground arith

pub followers_one : (x : ℕ) → x < 32 → followers (192 + x) ≡ some 1
unfolding followers
followers_one x h = ground arith

pub followers_two : (x : ℕ) → x < 16 → followers (224 + x) ≡ some 2
unfolding followers
followers_two x h = ground arith

pub followers_three : (x : ℕ) → x < 8 → followers (240 + x) ≡ some 3
unfolding followers
followers_three x h = ground arith
