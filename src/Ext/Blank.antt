-- ===== src/Ext/Blank.antt =====
-- Blanks in a name of src/lua-ext.c, and `trim_left` and `trim_right`.
use my_skynet.Prelude.{
  ℕ, zero, suc, ◌-◌, ◌≤◌, ◌<◌, ◌≡◌, refl, ap, arith, List, [], ◌∷◌, Bool, false, ◌&&◌, ◌==◌,
  if◌then◌else◌, length, get_or, take, inl, inr, ◌⊎◌, Bool-cases,
}
use my_skynet.Ext.{trim_left, right_end, trim_right}

module _ (is_space : ℕ → Bool) where
  -- Neither the first byte nor the last is a space, and no two spaces stand together.
  abbrev pub Starts : List ℕ → Type 0
  Starts [] = Unit {0}
  Starts (c ∷ s) = is_space c ≡ false

  abbrev pub Ends : List ℕ → Type 0
  Ends [] = Unit {0}
  Ends (c ∷ []) = is_space c ≡ false
  Ends (c ∷ d ∷ s) = Ends (d ∷ s)

  abbrev pub Single : List ℕ → Type 0
  Single [] = Unit {0}
  Single (c ∷ []) = Unit {0}
  Single (c ∷ d ∷ s) = ((is_space c && is_space d) ≡ false) × Single (d ∷ s)

  pub record IsTrimmed (s : List ℕ) : Type 0 where
    pub starts : Starts s
    pub ends : Ends s
    pub single : Single s

  pub trim_left-Starts : (s : List ℕ) → Starts (trim_left is_space s)
  unfolding trim_left
  trim_left-Starts [] = tt
  trim_left-Starts (c ∷ s) = elim (Bool-cases (is_space c)) [
    | inl e ↦ rw e (trim_left-Starts s)
    | inr e ↦ rw e e
  ]

  pub trim_left_fixed : (s : List ℕ) → Starts s → trim_left is_space s ≡ s
  unfolding trim_left
  trim_left_fixed [] h = refl
  trim_left_fixed (c ∷ s) h = rw h

  pub take-Starts : (n : ℕ) (s : List ℕ) → Starts s → Starts (take n s)
  take-Starts zero s h = tt
  take-Starts (suc n) [] h = tt
  take-Starts (suc n) (c ∷ s) h = h

  -- Where the byte before `n` is no space, the first `n` bytes end in none.
  take-Ends :
      (n : ℕ) (s : List ℕ) → n < length s → is_space (get_or s n 0) ≡ false → Ends (take (suc n) s)
  take-Ends zero [] h e = tt
  take-Ends zero (c ∷ s) h e = e
  take-Ends (suc n) [] h e = tt
  take-Ends (suc n) (c ∷ []) h e = absurd (omega arith)
  take-Ends (suc n) (c ∷ d ∷ s) h e = take-Ends n (d ∷ s) (omega arith) e

  pub take_all : (n : ℕ) (s : List ℕ) → length s ≤ n → take n s ≡ s
  take_all zero [] h = refl
  take_all zero (c ∷ s) h = absurd (omega arith)
  take_all (suc n) [] h = refl
  take_all (suc n) (c ∷ s) h = ap (◌∷◌ c) (take_all n s (omega arith))

  pub right_end-le : (s : List ℕ) (n : ℕ) → right_end is_space s n ≤ n
  unfolding right_end
  right_end-le s zero = omega arith
  right_end-le s (suc n) = ground (arith, right_end-le s n)

  pub right_end_stops :
      (s : List ℕ) (n : ℕ)
      → (right_end is_space s n ≡ 0) ⊎ (is_space (get_or s (right_end is_space s n) 0) ≡ false)
  unfolding right_end
  right_end_stops s zero = inl refl
  right_end_stops s (suc n) = elim (Bool-cases (is_space (get_or s (suc n) 0))) [
    | inl e ↦ rw e (right_end_stops s n)
    | inr e ↦ rw e (inr e)
  ]

  abbrev pub last_kept : ℕ → List ℕ → ℕ
  last_kept c s = right_end is_space (c ∷ s) (length s)

  pub trim_right_lem :
      (c : ℕ) (s : List ℕ)
      → trim_right is_space (c ∷ s)
        ≡ (if last_kept c s == 0 && is_space c then 0 else suc (last_kept c s))
  unfolding trim_right
  trim_right_lem c s = let e : suc (length s) - 1 ≡ length s = omega arith in rw e (ground arith)

  pub trim_right_nil : trim_right is_space [] ≡ 0
  unfolding trim_right
  trim_right_nil = refl

  pub trim_right-Ends : (s : List ℕ) → Ends (take (trim_right is_space s) s)
  trim_right-Ends [] = take_nil (trim_right is_space [])
    where
      take_nil : (n : ℕ) → Ends (take n [])
      take_nil zero = tt
      take_nil (suc n) = tt
  trim_right-Ends (c ∷ s) = elim (Bool-cases (last_kept c s == 0 && is_space c)) [
    | inl e ↦ rw (trim_right_lem c s, e) tt
    | inr e ↦
        rw (trim_right_lem c s, e)
          (take-Ends (last_kept c s) (c ∷ s) (omega (arith, right_end-le (c ∷ s) (length s)))
            (kept_end e (right_end_stops (c ∷ s) (length s))))
  ]
    where
      kept_end :
          (last_kept c s == 0 && is_space c) ≡ false
          → (last_kept c s ≡ 0) ⊎ (is_space (get_or (c ∷ s) (last_kept c s) 0) ≡ false)
          → is_space (get_or (c ∷ s) (last_kept c s) 0) ≡ false
      kept_end e (inl z) = rw z at_head
        where
          at_head : is_space c ≡ false
          at_head = ground arith
      kept_end e (inr p) = p

  Ends-last : (c : ℕ) (s : List ℕ) → Ends (c ∷ s) → is_space (get_or (c ∷ s) (length s) 0) ≡ false
  Ends-last c [] h = h
  Ends-last c (d ∷ s) h = Ends-last d s h

  pub trim_right_fixed : (s : List ℕ) → Ends s → take (trim_right is_space s) s ≡ s
  trim_right_fixed [] h = rw trim_right_nil
  trim_right_fixed (c ∷ []) h = rw trim_right_lem (unfold right_end in rw h (ground arith))
  trim_right_fixed (c ∷ d ∷ s) h =
      let last : last_kept c (d ∷ s) ≡ suc (length s) =
        unfold right_end in rw (Ends-last c (d ∷ s) h) in
      let all = take_all (suc (suc (length s))) (c ∷ d ∷ s) (omega arith) in
      rw (trim_right_lem c (d ∷ s), last) (ground (arith, all))
