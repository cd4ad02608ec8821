-- ===== src/Ext/Trim.antt =====
-- `name_trim` of src/lua-ext.c: what is left of a name.
use my_skynet.Prelude.{
  ℕ, ◌≡◌, refl, ◌∙◌, arith, List, [], ◌∷◌, Bool, true, false, ◌&&◌, take, inl, inr, ◌≢◌, Bool-cases,
}
use my_skynet.Ext.{trim_left, trim_right, ignore_from, ignore_multi_space, name_trim}
use my_skynet.Ext.Words.{
  word_list, word_list-trim_left, word_list-ignore_from, word_list-trim_right,
}
use my_skynet.Ext.Blank.{
  Starts, Ends, Single, IsTrimmed, trim_left-Starts, trim_left_fixed, take-Starts, trim_right-Ends,
  trim_right_fixed,
}

module _ (is_space : ℕ → Bool) where
  -- What `ignore_multi_space` does to each of the three.
  ignore_from-Single :
      (b : Bool) (s : List ℕ) (c : ℕ)
      → is_space c ≡ b
      → Single is_space (c ∷ ignore_from is_space b s)
  unfolding ignore_from
  ignore_from-Single b [] c e = tt
  ignore_from-Single b (d ∷ s) c e = elim (Bool-cases (is_space d && b)) [
    | inl both ↦
        let again : is_space d ≡ true = ground arith in
        rw (both, again) (ignore_from-Single true s c (ground arith))
    | inr apart ↦ rw apart (ground arith, ignore_from-Single (is_space d) s d refl)
  ]

  ignore_multi_space-Single : (s : List ℕ) → Single is_space (ignore_multi_space is_space s)
  unfolding ignore_multi_space
  ignore_multi_space-Single [] = tt
  ignore_multi_space-Single (c ∷ s) = ground (arith, ignore_from-Single (is_space c) s c refl)

  ignore_from-cons :
      (b : Bool) (d : ℕ) (s : List ℕ) → Ends is_space (d ∷ s) → ignore_from is_space b (d ∷ s) ≢ []
  unfolding ignore_from
  ignore_from-cons b d [] h = ground arith
  ignore_from-cons b d (e ∷ s) h = ground (arith, ignore_from-cons (is_space d) e s h)

  Ends-cons : (c : ℕ) (s : List ℕ) → s ≢ [] → Ends is_space s → Ends is_space (c ∷ s)
  Ends-cons c [] d h = absurd (d refl)
  Ends-cons c (e ∷ s) d h = h

  ignore_from-Ends :
      (b : Bool) (s : List ℕ) → Ends is_space s → Ends is_space (ignore_from is_space b s)
  unfolding ignore_from
  ignore_from-Ends b [] h = tt
  ignore_from-Ends b (c ∷ []) h = rw h h
  ignore_from-Ends b (c ∷ d ∷ s) h = elim (Bool-cases (is_space c && b)) [
    | inl skip ↦ rw skip (ignore_from-Ends (is_space c) (d ∷ s) h)
    | inr keep ↦ rw keep (
        Ends-cons c (ignore_from is_space (is_space c) (d ∷ s))
          (ignore_from-cons (is_space c) d s h) (ignore_from-Ends (is_space c) (d ∷ s) h))
  ]

  ignore_multi_space-Starts :
      (s : List ℕ) → Starts is_space s → Starts is_space (ignore_multi_space is_space s)
  unfolding ignore_multi_space
  ignore_multi_space-Starts [] h = tt
  ignore_multi_space-Starts (c ∷ s) h = ground arith

  trimmed : (s : List ℕ) → IsTrimmed is_space (name_trim is_space s)
  unfolding name_trim
  trimmed s =
      let out = trim_left is_space s in
      let cut = take (trim_right is_space out) out in
      record {
        starts =
            ignore_multi_space-Starts cut
              (take-Starts is_space _ out (trim_left-Starts is_space s));
        ends =
            unfold ignore_multi_space in ignore_from-Ends false cut (trim_right-Ends is_space out);
        single = ignore_multi_space-Single cut;
      }

  words_kept : (s : List ℕ) → word_list is_space (name_trim is_space s) ≡ word_list is_space s
  unfolding word_list name_trim ignore_multi_space
  words_kept s =
      let out = trim_left is_space s in
      word_list-ignore_from is_space (take (trim_right is_space out) out) false [] (λ e. refl)
      ∙ word_list-trim_right is_space out
      ∙ word_list-trim_left is_space s

  -- Every name comes out with the same words, the runs of bytes that are no spaces, and trimmed: no space at
  -- either end, and no two together.
  pub name_trim-IsTrimmed :
      (s : List ℕ)
      → IsTrimmed is_space (name_trim is_space s)
        × (word_list is_space (name_trim is_space s) ≡ word_list is_space s)
  name_trim-IsTrimmed s = (trimmed s, words_kept s)

  ignore_from_fixed :
      (c : ℕ) (s : List ℕ) → Single is_space (c ∷ s) → ignore_from is_space (is_space c) s ≡ s
  unfolding ignore_from
  ignore_from_fixed c [] h = refl
  ignore_from_fixed c (d ∷ s) h = ground (arith, ignore_from_fixed d s h.1)

  -- A trimmed name stays as it is.
  pub name_trim_fixed : (s : List ℕ) → IsTrimmed is_space s → name_trim is_space s ≡ s
  unfolding name_trim
  name_trim_fixed s h =
      rw (trim_left_fixed is_space s h.starts, trim_right_fixed is_space s h.ends)
        (ignored s h.single)
    where
      ignored : (s : List ℕ) → Single is_space s → ignore_multi_space is_space s ≡ s
      ignored [] h = unfold ignore_multi_space in refl
      ignored (c ∷ s) h = unfold ignore_multi_space in ground (arith, ignore_from_fixed c s h)

  pub name_trim_idem :
      (s : List ℕ) → name_trim is_space (name_trim is_space s) ≡ name_trim is_space s
  name_trim_idem s = name_trim_fixed (name_trim is_space s) (trimmed s)
