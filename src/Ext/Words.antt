-- ===== src/Ext/Words.antt =====
-- The words of a name of src/lua-ext.c, which its trimming keeps.
use my_skynet.Prelude.{
  ℕ, zero, suc, ◌≡◌, refl, sym, ap, ◌∙◌, arith, List, [], ◌∷◌, ◌++◌, append-nil, Bool, true, false,
  ◌&&◌, ◌==◌, length, get_or, take, inl, inr, Bool-cases,
}
use my_skynet.Ext.{trim_left, right_end, trim_right, ignore_from}
use my_skynet.Ext.Blank.{take_all, last_kept, trim_right_lem, trim_right_nil}

abbrev pub piece : List ℕ → List (List ℕ)
piece [] = []
piece (c ∷ word) = (c ∷ word) ∷ []

module _ (is_space : ℕ → Bool) where
  -- The runs of bytes that are no spaces, behind the beginning of one.
  unfoldable pub words_from : List ℕ → List ℕ → List (List ℕ)
  words_from word [] = piece word
  words_from word (c ∷ s) = elim (is_space c) [
    | true ↦ piece word ++ words_from [] s
    | false ↦ words_from (word ++ c ∷ []) s
  ]

  unfoldable pub word_list : List ℕ → List (List ℕ)
  word_list s = words_from [] s

  words_space :
      (word : List ℕ) (c : ℕ) (s : List ℕ)
      → is_space c ≡ true
      → words_from word (c ∷ s) ≡ piece word ++ words_from [] s
  unfolding words_from
  words_space word c s e = rw (words_from, e) refl

  words_letter :
      (word : List ℕ) (c : ℕ) (s : List ℕ)
      → is_space c ≡ false
      → words_from word (c ∷ s) ≡ words_from (word ++ c ∷ []) s
  unfolding words_from
  words_letter word c s e = rw (words_from, e) refl

  pub word_list-trim_left : (s : List ℕ) → words_from [] (trim_left is_space s) ≡ words_from [] s
  unfolding trim_left
  word_list-trim_left [] = refl
  word_list-trim_left (c ∷ s) = elim (Bool-cases (is_space c)) [
    | inl e ↦ rw e (word_list-trim_left s ∙ sym (words_space [] c s e))
    | inr e ↦ rw e refl
  ]

  -- Behind a space no word has begun.
  pub word_list-ignore_from :
      (s : List ℕ) (in_space : Bool) (word : List ℕ)
      → (in_space ≡ true → word ≡ [])
      → words_from word (ignore_from is_space in_space s) ≡ words_from word s
  unfolding ignore_from
  word_list-ignore_from [] in_space word h = refl
  word_list-ignore_from (c ∷ s) in_space word h = elim (Bool-cases (is_space c)) [
    | inr e ↦ rw e (
        words_letter word c (ignore_from is_space false s) e
        ∙ word_list-ignore_from s false (word ++ c ∷ []) (λ f. cc)
        ∙ sym (words_letter word c s e))
    | inl e ↦ elim (Bool-cases in_space) [
      | inl f ↦
          rw (e, f, h f) (word_list-ignore_from s true [] (λ g. refl) ∙ sym (words_space [] c s e))
      | inr f ↦
          rw (e, f)
            (words_space word c (ignore_from is_space true s) e
              ∙ ap (λ l. piece word ++ l) (word_list-ignore_from s true [] (λ g. refl))
              ∙ sym (words_space word c s e))
    ]
  ]

  word_list-take_space :
      (n : ℕ) (s word : List ℕ)
      → is_space (get_or s n 0) ≡ true
      → words_from word (take (suc n) s) ≡ words_from word (take n s)
  word_list-take_space zero [] word e = refl
  word_list-take_space zero (c ∷ s) word e =
      words_space word c [] e ∙ unfold words_from in append-nil (piece word)
  word_list-take_space (suc n) [] word e = refl
  word_list-take_space (suc n) (c ∷ s) word e = elim (Bool-cases (is_space c)) [
    | inl f ↦
        words_space word c (take (suc n) s) f
        ∙ ap (λ l. piece word ++ l) (word_list-take_space n s [] e)
        ∙ sym (words_space word c (take n s) f)
    | inr f ↦
        words_letter word c (take (suc n) s) f
        ∙ word_list-take_space n s (word ++ c ∷ []) e
        ∙ sym (words_letter word c (take n s) f)
  ]

  word_list-right_end :
      (s : List ℕ) (n : ℕ)
      → words_from [] (take (suc (right_end is_space s n)) s) ≡ words_from [] (take (suc n) s)
  unfolding right_end
  word_list-right_end s zero = refl
  word_list-right_end s (suc n) = elim (Bool-cases (is_space (get_or s (suc n) 0))) [
    | inl e ↦ rw (e, word_list-take_space (suc n) s [] e) (word_list-right_end s n)
    | inr e ↦ rw e refl
  ]

  pub word_list-trim_right :
      (s : List ℕ) → words_from [] (take (trim_right is_space s) s) ≡ words_from [] s
  word_list-trim_right [] = rw (trim_right_nil is_space) refl
  word_list-trim_right (c ∷ s) =
      let whole =
        word_list-right_end (c ∷ s) (length s)
        ∙ ap (words_from []) (take_all is_space (suc (length s)) (c ∷ s) (omega arith)) in
      elim (Bool-cases (last_kept is_space c s == 0 && is_space c)) [
        | inl e ↦
            let at_zero : last_kept is_space c s ≡ 0 = ground arith in
            let blank : is_space c ≡ true = ground arith in
            let short : words_from [] (c ∷ []) ≡ words_from [] (c ∷ s) = rw at_zero at whole in
            rw (trim_right_lem is_space c s, e) (sym (words_space [] c [] blank) ∙ short)
        | inr e ↦ rw (trim_right_lem is_space c s, e) whole
      ]
