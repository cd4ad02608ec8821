-- ===== src/Crab/Filter/Clean.antt =====
-- What the filter of src/lua-crab.c leaves.
use my_skynet.Prelude.{
  ℕ, zero, suc, ◌≡◌, ◌⊎◌, inl, inr, refl, ap, sym, ◌∙◌, List, [], ◌∷◌, Bool, true, false, not, none,
}
use my_skynet.Crab.Words.{Tables}
use my_skynet.Crab.Filter.{
  star, get_node, behind, ends_word, filter_from, dict_filter, finds, check_from, dict_check,
}
use my_skynet.Crab.Filter.Search.{passes, ends, goes_on, visit, filter_from-cases}

check_from-filter_from :
    (mem : Tables) (text : List ℕ) → check_from mem text ≡ (filter_from mem 0 text).0
unfolding check_from filter_from
check_from-filter_from mem [] = refl
check_from-filter_from mem (c ∷ text) = elim (filter_from-cases mem c text) [
  | inl (e, n, f) ↦ rw (check_from, e, f) refl
  | inr (e, f) ↦ rw (check_from, e, f) (check_from-filter_from mem text)
]

-- `check` calls a text clean exactly where `filter` says that it found no word in it.
pub dict_check-dict_filter :
    (mem : Tables) (text : List ℕ) → dict_check mem text ≡ not (dict_filter mem text).0
unfolding dict_check dict_filter
dict_check-dict_filter mem text = ap not (check_from-filter_from mem text)

-- One text is another with some code points starred.
abbrev pub IsStarred : List ℕ → List ℕ → Type 0
IsStarred [] [] = Unit {0}
IsStarred [] (d ∷ text') = ⊥
IsStarred (c ∷ text) [] = ⊥
IsStarred (c ∷ text) (d ∷ text') = ((d ≡ c) ⊎ (d ≡ star)) × IsStarred text text'

filter_from-IsStarred :
    (mem : Tables) (todo : ℕ) (text : List ℕ) → IsStarred text (filter_from mem todo text).1
unfolding filter_from
filter_from-IsStarred mem todo [] = tt
filter_from-IsStarred mem (suc todo) (c ∷ text) = (inr refl, filter_from-IsStarred mem todo text)
filter_from-IsStarred mem zero (c ∷ text) = elim (filter_from-cases mem c text) [
  | inl (e, n, f) ↦ rw (f, IsStarred) (inr refl, filter_from-IsStarred mem n text)
  | inr (e, f) ↦ rw (f, IsStarred) (inl refl, filter_from-IsStarred mem 0 text)
]

filter_from_clean :
    (mem : Tables) (text : List ℕ)
    → (filter_from mem 0 text).0 ≡ false
    → (filter_from mem 0 text).1 ≡ text
unfolding filter_from
filter_from_clean mem [] h = refl
filter_from_clean mem (c ∷ text) h = elim (filter_from-cases mem c text) [
  | inl (e, n, f) ↦ let bad : true ≡ false = sym (ap (λ (r : Bool × List ℕ). r.0) f) ∙ h in cc
  | inr (e, f) ↦
      rw f (ap (◌∷◌ c) (filter_from_clean mem text (sym (ap (λ (r : Bool × List ℕ). r.0) f) ∙ h)))
]

-- The text that `filter` leaves is the one it was given, with some of its code points starred; it is the
-- same where it says that it found no word.
pub dict_filter-IsStarred :
    (mem : Tables) (text : List ℕ)
    → IsStarred text (dict_filter mem text).1
      × ((dict_filter mem text).0 ≡ false → (dict_filter mem text).1 ≡ text)
unfolding dict_filter
dict_filter-IsStarred mem text = (filter_from-IsStarred mem 0 text, filter_from_clean mem text)

pair_eq : (p : Bool × List ℕ) (text : List ℕ) → p.0 ≡ false → p.1 ≡ text → p ≡ (false, text)
pair_eq p text e f = rw (← e, ← f) refl

module _ (mem : Tables) (no_star : (a : ℕ) → get_node mem a star ≡ none) where
  -- A star ends every search.
  finds-star : (a : ℕ) (text : List ℕ) → finds mem a (star ∷ text) ≡ false
  unfolding finds behind ends_word
  finds-star a text = rw (finds, no_star a) refl

  -- Where no word is found in a text, none is found in what stars make of it.
  finds_starred :
      (text text' : List ℕ) (a : ℕ)
      → IsStarred text text'
      → finds mem a text ≡ false
      → finds mem a text' ≡ false
  unfolding finds
  finds_starred [] [] a s h = refl
  finds_starred [] (d ∷ text') a s h = elim s [ ]
  finds_starred (c ∷ text) [] a s h = elim s [ ]
  finds_starred (c ∷ text) (d ∷ text') a (inr e, s) h = rw e (finds-star a text')
  finds_starred (c ∷ text) (d ∷ text') a (inl e, s) h = rw e (elim (visit mem a c) [
    | passes f g ↦ f text' ∙ finds_starred text text' a s (sym (f text) ∙ h)
    | ends w f g ↦ f text' ∙ sym (f text) ∙ h
    | goes_on true b f g ↦ let bad : true ≡ false = sym (f text) ∙ h in cc
    | goes_on false b f g ↦ f text' ∙ finds_starred text text' b s (sym (f text) ∙ h)
  ])

  check_filtered : (todo : ℕ) (text : List ℕ) → check_from mem (filter_from mem todo text).1 ≡ false
  unfolding check_from filter_from
  check_filtered todo [] = refl
  check_filtered (suc todo) (c ∷ text) =
      rw (check_from, finds-star 0 (filter_from mem todo text).1) (check_filtered todo text)
  check_filtered zero (c ∷ text) = elim (filter_from-cases mem c text) [
    | inl (e, n, f) ↦
        rw (f, check_from, finds-star 0 (filter_from mem n text).1) (check_filtered n text)
    | inr (e, f) ↦
        let starred : IsStarred (c ∷ text) (c ∷ (filter_from mem 0 text).1) =
          (inl refl, filter_from-IsStarred mem 0 text) in
        rw (f, check_from, finds_starred (c ∷ text) (c ∷ (filter_from mem 0 text).1) 0 starred e)
          (check_filtered 0 text)
  ]

  -- Where no table has a node for `*`, the text that `filter` leaves is clean for `check`, and `filter`
  -- leaves it as it is.
  pub dict_filter_clean :
      (text : List ℕ)
      → (dict_check mem (dict_filter mem text).1 ≡ true)
        × (dict_filter mem (dict_filter mem text).1 ≡ (false, (dict_filter mem text).1))
  unfolding dict_check dict_filter
  dict_filter_clean text =
      let clean = check_filtered 0 text in
      let quiet = sym (check_from-filter_from mem (filter_from mem 0 text).1) ∙ clean in
      (
        ap not clean,
        pair_eq (dict_filter mem (filter_from mem 0 text).1) (filter_from mem 0 text).1 quiet
            (filter_from_clean mem (filter_from mem 0 text).1 quiet),
      )
