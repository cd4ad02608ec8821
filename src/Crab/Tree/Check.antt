-- ===== src/Crab/Tree/Check.antt =====
-- `dict_check` of src/lua-crab.c finds the words of the list that `dict_open` was given.
use my_skynet.Prelude.{
  ℕ, ◌≡◌, refl, sym, ap, ◌∙◌, List, [], ◌∷◌, Bool, true, false, not, ◌||◌, Option, some, inl, inr,
}
use mathlib.Core.Path.{subst}
use my_skynet.Crab.Words.{Tables, inserted, dict_open}
use my_skynet.Crab.Filter.{finds, check_from, dict_check}
use my_skynet.Crab.Tree.{has_word}
use my_skynet.Crab.Tree.Mark.{same, same_iff}
use my_skynet.Crab.Tree.Open.{among, words_of, dict_open_words}
use my_skynet.Crab.Tree.Finds.{begins, or_cases, end_or, or_end, finds_to, finds_from}

-- It begins with one of the words that are not empty.
unfoldable pub begins_with : List (List ℕ) → List ℕ → Bool
begins_with [] text = false
begins_with ([] ∷ words) text = begins_with words text
begins_with ((r ∷ word) ∷ words) text = begins (r ∷ word) text || begins_with words text

-- A word is somewhere in the text.
unfoldable pub contains : List (List ℕ) → List ℕ → Bool
contains words [] = false
contains words (c ∷ text) = begins_with words (c ∷ text) || contains words text

-- Two tests that hold together are one.
bool_eq : (x y : Bool) → (x ≡ true → y ≡ true) → (y ≡ true → x ≡ true) → x ≡ y
bool_eq true y f g = sym (f refl)
bool_eq false true f g = g refl
bool_eq false false f g = refl

begins_with_to :
    (words : List (List ℕ)) (text : List ℕ) (r : ℕ) (word : List ℕ)
    → among (r ∷ word) words ≡ true
    → begins (r ∷ word) text ≡ true
    → begins_with words text ≡ true
unfolding begins_with among
begins_with_to [] text r word has at = cc
begins_with_to ([] ∷ words) text r word has at =
    begins_with_to words text r word (unfold same in has) at
begins_with_to ((s ∷ other) ∷ words) text r word has at =
    elim (or_cases (same (r ∷ word) (s ∷ other)) (among (r ∷ word) words) has) [
      | inl e ↦
          end_or (begins (s ∷ other) text) (begins_with words text)
            (subst (λ w. begins w text ≡ true) ((same_iff (r ∷ word) (s ∷ other)).0 e) at)
      | inr e ↦
          or_end (begins (s ∷ other) text) (begins_with words text)
            (begins_with_to words text r word e at)
    ]

begins_with_from :
    (words : List (List ℕ)) (text : List ℕ)
    → begins_with words text ≡ true
    → (r : ℕ) × (word : List ℕ) × (among (r ∷ word) words ≡ true) × (begins (r ∷ word) text ≡ true)
unfolding begins_with among
begins_with_from [] text h = cc
begins_with_from ([] ∷ words) text h =
    let (r, word, has, at) = begins_with_from words text h in
    (r, word, or_end (same (r ∷ word) []) (among (r ∷ word) words) has, at)
begins_with_from ((s ∷ other) ∷ words) text h =
    elim (or_cases (begins (s ∷ other) text) (begins_with words text) h) [
      | inl e ↦ (
        s,
        other,
        end_or (same (s ∷ other) (s ∷ other)) (among (s ∷ other) words)
            ((same_iff (s ∷ other) (s ∷ other)).1 refl),
        e,
      )
      | inr e ↦
          let (r, word, has, at) = begins_with_from words text e in
          (r, word, or_end (same (r ∷ word) (s ∷ other)) (among (r ∷ word) words) has, at)
    ]

module _ (mem : Tables) (words : List (List ℕ))
    (all : (q0 : ℕ) (q : List ℕ) → has_word mem 0 q0 q ≡ among (q0 ∷ q) words) where
  finds_words : (text : List ℕ) → finds mem 0 text ≡ begins_with words text
  finds_words text =
      bool_eq (finds mem 0 text) (begins_with words text)
        (λ h.
          let (r, word, has, at) = finds_to text mem 0 h in
          begins_with_to words text r word (sym (all r word) ∙ has) at)
        (λ h.
          let (r, word, has, at) = begins_with_from words text h in
          finds_from text mem 0 r word (all r word ∙ has) at)

  check_contains : (text : List ℕ) → check_from mem text ≡ contains words text
  unfolding check_from contains
  check_contains [] = refl
  check_contains (c ∷ text) = rw (check_from, finds_words (c ∷ text), check_contains text) refl

-- Where all entries of the list are tables of numbers, `open` makes a dictionary of it, and `check` calls a
-- text clean with it exactly where no word of the list that is not empty begins anywhere in the text, whose
-- spaces are passed over.
pub dict_check-dict_open :
    (entries : List (Option (List (Option ℕ)))) (words : List (List ℕ))
    → words_of entries ≡ some words
    → (mem : Tables) × (dict_open entries ≡ inserted mem)
      × ((text : List ℕ) → dict_check mem text ≡ not (contains words text))
unfolding dict_check
dict_check-dict_open entries words e =
    let (mem, run, t, all) = dict_open_words entries words e in
    (mem, run, λ text. ap not (check_contains mem words all text))
