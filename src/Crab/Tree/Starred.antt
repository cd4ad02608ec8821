-- ===== src/Crab/Tree/Starred.antt =====
-- `dict_filter` of src/lua-crab.c stars, from the left, the longest of the words of the list that begins there.
use Prim.Native.Nat.{max}
use my_skynet.Prelude.{
  ℕ, zero, suc, ◌-◌, ◌≤◌, ◌<◌, ◌≡◌, ◌⊎◌, refl, sym, ap, ◌∙◌, arith, List, [], ◌∷◌, true, Option,
  some, leb, tests, Bool-cases, inl, inr,
}
use my_skynet.Crab.Words.{Tables, inserted, dict_open}
use my_skynet.Crab.Filter.{longest, filter_from, dict_filter}
use my_skynet.Crab.Tree.{has_word}
use my_skynet.Crab.Tree.Mark.{same, same_iff}
use my_skynet.Crab.Tree.Open.{among, words_of, dict_open_words}
use my_skynet.Crab.Tree.Stars.{span, longest_span, starred_from, starred}
use my_skynet.Crab.Tree.Longest.{Finds, longest-ge, longest-Finds}

longest_span-ge :
    (words : List (List ℕ)) (r : ℕ) (word text : List ℕ)
    → among (r ∷ word) words ≡ true
    → span (r ∷ word) text ≤ longest_span words text
unfolding longest_span among
longest_span-ge [] r word text h = cc
longest_span-ge (other ∷ words) r word text h = elim (Bool-cases (same (r ∷ word) other)) [
  | inl e ↦ omega (arith, ap (λ w. span w text) ((same_iff (r ∷ word) other).0 e))
  | inr e ↦ omega (arith, longest_span-ge words r word text (ground (arith, h, e)))
]

unfoldable Spans : List (List ℕ) → List ℕ → ℕ → Type 0
Spans words text total =
    (total ≡ 0)
    ⊎ ((r : ℕ) × (word : List ℕ) × (n : ℕ) × (among (r ∷ word) words ≡ true)
        × (span (r ∷ word) text ≡ suc n)
        × (total ≡ suc n))

other_words :
    (word : List ℕ) (words : List (List ℕ)) (text : List ℕ) (total total' : ℕ)
    → total' ≡ total
    → Spans words text total
    → Spans (word ∷ words) text total'
unfolding Spans among
other_words word words text total total' e (inl h) = inl (e ∙ h)
other_words word words text total total' e (inr (r, other, n, has, spans, h)) =
    inr (r, other, n, ground (arith, has), spans, e ∙ h)

longest_span-Spans :
    (words : List (List ℕ)) (text : List ℕ) → Spans words text (longest_span words text)
unfolding longest_span Spans among
longest_span-Spans [] text = inl refl
longest_span-Spans ([] ∷ words) text =
    other_words [] words text (longest_span words text)
      (max (span [] text) (longest_span words text)) (unfold span in omega arith)
      (longest_span-Spans words text)
longest_span-Spans ((r ∷ word) ∷ words) text =
    elim (Bool-cases (leb (span (r ∷ word) text) (longest_span words text))) [
      | inl e ↦
          other_words (r ∷ word) words text (longest_span words text)
            (max (span (r ∷ word) text) (longest_span words text)) (omega (tests, e))
            (longest_span-Spans words text)
      | inr e ↦
          let larger : longest_span words text < span (r ∷ word) text = ground (arith, e) in
          let itself = (same_iff (r ∷ word) (r ∷ word)).1 refl in
          inr (
            r,
            word,
            span (r ∷ word) text - 1,
            ground (arith, itself),
            omega (arith, larger),
            omega (arith, larger),
          )
    ]

module _ (mem : Tables) (words : List (List ℕ))
    (all : (q0 : ℕ) (q : List ℕ) → has_word mem 0 q0 q ≡ among (q0 ∷ q) words) where
  longest_le : (text : List ℕ) → longest mem 0 0 0 text ≤ longest_span words text
  unfolding Finds
  longest_le text = elim (longest-Finds text mem 0 0 0) [
    | inl e ↦ omega (arith, e)
    | inr (r, word, n, has, spans, e) ↦
        omega (arith, e, spans, longest_span-ge words r word text (sym (all r word) ∙ has))
  ]

  longest_all : (text : List ℕ) → longest_span words text ≤ longest mem 0 0 0 text
  unfolding Spans
  longest_all text = elim (longest_span-Spans words text) [
    | inl e ↦ omega (arith, e)
    | inr (r, word, n, has, spans, e) ↦
        omega (arith, e, longest-ge text mem 0 r word 0 0 n (omega arith) (all r word ∙ has) spans)
  ]

  longest_words : (text : List ℕ) → longest mem 0 0 0 text ≡ longest_span words text
  longest_words text = omega (arith, longest_le text, longest_all text)

  step_starred :
      (c : ℕ) (text : List ℕ)
      → ((todo : ℕ) → filter_from mem todo text ≡ starred_from words todo text)
      → (n : ℕ) → longest_span words (c ∷ text) ≡ n
      → filter_from mem 0 (c ∷ text) ≡ starred_from words 0 (c ∷ text)
  unfolding filter_from starred_from
  step_starred c text rest zero e =
      let found = longest_words (c ∷ text) ∙ e in
      rw (filter_from, starred_from, found, e, rest 0) refl
  step_starred c text rest (suc n) e =
      let found = longest_words (c ∷ text) ∙ e in
      rw (filter_from, starred_from, found, e, rest n) refl

  filter_starred :
      (todo : ℕ) (text : List ℕ) → filter_from mem todo text ≡ starred_from words todo text
  unfolding filter_from starred_from
  filter_starred todo [] = refl
  filter_starred (suc todo) (c ∷ text) = rw (filter_starred todo text) refl
  filter_starred zero (c ∷ text) =
      step_starred c text (λ todo. filter_starred todo text) (longest_span words (c ∷ text)) refl

-- Where all entries of the list are tables of numbers, `open` makes a dictionary of it, and `filter` with it
-- goes through a text from the left, stars the longest word of the list that begins there, with the
-- spaces in it, and goes on behind it; it says whether there was one.
pub dict_filter-dict_open :
    (entries : List (Option (List (Option ℕ)))) (words : List (List ℕ))
    → words_of entries ≡ some words
    → (mem : Tables) × (dict_open entries ≡ inserted mem)
      × ((text : List ℕ) → dict_filter mem text ≡ starred words text)
unfolding dict_filter starred
dict_filter-dict_open entries words e =
    let (mem, run, t, all) = dict_open_words entries words e in
    (mem, run, λ text. filter_starred mem words all 0 text)
