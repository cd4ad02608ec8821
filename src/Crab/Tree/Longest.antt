-- ===== src/Crab/Tree/Longest.antt =====
-- The inner loop of `dict_filter` in src/lua-crab.c finds the longest word of a tree with which a text begins.
use my_skynet.Prelude.{
  ℕ, suc, ◌+◌, ◌≤◌, ◌≡◌, ◌⊎◌, refl, sym, ap, ◌∙◌, arith, List, [], ◌∷◌, true, false, ◌==◌,
  if◌then◌else◌, Bool-cases, inl, inr,
}
use mathlib.Core.Path.{subst}
use my_skynet.Crab.Words.{Tables, to_rune}
use my_skynet.Crab.Filter.{space, longest}
use my_skynet.Crab.Filter.Search.{longest-bounds}
use my_skynet.Crab.Tree.{is_end, view_in, has_word}
use my_skynet.Crab.Tree.Quiet.{has_word_here, has_word_step, has_word_stop}
use my_skynet.Crab.Tree.Letter.{spaced, last, inner, letter}
use my_skynet.Crab.Tree.Stars.{
  more, span, longest-space, longest_last, longest_inner, more_suc, span-space, span_last,
  span_inner, span_first,
}

-- No word with which the text begins is longer than what the loop finds.
longest_letter :
    (mem : Tables) (a k step c : ℕ) (word text : List ℕ) (n : ℕ)
    → ((b s : ℕ) (word : List ℕ) (k step n : ℕ)
        → step ≤ k
        → has_word mem b s word ≡ true
        → span (s ∷ word) text ≡ suc n
        → k + suc n ≤ longest mem b k step text)
    → step ≤ k
    → (to_rune c == space) ≡ false
    → has_word mem a (to_rune c) word ≡ true
    → span (to_rune c ∷ word) (c ∷ text) ≡ suc n
    → k + suc n ≤ longest mem a k step (c ∷ text)
longest_letter mem a k step c [] text n rest h e has at =
    let end : is_end (view_in mem a (to_rune c)) ≡ true =
      sym (has_word_here mem a (to_rune c)) ∙ has in
    elim (letter mem a c) [
      | spaced f ↦ cc
      | last f g ↦ ground (arith, end, longest_last mem a k step c text f g, span_last c text e, at)
      | inner b f g ↦
          let found : longest mem a k step (c ∷ text) ≡ longest mem b (k + 1) (k + 1) text =
            longest_inner mem a k step c text b f g ∙ rw end refl in
          omega (
            arith,
            found,
            longest-bounds mem text b (k + 1) (k + 1) (omega arith),
            span_last c text e,
            at,
          )
    ]
longest_letter mem a k step c (s ∷ word) text n rest h e has at = elim (letter mem a c) [
  | spaced f ↦ cc
  | last f g ↦ let bad : false ≡ true = sym (has_word_stop mem a (to_rune c) s word g) ∙ has in cc
  | inner b f g ↦
      let (j, spans, left) =
        more_suc (span (s ∷ word) text) n (sym (span_inner c s word text e) ∙ at) in
      let further =
        rest b s word (k + 1) (if is_end (view_in mem a (to_rune c)) then k + 1 else step) j
          (ground (arith, h)) (sym (has_word_step mem a (to_rune c) s b word g) ∙ has) spans in
      omega (arith, longest_inner mem a k step c text b f g, further, left)
]

pub longest-ge :
    (text : List ℕ) (mem : Tables) (a r : ℕ) (word : List ℕ) (k step n : ℕ)
    → step ≤ k
    → has_word mem a r word ≡ true
    → span (r ∷ word) text ≡ suc n
    → k + suc n ≤ longest mem a k step text
unfolding span
longest-ge [] mem a r word k step n h has at = absurd (omega (arith, at))
longest-ge (c ∷ text) mem a r word k step n h has at = elim (Bool-cases (to_rune c == space)) [
  | inl e ↦
      let (j, spans, left) =
        more_suc (span (r ∷ word) text) n (sym (span-space r c word text e) ∙ at) in
      omega (
        arith,
        longest-space mem a k step c text e,
        longest-ge text mem a r word (k + 1) step j (omega (arith, h)) has spans,
        left,
      )
  | inr e ↦
      let here : r ≡ to_rune c = span_first r c word text n e at in
      longest_letter mem a k step c word text n (longest-ge text mem) h e
        (subst (λ r. has_word mem a r word ≡ true) here has)
        (subst (λ r. span (r ∷ word) (c ∷ text) ≡ suc n) here at)
]

-- What the loop finds is the step that there was, or a word of the table.
unfoldable pub Finds : Tables → ℕ → ℕ → ℕ → List ℕ → Type 0
Finds mem a k step text =
    (longest mem a k step text ≡ step)
    ⊎ ((r : ℕ) × (word : List ℕ) × (n : ℕ) × (has_word mem a r word ≡ true)
        × (span (r ∷ word) text ≡ suc n)
        × (longest mem a k step text ≡ k + suc n))

found_here :
    (mem : Tables) (a k step c : ℕ) (text : List ℕ)
    → (to_rune c == space) ≡ false
    → longest mem a k step (c ∷ text) ≡ (if is_end (view_in mem a (to_rune c)) then k + 1 else step)
    → Finds mem a k step (c ∷ text)
unfolding Finds
found_here mem a k step c text e h = elim (Bool-cases (is_end (view_in mem a (to_rune c)))) [
  | inl f ↦
      inr (to_rune c, [], 0, has_word_here mem a (to_rune c) ∙ f, span_last c text e, h ∙ rw f refl)
  | inr f ↦ inl (h ∙ rw f refl)
]

pub longest-Finds : (text : List ℕ) (mem : Tables) (a k step : ℕ) → Finds mem a k step text
unfolding Finds longest
longest-Finds [] mem a k step = inl refl
longest-Finds (c ∷ text) mem a k step = elim (letter mem a c) [
  | spaced e ↦ elim (longest-Finds text mem a (k + 1) step) [
    | inl f ↦ inl (longest-space mem a k step c text e ∙ f)
    | inr (r, word, n, has, spans, f) ↦ inr (
      r,
      word,
      suc n,
      has,
      span-space r c word text e ∙ ap more spans,
      omega (arith, longest-space mem a k step c text e, f),
    )
  ]
  | last e f ↦ found_here mem a k step c text e (longest_last mem a k step c text e f)
  | inner b e f ↦
      elim (longest-Finds text mem b (k + 1)
        (if is_end (view_in mem a (to_rune c)) then k + 1 else step)) [
          | inl g ↦ found_here mem a k step c text e (longest_inner mem a k step c text b e f ∙ g)
          | inr (s, word, n, has, spans, g) ↦ inr (
            to_rune c,
            s ∷ word,
            suc n,
            has_word_step mem a (to_rune c) s b word f ∙ has,
            span_inner c s word text e ∙ ap more spans,
            omega (arith, longest_inner mem a k step c text b e f, g),
          )
        ]
]
