-- ===== src/Crab/Tree/Finds.antt =====
-- The inner loop of `dict_check` in src/lua-crab.c finds the words of a tree with which a text begins.
use my_skynet.Prelude.{
  ℕ, ◌≡◌, ◌⊎◌, refl, sym, ◌∙◌, arith, List, [], ◌∷◌, Bool, true, false, ◌&&◌, ◌||◌, none, some,
  ◌==◌, ==_iff, Bool-cases, inl, inr,
}
use mathlib.Core.Path.{subst}
use my_skynet.Crab.Words.{Tables, to_rune}
use my_skynet.Crab.Filter.{space, get_node, behind, finds}
use my_skynet.Crab.Tree.{is_end, next, view_in, has_word}
use my_skynet.Crab.Tree.Quiet.{has_word_here, has_word_step, has_word_stop}
use my_skynet.Crab.Tree.Mark.{and_both}
use my_skynet.Crab.Tree.Letter.{spaced, last, inner, letter, ends_word-get_node, behind-get_node}

-- A text begins with a word, where the spaces of the text count for nothing.
unfoldable pub begins : List ℕ → List ℕ → Bool
begins [] text = true
begins (r ∷ word) [] = false
begins (r ∷ word) (c ∷ text) = elim (to_rune c == space) [
  | true ↦ begins (r ∷ word) text
  | false ↦ to_rune c == r && begins word text
]

module _ (mem : Tables) (a c : ℕ) (text : List ℕ) where
  finds-space : (to_rune c == space) ≡ true → finds mem a (c ∷ text) ≡ finds mem a text
  unfolding finds
  finds-space e = rw (finds, e) refl

  finds_last :
      (to_rune c == space) ≡ false
      → next (view_in mem a (to_rune c)) ≡ none
      → finds mem a (c ∷ text) ≡ is_end (view_in mem a (to_rune c))
  unfolding finds
  finds_last e f =
      let stop : behind (get_node mem a (to_rune c)) ≡ none =
        behind-get_node mem a (to_rune c) ∙ f in
      rw (finds, e, stop, ends_word-get_node mem a (to_rune c)) (ground arith)

  finds_inner :
      (b : ℕ)
      → (to_rune c == space) ≡ false
      → next (view_in mem a (to_rune c)) ≡ some b
      → finds mem a (c ∷ text) ≡ (is_end (view_in mem a (to_rune c)) || finds mem b text)
  unfolding finds
  finds_inner b e f =
      let go : behind (get_node mem a (to_rune c)) ≡ some b =
        behind-get_node mem a (to_rune c) ∙ f in
      rw (finds, e, go, ends_word-get_node mem a (to_rune c)) (ground arith)

begins_letter :
    (c r : ℕ) (word text : List ℕ)
    → (to_rune c == space) ≡ false
    → begins (r ∷ word) (c ∷ text) ≡ (to_rune c == r && begins word text)
unfolding begins
begins_letter c r word text e = rw (begins, e) refl

begins-space :
    (c r : ℕ) (word text : List ℕ)
    → (to_rune c == space) ≡ true
    → begins (r ∷ word) (c ∷ text) ≡ begins (r ∷ word) text
unfolding begins
begins-space c r word text e = rw (begins, e) refl

begins_same :
    (c : ℕ) (word text : List ℕ)
    → (to_rune c == space) ≡ false
    → begins (to_rune c ∷ word) (c ∷ text) ≡ begins word text
begins_same c word text e =
    let here : (to_rune c == to_rune c) ≡ true = (==_iff (to_rune c) (to_rune c)).1 refl in
    begins_letter c (to_rune c) word text e ∙ rw here refl

-- a word of the table at `a` with which the text begins
abbrev pub Begun : Tables → ℕ → List ℕ → Type 0
Begun mem a text =
    (r : ℕ) × (word : List ℕ) × (has_word mem a r word ≡ true) × (begins (r ∷ word) text ≡ true)

pub or_cases : (x y : Bool) → (x || y) ≡ true → (x ≡ true) ⊎ (y ≡ true)
or_cases true y e = inl refl
or_cases false y e = inr e

Begun-here :
    (mem : Tables) (a c : ℕ) (text : List ℕ)
    → (to_rune c == space) ≡ false
    → is_end (view_in mem a (to_rune c)) ≡ true
    → Begun mem a (c ∷ text)
unfolding begins
Begun-here mem a c text e h =
    (to_rune c, [], has_word_here mem a (to_rune c) ∙ h, begins_same c [] text e)

pub finds_to : (text : List ℕ) (mem : Tables) (a : ℕ) → finds mem a text ≡ true → Begun mem a text
unfolding finds
finds_to [] mem a h = cc
finds_to (c ∷ text) mem a h = elim (letter mem a c) [
  | spaced e ↦
      let (r, word, has, at) = finds_to text mem a (sym (finds-space mem a c text e) ∙ h) in
      (r, word, has, begins-space c r word text e ∙ at)
  | last e f ↦ Begun-here mem a c text e (sym (finds_last mem a c text e f) ∙ h)
  | inner b e f ↦
      elim (or_cases (is_end (view_in mem a (to_rune c))) (finds mem b text)
        (sym (finds_inner mem a c text b e f) ∙ h)) [
          | inl end ↦ Begun-here mem a c text e end
          | inr more ↦
              let (s, word, has, at) = finds_to text mem b more in
              (
                to_rune c,
                s ∷ word,
                has_word_step mem a (to_rune c) s b word f ∙ has,
                begins_same c (s ∷ word) text e ∙ at,
              )
        ]
]

pub end_or : (x y : Bool) → x ≡ true → (x || y) ≡ true
end_or true y e = refl
end_or false y e = cc

pub or_end : (x y : Bool) → y ≡ true → (x || y) ≡ true
or_end true y e = refl
or_end false y e = e

finds_letter :
    (text : List ℕ) (mem : Tables) (a c : ℕ) (word : List ℕ)
    → ((b s : ℕ) (word : List ℕ)
        → has_word mem b s word ≡ true
        → begins (s ∷ word) text ≡ true
        → finds mem b text ≡ true)
    → (to_rune c == space) ≡ false
    → has_word mem a (to_rune c) word ≡ true
    → begins word text ≡ true
    → finds mem a (c ∷ text) ≡ true
finds_letter text mem a c [] rest e has at = elim (letter mem a c) [
  | spaced f ↦ cc
  | last f g ↦ finds_last mem a c text f g ∙ sym (has_word_here mem a (to_rune c)) ∙ has
  | inner b f g ↦
      finds_inner mem a c text b f g
      ∙ end_or (is_end (view_in mem a (to_rune c))) (finds mem b text)
          (sym (has_word_here mem a (to_rune c)) ∙ has)
]
finds_letter text mem a c (s ∷ word) rest e has at = elim (letter mem a c) [
  | spaced f ↦ cc
  | last f g ↦ let bad : false ≡ true = sym (has_word_stop mem a (to_rune c) s word g) ∙ has in cc
  | inner b f g ↦
      finds_inner mem a c text b f g
      ∙ or_end (is_end (view_in mem a (to_rune c))) (finds mem b text)
          (rest b s word (sym (has_word_step mem a (to_rune c) s b word g) ∙ has) at)
]

pub finds_from :
    (text : List ℕ) (mem : Tables) (a r : ℕ) (word : List ℕ)
    → has_word mem a r word ≡ true
    → begins (r ∷ word) text ≡ true
    → finds mem a text ≡ true
unfolding begins
finds_from [] mem a r word has at = cc
finds_from (c ∷ text) mem a r word has at = elim (Bool-cases (to_rune c == space)) [
  | inl e ↦
      finds-space mem a c text e
      ∙ finds_from text mem a r word has (sym (begins-space c r word text e) ∙ at)
  | inr e ↦
      let (same_rune, more) =
        and_both (to_rune c == r) (begins word text) (sym (begins_letter c r word text e) ∙ at) in
      let here : r ≡ to_rune c = sym ((==_iff (to_rune c) r).0 same_rune) in
      finds_letter text mem a c word (finds_from text mem) e
        (subst (λ r. has_word mem a r word ≡ true) here has) more
]
