-- ===== src/Crab/Tree/Stars.antt =====
-- What `dict_filter` of src/lua-crab.c is to do: to star, from the left, the longest of the words of the list that
-- begins there. Then what its inner loop makes of one code point, and what that is for a word.
use Prim.Native.Nat.{max}
use my_skynet.Prelude.{
  ℕ, zero, suc, ◌+◌, ◌≡◌, refl, sym, ◌∙◌, arith, List, [], ◌∷◌, Bool, true, false, none, some, ◌==◌,
  ==_iff, if◌then◌else◌, Bool-cases, inl, inr,
}
use my_skynet.Crab.Words.{Tables, to_rune}
use my_skynet.Crab.Filter.{space, star, get_node, behind, longest}
use my_skynet.Crab.Tree.{is_end, next, view_in}
use my_skynet.Crab.Tree.Letter.{ends_word-get_node, behind-get_node}

abbrev pub more : ℕ → ℕ
more zero = 0
more (suc n) = suc (suc n)

-- How many code points of a text a word takes at its beginning, with the spaces in front of its letters; 0
-- where the text does not begin with it.
unfoldable pub span : List ℕ → List ℕ → ℕ
span [] text = 0
span (r ∷ word) [] = 0
span (r ∷ word) (c ∷ text) = elim (to_rune c == space) [
  | true ↦ more (span (r ∷ word) text)
  | false ↦ elim (to_rune c == r) [
    | false ↦ 0
    | true ↦ elim word [ [] ↦ 1 | s ∷ rest ↦ more (span (s ∷ rest) text) ]
  ]
]

unfoldable pub longest_span : List (List ℕ) → List ℕ → ℕ
longest_span [] text = 0
longest_span (word ∷ words) text = max (span word text) (longest_span words text)

-- Whether a word was found, and the text, with the number of stars that are still to write.
unfoldable pub starred_from : List (List ℕ) → ℕ → List ℕ → Bool × List ℕ
starred_from words todo [] = (false, [])
starred_from words (suc todo) (c ∷ text) =
    let rest = starred_from words todo text in (rest.0, star ∷ rest.1)
starred_from words zero (c ∷ text) = elim (longest_span words (c ∷ text)) [
  | zero ↦ let rest = starred_from words 0 text in (rest.0, c ∷ rest.1)
  | suc n ↦ let rest = starred_from words n text in (true, star ∷ rest.1)
]

unfoldable pub starred : List (List ℕ) → List ℕ → Bool × List ℕ
starred words text = starred_from words 0 text

module _ (mem : Tables) (a k step c : ℕ) (text : List ℕ) where
  pub longest-space :
      (to_rune c == space) ≡ true
      → longest mem a k step (c ∷ text) ≡ longest mem a (k + 1) step text
  unfolding longest
  longest-space e = rw (longest, e) refl

  pub longest_last :
      (to_rune c == space) ≡ false
      → next (view_in mem a (to_rune c)) ≡ none
      → longest mem a k step (c ∷ text)
        ≡ (if is_end (view_in mem a (to_rune c)) then k + 1 else step)
  unfolding longest
  longest_last e f =
      let stop : behind (get_node mem a (to_rune c)) ≡ none =
        behind-get_node mem a (to_rune c) ∙ f in
      rw (longest, e, stop, ends_word-get_node mem a (to_rune c)) refl

  pub longest_inner :
      (b : ℕ)
      → (to_rune c == space) ≡ false
      → next (view_in mem a (to_rune c)) ≡ some b
      → longest mem a k step (c ∷ text)
        ≡ longest mem b (k + 1) (if is_end (view_in mem a (to_rune c)) then k + 1 else step) text
  unfolding longest
  longest_inner b e f =
      let go : behind (get_node mem a (to_rune c)) ≡ some b =
        behind-get_node mem a (to_rune c) ∙ f in
      rw (longest, e, go, ends_word-get_node mem a (to_rune c)) refl

pub more_suc : (m n : ℕ) → more m ≡ suc n → (j : ℕ) × (m ≡ suc j) × (n ≡ suc j)
more_suc zero n e = absurd (omega (arith, e))
more_suc (suc j) n e = (j, refl, omega (arith, e))

pub span-space :
    (r c : ℕ) (word text : List ℕ)
    → (to_rune c == space) ≡ true
    → span (r ∷ word) (c ∷ text) ≡ more (span (r ∷ word) text)
unfolding span
span-space r c word text e = rw (span, e) refl

pub span_last :
    (c : ℕ) (text : List ℕ) → (to_rune c == space) ≡ false → span (to_rune c ∷ []) (c ∷ text) ≡ 1
unfolding span
span_last c text e =
    let here : (to_rune c == to_rune c) ≡ true = (==_iff (to_rune c) (to_rune c)).1 refl in
    rw (span, e, here) refl

pub span_inner :
    (c s : ℕ) (word text : List ℕ)
    → (to_rune c == space) ≡ false
    → span (to_rune c ∷ s ∷ word) (c ∷ text) ≡ more (span (s ∷ word) text)
unfolding span
span_inner c s word text e =
    let here : (to_rune c == to_rune c) ≡ true = (==_iff (to_rune c) (to_rune c)).1 refl in
    rw (span, e, here) refl

-- The first letter of a word that the text begins with.
pub span_first :
    (r c : ℕ) (word text : List ℕ) (n : ℕ)
    → (to_rune c == space) ≡ false
    → span (r ∷ word) (c ∷ text) ≡ suc n
    → r ≡ to_rune c
unfolding span
span_first r c word text n e h = elim (Bool-cases (to_rune c == r)) [
  | inl f ↦ sym ((==_iff (to_rune c) r).0 f)
  | inr f ↦
      let zero_ : span (r ∷ word) (c ∷ text) ≡ 0 = rw (span, e, f) refl in
      absurd (omega (arith, zero_, h))
]
