-- ===== src/Crab/Filter/Search.antt =====
-- The two searches of src/lua-crab.c side by side: what each makes of a code point, and of a text.
use my_skynet.Prelude.{
  ℕ, suc, ◌+◌, ◌-◌, ◌≤◌, ◌<◌, ◌≡◌, ◌⊎◌, inl, inr, refl, ◌∙◌, arith, List, [], ◌∷◌, Bool, true,
  false, ◌||◌, ◌==◌, if◌then◌else◌, length, Bool-cases, Option-cases,
}
use my_skynet.Crab.Words.{Tables, to_rune}
use my_skynet.Crab.Filter.{space, star, get_node, behind, ends_word, longest, filter_from, finds}

-- What the two inner loops make of the first code point of a text: they pass over it, they end, or they go
-- on in another table.
pub data Visit (mem : Tables) (a c : ℕ) : Type 0 where
  passes :
      ((text : List ℕ) → finds mem a (c ∷ text) ≡ finds mem a text)
      → ((k step : ℕ) (text : List ℕ)
          → longest mem a k step (c ∷ text) ≡ longest mem a (k + 1) step text)
      → Visit mem a c
  ends :
      (w : Bool)
      → ((text : List ℕ) → finds mem a (c ∷ text) ≡ w)
      → ((k step : ℕ) (text : List ℕ)
          → longest mem a k step (c ∷ text) ≡ (if w then k + 1 else step))
      → Visit mem a c
  goes_on :
      (w : Bool) (b : ℕ)
      → ((text : List ℕ) → finds mem a (c ∷ text) ≡ (w || finds mem b text))
      → ((k step : ℕ) (text : List ℕ)
          → longest mem a k step (c ∷ text)
            ≡ longest mem b (k + 1) (if w then k + 1 else step) text)
      → Visit mem a c

or_false : (w : Bool) → (w || false) ≡ w
or_false true = refl
or_false false = refl

if_or : (w r : Bool) → (if w then true else r) ≡ (w || r)
if_or true r = refl
if_or false r = refl

pub visit : (mem : Tables) (a c : ℕ) → Visit mem a c
unfolding finds longest
visit mem a c = elim (Bool-cases (to_rune c == space)) [
  | inl e ↦ passes (λ text. rw (finds, e) refl) (λ k step text. rw (longest, e) refl)
  | inr e ↦ elim (Option-cases (behind (get_node mem a (to_rune c)))) [
    | inl g ↦
        ends (ends_word (get_node mem a (to_rune c)))
          (λ text.
            rw (finds, e, g) (if_or (ends_word (get_node mem a (to_rune c))) false ∙ or_false _))
          (λ k step text. rw (longest, e, g) refl)
    | inr (b, g) ↦
        goes_on (ends_word (get_node mem a (to_rune c))) b
          (λ text.
            rw (finds, e, g) (if_or (ends_word (get_node mem a (to_rune c))) (finds mem b text)))
          (λ k step text. rw (longest, e, g) refl)
  ]
]

-- The longest word found ends in the text, and is no shorter than the step there was.
pub longest-bounds :
    (mem : Tables) (text : List ℕ) (a k step : ℕ)
    → step ≤ k
    → (step ≤ longest mem a k step text) × (longest mem a k step text ≤ k + length text)
unfolding longest
longest-bounds mem [] a k step h = (omega arith, omega (arith, h))
longest-bounds mem (c ∷ text) a k step h = elim (visit mem a c) [
  | passes e f ↦
      omega (arith, h, f k step text, longest-bounds mem text a (k + 1) step (omega (arith, h)))
  | ends w e f ↦ ground (arith, h, f k step text)
  | goes_on true b e f ↦
      omega (arith, h, f k step text, longest-bounds mem text b (k + 1) (k + 1) (omega arith))
  | goes_on false b e f ↦
      omega (arith, h, f k step text, longest-bounds mem text b (k + 1) step (omega (arith, h)))
]

-- It grows where a word is found, and only there.
pub longest-finds :
    (mem : Tables) (text : List ℕ) (a k step : ℕ)
    → step ≤ k
    → ((finds mem a text ≡ true) × (k < longest mem a k step text))
      ⊎ ((finds mem a text ≡ false) × (longest mem a k step text ≡ step))
unfolding longest finds
longest-finds mem [] a k step h = inr (refl, refl)
longest-finds mem (c ∷ text) a k step h = elim (visit mem a c) [
  | passes e f ↦
      ground
        (arith, h, e text, f k step text, longest-finds mem text a (k + 1) step (omega (arith, h)))
  | ends w e f ↦ ground (arith, h, e text, f k step text)
  | goes_on true b e f ↦ inl (
    e text,
    omega (arith, h, f k step text, longest-bounds mem text b (k + 1) (k + 1) (omega arith)),
  )
  | goes_on false b e f ↦
      ground
        (arith, h, e text, f k step text, longest-finds mem text b (k + 1) step (omega (arith, h)))
]

-- A word is found in the text exactly where a step is taken.
pub step-cases :
    (mem : Tables) (text : List ℕ)
    → ((finds mem 0 text ≡ true) × (n : ℕ) × (longest mem 0 0 0 text ≡ suc n))
      ⊎ ((finds mem 0 text ≡ false) × (longest mem 0 0 0 text ≡ 0))
step-cases mem text = elim (longest-finds mem text 0 0 0 (omega arith)) [
  | inl (e, h) ↦ inl (e, longest mem 0 0 0 text - 1, omega (arith, h))
  | inr (e, f) ↦ inr (e, f)
]

-- The two cases of `filter_from` where no star is left to write.
abbrev pub Found : Tables → ℕ → List ℕ → Type 0
Found mem c text =
    (finds mem 0 (c ∷ text) ≡ true)
    × (n : ℕ) × (filter_from mem 0 (c ∷ text) ≡ (true, star ∷ (filter_from mem n text).1))

abbrev pub Passed : Tables → ℕ → List ℕ → Type 0
Passed mem c text =
    (finds mem 0 (c ∷ text) ≡ false)
    × (filter_from mem 0 (c ∷ text) ≡ ((filter_from mem 0 text).0, c ∷ (filter_from mem 0 text).1))

pub filter_from-cases :
    (mem : Tables) (c : ℕ) (text : List ℕ) → Found mem c text ⊎ Passed mem c text
unfolding filter_from
filter_from-cases mem c text = elim (step-cases mem (c ∷ text)) [
  | inl (e, n, f) ↦ inl (e, n, rw (filter_from, f) refl)
  | inr (e, f) ↦ inr (e, rw (filter_from, f) refl)
]
