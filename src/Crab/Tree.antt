-- ===== src/Crab/Tree.antt =====
-- The memory of src/lua-crab.c as a tree: a key in a table leads to the table that the node of the key points to.
-- The path to a table, from the dictionary, is its label, so no two paths meet.
pub mod Quiet
pub mod Mark
pub mod Grow
pub mod Node
pub mod Insert
pub mod Open
pub mod Letter
pub mod Finds
pub mod Check
pub mod Stars
pub mod Longest
pub mod Starred
use my_skynet.Prelude.{
  ℕ, zero, suc, ◌+◌, ◌≤◌, ◌<◌, ◌≡◌, ◌⊎◌, refl, sym, ap, ◌∙◌, arith, List, [], ◌∷◌, ◌++◌,
  append_assoc, Bool, true, false, ◌&&◌, ◌||◌, Option, none, some, ◌==◌, ==_iff, if◌then◌else◌,
  length, get_or, set, Bool-cases, Option-cases, inl, inr,
}
use my_skynet.Crab.{Table, terminator}
use my_skynet.Crab.Words.{Tables, table_at}
use my_skynet.Crab.View.{View, view, IsMap}

-- a word ends at what is at a key
abbrev pub is_end : View → Bool
is_end none = false
is_end (some (flag, value)) = flag == terminator

abbrev pub next : View → Option ℕ
next none = none
next (some (flag, value)) = value

abbrev pub view_in : Tables → ℕ → ℕ → View
view_in mem a key = view (table_at mem a) key

-- where the last letter of a word is looked for, of which the first is `r` and is looked for in the table at `a`
unfoldable pub spot : Tables → ℕ → ℕ → List ℕ → Option (ℕ × ℕ)
spot mem a r [] = some (a, r)
spot mem a r (s ∷ word) = elim (next (view_in mem a r)) [ none ↦ none | some b ↦ spot mem b s word ]

-- whether that word is in the memory
unfoldable pub has_word : Tables → ℕ → ℕ → List ℕ → Bool
has_word mem a r word = elim (spot mem a r word) [
  | none ↦ false
  | some (b, s) ↦ is_end (view_in mem b s)
]

pub record IsTree (mem : Tables) : Type 0 where
  pub label : ℕ → List ℕ
  pub nonempty : 0 < length mem
  pub root : label 0 ≡ []
  pub maps : (a : ℕ) → IsMap (table_at mem a)
  pub below :
      (a r b : ℕ)
      → next (view_in mem a r) ≡ some b
      → (a < b) × (b < length mem) × (label b ≡ label a ++ r ∷ [])
  pub above :
      (b : ℕ) → 0 < b → b < length mem → (a : ℕ) × (r : ℕ) × (next (view_in mem a r) ≡ some b)

pub spot_step :
    (mem : Tables) (a r s b : ℕ) (word : List ℕ)
    → next (view_in mem a r) ≡ some b
    → spot mem a r (s ∷ word) ≡ spot mem b s word
unfolding spot
spot_step mem a r s b word e = rw (spot, e) refl

pub spot_stop :
    (mem : Tables) (a r s : ℕ) (word : List ℕ)
    → next (view_in mem a r) ≡ none
    → spot mem a r (s ∷ word) ≡ none
unfolding spot
spot_stop mem a r s word e = rw (spot, e) refl

-- The place of a word tells the word.
pub spot-label :
    (mem : Tables) (t : IsTree mem) (a r : ℕ) (word : List ℕ) (b s : ℕ)
    → spot mem a r word ≡ some (b, s)
    → t.label b ++ s ∷ [] ≡ t.label a ++ r ∷ word
unfolding spot
spot-label mem t a r [] b s e =
    let place : (b, s) ≡ (a, r) = cc in ap (λ (x : ℕ × ℕ). t.label x.0 ++ x.1 ∷ []) place
spot-label mem t a r (c ∷ word) b s e = elim (Option-cases (next (view_in mem a r))) [
  | inl stop ↦
      let bad : ◌≡◌ {A = Option (ℕ × ℕ)} none (some (b, s)) =
        sym (spot_stop mem a r c word stop) ∙ e in
      cc
  | inr (a', go) ↦
      let (i, j, path) = t.below a r a' go in
      spot-label mem t a' c word b s (sym (spot_step mem a r c a' word go) ∙ e)
      ∙ ap (λ x. x ++ c ∷ word) path
      ∙ append_assoc (t.label a) (r ∷ []) (c ∷ word)
]

-- One letter more.
pub spot_snoc :
    (mem : Tables) (a r : ℕ) (word : List ℕ) (b s b' s' : ℕ)
    → spot mem a r word ≡ some (b, s)
    → next (view_in mem b s) ≡ some b'
    → spot mem a r (word ++ s' ∷ []) ≡ some (b', s')
unfolding spot
spot_snoc mem a r [] b s b' s' e go =
    let place : (a, r) ≡ (b, s) = cc in
    let go_on : next (view_in mem a r) ≡ some b' =
      ap (λ (x : ℕ × ℕ). next (view_in mem x.0 x.1)) place ∙ go in
    spot_step mem a r s' b' [] go_on
spot_snoc mem a r (c ∷ word) b s b' s' e go = elim (Option-cases (next (view_in mem a r))) [
  | inl stop ↦
      let bad : ◌≡◌ {A = Option (ℕ × ℕ)} none (some (b, s)) =
        sym (spot_stop mem a r c word stop) ∙ e in
      cc
  | inr (a', on) ↦
      spot_step mem a r c a' (word ++ s' ∷ []) on
      ∙ spot_snoc mem a' c word b s b' s' (sym (spot_step mem a r c a' word on) ∙ e) go
]
