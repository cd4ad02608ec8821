-- ===== src/Crab/Tree/Quiet.antt =====
-- Changes of the memory of src/lua-crab.c that put no word in: a new key at which no word ends, and a new
-- table that is empty.
use my_skynet.Prelude.{
  ℕ, ◌≡◌, refl, sym, ap, ◌∙◌, List, [], ◌∷◌, false, Option, none, some, Option-cases, inl, inr,
}
use my_skynet.Crab.Words.{Tables}
use my_skynet.Crab.Tree.{is_end, next, view_in, spot, has_word, spot_step, spot_stop}

pub has_word_here : (mem : Tables) (a r : ℕ) → has_word mem a r [] ≡ is_end (view_in mem a r)
unfolding has_word spot
has_word_here mem a r = refl

pub has_word_step :
    (mem : Tables) (a r s b : ℕ) (word : List ℕ)
    → next (view_in mem a r) ≡ some b
    → has_word mem a r (s ∷ word) ≡ has_word mem b s word
unfolding has_word
has_word_step mem a r s b word e = rw (has_word, spot_step mem a r s b word e) refl

pub has_word_stop :
    (mem : Tables) (a r s : ℕ) (word : List ℕ)
    → next (view_in mem a r) ≡ none
    → has_word mem a r (s ∷ word) ≡ false
unfolding has_word
has_word_stop mem a r s word e = rw (has_word, spot_stop mem a r s word e) refl

-- Where there is nothing at a key, no word goes on.
pub has_word-none :
    (mem : Tables) (a r : ℕ) (word : List ℕ)
    → view_in mem a r ≡ none
    → has_word mem a r word ≡ false
has_word-none mem a r [] e = has_word_here mem a r ∙ ap is_end e
has_word-none mem a r (s ∷ word) e = has_word_stop mem a r s word (ap next e)

pub record IsQuiet (mem mem' : Tables) : Type 0 where
  pub ends : (a r : ℕ) → is_end (view_in mem' a r) ≡ is_end (view_in mem a r)
  pub keeps : (a r b : ℕ) → next (view_in mem a r) ≡ some b → next (view_in mem' a r) ≡ some b
  pub grows :
      (a r b : ℕ)
      → next (view_in mem a r) ≡ none
      → next (view_in mem' a r) ≡ some b
      → (s : ℕ) → view_in mem' b s ≡ none

pub IsQuiet-refl : (mem : Tables) → IsQuiet mem mem
IsQuiet-refl mem = record {
  ends = λ a r. refl;
  keeps = λ a r b e. e;
  grows = λ a r b e f. let bad : ◌≡◌ {A = Option ℕ} none (some b) = sym e ∙ f in cc;
}

pub has_word-IsQuiet :
    (mem mem' : Tables) (q : IsQuiet mem mem') (a r : ℕ) (word : List ℕ)
    → has_word mem' a r word ≡ has_word mem a r word
has_word-IsQuiet mem mem' q a r [] =
    has_word_here mem' a r ∙ q.ends a r ∙ sym (has_word_here mem a r)
has_word-IsQuiet mem mem' q a r (s ∷ word) = elim (Option-cases (next (view_in mem a r))) [
  | inr (b, e) ↦
      has_word_step mem' a r s b word (q.keeps a r b e)
      ∙ has_word-IsQuiet mem mem' q b s word
      ∙ sym (has_word_step mem a r s b word e)
  | inl e ↦ elim (Option-cases (next (view_in mem' a r))) [
    | inl f ↦ has_word_stop mem' a r s word f ∙ sym (has_word_stop mem a r s word e)
    | inr (b, f) ↦
        has_word_step mem' a r s b word f
        ∙ has_word-none mem' b s word (q.grows a r b e f s)
        ∙ sym (has_word_stop mem a r s word e)
  ]
]

-- The place of a word stays.
pub spot_keeps :
    (mem mem' : Tables)
    → ((a r b : ℕ) → next (view_in mem a r) ≡ some b → next (view_in mem' a r) ≡ some b)
    → (a r : ℕ) (word : List ℕ) (x : ℕ × ℕ) → spot mem a r word ≡ some x
    → spot mem' a r word ≡ some x
unfolding spot
spot_keeps mem mem' k a r [] x e = e
spot_keeps mem mem' k a r (s ∷ word) x e = elim (Option-cases (next (view_in mem a r))) [
  | inl stop ↦
      let bad : ◌≡◌ {A = Option (ℕ × ℕ)} none (some x) = sym (spot_stop mem a r s word stop) ∙ e in
      cc
  | inr (b, go) ↦
      spot_step mem' a r s b word (k a r b go)
      ∙ spot_keeps mem mem' k b s word x (sym (spot_step mem a r s b word go) ∙ e)
]
