-- ===== src/Crab/Tree/Letter.antt =====
-- What the searches of src/lua-crab.c make of a code point, in a tree.
use my_skynet.Prelude.{
  ℕ, ◌≡◌, refl, true, false, none, some, ◌==◌, Bool-cases, Option-cases, inl, inr,
}
use my_skynet.Crab.{table_get}
use my_skynet.Crab.Words.{Tables, to_rune, table_at}
use my_skynet.Crab.View.{view}
use my_skynet.Crab.Filter.{space, get_node, behind, ends_word}
use my_skynet.Crab.Tree.{is_end, next, view_in}

pub ends_word-get_node :
    (mem : Tables) (a r : ℕ) → ends_word (get_node mem a r) ≡ is_end (view_in mem a r)
unfolding ends_word get_node view
ends_word-get_node mem a r = elim (Option-cases (table_get (table_at mem a) r)) [
  | inl e ↦ rw (get_node, view, e) refl
  | inr (i, e) ↦ rw (get_node, view, e) refl
]

pub behind-get_node : (mem : Tables) (a r : ℕ) → behind (get_node mem a r) ≡ next (view_in mem a r)
unfolding behind get_node view
behind-get_node mem a r = elim (Option-cases (table_get (table_at mem a) r)) [
  | inl e ↦ rw (get_node, view, e) refl
  | inr (i, e) ↦ rw (get_node, view, e) refl
]

-- What the loop makes of a code point.
pub data Letter (mem : Tables) (a c : ℕ) : Type 0 where
  spaced : (to_rune c == space) ≡ true → Letter mem a c
  last : (to_rune c == space) ≡ false → next (view_in mem a (to_rune c)) ≡ none → Letter mem a c
  inner :
      (b : ℕ)
      → (to_rune c == space) ≡ false
      → next (view_in mem a (to_rune c)) ≡ some b
      → Letter mem a c

pub letter : (mem : Tables) (a c : ℕ) → Letter mem a c
letter mem a c = elim (Bool-cases (to_rune c == space)) [
  | inl e ↦ spaced e
  | inr e ↦ elim (Option-cases (next (view_in mem a (to_rune c)))) [
    | inl f ↦ last e f
    | inr (b, f) ↦ inner b e f
  ]
]
