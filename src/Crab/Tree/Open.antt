-- ===== src/Crab/Tree/Open.antt =====
-- `dict_open` of src/lua-crab.c: the words of the list are in the tree, and no others.
use my_skynet.Prelude.{
  ℕ, zero, suc, ◌<◌, ◌≡◌, refl, sym, ap, ◌∙◌, arith, List, [], ◌∷◌, Bool, false, ◌||◌, Option, none,
  some,
}
use mathlib.Core.Path.{subst}
use my_skynet.Crab.{table_new}
use my_skynet.Crab.Words.{
  Tables, table_at, Inserted, inserted, refused, stuck, dict_insert, open_words, dict_open,
}
use my_skynet.Crab.View.{IsMap}
use my_skynet.Crab.View.Insert.{table_new-IsMap, view-table_new}
use my_skynet.Crab.Tree.{next, view_in, has_word, IsTree}
use my_skynet.Crab.Tree.Quiet.{has_word-none}
use my_skynet.Crab.Tree.Mark.{same}
use my_skynet.Crab.Tree.Insert.{runes, Puts, insert_from_start}

-- an entry of the list
unfoldable pub word_of : Option (List (Option ℕ)) → Option (List ℕ)
word_of none = none
word_of (some word) = runes word

-- the words of the list, where all its entries are tables of numbers
unfoldable pub words_of : List (Option (List (Option ℕ))) → Option (List (List ℕ))
words_of [] = some []
words_of (entry ∷ entries) = elim (word_of entry) [
  | none ↦ none
  | some word ↦ elim (words_of entries) [ none ↦ none | some words ↦ some (word ∷ words) ]
]

unfoldable pub among : List ℕ → List (List ℕ) → Bool
among q [] = false
among q (word ∷ words) = same q word || among q words

dict_insert_lem :
    (entry : Option (List (Option ℕ))) (mem : Tables)
    → IsTree mem
    → Puts mem (dict_insert mem entry) (word_of entry) []
unfolding dict_insert word_of Puts
dict_insert_lem none mem t = refl
dict_insert_lem (some word) mem t = insert_from_start word mem t

unfoldable pub Opens : Tables → Inserted → Option (List (List ℕ)) → Type 0
Opens mem result none = result ≡ refused
Opens mem result (some words) =
    (mem' : Tables) × (result ≡ inserted mem')
    × IsTree mem'
    × ((q0 : ℕ) (q : List ℕ) → has_word mem' 0 q0 q ≡ (has_word mem 0 q0 q || among (q0 ∷ q) words))

one_word :
    (mem : Tables) (result : Inserted) (entries : List (Option (List (Option ℕ))))
    (word : Option (List ℕ))
    → Puts mem result word []
    → ((mem' : Tables) → IsTree mem' → Opens mem' (open_words mem' entries) (words_of entries))
    → Opens mem
        (elim result [
          | inserted mem' ↦ open_words mem' entries
          | refused ↦ refused
          | stuck ↦ stuck
        ])
        (elim word [
          | none ↦ none
          | some w ↦ elim (words_of entries) [ none ↦ none | some words ↦ some (w ∷ words) ]
        ])
unfolding Puts Opens
one_word mem result entries none h rest = rw h refl
one_word mem result entries (some word) (mem', run, t, words) rest =
    go (words_of entries) (rest mem' t)
  where
    go :
        (more : Option (List (List ℕ)))
        → Opens mem' (open_words mem' entries) more
        → Opens mem
            (elim result [
              | inserted mem' ↦ open_words mem' entries
              | refused ↦ refused
              | stuck ↦ stuck
            ])
            (elim more [ none ↦ none | some words ↦ some (word ∷ words) ])
    go none h = rw run h
    go (some more) (mem'', runs, tree, all) =
        (mem'', rw run runs, tree, λ q0 q. all q0 q ∙ unfold among in ground (arith, words q0 q))

open_words_lem :
    (entries : List (Option (List (Option ℕ)))) (mem : Tables)
    → IsTree mem
    → Opens mem (open_words mem entries) (words_of entries)
unfolding open_words words_of Opens
open_words_lem [] mem t = (mem, refl, t, λ q0 q. unfold among in ground arith)
open_words_lem (entry ∷ entries) mem t =
    one_word mem (dict_insert mem entry) entries (word_of entry) (dict_insert_lem entry mem t)
      (open_words_lem entries)

nothing_in : (a r : ℕ) → view_in (table_new ∷ []) a r ≡ none
unfolding table_at
nothing_in zero r = view-table_new r
nothing_in (suc a) r = view-table_new r

table_new-IsTree : IsTree (table_new ∷ [])
table_new-IsTree = record {
  label = λ a. [];
  nonempty = omega arith;
  root = refl;
  maps = maps;
  below = below;
  above = λ b h k. absurd (omega (arith, h, k));
}
  where
    maps : (a : ℕ) → IsMap (table_at (table_new ∷ []) a)
    maps zero = unfold table_at in table_new-IsMap
    maps (suc a) = unfold table_at in table_new-IsMap

    below :
        (a r b : ℕ)
        → next (view_in (table_new ∷ []) a r) ≡ some b
        → (a < b) × (b < 1) × (◌≡◌ {A = List ℕ} [] (r ∷ []))
    below a r b e =
        let bad : ◌≡◌ {A = Option ℕ} none (some b) = sym (ap next (nothing_in a r)) ∙ e in cc

-- A list of tables of numbers gives a tree that has the words that are not empty, and no others. With any
-- other entry the list is refused.
pub dict_open_lem :
    (entries : List (Option (List (Option ℕ))))
    → Opens (table_new ∷ []) (dict_open entries) (words_of entries)
unfolding dict_open
dict_open_lem entries = open_words_lem entries (table_new ∷ []) table_new-IsTree

pub dict_open_words :
    (entries : List (Option (List (Option ℕ)))) (words : List (List ℕ))
    → words_of entries ≡ some words
    → (mem : Tables) × (dict_open entries ≡ inserted mem)
      × IsTree mem
      × ((q0 : ℕ) (q : List ℕ) → has_word mem 0 q0 q ≡ among (q0 ∷ q) words)
unfolding Opens
dict_open_words entries words e =
    let (mem, run, t, all) : Opens (table_new ∷ []) (dict_open entries) (some words) =
      subst (Opens (table_new ∷ []) (dict_open entries)) e (dict_open_lem entries) in
    (
      mem,
      run,
      t,
      λ q0 q. all q0 q ∙ rw (has_word-none (table_new ∷ []) 0 q0 q (nothing_in 0 q0)) refl,
    )

-- A list with an entry that is no table, or has an entry that is no number, is refused.
pub dict_open-refused :
    (entries : List (Option (List (Option ℕ))))
    → words_of entries ≡ none
    → dict_open entries ≡ refused
unfolding Opens
dict_open-refused entries e =
    subst (Opens (table_new ∷ []) (dict_open entries)) e (dict_open_lem entries)
