-- ===== src/Crab/Tests.antt =====
-- Tests of Crab.
use my_skynet.Prelude.{
  ◌⊎◌, if◌then◌else◌, ◌==◌, ◌&&◌, arith, ltb, ℕ, ◌≡◌, refl, List, [], ◌∷◌, true, false, Option,
  none, some, map, zero, suc, not, length, ◌+◌, ◌*◌, ◌≤◌, ◌<◌,
}
use my_skynet.Crab.Chain.{occurs, is_live, home, IsLinked, BeginsAt, HasChains}
use my_skynet.Crab.Newkey.{IsSound, IsAdded}
use my_skynet.Crab.Newkey.Grow.{table_newkey_lem}
use my_skynet.Crab.View.{view}
use my_skynet.Crab.View.Run.{insert_all, is_in, insert_all-new}
use my_skynet.Crab.Close.{close_nodes, close_within, dict_close}
use my_skynet.Crab.Close.Once.{dict_close-dict_open}
use my_skynet.Crab.Tree.Insert.{runes}
use my_skynet.Crab.Tree.Open.{word_of, words_of, dict_open-refused}
use my_skynet.Crab.Tree.Finds.{begins}
use my_skynet.Crab.Tree.Check.{begins_with, contains, dict_check-dict_open}
use my_skynet.Crab.Tree.Stars.{span, longest_span, starred_from, starred}
use my_skynet.Crab.Tree.Starred.{dict_filter-dict_open}
use my_skynet.Crab.{
  Table, table_new, non_terminator, tisnil, tnode, put_node, mainposition, free_from, getfreenode,
  before_from, fill, move_other, link_behind, place, reinsert, table_expand, newkey_within,
  table_newkey, get_from, table_get, table_insert,
}
use my_skynet.Crab.Words.{
  Tables, table_at, next_table, Inserted, inserted, refused, stuck, mark_end, insert_from,
  dict_insert, open_words, dict_open,
}
use my_skynet.Crab.Filter.Clean.{dict_filter_clean}
use my_skynet.Crab.Filter.{
  star, get_node, behind, ends_word, longest, filter_from, dict_filter, finds, check_from,
  dict_check,
}

abbrev word : List ℕ → Option (List (Option ℕ))
word w = some (map some w)

abbrev tables : Inserted → Tables
tables (inserted mem) = mem
tables refused = []
tables stuck = []

-- ab, abc, b, and more first letters than the first tables have room for
abbrev dict : Tables
dict = tables (
    dict_open (
      word (97 ∷ 98 ∷ [])
      ∷ word (97 ∷ 98 ∷ 99 ∷ [])
      ∷ word (98 ∷ [])
      ∷ word (105 ∷ 97 ∷ [])
      ∷ word (113 ∷ [])
      ∷ word (101 ∷ [])
      ∷ []))

-- the longest word is starred, with the space in it
stars :
    dict_filter dict (120 ∷ 97 ∷ 32 ∷ 98 ∷ 99 ∷ 97 ∷ []) ≡ (true, 120 ∷ 42 ∷ 42 ∷ 42 ∷ 42 ∷ 97 ∷ [])
unfolding tisnil tnode put_node mainposition free_from getfreenode before_from fill move_other
    link_behind place reinsert table_expand newkey_within table_newkey get_from table_get
    table_insert table_at next_table mark_end insert_from dict_insert open_words dict_open get_node
    behind ends_word longest filter_from dict_filter
stars = refl

finds_all :
    (dict_check dict (97 ∷ 99 ∷ []) ≡ true)
    × (dict_check dict (105 ∷ 97 ∷ []) ≡ false)
    × (dict_check dict (113 ∷ []) ≡ false)
    × (dict_check dict (101 ∷ []) ≡ false)
unfolding tisnil tnode put_node mainposition free_from getfreenode before_from fill move_other
    link_behind place reinsert table_expand newkey_within table_newkey get_from table_get
    table_insert table_at next_table mark_end insert_from dict_insert open_words dict_open get_node
    behind ends_word finds check_from dict_check
finds_all = (refl, refl, refl, refl)

refuses : dict_open (word (97 ∷ []) ∷ none ∷ []) ≡ refused
unfolding tisnil tnode put_node mainposition free_from getfreenode before_from fill move_other
    link_behind place reinsert table_expand newkey_within table_newkey get_from table_get
    table_insert table_at next_table mark_end insert_from dict_insert open_words dict_open
refuses = refl

abbrev small : Tables
small = tables (dict_open (word (97 ∷ 98 ∷ []) ∷ []))

abbrev text : List ℕ
text = 120 ∷ 97 ∷ 98 ∷ []

small_no_star : (a : ℕ) → get_node small a star ≡ none
unfolding tisnil tnode put_node mainposition free_from getfreenode before_from fill move_other
    link_behind place reinsert table_expand newkey_within table_newkey get_from table_get
    table_insert table_at next_table mark_end insert_from dict_insert open_words dict_open get_node
small_no_star zero = refl
small_no_star (suc zero) = refl
small_no_star (suc (suc a)) = refl

dict_filter_clean_example :
    (dict_check small (dict_filter small text).1 ≡ true)
    × (dict_filter small (dict_filter small text).1 ≡ (false, (dict_filter small text).1))
dict_filter_clean_example = dict_filter_clean small small_no_star text

-- two keys with one main position
abbrev crowded : Table
crowded = record {
  capacity = 2;
  node =
      (record { key = 98; next = some 1; flag = 110; value = none })
      ∷ (record { key = 100; next = none; flag = 110; value = none })
      ∷ [];
  lastfree = 0;
}

abbrev crowded_chain : ℕ → List ℕ
crowded_chain zero = 0 ∷ 1 ∷ []
crowded_chain (suc p) = []

crowded-HasChains : HasChains crowded crowded_chain
unfolding occurs is_live home IsLinked BeginsAt tisnil tnode mainposition
crowded-HasChains = record { size = refl; holds = holds; begins = begins; linked = linked }
  where
    holds :
        (p a : ℕ)
        → occurs a (crowded_chain p) ≡ (if is_live crowded a && home crowded a == p then 1 else 0)
    holds zero zero = refl
    holds zero (suc zero) = refl
    holds zero (suc (suc a)) = ground arith
    holds (suc p) zero = ground arith
    holds (suc p) (suc zero) = ground arith
    holds (suc p) (suc (suc a)) = ground arith

    begins : (p : ℕ) → BeginsAt p (crowded_chain p)
    begins zero = refl
    begins (suc p) = tt

    linked : (p : ℕ) → IsLinked crowded (crowded_chain p)
    linked zero = (refl, refl)
    linked (suc p) = tt

crowded-IsSound : IsSound crowded
unfolding is_live tisnil tnode
crowded-IsSound = record {
  chain = crowded_chain;
  chains = crowded-HasChains;
  loose = loose;
  above = above;
  last_le = omega arith;
  power = (1, refl);
}
  where
    loose :
        (a : ℕ)
        → is_live crowded a ≡ false
        → ((tnode crowded a).next ≡ none) × ((tnode crowded a).value ≡ none)
    loose zero e = cc
    loose (suc zero) e = cc
    loose (suc (suc a)) e = (refl, refl)

    above : (a : ℕ) → 0 ≤ a → a < 2 → is_live crowded a ≡ true
    above zero h k = refl
    above (suc zero) h k = refl
    above (suc (suc a)) h k = absurd (omega (arith, k))

-- a third key in two nodes that are taken
table_newkey_lem_example :
    (t' : Table) × (i : ℕ) × (table_newkey crowded 102 ≡ some (t', i)) × IsAdded crowded t' 102 i
table_newkey_lem_example = table_newkey_lem crowded 102 crowded-IsSound

abbrev keys : List ℕ
keys = 98 ∷ 100 ∷ 98 ∷ 7 ∷ []

insert_all-new_example :
    (t : Table) × (insert_all keys table_new ≡ some t)
    × ((t.capacity ≡ 1) ⊎ (t.capacity + 2 ≤ 2 * length keys))
    × ((k : ℕ) → view t k ≡ (if is_in k keys then some (non_terminator, none) else none))
insert_all-new_example = insert_all-new keys

-- ab, abc and a word that is empty
abbrev entries : List (Option (List (Option ℕ)))
entries = word (97 ∷ 98 ∷ []) ∷ word [] ∷ word (97 ∷ 98 ∷ 99 ∷ []) ∷ []

abbrev entry_words : List (List ℕ)
entry_words = (97 ∷ 98 ∷ []) ∷ [] ∷ (97 ∷ 98 ∷ 99 ∷ []) ∷ []

words_of-entries : words_of entries ≡ some entry_words
unfolding words_of word_of runes
words_of-entries = refl

dict_check-dict_open_example :
    (mem : Tables) × (dict_open entries ≡ inserted mem)
    × ((text : List ℕ) → dict_check mem text ≡ not (contains entry_words text))
dict_check-dict_open_example = dict_check-dict_open entries entry_words words_of-entries

dict_filter-dict_open_example :
    (mem : Tables) × (dict_open entries ≡ inserted mem)
    × ((text : List ℕ) → dict_filter mem text ≡ starred entry_words text)
dict_filter-dict_open_example = dict_filter-dict_open entries entry_words words_of-entries

dict_close-dict_open_example :
    (mem : Tables) × (freed : List ℕ) × (dict_open entries ≡ inserted mem)
    × (dict_close mem ≡ some freed)
    × ((a : ℕ) → occurs a freed ≡ (if ltb a (length mem) then 1 else 0))
dict_close-dict_open_example = dict_close-dict_open entries entry_words words_of-entries

-- the three tables of these words, from the last one up
closes : dict_close (tables (dict_open entries)) ≡ some (2 ∷ 1 ∷ 0 ∷ [])
unfolding tisnil tnode put_node mainposition free_from getfreenode before_from fill move_other
    link_behind place reinsert table_expand newkey_within table_newkey get_from table_get
    table_insert table_at next_table mark_end insert_from dict_insert open_words dict_open
    close_nodes close_within dict_close
closes = refl

-- a letter that is no number, behind two words
abbrev wrong : List (Option (List (Option ℕ)))
wrong = word (97 ∷ 98 ∷ []) ∷ word (98 ∷ []) ∷ some (some 97 ∷ none ∷ []) ∷ []

words_of-wrong : words_of wrong ≡ none
unfolding words_of word_of runes
words_of-wrong = refl

dict_open-refused_example : dict_open wrong ≡ refused
dict_open-refused_example = dict_open-refused wrong words_of-wrong

-- a space in the text is passed over, and the longest word is taken
contains_ab :
    (contains entry_words (120 ∷ 97 ∷ 32 ∷ 98 ∷ []) ≡ true)
    × (contains entry_words (97 ∷ 120 ∷ 98 ∷ []) ≡ false)
    × (starred entry_words (97 ∷ 32 ∷ 98 ∷ 99 ∷ 98 ∷ []) ≡ (true, 42 ∷ 42 ∷ 42 ∷ 42 ∷ 98 ∷ []))
unfolding contains begins_with begins starred starred_from longest_span span
contains_ab = (refl, refl, refl)
