-- ===== src/Crab/Words.antt =====
-- The tree of tables that src/lua-crab.c makes of a list of words. Tables are in a memory, by address; the
-- dictionary is the one at 0. An entry of a word is the 64 bits of a Lua integer, or none for another value.
use my_skynet.Prelude.{ℕ, ◌%◌, List, [], ◌∷◌, ◌++◌, Option, none, some, length, get_or, set}
use my_skynet.Crab.{Table, tnode, put_node, table_insert, table_new, terminator}

abbrev pub Tables : Type 0
Tables = List Table

-- the conversion to `uint32_t`
abbrev pub to_rune : ℕ → ℕ
to_rune c = c % 4294967296

unfoldable pub table_at : Tables → ℕ → Table
table_at mem a = get_or mem a table_new

-- the table for the next code point, behind a node or the dictionary itself
unfoldable pub next_table : Tables → Option (ℕ × ℕ) → Tables × ℕ
next_table mem none = (mem, 0)
next_table mem (some (a, i)) =
    let t = table_at mem a in
    elim (tnode t i).value [
      | some v ↦ (mem, v)
      | none ↦ (
        set mem a (put_node t i (record (tnode t i) { value = some (length mem) }))
            ++ table_new ∷ [],
        length mem,
      )
    ]

-- what `_dict_insert` ends in
pub data Inserted : Type 0 where
  inserted : Tables → Inserted
  refused : Inserted
  stuck : Inserted

unfoldable pub mark_end : Tables → Option (ℕ × ℕ) → Tables
mark_end mem none = mem
mark_end mem (some (a, i)) =
    let t = table_at mem a in set mem a (put_node t i (record (tnode t i) { flag = terminator }))

-- the loop, at a node
unfoldable pub insert_from : Tables → Option (ℕ × ℕ) → List (Option ℕ) → Inserted
insert_from mem from [] = inserted (mark_end mem from)
insert_from mem from (none ∷ word) = refused
insert_from mem from (some c ∷ word) =
    let (mem', tmp) = next_table mem from in
    elim (table_insert (table_at mem' tmp) (to_rune c)) [
      | none ↦ stuck
      | some (t, i) ↦ insert_from (set mem' tmp t) (some (tmp, i)) word
    ]

-- `_dict_insert`, on a table of Lua or another value
unfoldable pub dict_insert : Tables → Option (List (Option ℕ)) → Inserted
dict_insert mem none = refused
dict_insert mem (some word) = insert_from mem none word

-- the loop of `dict_open`
unfoldable pub open_words : Tables → List (Option (List (Option ℕ))) → Inserted
open_words mem [] = inserted mem
open_words mem (word ∷ words) = elim (dict_insert mem word) [
  | inserted mem' ↦ open_words mem' words
  | refused ↦ refused
  | stuck ↦ stuck
]

unfoldable pub dict_open : List (Option (List (Option ℕ))) → Inserted
dict_open words = open_words (table_new ∷ []) words
