-- ===== src/Crab/Filter.antt =====
-- The search of src/lua-crab.c for words in a text, a list of the 64 bits of Lua integers.
pub mod Search
pub mod Clean
use my_skynet.Prelude.{
  ℕ, zero, suc, ◌+◌, List, [], ◌∷◌, Bool, true, false, ◌||◌, not, Option, none, some, ◌==◌,
  if◌then◌else◌,
}
use my_skynet.Crab.{TableNode, Table, tnode, table_get, terminator}
use my_skynet.Crab.Words.{Tables, to_rune, table_at}

-- ' ' and '*'
abbrev pub space : ℕ
space = 32

abbrev pub star : ℕ
star = 42

-- `table_get` on the table at an address, with the node that it points to
unfoldable pub get_node : Tables → ℕ → ℕ → Option TableNode
get_node mem a rune = elim (table_get (table_at mem a) rune) [
  | none ↦ none
  | some i ↦ some (tnode (table_at mem a) i)
]

-- the address of the table behind a node, if there is one
unfoldable pub behind : Option TableNode → Option ℕ
behind none = none
behind (some n) = n.value

-- A node was found, and a word ends at it.
unfoldable pub ends_word : Option TableNode → Bool
ends_word none = false
ends_word (some n) = n.flag == terminator

-- The inner loop of `dict_filter`, in the table at `a`, with `j - i` and `step`.
unfoldable pub longest : Tables → ℕ → ℕ → ℕ → List ℕ → ℕ
longest mem a k step [] = step
longest mem a k step (c ∷ text) = elim (to_rune c == space) [
  | true ↦ longest mem a (k + 1) step text
  | false ↦
      let node = get_node mem a (to_rune c) in
      let step' = if ends_word node then k + 1 else step in
      elim (behind node) [ none ↦ step' | some b ↦ longest mem b (k + 1) step' text ]
]

-- The outer loop, with the number of stars that the last step has still to write: whether it found a word,
-- and the text.
unfoldable pub filter_from : Tables → ℕ → List ℕ → Bool × List ℕ
filter_from mem todo [] = (false, [])
filter_from mem (suc todo) (c ∷ text) =
    let rest = filter_from mem todo text in (rest.0, star ∷ rest.1)
filter_from mem zero (c ∷ text) = elim (longest mem 0 0 0 (c ∷ text)) [
  | zero ↦ let rest = filter_from mem 0 text in (rest.0, c ∷ rest.1)
  | suc n ↦ let rest = filter_from mem n text in (true, star ∷ rest.1)
]

unfoldable pub dict_filter : Tables → List ℕ → Bool × List ℕ
dict_filter mem text = filter_from mem 0 text

-- The inner loop of `dict_check`: whether it finds a word.
unfoldable pub finds : Tables → ℕ → List ℕ → Bool
finds mem a [] = false
finds mem a (c ∷ text) = elim (to_rune c == space) [
  | true ↦ finds mem a text
  | false ↦
      let node = get_node mem a (to_rune c) in
      let rest : Bool = elim (behind node) [ none ↦ false | some b ↦ finds mem b text ] in
      if ends_word node then true else rest
]

unfoldable pub check_from : Tables → List ℕ → Bool
check_from mem [] = false
check_from mem (c ∷ text) = let rest = check_from mem text in finds mem 0 (c ∷ text) || rest

unfoldable pub dict_check : Tables → List ℕ → Bool
dict_check mem text = not (check_from mem text)
