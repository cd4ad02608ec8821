-- ===== src/Crab/Close.antt =====
-- The release of a dictionary of src/lua-crab.c: the addresses of the tables, in the order in which they are freed.
pub mod Label
pub mod Nodes
pub mod Once
use my_skynet.Prelude.{
  ℕ, zero, suc, List, [], ◌∷◌, ◌++◌, Bool, Option, none, some, if◌then◌else◌, length,
}
use my_skynet.Crab.{TableNode, tisnil}
use my_skynet.Crab.Words.{Tables, table_at}

-- the loop of `_dict_close`, on what is left of the nodes; nothing is freed behind NULL
unfoldable pub close_nodes : (ℕ → Option (List ℕ)) → List TableNode → Option (List ℕ)
close_nodes close [] = some []
close_nodes close (n ∷ nodes) =
    let rest = close_nodes close nodes in
    if tisnil n then rest else elim n.value [
      | none ↦ rest
      | some b ↦ elim (close b) [
        | none ↦ none
        | some freed ↦ elim rest [ none ↦ none | some others ↦ some (freed ++ others) ]
      ]
    ]

-- `_dict_close`, with the depth of calls that is left
unfoldable pub close_within : ℕ → Tables → ℕ → Option (List ℕ)
close_within zero mem a = none
close_within (suc depth) mem a = elim (close_nodes (close_within depth mem) (table_at mem a).node) [
  | none ↦ none
  | some freed ↦ some (freed ++ a ∷ [])
]

unfoldable pub dict_close : Tables → Option (List ℕ)
dict_close mem = close_within (length mem) mem 0
