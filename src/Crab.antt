-- ===== src/Crab.antt =====
-- src/lua-crab.c: the filter of forbidden words. Here are its hash tables from code points to nodes: an
-- open table whose nodes are linked by index. A link that is none is the -1 of the source. The key of a
-- node that is empty is never read. Crab.Words has the tree of tables, Crab.Filter the search in a text.
mod Tests
pub mod Chain
pub mod Newkey
pub mod View
pub mod Words
pub mod Tree
pub mod Filter
pub mod Close
use my_skynet.Prelude.{
  ℕ, zero, suc, ◌+◌, ◌-◌, ◌*◌, bit_and, List, [], ◌∷◌, Bool, true, false, Option, none, some, ◌==◌,
  if◌then◌else◌, length, get_or, set, replicate,
}

-- 'n' and 'o'
abbrev pub non_terminator : ℕ
non_terminator = 110

abbrev pub terminator : ℕ
terminator = 111

-- `value` is the address of a table.
pub record TableNode : Type 0 where
  pub key : ℕ
  pub next : Option ℕ
  pub flag : ℕ
  pub value : Option ℕ

-- `lastfree` is the number of nodes up to the one that the source points to.
pub record Table : Type 0 where
  pub capacity : ℕ
  pub node : List TableNode
  pub lastfree : ℕ

-- what `initnode` leaves
abbrev pub initnode : TableNode
initnode = record { key = 0; next = none; flag = 0; value = none }

unfoldable pub tisnil : TableNode → Bool
tisnil n = n.flag == 0

unfoldable pub tnode : Table → ℕ → TableNode
tnode t i = get_or t.node i initnode

unfoldable pub put_node : Table → ℕ → TableNode → Table
put_node t i n = record t { node = set t.node i n }

unfoldable pub mainposition : Table → ℕ → ℕ
mainposition t key = bit_and key (t.capacity - 1)

-- the loop of `getfreenode`: where `lastfree` ends, and the free node
unfoldable pub free_from : List TableNode → ℕ → ℕ × Option ℕ
free_from nodes zero = (0, none)
free_from nodes (suc i) =
    let rest = free_from nodes i in
    if tisnil (get_or nodes i initnode) then (suc i, some i) else rest

unfoldable pub getfreenode : Table → Table × Option ℕ
getfreenode t = let (last, n) = free_from t.node t.lastfree in (record t { lastfree = last }, n)

-- the loop of `table_newkey` that looks for the node in front of `mindex`: none where it would leave the
-- table
unfoldable pub before_from : ℕ → Table → ℕ → ℕ → Option ℕ
before_from zero t othern mindex = none
before_from (suc fuel) t othern mindex = elim (tnode t othern).next [
  | none ↦ none
  | some m ↦ elim (m == mindex) [ true ↦ some othern | false ↦ before_from fuel t m mindex ]
]

-- the end of `table_newkey`
unfoldable pub fill : Table → ℕ → ℕ → Table
fill t mp key = put_node t mp (record (tnode t mp) { key = key; flag = non_terminator })

-- How far `table_newkey` gets without growing.
pub data Placed : Type 0 where
  placed : Table → ℕ → Placed
  full : Table → Placed
  astray : Placed

-- the two ways out of a collision at `mp`, with the free node `n`
unfoldable pub move_other : Table → ℕ → ℕ → ℕ → Placed
move_other t mp n key = elim (before_from (length t.node) t (mainposition t (tnode t mp).key) mp) [
  | none ↦ astray
  | some othern ↦
      let linked = put_node t othern (record (tnode t othern) { next = some n }) in
      let moved = put_node (put_node linked n (tnode linked mp)) mp initnode in
      placed (fill moved mp key) mp
]

unfoldable pub link_behind : Table → ℕ → ℕ → ℕ → Placed
link_behind t mp n key =
    let linked = put_node t n (record (tnode t n) { next = (tnode t mp).next }) in
    let chained = put_node linked mp (record (tnode linked mp) { next = some n }) in
    placed (fill chained n key) n

unfoldable pub place : Table → ℕ → Placed
place t key =
    let mp = mainposition t key in
    if tisnil (tnode t mp) then placed (fill t mp key) mp else elim (getfreenode t).1 [
      | none ↦ full (getfreenode t).0
      | some n ↦
          let free = (getfreenode t).0 in
          if mainposition t (tnode t mp).key == mp
          then link_behind free mp n key
          else move_other free mp n key
    ]

-- the second loop of `table_expand`, on what is left of the old nodes
unfoldable pub reinsert : (Table → ℕ → Option (Table × ℕ)) → List TableNode → Table → Option Table
reinsert newkey [] t = some t
reinsert newkey (old ∷ olds) t =
    if tisnil old then reinsert newkey olds t else elim (newkey t old.key) [
      | none ↦ none
      | some (t', i) ↦
          reinsert newkey olds
            (put_node t' i (record (tnode t' i) { flag = old.flag; value = old.value }))
    ]

unfoldable pub table_expand : (Table → ℕ → Option (Table × ℕ)) → Table → Option Table
table_expand newkey t =
    let capacity = t.capacity * 2 in
    reinsert newkey t.node
      (record { capacity = capacity; node = replicate capacity initnode; lastfree = capacity })

-- `table_newkey`, with the depth of calls that is left
unfoldable pub newkey_within : ℕ → Table → ℕ → Option (Table × ℕ)
newkey_within zero t key = none
newkey_within (suc depth) t key = elim (place t key) [
  | placed t' i ↦ some (t', i)
  | full t' ↦ elim (table_expand (newkey_within depth) t') [
    | none ↦ none
    | some t'' ↦ newkey_within depth t'' key
  ]
  | astray ↦ none
]

unfoldable pub table_newkey : Table → ℕ → Option (Table × ℕ)
table_newkey t key = newkey_within 2 t key

unfoldable pub get_from : ℕ → Table → ℕ → ℕ → Option ℕ
get_from zero t n key = none
get_from (suc fuel) t n key =
    if tisnil (tnode t n)
    then none
    else if (tnode t n).key == key
    then some n
    else elim (tnode t n).next [ none ↦ none | some m ↦ get_from fuel t m key ]

unfoldable pub table_get : Table → ℕ → Option ℕ
table_get t key = get_from (length t.node) t (mainposition t key) key

unfoldable pub table_insert : Table → ℕ → Option (Table × ℕ)
table_insert t key = elim (table_get t key) [ some i ↦ some (t, i) | none ↦ table_newkey t key ]

abbrev pub table_new : Table
table_new = record { capacity = 1; node = initnode ∷ []; lastfree = 1 }
