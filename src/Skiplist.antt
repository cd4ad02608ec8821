-- ===== src/Skiplist.antt =====
-- src/skiplist.c: the ordered set behind the rankings, a skip list whose links count what they skip.
-- Addresses index a memory, the header stands at 0, and `malloc` gives the next address; a freed node
-- stays there with no link to it. A score, a `double`, is of any type with its two comparisons. An
-- `int64_t` is an integer, and differences of two of them fit in it. What `random()` gives is a list.
mod Tests
pub mod Query
pub mod Lua
pub mod Level
pub mod Unlink
pub mod Chain
use my_skynet.Prelude.{
  ℕ, zero, suc, ◌+◌, ◌-◌, ◌*◌, ◌%◌, ◌^◌, List, [], ◌∷◌, ◌++◌, Bool, true, false, ◌&&◌, ◌||◌, Option,
  none, some, bit_and, ◌==◌, ltb, if◌then◌else◌, length, get_or, set, take, drop, replicate,
}
use my_skynet.Prelude.Int.{ℤ, pos, eqb_ℤ, ltb_ℤ}

abbrev pub skiplist_maxlevel : ℕ
skiplist_maxlevel = 32

-- `struct skiplistLevel`
pub record SkiplistLevel : Type 0 where
  pub forward : Option ℕ
  pub span : ℕ

pub record SkiplistNode (Score : Type 0) : Type 0 where
  pub obj : ℤ
  pub score : Score
  pub backward : Option ℕ
  pub level : List SkiplistLevel

-- `skiplist`, with the memory that its nodes stand in; `size` is the field `length`
pub record Skiplist (Score : Type 0) : Type 0 where
  pub memory : List (SkiplistNode Score)
  pub tail : Option ℕ
  pub size : ℕ
  pub level : ℕ

-- `a + b` and `a - b` on `unsigned int`
unfoldable pub add32 : ℕ → ℕ → ℕ
add32 a b = (a + b) % 2 ^ 32

unfoldable pub sub32 : ℕ → ℕ → ℕ
sub32 a b = (a + 2 ^ 32 - b) % 2 ^ 32

abbrev pub no_level : SkiplistLevel
no_level = record { forward = none; span = 0 }

-- whether two addresses are the same one
unfoldable pub same_node : Option ℕ → Option ℕ → Bool
same_node none none = true
same_node none (some b) = false
same_node (some a) none = false
same_node (some a) (some b) = a == b

-- the loop of `slRandomLevel`: 16384 is the first number not below `SKIPLIST_P * 0xffff`
unfoldable pub random_from : ℕ → List ℕ → ℕ
random_from level [] = level
random_from level (random ∷ randoms) =
    let rest = random_from (level + 1) randoms in
    if ltb (bit_and random 0xffff) 16384 then rest else level

unfoldable pub random_level : List ℕ → ℕ
random_level randoms =
    let level = random_from 1 randoms in
    if ltb level skiplist_maxlevel then level else skiplist_maxlevel

module _ {Score : Type 0} (blank : Score) where
  -- `slCreate`, with the header's score 0 given
  unfoldable pub create : Skiplist Score
  create = record {
    memory =
        record {
          obj = pos 0;
          score = blank;
          backward = none;
          level = replicate skiplist_maxlevel no_level;
        }
        ∷ [];
    tail = none;
    size = 0;
    level = 1;
  }

  unfoldable pub node_at : Skiplist Score → ℕ → SkiplistNode Score
  node_at sl a =
      get_or sl.memory a (record { obj = pos 0; score = blank; backward = none; level = [] })

  unfoldable pub level_at : Skiplist Score → ℕ → ℕ → SkiplistLevel
  unfolding node_at
  level_at sl a i = get_or (node_at sl a).level i no_level

  unfoldable pub put_level : Skiplist Score → ℕ → ℕ → SkiplistLevel → Skiplist Score
  put_level sl a i l =
      let node = node_at sl a in
      record sl { memory = set sl.memory a (record node { level = set node.level i l }) }

  unfoldable pub put_backward : Skiplist Score → ℕ → Option ℕ → Skiplist Score
  put_backward sl a b = record sl {
    memory = set sl.memory a (record (node_at sl a) { backward = b });
  }

  -- The `while` that goes forward on level `i`, as long as `before` holds of the rank of the next node
  -- and of the node: where it stops, with its rank, a number below `2 ^ width`. No node is met twice, so the memory's size is fuel
  -- enough.
  unfoldable pub walk : ℕ → (ℕ → SkiplistNode Score → Bool) → ℕ → Skiplist Score → ℕ → ℕ → ℕ → ℕ × ℕ
  walk width before zero sl i x rank = (x, rank)
  walk width before (suc fuel) sl i x rank =
      let l = level_at sl x i in
      elim l.forward [
        | none ↦ (x, rank)
        | some y ↦
            let next = (rank + l.span) % 2 ^ width in
            let rest = walk width before fuel sl i y next in
            if before next (node_at sl y) then rest else (x, rank)
      ]

  -- The `for` over the levels below `n`, down to 0: `update[i]` and `rank[i]`, from level 0 up.
  unfoldable pub descend :
      ℕ → (ℕ → SkiplistNode Score → Bool) → ℕ → Skiplist Score → ℕ → ℕ → List (ℕ × ℕ)
  descend width before zero sl x rank = []
  descend width before (suc i) sl x rank =
      let at = walk width before (length sl.memory) sl i x rank in
      descend width before i sl at.0 at.1 ++ at ∷ []

  -- the loop that links the new node `x` on its levels, from `i` on
  unfoldable pub link_from : Skiplist Score → ℕ → ℕ → ℕ → List (ℕ × ℕ) → Skiplist Score
  link_from sl x rank0 i [] = sl
  link_from sl x rank0 i ((u, rank) ∷ update) =
      let l = level_at sl u i in
      let skipped = sub32 rank0 rank in
      let sl1 = put_level sl x i (record { forward = l.forward; span = sub32 l.span skipped }) in
      let sl2 = put_level sl1 u i (record { forward = some x; span = add32 skipped 1 }) in
      link_from sl2 x rank0 (i + 1) update

  -- the loop over the levels above those of the new node
  unfoldable pub bump_from : Skiplist Score → ℕ → List (ℕ × ℕ) → Skiplist Score
  bump_from sl i [] = sl
  bump_from sl i ((u, rank) ∷ update) =
      let l = level_at sl u i in
      bump_from (put_level sl u i (record l { span = add32 l.span 1 })) (i + 1) update

  -- the loop that opens `n` levels from `i` on
  unfoldable pub open_from : Skiplist Score → ℕ → ℕ → Skiplist Score
  open_from sl i zero = sl
  open_from sl i (suc n) =
      open_from (put_level sl 0 i (record (level_at sl 0 i) { span = sl.size % 2 ^ 32 })) (i + 1) n

  -- `slInsert` from the links on, with the level drawn and `update` and `rank` found
  unfoldable pub insert_at : Skiplist Score → Score → ℤ → ℕ → List (ℕ × ℕ) → Skiplist Score
  insert_at sl score obj level found =
      let more = level - sl.level in
      let sl1 = open_from sl sl.level more in
      let update = found ++ replicate more (0, 0) in
      let sl2 = record sl1 { level = if ltb sl.level level then level else sl.level } in
      let x = length sl2.memory in
      let node : SkiplistNode Score = record {
        obj = obj;
        score = score;
        backward = none;
        level = replicate level no_level;
      } in
      let sl3 = record sl2 { memory = sl2.memory ++ node ∷ [] } in
      let first = get_or update 0 (0, 0) in
      let sl4 = link_from sl3 x first.1 0 (take level update) in
      let sl5 = bump_from sl4 level (drop level update) in
      let sl6 = put_backward sl5 x (if first.0 == 0 then none else some first.0) in
      let sl7 : Skiplist Score = elim (level_at sl6 x 0).forward [
        | some y ↦ put_backward sl6 y (some x)
        | none ↦ record sl6 { tail = some x }
      ] in
      record sl7 { size = (sl7.size + 1) % 2 ^ 64 }

  -- the loop of `slDeleteNode` over the levels, from `i` on
  unfoldable pub unlink_from : Skiplist Score → ℕ → ℕ → List (ℕ × ℕ) → Skiplist Score
  unlink_from sl x i [] = sl
  unlink_from sl x i ((u, rank) ∷ update) =
      let l = level_at sl u i in
      let skip = level_at sl x i in
      let joined : SkiplistLevel = record {
        forward = skip.forward;
        span = add32 l.span (sub32 skip.span 1);
      } in
      let shorter = record l { span = sub32 l.span 1 } in
      unlink_from (put_level sl u i (if same_node l.forward (some x) then joined else shorter)) x
        (i + 1) update

  -- the `while` that lowers the level past the empty ones
  unfoldable pub lower_from : Skiplist Score → ℕ → ℕ
  lower_from sl zero = zero
  lower_from sl (suc n) =
      let rest = lower_from sl n in
      if ltb 1 (suc n) && same_node (level_at sl 0 n).forward none then rest else suc n

  -- the step of `slDeleteNode` on the backward link behind `x`, or the tail
  unfoldable pub relink : Skiplist Score → ℕ → Skiplist Score
  relink sl x =
      let back = (node_at sl x).backward in
      elim (level_at sl x 0).forward [
        | some y ↦ put_backward sl y back
        | none ↦ record sl { tail = back }
      ]

  unfoldable pub delete_node : Skiplist Score → ℕ → List (ℕ × ℕ) → Skiplist Score
  delete_node sl x update =
      let sl' = relink (unlink_from sl x 0 (take sl.level update)) x in
      record sl' { level = lower_from sl' sl'.level; size = (sl'.size + 2 ^ 64 - 1) % 2 ^ 64 }
