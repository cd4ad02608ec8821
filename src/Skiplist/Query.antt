-- ===== src/Skiplist/Query.antt =====
-- Insertion, deletion and the queries of src/skiplist.c, over the two comparisons of scores.
use my_skynet.Prelude.{
  ℕ, zero, suc, ◌+◌, List, [], ◌∷◌, Bool, false, not, ◌&&◌, ◌||◌, Option, none, some, ◌==◌, ltb,
  leb, if◌then◌else◌, length, get_or,
}
use my_skynet.Prelude.Int.{ℤ, pos, eqb_ℤ, ltb_ℤ}
use my_skynet.Skiplist.{
  SkiplistNode, Skiplist, random_level, node_at, level_at, walk, descend, insert_at, delete_node,
}

module _ {Score : Type 0} (blank : Score) (lt eq : Score → Score → Bool) where
  -- the conditions of the loops that look for a score and an object
  unfoldable pub stands_before : Score → ℤ → ℕ → SkiplistNode Score → Bool
  stands_before score obj rank node =
      lt node.score score || (eq node.score score && ltb_ℤ node.obj obj)

  unfoldable pub stands_upto : Score → ℤ → ℕ → SkiplistNode Score → Bool
  stands_upto score obj rank node =
      lt node.score score || (eq node.score score && not (ltb_ℤ obj node.obj))

  unfoldable pub insert : Skiplist Score → Score → ℤ → List ℕ → Skiplist Score
  insert sl score obj randoms =
      insert_at blank sl score obj (random_level randoms)
        (descend blank 32 (stands_before score obj) sl.level sl 0 0)

  -- the address behind the one where a descent stops on level 0
  unfoldable pub behind : Skiplist Score → List (ℕ × ℕ) → Option ℕ
  behind sl update = (level_at blank sl (get_or update 0 (0, 0)).0 0).forward

  unfoldable pub delete : Skiplist Score → Score → ℤ → Skiplist Score × ℕ
  delete sl score obj =
      let update = descend blank 64 (stands_before score obj) sl.level sl 0 0 in
      elim (behind sl update) [
        | none ↦ (sl, 0)
        | some x ↦
            let node = node_at blank sl x in
            if eq score node.score && eqb_ℤ node.obj obj
            then (delete_node blank sl x update, 1)
            else (sl, 0)
      ]

  -- the `while` of `slDeleteByRank`: the list and the objects that the callback is given, in order
  unfoldable pub delete_from :
      ℕ → Skiplist Score → Option ℕ → ℕ → ℕ → List (ℕ × ℕ) → Skiplist Score × List ℤ
  delete_from fuel sl none traversed last update = (sl, [])
  delete_from zero sl (some x) traversed last update = (sl, [])
  delete_from (suc fuel) sl (some x) traversed last update =
      let next = (level_at blank sl x 0).forward in
      let rest =
        delete_from fuel (delete_node blank sl x update) next (traversed + 1) last update in
      if leb traversed last then (rest.0, (node_at blank sl x).obj ∷ rest.1) else (sl, [])

  -- `slDeleteByRank` returns the number of these objects.
  unfoldable pub delete_by_rank : Skiplist Score → ℕ → ℕ → Skiplist Score × List ℤ
  delete_by_rank sl start last =
      let update = descend blank 64 (λ traversed node. ltb traversed start) sl.level sl 0 0 in
      delete_from (length sl.memory) sl (behind sl update) ((get_or update 0 (0, 0)).1 + 1) last
        update

  -- the `for` of `slGetRank`, below level `n`
  unfoldable pub rank_from : ℕ → Skiplist Score → Score → ℤ → ℕ → ℕ → ℕ
  rank_from zero sl score o x rank = 0
  rank_from (suc i) sl score o x rank =
      let at = walk blank 64 (stands_upto score o) (length sl.memory) sl i x rank in
      let rest = rank_from i sl score o at.0 at.1 in
      let obj = (node_at blank sl at.0).obj in
      if not (eqb_ℤ obj (pos 0)) && eqb_ℤ obj o then at.1 else rest

  unfoldable pub get_rank : Skiplist Score → Score → ℤ → ℕ
  get_rank sl score o = rank_from sl.level sl score o 0 0

  -- the `for` of `slGetNodeByRank`, below level `n`
  unfoldable pub by_rank_from : ℕ → Skiplist Score → ℕ → ℕ → ℕ → Option ℕ
  by_rank_from zero sl rank x traversed = none
  by_rank_from (suc i) sl rank x traversed =
      let at = walk blank 64 (λ next node. leb next rank) (length sl.memory) sl i x traversed in
      let rest = by_rank_from i sl rank at.0 at.1 in if at.1 == rank then some at.0 else rest

  unfoldable pub get_node_by_rank : Skiplist Score → ℕ → Option ℕ
  get_node_by_rank sl rank =
      let at = by_rank_from sl.level sl rank 0 0 in
      if rank == 0 || ltb sl.size rank then none else at

  unfoldable pub is_in_range : Skiplist Score → Score → Score → Bool
  is_in_range sl min max =
      let starts : Bool = elim (level_at blank sl 0 0).forward [
        | none ↦ false
        | some x ↦ not (lt max (node_at blank sl x).score)
      ] in
      let ends : Bool = elim sl.tail [
        | none ↦ false
        | some x ↦ not (lt (node_at blank sl x).score min)
      ] in
      if lt max min then false else ends && starts

  unfoldable pub first_in_range : Skiplist Score → Score → Score → Option ℕ
  first_in_range sl min max =
      if is_in_range sl min max
      then behind sl (descend blank 64 (λ rank node. lt node.score min) sl.level sl 0 0)
      else none

  unfoldable pub last_in_range : Skiplist Score → Score → Score → Option ℕ
  last_in_range sl min max =
      let within =
        λ (rank : ℕ) (node : SkiplistNode Score). lt node.score max || eq node.score max in
      if is_in_range sl min max
      then some (get_or (descend blank 64 within sl.level sl 0 0) 0 (0, 0)).0
      else none
