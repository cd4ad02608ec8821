-- ===== src/Skiplist/Lua.antt =====
-- The functions of src/lua-skiplist.c, behind the checks of their arguments.
use my_skynet.Prelude.{
  ℕ, zero, suc, ◌+◌, ◌-◌, List, [], ◌∷◌, map, Bool, true, false, ◌||◌, Option, none, some, ◌==◌,
  ltb, if◌then◌else◌, length,
}
use my_skynet.Prelude.Int.{ℤ}
use my_skynet.Skiplist.{Skiplist, node_at, level_at}
use my_skynet.Skiplist.Query.{
  delete_by_rank, get_rank, get_node_by_rank, first_in_range, last_in_range,
}

module _ {Score : Type 0} (blank : Score) (lt eq : Score → Score → Bool) where
  -- `_delete_by_rank`, for ranks that fit in 32 bits: the bounds in either order
  unfoldable pub lua_delete_by_rank : Skiplist Score → ℕ → ℕ → Skiplist Score × List ℤ
  lua_delete_by_rank sl start last =
      if ltb last start
      then delete_by_rank blank lt eq sl last start
      else delete_by_rank blank lt eq sl start last

  -- `_get_rank`: none where nothing is returned
  unfoldable pub lua_get_rank : Skiplist Score → Score → ℤ → Option ℕ
  lua_get_rank sl score obj =
      let rank = get_rank blank lt eq sl score obj in if rank == 0 then none else some rank

  unfoldable pub next_node : Skiplist Score → Bool → ℕ → Option ℕ
  next_node sl reverse x =
      if reverse then (node_at blank sl x).backward else (level_at blank sl x 0).forward

  -- at most `n` addresses from one on
  unfoldable pub collect : Skiplist Score → Bool → ℕ → Option ℕ → List ℕ
  collect sl reverse n none = []
  collect sl reverse zero (some x) = []
  collect sl reverse (suc n) (some x) = x ∷ collect sl reverse n (next_node sl reverse x)

  -- the addresses that `_get_rank_range` goes through, for ranks whose difference fits in an `int`
  unfoldable pub rank_range : Skiplist Score → ℕ → ℕ → List ℕ
  rank_range sl r1 r2 =
      let reverse = ltb r2 r1 in
      let rangelen = if reverse then r1 - r2 + 1 else r2 - r1 + 1 in
      collect sl reverse rangelen (get_node_by_rank blank lt eq sl r1)

  unfoldable pub get_rank_range : Skiplist Score → ℕ → ℕ → List ℤ
  get_rank_range sl r1 r2 = map (λ x. (node_at blank sl x).obj) (rank_range sl r1 r2)

  unfoldable pub get_rank_score_range : Skiplist Score → ℕ → ℕ → List (ℤ × Score)
  get_rank_score_range sl r1 r2 =
      map (λ x. ((node_at blank sl x).obj, (node_at blank sl x).score)) (rank_range sl r1 r2)

  -- the `while` of `_get_score_range`; no node is met twice, so the memory's size is fuel enough
  unfoldable pub score_from : ℕ → Skiplist Score → Bool → Score → Option ℕ → List ℤ
  score_from fuel sl reverse s2 none = []
  score_from zero sl reverse s2 (some x) = []
  score_from (suc fuel) sl reverse s2 (some x) =
      let node = node_at blank sl x in
      let rest = score_from fuel sl reverse s2 (next_node sl reverse x) in
      if (if reverse then lt node.score s2 else lt s2 node.score) then [] else node.obj ∷ rest

  unfoldable pub get_score_range : Skiplist Score → Score → Score → List ℤ
  get_score_range sl s1 s2 =
      let fuel = length sl.memory in
      if lt s1 s2 || eq s1 s2
      then score_from fuel sl false s2 (first_in_range blank lt eq sl s1 s2)
      else score_from fuel sl true s2 (last_in_range blank lt eq sl s2 s1)
