-- ===== src/Skiplist/Tests.antt =====
-- Tests of Skiplist.
use my_skynet.Prelude.{ℕ, zero, suc, ◌<◌, ◌≡◌, refl, List, [], ◌∷◌, none, some, ◌==◌, ltb, arith}
use my_skynet.Prelude.Int.{pos}
use my_skynet.Skiplist.{
  Skiplist, add32, sub32, same_node, random_from, random_level, create, node_at, level_at,
  put_level, put_backward, walk, descend, link_from, bump_from, open_from, insert_at, unlink_from,
  lower_from, relink, delete_node,
}
use my_skynet.Skiplist.Level.{Lowered}
use my_skynet.Skiplist.Chain.{remove, before, IsChain, Leads, delete_node_lem}
use my_skynet.Skiplist.Query.{
  stands_before, stands_upto, insert, behind, delete, delete_from, delete_by_rank, rank_from,
  get_rank, by_rank_from, get_node_by_rank, is_in_range, first_in_range, last_in_range,
}
use my_skynet.Skiplist.Lua.{
  lua_delete_by_rank, lua_get_rank, next_node, collect, rank_range, get_rank_range, score_from,
  get_score_range,
}

-- scores 10, 20, 20, 30 of the objects 1, 2, 3, 0, on one, three, one and two levels
unfoldable sample : Skiplist ℕ
unfolding create insert insert_at random_level random_from descend walk stands_before node_at
    level_at put_level put_backward link_from bump_from open_from add32 sub32
sample =
    let add = insert 0 ltb ◌==◌ in
    let three = add (create 0) 20 (pos 3) (65535 ∷ []) in
    let two = add three 20 (pos 2) (5 ∷ 6 ∷ 65535 ∷ []) in
    let none_yet = add two 30 (pos 0) (7 ∷ 65535 ∷ []) in add none_yet 10 (pos 1) (65535 ∷ [])

in_order : get_rank_range 0 ltb ◌==◌ sample 1 4 ≡ pos 1 ∷ pos 2 ∷ pos 3 ∷ pos 0 ∷ []
unfolding sample get_rank_range rank_range collect next_node get_node_by_rank by_rank_from walk
    node_at level_at
in_order = refl

backward_order : get_rank_range 0 ltb ◌==◌ sample 3 2 ≡ pos 3 ∷ pos 2 ∷ []
unfolding sample get_rank_range rank_range collect next_node get_node_by_rank by_rank_from walk
    node_at level_at
backward_order = refl

rank_of_three : lua_get_rank 0 ltb ◌==◌ sample 20 (pos 3) ≡ some 3
unfolding sample lua_get_rank get_rank rank_from stands_upto walk node_at level_at
rank_of_three = refl

-- The object 0 stands in the list and has no rank.
no_rank_of_zero : lua_get_rank 0 ltb ◌==◌ sample 30 (pos 0) ≡ none
unfolding sample lua_get_rank get_rank rank_from stands_upto walk node_at level_at
no_rank_of_zero = refl

scores_between : get_score_range 0 ltb ◌==◌ sample 15 25 ≡ pos 2 ∷ pos 3 ∷ []
unfolding sample get_score_range score_from next_node first_in_range last_in_range is_in_range
    behind descend walk node_at level_at
scores_between = refl

scores_down : get_score_range 0 ltb ◌==◌ sample 25 5 ≡ pos 3 ∷ pos 2 ∷ pos 1 ∷ []
unfolding sample get_score_range score_from next_node first_in_range last_in_range is_in_range
    behind descend walk node_at level_at
scores_down = refl

without_two :
    get_rank_range 0 ltb ◌==◌ (delete 0 ltb ◌==◌ sample 20 (pos 2)).0 1 9
    ≡ pos 1 ∷ pos 3 ∷ pos 0 ∷ []
unfolding sample get_rank_range rank_range collect next_node get_node_by_rank by_rank_from walk
    node_at level_at delete behind descend stands_before delete_node unlink_from relink lower_from
    same_node put_level put_backward add32 sub32
without_two = refl

middle_deleted : (lua_delete_by_rank 0 ltb ◌==◌ sample 3 2).1 ≡ pos 2 ∷ pos 3 ∷ []
unfolding sample lua_delete_by_rank delete_by_rank delete_from behind descend walk stands_before
    delete_node unlink_from relink lower_from same_node put_level put_backward add32 sub32 node_at
    level_at
middle_deleted = refl

-- what `delete` finds on the way to the object 2
abbrev crossed : List (ℕ × ℕ)
crossed = (4, 1) ∷ (0, 0) ∷ (0, 0) ∷ []

crossed_found : descend 0 64 (stands_before 0 ltb ◌==◌ 20 (pos 2)) sample.level sample 0 0 ≡ crossed
unfolding sample descend walk stands_before node_at level_at
crossed_found = refl

-- the nodes on each level: that of the object 2 is 2
abbrev chains : ℕ → List ℕ
chains zero = 4 ∷ 2 ∷ 1 ∷ 3 ∷ []
chains (suc zero) = 2 ∷ 3 ∷ []
chains (suc (suc j)) = 2 ∷ []

sample-Leads : (j : ℕ) → j < sample.level → Leads 0 sample 2 crossed j (chains j)
unfolding sample level_at node_at before
sample-Leads zero h = record {
  chain = (refl, (refl, (refl, (refl, refl))));
  node = 4;
  rank = 1;
  found = refl;
  has_level = record { in_memory = omega arith; has_level = omega arith };
  in_front = λ v e. ground (arith, e);
}
sample-Leads (suc zero) h = record {
  chain = (refl, (refl, refl));
  node = 0;
  rank = 0;
  found = refl;
  has_level = record { in_memory = omega arith; has_level = omega arith };
  in_front = λ v e. ground (arith, e);
}
sample-Leads (suc (suc zero)) h = record {
  chain = (refl, refl);
  node = 0;
  rank = 0;
  found = refl;
  has_level = record { in_memory = omega arith; has_level = omega arith };
  in_front = λ v e. ground (arith, e);
}
sample-Leads (suc (suc (suc j))) h = absurd (omega (arith, h))

delete_node_lem_example :
    ((j : ℕ)
      → j < sample.level
      → IsChain 0 (delete_node 0 sample 2 crossed) j 0 (remove 2 (chains j)))
    × Lowered 0 (delete_node 0 sample 2 crossed) sample.level (delete_node 0 sample 2 crossed).level
delete_node_lem_example =
    delete_node_lem 0 sample 2 crossed chains (unfold sample in omega arith) sample-Leads
