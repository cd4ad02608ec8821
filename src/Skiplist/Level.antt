-- ===== src/Skiplist/Level.antt =====
-- The levels of src/skiplist.c: which are drawn, and to which a deletion lowers the list.
use my_skynet.Prelude.{
  ℕ, zero, suc, ◌+◌, ◌-◌, ◌≤◌, ◌<◌, ◌≡◌, ◌≢◌, refl, arith, List, [], ◌∷◌, none, some, ◌⊎◌, inl, inr,
  lt→ltb, ◌∙◌, Option-cases, take,
}
use native.Mathlib.Decide.{ℕ_discrete}
use my_skynet.Skiplist.{
  Skiplist, skiplist_maxlevel, same_node, random_from, random_level, node_at, level_at, put_level,
  put_backward, unlink_from, lower_from, relink, delete_node,
}

random_from-ge : (level : ℕ) (randoms : List ℕ) → level ≤ random_from level randoms
unfolding random_from
random_from-ge level [] = omega arith
random_from-ge level (random ∷ randoms) = ground (arith, random_from-ge (level + 1) randoms)

-- Every level drawn is between 1 and 32, whatever the random numbers are.
pub random_level_bounds :
    (randoms : List ℕ) → (1 ≤ random_level randoms) × (random_level randoms ≤ skiplist_maxlevel)
unfolding random_level
random_level_bounds randoms =
    (ground (arith, random_from-ge 1 randoms), ground (arith, random_from-ge 1 randoms))

module _ {Score : Type 0} (blank : Score) where
  -- A list whose level was `n` and is now `r`: one of the levels up to `n`, above which the header has no
  -- link, and the lowest or one where it has.
  pub record Lowered (sl : Skiplist Score) (n r : ℕ) : Type 0 where
    pub some_level : 1 ≤ r
    pub not_above : r ≤ n
    pub empty : (i : ℕ) → r ≤ i → i < n → (level_at blank sl 0 i).forward ≡ none
    pub needed : (r ≡ 1) ⊎ ((level_at blank sl 0 (r - 1)).forward ≢ none)

  lower_past :
      (sl : Skiplist Score) (n : ℕ)
      → (level_at blank sl 0 (suc n)).forward ≡ none
      → lower_from blank sl (suc (suc n)) ≡ lower_from blank sl (suc n)
  unfolding lower_from same_node
  lower_past sl n e = rw (e, same_node, lt→ltb 1 (suc (suc n)) (omega arith)) refl

  lower_stays :
      (sl : Skiplist Score) (n x : ℕ)
      → (level_at blank sl 0 (suc n)).forward ≡ some x
      → lower_from blank sl (suc (suc n)) ≡ suc (suc n)
  unfolding lower_from same_node
  lower_stays sl n x e = rw (e, same_node, lt→ltb 1 (suc (suc n)) (omega arith)) refl

  lower_from-Lowered : (sl : Skiplist Score) (n : ℕ) → 1 ≤ n → Lowered sl n (lower_from blank sl n)
  lower_from-Lowered sl zero h = absurd (omega (arith, h))
  lower_from-Lowered sl (suc zero) h =
      unfold lower_from in
      record {
        some_level = omega arith;
        not_above = omega arith;
        empty = λ i a b. absurd (omega (arith, a, b));
        needed = inl refl;
      }
  lower_from-Lowered sl (suc (suc n)) h =
      let rest = lower_from-Lowered sl (suc n) (omega arith) in
      elim (Option-cases (level_at blank sl 0 (suc n)).forward) [
        | inl e ↦ rw (lower_past sl n e) (record {
          some_level = rest.some_level;
          not_above = omega (arith, rest.not_above);
          empty = λ i a b. elim (ℕ_discrete i (suc n)) [
            | yes same ↦ rw same e
            | no d ↦ rest.empty i a (omega arith)
          ];
          needed = rest.needed;
        })
        | inr (x, e) ↦ rw (lower_stays sl n x e) (record {
          some_level = omega arith;
          not_above = omega arith;
          empty = λ i a b. absurd (omega (arith, a, b));
          needed = inr (λ none_left. ground (arith, none_left, e));
        })
      ]

  unlink_from-level :
      (x : ℕ) (update : List (ℕ × ℕ)) (sl : Skiplist Score) (i : ℕ)
      → (unlink_from blank sl x i update).level ≡ sl.level
  unfolding unlink_from put_level
  unlink_from-level x [] sl i = refl
  unlink_from-level x (u ∷ update) sl i = unlink_from-level x update _ (i + 1)

  relink-level : (sl : Skiplist Score) (x : ℕ) → (relink blank sl x).level ≡ sl.level
  unfolding relink put_backward
  relink-level sl x = ground arith

  -- From a level of at least 1, a deletion lowers the level of the list past exactly the top levels on
  -- which the header has no link left, and never below 1.
  pub delete_node-Lowered :
      (sl : Skiplist Score) (x : ℕ) (update : List (ℕ × ℕ))
      → 1 ≤ sl.level
      → Lowered (delete_node blank sl x update) sl.level (delete_node blank sl x update).level
  unfolding delete_node level_at node_at
  delete_node-Lowered sl x update h =
      let unlinked = unlink_from blank sl x 0 (take sl.level update) in
      let lowered = relink blank unlinked x in
      let same = relink-level unlinked x ∙ unlink_from-level x (take sl.level update) sl 0 in
      let rest = lower_from-Lowered lowered lowered.level (omega (arith, h, same)) in
      record {
        some_level = rest.some_level;
        not_above = omega (arith, rest.not_above, same);
        empty = λ i a b. rest.empty i a (omega (arith, b, same));
        needed = rest.needed;
      }
