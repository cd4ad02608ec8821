-- ===== src/Skiplist/Unlink.antt =====
-- The links of src/skiplist.c behind a deletion: what `slDeleteNode` leaves on each level.
use my_skynet.Prelude.{
  ℕ, zero, suc, ◌+◌, ◌<◌, ◌≡◌, ◌≢◌, refl, ap, sym, ◌∙◌, arith, List, [], ◌∷◌, true, false, Option,
  none, some, ◌⊎◌, inl, inr, ◌==◌, if◌then◌else◌, length, get_or, get_or-set, get_elem?, set,
  length-set, take, Option-cases,
}
use my_skynet.Prelude.Int.{pos}
use native.Mathlib.Decide.{ℕ_discrete}
use my_skynet.Skiplist.{
  Skiplist, SkiplistNode, SkiplistLevel, no_level, add32, sub32, same_node, node_at, level_at,
  put_level, put_backward, unlink_from, relink, delete_node,
}

get_or-set_cases :
    {A : Type 0} (xs : List A) (i j : ℕ) (v d : A)
    → (get_or (set xs i v) j d ≡ get_or xs j d) ⊎ ((i ≡ j) × (get_or (set xs i v) j d ≡ v))
get_or-set_cases [] i j v d = inl refl
get_or-set_cases (x ∷ xs) zero zero v d = inr (refl, refl)
get_or-set_cases (x ∷ xs) zero (suc j) v d = inl refl
get_or-set_cases (x ∷ xs) (suc i) zero v d = inl refl
get_or-set_cases (x ∷ xs) (suc i) (suc j) v d = elim (get_or-set_cases xs i j v d) [
  | inl e ↦ inl e
  | inr (e, f) ↦ inr (ap suc e, f)
]

module _ {Score : Type 0} (blank : Score) where
  -- a node of the memory with a level `j`
  pub record HasLevel (sl : Skiplist Score) (a j : ℕ) : Type 0 where
    pub in_memory : a < length sl.memory
    pub has_level : j < length (node_at blank sl a).level

  abbrev blank_node : SkiplistNode Score
  blank_node = record { obj = pos 0; score = blank; backward = none; level = [] }

  abbrev with_level : SkiplistNode Score → ℕ → SkiplistLevel → SkiplistNode Score
  with_level node i l = record node { level = set node.level i l }

  node_at-put_level :
      (sl : Skiplist Score) (u i : ℕ) (l : SkiplistLevel) (a : ℕ)
      → (node_at blank (put_level blank sl u i l) a ≡ node_at blank sl a)
        ⊎ ((u ≡ a)
            × (node_at blank (put_level blank sl u i l) a ≡ with_level (node_at blank sl u) i l))
  unfolding node_at put_level
  node_at-put_level sl u i l a =
      get_or-set_cases sl.memory u a (with_level (node_at blank sl u) i l) _

  -- A write to one level leaves the others.
  level_at-put_level_other :
      (sl : Skiplist Score) (u i : ℕ) (l : SkiplistLevel) (a j : ℕ)
      → i ≢ j
      → level_at blank (put_level blank sl u i l) a j ≡ level_at blank sl a j
  unfolding level_at
  level_at-put_level_other sl u i l a j d = elim (node_at-put_level sl u i l a) [
    | inl e ↦ rw (level_at, e) refl
    | inr (same, e) ↦ elim (get_or-set_cases (node_at blank sl u).level i j l no_level) [
      | inl f ↦ rw (level_at, e, f, same) refl
      | inr (g, f) ↦ absurd (d g)
    ]
  ]

  written :
      (sl : Skiplist Score) (u i : ℕ) (l : SkiplistLevel)
      → u < length sl.memory
      → node_at blank (put_level blank sl u i l) u ≡ with_level (node_at blank sl u) i l
  unfolding node_at put_level
  written sl u i l h =
      let itself : (u == u) ≡ true = ground arith in
      get_or-set sl.memory u u (with_level (node_at blank sl u) i l) blank_node h ∙ rw itself refl

  -- A write to a level that there is changes that one.
  level_at-put_level :
      (sl : Skiplist Score) (u j : ℕ) (l : SkiplistLevel) (a : ℕ)
      → HasLevel sl u j
      → level_at blank (put_level blank sl u j l) a j
        ≡ (if a == u then l else level_at blank sl a j)
  unfolding level_at
  level_at-put_level sl u j l a h = elim (ℕ_discrete a u) [
    | yes same ↦
        let here : (a == u) ≡ true = ground (arith, same) in
        let inner = get_or-set (node_at blank sl u).level j j l no_level h.has_level in
        let itself : (j == j) ≡ true = ground arith in
        rw (here, same, level_at, written sl u j l h.in_memory, inner, itself) refl
    | no d ↦
        let elsewhere : (a == u) ≡ false = ground (arith, d) in
        elim (node_at-put_level sl u j l a) [
          | inl e ↦ rw (elsewhere, level_at, e) refl
          | inr (e, f) ↦ absurd (d (sym e))
        ]
  ]

  put_level-HasLevel :
      (sl : Skiplist Score) (u i : ℕ) (l : SkiplistLevel) (a j : ℕ)
      → HasLevel sl a j
      → HasLevel (put_level blank sl u i l) a j
  unfolding put_level
  put_level-HasLevel sl u i l a j h = record {
    in_memory = rw (length-set sl.memory u _) h.in_memory;
    has_level = elim (node_at-put_level sl u i l a) [
      | inl e ↦ rw e h.has_level
      | inr (same, e) ↦ rw (e, length-set (node_at blank sl u).level i l, same) h.has_level
    ];
  }

  level_at-put_backward :
      (sl : Skiplist Score) (y : ℕ) (b : Option ℕ) (a j : ℕ)
      → level_at blank (put_backward blank sl y b) a j ≡ level_at blank sl a j
  unfolding level_at node_at put_backward
  level_at-put_backward sl y b a j =
      elim (get_or-set_cases sl.memory y a (record (node_at blank sl y) { backward = b })
        blank_node) [ inl e ↦ rw e refl | inr (same, e) ↦ rw (e, same) refl ]

  level_at-tail :
      (sl : Skiplist Score) (b : Option ℕ) (a j : ℕ)
      → level_at blank (record sl { tail = b }) a j ≡ level_at blank sl a j
  unfolding level_at node_at
  level_at-tail sl b a j = refl

  level_at-relink :
      (sl : Skiplist Score) (x a j : ℕ)
      → level_at blank (relink blank sl x) a j ≡ level_at blank sl a j
  unfolding relink
  level_at-relink sl x a j = elim (Option-cases (level_at blank sl x 0).forward) [
    | inl e ↦ rw (relink, e) (level_at-tail sl (node_at blank sl x).backward a j)
    | inr (y, e) ↦ rw (relink, e) (level_at-put_backward sl y (node_at blank sl x).backward a j)
  ]

  -- what the loop of `slDeleteNode` writes to the level `j` of `u`
  abbrev pub joined : Skiplist Score → ℕ → ℕ → ℕ → SkiplistLevel
  joined sl x u j =
      let l = level_at blank sl u j in
      let skip = level_at blank sl x j in
      if same_node l.forward (some x)
      then record { forward = skip.forward; span = add32 l.span (sub32 skip.span 1) }
      else record l { span = sub32 l.span 1 }

  unlink_from-below :
      (x : ℕ) (update : List (ℕ × ℕ)) (sl : Skiplist Score) (i a j : ℕ)
      → j < i
      → level_at blank (unlink_from blank sl x i update) a j ≡ level_at blank sl a j
  unfolding unlink_from
  unlink_from-below x [] sl i a j h = refl
  unlink_from-below x ((u, rank) ∷ update) sl i a j h =
      unlink_from-below x update (put_level blank sl u i (joined sl x u i)) (i + 1) a j
        (omega (arith, h))
      ∙ level_at-put_level_other sl u i (joined sl x u i) a j (λ e. omega (arith, h, e))

  first_write :
      (x : ℕ) (update : List (ℕ × ℕ)) (sl : Skiplist Score) (u a j : ℕ)
      → HasLevel sl u j
      → level_at blank
          (unlink_from blank (put_level blank sl u j (joined sl x u j)) x (j + 1) update)
          a
          j
        ≡ (if a == u then joined sl x u j else level_at blank sl a j)
  first_write x update sl u a j h =
      unlink_from-below x update (put_level blank sl u j (joined sl x u j)) (j + 1) a j
        (omega arith)
      ∙ level_at-put_level sl u j (joined sl x u j) a h

  -- On each level, the loop changes the link of the node of `update`, where it has that level.
  unlink_from_lem :
      (x : ℕ) (update : List (ℕ × ℕ)) (sl : Skiplist Score) (i k u rank a j : ℕ)
      → get_elem? update k ≡ some (u, rank)
      → i + k ≡ j
      → HasLevel sl u j
      → level_at blank (unlink_from blank sl x i update) a j
        ≡ (if a == u then joined sl x u j else level_at blank sl a j)
  unfolding unlink_from
  unlink_from_lem x [] sl i k u rank a j e f h = absurd (ground (arith, e))
  unlink_from_lem x ((v, r) ∷ update) sl i zero u rank a j e f h =
      let same : v ≡ u = ground (arith, e) in
      let here : i ≡ j = omega (arith, f) in
      rw (unlink_from, same, here) (first_write x update sl u a j h)
  unlink_from_lem x ((v, r) ∷ update) sl i (suc k) u rank a j e f h =
      let sl1 = put_level blank sl v i (joined sl x v i) in
      let other : (b : ℕ) → level_at blank sl1 b j ≡ level_at blank sl b j =
        λ b. level_at-put_level_other sl v i (joined sl x v i) b j (λ g. omega (arith, f, g)) in
      let kept = put_level-HasLevel sl v i (joined sl x v i) u j h in
      let rest = unlink_from_lem x update sl1 (i + 1) k u rank a j e (omega (arith, f)) kept in
      rest ∙ rw (other u, other x, other a) refl

  pub level_at-delete_node :
      (sl : Skiplist Score) (x : ℕ) (update : List (ℕ × ℕ)) (u rank a j : ℕ)
      → get_elem? (take sl.level update) j ≡ some (u, rank)
      → HasLevel sl u j
      → level_at blank (delete_node blank sl x update) a j
        ≡ (if a == u then joined sl x u j else level_at blank sl a j)
  unfolding delete_node level_at node_at
  level_at-delete_node sl x update u rank a j e h =
      level_at-relink (unlink_from blank sl x 0 (take sl.level update)) x a j
      ∙ unlink_from_lem x (take sl.level update) sl 0 j u rank a j e (omega arith) h
