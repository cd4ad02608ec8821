-- ===== src/Skiplist/Chain.antt =====
-- The chains of src/skiplist.c behind a deletion: on each level, the nodes that the links lead over.
use my_skynet.Prelude.{
  ℕ, zero, suc, ◌≤◌, ◌<◌, ◌≡◌, ◌≢◌, refl, ap, sym, ◌∙◌, arith, List, [], ◌∷◌, true, false, Option,
  none, some, inl, inr, Option-cases, ◌==◌, if◌then◌else◌, length, get_elem?, take,
}
use native.Mathlib.Decide.{ℕ_discrete}
use my_skynet.Skiplist.{Skiplist, same_node, level_at, delete_node}
use my_skynet.Skiplist.Level.{Lowered, delete_node-Lowered}
use my_skynet.Skiplist.Unlink.{HasLevel, joined, level_at-delete_node}

-- the nodes but for `x`
unfoldable pub remove : ℕ → List ℕ → List ℕ
remove x [] = []
remove x (z ∷ zs) = let rest = remove x zs in if z == x then rest else z ∷ rest

-- the node in front of `x`, on the way over the nodes behind `a`
unfoldable pub before : ℕ → ℕ → List ℕ → Option ℕ
before x a [] = none
before x a (z ∷ zs) = let rest = before x z zs in if z == x then some a else rest

get_elem?-take :
    {A : Type 0} (xs : List A) (n i : ℕ) → i < n → get_elem? (take n xs) i ≡ get_elem? xs i
get_elem?-take [] zero i h = absurd (omega (arith, h))
get_elem?-take [] (suc n) i h = refl
get_elem?-take (x ∷ xs) zero i h = absurd (omega (arith, h))
get_elem?-take (x ∷ xs) (suc n) zero h = refl
get_elem?-take (x ∷ xs) (suc n) (suc i) h = get_elem?-take xs n i (omega (arith, h))

remove_absent : (x a : ℕ) (zs : List ℕ) → before x a zs ≡ none → remove x zs ≡ zs
unfolding remove before
remove_absent x a [] e = refl
remove_absent x a (z ∷ zs) e = elim (ℕ_discrete z x) [
  | yes same ↦ absurd (ground (arith, e, same))
  | no d ↦ ground (arith, e, d, remove_absent x z zs)
]

same_node_self : (x : ℕ) → same_node (some x) (some x) ≡ true
unfolding same_node
same_node_self x = ground arith

same_node_other : (o : Option ℕ) (x : ℕ) → o ≢ some x → same_node o (some x) ≡ false
unfolding same_node
same_node_other none x d = refl
same_node_other (some y) x d = ground (arith, λ (e : y ≡ x). d (ap some e))

module _ {Score : Type 0} (blank : Score) where
  -- The links on level `j` from a node on lead over these nodes and end.
  abbrev pub IsChain : Skiplist Score → ℕ → ℕ → List ℕ → Type 0
  IsChain sl j a [] = (level_at blank sl a j).forward ≡ none
  IsChain sl j a (y ∷ ys) = ((level_at blank sl a j).forward ≡ some y) × IsChain sl j y ys

  chain_unique :
      (sl : Skiplist Score) (j a : ℕ) (ys zs : List ℕ)
      → IsChain sl j a ys
      → IsChain sl j a zs
      → length ys ≡ length zs
  chain_unique sl j a [] [] e f = refl
  chain_unique sl j a [] (z ∷ zs) e f = absurd (ground (arith, sym e ∙ f.0))
  chain_unique sl j a (y ∷ ys) [] e f = absurd (ground (arith, sym f ∙ e.0))
  chain_unique sl j a (y ∷ ys) (z ∷ zs) e f =
      let same : y ≡ z = ground (arith, sym e.0 ∙ f.0) in
      ap suc (chain_unique sl j z ys zs (rw (← same) e.1) f.1)

  -- the chain behind `x`, where a chain leads over it
  IsChain-behind :
      (sl : Skiplist Score) (x j a v : ℕ) (ys : List ℕ)
      → IsChain sl j a ys
      → before x a ys ≡ some v
      → (zs : List ℕ) × IsChain sl j x zs × (length zs < length ys)
  unfolding before
  IsChain-behind sl x j a v [] c e = absurd (ground (arith, e))
  IsChain-behind sl x j a v (y ∷ ys) c e = elim (ℕ_discrete y x) [
    | yes same ↦ (ys, rw (← same) c.1, omega arith)
    | no d ↦
        let (zs, behind, shorter) = IsChain-behind sl x j y v ys c.1 (ground (arith, e, d)) in
        (zs, behind, omega (arith, shorter))
  ]

  -- A chain does not come back to the node it starts at.
  no_return :
      (sl : Skiplist Score) (x j : ℕ) (ys : List ℕ) → IsChain sl j x ys → before x x ys ≡ none
  no_return sl x j ys c = elim (Option-cases (before x x ys)) [
    | inl e ↦ e
    | inr (v, e) ↦
        let (zs, behind, shorter) = IsChain-behind sl x j x v ys c e in
        absurd (omega (arith, shorter, chain_unique sl j x ys zs c behind))
  ]

  -- What a deletion finds on a level: the chain, and in `update` a node that has the level, which is the
  -- one in front of `x` where the chain leads over `x`.
  pub record Leads (sl : Skiplist Score) (x : ℕ) (update : List (ℕ × ℕ)) (j : ℕ) (nodes : List ℕ)
      : Type 0 where
    pub chain : IsChain sl j 0 nodes
    pub node : ℕ
    pub rank : ℕ
    pub found : get_elem? update j ≡ some (node, rank)
    pub has_level : HasLevel blank sl node j
    pub in_front : (v : ℕ) → before x 0 nodes ≡ some v → v ≡ node

  module _ (sl sl' : Skiplist Score) (x u j : ℕ)
      (kept : (a : ℕ)
        → (level_at blank sl a j).forward ≢ some x
        → (level_at blank sl' a j).forward ≡ (level_at blank sl a j).forward)
      (skips : (level_at blank sl u j).forward ≡ some x
        → (level_at blank sl' u j).forward ≡ (level_at blank sl x j).forward) where
    unchanged :
        (a : ℕ) (zs : List ℕ) → IsChain sl j a zs → before x a zs ≡ none → IsChain sl' j a zs
    unfolding before
    unchanged a [] c e = kept a (λ f. ground (arith, sym c ∙ f)) ∙ c
    unchanged a (z ∷ zs) c e =
        let d : z ≢ x = λ same. ground (arith, e, same) in
        (
          kept a (λ f. d (ground (arith, sym c.0 ∙ f))) ∙ c.0,
          unchanged z zs c.1 (ground (arith, e, d)),
        )

    past :
        (zs : List ℕ)
        → (level_at blank sl u j).forward ≡ some x
        → IsChain sl j x zs
        → before x x zs ≡ none
        → IsChain sl' j u zs
    unfolding before
    past [] e c f = skips e ∙ c
    past (z ∷ zs) e c f =
        let d : z ≢ x = λ same. ground (arith, f, same) in
        (skips e ∙ c.0, unchanged z zs c.1 (ground (arith, f, d)))

    removed :
        (a : ℕ) (zs : List ℕ)
        → IsChain sl j a zs
        → ((v : ℕ) → before x a zs ≡ some v → v ≡ u)
        → IsChain sl' j a (remove x zs)
    unfolding before remove
    removed a [] c h = kept a (λ f. ground (arith, sym c ∙ f)) ∙ c
    removed a (z ∷ zs) c h = elim (ℕ_discrete z x) [
      | yes same ↦
          let here : a ≡ u = h a (ground (arith, same)) in
          let behind : IsChain sl j x zs = rw (← same) c.1 in
          let absent = no_return sl x j zs behind in
          let cut : remove x (z ∷ zs) ≡ zs = ground (arith, same, remove_absent x x zs absent) in
          let link : (level_at blank sl u j).forward ≡ some x = rw (← here, ← same) c.0 in
          rw (cut, here) (past zs link behind absent)
      | no d ↦
          let on : remove x (z ∷ zs) ≡ z ∷ remove x zs = ground (arith, d) in
          let link = kept a (λ f. d (ground (arith, sym c.0 ∙ f))) ∙ c.0 in
          rw on (link, removed z zs c.1 (λ v e. h v (ground (arith, d, e))))
    ]

  module _ (sl : Skiplist Score) (x : ℕ) (update : List (ℕ × ℕ)) (j : ℕ) (nodes : List ℕ)
      (within : j < sl.level) (l : Leads sl x update j nodes) where
    written :
        (a : ℕ)
        → level_at blank (delete_node blank sl x update) a j
          ≡ (if a == l.node then joined blank sl x l.node j else level_at blank sl a j)
    written a =
        level_at-delete_node blank sl x update l.node l.rank a j
          (get_elem?-take update sl.level j within ∙ l.found) l.has_level

    not_to_x :
        (a : ℕ)
        → (level_at blank sl a j).forward ≢ some x
        → (level_at blank (delete_node blank sl x update) a j).forward
          ≡ (level_at blank sl a j).forward
    not_to_x a d = elim (ℕ_discrete a l.node) [
      | yes same ↦
          let here : (a == l.node) ≡ true = ground (arith, same) in
          let elsewhere = same_node_other (level_at blank sl l.node j).forward x (rw (← same) d) in
          rw (written a, here, elsewhere, same) refl
      | no e ↦ let there : (a == l.node) ≡ false = ground (arith, e) in rw (written a, there) refl
    ]

    over_x :
        (level_at blank sl l.node j).forward ≡ some x
        → (level_at blank (delete_node blank sl x update) l.node j).forward
          ≡ (level_at blank sl x j).forward
    over_x e =
        let here : (l.node == l.node) ≡ true = ground arith in
        let linked = same_node_self x in rw (written l.node, here, e, linked) refl

    delete_node-IsChain : IsChain (delete_node blank sl x update) j 0 (remove x nodes)
    delete_node-IsChain =
        removed sl (delete_node blank sl x update) x l.node j not_to_x over_x 0 nodes l.chain
          l.in_front

  -- Where each level of the list, of which there is one, has a chain of links from the header that ends, and
  -- `update` has for it a node with that level, the one in front of `x` if the chain leads over `x`, a deletion
  -- leaves on each level the same chain but for `x`, and lowers the level of the list past exactly the top
  -- levels whose chain is then empty, and never below 1.
  pub delete_node_lem :
      (sl : Skiplist Score) (x : ℕ) (update : List (ℕ × ℕ)) (chain : ℕ → List ℕ)
      → 1 ≤ sl.level
      → ((j : ℕ) → j < sl.level → Leads sl x update j (chain j))
      → ((j : ℕ) → j < sl.level → IsChain (delete_node blank sl x update) j 0 (remove x (chain j)))
        × Lowered blank
            (delete_node blank sl x update)
            sl.level
            (delete_node blank sl x update).level
  delete_node_lem sl x update chain some_level leads = (
    λ j h. delete_node-IsChain sl x update j (chain j) h (leads j h),
    delete_node-Lowered blank sl x update some_level,
  )
