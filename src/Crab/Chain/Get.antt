-- ===== src/Crab/Chain/Get.antt =====
-- What `table_get` of src/lua-crab.c finds in a table that has chains.
use my_skynet.Prelude.{
  ℕ, zero, suc, ◌≤◌, ◌<◌, ◌≡◌, ◌≢◌, ◌⊎◌, inl, inr, refl, sym, ap, ◌∙◌, arith, List, [], ◌∷◌, true,
  none, some, length, ltb, get_or, Bool-cases, Option-cases,
}
use mathlib.Core.Path.{subst}
use my_skynet.Crab.{Table, initnode, tisnil, tnode, mainposition, get_from, table_get}
use my_skynet.Crab.Chain.{length-occurs, occurs, is_live, home, IsLinked, BeginsAt, HasChains}
use my_skynet.Crab.Chain.Walk.{
  first_with, AreLive, get_from-first_with, first_with-none, first_with-some, get_from_apart,
  from_node,
}

get_or_past : {B : Type 0} (xs : List B) (i : ℕ) (d : B) → length xs ≤ i → get_or xs i d ≡ d
get_or_past [] i d h = refl
get_or_past (x ∷ xs) zero d h = absurd (omega (arith, h))
get_or_past (x ∷ xs) (suc i) d h = get_or_past xs i d (omega (arith, h))

get_from_nil :
    (t : Table) (fuel a key : ℕ) → tisnil (tnode t a) ≡ true → get_from fuel t a key ≡ none
unfolding get_from
get_from_nil t zero a key e = refl
get_from_nil t (suc fuel) a key e = rw (get_from, e) refl

module _ (t : Table) (chain : ℕ → List ℕ) (v : HasChains t chain) where
  live_chain : (p : ℕ) → AreLive t (chain p)
  unfolding AreLive
  live_chain p a h = ground (arith, v.holds p a, h)

  once : (p a : ℕ) → occurs a (chain p) ≤ 1
  once p a = ground (arith, v.holds p a)

  nothing_past : (p a : ℕ) → t.capacity ≤ a → occurs a (chain p) ≡ 0
  unfolding is_live tisnil tnode
  nothing_past p a h =
      let outside : tnode t a ≡ initnode =
        get_or_past t.node a initnode (omega (arith, h, v.size)) in
      ground (arith, v.holds p a, outside)

  pub chain_fits : (p : ℕ) → length (chain p) ≤ length t.node
  chain_fits p = omega (arith, v.size, length-occurs (chain p) t.capacity (once p) (nothing_past p))

  pub live_inside : (a : ℕ) → is_live t a ≡ true → a < length t.node
  unfolding is_live tisnil tnode
  live_inside a l = elim (Bool-cases (ltb a (length t.node))) [
    | inl e ↦ ground (arith, e)
    | inr e ↦
        let outside : tnode t a ≡ initnode = get_or_past t.node a initnode (ground (arith, e)) in
        absurd (ground (arith, l, outside))
  ]

  -- Where a node that is taken has the key, the chain of its main position has it.
  with_key :
      (a key : ℕ)
      → is_live t a ≡ true
      → (tnode t a).key ≡ key
      → 0 < occurs a (chain (mainposition t key))
  unfolding home
  with_key a key l e = rw (← e) (ground (arith, v.holds (mainposition t (tnode t a).key) a, l))

  -- What `table_get` gives, where the chain of the key is known.
  abbrev Got : ℕ → Type 0
  Got key =
      ((a : ℕ) × (table_get t key ≡ some a) × (is_live t a ≡ true) × ((tnode t a).key ≡ key))
      ⊎ ((table_get t key ≡ none) × ((a : ℕ) → is_live t a ≡ true → (tnode t a).key ≢ key))

  in_chain-Got :
      (key : ℕ) (list : List ℕ) → chain (mainposition t key) ≡ mainposition t key ∷ list → Got key
  unfolding table_get
  in_chain-Got key list e =
      let p = mainposition t key in
      let live : AreLive t (p ∷ list) = subst (AreLive t) e (live_chain p) in
      let fits : length (p ∷ list) ≤ length t.node =
        subst (λ l. length l ≤ length t.node) e (chain_fits p) in
      let run : table_get t key ≡ first_with t key (p ∷ list) =
        get_from-first_with t key list (length t.node) p fits live
          (subst (IsLinked t) e (v.linked p)) in
      elim (Option-cases (first_with t key (p ∷ list))) [
        | inl f ↦ inr (
          run ∙ f,
          λ a l same.
              first_with-none t key (p ∷ list) a f
                (subst (λ l. 0 < occurs a l) e (with_key a key l same)) same,
        )
        | inr (a, f) ↦
            let (within, same) = first_with-some t key (p ∷ list) a f in
            inl (a, run ∙ f, unfold AreLive in live a within, same)
      ]

  -- A node in the chain of the node at a position without a chain has another key.
  other_home :
      (p key : ℕ)
      → mainposition t key ≡ p
      → chain p ≡ []
      → is_live t p ≡ true
      → (b : ℕ) → 0 < occurs b (chain (home t p))
      → (tnode t b).key ≢ key
  unfolding occurs home
  other_home p key here e l b h same =
      let at_home : mainposition t (tnode t b).key ≡ mainposition t (tnode t p).key =
        ground (arith, v.holds (home t p) b, h) in
      let own : mainposition t (tnode t p).key ≡ p =
        sym at_home ∙ ap (mainposition t) same ∙ here in
      let stands : 0 < occurs p (chain p) = ground (arith, v.holds p p, l, own) in
      ground (arith, subst (λ list. 0 < occurs p list) e stands)

  -- A node in front of the empty chain of a key belongs to another, and so do all behind it.
  got_nothing :
      (p key : ℕ)
      → mainposition t key ≡ p
      → chain p ≡ []
      → is_live t p ≡ true
      → get_from (length t.node) t p key ≡ none
  unfolding occurs
  got_nothing p key here e l =
      let q = home t p in
      let stands : 0 < occurs p (chain q) = ground (arith, v.holds q p, l) in
      let (rest, links, within) = from_node t p (chain q) stands (v.linked q) in
      let apart : (b : ℕ) → 0 < occurs b (p ∷ rest) → (tnode t b).key ≢ key =
        λ b h same. other_home p key here e l b (within b h) same in
      get_from_apart t p key rest (length t.node) p apart links

  without_chain-Got : (key : ℕ) → chain (mainposition t key) ≡ [] → Got key
  unfolding table_get occurs is_live
  without_chain-Got key e = inr (
    elim (Bool-cases (tisnil (tnode t (mainposition t key)))) [
      | inl f ↦ get_from_nil t (length t.node) (mainposition t key) key f
      | inr f ↦ got_nothing (mainposition t key) key refl e (rw f refl)
    ],
    λ a l same. ground (arith, subst (λ l. 0 < occurs a l) e (with_key a key l same)),
  )

  -- In a table that has chains, `table_get` ends and gives a node that is taken and has the key, or none
  -- where there is no such node.
  pub table_get_lem :
      (key : ℕ)
      → ((a : ℕ) × (table_get t key ≡ some a) × (is_live t a ≡ true) × ((tnode t a).key ≡ key))
        ⊎ ((table_get t key ≡ none) × ((a : ℕ) → is_live t a ≡ true → (tnode t a).key ≢ key))
  unfolding BeginsAt
  table_get_lem key = go (chain (mainposition t key)) refl
    where
      go : (list : List ℕ) → chain (mainposition t key) ≡ list → Got key
      go [] e = without_chain-Got key e
      go (a ∷ list) e =
          let begins : a ≡ mainposition t key =
            subst (BeginsAt (mainposition t key)) e (v.begins (mainposition t key)) in
          in_chain-Got key list (subst (λ i. chain (mainposition t key) ≡ i ∷ list) begins e)
