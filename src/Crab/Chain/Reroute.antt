-- ===== src/Crab/Chain/Reroute.antt =====
-- The other way out of a collision in src/lua-crab.c, in chains: the node at the main position belongs to another
-- chain, and moves.
use my_skynet.Prelude.{
  ℕ, ◌+◌, ◌<◌, ◌≡◌, refl, sym, ap, ◌∙◌, arith, List, [], ◌∷◌, ◌++◌, true, false, ◌&&◌, none, some,
  ◌==◌, ==_iff, if◌then◌else◌, length, Bool-cases, inl, inr,
}
use mathlib.Core.Path.{subst}
use my_skynet.Crab.{Table, tnode}
use my_skynet.Crab.Chain.{occurs, is_live, home, IsLinked, BeginsAt, HasChains}
use my_skynet.Crab.Chain.Splice.{
  occurs-append, IsLinked_same, IsLinked-append, IsLinked-splice, IsLinked-cons, IsLinked-head,
  no_chain, BeginsAt-append,
}

-- The node at `mp`, which stands behind `o` in the chain at `q`, is moved to `n`.
module _ (t t' : Table) (chain : ℕ → List ℕ) (v : HasChains t chain) (mp n q o : ℕ) (xs ys : List ℕ)
    (split : chain q ≡ xs ++ o ∷ mp ∷ ys) (free : is_live t n ≡ false) (own : home t mp ≡ q)
    (apart : (q == mp) ≡ false) (size : length t'.node ≡ t'.capacity)
    (lives : (a : ℕ) → is_live t' a ≡ (if n == a then true else is_live t a))
    (homes : (a : ℕ) → home t' a ≡ (if mp == a then mp else if n == a then q else home t a))
    (nexts : (a : ℕ)
      → (tnode t' a).next ≡ (
          if mp == a
          then none
          else if n == a
          then (tnode t mp).next
          else if o == a
          then some n
          else (tnode t a).next)) where
  abbrev pub moved : ℕ → List ℕ
  moved p = if mp == p then mp ∷ [] else if q == p then xs ++ o ∷ n ∷ ys else chain p

  free_at : (a : ℕ) → (n == a) ≡ true → is_live t a ≡ false
  free_at a f = subst (λ b. is_live t b ≡ false) ((==_iff n a).0 f) free

  home_at : (a : ℕ) → (mp == a) ≡ true → home t a ≡ q
  home_at a f = subst (λ b. home t b ≡ q) ((==_iff mp a).0 f) own

  -- how often an address stood in the chain
  counts :
      (a : ℕ)
      → occurs a xs + ((if o == a then 1 else 0) + ((if mp == a then 1 else 0) + occurs a ys))
        ≡ (if is_live t a && home t a == q then 1 else 0)
  unfolding occurs
  counts a = sym (occurs-append a xs (o ∷ mp ∷ ys)) ∙ ap (occurs a) (sym split) ∙ v.holds q a

  -- The position had no chain.
  nothing_at : (p a : ℕ) → (mp == p) ≡ true → occurs a (chain p) ≡ 0
  unfolding occurs
  nothing_at p a f =
      let out : occurs p (chain p) ≡ 0 =
        subst (λ i. occurs i (chain p) ≡ 0) ((==_iff mp p).0 f)
          (ground (arith, v.holds p mp, own, apart, f)) in
      ap (occurs a) (no_chain p (chain p) (v.begins p) out)

  apart_at : (p : ℕ) → (mp == p) ≡ true → (q == p) ≡ false
  apart_at p f = subst (λ i. (q == i) ≡ false) ((==_iff mp p).0 f) apart

  live_at : (a : ℕ) → (mp == a) ≡ true → is_live t a ≡ true
  live_at a f = ground (arith, f, counts a)

  not_moved : (a : ℕ) → (mp == a) ≡ true → (n == a) ≡ false
  not_moved a f = elim (Bool-cases (n == a)) [
    | inl e ↦ let bad : true ≡ false = sym (live_at a f) ∙ free_at a e in cc
    | inr e ↦ e
  ]

  moved_holds : (p a : ℕ) → occurs a (moved p) ≡ (if is_live t' a && home t' a == p then 1 else 0)
  unfolding occurs
  moved_holds p a = elim (Bool-cases (mp == p)) [
    | inl e ↦
        rw (e, lives a, homes a)
          (elim (Bool-cases (mp == a)) [
            | inl f ↦ ground (arith, e, f, live_at a f)
            | inr f ↦ elim (Bool-cases (n == a)) [
              | inl g ↦ ground (arith, e, f, g, apart_at p e)
              | inr g ↦ ground (arith, e, f, g, v.holds p a, nothing_at p a e)
            ]
          ])
    | inr e ↦ elim (Bool-cases (q == p)) [
      | inl g ↦
          rw (e, g, occurs-append a xs (o ∷ n ∷ ys), lives a, homes a)
            (elim (Bool-cases (mp == a)) [
              | inl f ↦ ground (arith, e, f, counts a, not_moved a f)
              | inr f ↦ elim (Bool-cases (n == a)) [
                | inl k ↦ ground (arith, f, k, g, counts a, free_at a k)
                | inr k ↦ ground (arith, f, k, counts a, (==_iff q p).0 g)
              ]
            ])
      | inr g ↦
          rw (e, g, lives a, homes a)
            (elim (Bool-cases (mp == a)) [
              | inl f ↦ rw f (ground (arith, e, g, v.holds p a, home_at a f))
              | inr f ↦ rw f (elim (Bool-cases (n == a)) [
                | inl k ↦ rw k (ground (arith, g, v.holds p a, free_at a k))
                | inr k ↦ rw k (v.holds p a)
              ])
            ])
    ]
  ]

  not_free_node : (c : ℕ) → is_live t c ≡ true → (n == c) ≡ false
  not_free_node c l = elim (Bool-cases (n == c)) [
    | inl e ↦ let bad : true ≡ false = sym l ∙ free_at c e in cc
    | inr e ↦ e
  ]

  next_kept :
      (c : ℕ)
      → (n == c) ≡ false
      → (mp == c) ≡ false
      → (o == c) ≡ false
      → (tnode t' c).next ≡ (tnode t c).next
  next_kept c d e f = rw (nexts c, e, d, f) refl

  -- The other nodes of the chain, and those of other chains, keep their links.
  next_beside : (c : ℕ) → 0 < occurs c xs + occurs c ys → (tnode t' c).next ≡ (tnode t c).next
  next_beside c k =
      next_kept c (not_free_node c (ground (arith, counts c, k))) (ground (arith, counts c, k))
        (ground (arith, counts c, k))

  next_elsewhere :
      (p c : ℕ) → (q == p) ≡ false → 0 < occurs c (chain p) → (tnode t' c).next ≡ (tnode t c).next
  next_elsewhere p c g k =
      let live : is_live t c ≡ true = ground (arith, v.holds p c, k) in
      let other : (home t c == q) ≡ false = ground (arith, v.holds p c, k, g) in
      next_kept c (not_free_node c live) (ground (arith, counts c, other))
        (ground (arith, counts c, other))

  o_next : (tnode t' o).next ≡ some n
  o_next =
      rw (nexts o, not_free_node o (ground (arith, counts o)), differ)
        (rw ((==_iff o o).1 refl) refl)
    where
      differ : (mp == o) ≡ false
      differ = ground (arith, counts o)

  n_next : (tnode t' n).next ≡ (tnode t mp).next
  n_next =
      let differ : (mp == n) ≡ false = ground (arith, counts n, free) in
      rw (nexts n, differ) (rw ((==_iff n n).1 refl) refl)

  spliced : IsLinked t' (xs ++ o ∷ n ∷ ys)
  unfolding IsLinked
  spliced =
      let old : IsLinked t (xs ++ o ∷ mp ∷ ys) = subst (IsLinked t) split (v.linked q) in
      IsLinked-splice t t' o xs (mp ∷ ys) (n ∷ ys) (λ b k. next_beside b (omega (arith, k))) old
        (IsLinked-cons t' o n ys o_next (
          IsLinked-head t t' mp n ys n_next (λ b k. next_beside b (omega (arith, k)))
            (IsLinked-append t o xs (mp ∷ ys) old).1))

  pub move_other-HasChains : HasChains t' moved
  unfolding occurs BeginsAt IsLinked
  move_other-HasChains = record {
    size = size;
    holds = moved_holds;
    begins = λ p. elim (Bool-cases (mp == p)) [
      | inl e ↦ rw e ((==_iff mp p).0 e)
      | inr e ↦ elim (Bool-cases (q == p)) [
        | inl g ↦
            rw (e, g)
              (BeginsAt-append p o xs (mp ∷ ys) (n ∷ ys)
                (subst (BeginsAt p) (ap chain (sym ((==_iff q p).0 g)) ∙ split) (v.begins p)))
        | inr g ↦ rw (e, g) (v.begins p)
      ]
    ];
    linked = λ p. elim (Bool-cases (mp == p)) [
      | inl e ↦ rw e (rw (nexts mp, (==_iff mp mp).1 refl) refl)
      | inr e ↦ elim (Bool-cases (q == p)) [
        | inl g ↦ rw (e, g) spliced
        | inr g ↦
            rw (e, g) (IsLinked_same t t' (chain p) (λ c k. next_elsewhere p c g k) (v.linked p))
      ]
    ];
  }
