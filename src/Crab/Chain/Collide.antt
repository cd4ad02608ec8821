-- ===== src/Crab/Chain/Collide.antt =====
-- A way out of a collision in src/lua-crab.c, in chains. It changes a few nodes; what the change leaves is
-- described node by node.
use my_skynet.Prelude.{
  ℕ, ◌≤◌, ◌<◌, ◌≡◌, refl, sym, ap, ◌∙◌, arith, List, ◌∷◌, true, false, ◌&&◌, some, ◌==◌, ==_iff,
  if◌then◌else◌, length, Bool-cases, inl, inr,
}
use mathlib.Core.Path.{subst}
use my_skynet.Crab.{Table, tnode}
use my_skynet.Crab.Chain.{occurs, is_live, home, IsLinked, BeginsAt, HasChains}
use my_skynet.Crab.Chain.Splice.{IsLinked_same, IsLinked-cons, IsLinked-head}

-- The node `n` is linked behind the first node of the chain at `mp`.
module _ (t t' : Table) (chain : ℕ → List ℕ) (v : HasChains t chain) (mp n : ℕ) (rest : List ℕ)
    (here : chain mp ≡ mp ∷ rest) (free : is_live t n ≡ false) (size : length t'.node ≡ t'.capacity)
    (lives : (a : ℕ) → is_live t' a ≡ (if n == a then true else is_live t a))
    (homes : (a : ℕ) → home t' a ≡ (if n == a then mp else home t a))
    (nexts : (a : ℕ)
      → (tnode t' a).next ≡ (
          if n == a then (tnode t mp).next else if mp == a then some n else (tnode t a).next)) where
  abbrev pub behind : ℕ → List ℕ
  behind p = if mp == p then mp ∷ n ∷ rest else chain p

  unused : (p : ℕ) → occurs n (chain p) ≡ 0
  unused p = ground (arith, v.holds p n, free)

  taken_not : (a : ℕ) → (n == a) ≡ true → is_live t a ≡ false
  taken_not a f = subst (λ b. is_live t b ≡ false) ((==_iff n a).0 f) free

  behind_holds : (p a : ℕ) → occurs a (behind p) ≡ (if is_live t' a && home t' a == p then 1 else 0)
  unfolding occurs
  behind_holds p a = elim (Bool-cases (mp == p)) [
    | inl e ↦
        let before : occurs a (mp ∷ rest) ≡ (if is_live t a && home t a == p then 1 else 0) =
          subst (λ list. occurs a list ≡ (if is_live t a && home t a == p then 1 else 0))
            (ap chain (sym ((==_iff mp p).0 e)) ∙ here) (v.holds p a) in
        rw (e, lives a, homes a)
          (elim (Bool-cases (n == a)) [
            | inl f ↦ rw f (ground (arith, e, before, taken_not a f))
            | inr f ↦ rw f (ground (arith, before, f))
          ])
    | inr e ↦
        rw (e, lives a, homes a)
          (elim (Bool-cases (n == a)) [
            | inl f ↦ rw f (ground (arith, e, v.holds p a, taken_not a f))
            | inr f ↦ rw f (v.holds p a)
          ])
  ]

  once : (a : ℕ) → occurs a (mp ∷ rest) ≤ 1
  once a = subst (λ list. occurs a list ≤ 1) here (ground (arith, v.holds mp a))

  fresh : occurs n (mp ∷ rest) ≡ 0
  fresh = ap (occurs n) (sym here) ∙ unused mp

  not_free : (c : ℕ) (list : List ℕ) → occurs n list ≡ 0 → 0 < occurs c list → (n == c) ≡ false
  not_free c list out k = elim (Bool-cases (n == c)) [
    | inl e ↦ absurd (omega (arith, k, subst (λ b. occurs b list ≡ 0) ((==_iff n c).0 e) out))
    | inr e ↦ e
  ]

  next_same : (c : ℕ) → (n == c) ≡ false → (mp == c) ≡ false → (tnode t' c).next ≡ (tnode t c).next
  next_same c d e = rw (nexts c, d, e) refl

  pub link_behind-HasChains : HasChains t' behind
  unfolding occurs BeginsAt
  link_behind-HasChains = record {
    size = size;
    holds = behind_holds;
    begins = λ p. elim (Bool-cases (mp == p)) [
      | inl e ↦ rw e ((==_iff mp p).0 e)
      | inr e ↦ rw e (v.begins p)
    ];
    linked = λ p. elim (Bool-cases (mp == p)) [
      | inl e ↦ rw e (
          IsLinked-cons t' mp n rest
            (rw (nexts mp, not_free mp (mp ∷ rest) fresh (ground arith), (==_iff mp mp).1 refl)
              refl)
            (IsLinked-head t t' mp n rest (rw (nexts n, (==_iff n n).1 refl) refl)
              (λ c k.
                next_same c (not_free c (mp ∷ rest) fresh (omega (arith, k)))
                  (ground (arith, once c, k)))
              (subst (IsLinked t) here (v.linked mp))))
      | inr e ↦ rw e (
          IsLinked_same t t' (chain p)
            (λ c k. next_same c (not_free c (chain p) (unused p) k) (
              ground (
                arith,
                e,
                k,
                v.holds p c,
                v.holds mp mp,
                subst (λ list. 0 < occurs mp list) (sym here) (ground arith),
              )))
            (v.linked p))
    ];
  }
