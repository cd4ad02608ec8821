-- ===== src/Crab/Chain/Place.antt =====
-- Where `table_newkey` of src/lua-crab.c puts a key, the table still has chains.
use my_skynet.Prelude.{
  ℕ, zero, suc, ◌<◌, ◌≡◌, inl, inr, refl, ap, ◌∙◌, arith, List, [], ◌∷◌, true, false, not, ◌&&◌,
  none, ◌==◌, ==_iff, if◌then◌else◌, length, get_or-set, length-set, Bool-cases,
}
use mathlib.Core.Path.{subst}
use my_skynet.Crab.{TableNode, Table, initnode, table_new, tisnil, tnode, put_node, mainposition}
use my_skynet.Crab.Chain.Splice.{no_chain}
use my_skynet.Crab.Chain.{occurs, is_live, home, IsLinked, BeginsAt, HasChains}

pub tnode-put_node :
    (t : Table) (i j : ℕ) (n : TableNode)
    → i < length t.node
    → tnode (put_node t i n) j ≡ (if i == j then n else tnode t j)
unfolding tnode put_node
tnode-put_node t i j n h = get_or-set t.node i j n initnode h

-- The links of a list do not depend on a node that is not in it.
IsLinked-put_node :
    (t : Table) (i : ℕ) (n : TableNode) (list : List ℕ)
    → i < length t.node
    → occurs i list ≡ 0
    → IsLinked t list
    → IsLinked (put_node t i n) list
unfolding IsLinked occurs
IsLinked-put_node t i n [] h out l = tt
IsLinked-put_node t i n (a ∷ []) h out l =
    let other : (i == a) ≡ false = ground (arith, out) in rw (tnode-put_node t i a n h, other) l
IsLinked-put_node t i n (a ∷ b ∷ list) h out l =
    let other : (i == a) ≡ false = ground (arith, out) in
    (
      rw (tnode-put_node t i a n h, other) l.0,
      IsLinked-put_node t i n (b ∷ list) h (ground (arith, out)) l.1,
    )

-- A new table has chains, all of them empty.
pub table_new-HasChains : HasChains table_new (λ p. [])
unfolding occurs is_live home IsLinked BeginsAt tisnil tnode
table_new-HasChains = record { size = refl; holds = holds; begins = λ p. tt; linked = λ p. tt }
  where
    holds :
        (p a : ℕ) → occurs a [] ≡ (if is_live table_new a && home table_new a == p then 1 else 0)
    holds p zero = refl
    holds p (suc a) = refl

pub is_live-put_node :
    (t : Table) (i a : ℕ) (n : TableNode)
    → i < length t.node
    → is_live (put_node t i n) a ≡ (if i == a then not (tisnil n) else is_live t a)
unfolding is_live
is_live-put_node t i a n h = elim (Bool-cases (i == a)) [
  | inl e ↦ rw (tnode-put_node t i a n h, e) refl
  | inr e ↦ rw (tnode-put_node t i a n h, e) refl
]

pub home-put_node :
    (t : Table) (i a : ℕ) (n : TableNode)
    → i < length t.node
    → home (put_node t i n) a ≡ (if i == a then mainposition t n.key else home t a)
unfolding home mainposition put_node
home-put_node t i a n h = elim (Bool-cases (i == a)) [
  | inl e ↦ rw (tnode-put_node t i a n h, e) refl
  | inr e ↦ rw (tnode-put_node t i a n h, e) refl
]

-- A key whose main position `mp` is free.
module _ (t : Table) (mp : ℕ) (n : TableNode) (chain : ℕ → List ℕ) (v : HasChains t chain)
    (h : mp < length t.node) (free : tisnil (tnode t mp) ≡ true) (taken : tisnil n ≡ false)
    (own : mainposition t n.key ≡ mp) (loose : n.next ≡ none) where
  -- The position had no chain.
  nothing : (p a : ℕ) → (mp == p) ≡ true → occurs a (chain p) ≡ 0
  unfolding occurs is_live
  nothing p a f =
      let out : occurs p (chain p) ≡ 0 =
        subst (λ i. occurs i (chain p) ≡ 0) ((==_iff mp p).0 f)
          (ground (arith, v.holds p mp, free)) in
      ap (occurs a) (no_chain p (chain p) (v.begins p) out)

  put_free_holds :
      (p a : ℕ)
      → occurs a (if mp == p then mp ∷ [] else chain p)
        ≡ (if is_live (put_node t mp n) a && home (put_node t mp n) a == p then 1 else 0)
  unfolding occurs is_live
  put_free_holds p a = elim (Bool-cases (mp == a)) [
    | inl e ↦
        rw (is_live-put_node t mp a n h, home-put_node t mp a n h, e, taken, own)
          (elim (Bool-cases (mp == p)) [
            | inl f ↦ rw f (ground (arith, e))
            | inr f ↦ rw f (ground (arith, v.holds p a, free, (==_iff mp a).0 e))
          ])
    | inr e ↦
        rw (is_live-put_node t mp a n h, home-put_node t mp a n h, e)
          (elim (Bool-cases (mp == p)) [
            | inl f ↦ rw f (ground (arith, e, v.holds p a, nothing p a f))
            | inr f ↦ rw f (v.holds p a)
          ])
  ]

  pub put_free-HasChains : HasChains (put_node t mp n) (λ p. if mp == p then mp ∷ [] else chain p)
  unfolding put_node BeginsAt IsLinked occurs is_live
  put_free-HasChains = record {
    size = length-set t.node mp n ∙ v.size;
    holds = put_free_holds;
    begins = λ p. elim (Bool-cases (mp == p)) [
      | inl e ↦ rw e ((==_iff mp p).0 e)
      | inr e ↦ rw e (v.begins p)
    ];
    linked = λ p. elim (Bool-cases (mp == p)) [
      | inl e ↦ rw e (
          ap (λ (m : TableNode). m.next) (tnode-put_node t mp mp n h)
          ∙ rw ((==_iff mp mp).1 refl) loose)
      | inr e ↦
          rw e
            (IsLinked-put_node t mp n (chain p) h (ground (arith, v.holds p mp, free)) (v.linked p))
    ];
  }
