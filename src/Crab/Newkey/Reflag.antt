-- ===== src/Crab/Newkey/Reflag.antt =====
-- A node of a table of src/lua-crab.c that is taken gets another flag and another value.
use my_skynet.Prelude.{
  ℕ, ◌+◌, ◌<◌, ◌≡◌, refl, sym, ap, ◌∙◌, arith, true, false, Option, ◌==◌, ==_iff, if◌then◌else◌,
  length, Bool-cases, inl, inr,
}
use mathlib.Core.Path.{subst}
use my_skynet.Crab.{TableNode, Table, tisnil, tnode, put_node, mainposition}
use my_skynet.Crab.Chain.{is_live, home, HasChains}
use my_skynet.Crab.Chain.Splice.{IsLinked_same}
use my_skynet.Crab.Chain.Place.{tnode-put_node}
use my_skynet.Crab.Newkey.{Weight, weight, total, IsSound}
use my_skynet.Crab.Newkey.Place.{length-put_node, total-put_node, changed-IsSound}

module _ (t : Table) (v : IsSound t) (i flag : ℕ) (value : Option ℕ) (h : i < length t.node)
    (live : is_live t i ≡ true) (set : (flag == 0) ≡ false) where
  abbrev reflagged : TableNode
  reflagged = record (tnode t i) { flag = flag; value = value }

  abbrev done : Table
  done = put_node t i reflagged

  at_done : (a : ℕ) → tnode done a ≡ (if i == a then reflagged else tnode t a)
  at_done a = tnode-put_node t i a reflagged h

  lives : (a : ℕ) → is_live done a ≡ is_live t a
  unfolding is_live tisnil
  lives a = elim (Bool-cases (i == a)) [
    | inl e ↦ rw (at_done a, e, set) (sym (subst (λ b. is_live t b ≡ true) ((==_iff i a).0 e) live))
    | inr e ↦ rw (at_done a, e) refl
  ]

  homes : (a : ℕ) → home done a ≡ home t a
  unfolding home mainposition put_node
  homes a = elim (Bool-cases (i == a)) [
    | inl e ↦ rw (at_done a, e) (ap (home t) ((==_iff i a).0 e))
    | inr e ↦ rw (at_done a, e) refl
  ]

  nexts : (a : ℕ) → (tnode done a).next ≡ (tnode t a).next
  nexts a = elim (Bool-cases (i == a)) [
    | inl e ↦ rw (at_done a, e) (ap (λ (b : ℕ). (tnode t b).next) ((==_iff i a).0 e))
    | inr e ↦ rw (at_done a, e) refl
  ]

  others : (a : ℕ) → is_live done a ≡ false → tnode done a ≡ tnode t a
  others a e = elim (Bool-cases (i == a)) [
    | inl f ↦
        absurd (ground (arith, e, lives a, subst (λ b. is_live t b ≡ true) ((==_iff i a).0 f) live))
    | inr f ↦ rw (at_done a, f) refl
  ]

  done-HasChains : HasChains done v.chain
  unfolding put_node
  done-HasChains = record {
    size = length-put_node t i reflagged ∙ v.chains.size;
    holds = λ p a. rw (lives a, homes a) (v.chains.holds p a);
    begins = v.chains.begins;
    linked = λ p. IsLinked_same t done (v.chain p) (λ a k. nexts a) (v.chains.linked p);
  }

  pub reflag-IsSound : IsSound done
  unfolding put_node
  reflag-IsSound =
      changed-IsSound t done v i v.chain done-HasChains lives_or others
        (length-put_node t i reflagged) refl v.last_le (λ a k l. lives a ∙ v.above a k l)
    where
      lives_or : (a : ℕ) → is_live done a ≡ (if i == a then true else is_live t a)
      lives_or a = elim (Bool-cases (i == a)) [
        | inl e ↦ rw e (lives a ∙ subst (λ b. is_live t b ≡ true) ((==_iff i a).0 e) live)
        | inr e ↦ rw e (lives a)
      ]

  pub reflag_totals :
      (w : Weight)
      → total w done.node + w (tnode t i).key (tnode t i).flag (tnode t i).value
        ≡ total w t.node + w (tnode t i).key flag value
  unfolding weight is_live tisnil
  reflag_totals w =
      let counts = total-put_node w t i reflagged h in
      let old : weight w (tnode t i) ≡ w (tnode t i).key (tnode t i).flag (tnode t i).value =
        (let taken : ((tnode t i).flag == 0) ≡ false = ground (arith, live) in rw taken refl) in
      let new : weight w reflagged ≡ w (tnode t i).key flag value = rw set refl in
      omega (arith, counts, old, new)
