-- ===== src/Crab/Newkey/Behind.antt =====
-- `table_newkey` of src/lua-crab.c where the node in the way is in its main position: the new key goes to
-- the free node, which is linked behind.
use my_skynet.Prelude.{
  ℕ, suc, ◌+◌, ◌<◌, ◌≡◌, refl, sym, ap, ◌∙◌, arith, List, ◌∷◌, true, false, not, none, some, ◌==◌,
  ==_iff, if◌then◌else◌, length, Bool-cases, inl, inr,
}
use mathlib.Core.Path.{subst}
use my_skynet.Crab.{
  TableNode, Table, tisnil, tnode, put_node, mainposition, fill, non_terminator, placed,
  link_behind,
}
use my_skynet.Crab.Chain.{is_live, home}
use my_skynet.Crab.Chain.Splice.{a_chain}
use my_skynet.Crab.Chain.Place.{tnode-put_node}
use my_skynet.Crab.Chain.Collide.{link_behind-HasChains}
use my_skynet.Crab.Newkey.{Weight, total, IsSound, IsPut}
use my_skynet.Crab.Newkey.Place.{length-put_node, total_relinked, total_filled, changed-IsSound}

-- `n` is the last node that is free.
module _ (t : Table) (key mp n : ℕ) (v : IsSound t) (in_mp : mp < length t.node)
    (in_n : n < length t.node) (taken : tisnil (tnode t mp) ≡ false)
    (free : tisnil (tnode t n) ≡ true) (own : mainposition t key ≡ mp) (home_mp : home t mp ≡ mp)
    (beyond : (a : ℕ) → n < a → a < length t.node → is_live t a ≡ true) where
  abbrev start : Table
  start = record t { lastfree = suc n }

  abbrev linked : Table
  linked = put_node start n (record (tnode start n) { next = (tnode start mp).next })

  abbrev chained : Table
  chained = put_node linked mp (record (tnode linked mp) { next = some n })

  abbrev done : Table
  done = fill chained n key

  abbrev new_node : TableNode
  new_node = record {
    key = key;
    next = (tnode t mp).next;
    flag = non_terminator;
    value = (tnode t n).value;
  }

  apart : (n == mp) ≡ false
  apart = elim (Bool-cases (n == mp)) [
    | inl e ↦
        let bad : true ≡ false =
          sym free ∙ subst (λ a. tisnil (tnode t a) ≡ false) (sym ((==_iff n mp).0 e)) taken in
        cc
    | inr e ↦ e
  ]

  at_linked :
      (a : ℕ)
      → tnode linked a
        ≡ (if n == a then record (tnode t n) { next = (tnode t mp).next } else tnode t a)
  unfolding tnode
  at_linked a = tnode-put_node start n a _ in_n

  linked_mp : tnode linked mp ≡ tnode t mp
  linked_mp = at_linked mp ∙ rw apart refl

  in_linked : mp < length linked.node
  in_linked = omega (
    arith,
    in_mp,
    length-put_node start n (record (tnode start n) { next = (tnode start mp).next }),
  )

  at_chained :
      (a : ℕ)
      → tnode chained a
        ≡ (if mp == a then record (tnode t mp) { next = some n } else tnode linked a)
  at_chained a =
      tnode-put_node linked mp a _ in_linked
      ∙ ap (λ (m : TableNode). if mp == a then record m { next = some n } else tnode linked a)
          linked_mp

  chained_n : tnode chained n ≡ record (tnode t n) { next = (tnode t mp).next }
  chained_n =
      let other : (mp == n) ≡ false = ground (arith, apart) in
      at_chained n ∙ rw other (at_linked n ∙ rw ((==_iff n n).1 refl) refl)

  in_chained : n < length chained.node
  in_chained = omega (
    arith,
    in_n,
    length-put_node linked mp (record (tnode linked mp) { next = some n }),
    length-put_node start n (record (tnode start n) { next = (tnode start mp).next }),
  )

  at_done :
      (a : ℕ)
      → tnode done a ≡ (
          if n == a
          then new_node
          else if mp == a
          then record (tnode t mp) { next = some n }
          else tnode t a)
  unfolding fill
  at_done a = elim (Bool-cases (n == a)) [
    | inl e ↦ tnode-put_node chained n a _ in_chained ∙ rw e (rw chained_n refl)
    | inr e ↦ tnode-put_node chained n a _ in_chained ∙ rw e (at_chained a ∙ rest a e)
  ]
    where
      rest :
          (a : ℕ)
          → (n == a) ≡ false
          → (if mp == a then record (tnode t mp) { next = some n } else tnode linked a)
            ≡ (if mp == a then record (tnode t mp) { next = some n } else tnode t a)
      rest a e = rw (at_linked a, e) refl

  lives : (a : ℕ) → is_live done a ≡ (if n == a then true else is_live t a)
  unfolding is_live tisnil
  lives a = elim (Bool-cases (n == a)) [
    | inl e ↦ rw (at_done a, e) refl
    | inr e ↦ elim (Bool-cases (mp == a)) [
      | inl f ↦ rw (at_done a, e, f) (ap (λ (b : ℕ). not (tisnil (tnode t b))) ((==_iff mp a).0 f))
      | inr f ↦ rw (at_done a, e, f) refl
    ]
  ]

  homes : (a : ℕ) → home done a ≡ (if n == a then mp else home t a)
  unfolding home mainposition fill put_node
  homes a = elim (Bool-cases (n == a)) [
    | inl e ↦ rw (at_done a, e) own
    | inr e ↦ elim (Bool-cases (mp == a)) [
      | inl f ↦ rw (at_done a, e, f) (ap (home t) ((==_iff mp a).0 f))
      | inr f ↦ rw (at_done a, e, f) refl
    ]
  ]

  nexts :
      (a : ℕ)
      → (tnode done a).next
        ≡ (if n == a then (tnode t mp).next else if mp == a then some n else (tnode t a).next)
  nexts a = elim (Bool-cases (n == a)) [
    | inl e ↦ rw (at_done a, e) refl
    | inr e ↦ elim (Bool-cases (mp == a)) [
      | inl f ↦ rw (at_done a, e, f) refl
      | inr f ↦ rw (at_done a, e, f) refl
    ]
  ]

  same_length : length done.node ≡ length t.node
  unfolding fill
  same_length = omega (
    arith,
    length-put_node chained n (record (tnode chained n) { key = key; flag = non_terminator }),
    length-put_node linked mp (record (tnode linked mp) { next = some n }),
    length-put_node start n (record (tnode start n) { next = (tnode start mp).next }),
  )

  free_n : is_live t n ≡ false
  unfolding is_live
  free_n = ap not free

  live_mp : is_live t mp ≡ true
  unfolding is_live
  live_mp = ap not taken

  the_chain : (rest : List ℕ) × (v.chain mp ≡ mp ∷ rest)
  the_chain =
      a_chain mp mp (v.chain mp) (v.chains.begins mp)
        (ground (arith, v.chains.holds mp mp, live_mp, home_mp))

  others : (a : ℕ) → is_live done a ≡ false → tnode done a ≡ tnode t a
  others a e = elim (Bool-cases (n == a)) [
    | inl f ↦ absurd (ground (arith, e, f, lives a))
    | inr f ↦ elim (Bool-cases (mp == a)) [
      | inl g ↦
          let bad : is_live t a ≡ true =
            subst (λ b. is_live t b ≡ true) ((==_iff mp a).0 g) live_mp in
          absurd (ground (arith, e, f, lives a, bad))
      | inr g ↦ rw (at_done a, f, g) refl
    ]
  ]

  done-IsSound : IsSound done
  unfolding fill put_node
  done-IsSound =
      let (rest, here) = the_chain in
      changed-IsSound t done v n _
        (link_behind-HasChains t done v.chain v.chains mp n rest here free_n
          (same_length ∙ v.chains.size) lives homes nexts)
        lives others same_length refl (omega (arith, in_n))
        (λ a h k. ground (arith, lives a, beyond a (omega (arith, h)) k))

  chained_free : tisnil (tnode chained n) ≡ true
  unfolding tisnil
  chained_free = ap tisnil chained_n ∙ free

  bare : (tnode chained n).value ≡ none
  bare = ap (λ (m : TableNode). m.value) chained_n ∙ (v.loose n free_n).1

  done_totals : (w : Weight) → total w done.node ≡ total w t.node + w key non_terminator none
  unfolding fill
  done_totals w = omega (
    arith,
    total_relinked w start n (tnode start mp).next in_n,
    total_relinked w linked mp (some n) in_linked,
    total_filled w chained n key in_chained chained_free bare,
  )

  pub behind-IsPut : IsPut t done key n
  behind-IsPut = record {
    sound = done-IsSound;
    inside = omega (arith, in_n, same_length);
    here = rw (at_done n, (==_iff n n).1 refl) (refl, refl, (v.loose n free_n).1);
    totals = done_totals;
    same_size = same_length;
  }

  pub behind_run : link_behind start mp n key ≡ placed done n
  unfolding link_behind
  behind_run = refl
