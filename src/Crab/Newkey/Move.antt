-- ===== src/Crab/Newkey/Move.antt =====
-- `table_newkey` of src/lua-crab.c where the node in the way is not in its main position: it moves to the
-- free node, and the new key takes its place.
use my_skynet.Prelude.{
  ℕ, suc, ◌+◌, ◌≤◌, ◌<◌, ◌≡◌, refl, sym, ap, ◌∙◌, arith, List, ◌∷◌, ◌++◌, true, false, not, ◌&&◌,
  none, some, ◌==◌, ==_iff, if◌then◌else◌, length, Bool-cases, inl, inr,
}
use mathlib.Core.Path.{subst}
use my_skynet.Crab.{
  TableNode, Table, initnode, tisnil, tnode, put_node, mainposition, fill, non_terminator, placed,
  before_from, move_other,
}
use my_skynet.Crab.Chain.{occurs, is_live, home, IsLinked}
use my_skynet.Crab.Chain.Get.{chain_fits, live_inside}
use my_skynet.Crab.Chain.Splice.{a_chain, occurs-append, IsLinked_same, before_from_lem}
use my_skynet.Crab.Chain.Place.{tnode-put_node}
use my_skynet.Crab.Chain.Reroute.{move_other-HasChains}
use my_skynet.Crab.Newkey.{Weight, weight, total, IsSound, IsPut}
use my_skynet.Crab.Newkey.Place.{
  length-put_node, total-put_node, total_relinked, total_filled, changed-IsSound,
}

abbrev started : Table → ℕ → Table
started t n = record t { lastfree = suc n }

-- The node in front of `mp` in the chain that it is in.
pub find_before :
    (t : Table) (n mp : ℕ) (v : IsSound t)
    → is_live t mp ≡ true
    → (home t mp == mp) ≡ false
    → (xs : List ℕ) × (o : ℕ) × (ys : List ℕ) × (v.chain (home t mp) ≡ xs ++ o ∷ mp ∷ ys)
      × (before_from (length t.node) (started t n) (home t mp) mp ≡ some o)
unfolding tnode
find_before t n mp v live apart =
    let q = home t mp in
    let stands : 0 < occurs mp (v.chain q) = ground (arith, v.chains.holds q mp, live) in
    let (rest, here) = a_chain q mp (v.chain q) (v.chains.begins q) stands in
    let (xs, o, ys, same, run) =
      before_from_lem (started t n) rest (length t.node) q mp
        (subst (λ list. length list ≤ length t.node) here (chain_fits t v.chain v.chains q)) apart
        (subst (λ list. 0 < occurs mp list) here stands)
        (IsLinked_same t (started t n) (q ∷ rest) (λ a h. refl)
          (subst (IsLinked t) here (v.chains.linked q))) in
    (xs, o, ys, here ∙ same, run)

module _ (t : Table) (key mp n o : ℕ) (v : IsSound t) (in_mp : mp < length t.node)
    (in_n : n < length t.node) (taken : tisnil (tnode t mp) ≡ false)
    (free : tisnil (tnode t n) ≡ true) (own : mainposition t key ≡ mp)
    (away : (home t mp == mp) ≡ false)
    (beyond : (a : ℕ) → n < a → a < length t.node → is_live t a ≡ true) (xs ys : List ℕ)
    (split : v.chain (home t mp) ≡ xs ++ o ∷ mp ∷ ys) where
  abbrev start : Table
  start = started t n

  abbrev linked : Table
  linked = put_node start o (record (tnode start o) { next = some n })

  abbrev copied : Table
  copied = put_node linked n (tnode linked mp)

  abbrev cleared : Table
  cleared = put_node copied mp initnode

  abbrev done : Table
  done = fill cleared mp key

  abbrev new_node : TableNode
  new_node = record { key = key; next = none; flag = non_terminator; value = none }

  free_n : is_live t n ≡ false
  unfolding is_live
  free_n = ap not free

  live_mp : is_live t mp ≡ true
  unfolding is_live
  live_mp = ap not taken

  counts :
      (a : ℕ)
      → occurs a xs + ((if o == a then 1 else 0) + ((if mp == a then 1 else 0) + occurs a ys))
        ≡ (if is_live t a && home t a == home t mp then 1 else 0)
  unfolding occurs
  counts a =
      sym (occurs-append a xs (o ∷ mp ∷ ys))
      ∙ ap (occurs a) (sym split)
      ∙ v.chains.holds (home t mp) a

  live_o : is_live t o ≡ true
  live_o = ground (arith, counts o)

  in_o : o < length t.node
  in_o = live_inside t v.chain v.chains o live_o

  o_mp : (o == mp) ≡ false
  o_mp = ground (arith, counts mp)

  o_n : (o == n) ≡ false
  o_n = ground (arith, counts n, free_n)

  mp_n : (mp == n) ≡ false
  mp_n = ground (arith, counts n, free_n)

  at_linked :
      (a : ℕ)
      → tnode linked a ≡ (if o == a then record (tnode t o) { next = some n } else tnode t a)
  unfolding tnode
  at_linked a = tnode-put_node start o a _ in_o

  linked_mp : tnode linked mp ≡ tnode t mp
  linked_mp = at_linked mp ∙ rw o_mp refl

  in_linked : n < length linked.node
  in_linked =
      omega (arith, in_n, length-put_node start o (record (tnode start o) { next = some n }))

  at_copied : (a : ℕ) → tnode copied a ≡ (if n == a then tnode t mp else tnode linked a)
  at_copied a =
      tnode-put_node linked n a _ in_linked
      ∙ ap (λ (m : TableNode). if n == a then m else tnode linked a) linked_mp

  in_copied : mp < length copied.node
  in_copied = omega (
    arith,
    in_mp,
    length-put_node linked n (tnode linked mp),
    length-put_node start o (record (tnode start o) { next = some n }),
  )

  at_cleared : (a : ℕ) → tnode cleared a ≡ (if mp == a then initnode else tnode copied a)
  at_cleared a = tnode-put_node copied mp a initnode in_copied

  cleared-mp : tnode cleared mp ≡ initnode
  cleared-mp = at_cleared mp ∙ rw ((==_iff mp mp).1 refl) refl

  in_cleared : mp < length cleared.node
  in_cleared = omega (arith, in_copied, length-put_node copied mp initnode)

  at_done :
      (a : ℕ)
      → tnode done a ≡ (
          if mp == a
          then new_node
          else if n == a
          then tnode t mp
          else if o == a
          then record (tnode t o) { next = some n }
          else tnode t a)
  unfolding fill
  at_done a = elim (Bool-cases (mp == a)) [
    | inl e ↦ tnode-put_node cleared mp a _ in_cleared ∙ rw e (rw cleared-mp refl)
    | inr e ↦
        tnode-put_node cleared mp a _ in_cleared
        ∙ rw e (
            at_cleared a
            ∙ rw e (
                at_copied a
                ∙ ap (λ (m : TableNode). if n == a then tnode t mp else m) (at_linked a)))
  ]

  lives : (a : ℕ) → is_live done a ≡ (if n == a then true else is_live t a)
  unfolding is_live tisnil
  lives a = elim (Bool-cases (mp == a)) [
    | inl e ↦
        rw (at_done a, e)
          (elim (Bool-cases (n == a)) [
            | inl f ↦ rw f refl
            | inr f ↦ rw f (sym (subst (λ b. is_live t b ≡ true) ((==_iff mp a).0 e) live_mp))
          ])
    | inr e ↦ elim (Bool-cases (n == a)) [
      | inl f ↦ rw (at_done a, e, f) live_mp
      | inr f ↦ elim (Bool-cases (o == a)) [
        | inl g ↦ rw (at_done a, e, f, g) (ap (is_live t) ((==_iff o a).0 g))
        | inr g ↦ rw (at_done a, e, f, g) refl
      ]
    ]
  ]

  homes : (a : ℕ) → home done a ≡ (if mp == a then mp else if n == a then home t mp else home t a)
  unfolding home mainposition fill put_node
  homes a = elim (Bool-cases (mp == a)) [
    | inl e ↦ rw (at_done a, e) own
    | inr e ↦ elim (Bool-cases (n == a)) [
      | inl f ↦ rw (at_done a, e, f) refl
      | inr f ↦ elim (Bool-cases (o == a)) [
        | inl g ↦ rw (at_done a, e, f, g) (ap (home t) ((==_iff o a).0 g))
        | inr g ↦ rw (at_done a, e, f, g) refl
      ]
    ]
  ]

  nexts :
      (a : ℕ)
      → (tnode done a).next ≡ (
          if mp == a
          then none
          else if n == a
          then (tnode t mp).next
          else if o == a
          then some n
          else (tnode t a).next)
  nexts a = elim (Bool-cases (mp == a)) [
    | inl e ↦ rw (at_done a, e) refl
    | inr e ↦ elim (Bool-cases (n == a)) [
      | inl f ↦ rw (at_done a, e, f) refl
      | inr f ↦ elim (Bool-cases (o == a)) [
        | inl g ↦ rw (at_done a, e, f, g) refl
        | inr g ↦ rw (at_done a, e, f, g) refl
      ]
    ]
  ]

  others : (a : ℕ) → is_live done a ≡ false → tnode done a ≡ tnode t a
  others a e = elim (Bool-cases (n == a)) [
    | inl f ↦ absurd (ground (arith, e, f, lives a))
    | inr f ↦ elim (Bool-cases (mp == a)) [
      | inl g ↦ absurd (
          ground
            (arith, e, f, lives a, subst (λ b. is_live t b ≡ true) ((==_iff mp a).0 g) live_mp))
      | inr g ↦ elim (Bool-cases (o == a)) [
        | inl k ↦ absurd (
            ground
              (arith, e, f, lives a, subst (λ b. is_live t b ≡ true) ((==_iff o a).0 k) live_o))
        | inr k ↦ rw (at_done a, g, f, k) refl
      ]
    ]
  ]

  same_length : length done.node ≡ length t.node
  unfolding fill
  same_length = omega (
    arith,
    length-put_node cleared mp (record (tnode cleared mp) { key = key; flag = non_terminator }),
    length-put_node copied mp initnode,
    length-put_node linked n (tnode linked mp),
    length-put_node start o (record (tnode start o) { next = some n }),
  )

  done-IsSound : IsSound done
  unfolding fill put_node
  done-IsSound =
      changed-IsSound t done v n _
        (move_other-HasChains t done v.chain v.chains mp n (home t mp) o xs ys split free_n refl
          away (same_length ∙ v.chains.size) lives homes nexts)
        lives others same_length refl (omega (arith, in_n))
        (λ a h k. ground (arith, lives a, beyond a (omega (arith, h)) k))

  done_totals : (w : Weight) → total w done.node ≡ total w t.node + w key non_terminator none
  unfolding weight tisnil
  done_totals w =
      let linked_n : tnode linked n ≡ tnode t n = at_linked n ∙ rw o_n refl in
      let copied_mp : tnode copied mp ≡ tnode t mp = at_copied mp ∙ rw (n_mp) linked_mp in
      let emptied : tisnil (tnode cleared mp) ≡ true = rw cleared-mp refl in
      let unset : (tnode cleared mp).value ≡ none = rw cleared-mp refl in
      omega (
        arith,
        total_relinked w start o (some n) in_o,
        total-put_node w linked n (tnode linked mp) in_linked,
        total-put_node w copied mp initnode in_copied,
        total_filled w cleared mp key in_cleared emptied unset,
        ap (weight w) linked_n,
        ap (weight w) copied_mp,
        ap (weight w) linked_mp,
        nothing,
      )
    where
      n_mp : (n == mp) ≡ false
      n_mp = ground (arith, mp_n)

      nothing : weight w (tnode t n) ≡ 0
      nothing = rw (weight, free) refl

  pub move-IsPut : IsPut t done key mp
  move-IsPut = record {
    sound = done-IsSound;
    inside = omega (arith, in_mp, same_length);
    here = rw (at_done mp, (==_iff mp mp).1 refl) (refl, refl, refl);
    totals = done_totals;
    same_size = same_length;
  }

  pub move_run :
      before_from (length t.node) start (home t mp) mp ≡ some o
      → move_other start mp n key ≡ placed done mp
  unfolding move_other home tnode mainposition
  move_run run = rw (move_other, run) refl
