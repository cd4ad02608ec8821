-- ===== src/Crab/Newkey/Place.antt =====
-- `table_newkey` of src/lua-crab.c while there is room: on each of its ways the new key is put in, and all
-- else stays.
use my_skynet.Prelude.{
  ℕ, ◌+◌, ◌≤◌, ◌<◌, ◌≡◌, refl, ap, ◌∙◌, arith, List, true, false, not, Option, none, ◌==◌, ==_iff,
  if◌then◌else◌, length, length-set, Bool-cases, inl, inr,
}
use my_skynet.Crab.{
  TableNode, Table, tisnil, tnode, put_node, mainposition, fill, non_terminator, placed, place,
}
use my_skynet.Crab.Chain.{is_live, HasChains}
use my_skynet.Crab.Chain.Place.{tnode-put_node, is_live-put_node, put_free-HasChains}
use my_skynet.Crab.Newkey.{Weight, weight, total, total-set, IsSound, IsPut, mainposition_lt}

pub length-put_node :
    (t : Table) (i : ℕ) (n : TableNode) → length (put_node t i n).node ≡ length t.node
unfolding put_node
length-put_node t i n = length-set t.node i n

pub total-put_node :
    (w : Weight) (t : Table) (i : ℕ) (n : TableNode)
    → i < length t.node
    → total w (put_node t i n).node + weight w (tnode t i) ≡ total w t.node + weight w n
unfolding put_node tnode
total-put_node w t i n h = total-set w t.node i n h

-- A change of a link.
pub total_relinked :
    (w : Weight) (t : Table) (i : ℕ) (next : Option ℕ)
    → i < length t.node
    → total w (put_node t i (record (tnode t i) { next = next })).node ≡ total w t.node
unfolding weight tisnil
total_relinked w t i next h =
    omega (arith, total-put_node w t i (record (tnode t i) { next = next }) h)

-- A free node is given a key.
pub total_filled :
    (w : Weight) (t : Table) (i key : ℕ)
    → i < length t.node
    → tisnil (tnode t i) ≡ true
    → (tnode t i).value ≡ none
    → total w (fill t i key).node ≡ total w t.node + w key non_terminator none
unfolding weight tisnil fill
total_filled w t i key h free bare =
    let counts = total-put_node w t i (record (tnode t i) { key = key; flag = non_terminator }) h in
    let nothing : weight w (tnode t i) ≡ 0 = rw free refl in
    omega (arith, counts, nothing, ap (w key non_terminator) bare)

-- A change of the nodes at most makes one more of them taken.
module _ (t t' : Table) (v : IsSound t) (n : ℕ) (chain' : ℕ → List ℕ)
    (chains' : HasChains t' chain')
    (lives : (a : ℕ) → is_live t' a ≡ (if n == a then true else is_live t a))
    (others : (a : ℕ) → is_live t' a ≡ false → tnode t' a ≡ tnode t a)
    (same_length : length t'.node ≡ length t.node) (same_capacity : t'.capacity ≡ t.capacity)
    (last_le : t'.lastfree ≤ length t.node)
    (above : (a : ℕ) → t'.lastfree ≤ a → a < length t.node → is_live t' a ≡ true) where
  pub changed-IsSound : IsSound t'
  changed-IsSound = record {
    chain = chain';
    chains = chains';
    loose = λ a e. rw (others a e) (v.loose a (was_free a e));
    above = λ a h k. above a h (omega (arith, k, same_length));
    last_le = omega (arith, last_le, same_length);
    power = (v.power.0, same_capacity ∙ v.power.1);
  }
    where
      was_free : (a : ℕ) → is_live t' a ≡ false → is_live t a ≡ false
      was_free a e = ground (arith, lives a, e)

-- A key whose main position is free.
module _ (t : Table) (key : ℕ) (v : IsSound t)
    (free : tisnil (tnode t (mainposition t key)) ≡ true) where
  abbrev pub mp : ℕ
  mp = mainposition t key

  abbrev pub filled : TableNode
  filled = record (tnode t mp) { key = key; flag = non_terminator }

  inside : mp < length t.node
  inside = mainposition_lt t key v

  bare : ((tnode t mp).next ≡ none) × ((tnode t mp).value ≡ none)
  unfolding is_live
  bare = v.loose mp (ap not free)

  pub free_place : place t key ≡ placed (fill t mp key) mp
  unfolding place
  free_place = rw (place, free) refl

  filled_lives :
      (a : ℕ) → is_live (put_node t mp filled) a ≡ (if mp == a then true else is_live t a)
  unfolding tisnil
  filled_lives a = is_live-put_node t mp a filled inside

  filled_others :
      (a : ℕ)
      → is_live (put_node t mp filled) a ≡ false
      → tnode (put_node t mp filled) a ≡ tnode t a
  filled_others a e = elim (Bool-cases (mp == a)) [
    | inl f ↦ absurd (ground (arith, e, f, filled_lives a))
    | inr f ↦ rw (tnode-put_node t mp a filled inside, f) refl
  ]

  filled-IsSound : IsSound (put_node t mp filled)
  unfolding put_node tisnil
  filled-IsSound =
      changed-IsSound t (put_node t mp filled) v mp _
        (put_free-HasChains t mp filled v.chain v.chains inside free refl refl bare.0) filled_lives
        filled_others (length-put_node t mp filled) refl v.last_le
        (λ a h k. ground (arith, filled_lives a, v.above a h k))

  pub free-IsPut : IsPut t (put_node t mp filled) key mp
  unfolding weight tisnil
  free-IsPut = record {
    sound = filled-IsSound;
    inside = omega (arith, inside, length-put_node t mp filled);
    here = rw (tnode-put_node t mp mp filled inside, (==_iff mp mp).1 refl) (refl, refl, bare.1);
    totals = λ w. unfold fill in total_filled w t mp key inside free bare.1;
    same_size = length-put_node t mp filled;
  }
