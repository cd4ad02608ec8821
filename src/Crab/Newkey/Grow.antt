-- ===== src/Crab/Newkey/Grow.antt =====
-- `table_newkey` of src/lua-crab.c ends with the new key in the table, for which it grows at most once.
use my_skynet.Prelude.{
  ℕ, ◌+◌, ◌<◌, ◌≡◌, refl, ap, ◌∙◌, arith, true, Option, none, some, length, get_or, false, inl, inr,
}
use my_skynet.Crab.{
  Table, initnode, tisnil, tnode, non_terminator, table_expand, newkey_within, table_newkey,
}
use my_skynet.Crab.Chain.{is_live}
use my_skynet.Crab.Newkey.{one, IsSound, IsAdded, mainposition_lt}
use my_skynet.Crab.Newkey.Room.{Goes, place_lem}
use my_skynet.Crab.Newkey.Expand.{total_all, total-one_le, newkey_one, expand_lem}

-- A full table grows once.
grown :
    (t : Table) (key : ℕ)
    → IsSound t
    → ((a : ℕ) → a < length t.node → is_live t a ≡ true)
    → (t1 : Table) × (t' : Table) × (i : ℕ) × (table_expand (newkey_within 1) t ≡ some t1)
      × (newkey_within 1 t1 key ≡ some (t', i))
      × IsAdded t t' key i
unfolding is_live tnode
grown t key v all =
    let (t1, run, sound, totals, size) = expand_lem t v in
    let nonempty = mainposition_lt t key v in
    let (t', i, put, p) =
      newkey_one t1 key sound (omega (arith, totals one, total-one_le t.node, size, nonempty)) in
    (
      t1,
      t',
      i,
      run,
      put,
      record {
        sound = p.sound;
        inside = p.inside;
        here = p.here;
        totals = λ w. p.totals w ∙ ap (λ x. x + w key non_terminator none) (totals w);
        size =
            inr
              (p.same_size ∙ size, total_all t.node taken, omega (arith, p.totals one, totals one));
      },
    )
  where
    taken : (a : ℕ) → a < length t.node → tisnil (get_or t.node a initnode) ≡ false
    taken a k = ground (arith, all a k)

expand_same :
    (newkey : Table → ℕ → Option (Table × ℕ)) (t t' : Table)
    → t'.node ≡ t.node
    → t'.capacity ≡ t.capacity
    → table_expand newkey t' ≡ table_expand newkey t
unfolding table_expand
expand_same newkey t t' e f = rw (e, f) refl

-- In a table that is sound, a new key always gets a node, within two calls of the function in each other:
-- the table that results is sound, the node has the key, the flag of a node that ends no word and no
-- further table, and every sum over the nodes that are taken is the sum as it was, plus the new node's. Its nodes
-- are as many as before, or twice as many where all of them were taken.
pub table_newkey_lem :
    (t : Table) (key : ℕ)
    → IsSound t
    → (t' : Table) × (i : ℕ) × (table_newkey t key ≡ some (t', i)) × IsAdded t t' key i
unfolding table_newkey newkey_within Goes
table_newkey_lem t key v = elim (place_lem t key v) [
  | inl (t', i, run, p) ↦ (
    t',
    i,
    rw (newkey_within, run) refl,
    record {
      sound = p.sound;
      inside = p.inside;
      here = p.here;
      totals = p.totals;
      size = inl p.same_size;
    },
  )
  | inr (t0, run, f) ↦
      let (t1, t', i, grows, puts, added) = grown t key v f.no_room in
      (
        t',
        i,
        rw
            (
              newkey_within,
              run,
              expand_same (newkey_within 1) t t0 f.same_node f.same_capacity,
              grows,
            )
            puts,
        added,
      )
]
