-- ===== src/Crab/Newkey/Expand.antt =====
-- `table_expand` of src/lua-crab.c puts all that a table holds into one of twice the size.
use my_skynet.Prelude.{
  ℕ, zero, suc, ◌+◌, ◌*◌, ◌^◌, ◌≤◌, ◌<◌, ◌≡◌, refl, ◌∙◌, arith, List, [], ◌∷◌, true, false, ◌&&◌,
  none, some, ◌==◌, if◌then◌else◌, length, get_or, replicate, length-replicate, Bool-cases, inl,
  inr,
}
use native.Mathlib.Nat.{pow-suc}
use my_skynet.Crab.{
  TableNode, Table, initnode, tisnil, tnode, put_node, non_terminator, placed, place, reinsert,
  table_expand, newkey_within,
}
use my_skynet.Crab.Chain.{occurs, is_live, home, IsLinked, BeginsAt}
use my_skynet.Crab.Newkey.{one, Weight, weight, total, IsSound, IsPut}
use my_skynet.Crab.Newkey.Place.{length-put_node}
use my_skynet.Crab.Newkey.Room.{IsFull, Goes, place_lem}
use my_skynet.Crab.Newkey.Reflag.{reflag-IsSound, reflag_totals}

pub total_all :
    (nodes : List TableNode)
    → ((a : ℕ) → a < length nodes → tisnil (get_or nodes a initnode) ≡ false)
    → total one nodes ≡ length nodes
unfolding total weight
total_all [] h = refl
total_all (n ∷ nodes) h =
    rw (h 0 (omega arith)) (omega (arith, total_all nodes (λ a k. h (suc a) (omega (arith, k)))))

pub total-one_le : (nodes : List TableNode) → total one nodes ≤ length nodes
unfolding total weight
total-one_le [] = omega arith
total-one_le (n ∷ nodes) = ground (arith, total-one_le nodes)

-- While a node is free, a key is put in.
pub room :
    (t : Table) (key : ℕ)
    → IsSound t
    → total one t.node < length t.node
    → (t' : Table) × (i : ℕ) × (place t key ≡ placed t' i) × IsPut t t' key i
unfolding Goes is_live tnode
room t key v h = elim (place_lem t key v) [
  | inl r ↦ r
  | inr (t', run, f) ↦ absurd (omega (arith, h, total_all t.node (λ a k. taken a k f)))
]
  where
    taken :
        {t' : Table} (a : ℕ)
        → a < length t.node
        → IsFull t t'
        → tisnil (get_or t.node a initnode) ≡ false
    taken a k f = ground (arith, f.no_room a k)

-- the table that `table_expand` begins with
abbrev emptied : ℕ → Table
emptied capacity = record {
  capacity = capacity;
  node = replicate capacity initnode;
  lastfree = capacity;
}

get_or-replicate : {B : Type 0} (n i : ℕ) (b : B) → get_or (replicate n b) i b ≡ b
get_or-replicate zero i b = refl
get_or-replicate (suc n) zero b = refl
get_or-replicate (suc n) (suc i) b = get_or-replicate n i b

emptied-IsSound : (k : ℕ) → IsSound (emptied (2 ^ k))
unfolding occurs is_live home IsLinked BeginsAt tisnil tnode
emptied-IsSound k = record {
  chain = λ p. [];
  chains = record {
    size = length-replicate (2 ^ k) initnode;
    holds = holds;
    begins = λ p. tt;
    linked = λ p. tt;
  };
  loose = λ a e. rw (get_or-replicate (2 ^ k) a initnode) (refl, refl);
  above = λ a h l. absurd (omega (arith, h, l, length-replicate (2 ^ k) initnode));
  last_le = omega (arith, length-replicate (2 ^ k) initnode);
  power = (k, refl);
}
  where
    holds :
        (p a : ℕ)
        → occurs a []
          ≡ (if is_live (emptied (2 ^ k)) a && home (emptied (2 ^ k)) a == p then 1 else 0)
    holds p a = rw (get_or-replicate (2 ^ k) a initnode) refl

total-replicate : (w : Weight) (n : ℕ) → total w (replicate n initnode) ≡ 0
unfolding total weight tisnil
total-replicate w zero = refl
total-replicate w (suc n) = omega (arith, total-replicate w n)

pub newkey_one :
    (t : Table) (key : ℕ)
    → IsSound t
    → total one t.node < length t.node
    → (t' : Table) × (i : ℕ) × (newkey_within 1 t key ≡ some (t', i)) × IsPut t t' key i
unfolding newkey_within
newkey_one t key v h =
    let (t', i, run, p) = room t key v h in (t', i, rw (newkey_within, run) refl, p)

-- What the second loop of `table_expand` leaves.
record Reinserted (t t' : Table) (olds : List TableNode) : Type 0 where
  sound : IsSound t'
  totals : (w : Weight) → total w t'.node ≡ total w t.node + total w olds
  same_size : length t'.node ≡ length t.node

total_free :
    (w : Weight) (n : TableNode) (nodes : List TableNode)
    → tisnil n ≡ true
    → total w (n ∷ nodes) ≡ total w nodes
unfolding total weight
total_free w n nodes e = rw e (omega arith)

total_taken :
    (w : Weight) (n : TableNode) (nodes : List TableNode)
    → tisnil n ≡ false
    → total w (n ∷ nodes) ≡ w n.key n.flag n.value + total w nodes
unfolding total weight
total_taken w n nodes e = rw e refl

total_none : (w : Weight) → total w [] ≡ 0
unfolding total
total_none w = refl

-- A node that is taken is put in with its flag and its value.
reinsert_one :
    (old : TableNode) (t : Table)
    → IsSound t
    → tisnil old ≡ false
    → total one t.node < length t.node
    → (t' : Table) × (i : ℕ) × (newkey_within 1 t old.key ≡ some (t', i))
      × Reinserted t
          (put_node t' i (record (tnode t' i) { flag = old.flag; value = old.value }))
          (old ∷ [])
unfolding is_live tisnil
reinsert_one old t v e h =
    let (t', i, run, p) = newkey_one t old.key v h in
    let (here_key, here_flag, here_value) = p.here in
    let live : is_live t' i ≡ true = rw here_flag refl in
    (
      t',
      i,
      run,
      record {
        sound = reflag-IsSound t' p.sound i old.flag old.value p.inside live e;
        totals = λ w.
            let new = reflag_totals t' p.sound i old.flag old.value p.inside live e w in
            let before : w (tnode t' i).key (tnode t' i).flag (tnode t' i).value
                ≡ w old.key non_terminator none =
              rw (here_key, here_flag, here_value) refl in
            let after : w (tnode t' i).key old.flag old.value ≡ w old.key old.flag old.value =
              rw here_key refl in
            omega (arith, new, before, after, p.totals w, total_taken w old [] e, total_none w);
        same_size =
            length-put_node t' i (record (tnode t' i) { flag = old.flag; value = old.value })
            ∙ p.same_size;
      },
    )

reinsert_lem :
    (olds : List TableNode) (t : Table)
    → IsSound t
    → total one t.node + total one olds ≤ length t.node
    → (t' : Table) × (reinsert (newkey_within 1) olds t ≡ some t') × Reinserted t t' olds
unfolding reinsert
reinsert_lem [] t v h =
    (t, refl, record { sound = v; totals = λ w. unfold total in omega arith; same_size = refl })
reinsert_lem (old ∷ olds) t v h = elim (Bool-cases (tisnil old)) [
  | inl e ↦
      let (t', run, r) = reinsert_lem olds t v (omega (arith, h, total_free one old olds e)) in
      (
        t',
        rw (reinsert, e) run,
        record {
          sound = r.sound;
          totals = λ w. omega (arith, r.totals w, total_free w old olds e);
          same_size = r.same_size;
        },
      )
  | inr e ↦
      let (t1, i, run, p) = reinsert_one old t v e (omega (arith, h, total_taken one old olds e)) in
      let (t', runs, r) = reinsert_lem olds _ p.sound (
        omega (
          arith,
          h,
          p.same_size,
          p.totals one,
          total_taken one old [] e,
          total_taken one old olds e,
          total_none one,
        )) in
      (
        t',
        rw (reinsert, e, run) runs,
        record {
          sound = r.sound;
          totals = λ w. omega (
            arith,
            r.totals w,
            p.totals w,
            total_taken w old [] e,
            total_taken w old olds e,
            total_none w,
          );
          same_size = r.same_size ∙ p.same_size;
        },
      )
]

-- `table_expand` doubles the nodes and keeps what is in them.
pub expand_lem :
    (t : Table)
    → IsSound t
    → (t' : Table) × (table_expand (newkey_within 1) t ≡ some t')
      × IsSound t'
      × ((w : Weight) → total w t'.node ≡ total w t.node)
      × (length t'.node ≡ length t.node + length t.node)
unfolding table_expand
expand_lem t v =
    let (k, e) = v.power in
    let twice : t.capacity * 2 ≡ 2 ^ suc k = rw (e, pow-suc 2 k) refl in
    let old_size : length t.node + length t.node ≡ 2 ^ suc k =
      omega (arith, twice, v.chains.size) in
    let new_size = length-replicate (2 ^ suc k) initnode in
    let enough : total one (emptied (2 ^ suc k)).node + total one t.node
        ≤ length (emptied (2 ^ suc k)).node =
      omega (arith, old_size, new_size, total-replicate one (2 ^ suc k), total-one_le t.node) in
    let (t', run, r) = reinsert_lem t.node (emptied (2 ^ suc k)) (emptied-IsSound (suc k)) enough in
    (
      t',
      rw (table_expand, twice) run,
      r.sound,
      λ w. omega (arith, r.totals w, total-replicate w (2 ^ suc k)),
      omega (arith, r.same_size, new_size, old_size),
    )
