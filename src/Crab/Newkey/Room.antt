-- ===== src/Crab/Newkey/Room.antt =====
-- `table_newkey` of src/lua-crab.c puts a key in, or finds that all nodes are taken.
use my_skynet.Prelude.{
  ℕ, suc, ◌<◌, ◌≡◌, ◌⊎◌, refl, ap, arith, true, false, not, Option, none, some, ◌==◌, ==_iff, ltb,
  length, Bool-cases, inl, inr,
}
use my_skynet.Crab.{
  Table, tisnil, tnode, mainposition, fill, placed, full, place, getfreenode, free_from,
}
use my_skynet.Crab.Chain.{is_live, home}
use my_skynet.Crab.Newkey.{IsSound, IsPut, mainposition_lt}
use my_skynet.Crab.Newkey.Free.{free_from_lem}
use my_skynet.Crab.Newkey.Place.{free_place, free-IsPut}
use my_skynet.Crab.Newkey.Behind.{behind-IsPut, behind_run}
use my_skynet.Crab.Newkey.Move.{find_before, move-IsPut, move_run}

-- All nodes are taken, and the table is left as it was.
pub record IsFull (t t' : Table) : Type 0 where
  pub same_node : t'.node ≡ t.node
  pub same_capacity : t'.capacity ≡ t.capacity
  pub no_room : (a : ℕ) → a < length t.node → is_live t a ≡ true

unfoldable pub Goes : Table → ℕ → Type 0
Goes t key =
    ((t' : Table) × (i : ℕ) × (place t key ≡ placed t' i) × IsPut t t' key i)
    ⊎ ((t' : Table) × (place t key ≡ full t') × IsFull t t')

getfreenode_lem :
    (t : Table) (last : ℕ) (n : Option ℕ)
    → free_from t.node t.lastfree ≡ (last, n)
    → getfreenode t ≡ (record t { lastfree = last }, n)
unfolding getfreenode
getfreenode_lem t last n run = rw (getfreenode, run) refl

-- A collision, with the free node that was found.
collision :
    (t : Table) (key n : ℕ)
    → IsSound t
    → tisnil (tnode t (mainposition t key)) ≡ false
    → free_from t.node t.lastfree ≡ (suc n, some n)
    → n < t.lastfree
    → tisnil (tnode t n) ≡ true
    → ((a : ℕ) → n < a → a < t.lastfree → is_live t a ≡ true)
    → (t' : Table) × (i : ℕ) × (place t key ≡ placed t' i) × IsPut t t' key i
unfolding place home
collision t key n v taken run below free beyond =
    let mp = mainposition t key in
    let got = getfreenode_lem t (suc n) (some n) run in
    let in_n : n < length t.node = omega (arith, below, v.last_le) in
    let past : (a : ℕ) → n < a → a < length t.node → is_live t a ≡ true = λ a h k.
      elim (Bool-cases (ltb a t.lastfree)) [
        | inl e ↦ beyond a h (ground (arith, e))
        | inr e ↦ v.above a (ground (arith, e)) k
      ] in
    elim (Bool-cases (mainposition t (tnode t mp).key == mp)) [
      | inl e ↦ (
        _,
        n,
        rw (place, taken, got, got, e)
            (behind_run t key mp n v (mainposition_lt t key v) in_n taken free refl
              ((==_iff (home t mp) mp).0 e) past),
        behind-IsPut t key mp n v (mainposition_lt t key v) in_n taken free refl
            ((==_iff (home t mp) mp).0 e) past,
      )
      | inr e ↦
          let (xs, o, ys, split, found) = find_before t n mp v (unfold is_live in ap not taken) e in
          (
            _,
            mp,
            rw (place, taken, got, got, e)
                (move_run t key mp n o v (mainposition_lt t key v) in_n taken free refl e past xs ys
                  split found),
            move-IsPut t key mp n o v (mainposition_lt t key v) in_n taken free refl e past xs ys
                split,
          )
    ]

pub place_lem : (t : Table) (key : ℕ) → IsSound t → Goes t key
unfolding Goes place is_live tnode
place_lem t key v = elim (Bool-cases (tisnil (tnode t (mainposition t key)))) [
  | inl e ↦ inl (_, _, free_place t key v e, unfold fill in free-IsPut t key v e)
  | inr e ↦ elim (free_from_lem t.node t.lastfree) [
    | inl (n, run, below, free, beyond) ↦
        inl (collision t key n v e run below free (λ a h k. ap not (beyond a h k)))
    | inr (run, beyond) ↦ inr (
      record t { lastfree = 0 },
      rw (place, e, getfreenode_lem t 0 none run, getfreenode_lem t 0 none run) refl,
      record {
        same_node = refl;
        same_capacity = refl;
        no_room = λ a h. elim (Bool-cases (ltb a t.lastfree)) [
          | inl f ↦ ap not (beyond a (ground (arith, f)))
          | inr f ↦ v.above a (ground (arith, f)) h
        ];
      },
    )
  ]
]
