-- ===== src/Uniq/Repeat.antt =====
-- When an identifier of src/lua-uniq.c comes back: the counter's check looks at the second in which
-- the round began, not at the one in which it ends.
use my_skynet.Prelude.{
  ℕ, zero, suc, ◌+◌, ◌-◌, ◌%◌, ◌<◌, ◌≤◌, ◌≡◌, ◌≢◌, refl, arith, ap, ◌∙◌, List, [], ◌∷◌, ◌++◌, some,
  append_assoc,
}
use my_skynet.Uniq.{uniq_main, uniq_incr, Statics, genid, lua_genid, issue, pack}
use my_skynet.Uniq.Pack.{next_inc_lem, pack_fields}
use my_skynet.Uniq.Run.{run}

-- `n` calls within one second
unfoldable pub burst : ℕ → ℕ → List ℕ
burst zero now = []
burst (suc n) now = now ∷ burst n now

-- An application number that is not 0 in the bits kept, and a counter in its range.
pub record IsReady (s : Statics) : Type 0 where
  pub app : 0 < s.main_id % uniq_main
  pub counter : s.inc < uniq_incr

abbrev moved : Statics → ℕ → Statics
moved s n = record s { inc = (s.inc + n) % uniq_incr }

abbrev id_at : Statics → ℕ → ℕ → ℕ
id_at s now n = pack s.main_id now ((s.inc + n) % uniq_incr)

issue_lem : (s : Statics) (now : ℕ) → s.inc < uniq_incr → issue s now ≡ (id_at s now 1, moved s 1)
unfolding issue
issue_lem s now h = rw (next_inc_lem s.inc h)

-- A call within a round.
within :
    (s : Statics) (now : ℕ)
    → IsReady s
    → s.last_inc ≢ s.inc
    → lua_genid s now ≡ (some (id_at s now 1), moved s 1)
unfolding lua_genid genid
within s now r d =
    ground
      (arith, issue_lem s now r.counter, pack_fields s.main_id now ((s.inc + 1) % uniq_incr), r.app)

-- A call that starts a round in a new second.
starts :
    (s : Statics) (now : ℕ)
    → IsReady s
    → s.last_inc ≡ s.inc
    → s.last_sec ≢ now
    → lua_genid s now
      ≡ (some (id_at s now 1), moved (record s { last_sec = now; last_inc = s.inc }) 1)
unfolding lua_genid genid
starts s now r e d = ground (
  arith,
  issue_lem (record s { last_sec = now; last_inc = s.inc }) now r.counter,
  pack_fields s.main_id now ((s.inc + 1) % uniq_incr),
  r.app,
)

-- The identifiers of `n` calls within a round, from the one after the counter on.
ids_from : Statics → ℕ → ℕ → List ℕ
ids_from s now zero = []
ids_from s now (suc n) = id_at s now 1 ∷ ids_from (moved s 1) now n

run-burst :
    (n : ℕ) (s : Statics) (now : ℕ) (rest : List ℕ)
    → IsReady s
    → s.last_inc < uniq_incr
    → n ≤ (s.last_inc + uniq_incr - s.inc) % uniq_incr
    → run s (burst n now ++ rest) ≡ ids_from s now n ++ run (moved s n) rest
unfolding run burst ids_from
run-burst zero s now rest r l room =
    let e : (s.inc + 0) % uniq_incr ≡ s.inc = omega (arith, r.counter) in rw e
run-burst (suc n) s now rest r l room =
    let e : ((s.inc + 1) % uniq_incr + n) % uniq_incr ≡ (s.inc + suc n) % uniq_incr = omega arith in
    let open_round : s.last_inc ≢ s.inc = omega (arith, r.counter) in
    rw (within s now r open_round) (
      ap (◌∷◌ (id_at s now 1)) (
        run-burst n (moved s 1) now rest (record { app = r.app; counter = omega arith }) l
          (omega (arith, r.counter))
        ∙ rw e))

burst-two : (n now : ℕ) → burst (suc (suc n)) now ≡ burst n now ++ now ∷ now ∷ []
unfolding burst
burst-two zero now = refl
burst-two (suc n) now = ap (◌∷◌ now) (burst-two n now)

module _ (s : Statics) (t u m : ℕ) (round : suc (suc m) ≡ uniq_incr) where
  abbrev begun : Statics
  begun = moved (record s { last_sec = t; last_inc = s.inc }) 1

  abbrev ended : Statics
  ended = record s { last_sec = t; last_inc = s.inc }

  -- the last two calls of the burst: they start the next round within the same second
  last_two : IsReady s → t ≢ u → run ended (u ∷ u ∷ []) ≡ id_at ended u 1 ∷ id_at begun u 1 ∷ []
  unfolding run
  last_two r d =
      let next = moved (record ended { last_sec = u }) 1 in
      let ready : IsReady next = record { app = r.app; counter = omega arith } in
      let open_round : next.last_inc ≢ next.inc = omega (arith, r.counter) in
      let here : IsReady ended = record { app = r.app; counter = r.counter } in
      rw (starts ended u here refl d, within next u ready open_round)

  repeats :
      IsReady s
      → s.last_inc ≡ s.inc
      → s.last_sec ≢ t
      → t ≢ u
      → run s (t ∷ burst (suc (suc (suc m))) u)
        ≡ (id_at s t 1 ∷ [])
          ++ id_at begun u 1
            ∷ ((ids_from (moved begun 1) u m ++ id_at ended u 1 ∷ []) ++ id_at begun u 1 ∷ [])
  unfolding run ids_from
  repeats r e d d' =
      let ready : IsReady begun = record { app = r.app; counter = omega arith } in
      let full : suc m ≤ (s.inc + uniq_incr - (s.inc + 1) % uniq_incr) % uniq_incr =
        omega (arith, r.counter) in
      let back : ((s.inc + 1) % uniq_incr + suc m) % uniq_incr ≡ s.inc = omega (arith, r.counter) in
      rw (
        starts s t r e d,
        burst-two (suc m) u,
        run-burst (suc m) begun u (u ∷ u ∷ []) ready r.counter full,
        back,
        last_two r d',
        append_assoc (ids_from (moved begun 1) u m),
      )

-- With an application number that is not 0 and a counter in its range, at the end of a round: call once at second t, and 2^19 + 1 times at second t + 1: two of
-- the calls return the same identifier.
pub run_repeats :
    (s : Statics) (t : ℕ)
    → IsReady s
    → s.last_inc ≡ s.inc
    → s.last_sec ≢ t
    → (xs ys zs : List ℕ) × (id : ℕ) × (run s (t ∷ burst (uniq_incr + 1) (t + 1))
        ≡ xs ++ id ∷ (ys ++ id ∷ zs))
run_repeats s t r e d =
    let b = begun s t (t + 1) 524286 (omega arith) in
    let last = id_at (ended s t (t + 1) 524286 (omega arith)) (t + 1) 1 in
    (
      id_at s t 1 ∷ [],
      ids_from (moved b 1) (t + 1) 524286 ++ last ∷ [],
      [],
      id_at b (t + 1) 1,
      repeats s t (t + 1) 524286 (omega arith) r e d (omega arith),
    )
