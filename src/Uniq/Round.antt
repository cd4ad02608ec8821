-- ===== src/Uniq/Round.antt =====
-- A round of src/lua-uniq.c: the calls from the one that notes the second until the counter has come round.
use my_skynet.Prelude.{
  ℕ, suc, ◌+◌, ◌*◌, ◌%◌, ◌^◌, ◌≤◌, ◌<◌, ◌≡◌, ◌≢◌, ◌↔◌, refl, sym, ap, ◌∙◌, arith, List, [], ◌∷◌,
  length,
}
use native.Mathlib.Decide.{ℕ_discrete}
use my_skynet.Uniq.{uniq_main, uniq_time, uniq_incr, Statics, genid, issue}
use my_skynet.Uniq.Pack.{next_inc_lem, pack_fields}

-- what calls at the given seconds return, and the statics behind them
unfoldable pub calls : Statics → List ℕ → List ℕ × Statics
calls s [] = ([], s)
calls s (now ∷ nows) =
    let (id, s') = genid s now in let (ids, s'') = calls s' nows in (id ∷ ids, s'')

-- the three fields, of calls at the given seconds from a counter on
unfoldable pub numbered : ℕ → ℕ → List ℕ → List ℕ
numbered main_id inc [] = []
numbered main_id inc (now ∷ nows) =
    (main_id % uniq_main * 2 ^ 48 + now % uniq_time * 2 ^ 19 + (inc + 1) % uniq_incr)
    ∷ numbered main_id ((inc + 1) % uniq_incr) nows

-- the statics within a round that began at second `t`, after `n` calls
abbrev pub in_round : Statics → ℕ → ℕ → Statics
in_round s t n = record s { last_sec = t; last_inc = s.inc; inc = (s.inc + n) % uniq_incr }

abbrev id_of : Statics → ℕ → ℕ → ℕ
id_of s now inc = s.main_id % uniq_main * 2 ^ 48 + now % uniq_time * 2 ^ 19 + (inc + 1) % uniq_incr

issue_fields :
    (s : Statics) (now : ℕ)
    → s.inc < uniq_incr
    → issue s now ≡ (id_of s now s.inc, record s { inc = (s.inc + 1) % uniq_incr })
unfolding issue
issue_fields s now h =
    rw (next_inc_lem s.inc h, pack_fields s.main_id now ((s.inc + 1) % uniq_incr)) (ground arith)

genid_within :
    (s : Statics) (now : ℕ)
    → s.inc < uniq_incr
    → s.last_inc ≢ s.inc
    → genid s now ≡ (id_of s now s.inc, record s { inc = (s.inc + 1) % uniq_incr })
unfolding genid
genid_within s now h d = ground (arith, issue_fields s now h, d)

genid_begins :
    (s : Statics) (now : ℕ)
    → s.inc < uniq_incr
    → s.last_inc ≡ s.inc
    → s.last_sec ≢ now
    → genid s now ≡ (id_of s now s.inc, in_round s now 1)
unfolding genid
genid_begins s now h e d =
    ground (arith, issue_fields (record s { last_sec = now; last_inc = s.inc }) now h, e, d)

genid_refuses :
    (s : Statics) (now : ℕ) → s.last_inc ≡ s.inc → s.last_sec ≡ now → genid s now ≡ (0, s)
unfolding genid
genid_refuses s now e f = ground (arith, e, f)

module _ (s : Statics) (t : ℕ) (range : s.inc < uniq_incr) where
  calls_within :
      (nows : List ℕ) (n : ℕ)
      → 0 < n
      → n + length nows ≤ uniq_incr
      → calls (in_round s t n) nows
        ≡ (numbered s.main_id ((s.inc + n) % uniq_incr) nows, in_round s t (n + length nows))
  unfolding calls numbered
  calls_within [] n h k = let same : n + 0 ≡ n = omega arith in rw same refl
  calls_within (now ∷ nows) n h k =
      let open_round : s.inc ≢ (s.inc + n) % uniq_incr = omega (arith, range, h, k) in
      let next : ((s.inc + n) % uniq_incr + 1) % uniq_incr ≡ (s.inc + (n + 1)) % uniq_incr =
        omega arith in
      let count : n + suc (length nows) ≡ (n + 1) + length nows = omega arith in
      let step = genid_within (in_round s t n) now (omega arith) open_round in
      rw (step, next, count, calls_within nows (n + 1) (omega arith) (omega (arith, k))) refl

  -- Behind `n` calls of the round, the next one is refused in one case.
  refused_iff :
      (n now : ℕ)
      → 0 < n
      → n ≤ uniq_incr
      → (genid (in_round s t n) now ≡ (0, in_round s t n)) ↔ ((n ≡ uniq_incr) × (now ≡ t))
  refused_iff n now h k = (to, from)
    where
      from : (n ≡ uniq_incr) × (now ≡ t) → genid (in_round s t n) now ≡ (0, in_round s t n)
      from (e, f) = genid_refuses (in_round s t n) now (omega (arith, range, e)) (sym f)

      moves :
          (e : genid (in_round s t n) now ≡ (0, in_round s t n)) (id : ℕ) (s' : Statics)
          → genid (in_round s t n) now ≡ (id, s')
          → s'.inc ≡ ((s.inc + n) % uniq_incr + 1) % uniq_incr
          → ⊥
      moves e id s' f g =
          let same : (s.inc + n) % uniq_incr ≡ s'.inc =
            ap (λ (r : ℕ × Statics). r.1.inc) (sym e ∙ f) in
          absurd (omega (arith, same, g))

      to : genid (in_round s t n) now ≡ (0, in_round s t n) → (n ≡ uniq_incr) × (now ≡ t)
      to e = elim (ℕ_discrete n uniq_incr) [
        | no d ↦ absurd (
            moves e _ _
              (genid_within (in_round s t n) now (omega arith) (omega (arith, range, h, k, d)))
              refl)
        | yes full ↦ elim (ℕ_discrete now t) [
          | yes f ↦ (full, f)
          | no d ↦ absurd (
              moves e _ _
                (genid_begins (in_round s t n) now (omega arith) (omega (arith, range, full))
                  (λ g. d (sym g)))
                refl)
        ]
      ]

-- A round: at its end, in another second than the one in which it began, a call begins the next, in which there
-- are up to 2^19 calls, that one included. Whatever the clock shows at the others, each returns the three fields
-- with the next counter; and a further call is refused, and leaves the statics as they are, exactly where there
-- were 2^19 and the clock shows the second of the first again.
pub round_lem :
    (s : Statics) (t : ℕ) (nows : List ℕ) (now : ℕ)
    → s.inc < uniq_incr
    → s.last_inc ≡ s.inc
    → s.last_sec ≢ t
    → suc (length nows) ≤ uniq_incr
    → ((calls s (t ∷ nows)).0 ≡ numbered s.main_id s.inc (t ∷ nows))
      × ((genid (calls s (t ∷ nows)).1 now ≡ (0, (calls s (t ∷ nows)).1))
          ↔ ((suc (length nows) ≡ uniq_incr) × (now ≡ t)))
unfolding calls numbered
round_lem s t nows now range e d few =
    let rest = calls_within s t range nows 1 (omega arith) (omega (arith, few)) in
    let count : suc (length nows) ≡ 1 + length nows = omega arith in
    rw (genid_begins s t range e d, rest, count)
      (refl, refused_iff s t range (1 + length nows) now (omega arith) (omega (arith, few)))
