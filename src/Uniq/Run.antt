-- ===== src/Uniq/Run.antt =====
-- Sequences of calls of src/lua-uniq.c's `id`: which identifiers repeat.
use my_skynet.Prelude.{
  ℕ, suc, ◌+◌, ◌%◌, ◌≤◌, ◌<◌, ◌≡◌, ◌≢◌, arith, List, [], ◌∷◌, length, Option, none, some, inl, inr,
}
use native.Mathlib.Decide.{ℕ_discrete}
use my_skynet.Uniq.{uniq_incr, Statics, genid, lua_genid}
use my_skynet.Uniq.Pack.{genid_lem}

abbrev pub keep : Option ℕ → List ℕ → List ℕ
keep none ids = ids
keep (some id) ids = id ∷ ids

-- The identifiers that calls at the given seconds return; a call that raises an error gives none.
unfoldable pub run : Statics → List ℕ → List ℕ
run s [] = []
run s (now ∷ nows) = keep (lua_genid s now).0 (run (lua_genid s now).1 nows)

-- The counter in an identifier is one of the `n` that follow `c`.
abbrev Follows : ℕ → ℕ → ℕ → Type 0
Follows c n id = (k : ℕ) × (0 < k) × (k ≤ n) × (id % uniq_incr ≡ (c + k) % uniq_incr)

abbrev AllFollow : ℕ → ℕ → List ℕ → Type 0
AllFollow c n [] = Unit {0}
AllFollow c n (id ∷ ids) = Follows c n id × AllFollow c n ids

abbrev pub Differs : ℕ → List ℕ → Type 0
Differs a [] = Unit {0}
Differs a (id ∷ ids) = (a ≢ id) × Differs a ids

-- No two of the identifiers are equal.
abbrev pub Distinct : List ℕ → Type 0
Distinct [] = Unit {0}
Distinct (id ∷ ids) = Differs id ids × Distinct ids

-- One call: it leaves the counter and returns nothing, or moves it on and returns at most the
-- identifier that holds the new one.
data Call (s : Statics) (now : ℕ) : Type 0 where
  refused : (lua_genid s now).0 ≡ none → (lua_genid s now).1.inc ≡ s.inc → Call s now
  dropped :
      (lua_genid s now).0 ≡ none → (lua_genid s now).1.inc ≡ (s.inc + 1) % uniq_incr → Call s now
  issued :
      (id : ℕ)
      → (lua_genid s now).0 ≡ some id
      → id % uniq_incr ≡ (s.inc + 1) % uniq_incr
      → (lua_genid s now).1.inc ≡ (s.inc + 1) % uniq_incr
      → Call s now

call : (s : Statics) (now : ℕ) → s.inc < uniq_incr → Call s now
unfolding lua_genid
call s now h = elim (genid_lem s now h) [
  | inl (a, b, e) ↦ refused (rw e) (rw e)
  | inr (d, val, moved, _) ↦ elim (ℕ_discrete (genid s now).0 0) [
    | yes z ↦ dropped (ground arith) (ground arith)
    | no z ↦ issued (genid s now).0 (ground arith) (omega (arith, val)) (ground arith)
  ]
]

later :
    (c c' m : ℕ) (ids : List ℕ)
    → c' ≡ (c + 1) % uniq_incr
    → AllFollow c' m ids
    → AllFollow c (suc m) ids
later c c' m [] e all = tt
later c c' m (id ∷ ids) e ((k, pos, le, eq), all) =
    ((suc k, omega arith, omega arith, omega arith), later c c' m ids e all)

longer : (c m : ℕ) (ids : List ℕ) → AllFollow c m ids → AllFollow c (suc m) ids
longer c m [] all = tt
longer c m (id ∷ ids) ((k, pos, le, eq), all) = ((k, pos, omega arith, eq), longer c m ids all)

run-AllFollow :
    (s : Statics) (nows : List ℕ) → s.inc < uniq_incr → AllFollow s.inc (length nows) (run s nows)
unfolding run
run-AllFollow s [] h = tt
run-AllFollow s (now ∷ nows) h =
    let rest = run-AllFollow (lua_genid s now).1 nows in
    elim (call s now h) [
      | refused e f ↦ rw e (longer s.inc (length nows) _ (rw f at (rest (rw f h))))
      | dropped e f ↦ rw e (later s.inc _ (length nows) _ f (rest (rw f (omega arith))))
      | issued id e low f ↦ rw e (
        (1, omega arith, omega arith, low),
        later s.inc _ (length nows) _ f (rest (rw f (omega arith))),
      )
    ]

follows-Differs :
    (a c n : ℕ) (ids : List ℕ)
    → n < uniq_incr
    → a % uniq_incr ≡ c % uniq_incr
    → AllFollow c n ids
    → Differs a ids
follows-Differs a c n [] h e all = tt
follows-Differs a c n (id ∷ ids) h e ((k, pos, le, eq), all) =
    (λ same. absurd (omega (arith)), follows-Differs a c n ids h e all)

-- From a counter in its range, no two of at most 2^19 calls in a row return the same identifier,
-- whatever the clock does.
pub run-Distinct :
    (s : Statics) (nows : List ℕ)
    → s.inc < uniq_incr
    → length nows ≤ uniq_incr
    → Distinct (run s nows)
unfolding run
run-Distinct s [] h few = tt
run-Distinct s (now ∷ nows) h few =
    let rest = run-Distinct (lua_genid s now).1 nows in
    let after = run-AllFollow (lua_genid s now).1 nows in
    elim (call s now h) [
      | refused e f ↦ rw e (rest (rw f h) (omega arith))
      | dropped e f ↦ rw e (rest (rw f (omega arith)) (omega arith))
      | issued id e low f ↦ rw e (
        follows-Differs id (lua_genid s now).1.inc (length nows) _ (omega arith) (omega arith)
            (after (rw f (omega arith))),
        rest (rw f (omega arith)) (omega arith),
      )
    ]
