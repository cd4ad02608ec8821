-- ===== src/Counted/Schedule.antt =====
-- The runs of a protocol, executable: which thread takes each turn, and what it is asked for.
use my_skynet.Prelude.{
  ℕ, ◌<◌, ◌≡◌, ◌⊎◌, refl, sym, arith, inl, inr, List, [], ◌∷◌, Option, none, some, Bool, true, ◌&&◌,
  ltb, false,
}
use mathlib.Core.Path.{subst}
use my_skynet.Counted.Threads.{update}
use my_skynet.Counted.System.{
  Shared, Outcome, fault, ok, System, Protocol, new_system, pick, Reach, start, later,
  Reach-no_fault,
}

-- Only the first `n` threads take turns.
abbrev pub all_below : {R : Type 0} → ℕ → List (ℕ × R) → Bool
all_below n [] = true
all_below n ((i, r) ∷ turns) = ltb i n && all_below n turns

below-cons : (i n : ℕ) (b : Bool) → (ltb i n && b) ≡ true → (i < n) × (b ≡ true)
below-cons i n true e = ground (arith, e)
below-cons i n false e = ground (arith, e)

module _ {A T R : Type 0} (p : Protocol A T R) where
  -- The state after some turns, none for a fault.
  unfoldable pub run_turns : System A T → List (ℕ × R) → Option (System A T)
  run_turns s [] = some s
  run_turns s ((i, r) ∷ turns) = elim (p.step s.shared (s.threads i) r) [
    | fault ↦ none
    | ok sh t ↦ run_turns (record { shared = sh; threads = update s.threads i t }) turns
  ]

  Outcome-cases : (o : Outcome A T) → (o ≡ fault) ⊎ ((sh : Shared A) × (t : T) × (o ≡ ok sh t))
  Outcome-cases fault = inl refl
  Outcome-cases (ok sh t) = inr (sh, t, refl)

  -- No schedule of the first `n` threads leads to a fault, and where it ends is reached.
  pub run_turns-Reach :
      (n : ℕ) (turns : List (ℕ × R)) (s : System A T)
      → all_below n turns ≡ true
      → Reach p n s
      → (s' : System A T) × (run_turns s turns ≡ some s') × Reach p n s'
  unfolding run_turns
  run_turns-Reach n [] s below reached = (s, refl, reached)
  run_turns-Reach n ((i, r) ∷ turns) s few reached =
      let (h, below) = below-cons i n (all_below n turns) few in
      elim (Outcome-cases (p.step s.shared (s.threads i) r)) [
        | inl e ↦ absurd (Reach-no_fault p reached i r h e)
        | inr (sh, t, e) ↦
            let (s', run, after) = run_turns-Reach n turns _ below (later reached (pick i r h e)) in
            (s', rw (run_turns, e) run, after)
      ]

  -- The state after some turns of a new system.
  abbrev pub state_after : List (ℕ × R) → System A T
  state_after turns = elim (run_turns (new_system p) turns) [ none ↦ new_system p | some s ↦ s ]

  pub state_after-Reach :
      {n : ℕ} (turns : List (ℕ × R)) → all_below n turns ≡ true → Reach p n (state_after turns)
  state_after-Reach {n} turns below =
      let (s, run, after) = run_turns-Reach n turns (new_system p) below start in
      subst (λ o. Reach p n (elim o [ none ↦ new_system p | some s ↦ s ])) (sym run) after
