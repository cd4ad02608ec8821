-- ===== src/Counted/Slot/Alone.antt =====
-- One thread of a protocol that takes its turns while no other does: the shared pointer stays as it is.
use my_skynet.Prelude.{
  ℕ, suc, ◌<◌, ◌≡◌, ◌⊎◌, inl, inr, refl, ◌∙◌, arith, Bool, Option, none, some, replicate,
  Option-cases,
}
use my_skynet.Counted.{grab_ref, release_ref}
use my_skynet.Counted.Threads.{update}
use my_skynet.Counted.System.{
  Shared, Outcome, fault, ok, System, Protocol, pick, Reach, later, Reach-no_fault,
}
use my_skynet.Counted.Schedule.{run_turns}
use my_skynet.Counted.Slot.{Thread, release, count_up}

-- An outcome: a fault, or a state in which the shared pointer is as it was.
unfoldable pub Keeps : {A T : Type 0} → Shared A → Outcome A T → T → Bool → Type 0
Keeps {A} sh o t l =
    (o ≡ fault) ⊎ ((sh' : Shared A) × (o ≡ ok sh' t) × (sh'.ctx ≡ sh.ctx) × (sh'.lock ≡ l))

module _ {A P : Type 0} where
  pub release-Keeps :
      (sh : Shared A) (t : Thread P) (old : Option ℕ) (next : P) (l : Bool)
      → sh.lock ≡ l
      → Keeps sh (release sh t old next) (record t { point = next }) l
  unfolding release Keeps
  release-Keeps sh t none next l e = inr (sh, refl, refl, e)
  release-Keeps sh t (some c) next l e = elim (Option-cases (release_ref sh.cells c)) [
    | inl f ↦ inl (rw (release, f) refl)
    | inr (cells, f) ↦ inr (record sh { cells = cells }, rw (release, f) refl, refl, e)
  ]

  pub count_up-Keeps :
      (sh : Shared A) (t : Thread P) (new : Option ℕ) (next : P) (l : Bool)
      → sh.lock ≡ l
      → Keeps sh (count_up sh t new next) (record t { point = next }) l
  unfolding count_up Keeps
  count_up-Keeps sh t none next l e = inr (sh, refl, refl, e)
  count_up-Keeps sh t (some c) next l e = elim (Option-cases (grab_ref sh.cells c)) [
    | inl f ↦ inl (rw (count_up, f) refl)
    | inr (cells, f) ↦ inr (record sh { cells = cells }, rw (count_up, f) refl, refl, e)
  ]

module _ {A P R : Type 0} (p : Protocol A (Thread P) R) (r : R) (goal : P) {n : ℕ} (i : ℕ)
    (h : i < n) (c : ℕ) where
  -- The state of a thread, with the shared pointer set and the lock as given.
  pub record Stands (s : System A (Thread P)) (t : Thread P) (l : Bool) : Type 0 where
    pub thread : s.threads i ≡ t
    pub shared : s.shared.ctx ≡ some c
    pub locked : s.shared.lock ≡ l
    pub reached : Reach p n s

  -- So many turns of the thread bring it to the goal.
  unfoldable pub Gets : System A (Thread P) → ℕ → Type 0
  Gets s k =
      (s' : System A (Thread P)) × (run_turns p s (replicate k (i, r)) ≡ some s')
      × (((s'.threads i).point ≡ goal) × (s'.shared.ctx ≡ some c))

  pub turn :
      (s : System A (Thread P)) (t t' : Thread P) (l l' : Bool) (k : ℕ)
      → Stands s t l
      → Keeps s.shared (p.step s.shared t r) t' l'
      → ((s' : System A (Thread P)) → Stands s' t' l' → Gets s' k)
      → Gets s (suc k)
  unfolding run_turns Keeps Gets
  turn s t t' l l' k here (inl e) rest =
      absurd (Reach-no_fault p here.reached i r h (rw here.thread e))
  turn s t t' l l' k here (inr (sh, e, same, locked)) rest =
      let run : p.step s.shared (s.threads i) r ≡ ok sh t' = rw here.thread e in
      let next : System A (Thread P) = record { shared = sh; threads = update s.threads i t' } in
      let (s', runs, ends) = rest next (record {
        thread = ground arith;
        shared = same ∙ here.shared;
        locked = locked;
        reached = later here.reached (pick i r h run);
      }) in
      (s', rw (run_turns, run) runs, ends)
