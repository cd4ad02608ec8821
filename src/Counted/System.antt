-- ===== src/Counted/System.antt =====
-- A shared pointer to a counted block, behind a lock, and threads that run a protocol on it: what the
-- protocol of one thread has to keep, and what then holds of all of them, however they take turns.
use my_skynet.Prelude.{
  ℕ, ◌+◌, ◌≤◌, ◌<◌, ◌≡◌, ◌≢◌, ◌⊎◌, refl, arith, List, [], Bool, false, Option, none, ◌==◌, ==_iff,
  if◌then◌else◌, inl, inr, Bool-cases,
}
use native.Mathlib.Decide.{ℕ_discrete}
use mathlib.Core.Path.{subst}
use my_skynet.Counted.{Cell, points, ref_of, freed_of, AreLive}
use my_skynet.Counted.Threads.{update, total, total-update, total-ge, total-two, total-zero}

-- The memory, the shared pointer and the lock.
pub record Shared (A : Type 0) : Type 0 where
  pub cells : List (Cell A)
  pub ctx : Option ℕ
  pub lock : Bool

-- What a step of a thread ends in.
pub data Outcome (A T : Type 0) : Type 0 where
  fault : Outcome A T
  ok : Shared A → T → Outcome A T

pub record System (A T : Type 0) : Type 0 where
  pub shared : Shared A
  pub threads : ℕ → T

abbrev pub lock_bit : Bool → ℕ
lock_bit b = if b then 1 else 0

-- `held` says how often a thread refers to an address, `inside` is 1 between `LOCK` and `UNLOCK`, `Agree`
-- is what a thread knows of the shared pointer, and `Change` what the owner of the lock may do to it.
module _ {A T : Type 0} (held : ℕ → T → ℕ) (inside : T → ℕ) (Agree : Option ℕ → T → Type 0)
    (Change : Option ℕ → Option ℕ → Type 0) where
  -- What a step of one thread has to leave.
  pub record Fits (sh sh' : Shared A) (t t' : T) : Type 0 where
    pub live : AreLive sh'.cells
    pub moved :
        (a : ℕ)
        → ref_of sh'.cells a + (points sh.ctx a + held a t)
          ≡ ref_of sh.cells a + (points sh'.ctx a + held a t')
    pub bit : lock_bit sh'.lock + inside t ≡ lock_bit sh.lock + inside t'
    pub owner : (sh'.ctx ≡ sh.ctx) ⊎ ((inside t ≡ 1) × Change sh.ctx sh'.ctx)
    pub agree : Agree sh'.ctx t'

  -- An outcome that is no fault, and whose state fits.
  unfoldable pub IsGood : Shared A → T → Outcome A T → Type 0
  IsGood sh t fault = ⊥
  IsGood sh t (ok sh' t') = Fits sh sh' t t'

-- The protocol of a thread that serves requests, and the laws of its steps.
pub record Protocol (A T R : Type 0) : Type 1 where
  pub step : Shared A → T → R → Outcome A T
  pub fresh : T
  pub held : ℕ → T → ℕ
  pub inside : T → ℕ
  pub Agree : Option ℕ → T → Type 0
  pub Change : Option ℕ → Option ℕ → Type 0
  pub fresh_lem : ((a : ℕ) → held a fresh ≡ 0) × (inside fresh ≡ 0) × Agree none fresh
  pub stable :
      (ctx ctx' : Option ℕ) (t : T) → inside t ≡ 0 → Change ctx ctx' → Agree ctx t → Agree ctx' t
  pub good :
      (sh : Shared A) (t : T) (r : R)
      → AreLive sh.cells
      → ((a : ℕ) → points sh.ctx a + held a t ≤ ref_of sh.cells a)
      → inside t ≤ lock_bit sh.lock
      → Agree sh.ctx t
      → IsGood held inside Agree Change sh t (step sh t r)

module _ {A T R : Type 0} (p : Protocol A T R) where
  abbrev pub new_system : System A T
  new_system = record {
    shared = record { cells = []; ctx = none; lock = false };
    threads = λ i. p.fresh;
  }

  -- One of the first `n` threads takes a step.
  pub data Step (n : ℕ) (s : System A T) : System A T → Type 0 where
    pick :
        {sh : Shared A} {t : T} (i : ℕ) (r : R)
        → i < n
        → p.step s.shared (s.threads i) r ≡ ok sh t
        → Step n s (record { shared = sh; threads = update s.threads i t })

  -- The states that the threads get to.
  pub data Reach (n : ℕ) : System A T → Type 0 where
    start : Reach n new_system
    later : {s s' : System A T} → Reach n s → Step n s s' → Reach n s'

  pub record IsValid (n : ℕ) (sh : Shared A) (threads : ℕ → T) : Type 0 where
    pub live : AreLive sh.cells
    pub counted : (a : ℕ) → ref_of sh.cells a ≡ points sh.ctx a + total (p.held a) n threads
    pub locked : lock_bit sh.lock ≡ total p.inside n threads
    pub agree : (i : ℕ) → i < n → p.Agree sh.ctx (threads i)

  -- A step of one thread leaves what the others know.
  others_agree :
      (n : ℕ) (sh sh' : Shared A) (threads : ℕ → T) (i j : ℕ)
      → i < n
      → j < n
      → i ≢ j
      → IsValid n sh threads
      → (sh'.ctx ≡ sh.ctx) ⊎ ((p.inside (threads i) ≡ 1) × p.Change sh.ctx sh'.ctx)
      → p.Agree sh'.ctx (threads j)
  others_agree n sh sh' threads i j h k d v (inl same) = rw same (v.agree j k)
  others_agree n sh sh' threads i j h k d v (inr (here, change)) =
      let outside : p.inside (threads j) ≡ 0 =
        ground (arith, here, v.locked, total-two p.inside n i j threads h k d) in
      p.stable sh.ctx sh'.ctx (threads j) outside change (v.agree j k)

  Fits-IsValid :
      (n : ℕ) (sh sh' : Shared A) (threads : ℕ → T) (i : ℕ) (t' : T)
      → i < n
      → IsValid n sh threads
      → Fits p.held p.inside p.Agree p.Change sh sh' (threads i) t'
      → IsValid n sh' (update threads i t')
  Fits-IsValid n sh sh' threads i t' h v f = record {
    live = f.live;
    counted = λ a. omega (arith, f.moved a, v.counted a, total-update (p.held a) n i t' threads h);
    locked = omega (arith, f.bit, v.locked, total-update p.inside n i t' threads h);
    agree = λ j k. elim (Bool-cases (i == j)) [
      | inl e ↦ rw e f.agree
      | inr e ↦ rw e (
          others_agree n sh sh' threads i j h k (λ same. ground (arith, e, (==_iff i j).1 same)) v
            f.owner)
    ];
  }

  module _ (n : ℕ) (sh : Shared A) (threads : ℕ → T) (v : IsValid n sh threads) (i : ℕ) (r : R)
      (h : i < n) where
    step-IsGood : IsGood p.held p.inside p.Agree p.Change sh (threads i) (p.step sh (threads i) r)
    step-IsGood =
        p.good sh (threads i) r v.live
          (λ a. omega (arith, v.counted a, total-ge (p.held a) n i threads h))
          (omega (arith, v.locked, total-ge p.inside n i threads h)) (v.agree i h)

    step-no_fault : p.step sh (threads i) r ≢ fault
    unfolding IsGood
    step-no_fault e = subst (IsGood p.held p.inside p.Agree p.Change sh (threads i)) e step-IsGood

    step-IsValid :
        (sh' : Shared A) (t' : T)
        → p.step sh (threads i) r ≡ ok sh' t'
        → IsValid n sh' (update threads i t')
    unfolding IsGood
    step-IsValid sh' t' e =
        Fits-IsValid n sh sh' threads i t' h v
          (subst (IsGood p.held p.inside p.Agree p.Change sh (threads i)) e step-IsGood)

  new_system-IsValid : (n : ℕ) → IsValid n new_system.shared new_system.threads
  unfolding ref_of freed_of
  new_system-IsValid n = record {
    live = λ a. refl;
    counted = λ a. omega (arith, total-zero (p.held a) n (λ i. p.fresh) (λ i. p.fresh_lem.0 a));
    locked = omega (arith, total-zero p.inside n (λ i. p.fresh) (λ i. p.fresh_lem.1));
    agree = λ i h. p.fresh_lem.2;
  }

  pub Reach-IsValid : {n : ℕ} {s : System A T} → Reach n s → IsValid n s.shared s.threads
  Reach-IsValid {n} start = new_system-IsValid n
  Reach-IsValid {n} (later {s} rest (pick i r h e)) =
      step-IsValid n s.shared s.threads (Reach-IsValid rest) i r h _ _ e

  pub Reach-no_fault :
      {n : ℕ} {s : System A T}
      → Reach n s
      → (i : ℕ) (r : R) → i < n
      → p.step s.shared (s.threads i) r ≢ fault
  Reach-no_fault {n} {s} rest i r h = step-no_fault n s.shared s.threads (Reach-IsValid rest) i r h

  pub Reach-exclusive :
      {n : ℕ} {s : System A T}
      → Reach n s
      → (i j : ℕ) → i < n
      → j < n
      → p.inside (s.threads i) ≡ 1
      → p.inside (s.threads j) ≡ 1
      → i ≡ j
  Reach-exclusive {n} {s} rest i j h k e f = elim (ℕ_discrete i j) [
    | yes same ↦ same
    | no d ↦
        ground (arith, e, f, (Reach-IsValid rest).locked, total-two p.inside n i j s.threads h k d)
  ]
