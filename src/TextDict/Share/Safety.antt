-- ===== src/TextDict/Share/Safety.antt =====
-- No thread of src/lua-textdict.c touches a dictionary that was freed.
use my_skynet.Prelude.{ℕ, ◌+◌, ◌<◌, ◌≡◌, ◌≢◌, ◌==◌}
use my_skynet.Counted.{points, ref_of, freed_of}
use my_skynet.Counted.Threads.{total}
use my_skynet.Counted.Slot.Laws.{Agrees}
use my_skynet.Counted.System.{
  fault, System, Protocol, Reach, Reach-IsValid, Reach-no_fault, Reach-exclusive,
}
use my_skynet.TextDict.Share.{DictThread, Request, step, fresh}
use my_skynet.TextDict.Share.Refs.{
  held, inside, AnyChange, dict_roles, LocalsAgree-outside, fresh_Agrees,
}
use my_skynet.TextDict.Share.Steps.{step-IsGood}

-- `dictctx_check` and `dict_change` as a protocol.
abbrev pub dict_protocol : (A : Type 0) → Protocol A DictThread (Request A)
dict_protocol A = record {
  step = step;
  fresh = fresh;
  held = held;
  inside = inside;
  Agree = Agrees dict_roles;
  Change = AnyChange;
  fresh_lem = fresh_Agrees;
  stable = λ ctx ctx' t e u h. LocalsAgree-outside ctx ctx' t.specific t.point e h;
  good = step-IsGood;
}

module _ {A : Type 0} {n : ℕ} {s : System A DictThread}
    (reached : Reach (dict_protocol A) n s) where
  -- However the threads of an instance take turns, no step of theirs touches a dictionary that was freed,
  -- frees one twice or counts below 0.
  pub step-no_fault : (i : ℕ) (r : Request A) → i < n → step s.shared (s.threads i) r ≢ fault
  step-no_fault = Reach-no_fault (dict_protocol A) reached

  -- However the threads take turns, the count of each dictionary is the number of references to it, from the
  -- instance and from the threads, and it is freed exactly when there are none.
  pub ref_of-held :
      (a : ℕ)
      → (ref_of s.shared.cells a ≡ points s.shared.ctx a + total (held a) n s.threads)
        × (freed_of s.shared.cells a ≡ (ref_of s.shared.cells a == 0))
  ref_of-held a = let v = Reach-IsValid (dict_protocol A) reached in (v.counted a, v.live a)

  -- However the threads take turns, two of them are never between `LOCK` and `UNLOCK`.
  pub inside_one :
      (i j : ℕ) → i < n → j < n → inside (s.threads i) ≡ 1 → inside (s.threads j) ≡ 1 → i ≡ j
  inside_one = Reach-exclusive (dict_protocol A) reached
