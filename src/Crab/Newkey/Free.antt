-- ===== src/Crab/Newkey/Free.antt =====
-- The free node that `getfreenode` of src/lua-crab.c finds.
use my_skynet.Prelude.{
  ℕ, zero, suc, ◌<◌, ◌≡◌, ◌⊎◌, refl, arith, List, true, false, none, some, ◌==◌, ==_iff, get_or,
  Bool-cases, inl, inr,
}
use mathlib.Core.Path.{subst}
use my_skynet.Crab.{TableNode, initnode, tisnil, free_from}

-- The loop ends at the last node that is free, or at the front where there is none.
pub free_from_lem :
    (nodes : List TableNode) (last : ℕ)
    → ((i : ℕ) × (free_from nodes last ≡ (suc i, some i))
        × (i < last)
        × (tisnil (get_or nodes i initnode) ≡ true)
        × ((a : ℕ) → i < a → a < last → tisnil (get_or nodes a initnode) ≡ false))
      ⊎ ((free_from nodes last ≡ (0, none))
          × ((a : ℕ) → a < last → tisnil (get_or nodes a initnode) ≡ false))
unfolding free_from
free_from_lem nodes zero = inr (refl, λ a h. absurd (omega (arith, h)))
free_from_lem nodes (suc last) = elim (Bool-cases (tisnil (get_or nodes last initnode))) [
  | inl e ↦
      inl (last, rw (free_from, e) refl, omega arith, e, λ a h k. absurd (omega (arith, h, k)))
  | inr e ↦ elim (free_from_lem nodes last) [
    | inl (i, run, below, free, beyond) ↦ inl (
      i,
      rw (free_from, e) run,
      omega (arith, below),
      free,
      λ a h k. elim (Bool-cases (last == a)) [
        | inl f ↦ subst (λ b. tisnil (get_or nodes b initnode) ≡ false) ((==_iff last a).0 f) e
        | inr f ↦ beyond a h (ground (arith, k, f))
      ],
    )
    | inr (run, beyond) ↦ inr (
      rw (free_from, e) run,
      λ a k. elim (Bool-cases (last == a)) [
        | inl f ↦ subst (λ b. tisnil (get_or nodes b initnode) ≡ false) ((==_iff last a).0 f) e
        | inr f ↦ beyond a (ground (arith, k, f))
      ],
    )
  ]
]
