-- ===== src/Crab/Close/Label.antt =====
-- The labels of the tables of src/lua-crab.c: each names one table, and a label in front of another names a
-- table above the other's.
use my_skynet.Prelude.{
  ℕ, zero, suc, ◌<◌, ◌≡◌, ◌⊎◌, refl, sym, ap, ◌∙◌, arith, List, [], ◌∷◌, ◌++◌, append_assoc,
  append-nil, Bool, true, false, ◌&&◌, Option, some, ◌==◌, ==_iff, length, inl, inr,
}
use my_skynet.Crab.Words.{Tables}
use my_skynet.Crab.Tree.{next, view_in, IsTree}
use my_skynet.Crab.Tree.Mark.{and_both}

unfoldable pub prefix : List ℕ → List ℕ → Bool
prefix [] ys = true
prefix (x ∷ xs) [] = false
prefix (x ∷ xs) (y ∷ ys) = x == y && prefix xs ys

pub prefix_to : (xs ys : List ℕ) → prefix xs ys ≡ true → (rest : List ℕ) × (ys ≡ xs ++ rest)
unfolding prefix
prefix_to [] ys e = (ys, refl)
prefix_to (x ∷ xs) [] e = cc
prefix_to (x ∷ xs) (y ∷ ys) e =
    let (first, more) = and_both (x == y) (prefix xs ys) e in
    let (rest, f) = prefix_to xs ys more in (rest, rw ((==_iff x y).0 first, f) refl)

pub prefix_from : (xs rest : List ℕ) → prefix xs (xs ++ rest) ≡ true
unfolding prefix
prefix_from [] rest = refl
prefix_from (x ∷ xs) rest = ground (arith, prefix_from xs rest)

snoc_cases : (xs : List ℕ) → (xs ≡ []) ⊎ ((front : List ℕ) × (z : ℕ) × (xs ≡ front ++ z ∷ []))
snoc_cases [] = inl refl
snoc_cases (x ∷ xs) = elim (snoc_cases xs) [
  | inl e ↦ inr ([], x, ap (◌∷◌ x) e)
  | inr (front, z, e) ↦ inr (x ∷ front, z, ap (◌∷◌ x) e)
]

append_not : (xs : List ℕ) (z : ℕ) (ys : List ℕ) → xs ++ z ∷ ys ≡ [] → ⊥
append_not [] z ys e = absurd (omega (arith, ap (length {A = ℕ}) e))
append_not (x ∷ xs) z ys e = absurd (omega (arith, ap (length {A = ℕ}) e))

pub same_rest : (xs ys zs : List ℕ) → xs ++ ys ≡ xs ++ zs → ys ≡ zs
same_rest [] ys zs e = e
same_rest (x ∷ xs) ys zs e = same_rest xs ys zs (cc)

snoc_same : (xs ys : List ℕ) (x y : ℕ) → xs ++ x ∷ [] ≡ ys ++ y ∷ [] → (xs ≡ ys) × (x ≡ y)
snoc_same [] [] x y e = (refl, cc)
snoc_same [] (b ∷ ys) x y e =
    let rest : [] ≡ ys ++ y ∷ [] = cc in absurd (append_not ys y [] (sym rest))
snoc_same (a ∷ xs) [] x y e = let rest : xs ++ x ∷ [] ≡ [] = cc in absurd (append_not xs x [] rest)
snoc_same (a ∷ xs) (b ∷ ys) x y e =
    let rest : xs ++ x ∷ [] ≡ ys ++ y ∷ [] = cc in
    let first : a ≡ b = cc in let (f, g) = snoc_same xs ys x y rest in (rw (first, f) refl, g)

module _ (mem : Tables) (t : IsTree mem) where
  -- Only the dictionary has no label in front of it.
  upper :
      (c : ℕ)
      → c < length mem
      → (c ≡ 0)
        ⊎ ((p : ℕ) × (s : ℕ) × (p < c)
            × (next (view_in mem p s) ≡ some c)
            × (t.label c ≡ t.label p ++ s ∷ []))
  upper zero h = inl refl
  upper (suc c) h =
      let (p, s, e) = t.above (suc c) (omega arith) h in
      let (i, j, path) = t.below p s (suc c) e in inr (p, s, i, e, path)

  label_within :
      (fuel a c : ℕ) → a < fuel → a < length mem → c < length mem → t.label a ≡ t.label c → a ≡ c
  label_within zero a c f h k e = absurd (omega (arith, f))
  label_within (suc fuel) a c f h k e = elim (upper a h) [
    | inl a0 ↦ elim (upper c k) [
      | inl c0 ↦ a0 ∙ sym c0
      | inr (q, s, j, go, path) ↦
          absurd (append_not (t.label q) s [] (sym path ∙ sym e ∙ ap t.label a0 ∙ t.root))
    ]
    | inr (p, r, i, up, way) ↦ elim (upper c k) [
      | inl c0 ↦ absurd (append_not (t.label p) r [] (sym way ∙ e ∙ ap t.label c0 ∙ t.root))
      | inr (q, s, j, go, path) ↦
          let (labels, keys) = snoc_same (t.label p) (t.label q) r s (sym way ∙ e ∙ path) in
          let same_p =
            label_within fuel p q (omega (arith, i, f)) (omega (arith, i, h)) (omega (arith, j, k))
              labels in
          let both : ◌≡◌ {A = Option ℕ} (some a) (some c) = sym up ∙ rw (same_p, keys) go in cc
    ]
  ]

  pub label_same : (a c : ℕ) → a < length mem → c < length mem → t.label a ≡ t.label c → a ≡ c
  label_same a c h k e = label_within (suc a) a c (omega arith) h k e

  -- Where a label goes on behind another, the table has a node for the next letter.
  leads_within :
      (fuel a c r : ℕ) (rest : List ℕ)
      → c < fuel
      → a < length mem
      → c < length mem
      → t.label c ≡ t.label a ++ r ∷ rest
      → (b : ℕ) × (next (view_in mem a r) ≡ some b) × (t.label c ≡ t.label b ++ rest)
  leads_within zero a c r rest f h k e = absurd (omega (arith, f))
  leads_within (suc fuel) a c r rest f h k e = elim (upper c k) [
    | inl c0 ↦ absurd (append_not (t.label a) r rest (sym e ∙ ap t.label c0 ∙ t.root))
    | inr (q, s, j, go, path) ↦ elim (snoc_cases rest) [
      | inl none_left ↦
          let (labels, keys) =
            snoc_same (t.label q) (t.label a) s r
              (sym path ∙ e ∙ ap (λ x. t.label a ++ r ∷ x) none_left) in
          let same_q = label_same q a (omega (arith, j, k)) h labels in
          (
            c,
            rw (← same_q, ← keys) go,
            sym (append-nil (t.label c)) ∙ ap (λ x. t.label c ++ x) (sym none_left),
          )
      | inr (front, z, split) ↦
          let way : t.label q ++ s ∷ [] ≡ (t.label a ++ r ∷ front) ++ z ∷ [] =
            sym path
            ∙ e
            ∙ ap (λ x. t.label a ++ r ∷ x) split
            ∙ sym (append_assoc (t.label a) (r ∷ front) (z ∷ [])) in
          let (labels, keys) = snoc_same (t.label q) (t.label a ++ r ∷ front) s z way in
          let (b, leads, more) =
            leads_within fuel a q r front (omega (arith, j, f)) h (omega (arith, j, k)) labels in
          (
            b,
            leads,
            path
                ∙ ap (λ x. x ++ s ∷ []) more
                ∙ append_assoc (t.label b) front (s ∷ [])
                ∙ ap (λ x. t.label b ++ x) (ap (λ (x : ℕ). front ++ x ∷ []) keys ∙ sym split),
          )
    ]
  ]

  pub leads_on :
      (a c r : ℕ) (rest : List ℕ)
      → a < length mem
      → c < length mem
      → t.label c ≡ t.label a ++ r ∷ rest
      → (b : ℕ) × (next (view_in mem a r) ≡ some b) × (t.label c ≡ t.label b ++ rest)
  leads_on a c r rest h k e = leads_within (suc c) a c r rest (omega arith) h k e
