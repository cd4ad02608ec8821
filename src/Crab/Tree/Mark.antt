-- ===== src/Crab/Tree/Mark.antt =====
-- The end of `_dict_insert` in src/lua-crab.c: marking the last node of a word puts that word in, and no other.
use my_skynet.Prelude.{
  ℕ, ◌≡◌, ◌↔◌, refl, sym, ap, ◌∙◌, arith, List, [], ◌∷◌, ◌++◌, Bool, true, false, ◌&&◌, ◌||◌,
  Option, none, some, ◌==◌, ==_iff, if◌then◌else◌, Bool-cases, Option-cases, inl, inr,
}
use my_skynet.Crab.{terminator}
use my_skynet.Crab.Words.{Tables}
use my_skynet.Crab.Tree.{next, view_in, spot, has_word, IsTree, spot-label}
use my_skynet.Crab.Tree.Quiet.{spot_keeps}

unfoldable pub same : List ℕ → List ℕ → Bool
same [] [] = true
same [] (y ∷ ys) = false
same (x ∷ xs) [] = false
same (x ∷ xs) (y ∷ ys) = x == y && same xs ys

pub and_both : (x y : Bool) → (x && y) ≡ true → (x ≡ true) × (y ≡ true)
and_both true y e = (refl, e)
and_both false y e = cc

same_to : (xs ys : List ℕ) → same xs ys ≡ true → xs ≡ ys
unfolding same
same_to [] [] e = refl
same_to [] (y ∷ ys) e = cc
same_to (x ∷ xs) [] e = cc
same_to (x ∷ xs) (y ∷ ys) e =
    let (first, rest) = and_both (x == y) (same xs ys) e in
    rw ((==_iff x y).0 first, same_to xs ys rest) refl

same_refl : (xs : List ℕ) → same xs xs ≡ true
unfolding same
same_refl [] = refl
same_refl (x ∷ xs) = ground (arith, same_refl xs)

pub same_iff : (xs ys : List ℕ) → (same xs ys ≡ true) ↔ (xs ≡ ys)
same_iff xs ys = (same_to xs ys, λ e. rw e (same_refl ys))

same_not : (xs ys : List ℕ) → (xs ≡ ys → ⊥) → same xs ys ≡ false
same_not xs ys h = elim (Bool-cases (same xs ys)) [
  | inl e ↦ absurd (h (same_to xs ys e))
  | inr e ↦ e
]

pub both : (b a s r : ℕ) → (b == a && s == r) ≡ true → (b ≡ a) × (s ≡ r)
both b a s r e =
    let (first, second) = and_both (b == a) (s == r) e in
    ((==_iff b a).0 first, (==_iff s r).0 second)

module _ (mem mem' : Tables) (a r flag : ℕ) (value : Option ℕ) (t : IsTree mem)
    (before : view_in mem a r ≡ some (flag, value))
    (after : (b s : ℕ)
      → view_in mem' b s
        ≡ (if b == a && s == r then some (terminator, value) else view_in mem b s)) where
  at_mark :
      (b s : ℕ)
      → b ≡ a
      → s ≡ r
      → (view_in mem' b s ≡ some (terminator, value)) × (view_in mem b s ≡ some (flag, value))
  at_mark b s e f =
      let here : (b == a && s == r) ≡ true = ground (arith, e, f) in
      (after b s ∙ rw here refl, rw (e, f) before)

  pub marked_next : (b s : ℕ) → next (view_in mem' b s) ≡ next (view_in mem b s)
  marked_next b s = elim (Bool-cases (b == a && s == r)) [
    | inl e ↦
        let (i, j) = both b a s r e in let (now, then_) = at_mark b s i j in rw (now, then_) refl
    | inr e ↦ rw (after b s, e) refl
  ]

  to_marked :
      (q0 : ℕ) (q : List ℕ) (x : ℕ × ℕ) → spot mem 0 q0 q ≡ some x → spot mem' 0 q0 q ≡ some x
  to_marked q0 q x = spot_keeps mem mem' (λ b s c e. marked_next b s ∙ e) 0 q0 q x

  from_marked :
      (q0 : ℕ) (q : List ℕ) (x : ℕ × ℕ) → spot mem' 0 q0 q ≡ some x → spot mem 0 q0 q ≡ some x
  from_marked q0 q x = spot_keeps mem' mem (λ b s c e. sym (marked_next b s) ∙ e) 0 q0 q x

  module _ (p0 : ℕ) (p : List ℕ) (place : spot mem 0 p0 p ≡ some (a, r)) where
    -- The word at the mark is the one that leads there.
    at_mark_word : (q0 : ℕ) (q : List ℕ) → spot mem 0 q0 q ≡ some (a, r) → q0 ∷ q ≡ p0 ∷ p
    at_mark_word q0 q e =
        let word : t.label 0 ++ q0 ∷ q ≡ t.label 0 ++ p0 ∷ p =
          sym (spot-label mem t 0 q0 q a r e) ∙ spot-label mem t 0 p0 p a r place in
        ap (λ x. x ++ q0 ∷ q) (sym t.root) ∙ word ∙ ap (λ x. x ++ p0 ∷ p) t.root

    at_place : (q0 : ℕ) (q : List ℕ) → q0 ∷ q ≡ p0 ∷ p → spot mem 0 q0 q ≡ some (a, r)
    at_place q0 q e = ap (λ x. elim x [ [] ↦ none | y ∷ ys ↦ spot mem 0 y ys ]) e ∙ place

    lands :
        (q0 : ℕ) (q : List ℕ) (b s : ℕ)
        → spot mem 0 q0 q ≡ some (b, s)
        → has_word mem' 0 q0 q ≡ (has_word mem 0 q0 q || same (q0 ∷ q) (p0 ∷ p))
    unfolding has_word
    lands q0 q b s e =
        rw (has_word, e, to_marked q0 q (b, s) e)
          (elim (Bool-cases (b == a && s == r)) [
            | inl f ↦
                let (i, j) = both b a s r f in
                let (now, then_) = at_mark b s i j in
                let word = at_mark_word q0 q (rw (e, i, j) refl) in
                rw (now, (same_iff (q0 ∷ q) (p0 ∷ p)).1 word) (ground arith)
            | inr f ↦
                let other : same (q0 ∷ q) (p0 ∷ p) ≡ false = same_not (q0 ∷ q) (p0 ∷ p) (λ w.
                  let at : ◌≡◌ {A = Option (ℕ × ℕ)} (some (b, s)) (some (a, r)) =
                    sym e ∙ at_place q0 q w in
                  let i : b ≡ a = cc in let j : s ≡ r = cc in ground (arith, f, i, j)) in
                rw (after b s, f, other) (ground arith)
          ])

    pub marked_words :
        (q0 : ℕ) (q : List ℕ)
        → has_word mem' 0 q0 q ≡ (has_word mem 0 q0 q || same (q0 ∷ q) (p0 ∷ p))
    unfolding has_word
    marked_words q0 q = elim (Option-cases (spot mem 0 q0 q)) [
      | inr ((b, s), e) ↦ lands q0 q b s e
      | inl e ↦
          let other : same (q0 ∷ q) (p0 ∷ p) ≡ false = same_not (q0 ∷ q) (p0 ∷ p) (λ w.
            let bad : ◌≡◌ {A = Option (ℕ × ℕ)} none (some (a, r)) = sym e ∙ at_place q0 q w in
            cc) in
          elim (Option-cases (spot mem' 0 q0 q)) [
            | inl f ↦ rw (has_word, e, f, other) refl
            | inr (x, f) ↦
                let bad : ◌≡◌ {A = Option (ℕ × ℕ)} none (some x) = sym e ∙ from_marked q0 q x f in
                cc
          ]
    ]
