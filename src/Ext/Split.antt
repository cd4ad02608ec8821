-- ===== src/Ext/Split.antt =====
-- `split_string` of src/lua-ext.c.
use my_skynet.Prelude.{
  ℕ, zero, suc, ◌+◌, ◌≤◌, ◌≡◌, ◌≢◌, refl, ap, ◌∙◌, arith, List, [], ◌∷◌, ◌++◌, true, length, get_or,
  take, drop, none, some, length-append,
}
use native.Mathlib.Decide.{ℕ_discrete}
use native.Mathlib.Numerals.{add-one}
use my_skynet.Ext.{stands_at, strstr, split_from, split_string}

-- A text without the byte `c` and without a 0.
abbrev pub Lacks : ℕ → List ℕ → Type 0
Lacks c [] = Unit {0}
Lacks c (d ∷ s) = (d ≢ c) × (d ≢ 0) × Lacks c s

abbrev pub AllLack : ℕ → List (List ℕ) → Type 0
AllLack c [] = Unit {0}
AllLack c (p ∷ pieces) = Lacks c p × AllLack c pieces

-- The pieces with `c` between them.
unfoldable pub join : ℕ → List (List ℕ) → List ℕ
join c [] = []
join c (p ∷ []) = p
join c (p ∷ q ∷ pieces) = p ++ c ∷ join c (q ∷ pieces)

-- What the search finds behind a text that lacks the first byte of the separator.
strstr-Lacks :
    (a : List ℕ) (c : ℕ) (e b : List ℕ)
    → Lacks c a
    → c ≢ 0
    → stands_at (c ∷ e) (c ∷ b) ≡ true
    → strstr (a ++ c ∷ b) (c ∷ e) ≡ some (length a)
unfolding strstr
strstr-Lacks [] c e b l z h = rw h
strstr-Lacks (d ∷ a) c e b l z h = let rest = strstr-Lacks a c e b l.2 z h in ground (arith, rest)

strstr-none : (a : List ℕ) (c : ℕ) (e : List ℕ) → Lacks c a → strstr a (c ∷ e) ≡ none
unfolding strstr
strstr-none [] c e l = refl
strstr-none (d ∷ a) c e l = ground (arith, strstr-none a c e l.2)

get_or-length : (a : List ℕ) (c : ℕ) (b : List ℕ) → get_or (a ++ c ∷ b) (length a) 0 ≡ c
get_or-length [] c b = refl
get_or-length (d ∷ a) c b = get_or-length a c b

take-length : (a b : List ℕ) → take (length a) (a ++ b) ≡ a
take-length [] b = refl
take-length (d ∷ a) b = ap (◌∷◌ d) (take-length a b)

drop-length_next : (a : List ℕ) (c : ℕ) (b : List ℕ) → drop (length a + 1) (a ++ c ∷ b) ≡ b
drop-length_next a c b = rw add-one (dropped a)
  where
    dropped : (a : List ℕ) → drop (suc (length a)) (a ++ c ∷ b) ≡ b
    dropped [] = refl
    dropped (d ∷ a) = dropped a

-- One round: a separator of any length is found, and only its first byte is taken off.
split_from-found :
    (fuel : ℕ) (a : List ℕ) (c : ℕ) (e b : List ℕ)
    → Lacks c a
    → c ≢ 0
    → stands_at (c ∷ e) (c ∷ b) ≡ true
    → split_from (suc fuel) (c ∷ e) (a ++ c ∷ b) ≡ a ∷ split_from fuel (c ∷ e) b
unfolding split_from
split_from-found fuel a c e b l z h =
    rw
      (
        strstr-Lacks a c e b l z h,
        split_from,
        get_or-length a c b,
        take-length a (c ∷ b),
        drop-length_next a c b,
      )
      (ground arith)

-- A text is free of `c`, or splits at the first `c`.
data Cut (c : ℕ) (s : List ℕ) : Type 0 where
  whole : Lacks c s → Cut c s
  at : (a b : List ℕ) → s ≡ a ++ c ∷ b → Lacks c a → Cut c s

abbrev pub NoZero : List ℕ → Type 0
NoZero [] = Unit {0}
NoZero (d ∷ s) = (d ≢ 0) × NoZero s

Cut-cons : (c d : ℕ) (s : List ℕ) → d ≢ c → d ≢ 0 → Cut c s → Cut c (d ∷ s)
Cut-cons c d s n z (whole l) = whole (n, z, l)
Cut-cons c d s n z (at a b e l) = at (d ∷ a) b (ap (◌∷◌ d) e) (n, z, l)

cut : (c : ℕ) (s : List ℕ) → NoZero s → Cut c s
cut c [] z = whole tt
cut c (d ∷ s) z =
    let rest = cut c s z.1 in
    elim (ℕ_discrete d c) [ yes e ↦ at [] s (rw e) tt | no n ↦ Cut-cons c d s n z.0 rest ]

NoZero-after : (a : List ℕ) (c : ℕ) (b : List ℕ) → NoZero (a ++ c ∷ b) → NoZero b
NoZero-after [] c b z = z.1
NoZero-after (d ∷ a) c b z = NoZero-after a c b z.1

-- The pieces of a text at a separator of one byte: joined again they are the text, and none holds
-- the separator.
pub record IsSplit (c : ℕ) (s : List ℕ) (pieces : List (List ℕ)) : Type 0 where
  pub joined : join c pieces ≡ s
  pub free : AllLack c pieces
  pub filled : pieces ≢ []

join-cons :
    (c : ℕ) (a : List ℕ) (pieces : List (List ℕ))
    → pieces ≢ []
    → join c (a ∷ pieces) ≡ a ++ c ∷ join c pieces
unfolding join
join-cons c a [] h = absurd (h refl)
join-cons c a (q ∷ pieces) h = refl

split_from-IsSplit :
    (fuel c : ℕ) (s : List ℕ)
    → length s ≤ fuel
    → c ≢ 0
    → NoZero s
    → IsSplit c s (split_from fuel (c ∷ []) s)
unfolding split_from
split_from-IsSplit zero c [] f z n = record {
  joined = unfold join in refl;
  free = (tt, tt);
  filled = ground arith;
}
split_from-IsSplit zero c (d ∷ s) f z n = absurd (omega arith)
split_from-IsSplit (suc fuel) c s f z n = elim (cut c s n) [
  | whole l ↦
      rw (strstr-none s c [] l, split_from)
        (record { joined = unfold join in refl; free = (l, tt); filled = ground arith })
  | at a b e l ↦
      let shorter : length b ≤ fuel = omega (arith, ap length e, length-append a (c ∷ b)) in
      let ih = split_from-IsSplit fuel c b shorter z (NoZero-after a c b (rw e at n)) in
      rw (e, split_from-found fuel a c [] b l z (unfold stands_at in ground arith))
        (record {
          joined = join-cons c a _ ih.filled ∙ ap (λ t. a ++ c ∷ t) ih.joined;
          free = (l, ih.free);
          filled = ground arith;
        })
]

-- At a separator of one byte, not 0, `split_string` cuts a text that is not empty and holds no 0 at
-- every place where the separator stands, and at no other.
pub split_string-IsSplit :
    (c : ℕ) (s : List ℕ) → c ≢ 0 → s ≢ [] → NoZero s → IsSplit c s (split_string s (c ∷ []))
unfolding split_string
split_string-IsSplit c [] z d n = absurd (d refl)
split_string-IsSplit c (x ∷ s) z d n =
    let ih = split_from-IsSplit (suc (length s)) c (x ∷ s) (omega arith) z n in ground (arith, ih)

-- A text with one place of a separator of two bytes, different and not 0, whose first byte stands
-- nowhere else, and no 0 in the text: the piece behind that place still begins with the second byte of
-- the separator.
pub split_string_long :
    (a : List ℕ) (c d : ℕ) (b : List ℕ)
    → Lacks c a
    → Lacks c b
    → c ≢ 0
    → d ≢ 0
    → d ≢ c
    → split_string (a ++ c ∷ d ∷ b) (c ∷ d ∷ []) ≡ a ∷ (d ∷ b) ∷ []
unfolding split_string split_from
split_string_long a c d b la lb z y n =
    let more = length a + length b in
    let size : length (a ++ c ∷ d ∷ b) ≡ suc (suc more) =
      omega (arith, length-append a (c ∷ d ∷ b)) in
    let found : stands_at (c ∷ d ∷ []) (c ∷ d ∷ b) ≡ true = unfold stands_at in ground arith in
    rw
      (
        size,
        split_from-found (suc more) a c (d ∷ []) (d ∷ b) la z found,
        split_from,
        strstr-none (d ∷ b) c (d ∷ []) (n, y, lb),
      )
      (ground arith)
