-- ===== src/TextDict/Chain.antt =====
-- Chains of src/lua-textdict.c: what `dict_get` finds in one.
use my_skynet.Prelude.{
  ℕ, ◌+◌, ◌-◌, ◌≤◌, ◌<◌, ◌≡◌, refl, ap, ◌∙◌, ◌↔◌, arith, List, [], ◌∷◌, ◌++◌, true, Option, none,
  some, if◌then◌else◌, append-nil,
}
use my_skynet.Prelude.Bits.{bit_and-le}
use my_skynet.TextDict.{Text, DictNode, same_text, bucket_of, find, hash_key}

pub same_text_iff : (a b : Text) → (same_text a b ≡ true) ↔ (a ≡ b)
unfolding same_text
same_text_iff [] [] = (λ e. refl, λ e. refl)
same_text_iff [] (d ∷ b) = (λ e. cc, λ e. cc)
same_text_iff (c ∷ a) [] = (λ e. cc, λ e. cc)
same_text_iff (c ∷ a) (d ∷ b) =
    (λ e. ground (arith, (same_text_iff a b).0), λ e. ground (arith, (same_text_iff a b).1))

-- One value or, failing it, another.
abbrev pub or_else : Option Text → Option Text → Option Text
or_else (some v) o = some v
or_else none o = o

abbrev pub hit : Text → DictNode → ℕ
hit k node = if same_text node.key k then 1 else 0

-- How many nodes of the chain have the key.
unfoldable pub count : Text → List DictNode → ℕ
count k [] = 0
count k (node ∷ chain) = hit k node + count k chain

pub count-append : (k : Text) (a b : List DictNode) → count k (a ++ b) ≡ count k a + count k b
unfolding count
count-append k [] b = omega arith
count-append k (n ∷ a) b = omega (arith, count-append k a b)

pub find-zero : (k : Text) (chain : List DictNode) → count k chain ≡ 0 → find k chain ≡ none
unfolding find count
find-zero k [] h = refl
find-zero k (n ∷ chain) h = ground (arith, find-zero k chain)

-- Two lists of pairs which one key cannot tell apart: it stands as often in both, and where that is
-- at most once both give it the same value.
abbrev pub Same : Text → List DictNode → List DictNode → Type 0
Same k a b = (count k a ≡ count k b) × (count k a ≤ 1 → find k a ≡ find k b)

pub find-append : (k : Text) (a b : List DictNode) → find k (a ++ b) ≡ or_else (find k a) (find k b)
unfolding find
find-append k [] b = refl
find-append k (n ∷ a) b = ground (arith, find-append k a b)

pub trans_Same : (k : Text) (a b c : List DictNode) → Same k a b → Same k b c → Same k a c
trans_Same k a b c s t = (s.0 ∙ t.0, λ le. s.1 le ∙ t.1 (omega (arith, s.0)))

pub cons-Same :
    (k : Text) (n : DictNode) (a b : List DictNode) → Same k a b → Same k (n ∷ a) (n ∷ b)
unfolding find count
cons-Same k n a b s = (omega (arith, s.0), λ le. ground (arith, s.1, s.0))

pub append_nil-Same : (k : Text) (a : List DictNode) → Same k (a ++ []) a
append_nil-Same k a = (ap (count k) (append-nil a), λ le. ap (find k) (append-nil a))

-- Two parts of a list may change places.
pub append-Same : (k : Text) (a b c : List DictNode) → Same k (a ++ (b ++ c)) ((b ++ a) ++ c)
append-Same k a b c = (
  omega (
    arith,
    count-append k a (b ++ c),
    count-append k b c,
    count-append k (b ++ a) c,
    count-append k b a,
  ),
  λ le. ground (
    arith,
    find-append k a (b ++ c),
    find-append k b c,
    find-append k (b ++ a) c,
    find-append k b a,
    find-zero k a,
    find-zero k b,
    count-append k a (b ++ c),
    count-append k b c,
  ),
)

pub bucket_of-lt : (n : ℕ) (k : Text) → 0 < n → bucket_of n k < n
unfolding bucket_of
bucket_of-lt n k h = omega (arith, bit_and-le (hash_key k) (n - 1))
