-- ===== src/TextDict/Table.antt =====
-- The table of src/lua-textdict.c: what adding a node and a resize do to what is found.
use my_skynet.Prelude.{
  ℕ, zero, suc, ◌+◌, ◌<◌, ◌≡◌, ◌≢◌, refl, ap, ◌∙◌, arith, List, [], ◌∷◌, none, length, get_or, set,
  replicate, length-set, sym, inl, inr, Bool-cases,
}
use mathlib.Core.List.{flatten}
use my_skynet.TextDict.{Text, DictNode, Ctx, same_text, bucket_of, add_node, find}
use my_skynet.TextDict.Chain.{same_text_iff, count, count-append, find-zero, find-append, Same}

-- The chain where a key belongs.
abbrev pub chain_of : Ctx → Text → List DictNode
chain_of ctx k = get_or ctx.buckets (bucket_of ctx.nbucket k) []

abbrev pub InBucket : ℕ → ℕ → List DictNode → Type 0
InBucket n i [] = Unit {0}
InBucket n i (node ∷ chain) = (bucket_of n node.key ≡ i) × InBucket n i chain

abbrev pub Placed : ℕ → ℕ → List (List DictNode) → Type 0
Placed n i [] = Unit {0}
Placed n i (chain ∷ buckets) = InBucket n i chain × Placed n (suc i) buckets

-- Every node is in the bucket of its key.
pub record IsValid (ctx : Ctx) : Type 0 where
  pub size : length ctx.buckets ≡ ctx.nbucket
  pub placed : Placed ctx.nbucket 0 ctx.buckets

count-InBucket :
    (n i : ℕ) (k : Text) (chain : List DictNode)
    → bucket_of n k ≢ i
    → InBucket n i chain
    → count k chain ≡ 0
unfolding count
count-InBucket n i k [] d h = refl
count-InBucket n i k (node ∷ chain) d h =
    let rest = count-InBucket n i k chain d h.1 in
    elim (Bool-cases (same_text node.key k)) [
      | inl e ↦ absurd (d (ap (bucket_of n) (sym ((same_text_iff node.key k).0 e)) ∙ h.0))
      | inr e ↦ rw e (omega (arith, rest))
    ]

later-Placed :
    (n i : ℕ) (k : Text) (buckets : List (List DictNode))
    → bucket_of n k < i
    → Placed n i buckets
    → count k (flatten buckets) ≡ 0
unfolding count flatten
later-Placed n i k [] d p = refl
later-Placed n i k (chain ∷ buckets) d p =
    let rest = later-Placed n (suc i) k buckets (omega (arith, d)) p.1 in
    let here = count-InBucket n i k chain (omega (arith, d)) p.0 in
    omega (arith, rest, here, count-append k chain (flatten buckets))

-- All nodes of the table with a key stand in its chain.
count-flatten :
    (n i j : ℕ) (k : Text) (buckets : List (List DictNode))
    → bucket_of n k ≡ i + j
    → Placed n i buckets
    → count k (flatten buckets) ≡ count k (get_or buckets j [])
unfolding count flatten
count-flatten n i j k [] e p = refl
count-flatten n i zero k (chain ∷ buckets) e p = omega (
  arith,
  later-Placed n (suc i) k buckets (omega (arith, e)) p.1,
  count-append k chain (flatten buckets),
)
count-flatten n i (suc j) k (chain ∷ buckets) e p = omega (
  arith,
  count-flatten n (suc i) j k buckets (omega (arith, e)) p.1,
  count-InBucket n i k chain (omega (arith, e)) p.0,
  count-append k chain (flatten buckets),
)

set-Placed :
    (n i j : ℕ) (node : DictNode) (buckets : List (List DictNode))
    → bucket_of n node.key ≡ i + j
    → Placed n i buckets
    → Placed n i (set buckets j (node ∷ get_or buckets j []))
set-Placed n i j node [] e p = tt
set-Placed n i zero node (chain ∷ buckets) e p = ((omega arith, p.0), p.1)
set-Placed n i (suc j) node (chain ∷ buckets) e p =
    (p.0, set-Placed n (suc i) j node buckets (omega arith) p.1)

pub add_node-IsValid : (ctx : Ctx) (node : DictNode) → IsValid ctx → IsValid (add_node ctx node)
unfolding add_node
add_node-IsValid ctx node v = record {
  size = length-set ctx.buckets (bucket_of ctx.nbucket node.key) _ ∙ v.size;
  placed =
      set-Placed ctx.nbucket 0 (bucket_of ctx.nbucket node.key) node ctx.buckets (omega arith)
        v.placed;
}

find-InBucket :
    (n i : ℕ) (k : Text) (chain : List DictNode)
    → bucket_of n k ≢ i
    → InBucket n i chain
    → find k chain ≡ none
find-InBucket n i k chain d h = find-zero k chain (count-InBucket n i k chain d h)

-- One key cannot tell the pairs of its chain from those of the whole table.
pub flatten-Same :
    (n i j : ℕ) (k : Text) (buckets : List (List DictNode))
    → bucket_of n k ≡ i + j
    → Placed n i buckets
    → Same k (flatten buckets) (get_or buckets j [])
unfolding flatten
flatten-Same n i j k [] e p = (refl, λ le. refl)
flatten-Same n i zero k (chain ∷ buckets) e p = (
  count-flatten n i zero k (chain ∷ buckets) e p,
  λ le. ground (
    arith,
    find-append k chain (flatten buckets),
    find-zero k (flatten buckets),
    later-Placed n (suc i) k buckets (omega (arith, e)) p.1,
  ),
)
flatten-Same n i (suc j) k (chain ∷ buckets) e p = (
  count-flatten n i (suc j) k (chain ∷ buckets) e p,
  λ le.
      let rest = flatten-Same n (suc i) j k buckets (omega (arith, e)) p.1 in
      ground (
        arith,
        find-append k chain (flatten buckets),
        find-InBucket n i k chain (omega (arith, e)) p.0,
        count-append k chain (flatten buckets),
        rest.1,
      ),
)

pub replicate-Placed : (n i m : ℕ) → Placed n i (replicate m [])
replicate-Placed n i zero = tt
replicate-Placed n i (suc m) = (tt, replicate-Placed n (suc i) m)

pub get_or-replicate : (m j : ℕ) → get_or {A = List DictNode} (replicate m []) j [] ≡ []
get_or-replicate zero j = refl
get_or-replicate (suc m) zero = refl
get_or-replicate (suc m) (suc j) = get_or-replicate m j
