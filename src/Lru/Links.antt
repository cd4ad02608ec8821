-- ===== src/Lru/Links.antt =====
-- The links of src/lua-lru.c: which addresses stand in the lists and the chains.
use my_skynet.Prelude.{
  ℕ, zero, suc, ◌+◌, ◌-◌, ◌≤◌, ◌<◌, ◌≡◌, refl, ap, arith, List, [], ◌∷◌, some, ◌==◌, if◌then◌else◌,
  length, get_or, set, replicate, inl, inr, Bool-cases,
}
use my_skynet.Prelude.Bits.{bit_and-le_left}
use my_skynet.Lru.{
  LruStore, node_at, unlink, unlink_all, list_prev, hash_key, hash_add, chain_get, hash_get,
}

-- How often an address stands in a list, and in all the chains.
unfoldable pub occurs : ℕ → List ℕ → ℕ
occurs a [] = 0
occurs a (b ∷ list) = (if b == a then 1 else 0) + occurs a list

unfoldable pub chained : ℕ → List (List ℕ) → ℕ
chained a [] = 0
chained a (chain ∷ buckets) = occurs a chain + chained a buckets

pub occurs-unlink :
    (a b : ℕ) (list : List ℕ)
    → occurs b (unlink a list) ≡ (if a == b then occurs b list - 1 else occurs b list)
unfolding occurs unlink
occurs-unlink a b [] = ground arith
occurs-unlink a b (c ∷ list) = ground (arith, occurs-unlink a b list)

pub length-unlink :
    (a : ℕ) (list : List ℕ) → 0 < occurs a list → length (unlink a list) + 1 ≡ length list
unfolding occurs unlink
length-unlink a [] h = absurd (omega (arith, h))
length-unlink a (c ∷ list) h = elim (Bool-cases (c == a)) [
  | inl e ↦ rw e (omega arith)
  | inr e ↦
      let later : 0 < occurs a list = ground (arith, h, e) in
      rw e (omega (arith, length-unlink a list later))
]

pub unlink_none : (a : ℕ) (list : List ℕ) → occurs a list ≡ 0 → unlink a list ≡ list
unfolding occurs unlink
unlink_none a [] h = refl
unlink_none a (c ∷ list) h = ground (arith, unlink_none a list)

pub occurs-length : (a : ℕ) (list : List ℕ) → occurs a list ≤ length list
unfolding occurs
occurs-length a [] = omega arith
occurs-length a (c ∷ list) = ground (arith, occurs-length a list)

pub occurs-list_prev : (list : List ℕ) → 0 < length list → 0 < occurs (list_prev list) list
unfolding occurs list_prev
occurs-list_prev [] h = absurd (omega (arith, h))
occurs-list_prev (a ∷ []) h = ground arith
occurs-list_prev (a ∷ b ∷ list) h = ground (arith, occurs-list_prev (b ∷ list))

pub chained-unlink_all :
    (a b : ℕ) (buckets : List (List ℕ))
    → chained a buckets ≤ 1
    → chained b (unlink_all a buckets) ≡ (if a == b then 0 else chained b buckets)
unfolding chained unlink_all
chained-unlink_all a b [] h = ground arith
chained-unlink_all a b (chain ∷ buckets) h =
    ground (arith, chained-unlink_all a b buckets, occurs-unlink a b chain)

pub length-unlink_all :
    (a : ℕ) (buckets : List (List ℕ)) → length (unlink_all a buckets) ≡ length buckets
unfolding unlink_all
length-unlink_all a [] = refl
length-unlink_all a (chain ∷ buckets) = ap suc (length-unlink_all a buckets)

pub chained-set :
    (a b i : ℕ) (buckets : List (List ℕ))
    → i < length buckets
    → chained b (set buckets i (a ∷ get_or buckets i []))
      ≡ (if a == b then 1 else 0) + chained b buckets
unfolding chained occurs
chained-set a b i [] h = absurd (omega (arith, h))
chained-set a b zero (chain ∷ buckets) h = omega arith
chained-set a b (suc i) (chain ∷ buckets) h =
    omega (arith, chained-set a b i buckets (omega (arith, h)))

pub chained-get_or :
    (a i : ℕ) (buckets : List (List ℕ)) → occurs a (get_or buckets i []) ≤ chained a buckets
unfolding chained occurs
chained-get_or a i [] = omega arith
chained-get_or a zero (chain ∷ buckets) = omega arith
chained-get_or a (suc i) (chain ∷ buckets) = omega (arith, chained-get_or a i buckets)

pub chained-replicate : (a n : ℕ) → chained a (replicate n []) ≡ 0
unfolding chained occurs
chained-replicate a zero = refl
chained-replicate a (suc n) = omega (arith, chained-replicate a n)

chain_get-occurs :
    (s : LruStore) (id a : ℕ) (chain : List ℕ) → chain_get s id chain ≡ some a → 0 < occurs a chain
unfolding chain_get occurs
chain_get-occurs s id a [] e = ground (arith, e)
chain_get-occurs s id a (b ∷ chain) e = ground (arith, e, chain_get-occurs s id a chain)

-- What `hash_get` finds stands in a chain.
pub hash_get-chained : (s : LruStore) (id a : ℕ) → hash_get s id ≡ some a → 0 < chained a s.buckets
unfolding hash_get
hash_get-chained s id a e =
    let chain = get_or s.buckets (hash_key s id) [] in
    omega (arith, chain_get-occurs s id a chain e, chained-get_or a (hash_key s id) s.buckets)

pub hash_add-chained :
    (s : LruStore) (a b : ℕ)
    → length s.buckets ≡ s.nbucket
    → 0 < s.nbucket
    → chained b (hash_add s a).buckets ≡ (if a == b then 1 else 0) + chained b s.buckets
unfolding hash_add hash_key
hash_add-chained s a b size busy =
    chained-set a b (hash_key s (node_at s a).id) s.buckets
      (omega (arith, bit_and-le_left (s.nbucket - 1) (node_at s a).id, size, busy))
