-- ===== src/Lru.antt =====
-- src/lua-lru.c: a store of ids in two lists, `fifo` for the new ones and `lru` for those that were hit
-- often enough, and a hash table over both. A node is an address in the memory of the store; the linked
-- lists and the chains are the lists of the addresses they link, and to unlink an address takes it out of
-- whichever list it stands in. An `int64_t` is given by its 64 bits. `malloc` gives the next address.
mod Tests
pub mod Links
pub mod Grow
pub mod Valid
pub mod Add
pub mod Hit
pub mod Bound
use my_skynet.Prelude.{
  ℕ, zero, suc, ◌+◌, ◌-◌, ◌*◌, ◌/◌, ◌^◌, List, [], ◌∷◌, ◌++◌, Bool, true, false, ◌&&◌, ◌||◌, Option,
  none, some, bit_and, ◌==◌, ltb, leb, if◌then◌else◌, length, get_or, set, replicate,
}

pub data Where : Type 0 where
  in_fifo : Where
  in_lru : Where

-- `struct lru_node` but for its links
pub record LruNode : Type 0 where
  pub id : ℕ
  pub place : Where
  pub hits : ℕ

pub record LruStore : Type 0 where
  pub buckets : List (List ℕ)
  pub nbucket : ℕ
  pub nnode : ℕ
  pub fifo : List ℕ
  pub fifo_max : ℕ
  pub fifo_count : ℕ
  pub lru : List ℕ
  pub lru_max : ℕ
  pub lru_count : ℕ
  pub mv_hits : ℕ
  pub memory : List LruNode

-- `struct lru_query_ctx`
pub record QueryCtx : Type 0 where
  pub qid : ℕ
  pub did : ℕ

-- What a read outside the memory is taken to give; no address of a list leads there.
abbrev blank : LruNode
blank = record { id = 0; place = in_fifo; hits = 0 }

abbrev pub node_at : LruStore → ℕ → LruNode
node_at s a = get_or s.memory a blank

-- `--` on a `size_t`
unfoldable pub decr : ℕ → ℕ
decr n = if n == 0 then 2 ^ 64 - 1 else n - 1

unfoldable pub unlink : ℕ → List ℕ → List ℕ
unlink a [] = []
unlink a (b ∷ list) = if b == a then list else b ∷ unlink a list

-- What a store through `pprev` does to the chains: the address leaves the one where it stands.
unfoldable pub unlink_all : ℕ → List (List ℕ) → List (List ℕ)
unlink_all a [] = []
unlink_all a (chain ∷ buckets) = unlink a chain ∷ unlink_all a buckets

-- `list_prev` of a list's head: the address at the end
unfoldable pub list_prev : List ℕ → ℕ
list_prev [] = 0
list_prev (a ∷ []) = a
list_prev (a ∷ b ∷ list) = list_prev (b ∷ list)

unfoldable pub list_del : LruStore → ℕ → LruStore
unfolding unlink
list_del s a = record s { fifo = unlink a s.fifo; lru = unlink a s.lru }

unfoldable pub hash_key : LruStore → ℕ → ℕ
hash_key s id = bit_and (s.nbucket - 1) id

unfoldable pub hash_add : LruStore → ℕ → LruStore
hash_add s a =
    let hash = hash_key s (node_at s a).id in
    record s { buckets = set s.buckets hash (a ∷ get_or s.buckets hash []); nnode = s.nnode + 1 }

-- the loop of `hash_get`
unfoldable pub chain_get : LruStore → ℕ → List ℕ → Option ℕ
chain_get s id [] = none
chain_get s id (a ∷ chain) =
    let rest = chain_get s id chain in if (node_at s a).id == id then some a else rest

unfoldable pub hash_get : LruStore → ℕ → Option ℕ
hash_get s id = chain_get s id (get_or s.buckets (hash_key s id) [])

unfoldable pub hash_del : LruStore → ℕ → LruStore
hash_del s a = record s { buckets = unlink_all a s.buckets; nnode = decr s.nnode }

-- the loops of `hash_resize`
unfoldable pub add_chain : LruStore → List ℕ → LruStore
add_chain s [] = s
add_chain s (a ∷ chain) = add_chain (hash_add s a) chain

unfoldable pub add_buckets : LruStore → List (List ℕ) → LruStore
add_buckets s [] = s
add_buckets s (chain ∷ buckets) = add_buckets (add_chain s chain) buckets

unfoldable pub hash_resize : LruStore → LruStore
hash_resize s =
    let nbucket = if ltb 0 s.nbucket then s.nbucket * 2 else 64 in
    add_buckets (record s { buckets = replicate nbucket []; nbucket = nbucket; nnode = 0 })
      s.buckets

abbrev pub Answer : Type 0
Answer = LruStore × QueryCtx

-- the node that leaves `list` at its end, under `if (++count > max)`
unfoldable pub evict : LruStore → List ℕ → QueryCtx → Answer
evict s list ctx =
    let node = list_prev list in
    (list_del (hash_del s node) node, record ctx { did = (node_at s node).id })

unfoldable pub lru_newnode : LruStore → QueryCtx → Answer
lru_newnode s ctx =
    let s1 = if leb (s.nbucket * 3 / 4) s.nnode then hash_resize s else s in
    let a = length s1.memory in
    let s2 = record s1 {
      memory = s1.memory ++ (record { id = ctx.qid; place = in_fifo; hits = 0 } ∷ []);
    } in
    let s3 = hash_add s2 a in
    let s4 = record s3 { fifo = a ∷ s3.fifo; fifo_count = s3.fifo_count + 1 } in
    if ltb s4.fifo_max s4.fifo_count
    then evict (record s4 { fifo_count = decr s4.fifo_count }) s4.fifo ctx
    else (s4, ctx)

unfoldable pub lru_nodehits : LruStore → ℕ → QueryCtx → Answer
lru_nodehits s a ctx =
    let node = node_at s a in
    let hit = record node { hits = node.hits + 1 } in
    let s1 = record s { memory = set s.memory a hit } in
    let s2 = list_del s1 a in
    elim node.place [
      | in_fifo ↦
          let s3 = record s2 {
            memory = set s2.memory a (record hit { place = in_lru });
            lru = a ∷ s2.lru;
            fifo_count = decr s2.fifo_count;
            lru_count = s2.lru_count + 1;
          } in
          if leb s.mv_hits hit.hits
          then (if ltb s3.lru_max s3.lru_count
              then evict (record s3 { lru_count = decr s3.lru_count }) s3.lru ctx
              else (s3, ctx))
          else (s1, ctx)
      | in_lru ↦ (record s2 { lru = a ∷ s2.lru }, ctx)
    ]

unfoldable pub lru_query : LruStore → QueryCtx → Answer
lru_query s ctx = elim (if ltb 0 s.nbucket then hash_get s ctx.qid else none) [
  | some a ↦ lru_nodehits s a ctx
  | none ↦ lru_newnode s ctx
]

unfoldable pub lru_init : ℕ → ℕ → ℕ → LruStore
lru_init fifo_max lru_max mv_hits = record {
  buckets = [];
  nbucket = 0;
  nnode = 0;
  fifo = [];
  fifo_max = fifo_max;
  fifo_count = 0;
  lru = [];
  lru_max = lru_max;
  lru_count = 0;
  mv_hits = mv_hits;
  memory = [];
}

-- `l_lru_new`, which takes the bounds as the bits of a `lua_Integer`: none for the error
unfoldable pub l_lru_new : ℕ → ℕ → ℕ → Option LruStore
l_lru_new fifo_max lru_max mv_hits =
    let positive = λ (n : ℕ). ltb 0 n && ltb n (2 ^ 63) in
    if positive fifo_max && positive lru_max then some (lru_init fifo_max lru_max mv_hits) else none

-- `l_lru_query`: the store, and the id that it returns
unfoldable pub l_lru_query : LruStore → ℕ → LruStore × Option ℕ
l_lru_query s id =
    let answer = lru_query s (record { qid = id; did = 0 }) in
    let did = answer.1.did in (answer.0, if ltb 0 did && ltb did (2 ^ 63) then some did else none)

-- the ids of one chain, and `l_lru_allid`
unfoldable pub chain_ids : LruStore → List ℕ → List ℕ
chain_ids s [] = []
chain_ids s (a ∷ chain) = (node_at s a).id ∷ chain_ids s chain

unfoldable pub allid_from : LruStore → List (List ℕ) → List ℕ
allid_from s [] = []
allid_from s (chain ∷ buckets) = chain_ids s chain ++ allid_from s buckets

unfoldable pub l_lru_allid : LruStore → List ℕ
l_lru_allid s = allid_from s s.buckets
