-- ===== src/Lru/Tests.antt =====
-- Tests of Lru.
use my_skynet.Prelude.{ℕ, ◌≡◌, refl, List, [], ◌∷◌, Option, none, some}
use my_skynet.Lru.{
  LruStore, decr, unlink, unlink_all, list_prev, list_del, hash_key, hash_add, chain_get, hash_get,
  hash_del, add_chain, add_buckets, hash_resize, evict, lru_newnode, lru_nodehits, lru_query,
  lru_init, l_lru_new, l_lru_query, chain_ids, allid_from, l_lru_allid,
}
use my_skynet.Lru.Valid.{IsValid}
use my_skynet.Lru.Bound.{query_all, query_all-new}

-- A store for two new ids and one that was hit, after the marks of some ids.
abbrev marked : List ℕ → LruStore
marked [] = lru_init 2 1 1
marked (id ∷ ids) = (l_lru_query (marked ids) id).0

abbrev mark : List ℕ → ℕ → Option ℕ
mark ids id = (l_lru_query (marked ids) id).1

-- the third new id drops the first
mark_drops : mark (12 ∷ 11 ∷ []) 13 ≡ some 11
unfolding lru_init l_lru_query lru_query hash_get chain_get hash_key lru_nodehits lru_newnode
    hash_resize add_buckets add_chain hash_add hash_del list_del unlink unlink_all evict list_prev
    decr
mark_drops = refl

-- a hit moves the first, so that the second goes
mark_keeps : mark (11 ∷ 12 ∷ 11 ∷ []) 13 ≡ none
unfolding lru_init l_lru_query lru_query hash_get chain_get hash_key lru_nodehits lru_newnode
    hash_resize add_buckets add_chain hash_add hash_del list_del unlink unlink_all evict list_prev
    decr
mark_keeps = refl

-- the second hit drops the id that was hit before
hit_drops : mark (11 ∷ 12 ∷ 11 ∷ []) 12 ≡ some 11
unfolding lru_init l_lru_query lru_query hash_get chain_get hash_key lru_nodehits lru_newnode
    hash_resize add_buckets add_chain hash_add hash_del list_del unlink unlink_all evict list_prev
    decr
hit_drops = refl

all_marked : l_lru_allid (marked (13 ∷ 12 ∷ 11 ∷ [])) ≡ 12 ∷ 13 ∷ []
unfolding l_lru_allid allid_from chain_ids lru_init l_lru_query lru_query hash_get chain_get
    hash_key lru_nodehits lru_newnode hash_resize add_buckets add_chain hash_add hash_del list_del
    unlink unlink_all evict list_prev decr
all_marked = refl

needs_room : l_lru_new 0 1 1 ≡ none
unfolding l_lru_new
needs_room = refl

query_all-new_example : IsValid (query_all (lru_init 2 1 1) (11 ∷ 12 ∷ 11 ∷ 12 ∷ 13 ∷ []))
unfolding l_lru_new
query_all-new_example = query_all-new 2 1 1 (lru_init 2 1 1) (11 ∷ 12 ∷ 11 ∷ 12 ∷ 13 ∷ []) refl
