-- ===== src/Lru/Bound.antt =====
-- Queries of src/lua-lru.c, from `new` on, and the invariant.
use my_skynet.Prelude.{
  ℕ, ◌≡◌, refl, arith, List, [], ◌∷◌, some, ltb, inl, inr, Bool-cases, Option-cases,
}
use mathlib.Core.Path.{subst}
use my_skynet.Lru.{LruStore, QueryCtx, hash_get, lru_query, lru_init, l_lru_new, l_lru_query}
use my_skynet.Lru.Links.{occurs, chained, hash_get-chained}
use my_skynet.Lru.Valid.{IsValid}
use my_skynet.Lru.Add.{lru_newnode-IsValid}
use my_skynet.Lru.Hit.{lru_nodehits-IsValid}

-- A query, whether it finds the id or not, whether it drops another or not, and through every growth of
-- the table, keeps the invariant.
pub lru_query-IsValid : (s : LruStore) (ctx : QueryCtx) → IsValid s → IsValid (lru_query s ctx).0
unfolding lru_query
lru_query-IsValid s ctx v = elim (Bool-cases (ltb 0 s.nbucket)) [
  | inl e ↦ elim (Option-cases (hash_get s ctx.qid)) [
    | inl f ↦ rw (e, f, lru_query) (lru_newnode-IsValid s ctx v)
    | inr (a, f) ↦
        rw (e, f, lru_query) (lru_nodehits-IsValid s a v (hash_get-chained s ctx.qid a f) ctx)
  ]
  | inr e ↦ rw (e, lru_query) (lru_newnode-IsValid s ctx v)
]

pub lru_init-IsValid : (fifo_max lru_max mv_hits : ℕ) → IsValid (lru_init fifo_max lru_max mv_hits)
unfolding lru_init occurs chained
lru_init-IsValid fifo_max lru_max mv_hits = record {
  linked = record {
    room = refl;
    stands = λ a. omega arith;
    once = λ a. omega arith;
    placed_fifo = λ a h. absurd (omega (arith, h));
    placed_lru = λ a h. absurd (omega (arith, h));
    known = λ a h. refl;
  };
  fifo_length = refl;
  lru_length = refl;
  fifo_le = omega arith;
  lru_le = omega arith;
}

-- The store after a list of ids has been queried, the first one first.
unfoldable pub query_all : LruStore → List ℕ → LruStore
query_all s [] = s
query_all s (id ∷ ids) = query_all (l_lru_query s id).0 ids

query_all-IsValid : (ids : List ℕ) (s : LruStore) → IsValid s → IsValid (query_all s ids)
unfolding query_all l_lru_query
query_all-IsValid [] s v = v
query_all-IsValid (id ∷ ids) s v = query_all-IsValid ids _ (lru_query-IsValid s _ v)

-- Whatever ids a new store is asked for, the linked lists, the chains and the counts agree, and neither
-- list is longer than its limit.
pub query_all-new :
    (fifo_max lru_max mv_hits : ℕ) (s : LruStore) (ids : List ℕ)
    → l_lru_new fifo_max lru_max mv_hits ≡ some s
    → IsValid (query_all s ids)
unfolding l_lru_new
query_all-new fifo_max lru_max mv_hits s ids e =
    let made : lru_init fifo_max lru_max mv_hits ≡ s = ground (arith, e) in
    query_all-IsValid ids s (subst IsValid made (lru_init-IsValid fifo_max lru_max mv_hits))
