-- ===== src/Lru/Grow.antt =====
-- A resize of src/lua-lru.c: every node stays in a chain, and nothing else changes.
use my_skynet.Prelude.{
  ℕ, ◌+◌, ◌*◌, ◌<◌, ◌≡◌, refl, ◌∙◌, arith, List, [], ◌∷◌, ◌==◌, ltb, if◌then◌else◌, length,
  replicate, length-set, length-replicate,
}
use my_skynet.Lru.{LruStore, hash_add, add_chain, add_buckets, hash_resize}
use my_skynet.Lru.Links.{occurs, chained, hash_add-chained, chained-replicate}

-- A store but for its hash table.
abbrev pub others : LruStore → LruStore
others s = record s { buckets = []; nbucket = 0; nnode = 0 }

-- The table has room, and its chains hold `extra` beside what those of `s` hold.
pub record Grown (s s' : LruStore) (extra : ℕ → ℕ) : Type 0 where
  pub room : length s'.buckets ≡ s'.nbucket
  pub busy : 0 < s'.nbucket
  pub same : others s' ≡ others s
  pub holds : (b : ℕ) → chained b s'.buckets ≡ extra b + chained b s.buckets

pub hash_add-Grown :
    (s : LruStore) (a : ℕ)
    → length s.buckets ≡ s.nbucket
    → 0 < s.nbucket
    → Grown s (hash_add s a) (λ b. if a == b then 1 else 0)
unfolding hash_add
hash_add-Grown s a room busy = record {
  room = length-set s.buckets _ _ ∙ room;
  busy = busy;
  same = refl;
  holds = λ b. unfold hash_add in hash_add-chained s a b room busy;
}

add_chain-Grown :
    (chain : List ℕ) (s : LruStore)
    → length s.buckets ≡ s.nbucket
    → 0 < s.nbucket
    → Grown s (add_chain s chain) (λ b. occurs b chain)
unfolding add_chain occurs
add_chain-Grown [] s room busy = record {
  room = room;
  busy = busy;
  same = refl;
  holds = λ b. omega arith;
}
add_chain-Grown (a ∷ chain) s room busy =
    let one = hash_add-Grown s a room busy in
    let rest = add_chain-Grown chain (hash_add s a) one.room one.busy in
    record {
      room = rest.room;
      busy = rest.busy;
      same = rest.same ∙ one.same;
      holds = λ b. omega (arith, rest.holds b, one.holds b);
    }

add_buckets-Grown :
    (buckets : List (List ℕ)) (s : LruStore)
    → length s.buckets ≡ s.nbucket
    → 0 < s.nbucket
    → Grown s (add_buckets s buckets) (λ b. chained b buckets)
unfolding add_buckets chained
add_buckets-Grown [] s room busy = record {
  room = room;
  busy = busy;
  same = refl;
  holds = λ b. omega arith;
}
add_buckets-Grown (chain ∷ buckets) s room busy =
    let one = add_chain-Grown chain s room busy in
    let rest = add_buckets-Grown buckets (add_chain s chain) one.room one.busy in
    record {
      room = rest.room;
      busy = rest.busy;
      same = rest.same ∙ one.same;
      holds = λ b. omega (arith, rest.holds b, one.holds b);
    }

pub hash_resize-Grown : (s : LruStore) → Grown s (hash_resize s) (λ b. 0)
unfolding hash_resize
hash_resize-Grown s =
    let nbucket = if ltb 0 s.nbucket then s.nbucket * 2 else 64 in
    let empty = record s { buckets = replicate nbucket []; nbucket = nbucket; nnode = 0 } in
    let all = add_buckets-Grown s.buckets empty (length-replicate nbucket []) (ground arith) in
    record {
      room = all.room;
      busy = all.busy;
      same = all.same;
      holds = λ b. omega (arith, all.holds b, chained-replicate b nbucket);
    }
