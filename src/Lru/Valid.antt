-- ===== src/Lru/Valid.antt =====
-- The invariant of src/lua-lru.c: the lists and the chains hold the same nodes, each once and in the list
-- that it names, the counts are the lengths, and neither list is longer than its limit.
use my_skynet.Prelude.{ℕ, ◌+◌, ◌≤◌, ◌<◌, ◌≡◌, ap, ◌∙◌, arith, length}
use my_skynet.Lru.{
  in_fifo, in_lru, LruStore, QueryCtx, node_at, list_prev, list_del, hash_del, evict,
}
use my_skynet.Lru.Links.{
  occurs, chained, occurs-unlink, length-unlink, unlink_none, occurs-list_prev, chained-unlink_all,
  length-unlink_all,
}
use my_skynet.Lru.Grow.{Grown}

pub record IsLinked (s : LruStore) : Type 0 where
  pub room : length s.buckets ≡ s.nbucket
  pub stands : (a : ℕ) → occurs a s.fifo + occurs a s.lru ≡ chained a s.buckets
  pub once : (a : ℕ) → chained a s.buckets ≤ 1
  pub placed_fifo : (a : ℕ) → 0 < occurs a s.fifo → (node_at s a).place ≡ in_fifo
  pub placed_lru : (a : ℕ) → 0 < occurs a s.lru → (node_at s a).place ≡ in_lru
  pub known : (a : ℕ) → length s.memory ≤ a → chained a s.buckets ≡ 0

pub record IsValid (s : LruStore) : Type 0 where
  pub linked : IsLinked s
  pub fifo_length : length s.fifo ≡ s.fifo_count
  pub lru_length : length s.lru ≡ s.lru_count
  pub fifo_le : s.fifo_count ≤ s.fifo_max
  pub lru_le : s.lru_count ≤ s.lru_max

-- The counts are no part of the links.
pub recount_lem :
    (s : LruStore) (n m : ℕ) → IsLinked s → IsLinked (record s { fifo_count = n; lru_count = m })
recount_lem s n m v = record {
  room = v.room;
  stands = v.stands;
  once = v.once;
  placed_fifo = v.placed_fifo;
  placed_lru = v.placed_lru;
  known = v.known;
}

-- A node that is taken out of its list and its chain.
pub dropped-IsLinked : (s : LruStore) (n : ℕ) → IsLinked s → IsLinked (list_del (hash_del s n) n)
unfolding list_del hash_del
dropped-IsLinked s n v = record {
  room = length-unlink_all n s.buckets ∙ v.room;
  stands = λ a. ground (
    arith,
    v.stands a,
    v.once a,
    v.once n,
    occurs-unlink n a s.fifo,
    occurs-unlink n a s.lru,
    chained-unlink_all n a s.buckets (v.once n),
  );
  once = λ a. ground (arith, v.once a, chained-unlink_all n a s.buckets (v.once n));
  placed_fifo = λ a h. v.placed_fifo a (ground (arith, h, occurs-unlink n a s.fifo));
  placed_lru = λ a h. v.placed_lru a (ground (arith, h, occurs-unlink n a s.lru));
  known = λ a h. ground (arith, v.known a h, chained-unlink_all n a s.buckets (v.once n));
}

-- A node is taken from the end of a list that has one more than its count.
pub evict_fifo-IsValid :
    (s : LruStore) (ctx : QueryCtx)
    → IsLinked s
    → length s.fifo ≡ s.fifo_count + 1
    → length s.lru ≡ s.lru_count
    → s.fifo_count ≤ s.fifo_max
    → s.lru_count ≤ s.lru_max
    → IsValid (evict s s.fifo ctx).0
unfolding evict
evict_fifo-IsValid s ctx v fifo_length lru_length fifo_le lru_le =
    let n = list_prev s.fifo in
    let found = occurs-list_prev s.fifo (omega (arith, fifo_length)) in
    let apart : occurs n s.lru ≡ 0 = omega (arith, found, v.stands n, v.once n) in
    record {
      linked = dropped-IsLinked s n v;
      fifo_length =
          unfold list_del hash_del in omega (arith, length-unlink n s.fifo found, fifo_length);
      lru_length = unfold list_del hash_del in ap length (unlink_none n s.lru apart) ∙ lru_length;
      fifo_le = unfold list_del hash_del in fifo_le;
      lru_le = unfold list_del hash_del in lru_le;
    }

pub evict_lru-IsValid :
    (s : LruStore) (ctx : QueryCtx)
    → IsLinked s
    → length s.fifo ≡ s.fifo_count
    → length s.lru ≡ s.lru_count + 1
    → s.fifo_count ≤ s.fifo_max
    → s.lru_count ≤ s.lru_max
    → IsValid (evict s s.lru ctx).0
unfolding evict
evict_lru-IsValid s ctx v fifo_length lru_length fifo_le lru_le =
    let n = list_prev s.lru in
    let found = occurs-list_prev s.lru (omega (arith, lru_length)) in
    let apart : occurs n s.fifo ≡ 0 = omega (arith, found, v.stands n, v.once n) in
    record {
      linked = dropped-IsLinked s n v;
      fifo_length =
          unfold list_del hash_del in ap length (unlink_none n s.fifo apart) ∙ fifo_length;
      lru_length =
          unfold list_del hash_del in omega (arith, length-unlink n s.lru found, lru_length);
      fifo_le = unfold list_del hash_del in fifo_le;
      lru_le = unfold list_del hash_del in lru_le;
    }

-- A valid store stays so when its table grows.
pub Grown-IsValid : (s s' : LruStore) → Grown s s' (λ b. 0) → IsValid s → IsValid s'
Grown-IsValid s s' g v =
    let fifo = ap (λ (t : LruStore). t.fifo) g.same in
    let lru = ap (λ (t : LruStore). t.lru) g.same in
    let memory = ap (λ (t : LruStore). t.memory) g.same in
    let fifo_count = ap (λ (t : LruStore). t.fifo_count) g.same in
    let lru_count = ap (λ (t : LruStore). t.lru_count) g.same in
    let fifo_max = ap (λ (t : LruStore). t.fifo_max) g.same in
    let lru_max = ap (λ (t : LruStore). t.lru_max) g.same in
    record {
      linked = record {
        room = g.room;
        stands = λ a. rw (fifo, lru) (omega (arith, g.holds a, v.linked.stands a));
        once = λ a. omega (arith, g.holds a, v.linked.once a);
        placed_fifo = λ a. rw (fifo, memory) (v.linked.placed_fifo a);
        placed_lru = λ a. rw (lru, memory) (v.linked.placed_lru a);
        known = λ a h. omega (arith, g.holds a, v.linked.known a (rw (← memory) h));
      };
      fifo_length = rw (fifo, fifo_count) v.fifo_length;
      lru_length = rw (lru, lru_count) v.lru_length;
      fifo_le = rw (fifo_count, fifo_max) v.fifo_le;
      lru_le = rw (lru_count, lru_max) v.lru_le;
    }
