-- ===== src/Lru/Add.antt =====
-- `lru_newnode` of src/lua-lru.c and the invariant.
use my_skynet.Prelude.{
  ℕ, zero, suc, ◌+◌, ◌*◌, ◌/◌, ◌<◌, ◌≡◌, refl, ap, ◌∙◌, arith, List, [], ◌∷◌, ◌++◌, ◌==◌, ltb, leb,
  if◌then◌else◌, length, length-append, get_or, inl, inr, Bool-cases, lt→ltb,
}
use my_skynet.Lru.{
  in_fifo, LruNode, LruStore, QueryCtx, decr, hash_add, hash_resize, evict, lru_newnode,
}
use my_skynet.Lru.Links.{occurs}
use my_skynet.Lru.Grow.{hash_add-Grown, hash_resize-Grown}
use my_skynet.Lru.Valid.{IsLinked, IsValid, recount_lem, evict_fifo-IsValid, Grown-IsValid}

get_or-append :
    {A : Type 0} (xs : List A) (y d : A) (i : ℕ)
    → get_or (xs ++ y ∷ []) i d
      ≡ (if ltb i (length xs) then get_or xs i d else if i == length xs then y else d)
get_or-append [] y d zero = refl
get_or-append [] y d (suc i) = ground arith
get_or-append (x ∷ xs) y d zero = ground arith
get_or-append (x ∷ xs) y d (suc i) = ground (arith, get_or-append xs y d i)

module _ (s : LruStore) (id : ℕ) (v : IsValid s) (busy : 0 < s.nbucket) where
  -- the new node in the memory, in a chain and at the head of `fifo`
  abbrev allocated : LruStore
  allocated = record s { memory = s.memory ++ (record { id = id; place = in_fifo; hits = 0 }) ∷ [] }

  abbrev added : LruStore
  added =
      let t = hash_add allocated (length s.memory) in
      record t { fifo = length s.memory ∷ t.fifo; fifo_count = t.fifo_count + 1 }

  added-IsLinked : IsLinked added
  unfolding hash_add occurs
  added-IsLinked =
      let a = length s.memory in
      let g = hash_add-Grown allocated a v.linked.room busy in
      let new = v.linked.known a (omega arith) in
      let size = length-append s.memory ((record { id = id; place = in_fifo; hits = 0 }) ∷ []) in
      record {
        room = g.room;
        stands = λ b. omega (arith, g.holds b, v.linked.stands b);
        once = λ b. ground (arith, g.holds b, v.linked.once b, new);
        placed_fifo = λ b h.
            ap (λ (n : LruNode). n.place) (get_or-append s.memory _ _ b)
            ∙ elim (Bool-cases (ltb b a)) [
              | inl e ↦ rw e (v.linked.placed_fifo b (ground (arith, h, e)))
              | inr e ↦ rw e (elim (Bool-cases (b == a)) [ inl f ↦ rw f refl | inr f ↦ rw f refl ])
            ];
        placed_lru = λ b h.
            let below : b < a = ground (arith, h, v.linked.known b, v.linked.stands b) in
            ap (λ (n : LruNode). n.place) (get_or-append s.memory _ _ b)
            ∙ rw (lt→ltb b a below) (v.linked.placed_lru b h);
        known = λ b h. ground (arith, g.holds b, v.linked.known b, size);
      }

  added-IsValid :
      (ctx : QueryCtx)
      → IsValid
          (if ltb added.fifo_max added.fifo_count
            then evict (record added { fifo_count = decr added.fifo_count }) added.fifo ctx
            else (added, ctx)).0
  unfolding hash_add decr
  added-IsValid ctx = elim (Bool-cases (ltb added.fifo_max added.fifo_count)) [
    | inl e ↦ rw e (
        evict_fifo-IsValid (record added { fifo_count = decr added.fifo_count }) ctx
          (recount_lem added _ _ added-IsLinked) (ground (arith, v.fifo_length)) v.lru_length
          (ground (arith, v.fifo_le)) v.lru_le)
    | inr e ↦ rw e (record {
      linked = added-IsLinked;
      fifo_length = omega (arith, v.fifo_length);
      lru_length = v.lru_length;
      fifo_le = ground (arith, e);
      lru_le = v.lru_le;
    })
  ]

pub lru_newnode-IsValid :
    (s : LruStore) (ctx : QueryCtx) → IsValid s → IsValid (lru_newnode s ctx).0
unfolding lru_newnode
lru_newnode-IsValid s ctx v = elim (Bool-cases (leb (s.nbucket * 3 / 4) s.nnode)) [
  | inl e ↦
      let g = hash_resize-Grown s in
      rw (e, lru_newnode) (added-IsValid (hash_resize s) ctx.qid (Grown-IsValid s _ g v) g.busy ctx)
  | inr e ↦ rw (e, lru_newnode) (added-IsValid s ctx.qid v (ground (arith, e)) ctx)
]
