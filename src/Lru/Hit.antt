-- ===== src/Lru/Hit.antt =====
-- `lru_nodehits` of src/lua-lru.c and the invariant.
use my_skynet.Prelude.{
  ℕ, ◌+◌, ◌<◌, ◌≡◌, ◌⊎◌, ==_iff, refl, ap, ◌∙◌, arith, ◌∷◌, ◌==◌, ltb, leb, if◌then◌else◌, length,
  get_or-set, set, length-set, inl, inr, Bool-cases,
}
use native.Mathlib.Decide.{dec_le}
use my_skynet.Lru.{
  Where, in_fifo, in_lru, LruNode, LruStore, QueryCtx, node_at, decr, list_del, evict, lru_nodehits,
}
use my_skynet.Lru.Links.{occurs, chained, occurs-unlink, length-unlink, unlink_none}
use my_skynet.Lru.Valid.{IsLinked, IsValid, recount_lem, evict_lru-IsValid}

place-cases : (w : Where) → (w ≡ in_fifo) ⊎ (w ≡ in_lru)
place-cases in_fifo = inl refl
place-cases in_lru = inr refl

module _ (s : LruStore) (a : ℕ) (v : IsValid s) (present : 0 < chained a s.buckets) where
  known_a : a < length s.memory
  known_a = ground (arith, v.linked.known a, present)

  -- A hit that moves nothing.
  abbrev hit_node : LruNode
  hit_node = record (node_at s a) { hits = (node_at s a).hits + 1 }

  abbrev hit : LruStore
  hit = record s { memory = set s.memory a hit_node }

  hit_place : (b : ℕ) → (node_at hit b).place ≡ (node_at s b).place
  hit_place b =
      ap (λ (n : LruNode). n.place) (get_or-set s.memory a b hit_node _ known_a)
      ∙ elim (Bool-cases (a == b)) [
        | inl e ↦ rw e (ap (λ i. (node_at s i).place) ((==_iff a b).0 e))
        | inr e ↦ rw e refl
      ]

  hit-IsLinked : IsLinked hit
  hit-IsLinked = record {
    room = v.linked.room;
    stands = v.linked.stands;
    once = v.linked.once;
    placed_fifo = λ b h. hit_place b ∙ v.linked.placed_fifo b h;
    placed_lru = λ b h. hit_place b ∙ v.linked.placed_lru b h;
    known = λ b h. v.linked.known b (omega (arith, h, length-set s.memory a hit_node));
  }

  not_in_fifo : (node_at s a).place ≡ in_lru → occurs a s.fifo ≡ 0
  not_in_fifo e = elim (dec_le (occurs a s.fifo) 0) [
    | yes h ↦ omega (arith, h)
    | no h ↦ ground (arith, e, v.linked.placed_fifo a (omega (arith, h)))
  ]

  not_in_lru : (node_at s a).place ≡ in_fifo → occurs a s.lru ≡ 0
  not_in_lru e = elim (dec_le (occurs a s.lru) 0) [
    | yes h ↦ omega (arith, h)
    | no h ↦ ground (arith, e, v.linked.placed_lru a (omega (arith, h)))
  ]

  -- A hit that moves a node of `lru` to its head.
  touched-IsValid :
      (node_at s a).place ≡ in_lru
      → IsValid (let t = list_del hit a in record t { lru = a ∷ t.lru })
  unfolding list_del occurs
  touched-IsValid e =
      let absent = not_in_fifo e in
      let here : 0 < occurs a s.lru = omega (arith, absent, v.linked.stands a, present) in
      record {
        linked = record {
          room = v.linked.room;
          stands = λ b. ground (
            arith,
            v.linked.stands b,
            absent,
            here,
            occurs-unlink a b s.fifo,
            occurs-unlink a b s.lru,
          );
          once = v.linked.once;
          placed_fifo =
              λ b h. hit-IsLinked.placed_fifo b (ground (arith, h, occurs-unlink a b s.fifo));
          placed_lru =
              λ b h. hit-IsLinked.placed_lru b (ground (arith, h, here, occurs-unlink a b s.lru));
          known = hit-IsLinked.known;
        };
        fifo_length = ap length (unlink_none a s.fifo absent) ∙ v.fifo_length;
        lru_length = omega (arith, length-unlink a s.lru here, v.lru_length);
        fifo_le = v.fifo_le;
        lru_le = v.lru_le;
      }

  -- A hit that moves a node of `fifo` to the head of `lru`.
  abbrev promoted : LruStore
  promoted =
      let t = list_del hit a in
      record t {
        memory = set t.memory a (record hit_node { place = in_lru });
        lru = a ∷ t.lru;
        fifo_count = decr t.fifo_count;
        lru_count = t.lru_count + 1;
      }

  promoted_place :
      (b : ℕ) → (node_at promoted b).place ≡ (if a == b then in_lru else (node_at s b).place)
  unfolding list_del
  promoted_place b =
      let size : a < length (set s.memory a hit_node) =
        omega (arith, length-set s.memory a hit_node, known_a) in
      ap (λ (n : LruNode). n.place)
        (get_or-set (set s.memory a hit_node) a b (record hit_node { place = in_lru }) _ size)
      ∙ elim (Bool-cases (a == b)) [ inl e ↦ rw e refl | inr e ↦ rw e (hit_place b) ]

  promoted-IsLinked : (node_at s a).place ≡ in_fifo → IsLinked promoted
  unfolding list_del occurs
  promoted-IsLinked e =
      let absent = not_in_lru e in
      let here : 0 < occurs a s.fifo = omega (arith, absent, v.linked.stands a, present) in
      let size = length-set (set s.memory a hit_node) a (record hit_node { place = in_lru }) in
      record {
        room = v.linked.room;
        stands = λ b. ground (
          arith,
          v.linked.stands b,
          v.linked.once b,
          absent,
          here,
          occurs-unlink a b s.fifo,
          occurs-unlink a b s.lru,
        );
        once = v.linked.once;
        placed_fifo = λ b h. promoted_place b ∙ elim (Bool-cases (a == b)) [
          | inl f ↦ ground (
            arith,
            h,
            f,
            (==_iff a b).0,
            occurs-unlink a b s.fifo,
            v.linked.stands b,
            v.linked.once b,
          )
          | inr f ↦ rw f (v.linked.placed_fifo b (ground (arith, h, f, occurs-unlink a b s.fifo)))
        ];
        placed_lru = λ b h. promoted_place b ∙ elim (Bool-cases (a == b)) [
          | inl f ↦ rw f refl
          | inr f ↦ rw f (v.linked.placed_lru b (ground (arith, h, f, occurs-unlink a b s.lru)))
        ];
        known = λ b h. v.linked.known b (omega (arith, h, size, length-set s.memory a hit_node));
      }

  promoted-IsValid :
      (node_at s a).place ≡ in_fifo
      → (ctx : QueryCtx)
      → IsValid
          (if ltb promoted.lru_max promoted.lru_count
            then evict (record promoted { lru_count = decr promoted.lru_count }) promoted.lru ctx
            else (promoted, ctx)).0
  unfolding list_del decr
  promoted-IsValid e ctx =
      let absent = not_in_lru e in
      let here : 0 < occurs a s.fifo = omega (arith, absent, v.linked.stands a, present) in
      let shorter = length-unlink a s.fifo here in
      let same = unlink_none a s.lru absent in
      elim (Bool-cases (ltb promoted.lru_max promoted.lru_count)) [
        | inl f ↦ rw f (
            evict_lru-IsValid (record promoted { lru_count = decr promoted.lru_count }) ctx
              (recount_lem promoted _ _ (promoted-IsLinked e))
              (ground (arith, shorter, v.fifo_length))
              (ground (arith, ap length same, v.lru_length))
              (ground (arith, shorter, v.fifo_length, v.fifo_le)) (ground (arith, v.lru_le)))
        | inr f ↦ rw f (record {
          linked = promoted-IsLinked e;
          fifo_length = ground (arith, shorter, v.fifo_length);
          lru_length = omega (arith, ap length same, v.lru_length);
          fifo_le = ground (arith, shorter, v.fifo_length, v.fifo_le);
          lru_le = ground (arith, f);
        })
      ]

  pub lru_nodehits-IsValid : (ctx : QueryCtx) → IsValid (lru_nodehits s a ctx).0
  unfolding lru_nodehits
  lru_nodehits-IsValid ctx = elim (place-cases (node_at s a).place) [
    | inl e ↦ elim (Bool-cases (leb s.mv_hits hit_node.hits)) [
      | inl f ↦ rw (e, f, lru_nodehits) (promoted-IsValid e ctx)
      | inr f ↦
          rw (e, f, lru_nodehits)
            (record {
              linked = hit-IsLinked;
              fifo_length = v.fifo_length;
              lru_length = v.lru_length;
              fifo_le = v.fifo_le;
              lru_le = v.lru_le;
            })
    ]
    | inr e ↦ rw (e, lru_nodehits) (touched-IsValid e)
  ]
