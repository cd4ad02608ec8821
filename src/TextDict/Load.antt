-- ===== src/TextDict/Load.antt =====
-- Loading a table of src/lua-textdict.c: what `dict_get` gives after it.
use my_skynet.Prelude.{
  ℕ, zero, suc, ◌*◌, ◌/◌, ◌≤◌, ◌<◌, ◌≡◌, refl, ap, ◌∙◌, arith, List, [], ◌∷◌, ◌++◌, Bool, true,
  false, some, ◌==◌, ==_iff, lt→ltb, leb, if◌then◌else◌, length, get_elem?, get_or, replicate,
  length-replicate, get_or-set, inl, inr, Bool-cases,
}
use mathlib.Core.List.{flatten}
use my_skynet.TextDict.{
  Text, DictNode, Ctx, same_text, bucket_of, add_node, add_chain, add_buckets, dic_resize, dict_add,
  find, dict_get, found, fault, load, dict_new,
}
use my_skynet.TextDict.Chain.{
  same_text_iff, count, Same, trans_Same, cons-Same, append-Same, append_nil-Same, bucket_of-lt,
}
use my_skynet.TextDict.Table.{
  chain_of, IsValid, add_node-IsValid, flatten-Same, replicate-Placed, get_or-replicate,
}

same_text-false :
    (n : ℕ) (a b : Text) → (bucket_of n a == bucket_of n b) ≡ false → same_text a b ≡ false
same_text-false n a b e = elim (Bool-cases (same_text a b)) [
  | inl t ↦ ground (arith, ap (bucket_of n) ((same_text_iff a b).0 t))
  | inr f ↦ f
]

get_elem?-lt :
    {A : Type 0} (xs : List A) (i : ℕ) (d : A)
    → i < length xs
    → get_elem? xs i ≡ some (get_or xs i d)
get_elem?-lt [] i d h = absurd (omega (arith, h))
get_elem?-lt (x ∷ xs) zero d h = refl
get_elem?-lt (x ∷ xs) (suc i) d h = get_elem?-lt xs i d (omega (arith, h))

module _ (k : Text) where
  -- The table has buckets, and its chain for the key cannot be told from these pairs by it.
  pub record Held (ctx : Ctx) (pairs : List DictNode) : Type 0 where
    pub valid : IsValid ctx
    pub busy : 0 < ctx.nbucket
    pub same : Same k (chain_of ctx k) pairs

  sync_lem : (ctx : Ctx) (a b : List DictNode) → Same k a b → Held ctx a → Held ctx b
  sync_lem ctx a b s h = record {
    valid = h.valid;
    busy = h.busy;
    same = trans_Same k (chain_of ctx k) a b h.same s;
  }

  chain_of-add_node :
      (ctx : Ctx) (node : DictNode)
      → IsValid ctx
      → 0 < ctx.nbucket
      → chain_of (add_node ctx node) k ≡ (
          if bucket_of ctx.nbucket node.key == bucket_of ctx.nbucket k
          then node ∷ chain_of ctx node.key
          else chain_of ctx k)
  unfolding add_node
  chain_of-add_node ctx node v busy =
      get_or-set ctx.buckets (bucket_of ctx.nbucket node.key) (bucket_of ctx.nbucket k)
        (node ∷ chain_of ctx node.key) []
        (omega (arith, bucket_of-lt ctx.nbucket node.key busy, v.size))

  add_node-Same :
      (ctx : Ctx) (node : DictNode)
      → IsValid ctx
      → 0 < ctx.nbucket
      → Same k (chain_of (add_node ctx node) k) (node ∷ chain_of ctx k)
  unfolding find count
  add_node-Same ctx node v busy =
      let at = chain_of-add_node ctx node v busy in
      let n = ctx.nbucket in
      elim (Bool-cases (bucket_of ctx.nbucket node.key == bucket_of ctx.nbucket k)) [
        | inl e ↦
            let bucket = ap (λ i. get_or ctx.buckets i []) ((==_iff _ _).0 e) in
            (ground (arith, at, bucket), λ le. ground (arith, at, bucket))
        | inr e ↦
            let apart = same_text-false n node.key k e in
            (ground (arith, at, apart), λ le. ground (arith, at, apart))
      ]

  add_node-Held :
      (ctx : Ctx) (node : DictNode) (pairs : List DictNode)
      → Held ctx pairs
      → Held (add_node ctx node) (node ∷ pairs)
  unfolding add_node
  add_node-Held ctx node pairs h = record {
    valid = add_node-IsValid ctx node h.valid;
    busy = h.busy;
    same =
        trans_Same k _ _ _ (add_node-Same ctx node h.valid h.busy)
          (cons-Same k node (chain_of ctx k) pairs h.same);
  }

  add_chain-Held :
      (ctx : Ctx) (chain pairs : List DictNode)
      → Held ctx pairs
      → Held (add_chain ctx chain) (chain ++ pairs)
  unfolding add_chain
  add_chain-Held ctx [] pairs h = h
  add_chain-Held ctx (node ∷ chain) pairs h =
      sync_lem _ _ _ (append-Same k chain (node ∷ []) pairs)
        (add_chain-Held (add_node ctx node) chain (node ∷ pairs) (add_node-Held ctx node pairs h))

  add_buckets-Held :
      (ctx : Ctx) (buckets : List (List DictNode)) (pairs : List DictNode)
      → Held ctx pairs
      → Held (add_buckets ctx buckets) (flatten buckets ++ pairs)
  unfolding add_buckets flatten
  add_buckets-Held ctx [] pairs h = h
  add_buckets-Held ctx (chain ∷ buckets) pairs h =
      sync_lem _ _ _ (append-Same k (flatten buckets) chain pairs) (
        add_buckets-Held (add_chain ctx chain) buckets (chain ++ pairs)
          (add_chain-Held ctx chain pairs h))

  empty-Held :
      (n : ℕ) → 0 < n → Held (record { buckets = replicate n []; nbucket = n; nnode = 0 }) []
  unfolding count
  empty-Held n busy = record {
    valid = record { size = length-replicate n []; placed = replicate-Placed n 0 n };
    busy = busy;
    same = (ap (count k) (get_or-replicate n _), λ le. ap (find k) (get_or-replicate n _));
  }

  -- `dic_resize` loses and invents nothing.
  dic_resize-Held :
      (ctx : Ctx) (pairs : List DictNode)
      → Same k (flatten ctx.buckets) pairs
      → Held (dic_resize ctx) pairs
  unfolding dic_resize
  dic_resize-Held ctx pairs s = sync_lem _ _ _ s (
      sync_lem _ _ _ (append_nil-Same k (flatten ctx.buckets))
        (add_buckets-Held _ ctx.buckets [] (empty-Held _ (ground arith))))

  if-Held :
      (b : Bool) (ctx ctx' : Ctx) (pairs : List DictNode)
      → Held ctx pairs
      → Held ctx' pairs
      → Held (if b then ctx else ctx') pairs
  if-Held true ctx ctx' pairs h h' = h
  if-Held false ctx ctx' pairs h h' = h'

  module _ (ctx : Ctx) (pair : DictNode) (pairs : List DictNode) where
    dict_add-Held : Held ctx pairs → Held (dict_add ctx pair.key pair.value) (pair ∷ pairs)
    unfolding dict_add
    dict_add-Held h =
        let all =
          flatten-Same ctx.nbucket 0 (bucket_of ctx.nbucket k) k ctx.buckets (omega arith)
            h.valid.placed in
        let grown = dic_resize-Held ctx pairs (trans_Same k _ _ _ all h.same) in
        add_node-Held _ pair pairs
          (if-Held (leb (ctx.nbucket * 3 / 4) ctx.nnode) _ ctx pairs grown h)

  pub load-Held :
      (ctx : Ctx) (pairs before : List DictNode)
      → Held ctx before
      → Held (load ctx pairs) (pairs ++ before)
  unfolding load
  load-Held ctx [] before h = h
  load-Held ctx (pair ∷ pairs) before h = sync_lem _ _ _ (append-Same k pairs (pair ∷ []) before) (
      load-Held (dict_add ctx pair.key pair.value) pairs (pair ∷ before)
        (dict_add-Held ctx pair before h))

  first-Held : (pair : DictNode) → Held (dict_add dict_new pair.key pair.value) (pair ∷ [])
  unfolding dict_add flatten
  first-Held pair = add_node-Held _ pair [] (dic_resize-Held dict_new [] (refl, λ le. refl))

  dict_get-Held :
      (ctx : Ctx) (pairs : List DictNode)
      → Held ctx pairs
      → dict_get ctx k ≡ found (find k (chain_of ctx k))
  unfolding dict_get
  dict_get-Held ctx pairs h =
      let present =
        get_elem?-lt ctx.buckets (bucket_of ctx.nbucket k) []
          (omega (arith, bucket_of-lt ctx.nbucket k h.busy, h.valid.size)) in
      rw (lt→ltb _ _ h.busy, present, dict_get) refl

-- After a table of at least one pair is loaded into a new dictionary, whatever growth that took, `dict_get`
-- gives for a key that the table holds at most once the value the table has for it, or none where the table
-- has none; it never faults.
pub dict_get-load :
    (k : Text) (pair : DictNode) (pairs : List DictNode)
    → count k (pair ∷ pairs) ≤ 1
    → dict_get (load dict_new (pair ∷ pairs)) k ≡ found (find k (pair ∷ pairs))
unfolding load
dict_get-load k pair pairs once =
    let held =
      load-Held k (dict_add dict_new pair.key pair.value) pairs (pair ∷ []) (first-Held k pair) in
    let tail = cons-Same k pair _ _ (append_nil-Same k pairs) in
    let all =
      trans_Same k _ _ _ (trans_Same k _ _ _ held.same (append-Same k pairs (pair ∷ []) [])) tail in
    dict_get-Held k (load dict_new (pair ∷ pairs)) _ held
    ∙ ap found (all.1 (omega (arith, once, all.0)))

-- A dictionary that nothing was loaded into faults on every key.
pub dict_get-dict_new : (k : Text) → dict_get dict_new k ≡ fault
unfolding dict_get
dict_get-dict_new k = refl
