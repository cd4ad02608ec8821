-- ===== src/TextDict.antt =====
-- src/lua-textdict.c, the table: a chained hash table from C strings to C strings, which grows. A C
-- string is the list of its bytes, with no 0 among them. The chains hold the nodes themselves. A
-- read of a bucket out of the array is a fault.
mod Tests
pub mod Chain
pub mod Table
pub mod Load
pub mod Share
pub mod Instances
pub mod Service
pub mod Refine
use mathlib.Core.List.{flatten}
use my_skynet.Prelude.{
  ℕ, zero, suc, ◌+◌, ◌-◌, ◌*◌, ◌/◌, ◌%◌, ◌^◌, List, [], ◌∷◌, ◌++◌, Bool, true, false, ◌&&◌, Option,
  none, some, bit_and, ◌==◌, ltb, leb, if◌then◌else◌, get_elem?, get_or, set, replicate,
}

abbrev pub Text : Type 0
Text = List ℕ

-- `struct dict_node`: the key and the value
pub record DictNode : Type 0 where
  pub key : Text
  pub value : Text

-- `struct dict_ctx` but for its count of references
pub record Ctx : Type 0 where
  pub buckets : List (List DictNode)
  pub nbucket : ℕ
  pub nnode : ℕ

-- what `*str++` adds to an `unsigned`: a `char` is signed
unfoldable pub char_value : ℕ → ℕ
char_value c = if ltb c 128 then c else 2 ^ 32 - 256 + c

unfoldable pub hash_from : ℕ → Text → ℕ
hash_from hash [] = hash
hash_from hash (c ∷ str) = hash_from ((hash * 131 + char_value c) % 2 ^ 32) str

unfoldable pub hash_key : Text → ℕ
unfolding hash_from char_value
hash_key str = hash_from 0 str

-- `strcmp(a, b) == 0`
unfoldable pub same_text : Text → Text → Bool
same_text [] [] = true
same_text [] (d ∷ b) = false
same_text (c ∷ a) [] = false
same_text (c ∷ a) (d ∷ b) = c == d && same_text a b

-- `hash & (nbucket - 1)` for a table with buckets
unfoldable pub bucket_of : ℕ → Text → ℕ
bucket_of nbucket key = bit_and (hash_key key) (nbucket - 1)

-- `_dict_add`
unfoldable pub add_node : Ctx → DictNode → Ctx
add_node ctx node =
    let idx = bucket_of ctx.nbucket node.key in
    record ctx {
      nnode = ctx.nnode + 1;
      buckets = set ctx.buckets idx (node ∷ get_or ctx.buckets idx []);
    }

-- the inner loop of `dic_resize`, and the outer one
unfoldable pub add_chain : Ctx → List DictNode → Ctx
add_chain ctx [] = ctx
add_chain ctx (node ∷ chain) = add_chain (add_node ctx node) chain

unfoldable pub add_buckets : Ctx → List (List DictNode) → Ctx
add_buckets ctx [] = ctx
add_buckets ctx (chain ∷ buckets) = add_buckets (add_chain ctx chain) buckets

unfoldable pub dic_resize : Ctx → Ctx
dic_resize ctx =
    let nbucket = if ltb 0 ctx.nbucket then ctx.nbucket * 2 else 64 in
    add_buckets (record { buckets = replicate nbucket []; nbucket = nbucket; nnode = 0 })
      ctx.buckets

unfoldable pub dict_add : Ctx → Text → Text → Ctx
dict_add ctx key value =
    let ctx' = if leb (ctx.nbucket * 3 / 4) ctx.nnode then dic_resize ctx else ctx in
    add_node ctx' (record { key = key; value = value })

-- the loop of `dict_get`
unfoldable pub find : Text → List DictNode → Option Text
find key [] = none
find key (node ∷ chain) =
    let rest = find key chain in if same_text node.key key then some node.value else rest

-- What `dict_get` ends in: a fault where there is no such bucket, else `NULL` or the value.
pub data Found : Type 0 where
  fault : Found
  found : Option Text → Found

-- With no buckets `nbucket - 1` wraps to the last `size_t`, and the whole hash is the index.
unfoldable pub dict_get : Ctx → Text → Found
dict_get ctx key =
    let idx = if ltb 0 ctx.nbucket then bucket_of ctx.nbucket key else hash_key key in
    elim (get_elem? ctx.buckets idx) [ none ↦ fault | some chain ↦ found (find key chain) ]

abbrev pub dict_new : Ctx
dict_new = record { buckets = []; nbucket = 0; nnode = 0 }

-- The loop of `lload_dict` over what `lua_next` gives.
unfoldable pub load : Ctx → List DictNode → Ctx
load ctx [] = ctx
load ctx (pair ∷ pairs) = load (dict_add ctx pair.key pair.value) pairs

-- the string-keyed table that `ldict_getall` fills, as the pairs in the order in which they are set
unfoldable pub getall : Ctx → List DictNode
getall ctx = flatten ctx.buckets
