-- ===== src/TextDict/Tests.antt =====
-- Tests of TextDict, and its theorems at concrete inputs.
use my_skynet.TextDict.Instances.{error, dictctx_check}
use my_skynet.Prelude.{zero, suc, ℕ, ◌^◌, ◌-◌, ◌≡◌, refl, arith, List, [], ◌∷◌, none, some}
use my_skynet.TextDict.{
  DictNode, hash_from, char_value, hash_key, same_text, bucket_of, add_node, add_chain, add_buckets,
  dic_resize, dict_add, find, dict_get, found, load, dict_new,
}
use my_skynet.TextDict.Chain.{count}
use my_skynet.TextDict.Load.{dict_get-load}
use my_skynet.TextDict.Instances.{
  DictInst, same_start, inst_from, dinst_alloc, crash, value, int_id, load_at, lload_dict,
  ldict_get,
}
use my_skynet.TextDict.Refine.{
  Call, load_call, get_call, loaded, refused, answered, ends, run_calls, Tables, spec_get,
  spec_call, spec_run, IsTable, dict_of, Represents,
}
use my_skynet.TextDict.Refine.Run.{run_calls-spec_run}
use my_skynet.TextDict.Service.{ldict_get_empty}

abbrev one : DictNode
one = record { key = 97 ∷ 98 ∷ []; value = 49 ∷ [] }

abbrev two : DictNode
two = record { key = 195 ∷ []; value = 50 ∷ [] }

-- a byte over 127 counts as a negative `char`
hash_signed : hash_key (97 ∷ 195 ∷ []) ≡ 12646
unfolding hash_key hash_from char_value
hash_signed = refl

get_back : dict_get (load dict_new (one ∷ two ∷ [])) (195 ∷ []) ≡ found (some (50 ∷ []))
unfolding dict_get load dict_add dic_resize add_buckets add_chain add_node bucket_of hash_key
    hash_from char_value same_text find
get_back = refl

dict_get-load_example :
    dict_get (load dict_new (one ∷ two ∷ [])) (97 ∷ 98 ∷ [])
    ≡ found (find (97 ∷ 98 ∷ []) (one ∷ two ∷ []))
unfolding count same_text
dict_get-load_example = dict_get-load (97 ∷ 98 ∷ []) one (two ∷ []) (omega arith)

-- the instances after two names
abbrev two_insts : List DictInst
two_insts =
    (record { name = 97 ∷ []; ctx = none })
    ∷ (record { name = 98 ∷ []; ctx = some (load dict_new (one ∷ [])) })
    ∷ []

named_once : dinst_alloc two_insts (98 ∷ []) ≡ (two_insts, some 1)
unfolding dinst_alloc inst_from same_start
named_once = refl

abbrev emptied_insts : List DictInst
emptied_insts =
    (record { name = 97 ∷ []; ctx = some (load dict_new []) })
    ∷ (record { name = 98 ∷ []; ctx = some (load dict_new (one ∷ [])) })
    ∷ []

ldict_get_empty_example : ldict_get emptied_insts 0 (97 ∷ []) ≡ crash
unfolding lload_dict load_at int_id
ldict_get_empty_example = ldict_get_empty two_insts emptied_insts 0 (97 ∷ []) refl

abbrev fresh_insts : List DictInst
fresh_insts = (record { name = 97 ∷ []; ctx = none }) ∷ (record { name = 98 ∷ []; ctx = none }) ∷ []

abbrev no_tables : Tables
no_tables = record { size = 2; table = λ id. none }

fresh_insts-Represents : Represents fresh_insts no_tables
unfolding dictctx_check dict_of
fresh_insts-Represents = record { size = refl; dicts = dicts; tables = λ id. tt }
  where
    dicts : (id : ℕ) → dictctx_check fresh_insts id ≡ dict_of none
    dicts zero = refl
    dicts (suc zero) = refl
    dicts (suc (suc id)) = refl

two_pairs-IsTable : IsTable one (two ∷ [])
unfolding count same_text
two_pairs-IsTable [] = omega arith
two_pairs-IsTable (c ∷ key) = ground arith

abbrev calls : List Call
calls =
    load_call 0 one (two ∷ [])
    ∷ get_call 0 (195 ∷ [])
    ∷ get_call 1 (195 ∷ [])
    ∷ load_call 5 one (two ∷ [])
    ∷ get_call (2 ^ 32) (195 ∷ [])
    ∷ get_call (2 ^ 64 - 1) (195 ∷ [])
    ∷ get_call 0 (195 ∷ [])
    ∷ []

run_calls-spec_run_example : run_calls fresh_insts calls ≡ spec_run no_tables calls
run_calls-spec_run_example =
    run_calls-spec_run calls fresh_insts no_tables (two_pairs-IsTable, (two_pairs-IsTable, tt))
      fresh_insts-Represents

-- The id 2^32 is the instance 0, and the id -1 ends the run.
promised :
    spec_run no_tables calls
    ≡ loaded
      ∷ answered (value (50 ∷ []))
      ∷ answered error
      ∷ refused
      ∷ answered (value (50 ∷ []))
      ∷ answered crash
      ∷ []
unfolding spec_run spec_call spec_get find same_text int_id ends
promised = refl
