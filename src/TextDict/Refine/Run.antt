-- ===== src/TextDict/Refine/Run.antt =====
-- The functions for Lua of src/lua-textdict.c keep their promise.
use my_skynet.Prelude.{
  ℕ, zero, suc, ◌≤◌, ◌<◌, ◌≡◌, refl, ◌∙◌, arith, List, [], ◌∷◌, true, false, Option, none, some,
  ◌==◌, ==_iff, ltb, length, get_elem?, set, length-set, inl, inr, Bool-cases, Option-cases,
}
use my_skynet.TextDict.{Text, DictNode, dict_new, load, fault, found, find}
use my_skynet.TextDict.Load.{dict_get-load}
use my_skynet.TextDict.Instances.{
  DictInst, Answer, crash, nil, value, done, int_id, load_at, lload_dict, dictctx_check, get_at,
  ldict_get,
}
use my_skynet.TextDict.Service.{load_at_lem}
use my_skynet.TextDict.Refine.{
  Call, load_call, get_call, Output, loaded, refused, broken, answered, call, run_calls, Tables,
  spec_get, spec_call, spec_run, IsTable, LoadsTables, dict_of, HasTable, Represents,
}

get_answer :
    (t : Option (DictNode × List DictNode)) (insts : List DictInst) (id : ℕ) (key : Text)
    → dictctx_check insts id ≡ dict_of t
    → HasTable t
    → get_at insts id key ≡ spec_get t key
unfolding get_at spec_get dict_of
get_answer none insts id key e h = rw (get_at, e) refl
get_answer (some (pair, pairs)) insts id key e h =
    rw (get_at, e, dict_get-load key pair pairs (h key)) (answer (find key (pair ∷ pairs)))
  where
    answer :
        (o : Option Text)
        → ◌≡◌ {A = Answer}
            (elim (found o) [ fault ↦ crash | found none ↦ nil | found (some v) ↦ value v ])
            (elim o [ none ↦ nil | some v ↦ value v ])
    answer none = refl
    answer (some v) = refl

get_elem?-within :
    {B : Type 0} (xs : List B) (i : ℕ) → i < length xs → (x : B) × (get_elem? xs i ≡ some x)
get_elem?-within [] i h = absurd (omega (arith, h))
get_elem?-within (x ∷ xs) zero h = (x, refl)
get_elem?-within (x ∷ xs) (suc i) h = get_elem?-within xs i (omega (arith, h))

get_elem?-past : {B : Type 0} (xs : List B) (i : ℕ) → length xs ≤ i → get_elem? xs i ≡ none
get_elem?-past [] i h = refl
get_elem?-past (x ∷ xs) zero h = absurd (omega (arith, h))
get_elem?-past (x ∷ xs) (suc i) h = get_elem?-past xs i (omega (arith, h))

-- A load of an id that there is takes the table.
load_within :
    (insts : List DictInst) (idx : ℕ) (pairs : List DictNode)
    → idx < length insts
    → (insts' : List DictInst) × (load_at insts idx pairs ≡ done insts')
      × (length insts' ≡ length insts)
unfolding load_at
load_within insts idx pairs h =
    let (inst, e) = get_elem?-within insts idx h in
    let inst' : DictInst = record inst { ctx = some (load dict_new pairs) } in
    (set insts idx inst', rw (load_at, e) refl, length-set insts idx inst')

abbrev Loads : Call → Type 0
Loads (load_call id pair pairs) = IsTable pair pairs
Loads (get_call id key) = Unit {0}

-- A call does what is promised.
record Refines (insts insts' : List DictInst) (s : Tables) (c : Call) (out : Output) : Type 0 where
  same_call : call insts c ≡ (insts', out)
  same_out : (spec_call s c).1 ≡ out
  after : Represents insts' (spec_call s c).0

load_within-Refines :
    (insts : List DictInst) (s : Tables) (id idx : ℕ) (pair : DictNode) (pairs : List DictNode)
    → int_id id ≡ some idx
    → Represents insts s
    → IsTable pair pairs
    → idx < s.size
    → (insts' : List DictInst) × Refines insts insts' s (load_call id pair pairs) loaded
unfolding call spec_call dict_of lload_dict
load_within-Refines insts s id idx pair pairs cut rep ok h =
    let (insts', e, size) = load_within insts idx (pair ∷ pairs) (omega (arith, h, rep.size)) in
    let (here, others) = load_at_lem insts insts' idx (pair ∷ pairs) e in
    let in_range : ltb idx s.size ≡ true = ground (arith, h) in
    (
      insts',
      record {
        same_call = rw (call, lload_dict, cut, e) refl;
        same_out = rw (spec_call, cut, in_range) refl;
        after =
            rw (spec_call, cut, in_range)
              (record {
                size = size ∙ rep.size;
                dicts = λ j. elim (Bool-cases (idx == j)) [
                  | inl same ↦ rw (same, ← (==_iff idx j).0 same) here
                  | inr d ↦ rw d (others j (λ same. ground (arith, same, d)) ∙ rep.dicts j)
                ];
                tables = λ j. elim (Bool-cases (idx == j)) [
                  | inl same ↦ rw same ok
                  | inr d ↦ rw d (rep.tables j)
                ];
              });
      },
    )

load_past-Refines :
    (insts : List DictInst) (s : Tables) (id idx : ℕ) (pair : DictNode) (pairs : List DictNode)
    → int_id id ≡ some idx
    → Represents insts s
    → s.size ≤ idx
    → Refines insts insts s (load_call id pair pairs) refused
unfolding call spec_call lload_dict load_at
load_past-Refines insts s id idx pair pairs cut rep h =
    let past : ltb idx s.size ≡ false = ground (arith, h) in
    let absent = get_elem?-past insts idx (omega (arith, h, rep.size)) in
    record {
      same_call = rw (call, lload_dict, cut, load_at, absent) refl;
      same_out = rw (spec_call, cut, past) refl;
      after = rw (spec_call, cut, past) rep;
    }

negative-Refines :
    (insts : List DictInst) (s : Tables) (id : ℕ) (pair : DictNode) (pairs : List DictNode)
    → int_id id ≡ none
    → Represents insts s
    → Refines insts insts s (load_call id pair pairs) broken
unfolding call spec_call lload_dict
negative-Refines insts s id pair pairs cut rep = record {
  same_call = rw (call, lload_dict, cut) refl;
  same_out = rw (spec_call, cut) refl;
  after = rw (spec_call, cut) rep;
}

get_call-Refines :
    (insts : List DictInst) (s : Tables) (id : ℕ) (key : Text)
    → Represents insts s
    → (out : Output) × Refines insts insts s (get_call id key) out
unfolding call spec_call ldict_get
get_call-Refines insts s id key rep = elim (Option-cases (int_id id)) [
  | inl cut ↦ (
    answered crash,
    record {
      same_call = rw (call, ldict_get, cut) refl;
      same_out = rw (spec_call, cut) refl;
      after = rw (spec_call, cut) rep;
    },
  )
  | inr (idx, cut) ↦
      let same = get_answer (s.table idx) insts idx key (rep.dicts idx) (rep.tables idx) in
      (
        answered (spec_get (s.table idx) key),
        record {
          same_call = rw (call, ldict_get, cut, same) refl;
          same_out = rw (spec_call, cut) refl;
          after = rw (spec_call, cut) rep;
        },
      )
]

both_hold : (c : Call) (calls : List Call) → LoadsTables (c ∷ calls) → Loads c × LoadsTables calls
both_hold (load_call id pair pairs) calls ok = (ok.0, ok.1)
both_hold (get_call id key) calls ok = (tt, ok)

call-Refines :
    (insts : List DictInst) (s : Tables) (c : Call)
    → Represents insts s
    → Loads c
    → (insts' : List DictInst) × (out : Output) × Refines insts insts' s c out
call-Refines insts s (load_call id pair pairs) rep ok = elim (Option-cases (int_id id)) [
  | inl cut ↦ (insts, broken, negative-Refines insts s id pair pairs cut rep)
  | inr (idx, cut) ↦ elim (Bool-cases (ltb idx s.size)) [
    | inl e ↦
        let within : idx < s.size = ground (arith, e) in
        let (insts', r) = load_within-Refines insts s id idx pair pairs cut rep ok within in
        (insts', loaded, r)
    | inr e ↦
        let past : s.size ≤ idx = ground (arith, e) in
        (insts, refused, load_past-Refines insts s id idx pair pairs cut rep past)
  ]
]
call-Refines insts s (get_call id key) rep ok =
    let (out, r) = get_call-Refines insts s id key rep in (insts, out, r)

-- Loads of tables of at least one pair, in which a key stands at most once, and calls of `get`, in any
-- order and with any integers of Lua as ids, give what an array of tables gives, from instances that hold
-- such tables on: an id is cut to an `int`, and a negative one ends the run, with a read before the array.
pub run_calls-spec_run :
    (calls : List Call) (insts : List DictInst) (s : Tables)
    → LoadsTables calls
    → Represents insts s
    → run_calls insts calls ≡ spec_run s calls
unfolding run_calls spec_run
run_calls-spec_run [] insts s ok rep = refl
run_calls-spec_run (c ∷ calls) insts s ok rep =
    let (first, rest) = both_hold c calls ok in
    let (insts', out, r) = call-Refines insts s c rep first in
    rw
      (
        run_calls,
        r.same_call,
        spec_run,
        r.same_out,
        run_calls-spec_run calls insts' (spec_call s c).0 rest r.after,
      )
      refl
