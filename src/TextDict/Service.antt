-- ===== src/TextDict/Service.antt =====
-- The functions for Lua of src/lua-textdict.c together: names to instances, a load and what is looked up.
use my_skynet.Prelude.{
  ℕ, zero, suc, ◌+◌, ◌-◌, ◌≤◌, ◌<◌, ◌≡◌, ◌≢◌, refl, ap, sym, ◌∙◌, arith, List, [], ◌∷◌, ◌++◌, true,
  false, Option, none, some, if◌then◌else◌, length, get_elem?, get_elem?-set_ne, set, take,
  length-append, inl, inr, Option-cases,
}
use my_skynet.TextDict.{Text, DictNode, dict_new, load, fault, found, find}
use my_skynet.TextDict.Chain.{count}
use my_skynet.TextDict.Load.{dict_get-load, dict_get-dict_new}
use my_skynet.TextDict.Instances.{
  max_dict_inst, name_size, DictInst, same_start, inst_from, dinst_alloc, Answer, crash, nil, value,
  done, int_id, load_at, lload_dict, dictctx_check, get_at, ldict_get,
}

same_start_refl : (n : ℕ) (s : Text) → same_start n s s ≡ true
unfolding same_start
same_start_refl zero s = refl
same_start_refl (suc n) [] = refl
same_start_refl (suc n) (c ∷ s) = ground (arith, same_start_refl n s)

take_short : (n : ℕ) (s : Text) → length s ≤ n → take n s ≡ s
take_short zero [] h = refl
take_short zero (c ∷ s) h = absurd (omega (arith, h))
take_short (suc n) [] h = refl
take_short (suc n) (c ∷ s) h = ap (◌∷◌ c) (take_short n s (omega (arith, h)))

same_start-take : (n : ℕ) (s : Text) → n < length s → same_start (suc n) (take n s) s ≡ false
unfolding same_start
same_start-take n [] h = absurd (omega (arith, h))
same_start-take zero (c ∷ s) h = refl
same_start-take (suc n) (c ∷ s) h = ground (arith, same_start-take n s (omega (arith, h)))

inst_from-append :
    (idx : ℕ) (insts : List DictInst) (inst : DictInst) (name : Text)
    → inst_from idx insts name ≡ none
    → inst_from idx (insts ++ inst ∷ []) name
      ≡ (if same_start name_size inst.name name then some (idx + length insts) else none)
unfolding inst_from
inst_from-append idx [] inst name h = ground arith
inst_from-append idx (x ∷ insts) inst name h =
    ground (arith, h, inst_from-append (idx + 1) insts inst name)

inst_from-lt :
    (idx : ℕ) (insts : List DictInst) (name : Text) (id : ℕ)
    → inst_from idx insts name ≡ some id
    → id < idx + length insts
unfolding inst_from
inst_from-lt idx [] name id e = ground (arith, e)
inst_from-lt idx (x ∷ insts) name id e = ground (arith, e, inst_from-lt (idx + 1) insts name id)

get_elem?-set_there :
    {A : Type 0} (xs : List A) (i : ℕ) (x v : A)
    → get_elem? xs i ≡ some x
    → get_elem? (set xs i v) i ≡ some v
get_elem?-set_there [] i x v e = cc
get_elem?-set_there (y ∷ xs) zero x v e = refl
get_elem?-set_there (y ∷ xs) (suc i) x v e = get_elem?-set_there xs i x v e

-- A load changes the dictionary of one instance.
pub load_at_lem :
    (insts insts' : List DictInst) (id : ℕ) (pairs : List DictNode)
    → load_at insts id pairs ≡ done insts'
    → (dictctx_check insts' id ≡ some (load dict_new pairs))
      × ((j : ℕ) → j ≢ id → dictctx_check insts' j ≡ dictctx_check insts j)
unfolding load_at dictctx_check
load_at_lem insts insts' id pairs e = elim (Option-cases (get_elem? insts id)) [
  | inl f ↦ ground (arith, e, f)
  | inr (inst, f) ↦
      let inst' : DictInst = record inst { ctx = some (load dict_new pairs) } in
      let made : set insts id inst' ≡ insts' = ground (arith, e, f) in
      (
        rw (← made, get_elem?-set_there insts id inst inst' f, dictctx_check) refl,
        λ j d. rw (← made, get_elem?-set_ne insts inst' (λ same. d (sym same)), dictctx_check) refl,
      )
]

-- What `dinst_alloc` does with a name that it does not find.
dinst_alloc_new :
    (insts : List DictInst) (name : Text)
    → inst_from 0 insts name ≡ none
    → length insts < max_dict_inst
    → dinst_alloc insts name ≡ (
      insts ++ (record { name = take (name_size - 1) name; ctx = none }) ∷ [],
      some (length insts),
    )
unfolding dinst_alloc
dinst_alloc_new insts name absent room = ground (arith, absent, room)

module _ (insts insts' : List DictInst) (name : Text) (id : ℕ)
    (given : dinst_alloc insts name ≡ (insts', some id)) where
  room : inst_from 0 insts name ≡ none → length insts < max_dict_inst
  unfolding dinst_alloc
  room e = ground (arith, given, e)

  -- For a name of less than 64 bytes, asking again gives the same instance and makes no other.
  pub dinst_alloc-again : length name < name_size → dinst_alloc insts' name ≡ (insts', some id)
  unfolding dinst_alloc
  dinst_alloc-again short = elim (Option-cases (inst_from 0 insts name)) [
    | inl e ↦
        let made =
          ap (λ (r : List DictInst × Option ℕ). r.0)
            (sym (dinst_alloc_new insts name e (room e)) ∙ given) in
        let place =
          ap (λ (r : List DictInst × Option ℕ). r.1)
            (sym (dinst_alloc_new insts name e (room e)) ∙ given) in
        let cut = take_short (name_size - 1) name (omega (arith, short)) in
        let here =
          inst_from-append 0 insts (record { name = take (name_size - 1) name; ctx = none }) name
            e in
        let found_it : inst_from 0 insts' name ≡ some id =
          rw (← made, here, cut, same_start_refl name_size name) (ground (arith, place)) in
        rw (found_it, dinst_alloc) refl
    | inr (idx, e) ↦ ground (arith, given, e)
  ]

  -- An id that was given out is one of the instances, of which there are at most 8.
  pub dinst_alloc-lt :
      length insts ≤ max_dict_inst → (id < length insts') × (length insts' ≤ max_dict_inst)
  unfolding dinst_alloc
  dinst_alloc-lt few = elim (Option-cases (inst_from 0 insts name)) [
    | inl e ↦
        let made =
          ap (λ (r : List DictInst × Option ℕ). r.0)
            (sym (dinst_alloc_new insts name e (room e)) ∙ given) in
        let place =
          ap (λ (r : List DictInst × Option ℕ). r.1)
            (sym (dinst_alloc_new insts name e (room e)) ∙ given) in
        let inst : DictInst = record { name = take (name_size - 1) name; ctx = none } in
        ground (arith, made, place, room e, length-append insts (inst ∷ []))
    | inr (idx, e) ↦ ground (arith, given, e, few, inst_from-lt 0 insts name idx e)
  ]

-- A name of 64 bytes or more is never found again, since its copy is cut: as long as there is room, asking
-- for it once more gives another instance.
pub dinst_alloc_long :
    (insts : List DictInst) (name : Text)
    → name_size ≤ length name
    → inst_from 0 insts name ≡ none
    → length insts + 2 ≤ max_dict_inst
    → (insts' insts'' : List DictInst) × (dinst_alloc insts name ≡ (insts', some (length insts)))
      × (dinst_alloc insts' name ≡ (insts'', some (length insts + 1)))
dinst_alloc_long insts name long absent room =
    let inst : DictInst = record { name = take (name_size - 1) name; ctx = none } in
    let later = insts ++ inst ∷ [] in
    let again : inst_from 0 later name ≡ none =
      rw
        (
          inst_from-append 0 insts inst name absent,
          same_start-take (name_size - 1) name (omega (arith, long)),
        )
        refl in
    (
      later,
      later ++ inst ∷ [],
      dinst_alloc_new insts name absent (omega (arith, room)),
      ground (arith, dinst_alloc_new later name again, length-append insts (inst ∷ []), room),
    )

-- After a table of at least one pair is loaded into an instance, a look into it gives for a key that the table
-- has at most once its value, or nil where the table has none, and for every other instance what it gave
-- before.
pub get_at-load_at :
    (insts insts' : List DictInst) (id : ℕ) (pair : DictNode) (pairs : List DictNode) (key : Text)
    → load_at insts id (pair ∷ pairs) ≡ done insts'
    → count key (pair ∷ pairs) ≤ 1
    → (get_at insts' id key ≡ elim (find key (pair ∷ pairs)) [ none ↦ nil | some v ↦ value v ])
      × ((j : ℕ) → j ≢ id → get_at insts' j key ≡ get_at insts j key)
unfolding get_at
get_at-load_at insts insts' id pair pairs key e once =
    let loaded = load_at_lem insts insts' id (pair ∷ pairs) e in
    (
      rw (loaded.0, get_at, dict_get-load key pair pairs once) (answer (find key (pair ∷ pairs))),
      λ j d. rw (loaded.1 j d, get_at) refl,
    )
  where
    answer :
        (o : Option Text)
        → ◌≡◌ {A = Answer}
            (elim (found o) [ fault ↦ crash | found none ↦ nil | found (some v) ↦ value v ])
            (elim o [ none ↦ nil | some v ↦ value v ])
    answer none = refl
    answer (some v) = refl

get_at_empty :
    (insts insts' : List DictInst) (idx : ℕ) (key : Text)
    → load_at insts idx [] ≡ done insts'
    → get_at insts' idx key ≡ crash
unfolding get_at load
get_at_empty insts insts' idx key e =
    rw ((load_at_lem insts insts' idx [] e).0, get_at, dict_get-dict_new key) refl

-- After an empty table is loaded into an instance, `get` on it reads outside of the table for every key.
pub ldict_get_empty :
    (insts insts' : List DictInst) (id : ℕ) (key : Text)
    → lload_dict insts id [] ≡ done insts'
    → ldict_get insts' id key ≡ crash
unfolding lload_dict ldict_get
ldict_get_empty insts insts' id key e = elim (Option-cases (int_id id)) [
  | inl f ↦ rw (ldict_get, f) refl
  | inr (idx, f) ↦
      let here : load_at insts idx [] ≡ done insts' = ground (arith, e, f) in
      rw (ldict_get, f) (get_at_empty insts insts' idx key here)
]
