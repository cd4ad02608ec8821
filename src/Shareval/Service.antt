-- ===== src/Shareval/Service.antt =====
-- What a query of src/lua-shareval.c gives back after an update.
use my_skynet.Prelude.{
  inl, inr, ℕ, ◌<◌, ◌≡◌, ◌≢◌, refl, arith, List, [], ◌∷◌, Bool, false, Option, none, some, ◌==◌,
  length, length-set, get_or-set, Option-cases,
}
use my_skynet.Shareval.{
  LuaValue, nil, string, Sval, stored, unset, lua_tnil, st_string, shown, wild_read, store_value,
  show_value,
}
use my_skynet.Shareval.Values.{IsPlain, show_value-store_value}
use my_skynet.Shareval.Lua.{
  max_inst, updated, update_wild, pushed, lgrab_id, sval_update, sval_check, lsval_update,
  lsval_query,
}

lgrab_id_lt : (id : ℕ) → id < max_inst → lgrab_id id ≡ some id
unfolding lgrab_id
lgrab_id_lt id h = ground (arith, h)

lgrab_id_same : (id i : ℕ) → lgrab_id id ≡ some i → i ≡ id
unfolding lgrab_id
lgrab_id_same id i e = ground (arith, e)

lsval_query-eq :
    {Double : Type 0} (insts insts' : List (Option (Sval Double))) (j : ℕ) (throw : Bool)
    → sval_check insts j ≡ sval_check insts' j
    → lsval_query insts j throw ≡ lsval_query insts' j throw
unfolding lsval_query
lsval_query-eq insts insts' j throw e = elim (Option-cases (lgrab_id j)) [
  | inl f ↦ rw (lsval_query, f) refl
  | inr (i, f) ↦ let same : i ≡ j = lgrab_id_same j i f in rw (lsval_query, f, same, e) refl
]

-- The update takes a value, of which a query of that id then reads through the pointer that nothing has set.
abbrev pub TakenAndLost :
    {Double : Type 0} → List (Option (Sval Double)) → ℕ → LuaValue Double → Type 0
TakenAndLost {Double} insts id v =
    (insts' : List (Option (Sval Double))) × (lsval_update insts id v ≡ updated insts')
    × ((throw : Bool) → lsval_query insts' id throw ≡ pushed wild_read)

module _ {Double : Type 0} (insts : List (Option (Sval Double))) (id : ℕ)
    (size : length insts ≡ max_inst) (h : id < max_inst) where
  -- A value that the `switch` stored is what the next query shows, for this id and no other.
  stored_lem :
      (val : Sval Double) (throw : Bool)
      → (lsval_query (sval_update insts id val) id throw ≡ pushed (show_value val))
        × ((j : ℕ)
            → j ≢ id
            → lsval_query (sval_update insts id val) j throw ≡ lsval_query insts j throw)
  unfolding lsval_query sval_update sval_check lgrab_id
  stored_lem val throw = (
    rw
        (
          lsval_query,
          lgrab_id_lt id h,
          sval_check,
          sval_update,
          get_or-set insts id id (some val) none (omega (arith, h, size)),
        )
        (ground arith),
    λ j d. other j d,
  )
    where
      other :
          (j : ℕ)
          → j ≢ id
          → lsval_query (sval_update insts id val) j throw ≡ lsval_query insts j throw
      other j d =
          let same : (id == j) ≡ false = ground (arith, d) in
          let checks : sval_check (sval_update insts id val) j ≡ sval_check insts j =
            rw
              (
                sval_check,
                sval_update,
                get_or-set insts id j (some val) none (omega (arith, h, size)),
                same,
              )
              refl in
          lsval_query-eq (sval_update insts id val) insts j throw checks

  -- With 64 instances and an id below 64, a boolean, an integer or another number is taken by an update, and
  -- every query of that id, before the next update, pushes it as it was; a query of another id gives what it
  -- gave before.
  pub lsval_query-lsval_update :
      (v : LuaValue Double)
      → IsPlain v
      → (insts' : List (Option (Sval Double))) × (lsval_update insts id v ≡ updated insts')
        × (length insts' ≡ max_inst)
        × ((throw : Bool)
            → (lsval_query insts' id throw ≡ pushed (shown v))
              × ((j : ℕ) → j ≢ id → lsval_query insts' j throw ≡ lsval_query insts j throw))
  unfolding lsval_update sval_update
  lsval_query-lsval_update v plain =
      let (val, kept, shows) = show_value-store_value v plain in
      (
        sval_update insts id val,
        rw (lsval_update, lgrab_id_lt id h, kept) refl,
        rw (length-set insts id (some val)) size,
        λ throw. (rw (← shows) ((stored_lem val throw).0), (stored_lem val throw).1),
      )

  taken :
      (v : LuaValue Double) (val : Sval Double)
      → store_value v ≡ stored val
      → show_value val ≡ wild_read
      → TakenAndLost insts id v
  unfolding lsval_update
  taken v val e f = (
    sval_update insts id val,
    rw (lsval_update, lgrab_id_lt id h, e) refl,
    λ throw. rw (← f) ((stored_lem val throw).0),
  )

  -- With 64 instances and an id below 64, the update with any string that is not empty writes through the
  -- pointer that nothing has set; nil and the empty string are taken, and every query of that id, before the
  -- next update, then reads through the pointer.
  pub lsval_query_lost :
      ((c : ℕ) (s : List ℕ) → lsval_update insts id (string (c ∷ s)) ≡ update_wild)
      × TakenAndLost insts id nil
      × TakenAndLost insts id (string [])
  unfolding lsval_update store_value show_value
  lsval_query_lost = (
    λ c s. rw (lsval_update, lgrab_id_lt id h) refl,
    taken nil (record { type = lua_tnil; body = unset }) refl refl,
    taken (string []) (record { type = st_string; body = unset }) refl refl,
  )
