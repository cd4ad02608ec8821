-- ===== src/Crab/View/Insert.antt =====
-- What `table_insert` of src/lua-crab.c, and a write to the node that it gives, make of a table as a map.
use my_skynet.Prelude.{
  ◌+◌, ◌≤◌, ℕ, ◌≤◌, ◌<◌, ◌≡◌, refl, sym, ◌∙◌, arith, true, false, Option, none, some, ◌==◌, ==_iff,
  if◌then◌else◌, length, Bool-cases, inl, inr,
}
use mathlib.Core.Path.{subst}
use my_skynet.Crab.{Table, tisnil, tnode, put_node, non_terminator, table_insert, table_new}
use my_skynet.Crab.Chain.{is_live}
use my_skynet.Crab.Chain.Get.{live_inside, table_get_lem}
use my_skynet.Crab.Chain.Place.{tnode-put_node}
use my_skynet.Crab.Newkey.{weight, total, IsAdded, Doubles, one, table_new-IsSound}
use my_skynet.Crab.Newkey.Place.{length-put_node}
use my_skynet.Crab.Newkey.Reflag.{reflag-IsSound, reflag_totals}
use my_skynet.Crab.Newkey.Grow.{table_newkey_lem}
use my_skynet.Crab.View.{View, view, at_key, any, IsMap, total-view, view_eq, view_here}

-- The index is that of the node of a key.
pub record IsAt (t : Table) (i key : ℕ) : Type 0 where
  pub inside : i < length t.node
  pub live : is_live t i ≡ true
  pub key_here : (tnode t i).key ≡ key

-- a new key has no further table, and no word ends at it
abbrev pub or_new : View → View
or_new none = some (non_terminator, none)
or_new (some x) = some x

pub view_at :
    (t : Table) (i key : ℕ)
    → IsMap t
    → IsAt t i key
    → view t key ≡ some ((tnode t i).flag, (tnode t i).value)
view_at t i key m p = rw (← p.key_here) (view_here t i m p.inside p.live)

-- What a table is after a key was looked for and put in.
pub record Keyed (t t' : Table) (i key : ℕ) : Type 0 where
  pub is_map : IsMap t'
  pub at : IsAt t' i key
  pub size : Doubles t t'
  pub keys : (total one t.node ≤ total one t'.node) × (total one t'.node ≤ total one t.node + 1)
  pub views : (k : ℕ) → view t' k ≡ (if key == k then or_new (view t key) else view t k)

pub view_same :
    (t t' : Table) (k : ℕ)
    → IsMap t
    → IsMap t'
    → ((g : ℕ → Option ℕ → ℕ) → total (at_key k g) t'.node ≡ total (at_key k g) t.node)
    → view t' k ≡ view t k
view_same t t' k m m' h =
    view_eq (view t' k) (view t k) (λ g. sym (total-view t' k g m') ∙ h g ∙ total-view t k g m)

added :
    (t t' : Table) (i key : ℕ) → IsMap t → view t key ≡ none → IsAdded t t' key i → Keyed t t' i key
unfolding is_live tisnil
added t t' i key m e p = record {
  is_map = m';
  at = here;
  size = p.size;
  keys = (omega (arith, p.totals one), omega (arith, p.totals one));
  views = views;
}
  where
    unique : (k : ℕ) → total (at_key k any) t'.node ≤ 1
    unique k = elim (Bool-cases (key == k)) [
      | inl f ↦
          let before : view t k ≡ none = subst (λ k. view t k ≡ none) ((==_iff key k).0 f) e in
          ground (arith, f, p.totals (at_key k any), total-view t k any m, before)
      | inr f ↦ ground (arith, f, p.totals (at_key k any), m.unique k)
    ]

    m' : IsMap t'
    m' = record { sound = p.sound; unique = unique }

    here : IsAt t' i key
    here = record { inside = p.inside; live = rw (p.here.1) refl; key_here = p.here.0 }

    new : view t' key ≡ some (non_terminator, none)
    new = view_at t' i key m' here ∙ rw (p.here.1, p.here.2) refl

    views : (k : ℕ) → view t' k ≡ (if key == k then or_new (view t key) else view t k)
    views k = elim (Bool-cases (key == k)) [
      | inl f ↦
          rw (f, e) (subst (λ k. view t' k ≡ some (non_terminator, none)) ((==_iff key k).0 f) new)
      | inr f ↦ rw f (view_same t t' k m m' (λ g. ground (arith, f, p.totals (at_key k g))))
    ]

found :
    (t : Table) (i key : ℕ)
    → IsMap t
    → IsAt t i key
    → (k : ℕ) → view t k ≡ (if key == k then or_new (view t key) else view t k)
found t i key m p k = elim (Bool-cases (key == k)) [
  | inl f ↦
      rw (f, view_at t i key m p)
        (subst (λ k. view t k ≡ some ((tnode t i).flag, (tnode t i).value)) ((==_iff key k).0 f)
          (view_at t i key m p))
  | inr f ↦ rw f refl
]

-- A key is put in, or found.
pub table_insert_lem :
    (t : Table) (key : ℕ)
    → IsMap t
    → (t' : Table) × (i : ℕ) × (table_insert t key ≡ some (t', i)) × Keyed t t' i key
unfolding table_insert view
table_insert_lem t key m = elim (table_get_lem t m.sound.chain m.sound.chains key) [
  | inl (i, got, live, same) ↦
      let here : IsAt t i key = record {
        inside = live_inside t m.sound.chain m.sound.chains i live;
        live = live;
        key_here = same;
      } in
      (
        t,
        i,
        rw (table_insert, got) refl,
        record {
          is_map = m;
          at = here;
          size = inl refl;
          keys = (omega arith, omega arith);
          views = found t i key m here;
        },
      )
  | inr (got, absent) ↦
      let (t', i, run, p) = table_newkey_lem t key m.sound in
      (t', i, rw (table_insert, got) run, added t t' i key m (rw (view, got) refl) p)
]

module _ (t : Table) (i key flag : ℕ) (value : Option ℕ) (m : IsMap t) (p : IsAt t i key)
    (used : (flag == 0) ≡ false) where
  abbrev pub written : Table
  written = put_node t i (record (tnode t i) { flag = flag; value = value })

  at_written : tnode written i ≡ record (tnode t i) { flag = flag; value = value }
  at_written =
      tnode-put_node t i i (record (tnode t i) { flag = flag; value = value }) p.inside
      ∙ rw ((==_iff i i).1 refl) refl

  written_totals :
      (k : ℕ) (g : ℕ → Option ℕ → ℕ)
      → (key == k) ≡ false
      → total (at_key k g) written.node ≡ total (at_key k g) t.node
  written_totals k g f =
      let other : ((tnode t i).key == k) ≡ false = rw p.key_here f in
      ground (arith, other, reflag_totals t m.sound i flag value p.inside p.live used (at_key k g))

  written_unique : (k : ℕ) → total (at_key k any) written.node ≤ 1
  written_unique k =
      ground (
        arith,
        m.unique k,
        reflag_totals t m.sound i flag value p.inside p.live used (at_key k any),
      )

  pub written-IsMap : IsMap written
  written-IsMap = record {
    sound = reflag-IsSound t m.sound i flag value p.inside p.live used;
    unique = written_unique;
  }

  pub written-IsAt : IsAt written i key
  unfolding is_live tisnil
  written-IsAt = record {
    inside =
        omega (
          arith,
          p.inside,
          length-put_node t i (record (tnode t i) { flag = flag; value = value }),
        );
    live = rw (at_written, used) refl;
    key_here = rw at_written (p.key_here);
  }

  -- A write to the node of a key changes what the table has for it, and nothing else.
  pub view-written : (k : ℕ) → view written k ≡ (if key == k then some (flag, value) else view t k)
  view-written k = elim (Bool-cases (key == k)) [
    | inl f ↦
        let here : view written key ≡ some (flag, value) =
          view_at written i key written-IsMap written-IsAt ∙ rw at_written refl in
        rw f (subst (λ k. view written k ≡ some (flag, value)) ((==_iff key k).0 f) here)
    | inr f ↦ rw f (view_same t written k m written-IsMap (λ g. written_totals k g f))
  ]

pub table_new-IsMap : IsMap table_new
unfolding total weight tisnil
table_new-IsMap = record { sound = table_new-IsSound; unique = λ k. omega arith }

pub view-table_new : (k : ℕ) → view table_new k ≡ none
unfolding total weight tisnil
view-table_new k =
    view_eq (view table_new k) none (λ g. sym (total-view table_new k g table_new-IsMap))
