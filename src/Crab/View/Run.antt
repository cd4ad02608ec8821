-- ===== src/Crab/View/Run.antt =====
-- A run of `table_insert` of src/lua-crab.c on a new table: what the table has, and how many nodes.
use my_skynet.Prelude.{
  ℕ, ◌+◌, ◌*◌, ◌≤◌, ◌≡◌, ◌⊎◌, refl, ap, arith, List, [], ◌∷◌, Bool, false, ◌||◌, Option, none, some,
  ◌==◌, ==_iff, if◌then◌else◌, length, Bool-cases, inl, inr,
}
use mathlib.Core.Path.{subst}
use my_skynet.Crab.{Table, table_insert, table_new, non_terminator, tisnil}
use my_skynet.Crab.Newkey.{weight, total, one}
use my_skynet.Crab.View.{View, view, IsMap}
use my_skynet.Crab.View.Insert.{Keyed, or_new, table_insert_lem, table_new-IsMap, view-table_new}

-- the keys of a list are put in, in its order
unfoldable pub insert_all : List ℕ → Table → Option Table
insert_all [] t = some t
insert_all (key ∷ keys) t = elim (table_insert t key) [
  | none ↦ none
  | some (t', i) ↦ insert_all keys t'
]

-- Beyond the first node, there are fewer than two nodes for each key, of which there are at most `n`.
unfoldable pub Fits : ℕ → Table → Type 0
Fits n t =
    (total one t.node ≤ n)
    × (length t.node ≡ t.capacity)
    × ((t.capacity ≡ 1) ⊎ (t.capacity + 2 ≤ 2 * total one t.node))

one_more : (t t' : Table) (i key n : ℕ) → IsMap t → Keyed t t' i key → Fits n t → Fits (n + 1) t'
unfolding Fits
one_more t t' i key n m k f =
    let size = m.sound.chains.size in
    let size' = k.is_map.sound.chains.size in
    let (low, high) = k.keys in
    let keys : total one t'.node ≤ n + 1 = omega (arith, high, f.0) in
    (
      keys,
      size',
      elim k.size [
        | inl same_size ↦ elim f.2 [
          | inl single ↦ inl (omega (arith, single, size, size', same_size))
          | inr few ↦ inr (omega (arith, few, size, size', same_size, low))
        ]
        | inr (twice, every, new) ↦ inr (omega (arith, twice, every, new, size, size'))
      ],
    )

-- a key is one of a list
unfoldable pub is_in : ℕ → List ℕ → Bool
is_in key [] = false
is_in key (k ∷ keys) = k == key || is_in key keys

-- What the run makes of a table.
record Filled (t t' : Table) (n : ℕ) (keys : List ℕ) : Type 0 where
  is_map : IsMap t'
  fits : Fits (n + length keys) t'
  views : (k : ℕ) → view t' k ≡ (if is_in k keys then or_new (view t k) else view t k)

or_new_twice : (v : View) → or_new (or_new v) ≡ or_new v
or_new_twice none = refl
or_new_twice (some x) = refl

views_more :
    (key k : ℕ) (keys : List ℕ) (here v v' v'' : View)
    → (key ≡ k → here ≡ v)
    → v' ≡ (if key == k then or_new here else v)
    → v'' ≡ (if is_in k keys then or_new v' else v')
    → v'' ≡ (if key == k || is_in k keys then or_new v else v)
views_more key k keys here v v' v'' h e f = elim (Bool-cases (key == k)) [
  | inl g ↦ elim (Bool-cases (is_in k keys)) [
    | inl l ↦ rw (f, e, g, l, h ((==_iff key k).0 g)) (or_new_twice v)
    | inr l ↦ rw (f, e, g, l, h ((==_iff key k).0 g)) refl
  ]
  | inr g ↦ rw (f, e, g) refl
]

insert_all_lem :
    (keys : List ℕ) (t : Table) (n : ℕ)
    → IsMap t
    → Fits n t
    → (t' : Table) × (insert_all keys t ≡ some t') × Filled t t' n keys
unfolding insert_all is_in
insert_all_lem [] t n m f = (
  t,
  refl,
  record { is_map = m; fits = subst (λ a. Fits a t) (omega arith) f; views = λ k. refl },
)
insert_all_lem (key ∷ keys) t n m f =
    let (t1, i, run, k1) = table_insert_lem t key m in
    let (t', runs, r) = insert_all_lem keys t1 (n + 1) k1.is_map (one_more t t1 i key n m k1 f) in
    (
      t',
      rw (insert_all, run) runs,
      record {
        is_map = r.is_map;
        fits = subst (λ a. Fits a t') (omega arith) r.fits;
        views = λ k.
            views_more key k keys (view t key) (view t k) (view t1 k) (view t' k)
              (λ e. ap (view t) e) (k1.views k) (r.views k);
      },
    )

new-Fits : Fits 0 table_new
unfolding Fits total weight tisnil
new-Fits = (omega arith, refl, inl refl)

-- For every list of keys, putting them into a new table ends. Then `table_get` finds the keys of the list, whose nodes
-- end no word and have no further table, and no other key; and the table has one node, or at most
-- twice as many nodes as there are keys, less two.
pub insert_all-new :
    (keys : List ℕ)
    → (t : Table) × (insert_all keys table_new ≡ some t)
      × ((t.capacity ≡ 1) ⊎ (t.capacity + 2 ≤ 2 * length keys))
      × ((k : ℕ) → view t k ≡ (if is_in k keys then some (non_terminator, none) else none))
unfolding Fits
insert_all-new keys =
    let (t, run, r) = insert_all_lem keys table_new 0 table_new-IsMap new-Fits in
    let (few, size, fits) = r.fits in
    (
      t,
      run,
      elim fits [ inl single ↦ inl single | inr bound ↦ inr (omega (arith, bound, few)) ],
      λ k. rw (r.views k, view-table_new k) refl,
    )
