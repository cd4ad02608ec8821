-- ===== src/Crab/Close/Once.antt =====
-- `_dict_close` of src/lua-crab.c frees each table of the tree once.
use my_skynet.Prelude.{
  ℕ, zero, suc, ◌+◌, ◌≤◌, ◌<◌, ◌≡◌, refl, sym, ap, ◌∙◌, arith, List, [], ◌∷◌, ◌++◌, append_assoc,
  append-nil, true, false, not, ◌&&◌, Option, some, ◌==◌, ==_iff, if◌then◌else◌, ltb, length,
  get_or, Bool-cases, Option-cases, inl, inr,
}
use my_skynet.Crab.{initnode, tisnil, tnode}
use my_skynet.Crab.Words.{Tables, table_at, inserted, dict_open}
use my_skynet.Crab.Close.{close_within, dict_close}
use my_skynet.Crab.Close.Label.{prefix, prefix_to, prefix_from, same_rest, label_same, leads_on}
use my_skynet.Crab.Chain.{occurs, is_live}
use my_skynet.Crab.Chain.Get.{live_inside}
use my_skynet.Crab.Chain.Splice.{occurs-append}
use my_skynet.Crab.Newkey.{total}
use my_skynet.Crab.View.{at_key, view_here, total-view}
use my_skynet.Crab.Tree.{next, view_in, IsTree}
use my_skynet.Crab.Tree.Open.{words_of, dict_open_words}
use my_skynet.Crab.Close.Nodes.{
  behind_node, sum_behind, close_nodes_lem, total_zero, total_eq, occurs_last, number_next,
}

module _ (mem : Tables) (t : IsTree mem) where
  -- how often a table is freed when that at `a` is closed
  abbrev once_below : ℕ → ℕ → ℕ
  once_below c a = if ltb c (length mem) && prefix (t.label a) (t.label c) then 1 else 0

  child :
      (a i b : ℕ)
      → tisnil (get_or (table_at mem a).node i initnode) ≡ false
      → (get_or (table_at mem a).node i initnode).value ≡ some b
      → next (view_in mem a (get_or (table_at mem a).node i initnode).key) ≡ some b
  unfolding is_live tnode
  child a i b e f =
      let m = t.maps a in
      let inside = live_inside (table_at mem a) m.sound.chain m.sound.chains i (ap not e) in
      ap next (view_here (table_at mem a) i m inside (ap not e)) ∙ f

  apart : (b c : ℕ) → ((rest : List ℕ) → t.label c ≡ t.label b ++ rest → ⊥) → once_below c b ≡ 0
  apart b c h = elim (Bool-cases (prefix (t.label b) (t.label c))) [
    | inl e ↦ let (rest, f) = prefix_to (t.label b) (t.label c) e in absurd (h rest f)
    | inr e ↦ ground (arith, e)
  ]

  under :
      (b c : ℕ) (rest : List ℕ)
      → c < length mem
      → t.label c ≡ t.label b ++ rest
      → once_below c b ≡ 1
  under b c rest h e =
      let front : prefix (t.label b) (t.label c) ≡ true = rw e (prefix_from (t.label b) rest) in
      ground (arith, h, front)

  -- the nodes of the table at `a`, for a table that is not at or below it
  module _ (a c : ℕ) where
    none_behind :
        ((i b : ℕ)
          → next (view_in mem a (get_or (table_at mem a).node i initnode).key) ≡ some b
          → once_below c b ≡ 0)
        → total (sum_behind (once_below c)) (table_at mem a).node ≡ 0
    none_behind h = total_zero (sum_behind (once_below c)) (table_at mem a).node (λ i e.
        elim (Option-cases (get_or (table_at mem a).node i initnode).value) [
          | inl f ↦ rw f refl
          | inr (b, f) ↦ rw f (h i b (child a i b e f))
        ])

  -- A table below a child of `a` has the child's key behind the label of `a`.
  through :
      (a k b c : ℕ) (rest : List ℕ)
      → next (view_in mem a k) ≡ some b
      → t.label c ≡ t.label b ++ rest
      → t.label c ≡ t.label a ++ k ∷ rest
  through a k b c rest e f =
      let (i, j, path) = t.below a k b e in
      f ∙ ap (λ x. x ++ rest) path ∙ append_assoc (t.label a) (k ∷ []) rest

  -- what the children of `a` have of `c`, and `a` itself
  abbrev Sums : ℕ → ℕ → Type 0
  Sums a c =
      total (sum_behind (once_below c)) (table_at mem a).node + (if a == c then 1 else 0)
      ≡ once_below c a

  Sums-outside : (a c : ℕ) → a < length mem → ltb c (length mem) ≡ false → Sums a c
  Sums-outside a c h e =
      let nothing = none_behind a c (λ i b go. rw e refl) in ground (arith, nothing, e, h)

  Sums-apart : (a c : ℕ) → prefix (t.label a) (t.label c) ≡ false → Sums a c
  Sums-apart a c e =
      let nothing = none_behind a c (λ i b go. apart b c (λ rest f.
        let way = through a (get_or (table_at mem a).node i initnode).key b c rest go f in
        let front : prefix (t.label a) (t.label c) ≡ true =
          rw way (prefix_from (t.label a) ((get_or (table_at mem a).node i initnode).key ∷ rest)) in
        ground (arith, front, e))) in
      let other : (a == c) ≡ false = elim (Bool-cases (a == c)) [
        | inl f ↦
            let label_eq : t.label c ≡ t.label a ++ [] =
              ap t.label (sym ((==_iff a c).0 f)) ∙ sym (append-nil (t.label a)) in
            let front : prefix (t.label a) (t.label c) ≡ true =
              rw label_eq (prefix_from (t.label a) []) in
            cc
        | inr f ↦ f
      ] in
      rw (nothing, other) (ground (arith, e))

  Sums-here : (a c : ℕ) → a < length mem → c < length mem → t.label c ≡ t.label a ++ [] → Sums a c
  Sums-here a c h k e =
      let nothing = none_behind a c (λ i b go. apart b c (λ rest f.
        let way = through a (get_or (table_at mem a).node i initnode).key b c rest go f in
        let bad =
          same_rest (t.label a) [] ((get_or (table_at mem a).node i initnode).key ∷ rest)
            (sym e ∙ way) in
        absurd (omega (arith, ap (length {A = ℕ}) bad)))) in
      let same : a ≡ c = label_same mem t a c h k (sym (append-nil (t.label a)) ∙ sym e) in
      let itself : (a == c) ≡ true = (==_iff a c).1 same in
      rw (nothing, itself) (sym (under a c [] k e))

  only_here :
      (a c r : ℕ) (rest : List ℕ)
      → t.label c ≡ t.label a ++ r ∷ rest
      → (i : ℕ) → tisnil (get_or (table_at mem a).node i initnode) ≡ false
      → behind_node (once_below c) (get_or (table_at mem a).node i initnode).value ≡ (
          if (get_or (table_at mem a).node i initnode).key == r
          then behind_node (once_below c) (get_or (table_at mem a).node i initnode).value
          else 0)
  only_here a c r rest e i taken =
      elim (Bool-cases ((get_or (table_at mem a).node i initnode).key == r)) [
        | inl f ↦ rw f refl
        | inr f ↦ elim (Option-cases (get_or (table_at mem a).node i initnode).value) [
          | inl g ↦ rw (g, f) refl
          | inr (b, g) ↦
              let elsewhere = apart b c (λ rest' l.
                let way =
                  through a (get_or (table_at mem a).node i initnode).key b c rest'
                    (child a i b taken g) l in
                let both =
                  same_rest (t.label a) (r ∷ rest)
                    ((get_or (table_at mem a).node i initnode).key ∷ rest') (sym e ∙ way) in
                let keys : (get_or (table_at mem a).node i initnode).key ≡ r = cc in
                ground (arith, keys, f)) in
              rw (g, f) elsewhere
        ]
      ]

  Sums-below :
      (a c r : ℕ) (rest : List ℕ)
      → a < length mem
      → c < length mem
      → t.label c ≡ t.label a ++ r ∷ rest
      → Sums a c
  Sums-below a c r rest h k e =
      let (b, leads, more) = leads_on mem t a c r rest h k e in
      let nodes = (table_at mem a).node in
      let only : total (sum_behind (once_below c)) nodes
          ≡ total (at_key r (λ flag value. behind_node (once_below c) value)) nodes =
        total_eq (sum_behind (once_below c))
          (at_key r (λ flag value. behind_node (once_below c) value)) nodes
          (only_here a c r rest e) in
      let there =
        total-view (table_at mem a) r (λ flag value. behind_node (once_below c) value) (t.maps a) in
      let one_there = number_next (once_below c) (view_in mem a r) b leads in
      let other : (a == c) ≡ false = elim (Bool-cases (a == c)) [
        | inl f ↦
            let bad : t.label a ++ [] ≡ t.label a ++ r ∷ rest =
              append-nil (t.label a) ∙ ap t.label ((==_iff a c).0 f) ∙ e in
            absurd (omega (arith, ap (length {A = ℕ}) (same_rest (t.label a) [] (r ∷ rest) bad)))
        | inr f ↦ f
      ] in
      rw other
        (omega (arith, only, there, one_there, under b c rest k more, under a c (r ∷ rest) k e))

  sums : (a c : ℕ) → a < length mem → Sums a c
  sums a c h = elim (Bool-cases (ltb c (length mem))) [
    | inr e ↦ Sums-outside a c h e
    | inl e ↦ elim (Bool-cases (prefix (t.label a) (t.label c))) [
      | inr f ↦ Sums-apart a c f
      | inl f ↦
          let (rest, way) = prefix_to (t.label a) (t.label c) f in
          by_rest a c h (ground (arith, e)) rest way
    ]
  ]
    where
      by_rest :
          (a c : ℕ)
          → a < length mem
          → c < length mem
          → (rest : List ℕ) → t.label c ≡ t.label a ++ rest
          → Sums a c
      by_rest a c h k [] way = Sums-here a c h k way
      by_rest a c h k (r ∷ rest) way = Sums-below a c r rest h k way

  close_once :
      (depth a : ℕ)
      → a < length mem
      → length mem ≤ a + depth
      → (freed : List ℕ) × (close_within depth mem a ≡ some freed)
        × ((c : ℕ) → occurs c freed ≡ once_below c a)
  unfolding close_within
  close_once zero a h k = absurd (omega (arith, h, k))
  close_once (suc depth) a h k =
      let (freed, run, counts) =
        close_nodes_lem (close_within depth mem) once_below (table_at mem a).node (λ i b e f.
          let (up, inside, path) =
            t.below a (get_or (table_at mem a).node i initnode).key b (child a i b e f) in
          close_once depth b inside (omega (arith, k, up))) in
      (
        freed ++ a ∷ [],
        rw (close_within, run) refl,
        λ c. occurs-append c freed (a ∷ []) ∙ omega (arith, occurs_last c a, counts c, sums a c h),
      )

-- The tree that `open` makes of a list of tables of numbers is released whole, within as many calls of `_dict_close`
-- in each other as there are tables, and none of its tables is freed twice.
pub dict_close-dict_open :
    (entries : List (Option (List (Option ℕ)))) (words : List (List ℕ))
    → words_of entries ≡ some words
    → (mem : Tables) × (freed : List ℕ) × (dict_open entries ≡ inserted mem)
      × (dict_close mem ≡ some freed)
      × ((a : ℕ) → occurs a freed ≡ (if ltb a (length mem) then 1 else 0))
unfolding dict_close
dict_close-dict_open entries words e =
    let (mem, run, t, all) = dict_open_words entries words e in
    let (freed, closed, counts) = close_once mem t (length mem) 0 t.nonempty (omega arith) in
    let front : (a : ℕ) → prefix (t.label 0) (t.label a) ≡ true =
      λ a. rw t.root (unfold prefix in refl) in
    (mem, freed, run, closed, λ a. counts a ∙ rw (front a) (ground arith))
