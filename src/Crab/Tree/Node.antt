-- ===== src/Crab/Tree/Node.antt =====
-- The writes of `_dict_insert` in src/lua-crab.c to a node: the new table behind it, and the mark on it.
use my_skynet.Prelude.{
  ℕ, zero, suc, ◌+◌, ◌≤◌, ◌<◌, ◌≡◌, refl, sym, ap, ◌∙◌, arith, List, [], ◌∷◌, ◌++◌, true, false,
  ◌&&◌, ◌||◌, Option, none, some, ◌==◌, ==_iff, if◌then◌else◌, length, length-append, length-set,
  get_or, set, Bool-cases, inl, inr,
}
use mathlib.Core.Path.{subst}
use my_skynet.Crab.{Table, TableNode, tisnil, tnode, terminator, table_new}
use my_skynet.Crab.Chain.{is_live}
use my_skynet.Crab.Words.{Tables, table_at, mark_end}
use my_skynet.Crab.View.Insert.{IsAt, view_at, written, written-IsMap, view-written, view-table_new}
use my_skynet.Crab.Tree.{is_end, next, view_in, spot, has_word, IsTree}
use my_skynet.Crab.Tree.Quiet.{IsQuiet}
use my_skynet.Crab.Tree.Mark.{both, same, marked_next, marked_words}
use my_skynet.Crab.Tree.Grow.{
  Rewritten, rewritten, at_key_of, Rewritten-IsMap, kept-IsTree, set_tables,
}

get_or_snoc : {B : Type 0} (xs : List B) (i : ℕ) (d : B) → get_or (xs ++ d ∷ []) i d ≡ get_or xs i d
get_or_snoc [] zero d = refl
get_or_snoc [] (suc i) d = refl
get_or_snoc (x ∷ xs) zero d = refl
get_or_snoc (x ∷ xs) (suc i) d = get_or_snoc xs i d

table_past : (mem : Tables) (a : ℕ) → length mem ≤ a → table_at mem a ≡ table_new
unfolding table_at
table_past [] a h = refl
table_past (t ∷ mem) zero h = absurd (omega (arith, h))
table_past (t ∷ mem) (suc a) h = table_past mem a (omega (arith, h))

-- What is at a node of a table of the memory.
module _ (mem : Tables) (a i r : ℕ) (t : IsTree mem) (h : a < length mem)
    (p : IsAt (table_at mem a) i r) where
  abbrev pub node : TableNode
  node = tnode (table_at mem a) i

  pub view_node : view_in mem a r ≡ some (node.flag, node.value)
  view_node = view_at (table_at mem a) i r (t.maps a) p

  pub used : (node.flag == 0) ≡ false
  unfolding is_live tisnil
  used = ground (arith, p.live)

  -- a new table behind it
  module _ (e : node.value ≡ none) where
    abbrev pub led : Table
    led = written (table_at mem a) i r node.flag (some (length mem)) (t.maps a) p used

    abbrev pub longer : Tables
    longer = set mem a led ++ table_new ∷ []

    longer_tables : (b : ℕ) → table_at longer b ≡ (if a == b then led else table_at mem b)
    unfolding table_at
    longer_tables b = get_or_snoc (set mem a led) b table_new ∙ set_tables mem a led h b

    led-Rewritten : Rewritten mem longer a r led (some (node.flag, some (length mem)))
    led-Rewritten =
        rewritten mem longer a r led (some (node.flag, some (length mem))) longer_tables
          (view-written (table_at mem a) i r node.flag (some (length mem)) (t.maps a) p used)

    size : length longer ≡ length mem + 1
    size = omega (arith, length-append (set mem a led) (table_new ∷ []), length-set mem a led)

    new_empty : (s : ℕ) → view_in longer (length mem) s ≡ none
    new_empty s =
        let apart : (a == length mem) ≡ false = ground (arith, h) in
        let new : table_at longer (length mem) ≡ table_new =
          longer_tables (length mem) ∙ rw apart (table_past mem (length mem) (omega arith)) in
        rw new (view-table_new s)

    before : next (view_in mem a r) ≡ none
    before = ap next view_node ∙ e

    pub led_next : next (view_in longer a r) ≡ some (length mem)
    led_next = ap next (at_key_of led-Rewritten)

    led_next_at :
        (b s : ℕ) → (b == a && s == r) ≡ true → next (view_in longer b s) ≡ some (length mem)
    led_next_at b s f = rw (led-Rewritten.views b s, f) refl

    other_next :
        (b s : ℕ) → (b == a && s == r) ≡ false → next (view_in longer b s) ≡ next (view_in mem b s)
    other_next b s f = rw (led-Rewritten.views b s, f) refl

    led_end : (b s : ℕ) → is_end (view_in longer b s) ≡ is_end (view_in mem b s)
    led_end b s = elim (Bool-cases (b == a && s == r)) [
      | inl f ↦ let (g, k) = both b a s r f in rw (led-Rewritten.views b s, f, g, k, view_node) refl
      | inr f ↦ rw (led-Rewritten.views b s, f) refl
    ]

    pub led-IsQuiet : IsQuiet mem longer
    led-IsQuiet = record { ends = led_end; keeps = keeps; grows = grows }
      where
        keeps : (b s c : ℕ) → next (view_in mem b s) ≡ some c → next (view_in longer b s) ≡ some c
        keeps b s c g = elim (Bool-cases (b == a && s == r)) [
          | inl f ↦
              let (j, k) = both b a s r f in
              let bad : ◌≡◌ {A = Option ℕ} none (some c) = sym before ∙ rw (← j, ← k) g in cc
          | inr f ↦ other_next b s f ∙ g
        ]

        grows :
            (b s c : ℕ)
            → next (view_in mem b s) ≡ none
            → next (view_in longer b s) ≡ some c
            → (d : ℕ) → view_in longer c d ≡ none
        grows b s c g k d = elim (Bool-cases (b == a && s == r)) [
          | inl f ↦
              let to : ◌≡◌ {A = Option ℕ} (some (length mem)) (some c) =
                sym (led_next_at b s f) ∙ k in
              let new : length mem ≡ c = cc in
              subst (λ c. view_in longer c d ≡ none) new (new_empty d)
          | inr f ↦
              let bad : ◌≡◌ {A = Option ℕ} none (some c) = sym g ∙ sym (other_next b s f) ∙ k in cc
        ]

    abbrev led_label : ℕ → List ℕ
    led_label b = if b == length mem then t.label a ++ r ∷ [] else t.label b

    old_label : (b : ℕ) → b < length mem → led_label b ≡ t.label b
    old_label b g = let apart : (b == length mem) ≡ false = ground (arith, g) in rw apart refl

    new_label : led_label (length mem) ≡ t.label a ++ r ∷ []
    new_label = rw ((==_iff (length mem) (length mem)).1 refl) refl

    pub led-IsTree : IsTree longer
    led-IsTree = record {
      label = led_label;
      nonempty = omega (arith, size);
      root = old_label 0 t.nonempty ∙ t.root;
      maps =
          Rewritten-IsMap mem longer a r led (some (node.flag, some (length mem))) t
            (written-IsMap (table_at mem a) i r node.flag (some (length mem)) (t.maps a) p used)
            led-Rewritten;
      below = below;
      above = above;
    }
      where
        below :
            (b s c : ℕ)
            → next (view_in longer b s) ≡ some c
            → (b < c) × (c < length longer) × (led_label c ≡ led_label b ++ s ∷ [])
        below b s c g = elim (Bool-cases (b == a && s == r)) [
          | inl f ↦
              let (j, l) = both b a s r f in
              let to : ◌≡◌ {A = Option ℕ} (some (length mem)) (some c) =
                sym (led_next_at b s f) ∙ g in
              let new : c ≡ length mem = cc in
              (
                omega (arith, h, j, new),
                omega (arith, size, new),
                ap led_label new ∙ new_label ∙ rw (j, l, old_label a h) refl,
              )
          | inr f ↦
              let (j, l, path) = t.below b s c (sym (other_next b s f) ∙ g) in
              (
                j,
                omega (arith, size, l),
                rw (old_label b (omega (arith, j, l)), old_label c l) path,
              )
        ]

        above :
            (b : ℕ)
            → 0 < b
            → b < length longer
            → (c : ℕ) × (s : ℕ) × (next (view_in longer c s) ≡ some b)
        above b g k = elim (Bool-cases (b == length mem)) [
          | inl f ↦ (a, r, led_next ∙ ap some (sym ((==_iff b (length mem)).0 f)))
          | inr f ↦
              let (c, s, e) = t.above b g (ground (arith, k, size, f)) in
              (c, s, led-IsQuiet.keeps c s b e)
        ]

-- the mark on it
module _ (mem : Tables) (a i r : ℕ) (t : IsTree mem) (h : a < length mem)
    (p : IsAt (table_at mem a) i r) where
  abbrev marked : Tables
  marked =
      set mem a
        (written (table_at mem a) i r terminator (node mem a i r t h p).value (t.maps a) p refl)

  marked-Rewritten :
      Rewritten mem marked a r
        (written (table_at mem a) i r terminator (node mem a i r t h p).value (t.maps a) p refl)
        (some (terminator, (node mem a i r t h p).value))
  marked-Rewritten =
      rewritten mem marked a r _ (some (terminator, (node mem a i r t h p).value))
        (set_tables mem a _ h)
        (view-written (table_at mem a) i r terminator (node mem a i r t h p).value (t.maps a) p
          refl)

  marked-IsTree : IsTree marked
  marked-IsTree =
      kept-IsTree mem marked t (length-set mem a _)
        (Rewritten-IsMap mem marked a r _ (some (terminator, (node mem a i r t h p).value)) t
          (written-IsMap (table_at mem a) i r terminator (node mem a i r t h p).value (t.maps a) p
            refl)
          marked-Rewritten)
        (marked_next mem marked a r (node mem a i r t h p).flag (node mem a i r t h p).value t
          (view_node mem a i r t h p) marked-Rewritten.views)

  -- The mark puts in the word that leads to the node, and no other.
  pub mark_end-words :
      (p0 : ℕ) (word : List ℕ)
      → spot mem 0 p0 word ≡ some (a, r)
      → IsTree (mark_end mem (some (a, i)))
        × ((q0 : ℕ) (q : List ℕ)
            → has_word (mark_end mem (some (a, i))) 0 q0 q
              ≡ (has_word mem 0 q0 q || same (q0 ∷ q) (p0 ∷ word)))
  unfolding mark_end
  mark_end-words p0 word e = (
    marked-IsTree,
    marked_words mem marked a r (node mem a i r t h p).flag (node mem a i r t h p).value t
        (view_node mem a i r t h p) marked-Rewritten.views p0 word e,
  )
