-- ===== src/Crab/Tree/Insert.antt =====
-- `_dict_insert` and `dict_open` of src/lua-crab.c: the words of the list are in the tree, and no others.
use my_skynet.Prelude.{
  ℕ, ◌<◌, ◌≡◌, refl, sym, ap, ◌∙◌, arith, List, [], ◌∷◌, ◌++◌, append_assoc, append-nil, ◌||◌,
  Option, none, some, length, length-set, set, Option-cases, inl, inr,
}
use mathlib.Core.Path.{subst}
use my_skynet.Crab.{Table, tnode, table_insert}
use my_skynet.Crab.Words.{
  Tables, to_rune, table_at, next_table, mark_end, Inserted, inserted, refused, insert_from,
}
use my_skynet.Crab.View.Insert.{IsAt, table_insert_lem}
use my_skynet.Crab.Tree.{next, view_in, spot, has_word, IsTree, spot_snoc}
use my_skynet.Crab.Tree.Quiet.{IsQuiet, IsQuiet-refl, has_word-IsQuiet, spot_keeps}
use my_skynet.Crab.Tree.Mark.{same}
use my_skynet.Crab.Tree.Grow.{keyed-IsTree, keyed-IsQuiet, keyed-IsAt}
use my_skynet.Crab.Tree.Node.{view_node, longer, led_next, led-IsQuiet, led-IsTree, mark_end-words}

-- the code points of a word, where all its entries are numbers
unfoldable pub runes : List (Option ℕ) → Option (List ℕ)
runes [] = some []
runes (none ∷ word) = none
runes (some c ∷ word) = elim (runes word) [ none ↦ none | some w ↦ some (to_rune c ∷ w) ]

-- What `next_table` gives, at a node.
record Led (mem mem' : Tables) (a r b : ℕ) : Type 0 where
  tree : IsTree mem'
  quiet : IsQuiet mem mem'
  inside : b < length mem'
  leads : next (view_in mem' a r) ≡ some b

next_table_lem :
    (mem : Tables) (a i r : ℕ) (t : IsTree mem) (h : a < length mem) (p : IsAt (table_at mem a) i r)
    → (mem' : Tables) × (b : ℕ) × (next_table mem (some (a, i)) ≡ (mem', b)) × Led mem mem' a r b
unfolding next_table
next_table_lem mem a i r t h p = elim (Option-cases (tnode (table_at mem a) i).value) [
  | inr (b, e) ↦
      let leads : next (view_in mem a r) ≡ some b = ap next (view_node mem a i r t h p) ∙ e in
      (
        mem,
        b,
        rw (next_table, e) refl,
        record {
          tree = t;
          quiet = IsQuiet-refl mem;
          inside = (t.below a r b leads).1;
          leads = leads;
        },
      )
  | inl e ↦ (
    longer mem a i r t h p e,
    length mem,
    rw (next_table, e) refl,
    record {
      tree = led-IsTree mem a i r t h p e;
      quiet = led-IsQuiet mem a i r t h p e;
      inside =
          ((led-IsTree mem a i r t h p e).below a r (length mem) (led_next mem a i r t h p e)).1;
      leads = led_next mem a i r t h p e;
    },
  )
]

-- A word is put in, behind what of it is in already.
unfoldable pub Puts : Tables → Inserted → Option (List ℕ) → List ℕ → Type 0
Puts mem result none begun = result ≡ refused
Puts mem result (some word) begun =
    (mem' : Tables) × (result ≡ inserted mem')
    × IsTree mem'
    × ((q0 : ℕ) (q : List ℕ)
        → has_word mem' 0 q0 q ≡ (has_word mem 0 q0 q || same (q0 ∷ q) (begun ++ word)))

-- One letter more, after which the rest is put in.
one_more :
    (mem mem' : Tables) (result : Inserted) (word : Option (List ℕ)) (begun : List ℕ) (c : ℕ)
    → ((q0 : ℕ) (w : List ℕ) → has_word mem' 0 q0 w ≡ has_word mem 0 q0 w)
    → Puts mem' result word (begun ++ c ∷ [])
    → Puts mem result (elim word [ none ↦ none | some w ↦ some (c ∷ w) ]) begun
unfolding Puts
one_more mem mem' result none begun c q h = h
one_more mem mem' result (some word) begun c q (mem'', run, t, words) =
    (mem'', run, t, λ q0 w. words q0 w ∙ rw (q q0 w, append_assoc begun (c ∷ []) word) refl)

insert_from_step :
    (mem mem' : Tables) (from : Option (ℕ × ℕ)) (b c j : ℕ) (x : Table) (word : List (Option ℕ))
    → next_table mem from ≡ (mem', b)
    → table_insert (table_at mem' b) (to_rune c) ≡ some (x, j)
    → insert_from mem from (some c ∷ word) ≡ insert_from (set mem' b x) (some (b, j)) word
unfolding insert_from
insert_from_step mem mem' from b c j x word e f = rw (insert_from, e, f, e) refl

-- The loop, behind a node.
insert_from_lem :
    (word : List (Option ℕ)) (mem : Tables) (a i r p0 : ℕ) (begun : List ℕ)
    → IsTree mem
    → a < length mem
    → IsAt (table_at mem a) i r
    → spot mem 0 p0 begun ≡ some (a, r)
    → Puts mem (insert_from mem (some (a, i)) word) (runes word) (p0 ∷ begun)
unfolding Puts insert_from runes
insert_from_lem [] mem a i r p0 begun t h p e =
    let (tree, words) = mark_end-words mem a i r t h p p0 begun e in
    (
      mark_end mem (some (a, i)),
      refl,
      tree,
      λ q0 q.
          words q0 q
          ∙ ap (λ x. has_word mem 0 q0 q || same (q0 ∷ q) (p0 ∷ x)) (sym (append-nil begun)),
    )
insert_from_lem (none ∷ word) mem a i r p0 begun t h p e = refl
insert_from_lem (some c ∷ word) mem a i r p0 begun t h p e =
    let (mem1, b, led, l) = next_table_lem mem a i r t h p in
    let (x, j, run, k) = table_insert_lem (table_at mem1 b) (to_rune c) (l.tree.maps b) in
    let quiet = keyed-IsQuiet mem1 b (to_rune c) j x l.tree l.inside k in
    let first = spot_keeps mem mem1 (l.quiet.keeps) 0 p0 begun (a, r) e in
    let place = spot_snoc mem1 0 p0 begun a r b (to_rune c) first l.leads in
    let mem2 : Tables = set mem1 b x in
    let rest =
      insert_from_lem word mem2 b j (to_rune c) p0 (begun ++ to_rune c ∷ [])
        (keyed-IsTree mem1 b (to_rune c) j x l.tree l.inside k)
        (omega (arith, l.inside, length-set mem1 b x))
        (keyed-IsAt mem1 b (to_rune c) j x l.tree l.inside k)
        (spot_keeps mem1 mem2 quiet.keeps 0 p0 (begun ++ to_rune c ∷ []) (b, to_rune c) place) in
    one_more mem mem2 (insert_from mem (some (a, i)) (some c ∷ word)) (runes word) (p0 ∷ begun)
      (to_rune c)
      (λ q0 w. has_word-IsQuiet mem1 mem2 quiet 0 q0 w ∙ has_word-IsQuiet mem mem1 l.quiet 0 q0 w)
      (subst (λ y. Puts mem2 y (runes word) (p0 ∷ begun ++ to_rune c ∷ []))
        (sym (insert_from_step mem mem1 (some (a, i)) b c j x word led run)) rest)

-- The loop, from the dictionary on.
pub insert_from_start :
    (word : List (Option ℕ)) (mem : Tables)
    → IsTree mem
    → Puts mem (insert_from mem none word) (runes word) []
unfolding Puts insert_from runes mark_end
insert_from_start [] mem t = (mem, refl, t, λ q0 q. unfold same in ground arith)
insert_from_start (none ∷ word) mem t = refl
insert_from_start (some c ∷ word) mem t =
    let (x, j, run, k) = table_insert_lem (table_at mem 0) (to_rune c) (t.maps 0) in
    let quiet = keyed-IsQuiet mem 0 (to_rune c) j x t t.nonempty k in
    let mem2 : Tables = set mem 0 x in
    let rest =
      insert_from_lem word mem2 0 j (to_rune c) (to_rune c) []
        (keyed-IsTree mem 0 (to_rune c) j x t t.nonempty k)
        (omega (arith, t.nonempty, length-set mem 0 x))
        (keyed-IsAt mem 0 (to_rune c) j x t t.nonempty k) (unfold spot in refl) in
    one_more mem mem2 (insert_from mem none (some c ∷ word)) (runes word) [] (to_rune c)
      (λ q0 w. has_word-IsQuiet mem mem2 quiet 0 q0 w)
      (subst (λ y. Puts mem2 y (runes word) (to_rune c ∷ []))
        (sym (insert_from_step mem mem none 0 c j x word (unfold next_table in refl) run)) rest)
