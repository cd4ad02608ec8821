-- ===== src/Crab/Newkey.antt =====
-- What `table_newkey` of src/lua-crab.c keeps: the invariant of a table, and the sums over its nodes that are
-- taken, of anything that does not depend on their links.
pub mod Free
pub mod Place
pub mod Behind
pub mod Move
pub mod Room
pub mod Reflag
pub mod Expand
pub mod Grow
use my_skynet.Prelude.{
  ℕ, zero, suc, ◌+◌, ◌-◌, ◌^◌, ◌≤◌, ◌<◌, ◌≡◌, ◌⊎◌, refl, sym, ap, ◌∙◌, arith, List, [], ◌∷◌, Bool,
  true, false, not, Option, none, some, ◌==◌, if◌then◌else◌, length, get_or, set, Bool-cases, inl,
  inr,
}
use my_skynet.Prelude.Bits.{bit_and_mask, pow-pos}
use mathlib.Core.Path.{subst}
use my_skynet.Crab.{
  TableNode, Table, initnode, tisnil, tnode, mainposition, table_new, non_terminator,
}
use my_skynet.Crab.Chain.{is_live, HasChains}
use my_skynet.Crab.Chain.Place.{table_new-HasChains}

-- a number for a key, a flag and a value
abbrev pub Weight : Type 0
Weight = ℕ → ℕ → Option ℕ → ℕ

unfoldable pub weight : Weight → TableNode → ℕ
weight w n = if tisnil n then 0 else w n.key n.flag n.value

unfoldable pub total : Weight → List TableNode → ℕ
total w [] = 0
total w (n ∷ nodes) = weight w n + total w nodes

-- the number of nodes that are taken
abbrev pub one : Weight
one key flag value = 1

pub total-set :
    (w : Weight) (nodes : List TableNode) (i : ℕ) (n : TableNode)
    → i < length nodes
    → total w (set nodes i n) + weight w (get_or nodes i initnode) ≡ total w nodes + weight w n
unfolding total
total-set w [] i n h = absurd (omega (arith, h))
total-set w (m ∷ nodes) zero n h = omega arith
total-set w (m ∷ nodes) (suc i) n h = omega (arith, total-set w nodes i n (omega (arith, h)))

-- A node that is free has no link and no value, and none is free from `lastfree` on.
pub record IsSound (t : Table) : Type 0 where
  pub chain : ℕ → List ℕ
  pub chains : HasChains t chain
  pub loose : (a : ℕ) → is_live t a ≡ false → ((tnode t a).next ≡ none) × ((tnode t a).value ≡ none)
  pub above : (a : ℕ) → t.lastfree ≤ a → a < length t.node → is_live t a ≡ true
  pub last_le : t.lastfree ≤ length t.node
  pub power : (k : ℕ) × (t.capacity ≡ 2 ^ k)

pub mainposition_lt : (t : Table) (key : ℕ) → IsSound t → mainposition t key < length t.node
unfolding mainposition
mainposition_lt t key v =
    let (k, e) = v.power in rw (v.chains.size, e, bit_and_mask k key) (omega (arith, pow-pos k))

-- A new key in a table: where it stands, and that all else is as before.
pub record IsPut (t t' : Table) (key i : ℕ) : Type 0 where
  pub sound : IsSound t'
  pub inside : i < length t'.node
  pub here :
      ((tnode t' i).key ≡ key) × ((tnode t' i).flag ≡ non_terminator) × ((tnode t' i).value ≡ none)
  pub totals : (w : Weight) → total w t'.node ≡ total w t.node + w key non_terminator none
  pub same_size : length t'.node ≡ length t.node

-- The nodes are as many, or twice as many where all were taken.
abbrev pub Doubles : Table → Table → Type 0
Doubles t t' =
    (length t'.node ≡ length t.node)
    ⊎ ((length t'.node ≡ length t.node + length t.node)
        × (total one t.node ≡ length t.node)
        × (total one t'.node ≡ total one t.node + 1))

-- The same, where the table may have grown.
pub record IsAdded (t t' : Table) (key i : ℕ) : Type 0 where
  pub sound : IsSound t'
  pub inside : i < length t'.node
  pub here :
      ((tnode t' i).key ≡ key) × ((tnode t' i).flag ≡ non_terminator) × ((tnode t' i).value ≡ none)
  pub totals : (w : Weight) → total w t'.node ≡ total w t.node + w key non_terminator none
  pub size : Doubles t t'

pub table_new-IsSound : IsSound table_new
unfolding is_live tnode tisnil
table_new-IsSound = record {
  chain = λ p. [];
  chains = table_new-HasChains;
  loose = loose;
  above = λ a h k. absurd (omega (arith, h, k));
  last_le = omega arith;
  power = (0, refl);
}
  where
    loose :
        (a : ℕ)
        → is_live table_new a ≡ false
        → ((tnode table_new a).next ≡ none) × ((tnode table_new a).value ≡ none)
    loose zero e = (refl, refl)
    loose (suc a) e = (refl, refl)
