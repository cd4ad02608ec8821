-- ===== src/Crab/Close/Nodes.antt =====
-- The loop of `_dict_close` in src/lua-crab.c over the nodes of a table, and what is counted over them.
use my_skynet.Prelude.{
  ℕ, suc, ◌≡◌, refl, arith, List, [], ◌∷◌, ◌++◌, false, Option, none, some, ◌==◌, if◌then◌else◌,
  get_or, Bool-cases, Option-cases, inl, inr,
}
use my_skynet.Crab.{TableNode, initnode, tisnil}
use my_skynet.Crab.Close.{close_nodes}
use my_skynet.Crab.Chain.{occurs}
use my_skynet.Crab.Chain.Splice.{occurs-append}
use my_skynet.Crab.Newkey.{Weight, weight, total}
use my_skynet.Crab.View.{View, number}
use my_skynet.Crab.Tree.{next}

-- what there is behind a node
abbrev pub behind_node : (ℕ → ℕ) → Option ℕ → ℕ
behind_node f none = 0
behind_node f (some b) = f b

abbrev pub sum_behind : (ℕ → ℕ) → Weight
sum_behind f = λ key flag value. behind_node f value

-- Each table to which a node of the list leads is closed, and what that frees is counted.
pub close_nodes_lem :
    (close : ℕ → Option (List ℕ)) (count : ℕ → ℕ → ℕ) (nodes : List TableNode)
    → ((i b : ℕ)
        → tisnil (get_or nodes i initnode) ≡ false
        → (get_or nodes i initnode).value ≡ some b
        → (freed : List ℕ) × (close b ≡ some freed) × ((c : ℕ) → occurs c freed ≡ count c b))
    → (freed : List ℕ) × (close_nodes close nodes ≡ some freed)
      × ((c : ℕ) → occurs c freed ≡ total (sum_behind (count c)) nodes)
unfolding close_nodes total weight
close_nodes_lem close count [] h = ([], refl, λ c. unfold occurs in refl)
close_nodes_lem close count (n ∷ nodes) h =
    let (others, run, counts) = close_nodes_lem close count nodes (λ i. h (suc i)) in
    elim (Bool-cases (tisnil n)) [
      | inl e ↦ (others, rw (close_nodes, e) run, λ c. rw e (omega (arith, counts c)))
      | inr e ↦ elim (Option-cases n.value) [
        | inl f ↦ (others, rw (close_nodes, e, f) run, λ c. rw (e, f) (omega (arith, counts c)))
        | inr (b, f) ↦
            let (freed, go, gone) = h 0 b e f in
            (
              freed ++ others,
              rw (close_nodes, e, f, go, run) refl,
              λ c. rw (e, f) (omega (arith, occurs-append c freed others, gone c, counts c)),
            )
      ]
    ]

pub total_zero :
    (w : Weight) (nodes : List TableNode)
    → ((i : ℕ)
        → tisnil (get_or nodes i initnode) ≡ false
        → w
            (get_or nodes i initnode).key
            (get_or nodes i initnode).flag
            (get_or nodes i initnode).value
          ≡ 0)
    → total w nodes ≡ 0
unfolding total weight
total_zero w [] h = refl
total_zero w (n ∷ nodes) h = ground (arith, h 0, total_zero w nodes (λ i. h (suc i)))

pub total_eq :
    (w w' : Weight) (nodes : List TableNode)
    → ((i : ℕ)
        → tisnil (get_or nodes i initnode) ≡ false
        → w
            (get_or nodes i initnode).key
            (get_or nodes i initnode).flag
            (get_or nodes i initnode).value
          ≡ w'
              (get_or nodes i initnode).key
              (get_or nodes i initnode).flag
              (get_or nodes i initnode).value)
    → total w nodes ≡ total w' nodes
unfolding total weight
total_eq w w' [] h = refl
total_eq w w' (n ∷ nodes) h = ground (arith, h 0, total_eq w w' nodes (λ i. h (suc i)))

pub occurs_last : (c a : ℕ) → occurs c (a ∷ []) ≡ (if a == c then 1 else 0)
unfolding occurs
occurs_last c a = omega arith

pub number_next :
    (f : ℕ → ℕ) (v : View) (b : ℕ)
    → next v ≡ some b
    → number (λ flag value. behind_node f value) v ≡ f b
number_next f none b e = cc
number_next f (some (flag, value)) b e = rw e refl
