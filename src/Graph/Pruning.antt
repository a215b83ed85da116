-- ===== src/Graph/Pruning.antt =====
-- `graph_prune`.
use thesis_data.Common.{
  ◌+◌, ◌^◌, ◌<◌, ◌≡◌, inl, inr, refl, ap, Bool, List, [], ◌∷◌, length, if◌then◌else◌, arith,
  Bool-cases,
}
use thesis_data.Graph.{Edge, Graph, prune, prune_from}

-- The edges that a test does not take out, in order.
abbrev pub spared : (Edge → Bool) → List Edge → List Edge
spared test [] = []
spared test (e ∷ es) = let rest = spared test es in if test e then rest else e ∷ rest

pub prune_from-spared :
    (test : Edge → Bool) (es : List Edge)
    → ((prune_from test es).0 ≡ spared test es)
      × ((prune_from test es).1 + length (spared test es) ≡ length es)
unfolding prune_from
prune_from-spared test [] = (refl, omega arith)
prune_from-spared test (e ∷ es) =
    let (kept, count) = prune_from-spared test es in
    elim (Bool-cases (test e)) [
      | inl h ↦ (rw (prune_from, h) kept, rw (prune_from, h) (omega (arith, count)))
      | inr h ↦
          (rw (prune_from, h) (ap (λ r. e ∷ r) kept), rw (prune_from, h) (omega (arith, count)))
    ]

-- On a graph of fewer than 2 ^ 32 edges `graph_prune` keeps the nodes, and of the edges, in order,
-- exactly those that the test does not take out; what it returns is the number of the others.
pub prune-spared :
    (g : Graph) (test : Edge → Bool)
    → length g.edges < 2 ^ 32
    → ((prune g test).1.nodes ≡ g.nodes)
      × ((prune g test).1.edges ≡ spared test g.edges)
      × ((prune g test).0 + length (spared test g.edges) ≡ length g.edges)
unfolding prune
prune-spared g test few =
    let (kept, count) = prune_from-spared test g.edges in (refl, kept, omega (arith, count, few))
