-- ===== src/Graph/Dijkstra/Tidy.antt =====
-- Graphs on which `graph_dijkstra` without `ops` finds shortest paths.
use native.Mathlib.Nat.{mul-le-mul_right}
use thesis_data.Common.{
  ℕ, ◌*◌, ◌≤◌, ◌<◌, ◌≡◌, ◌⊎◌, inl, inr, refl, true, some, List, [], ◌∷◌, length, ◌==◌, arith,
  Bool-cases, ==→eq,
}
use thesis_data.HashMap.Keys.{nodepair_ops}
use thesis_data.Graph.{Node, Edge, Graph, exist_node, max_metric, compute_neighbors}
use thesis_data.Graph.Minimal.{All, All-both, Any, IsMinimal, get_minimal_edge-cases}
use thesis_data.Graph.Neighbors.{Distinct}
use thesis_data.Graph.Tables.{lookup, pair, compute_minimal_edges}
use thesis_data.Graph.Lookups.{rows-Settles}
use thesis_data.Graph.Adjacent.{compute_all_neighbors-lookup}
use thesis_data.Graph.Dijkstra.Queue.{DistinctIds, Known}
use thesis_data.Graph.Dijkstra.Inv.{Ready}
use thesis_data.Graph.Dijkstra.Plain.{IsPlain, tables, at, names, ends, joined}

-- A graph whose nodes have distinct ids and addresses and are the ends of its edges, and whose
-- metrics are UINT32_MAX, or so small that the sum along a path of all nodes is below it.
pub record IsTidy (g : Graph) (top : ℕ) : Type 0 where
  pub ids : DistinctIds g.nodes
  pub addrs : Distinct g.nodes
  pub ends : All (λ e. Known g.nodes e.local × Known g.nodes e.remote) g.edges
  pub metrics : All (λ e. (e.metric ≡ max_metric) ⊎ (e.metric ≤ top)) g.edges
  pub small : length g.nodes * top < max_metric

Known-length : (ns : List Node) (n : Node) → Known ns n → 1 ≤ length ns
Known-length [] n h = absurd h
Known-length (m ∷ ns) n h = omega arith

pub exist-found :
    (ns : List Node) (n : Node)
    → exist_node ns n ≡ true
    → (y : Node) × Known ns y × (y.addr ≡ n.addr)
unfolding exist_node
exist-found [] n h = absurd cc
exist-found (m ∷ ns) n h = elim (Bool-cases (m.addr == n.addr)) [
  | inl e ↦ (m, inl refl, ==→eq m.addr n.addr e)
  | inr e ↦ let (y, k, p) = exist-found ns n (ground (arith, h, e)) in (y, inr k, p)
]

-- An edge that the table has is a minimal one.
pub listed-IsMinimal :
    (g : Graph) (u v : Node) (e : Edge)
    → lookup nodepair_ops (pair u v) (compute_minimal_edges g) ≡ some e
    → IsMinimal u v max_metric g.edges e
unfolding lookup
listed-IsMinimal g u v e h = elim (rows-Settles g g.nodes [] u v) [
  | inl p ↦ absurd cc
  | inr p ↦ elim (get_minimal_edge-cases g u v) [
    | inl (q, b) ↦ absurd cc
    | inr (x, q, m) ↦ let same : e ≡ x = cc in rw same m
  ]
]

module _ (g : Graph) (top : ℕ) (tidy : IsTidy g top) where
  bounded : (n : Node) → Known g.nodes n → top < max_metric
  bounded n k =
      let one_more : 1 * top ≤ length g.nodes * top =
        mul-le-mul_right top (Known-length g.nodes n k) in
      omega (arith, one_more, tidy.small)

  pub tidy-IsPlain : IsPlain g
  tidy-IsPlain = record {
    ids = tidy.ids;
    addrs = tidy.addrs;
    ends = tidy.ends;
    metrics =
        All-both g.edges
          (λ e (l, r) m. elim m [
            | inl p ↦ omega (arith, p)
            | inr p ↦ omega (arith, p, bounded e.local l)
          ])
          tidy.ends tidy.metrics;
  }

  -- Metrics that are not UINT32_MAX are at most `top`.
  metric-le : (e : Edge) → Any (λ x. x ≡ e) g.edges → e.metric < max_metric → e.metric ≤ top
  metric-le e m h = elim (at _ g.edges e tidy.metrics m) [
    | inl p ↦ absurd (omega (arith, p, h))
    | inr p ↦ p
  ]

  pub ready : Ready g.nodes (tables g) top
  ready = record {
    names = names g tidy-IsPlain;
    listed = λ u k. (compute_neighbors g u, compute_all_neighbors-lookup g u k);
    closed = λ {u} {v} {e} k a. ends g tidy-IsPlain u v a.ns k a.listed a.member;
    ends = ends g tidy-IsPlain;
    joined = λ u v ns k h m ne.
        let (e, p, minimal) = joined g tidy-IsPlain u v ns k h m ne in
        (e, p, metric-le e minimal.member minimal.below);
    small = tidy.small;
  }
