-- ===== src/Graph/Adjacent.antt =====
-- What a look-up finds in the table that `graph_compute_all_neighbors` fills.
use thesis_data.Common.{
  ℕ, ◌≡◌, inl, inr, refl, ap, ◌∙◌, true, some, List, [], ◌∷◌, ◌++◌, ◌==◌, if◌then◌else◌, Bool-cases,
  ==→eq, ==_iff,
}
use thesis_data.HashMap.Keys.{node_ops, node_ops-IsKey}
use thesis_data.Graph.{Node, Edge, Graph, compute_neighbors, neighbors_from}
use thesis_data.Graph.Minimal.{Any}
use thesis_data.Graph.Tables.{Table, lookup, store, neighbors_rows, compute_all_neighbors}
use thesis_data.Graph.Lookups.{lookup-store}

neighbors_from_ids :
    (a c : Node) (es : List Edge) (neighs : List Node)
    → a.id ≡ c.id
    → neighbors_from a neighs es ≡ neighbors_from c neighs es
unfolding neighbors_from
neighbors_from_ids a c [] neighs p = refl
neighbors_from_ids a c (e ∷ es) neighs p =
    let same : (e.local.id == a.id) ≡ (e.local.id == c.id) = ap (λ i. e.local.id == i) p in
    rw
      (
        same,
        neighbors_from_ids a c es neighs p,
        neighbors_from_ids a c es (neighs ++ (e.remote ∷ [])) p,
      )
      refl

store-lookup :
    (g : Graph) (m n : Node) (t : Table ℕ (List Node))
    → lookup node_ops n.id (store node_ops m.id (compute_neighbors g m) t)
      ≡ (if m.id == n.id then some (compute_neighbors g n) else lookup node_ops n.id t)
store-lookup g m n t =
    lookup-store node_ops-IsKey m.id n.id (compute_neighbors g m) t
    ∙ elim (Bool-cases (m.id == n.id)) [
      | inl e ↦ rw e (ap some (neighbors_from_ids m n g.edges [] (==→eq m.id n.id e)))
      | inr e ↦ rw e refl
    ]

rows_keep :
    (g : Graph) (n : Node) (ns : List Node) (t : Table ℕ (List Node))
    → lookup node_ops n.id t ≡ some (compute_neighbors g n)
    → lookup node_ops n.id (neighbors_rows g ns t) ≡ some (compute_neighbors g n)
unfolding neighbors_rows
rows_keep g n [] t h = h
rows_keep g n (m ∷ ns) t h =
    rows_keep g n ns (store node_ops m.id (compute_neighbors g m) t) (
      store-lookup g m n t
      ∙ elim (Bool-cases (m.id == n.id)) [ inl e ↦ rw e refl | inr e ↦ rw e h ])

rows_find :
    (g : Graph) (n : Node) (ns : List Node) (t : Table ℕ (List Node))
    → Any (λ m. m ≡ n) ns
    → lookup node_ops n.id (neighbors_rows g ns t) ≡ some (compute_neighbors g n)
unfolding neighbors_rows
rows_find g n [] t m = absurd m
rows_find g n (x ∷ ns) t (inl m) =
    let equal : (x.id == n.id) ≡ true = (==_iff x.id n.id).1 (ap (λ (k : Node). k.id) m) in
    rows_keep g n ns (store node_ops x.id (compute_neighbors g x) t)
      (store-lookup g x n t ∙ rw equal refl)
rows_find g n (x ∷ ns) t (inr m) =
    rows_find g n ns (store node_ops x.id (compute_neighbors g x) t) m

-- In the table that `graph_compute_all_neighbors` fills, a look-up of a node of the graph gives
-- what `graph_compute_neighbors` returns for it.
pub compute_all_neighbors-lookup :
    (g : Graph) (n : Node)
    → Any (λ m. m ≡ n) g.nodes
    → lookup node_ops n.id (compute_all_neighbors g) ≡ some (compute_neighbors g n)
compute_all_neighbors-lookup g n m = rows_find g n g.nodes [] m
