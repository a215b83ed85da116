-- ===== src/Graph/Tables.antt =====
-- The tables of sdnres-src/sr-ctrl/graph.c: `graph_compute_minimal_edges` and
-- `graph_compute_all_neighbors`. A table is what a hash table holds, the keys and their values:
-- a set replaces the value of an equal key, or adds an entry.
use thesis_data.Common.{ℕ, Option, none, some, List, [], ◌∷◌, ◌==◌, if◌then◌else◌}
use thesis_data.HashMap.{KeyOps}
use thesis_data.HashMap.Keys.{NodePair, node_ops, nodepair_ops}
use thesis_data.Graph.{Node, Edge, Graph, get_minimal_edge, compute_neighbors}

abbrev pub Table : Type 0 → Type 0 → Type 0
Table K V = List (K × V)

module _ {K V : Type 0} (ops : KeyOps K) where
  -- `hmap_get`
  unfoldable pub lookup : K → Table K V → Option V
  lookup k [] = none
  lookup k ((l, v) ∷ t) = let rest = lookup k t in if ops.equal l k then some v else rest

  -- `hmap_set`
  unfoldable pub store : K → V → Table K V → Table K V
  store k v [] = (k, v) ∷ []
  store k v ((l, w) ∷ t) =
      let rest = store k v t in if ops.equal l k then (l, v) ∷ t else (l, w) ∷ rest

-- `(struct nodepair *)edge`, and the pair of two nodes
abbrev pub pair : Node → Node → NodePair
pair local remote = record { local_id = local.id; remote_id = remote.id }

-- What a turn of the inner loop of `graph_compute_minimal_edges` stores.
unfoldable pub store_minimal : Option Edge → Table NodePair Edge → Table NodePair Edge
store_minimal none t = t
store_minimal (some e) t = store nodepair_ops (pair e.local e.remote) e t

-- The inner loop of `graph_compute_minimal_edges`.
unfoldable pub minimal_row : Graph → Node → List Node → Table NodePair Edge → Table NodePair Edge
minimal_row g node1 [] t = t
minimal_row g node1 (node2 ∷ ns) t =
    minimal_row g node1 ns
      (if node1.addr == node2.addr then t else store_minimal (get_minimal_edge g node1 node2) t)

-- The outer loop.
unfoldable pub minimal_rows : Graph → List Node → Table NodePair Edge → Table NodePair Edge
minimal_rows g [] t = t
minimal_rows g (node1 ∷ ns) t = minimal_rows g ns (minimal_row g node1 g.nodes t)

-- `graph_compute_minimal_edges`
abbrev pub compute_minimal_edges : Graph → Table NodePair Edge
compute_minimal_edges g = minimal_rows g g.nodes []

-- The loop of `graph_compute_all_neighbors` that fills the table.
unfoldable pub neighbors_rows : Graph → List Node → Table ℕ (List Node) → Table ℕ (List Node)
neighbors_rows g [] t = t
neighbors_rows g (n ∷ ns) t = neighbors_rows g ns (store node_ops n.id (compute_neighbors g n) t)

-- `graph_compute_all_neighbors`
abbrev pub compute_all_neighbors : Graph → Table ℕ (List Node)
compute_all_neighbors g = neighbors_rows g g.nodes []
