-- ===== src/Graph/Copies.antt =====
-- `graph_clone` and `graph_deepcopy` of sdnres-src/sr-ctrl/graph.c. The addresses of the copies
-- are arguments, as are the functions of `struct graph_ops` that copy data.
pub mod Copied
use thesis_data.Common.{
  ℕ, ◌≡◌, ◌⊎◌, inl, inr, refl, ap, ap₂, sym, ◌∙◌, Bool, true, false, Option, none, some, List, [],
  ◌∷◌, ◌++◌, map, ◌==◌, if◌then◌else◌, arith, Bool-cases, ==→eq, ==_iff, Outcome, ok, fault,
  null_pointer, ◌>>=◌, Returns,
}
use thesis_data.Graph.{Node, Edge, Graph, get_node_in, new}
use thesis_data.Graph.Minimal.{All, Any, All-map}

-- `graph_clone`
abbrev pub clone : Graph → Graph
clone g = record new { nodes = g.nodes; edges = g.edges }

-- What a copy needs of its surroundings.
pub record Copying : Type 0 where
  pub node_addr : Node → ℕ
  pub edge_addr : Edge → ℕ
  pub node_data_copy : ℕ → ℕ
  pub edge_data_copy : ℕ → ℕ

-- A turn of the first loop of `graph_deepcopy`.
abbrev pub copy_node : Copying → Node → Node
copy_node ops node = record {
  addr = ops.node_addr node;
  id = node.id;
  payload = ops.node_data_copy node.payload;
}

-- The first loop.
unfoldable pub copy_nodes : Copying → List Node → List Node → List Node
copy_nodes ops copied [] = copied
copy_nodes ops copied (n ∷ ns) = copy_nodes ops (copied ++ (copy_node ops n ∷ [])) ns

-- `graph_get_node`; the null pointer that it returns for an id that the graph does not have is a
-- fault here, as the code stores it and follows it later.
unfoldable pub get_node : List Node → ℕ → Outcome Node
get_node nodes id = elim (get_node_in nodes id) [ none ↦ fault null_pointer | some n ↦ ok n ]

-- A turn of the second loop.
unfoldable pub copy_edge : Copying → List Node → Edge → Outcome Edge
copy_edge ops nodes edge = get_node nodes edge.local.id >>= λ local.
    get_node nodes edge.remote.id >>= λ remote. ok (record {
      addr = ops.edge_addr edge;
      id = edge.id;
      local = local;
      remote = remote;
      metric = edge.metric;
      payload = ops.edge_data_copy edge.payload;
    })

-- The second loop.
unfoldable pub copy_edges : Copying → List Node → List Edge → List Edge → Outcome (List Edge)
copy_edges ops nodes copied [] = ok copied
copy_edges ops nodes copied (e ∷ es) =
    copy_edge ops nodes e >>= λ e2. copy_edges ops nodes (copied ++ (e2 ∷ [])) es

-- `graph_deepcopy`
unfoldable pub deepcopy : Copying → Graph → Outcome Graph
deepcopy ops g =
    let nodes : List Node = copy_nodes ops [] g.nodes in
    copy_edges ops nodes [] g.edges >>= λ edges.
    ok (record new {
      nodes = nodes;
      edges = edges;
      last_node = g.last_node;
      last_edge = g.last_edge;
    })

-- `copy_edgepath` of a list, by its loop.
unfoldable pub copy_edgepath : List Edge → List Edge → List Edge
copy_edgepath copied [] = copied
copy_edgepath copied (e ∷ es) = copy_edgepath (copied ++ (e ∷ [])) es
