-- ===== src/Graph.antt =====
-- sdnres-src/sr-ctrl/graph.c and graph.h: the nodes and edges of a graph, and what is computed
-- from them alone. A pointer to a node or to an edge is its address; the fields that do not change
-- stand beside it. The tables of what is computed are in Tables and Minseg; the counts of
-- references are not part of the model. Allocations succeed where an address is given.
pub mod Minimal
pub mod Neighbors
pub mod Changes
pub mod Tables
pub mod Lookups
pub mod Adjacent
pub mod Segments
pub mod Dijkstra
pub mod Minseg
pub mod Pruning
pub mod Copies
pub mod Segpath
pub mod Samples
pub mod Tests
use thesis_data.Common.{
  ℕ, zero, suc, ◌+◌, ◌%◌, ◌^◌, ◌-◌, ◌≡◌, Bool, true, false, ◌||◌, ◌&&◌, Option, none, some, List,
  [], ◌∷◌, ◌++◌, ltb, ◌==◌, if◌then◌else◌,
}

-- `struct node`; `payload` is the pointer `data`.
pub record Node : Type 0 where
  pub addr : ℕ
  pub id : ℕ
  pub payload : ℕ

-- `struct edge`
pub record Edge : Type 0 where
  pub addr : ℕ
  pub id : ℕ
  pub local : Node
  pub remote : Node
  pub metric : ℕ
  pub payload : ℕ

-- `struct graph`
pub record Graph : Type 0 where
  pub nodes : List Node
  pub edges : List Edge
  pub last_node : ℕ
  pub last_edge : ℕ
  pub dirty : Bool

-- The comparisons of `struct graph_ops`.
pub record GraphOps : Type 0 where
  pub node_equals : Node → Node → Bool
  pub node_data_equals : ℕ → ℕ → Bool
  pub edge_data_equals : ℕ → ℕ → Bool

-- `g_ops_default`
abbrev pub ops_default : GraphOps
ops_default = record {
  node_equals = λ a b. a.id == b.id;
  node_data_equals = ◌==◌;
  edge_data_equals = ◌==◌;
}

-- `UINT32_MAX`
abbrev pub max_metric : ℕ
max_metric = 2 ^ 32 - 1

abbrev pub inc_uint : ℕ → ℕ
inc_uint n = (n + 1) % 2 ^ 32

-- The nodes and edges of `graph_new`.
abbrev pub new : Graph
new = record { nodes = []; edges = []; last_node = 0; last_edge = 0; dirty = false }

-- `graph_add_node`, where `malloc` answers with an address.
unfoldable pub add_node : Graph → Option ℕ → ℕ → Option Node × Graph
add_node g none payload = (none, g)
add_node g (some addr) payload =
    let node : Node = record { addr = addr; id = inc_uint g.last_node; payload = payload } in
    (
      some node,
      record g { nodes = g.nodes ++ (node ∷ []); last_node = inc_uint g.last_node; dirty = true },
    )

-- `graph_add_edge` with `sym` false.
unfoldable pub add_one_edge : Graph → Option ℕ → Node → Node → ℕ → ℕ → Option Edge × Graph
add_one_edge g none local remote metric payload = (none, g)
add_one_edge g (some addr) local remote metric payload =
    let edge : Edge = record {
      addr = addr;
      id = inc_uint g.last_edge;
      local = local;
      remote = remote;
      metric = metric;
      payload = payload;
    } in
    (
      some edge,
      record g { edges = g.edges ++ (edge ∷ []); last_edge = inc_uint g.last_edge; dirty = true },
    )

-- `graph_add_edge`: the answers of `malloc` for the edge back and for the edge itself.
unfoldable pub add_edge :
    Graph → Option ℕ → Option ℕ → Node → Node → ℕ → Bool → ℕ → Option Edge × Graph
add_edge g back_addr addr local remote metric sym payload =
    if sym
    then add_one_edge (add_one_edge g back_addr remote local metric payload).1 addr local remote
        metric payload
    else add_one_edge g addr local remote metric payload

-- `llist_node_remove` of the first item that holds the pointer; `none` where there is none.
unfoldable pub remove_item {ℓ} : {A : Type ℓ} → (A → ℕ) → ℕ → List A → Option (List A)
remove_item addr p [] = none
remove_item addr p (x ∷ xs) =
    let rest = remove_item addr p xs in
    if addr x == p then some xs else elim rest [ none ↦ none | some ys ↦ some (x ∷ ys) ]

-- `graph_remove_edge`
unfoldable pub remove_edge : Graph → Edge → Graph
remove_edge g edge = elim (remove_item (λ e. e.addr) edge.addr g.edges) [
  | none ↦ g
  | some es ↦ record g { edges = es; dirty = true }
]

-- The test of the loop of `graph_remove_node`.
abbrev pub touches : GraphOps → Node → Edge → Bool
touches ops node e = ops.node_equals e.local node || ops.node_equals e.remote node

-- The loop of `graph_remove_node`, over the edges there were.
unfoldable pub remove_edges : GraphOps → Node → List Edge → Graph → Graph
remove_edges ops node [] g = g
remove_edges ops node (e ∷ es) g =
    remove_edges ops node es (if touches ops node e then remove_edge g e else g)

-- `graph_remove_node`
unfoldable pub remove_node : GraphOps → Graph → Node → Graph
remove_node ops g node = elim (remove_item (λ n. n.addr) node.addr g.nodes) [
  | none ↦ g
  | some ns ↦ record (remove_edges ops node g.edges g) { nodes = ns; dirty = true }
]

-- `graph_get_node_noref`
unfoldable pub get_node_in : List Node → ℕ → Option Node
get_node_in [] id = none
get_node_in (n ∷ ns) id = let rest = get_node_in ns id in if n.id == id then some n else rest

-- `graph_get_edge_noref`
unfoldable pub get_edge_in : List Edge → ℕ → Option Edge
get_edge_in [] id = none
get_edge_in (e ∷ es) id = let rest = get_edge_in es id in if e.id == id then some e else rest

-- The test of `graph_get_minimal_edge`.
abbrev pub joins : Node → Node → Edge → Bool
joins local remote e = e.local.id == local.id && e.remote.id == remote.id

-- The loop of `graph_get_minimal_edge`, from `res` and `metric` on.
unfoldable pub minimal_from : Node → Node → Option Edge → ℕ → List Edge → Option Edge
minimal_from local remote res metric [] = res
minimal_from local remote res metric (e ∷ es) =
    let rest = minimal_from local remote res metric es in
    let better = minimal_from local remote (some e) e.metric es in
    if joins local remote e then (if ltb e.metric metric then better else rest) else rest

-- `graph_get_minimal_edge`
abbrev pub get_minimal_edge : Graph → Node → Node → Option Edge
get_minimal_edge g local remote = minimal_from local remote none max_metric g.edges

-- `llist_node_exist`
unfoldable pub exist_node : List Node → Node → Bool
exist_node [] n = false
exist_node (m ∷ ns) n = m.addr == n.addr || exist_node ns n

-- The loop of `graph_compute_neighbors`, from the neighbours so far on.
unfoldable pub neighbors_from : Node → List Node → List Edge → List Node
neighbors_from node neighs [] = neighs
neighbors_from node neighs (e ∷ es) =
    let skip = neighbors_from node neighs es in
    let more = neighbors_from node (neighs ++ (e.remote ∷ [])) es in
    if e.local.id == node.id
    then (if e.metric == max_metric
        then skip
        else if exist_node neighs e.remote
        then skip
        else more)
    else skip

-- `graph_compute_neighbors`
abbrev pub compute_neighbors : Graph → Node → List Node
compute_neighbors g node = neighbors_from node [] g.edges

-- The loop of `graph_prune`: the edges that stay, and the number of the others.
unfoldable pub prune_from : (Edge → Bool) → List Edge → List Edge × ℕ
prune_from prune [] = ([], 0)
prune_from prune (e ∷ es) =
    let rest = prune_from prune es in if prune e then (rest.0, suc rest.1) else (e ∷ rest.0, rest.1)

-- `graph_prune`
unfoldable pub prune : Graph → (Edge → Bool) → ℕ × Graph
prune g test = let r = prune_from test g.edges in (r.1 % 2 ^ 32, record g { edges = r.0 })
