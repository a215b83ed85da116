-- ===== src/Graph/Segpath.antt =====
-- `build_segpath` of sdnres-src/sr-ctrl/graph.c. Allocations succeed.
use thesis_data.Common.{
  ◌==◌, Bool, false, Option, none, some, List, [], ◌∷◌, ◌++◌, reverse, if◌then◌else◌, Outcome, ok,
  fault, null_pointer, ◌>>=◌,
}
use thesis_data.Graph.{Node, Edge, Graph, get_node_in}
use thesis_data.Graph.Copies.{clone}
use thesis_data.Graph.Segments.{Segment, node_segment, adj_segment, nodes_to_edges}
use thesis_data.Graph.Dijkstra.{Search, DOps, dijkstra}
use thesis_data.Graph.Minseg.{Finalized, finalize, insert_node_segment, minseg}

-- `struct pathspec`: `via` is empty for a null pointer, `prune` is a callback, and `init` is that
-- of `d_ops`, with what it makes of `data`.
pub record PathSpec (S : Type 0) : Type 0 where
  pub src : Node
  pub dst : Node
  pub via : List Node
  pub prune : Option (Graph → Graph)
  pub d_ops : DOps S
  pub init : Node → S

-- The last segment, `none` where there is none.
unfoldable pub last_segment : List Segment → Option Segment
last_segment [] = none
last_segment (s ∷ ss) = elim (last_segment ss) [ none ↦ some s | some t ↦ some t ]

-- The test on the last segment: an adjacency that ends at the node.
unfoldable pub breaks_into : Node → Option Segment → Bool
breaks_into tmp_node none = false
breaks_into tmp_node (some (node_segment n)) = false
breaks_into tmp_node (some (adj_segment e)) = e.remote.addr == tmp_node.addr

-- The waypoint segment, unless the last link has been broken out.
unfoldable pub add_waypoint : Node → List Segment → List Segment
add_waypoint tmp_node res =
    if breaks_into tmp_node (last_segment res) then res else insert_node_segment tmp_node res

-- The first of the paths to a node.
unfoldable pub path_to : {S : Type 0} → Finalized → Search S → Node → Outcome (Option (List Node))
path_to gc gres tmp_node = elim (get_node_in gc.nodes tmp_node.id) [
  | none ↦ fault null_pointer
  | some m ↦ elim (gres.path tmp_node.id) [ [] ↦ ok none | p ∷ ps ↦ ok (some p) ]
]

module _ {S : Type 0} (pspec : PathSpec S) (g gc : Finalized) where
  -- The loop over the waypoints and the destination: the segments, and the nodes of `fpath`.
  unfoldable pub segpath_from :
      Node → List Node → List Segment → List Node → Outcome (Option (List Segment × List Node))
  segpath_from cur_node [] res fpath = ok (some (res, fpath))
  segpath_from cur_node (tmp_node ∷ ns) res fpath =
      dijkstra pspec.d_ops gc.tables gc.nodes cur_node (pspec.init cur_node) >>= λ gres.
      path_to gc gres tmp_node >>= λ p. elim p [
        | none ↦ ok none
        | some tmp_path ↦
            let rev_path = cur_node ∷ reverse tmp_path in
            minseg g rev_path res >>= λ r. elim r [
              | none ↦ ok none
              | some res' ↦
                  segpath_from tmp_node ns (add_waypoint tmp_node res') (fpath ++ rev_path)
            ]
      ]

-- The graph that paths are looked for in.
unfoldable pub pruned : {S : Type 0} → PathSpec S → Graph → Finalized → Finalized
pruned pspec g f = elim pspec.prune [ none ↦ f | some prune ↦ finalize (prune (clone g)) ]

-- `build_segpath` of a graph and what has been computed from it; the results are the segments,
-- `none` for a null pointer, and `epath`, `none` for a null pointer.
unfoldable pub build_segpath :
    {S : Type 0}
    → PathSpec S
    → Graph
    → Finalized
    → Outcome (Option (List Segment × Option (List Edge)))
build_segpath pspec g f =
    segpath_from pspec f (pruned pspec g f) pspec.src (pspec.via ++ (pspec.dst ∷ [])) [] [] >>= λ r.
    elim r [
      | none ↦ ok none
      | some (res, fpath) ↦ ok (some (res, nodes_to_edges f.tables.min_edges fpath))
    ]
