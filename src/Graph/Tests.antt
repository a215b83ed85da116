-- ===== src/Graph/Tests.antt =====
-- The theorems of the graph at three nodes and three edges.
use thesis_data.Common.{◌≡◌, ◌⊎◌, inl, inr, refl, true, false, none, some, [], ◌∷◌, ◌==◌}
use thesis_data.Graph.{
  Node, Edge, Graph, ops_default, max_metric, new, add_node, add_edge, add_one_edge, remove_item,
  remove_node, get_minimal_edge, minimal_from, compute_neighbors, exist_node, prune, prune_from,
  get_node_in, get_edge_in,
}
use thesis_data.Graph.Minimal.{All, IsMinimal, NoneBelow, get_minimal_edge-cases}
use thesis_data.Graph.Neighbors.{Distinct, Reached, Leads, compute_neighbors-Reached}
use thesis_data.Graph.Samples.{node_a, node_b, edge_back, edge_out, edge_short, sample}
use mathlib.Core.Logic.{◌↔◌}
use thesis_data.Common.{List, map, Returns}
use thesis_data.Graph.Segments.{
  Segment, node_segment, adj_segment, compare_segments, label, compare_segments-label,
  nodes_to_edges, Links, Gap, nodes_to_edges-Links,
}
use thesis_data.HashMap.Keys.{node_ops, nodepair_ops, nodepair_equal}
use thesis_data.Graph.Tables.{
  lookup, store, minimal_row, minimal_rows, store_minimal, pair, compute_minimal_edges,
  compute_all_neighbors,
}
use thesis_data.Graph.Lookups.{compute_minimal_edges-lookup}
use thesis_data.Graph.Adjacent.{compute_all_neighbors-lookup}
use thesis_data.Graph.Changes.{survivors, remove_node-survivors}

built :
    (add_edge
      (add_edge
        (add_node (add_node new (some 100) 0).1 (some 101) 0).1
        (some 200)
        (some 201)
        node_a
        node_b
        5
        true
        0).1
      none
      (some 202)
      node_a
      node_b
      3
      false
      0).1
    ≡ sample
unfolding add_node add_edge add_one_edge
built = refl

pruned : (prune sample (λ e. e.id == 2)).0 ≡ 1
unfolding prune prune_from
pruned = refl

found : get_node_in sample.nodes 2 ≡ some node_b
unfolding get_node_in
found = refl

found_edge : get_edge_in sample.edges 3 ≡ some edge_short
unfolding get_edge_in
found_edge = refl

shortest : get_minimal_edge sample node_a node_b ≡ some edge_short
unfolding minimal_from
shortest = refl

get_minimal_edge-cases_example :
    ((get_minimal_edge sample node_a node_b ≡ none)
      × NoneBelow node_a node_b max_metric sample.edges)
    ⊎ ((e : Edge) × (get_minimal_edge sample node_a node_b ≡ some e)
        × IsMinimal node_a node_b max_metric sample.edges e)
get_minimal_edge-cases_example = get_minimal_edge-cases sample node_a node_b

compute_neighbors-Reached_example :
    Distinct (compute_neighbors sample node_a)
    × All (Reached sample.edges node_a) (compute_neighbors sample node_a)
    × All
        (λ e. Leads node_a e → exist_node (compute_neighbors sample node_a) e.remote ≡ true)
        sample.edges
compute_neighbors-Reached_example = compute_neighbors-Reached sample node_a

remove_node-survivors_example :
    remove_node ops_default sample node_b
    ≡ elim (remove_item (λ n. n.addr) 101 sample.nodes) as (λ _. Graph) [
      | none ↦ sample
      | some ns ↦ record sample {
        nodes = ns;
        edges = survivors ops_default node_b sample.edges;
        dirty = true;
      }
    ]
remove_node-survivors_example =
    remove_node-survivors ops_default sample node_b ((refl, (refl, tt)), ((refl, tt), (tt, tt)))

compute_minimal_edges-lookup_example :
    lookup nodepair_ops (pair node_a node_b) (compute_minimal_edges sample)
    ≡ get_minimal_edge sample node_a node_b
compute_minimal_edges-lookup_example =
    compute_minimal_edges-lookup sample node_a node_b (inl refl) (inr (inl refl)) refl

compute_all_neighbors-lookup_example :
    lookup node_ops 1 (compute_all_neighbors sample) ≡ some (compute_neighbors sample node_a)
compute_all_neighbors-lookup_example = compute_all_neighbors-lookup sample node_a (inl refl)

abbrev two_segments : List Segment
two_segments = node_segment node_a ∷ adj_segment edge_out ∷ []

compare_segments-label_example :
    Returns
      (compare_segments two_segments two_segments)
      λ b. (b ≡ true) ↔ (map label two_segments ≡ map label two_segments)
compare_segments-label_example = compare_segments-label two_segments two_segments

path_edges :
    nodes_to_edges (compute_minimal_edges sample) (node_a ∷ node_b ∷ node_a ∷ [])
    ≡ some (edge_short ∷ edge_back ∷ [])
unfolding nodes_to_edges lookup store minimal_row minimal_rows store_minimal minimal_from
    nodepair_equal
path_edges = refl

abbrev there_and_back : List Node
there_and_back = node_a ∷ node_b ∷ node_a ∷ []

nodes_to_edges-Links_example :
    ((es : List Edge) × (nodes_to_edges (compute_minimal_edges sample) there_and_back ≡ some es)
      × Links there_and_back es)
    ⊎ ((nodes_to_edges (compute_minimal_edges sample) there_and_back ≡ none)
        × Gap (compute_minimal_edges sample) there_and_back)
nodes_to_edges-Links_example = nodes_to_edges-Links sample there_and_back
