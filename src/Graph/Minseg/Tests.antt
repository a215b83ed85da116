-- ===== src/Graph/Minseg/Tests.antt =====
-- `graph_minseg`, `build_segpath` and `graph_deepcopy` on small graphs.
use thesis_data.Common.{
  ◌≡◌, inl, inr, refl, true, false, ◌+◌, ◌==◌, some, none, Option, ok, List, [], ◌∷◌, map, Returns,
}
use thesis_data.HashMap.Keys.{nodepair_equal}
use thesis_data.Graph.{
  Node, Edge, Graph, exist_node, get_node_in, minimal_from, neighbors_from, prune, prune_from,
}
use thesis_data.Graph.Samples.{node_a, node_b, edge_short, sample}
use thesis_data.Graph.Tables.{
  lookup, store, minimal_row, minimal_rows, store_minimal, neighbors_rows,
}
use thesis_data.Graph.Segments.{Segment, node_segment, nodes_to_edges}
use thesis_data.Graph.Dijkstra.{
  no_ops, each, paths_from, drop_node, select_from, new_cost, updated, improve, relax_one, relax,
  visit, search_from, initial_dist, initial, dijkstra,
}
use thesis_data.Graph.Dijkstra.Tests.{sample-IsTidy}
use thesis_data.Graph.Minseg.{
  finalize, insert_adj_segment, result_of, prev_of, break_link, choose, minseg_from, minseg,
  build_cache,
}
use thesis_data.Graph.Minseg.Pinned.{preds, Shortest, Pins}
use thesis_data.Graph.Minseg.Ways.{OnlyWay}
use thesis_data.Graph.Minseg.Cached.{build_cache-minseg, minseg-Pinned}
use thesis_data.Graph.Copies.{Copying, copy_node, deepcopy}
use thesis_data.Graph.Copies.Copied.{Copied, deepcopy-Copied}
use thesis_data.Graph.Segpath.{
  PathSpec, last_segment, breaks_into, add_waypoint, path_to, segpath_from, pruned, build_segpath,
}

abbrev there : List Node
there = node_a ∷ node_b ∷ []

there-Shortest : Shortest (finalize sample) there
unfolding preds exist_node minimal_from neighbors_from lookup store minimal_row minimal_rows
    store_minimal neighbors_rows nodepair_equal each paths_from drop_node select_from new_cost
    updated improve relax_one relax visit search_from initial_dist initial dijkstra
there-Shortest = (refl, tt)

minseg-Pinned_example :
    Returns
      (minseg (finalize sample) there [])
      (Pins (finalize sample) (OnlyWay sample) node_a there [])
minseg-Pinned_example =
    minseg-Pinned sample 5 node_a (node_b ∷ []) [] sample-IsTidy (inl refl, (inr (inl refl), tt))
      there-Shortest

build_cache-minseg_example : Returns (build_cache (λ n. true) (finalize sample)) λ (b, g').
    (path : List Node) (res : List Segment) → minseg g' path res ≡ minseg (finalize sample) path res
build_cache-minseg_example = build_cache-minseg sample 5 (λ n. true) sample-IsTidy

abbrev copying : Copying
copying = record {
  node_addr = λ n. 300 + n.id;
  edge_addr = λ e. 400 + e.id;
  node_data_copy = λ p. p;
  edge_data_copy = λ p. p;
}

deepcopy-Copied_example : Returns (deepcopy copying sample) λ g2.
    (g2.nodes ≡ map (copy_node copying) sample.nodes)
    × Copied copying g2.nodes sample.edges g2.edges
    × (g2.last_node ≡ sample.last_node)
    × (g2.last_edge ≡ sample.last_edge)
deepcopy-Copied_example =
    deepcopy-Copied copying sample
      ((inr (inl refl), inl refl), ((inl refl, inr (inl refl)), ((inl refl, inr (inl refl)), tt)))

abbrev node_c : Node
node_c = record { addr = 102; id = 3; payload = 0 }

abbrev edge_direct : Edge
edge_direct = record {
  addr = 210;
  id = 1;
  local = node_a;
  remote = node_c;
  metric = 9;
  payload = 0;
}

abbrev edge_first : Edge
edge_first = record { addr = 211; id = 2; local = node_a; remote = node_b; metric = 1; payload = 0 }

abbrev edge_second : Edge
edge_second = record {
  addr = 212;
  id = 3;
  local = node_b;
  remote = node_c;
  metric = 1;
  payload = 0;
}

abbrev detour : Graph
detour = record {
  nodes = node_a ∷ node_b ∷ node_c ∷ [];
  edges = edge_direct ∷ edge_first ∷ edge_second ∷ [];
  last_node = 3;
  last_edge = 3;
  dirty = false;
}

-- The link is not on a shortest path, but no adjacency stands for it.
missed_link :
    minseg (finalize detour) (node_a ∷ node_c ∷ []) [] ≡ ok (some (node_segment node_a ∷ []))
unfolding minseg minseg_from result_of prev_of choose break_link insert_adj_segment get_node_in
    exist_node minimal_from neighbors_from lookup store minimal_row minimal_rows store_minimal
    neighbors_rows nodepair_equal each paths_from drop_node select_from new_cost updated improve
    relax_one relax visit search_from initial_dist initial dijkstra
missed_link = refl

abbrev request : List Node → Option (Graph → Graph) → PathSpec (Unit {0})
request via prune = record {
  src = node_a;
  dst = node_c;
  via = via;
  prune = prune;
  d_ops = no_ops;
  init = λ n. tt;
}

plain_path :
    build_segpath (request [] none) detour (finalize detour)
    ≡ ok (some (node_segment node_c ∷ [], some (edge_first ∷ edge_second ∷ [])))
unfolding build_segpath segpath_from pruned path_to add_waypoint breaks_into last_segment
    nodes_to_edges minseg minseg_from result_of prev_of choose break_link insert_adj_segment
    get_node_in exist_node minimal_from neighbors_from lookup store minimal_row minimal_rows
    store_minimal neighbors_rows nodepair_equal each paths_from drop_node select_from new_cost
    updated improve relax_one relax visit search_from initial_dist initial dijkstra
plain_path = refl

-- With a waypoint on the path, there is no list of edges.
waypoint_path :
    build_segpath (request (node_b ∷ []) none) detour (finalize detour)
    ≡ ok (some (node_segment node_b ∷ node_segment node_c ∷ [], none))
unfolding build_segpath segpath_from pruned path_to add_waypoint breaks_into last_segment
    nodes_to_edges minseg minseg_from result_of prev_of choose break_link insert_adj_segment
    get_node_in exist_node minimal_from neighbors_from lookup store minimal_row minimal_rows
    store_minimal neighbors_rows nodepair_equal each paths_from drop_node select_from new_cost
    updated improve relax_one relax visit search_from initial_dist initial dijkstra
waypoint_path = refl

-- Without the first edge of the detour, the path is the direct edge, but the segments are those
-- of the detour.
pruned_path :
    build_segpath (request [] (some λ g. (prune g (λ e. e.id == 2)).1)) detour (finalize detour)
    ≡ ok (some (node_segment node_a ∷ node_segment node_c ∷ [], some (edge_direct ∷ [])))
unfolding prune prune_from build_segpath segpath_from pruned path_to add_waypoint breaks_into
    last_segment nodes_to_edges minseg minseg_from result_of prev_of choose break_link
    insert_adj_segment get_node_in exist_node minimal_from neighbors_from lookup store minimal_row
    minimal_rows store_minimal neighbors_rows nodepair_equal each paths_from drop_node select_from
    new_cost updated improve relax_one relax visit search_from initial_dist initial dijkstra
pruned_path = refl

-- Without the shorter of two edges, the path takes the other, but the list has the one that was
-- taken out.
parallel_path :
    build_segpath
      (record {
        src = node_a;
        dst = node_b;
        via = [];
        prune = some λ g. (prune g (λ e. e.id == 3)).1;
        d_ops = no_ops;
        init = λ n. tt;
      })
      sample
      (finalize sample)
    ≡ ok (some (node_segment node_b ∷ [], some (edge_short ∷ [])))
unfolding prune prune_from build_segpath segpath_from pruned path_to add_waypoint breaks_into
    last_segment nodes_to_edges minseg minseg_from result_of prev_of choose break_link
    insert_adj_segment get_node_in exist_node minimal_from neighbors_from lookup store minimal_row
    minimal_rows store_minimal neighbors_rows nodepair_equal each paths_from drop_node select_from
    new_cost updated improve relax_one relax visit search_from initial_dist initial dijkstra
parallel_path = refl
