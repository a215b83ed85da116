-- ===== src/Graph/Minseg.antt =====
-- `graph_minseg` of sdnres-src/sr-ctrl/graph.c, with the cache of shortest paths that it reads,
-- and `build_segpath`. The cache is what the hash table `dcache` holds. Allocations succeed where
-- their answer is no argument. A list that a table of shortest paths does not have is a null
-- pointer that is followed.
pub mod Pinned
pub mod Ways
pub mod Cached
pub mod Total
pub mod Tests
use thesis_data.Common.{
  ℕ, ◌≡◌, Bool, true, false, not, Option, none, some, List, [], ◌∷◌, ◌++◌, length, ltb, leb, ◌==◌,
  if◌then◌else◌, Outcome, ok, fault, null_pointer, ◌>>=◌, reverse,
}
use thesis_data.HashMap.Keys.{NodePair, node_ops, nodepair_ops}
use thesis_data.Graph.{Node, Edge, Graph, GraphOps, exist_node, get_node_in, new}
use thesis_data.Graph.Tables.{
  Table, lookup, store, pair, compute_minimal_edges, compute_all_neighbors,
}
use thesis_data.Graph.Segments.{Segment, node_segment, adj_segment, nodes_to_edges}
use thesis_data.Graph.Dijkstra.{Tables, Search, DOps, no_ops, dijkstra}

-- What `graph_dijkstra` without `ops` leaves behind.
abbrev pub Dres : Type 0
Dres = Search (Unit {0})

-- What a call of `graph_minseg` reads of the graph.
pub record Finalized : Type 0 where
  pub nodes : List Node
  pub tables : Tables
  pub dcache : Table ℕ Dres

-- `graph_finalize`
abbrev pub finalize : Graph → Finalized
finalize g = record {
  nodes = g.nodes;
  tables = record { neighs = compute_all_neighbors g; min_edges = compute_minimal_edges g };
  dcache = [];
}

-- `graph_dijkstra` without `ops`
abbrev pub from_node : Finalized → Node → Outcome Dres
from_node g n = dijkstra no_ops g.tables g.nodes n tt

-- `graph_build_cache_one`: the answer of `malloc` for the result, and whether it returns 0. The
-- allocations of `graph_dijkstra`, which does not look at their answers, succeed.
unfoldable pub build_cache_one : Bool → Finalized → Node → Outcome (Bool × Finalized)
build_cache_one false g node = ok (false, g)
build_cache_one true g node =
    from_node g node >>= λ res. ok (true, record g { dcache = store node_ops node.id res g.dcache })

-- The loop of `graph_build_cache`.
unfoldable pub build_cache_from : (Node → Bool) → List Node → Finalized → Outcome (Bool × Finalized)
build_cache_from granted [] g = ok (true, g)
build_cache_from granted (n ∷ ns) g = build_cache_one (granted n) g n >>= λ (done, g').
    if done then build_cache_from granted ns g' else ok (false, g')

-- `graph_build_cache`
abbrev pub build_cache : (Node → Bool) → Finalized → Outcome (Bool × Finalized)
build_cache granted g = build_cache_from granted g.nodes g

-- `graph_flush_cache`
abbrev pub flush_cache : Finalized → Finalized
flush_cache g = record g { dcache = [] }

-- `insert_node_segment`
abbrev pub insert_node_segment : Node → List Segment → List Segment
insert_node_segment node_i res = res ++ (node_segment node_i ∷ [])

-- `insert_adj_segment`; `none` is the result -1.
unfoldable pub insert_adj_segment : Finalized → Node → Node → List Segment → Option (List Segment)
insert_adj_segment g node_i node_ii res =
    elim (lookup nodepair_ops (pair node_i node_ii) g.tables.min_edges) [
      | none ↦ none
      | some edge ↦ some (res ++ (adj_segment edge ∷ []))
    ]

-- `copy_segments`, whose allocations succeed, by its loop.
unfoldable pub copy_segments : List Segment → List Segment → List Segment
copy_segments copied [] = copied
copy_segments copied (s ∷ ss) = copy_segments (copied ++ (s ∷ [])) ss

-- The shortest paths from a node, out of the cache or computed.
unfoldable pub result_of : Finalized → Node → Outcome Dres
result_of g n = elim (lookup node_ops n.id g.dcache) [ none ↦ from_node g n | some res ↦ ok res ]

-- `hmap_get` of `prev`, where the list is read.
unfoldable pub prev_of : Finalized → Dres → Node → Outcome (List Node)
prev_of g res n = elim (get_node_in g.nodes n.id) [
  | none ↦ fault null_pointer
  | some m ↦ ok (res.prev n.id)
]

-- The two segments of a link: the next `node_r`, and the segments.
unfoldable pub break_link : Finalized → Node → Node → List Segment → Option (Node × List Segment)
break_link g node_i node_ii res =
    elim (insert_adj_segment g node_i node_ii (insert_node_segment node_i res)) [
      | none ↦ none
      | some res' ↦ some (node_ii, res')
    ]

-- The tests of a turn of the loop, on the predecessors of `node_ii` as seen from `node_r` and from
-- `node_i`: the next `node_r`, and the segments.
unfoldable pub choose :
    Finalized
    → Node
    → Node
    → Node
    → List Node
    → List Node
    → List Segment
    → Option (Node × List Segment)
choose g node_r node_i node_ii prev_r prev_i res =
    if not (exist_node prev_r node_i)
    then (if length prev_i == 1
        then some (node_i, insert_node_segment node_i res)
        else break_link g node_i node_ii res)
    else if leb (length prev_r) 1
    then some (node_r, res)
    else if ltb 1 (length prev_i)
    then break_link g node_i node_ii res
    else some (node_i, insert_node_segment node_i res)

-- The loop of `graph_minseg`; the results are -1 as `none`, and the segments.
unfoldable pub minseg_from :
    Finalized → Node → List Node → List Segment → Outcome (Option (List Segment))
minseg_from g node_r [] res = ok (some res)
minseg_from g node_r (node_i ∷ []) res = ok (some res)
minseg_from g node_r (node_i ∷ node_ii ∷ ns) res = result_of g node_i >>= λ res_i.
    result_of g node_r >>= λ res_r. prev_of g res_r node_ii >>= λ prev_r.
    prev_of g res_i node_ii >>= λ prev_i. elim (choose g node_r node_i node_ii prev_r prev_i res) [
      | none ↦ ok none
      | some (node_r', res') ↦ minseg_from g node_r' (node_ii ∷ ns) res'
    ]

-- `graph_minseg`
unfoldable pub minseg : Finalized → List Node → List Segment → Outcome (Option (List Segment))
minseg g [] res = ok (some res)
minseg g (n ∷ ns) res = minseg_from g n (n ∷ ns) res
