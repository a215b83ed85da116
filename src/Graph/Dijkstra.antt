-- ===== src/Graph/Dijkstra.antt =====
-- `graph_dijkstra` of sdnres-src/sr-ctrl/graph.c, with `__compute_paths`. The hash tables `dist`,
-- `prev` and `path` have the ids of nodes as their keys: each is a function of the id, which is 0
-- or empty where the table has no entry, as a null pointer is 0. A run of `__compute_paths` whose
-- chain of predecessors is longer than its fuel is a fault, as is a null pointer that is followed.
pub mod Queue
pub mod Inv
pub mod Relax
pub mod Depths
pub mod Turns
pub mod Visit
pub mod Correct
pub mod Plain
pub mod Total
pub mod Tidy
pub mod Shortest
pub mod Chains
pub mod Paths
pub mod Tests
use thesis_data.Common.{
  ℕ, zero, suc, ◌+◌, ◌%◌, ◌^◌, ◌≡◌, Bool, true, false, Option, none, some, List, [], ◌∷◌, ◌++◌,
  length, ltb, ◌==◌, if◌then◌else◌, Outcome, ok, fault, assertion, null_pointer, out_of_fuel, ◌>>=◌,
}
use thesis_data.HashMap.Keys.{NodePair, node_ops, nodepair_ops}
use thesis_data.Graph.{Node, Edge, Graph, max_metric, exist_node}
use thesis_data.Graph.Tables.{Table, lookup, pair}

-- The two tables of the graph that the search reads.
pub record Tables : Type 0 where
  pub neighs : Table ℕ (List Node)
  pub min_edges : Table NodePair Edge

-- `struct d_ops` with the state that `init` yields; `none` is a null pointer, and the state is
-- handed from call to call.
pub record DOps (S : Type 0) : Type 0 where
  pub cost : Option (ℕ → Edge → S → ℕ)
  pub update : Option (Edge → S → S)

-- The arguments of a call without `ops`.
abbrev pub no_ops : DOps (Unit {0})
no_ops = record { cost = none; update = none }

-- The tables and the queue of a search, and the state of its `ops`.
pub record Search (S : Type 0) : Type 0 where
  pub dist : ℕ → ℕ
  pub prev : ℕ → List Node
  pub path : ℕ → List (List Node)
  pub queue : List Node
  pub state : S

-- `hmap_set`
abbrev pub put {ℓ} : {V : Type ℓ} → ℕ → V → (ℕ → V) → ℕ → V
put k v f i = if k == i then v else f i

-- The results of the turns of a loop, one behind the other.
unfoldable pub each : (Node → Outcome (List (List Node))) → List Node → Outcome (List (List Node))
each f [] = ok []
each f (p ∷ ps) = f p >>= λ a. each f ps >>= λ b. ok (a ++ b)

-- `__compute_paths`: what it adds to `res`.
unfoldable pub paths_from : ℕ → (ℕ → List Node) → List Node → Node → Outcome (List (List Node))
paths_from zero prev tmp u = fault out_of_fuel
paths_from (suc fuel) prev tmp u = elim (prev u.id) [
  | [] ↦ ok (tmp ∷ [])
  | p ∷ ps ↦ each (paths_from fuel prev (tmp ++ (u ∷ []))) (p ∷ ps)
]

-- `llist_node_remove` of the cell of a node.
unfoldable pub drop_node : List Node → ℕ → List Node
drop_node [] p = []
drop_node (n ∷ ns) p = let rest = drop_node ns p in if n.addr == p then ns else n ∷ rest

-- The loop that looks for the node of the least cost, from `u` and `tmpcost` on.
unfoldable pub select_from : (ℕ → ℕ) → Option Node → ℕ → List Node → Option Node
select_from dist u tmpcost [] = u
select_from dist u tmpcost (v ∷ vs) =
    let better = select_from dist (some v) (dist v.id) vs in
    let rest = select_from dist u tmpcost vs in if ltb (dist v.id) tmpcost then better else rest

abbrev pub select : (ℕ → ℕ) → List Node → Option Node
select dist queue = select_from dist none max_metric queue

module _ {S : Type 0} (ops : DOps S) where
  -- `alt`
  unfoldable pub new_cost : Search S → Node → Edge → ℕ
  new_cost s u e = elim ops.cost [
    | none ↦ (s.dist u.id + e.metric) % 2 ^ 32
    | some cost ↦ cost (s.dist u.id) e s.state
  ]

  unfoldable pub updated : Edge → S → S
  updated e state = elim ops.update [ none ↦ state | some update ↦ update e state ]

  -- The two branches on `alt`.
  unfoldable pub improve : Search S → Node → Node → Edge → ℕ → Search S
  improve s u v e alt =
      if ltb alt (s.dist v.id)
      then record s {
        prev = put v.id (u ∷ []) s.prev;
        dist = put v.id alt s.dist;
        state = updated e s.state;
      }
      else if alt == s.dist v.id
      then record s { prev = put v.id (s.prev v.id ++ (u ∷ [])) s.prev }
      else s

  -- A turn of the loop over the neighbours of `u`.
  unfoldable pub relax_one : Tables → Node → Search S → Node → Outcome (Search S)
  relax_one t u s v =
      if exist_node s.queue v
      then (elim (lookup nodepair_ops (pair u v) t.min_edges) [
        | none ↦ fault assertion
        | some e ↦ ok (improve s u v e (new_cost s u e))
      ])
      else ok s

  -- The loop over the neighbours of `u`.
  unfoldable pub relax : Tables → Node → List Node → Search S → Outcome (Search S)
  relax t u [] s = ok s
  relax t u (v ∷ vs) s = relax_one t u s v >>= λ s'. relax t u vs s'

  -- The rest of a turn of the main loop, for the node that it has found.
  unfoldable pub visit : Tables → ℕ → Node → Search S → Outcome (Search S)
  visit t size u s = paths_from (suc size) s.prev [] u >>= λ paths.
      elim (lookup node_ops u.id t.neighs) [
        | none ↦ fault null_pointer
        | some ns ↦
            relax t u ns
              (record s { path = put u.id paths s.path; queue = drop_node s.queue u.addr })
      ]

  -- The main loop: it ends where the queue is empty, or no node of it has been reached. Each turn
  -- takes a node from the queue, so the fuel is the number of nodes and one.
  unfoldable pub search_from : Tables → ℕ → ℕ → Search S → Outcome (Search S)
  search_from t size zero s = fault out_of_fuel
  search_from t size (suc fuel) s = elim (select s.dist s.queue) [
    | none ↦ ok s
    | some u ↦ visit t size u s >>= λ s'. search_from t size fuel s'
  ]

-- The loop that fills the tables.
unfoldable pub initial_dist : Node → List Node → ℕ → ℕ
initial_dist src [] = λ i. 0
initial_dist src (n ∷ ns) =
    put n.id (if n.id == src.id then 0 else max_metric) (initial_dist src ns)

unfoldable pub initial : {S : Type 0} → List Node → Node → S → Search S
initial nodes src state = record {
  dist = initial_dist src nodes;
  prev = λ i. [];
  path = λ i. [];
  queue = nodes;
  state = state;
}

-- `graph_dijkstra`
unfoldable pub dijkstra : {S : Type 0} → DOps S → Tables → List Node → Node → S → Outcome (Search S)
dijkstra ops t nodes src state =
    search_from ops t (length nodes) (suc (length nodes)) (initial nodes src state)
