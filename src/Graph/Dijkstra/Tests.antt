-- ===== src/Graph/Dijkstra/Tests.antt =====
-- `graph_dijkstra` on a graph of two nodes and three edges.
use thesis_data.Common.{ℕ, ◌*◌, ◌≤◌, ◌≡◌, ◌⊎◌, inl, inr, refl, arith, Returns}
use thesis_data.Graph.{Node, max_metric, exist_node}
use thesis_data.Common.{◌<◌}
use thesis_data.Graph.Dijkstra.Queue.{Known}
use thesis_data.Graph.Dijkstra.Paths.{Complete, dijkstra-Complete}
use thesis_data.Graph.Samples.{node_a, sample}
use thesis_data.Graph.Dijkstra.{no_ops, dijkstra}
use thesis_data.Graph.Dijkstra.Plain.{tables}
use thesis_data.Graph.Dijkstra.Tidy.{IsTidy}
use thesis_data.Graph.Dijkstra.Shortest.{Shortest, dijkstra-Shortest, dijkstra-cost_le}

pub sample-IsTidy : IsTidy sample 5
unfolding exist_node
sample-IsTidy = record {
  ids = (refl, (refl, tt));
  addrs = (refl, (refl, tt));
  ends =
      ((inr (inl refl), inl refl), ((inl refl, inr (inl refl)), ((inl refl, inr (inl refl)), tt)));
  metrics = (inr (omega arith), (inr (omega arith), (inr (omega arith), tt)));
  small = omega arith;
}

dijkstra-Shortest_example :
    Returns (dijkstra no_ops (tables sample) sample.nodes node_a tt) (Shortest sample node_a)
dijkstra-Shortest_example = dijkstra-Shortest sample 5 node_a sample-IsTidy (inl refl)

dijkstra-cost_le_example :
    Returns
      (dijkstra no_ops (tables sample) sample.nodes node_a tt)
      λ s. (i : ℕ) → (s.dist i ≡ max_metric) ⊎ (s.dist i ≤ 2 * 5)
dijkstra-cost_le_example = dijkstra-cost_le sample 5 node_a sample-IsTidy (inl refl)

dijkstra-Complete_example : Returns (dijkstra no_ops (tables sample) sample.nodes node_a tt) λ s.
    (v : Node) → Known sample.nodes v → s.dist v.id < max_metric → Complete s.prev v (s.path v.id)
dijkstra-Complete_example = dijkstra-Complete sample 5 node_a sample-IsTidy (inl refl)
