-- ===== src/Graph/Samples.antt =====
-- A graph of two nodes and three edges.
use thesis_data.Common.{true, [], ◌∷◌}
use thesis_data.Graph.{Node, Edge, Graph}

abbrev pub node_a : Node
node_a = record { addr = 100; id = 1; payload = 0 }

abbrev pub node_b : Node
node_b = record { addr = 101; id = 2; payload = 0 }

abbrev pub edge_back : Edge
edge_back = record { addr = 200; id = 1; local = node_b; remote = node_a; metric = 5; payload = 0 }

abbrev pub edge_out : Edge
edge_out = record { addr = 201; id = 2; local = node_a; remote = node_b; metric = 5; payload = 0 }

abbrev pub edge_short : Edge
edge_short = record { addr = 202; id = 3; local = node_a; remote = node_b; metric = 3; payload = 0 }

abbrev pub sample : Graph
sample = record {
  nodes = node_a ∷ node_b ∷ [];
  edges = edge_back ∷ edge_out ∷ edge_short ∷ [];
  last_node = 2;
  last_edge = 3;
  dirty = true;
}
