-- ===== src/Controller/Samples.antt =====
-- A network of two routers and one link.
use thesis_data.Common.{true, none, some, [], ◌∷◌}
use thesis_data.Lpm.{empty, node}
use thesis_data.Graph.{Node, Edge}
use thesis_data.Graph.Dijkstra.{put}
use thesis_data.Controller.{Router, Link, State}
use thesis_data.Controller.Netstate.{World, NodeState, LinkState, LinkPlaces}
use thesis_data.Controller.Events.{Event, node_came, link_came, initial}

abbrev pub world : World
world = record { inet_pton = λ s. some s; now = 7 }

abbrev pub no_link : Link
no_link = record { local = []; remote = []; bw = 0; ava_bw = 0; delay = 0 }

abbrev pub start : State
start = initial (λ p. no_link)

abbrev pub entry_a : NodeState
entry_a = record { name = 97 ∷ []; addr = 10 ∷ []; prefix = []; pbsid = 10 ∷ 47 ∷ 54 ∷ 52 ∷ [] }

abbrev pub entry_b : NodeState
entry_b = record { name = 98 ∷ []; addr = 11 ∷ []; prefix = 1 ∷ 47 ∷ 56 ∷ []; pbsid = [] }

abbrev pub link_ab : LinkState
link_ab = record {
  name1 = 97 ∷ [];
  addr1 = 20 ∷ [];
  name2 = 98 ∷ [];
  addr2 = 21 ∷ [];
  metric = 5;
  bw = 100;
  ava_bw = 100;
  delay = 3;
}

abbrev pub places : LinkPlaces
places = record { link = 500; link2 = 501; edge = 600; edge2 = 601 }

abbrev pub came_a : Event
came_a = node_came world (some 300) 400 entry_a

abbrev pub came_b : Event
came_b = node_came world (some 301) 401 entry_b

abbrev pub came_ab : Event
came_ab = link_came world (some places) link_ab

abbrev pub node_a : Node
node_a = record { addr = 400; id = 1; payload = 300 }

abbrev pub node_b : Node
node_b = record { addr = 401; id = 2; payload = 301 }

abbrev pub router_a : Router
router_a = record {
  ptr = 300;
  name = 97 ∷ [];
  addr = some (10 ∷ []);
  pbsid = some (record { addr = 10 ∷ []; len = 64 });
  prefixes = [];
  node_id = 1;
}

abbrev pub router_b : Router
router_b = record {
  ptr = 301;
  name = 98 ∷ [];
  addr = some (11 ∷ []);
  pbsid = none;
  prefixes = record { addr = 1 ∷ []; len = 8 } ∷ [];
  node_id = 2;
}

abbrev pub after_a : State
after_a = record start {
  graph_staging = record {
    nodes = node_a ∷ [];
    edges = [];
    last_node = 1;
    last_edge = 0;
    dirty = true;
  };
  gs_mod = 7;
  gs_dirty = 7;
  routers = (97 ∷ [], router_a) ∷ [];
}

abbrev pub after_b : State
after_b = record after_a {
  graph_staging = record {
    nodes = node_a ∷ node_b ∷ [];
    edges = [];
    last_node = 2;
    last_edge = 0;
    dirty = true;
  };
  routers = (97 ∷ [], router_a) ∷ (98 ∷ [], router_b) ∷ [];
  prefixes = node (some 0) [] 0 (node (some 301) (1 ∷ []) 8 empty empty) empty;
}

abbrev pub there_link : Link
there_link = record { local = 20 ∷ []; remote = 21 ∷ []; bw = 100; ava_bw = 100; delay = 3 }

abbrev pub back_link : Link
back_link = record { local = 21 ∷ []; remote = 20 ∷ []; bw = 100; ava_bw = 100; delay = 3 }

abbrev pub edge_ab : Edge
edge_ab = record { addr = 600; id = 1; local = node_a; remote = node_b; metric = 5; payload = 500 }

abbrev pub edge_ba : Edge
edge_ba = record { addr = 601; id = 2; local = node_b; remote = node_a; metric = 5; payload = 501 }

abbrev pub after_ab : State
after_ab = record after_b {
  graph_staging = record {
    nodes = node_a ∷ node_b ∷ [];
    edges = edge_ab ∷ edge_ba ∷ [];
    last_node = 2;
    last_edge = 2;
    dirty = true;
  };
  links = put 501 back_link (put 500 there_link (λ p. no_link));
}
