-- ===== src/Controller/Answered.antt =====
-- The theorems on requests, flows and the published graph at a network of two routers.
use mathlib.Core.Path.{subst}
use thesis_data.Common.{
  ℕ, ◌≡◌, ◌⊎◌, inl, inr, refl, true, Option, none, some, List, [], ◌∷◌, map, replicate, Outcome, ok,
  fault, Returns, arith, Bool-cases,
}
use thesis_data.HashMap.Keys.{In6Addr, str_ops, str_equal, in6_equal, nodepair_equal}
use thesis_data.Lpm
use thesis_data.Lpm.{Addr, bit, byte_at, lookup_from, match_child, match_node, same_bits}
use thesis_data.Lpm.Below.{IsTree, Has}
use thesis_data.Rules.{zero_rule, rule_allow, match_from}
use thesis_data.Graph.{
  Graph, exist_node, get_node_in, minimal_from, neighbors_from, prune, prune_from,
}
use thesis_data.Graph.Tables.{
  Table, lookup, store, minimal_row, minimal_rows, store_minimal, neighbors_rows,
}
use thesis_data.Graph.Segments.{nodes_to_edges}
use thesis_data.Graph.Dijkstra.{
  dijkstra, put, each, paths_from, drop_node, select_from, new_cost, updated, improve, relax_one,
  relax, visit, search_from, initial_dist, initial,
}
use thesis_data.Graph.Dijkstra.Queue.{waits}
use thesis_data.Graph.Dijkstra.Plain.{IsPlain, tables}
use thesis_data.Graph.Dijkstra.Total.{PathsKnown, dijkstra-PathsKnown}
use thesis_data.Graph.Minseg.{finalize, minseg, minseg_from, result_of, prev_of, choose}
use thesis_data.Graph.Minseg.Cached.{finalize-IsSound}
use thesis_data.Graph.Minseg.Total.{build_segpath-Returns}
use thesis_data.Graph.Segpath.{
  build_segpath, segpath_from, pruned, path_to, add_waypoint, breaks_into, last_segment,
}
use thesis_data.Controller.{
  Router, Flow, active, expired, Config, State, RequestStatus, pending, allowed, in6, router_at,
}
use thesis_data.Controller.Paths.{
  delay_below_ops, delay_init, pspec_of, via_of, pre_prune, prune_bw,
}
use thesis_data.Controller.Netstate.{netstate_graph_sync}
use thesis_data.Controller.Requests.{
  Request, Answers, rule_of, process_request, admit, find_destination, destination_router,
  place_flow, route_flow, select_providers, bind_flow, generate_unique_bsid, generate_bsid, commit,
  flow_of,
}
use thesis_data.Controller.Flows.{gc_flows, set_flow_status, is_over}
use thesis_data.Controller.Decision.{Published, Decision}
use thesis_data.Controller.Pruned.{pre_prune-Prunes}
use thesis_data.Controller.Collected.{Parted, gc_flows-stays}
use thesis_data.Controller.Staged.{Staged}
use thesis_data.Controller.Synced.{Syncs, netstate_graph_sync-Syncs}
use thesis_data.Controller.Samples.{node_a, node_b, router_a, router_b, after_ab}
use thesis_data.Controller.Tests.{granted, copying-Places}

abbrev network : Graph
network = after_ab.graph_staging

network-IsPlain : IsPlain network
unfolding exist_node
network-IsPlain = record {
  ids = (refl, (refl, tt));
  addrs = (refl, (refl, tt));
  ends = ((inl refl, inr (inl refl)), ((inr (inl refl), inl refl), tt));
  metrics = (omega arith, (omega arith, tt));
}

dijkstra-PathsKnown_example :
    Returns
      (dijkstra
        (delay_below_ops after_ab.links 4)
        (tables network)
        network.nodes
        node_a
        (delay_init network node_a))
      λ s. PathsKnown network.nodes s.path
dijkstra-PathsKnown_example =
    dijkstra-PathsKnown (delay_below_ops after_ab.links 4) network node_a
      (delay_init network node_a) network-IsPlain

build_segpath-Returns_example :
    Returns
      (build_segpath (pspec_of after_ab.links 60 4 node_a node_b []) network (finalize network))
      λ o. Unit {0}
unfolding pspec_of
build_segpath-Returns_example =
    build_segpath-Returns (pspec_of after_ab.links 60 4 node_a node_b []) network [] network-IsPlain
      (finalize-IsSound network) (pre_prune-Prunes after_ab.links 60 network network-IsPlain)
      (inl refl) (inr (inl refl), tt)

owners :
    (q : Addr) (k x : ℕ)
    → Has after_ab.prefixes q k x
    → (x ≡ 0) ⊎ ((rt : Router) × (router_at x after_ab.routers ≡ some rt))
unfolding router_at
owners q k x (inl (e, p, n)) = inl cc
owners q k x (inr (inl (inl (e, p, n)))) =
    let same : 301 ≡ x = cc in
    inr
      (subst (λ y. (rt : Router) × (router_at y after_ab.routers ≡ some rt)) same (router_b, refl))
owners q k x (inr (inl (inr (inl h)))) = absurd h
owners q k x (inr (inl (inr (inr h)))) = absurd h
owners q k x (inr (inr h)) = absurd h

prefixes-IsTree : IsTree after_ab.prefixes
unfolding bit byte_at
prefixes-IsTree =
    (refl, (omega arith, omega arith, (λ k v. absurd (omega (arith, v))), refl, tt, tt), tt)

homes :
    (name : List ℕ) (rt : Router)
    → lookup str_ops name after_ab.routers ≡ some rt
    → waits network.nodes rt.node_id ≡ true
unfolding lookup
homes name rt h = elim (Bool-cases (str_equal (97 ∷ []) name)) [
  | inl e ↦
      let found : some router_a ≡ some rt = rw e at h in
      let same : router_a ≡ rt = cc in
      subst (λ (r : Router). waits network.nodes r.node_id ≡ true) same refl
  | inr e ↦ elim (Bool-cases (str_equal (98 ∷ []) name)) [
    | inl q ↦
        let found : some router_b ≡ some rt = rw (e, q) at h in
        let same : router_b ≡ rt = cc in
        subst (λ (r : Router). waits network.nodes r.node_id ≡ true) same refl
    | inr q ↦ let lost : none ≡ some rt = rw (e, q) at h in absurd cc
  ]
]

-- The published graph is the network.
abbrev opened : State
opened = record after_ab { graph = network; finalized = finalize network }

opened-Published : Published opened
opened-Published = record {
  plain = network-IsPlain;
  cache = [];
  computed = refl;
  sound = finalize-IsSound network;
}

opened-Staged : Staged opened
opened-Staged = record {
  plain = network-IsPlain;
  numbered = (omega arith, (omega arith, tt));
  homes = homes;
  tree = prefixes-IsTree;
  owned = owners;
}

netstate_graph_sync-Syncs_example :
    Returns (netstate_graph_sync granted opened) λ (b, st'). Syncs granted opened b st'
netstate_graph_sync-Syncs_example =
    netstate_graph_sync-Syncs granted opened copying-Places opened-Staged opened-Published

abbrev cfg : Config
cfg = record {
  providers = record { router = []; name = []; addr = []; prefix_len = 0 } ∷ [];
  rules = [];
  defrule = some (record zero_rule { is_default = true; type = rule_allow; bw = 60; ttl = 9 });
}

abbrev answers : Answers
answers = record {
  inet_pton = λ s. some s;
  flow_granted = true;
  prefixes_granted = true;
  random = λ attempt n. replicate n attempt;
  attempts = 1;
  now = 20;
  row = some (5 ∷ []);
}

abbrev request : Request
request = record {
  status = pending;
  request_id = 1 ∷ [];
  destination = 2 ∷ [];
  dstaddr = 1 ∷ [];
  source = 3 ∷ [];
  bandwidth = 10;
  delay = 0;
  router = 97 ∷ [];
  proxy = 4 ∷ [];
}

-- A flow that came at 10, with a time to live.
abbrev flow : ℕ → Flow
flow ttl = record {
  uuid = [];
  src = [];
  dst = [];
  dstaddr = [];
  src_prefixes = [];
  srcrt = router_a;
  dstrt = router_b;
  bw = 0;
  delay = 0;
  ttl = ttl;
  idle = 0;
  timestamp = 10;
  status = active;
  proxy = [];
  request_id = [];
}

abbrev flows : Table In6Addr Flow
flows = (in6 (1 ∷ []), flow 5) ∷ (in6 (2 ∷ []), flow 50) ∷ []

gc_flows-stays_example :
    (gone : List Flow) × (kept : Table In6Addr Flow) × Parted 20 flows gone kept
    × (gc_flows true 20 flows ≡ (map (set_flow_status expired) gone, kept))
unfolding is_over in6 in6_equal byte_at
gc_flows-stays_example = gc_flows-stays 20 flows ((refl, tt), (tt, tt))

abbrev status_of : Outcome (Option RequestStatus × State) → Option RequestStatus
status_of (ok r) = r.0
status_of (fault e) = none

-- The request is allowed.
allowed_run : status_of (process_request cfg answers request opened) ≡ some allowed
unfolding process_request rule_of match_from admit lookup str_equal find_destination Lpm.lookup
    lookup_from match_child match_node same_bits bit byte_at destination_router router_at place_flow
    get_node_in route_flow select_providers via_of pspec_of build_segpath segpath_from pruned
    path_to add_waypoint breaks_into last_segment pre_prune prune prune_from prune_bw put exist_node
    minimal_from neighbors_from store minimal_row minimal_rows store_minimal neighbors_rows
    nodepair_equal each paths_from drop_node select_from new_cost updated improve relax_one relax
    visit search_from initial_dist initial dijkstra minseg minseg_from result_of prev_of choose
    nodes_to_edges bind_flow generate_unique_bsid generate_bsid commit flow_of
allowed_run = refl
