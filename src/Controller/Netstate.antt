-- ===== src/Controller/Netstate.antt =====
-- The handlers of sdnres-src/sr-ctrl/sr-ctrl.c that follow the state of the network, and
-- `netstate_graph_sync`. What a handler returns is whether it is 0, and the state.
use thesis_data.Common.{
  ℕ, ◌%◌, ◌^◌, Bool, true, false, not, Option, none, some, List, [], ◌∷◌, ◌++◌, ◌==◌, if◌then◌else◌,
  Outcome, ok, fault, assertion, null_pointer, indeterminate, ◌>>=◌,
}
use thesis_data.HashMap.Keys.{str_ops}
use thesis_data.Misc.{strsplit}
use thesis_data.Lpm.{Addr, Tree, insert}
use thesis_data.Graph.{Node, Edge, Graph, max_metric, add_node, add_edge, remove_edge, get_node_in}
use thesis_data.Graph.Tables.{lookup, store}
use thesis_data.Graph.Copies.{Copying, deepcopy}
use thesis_data.Graph.Dijkstra.{put}
use thesis_data.Graph.Minseg.{finalize, build_cache}
use thesis_data.Controller.{Prefix, Router, Link, State, pref_pton, get_edge_data, mark_graph_dirty}

-- What a handler asks of its surroundings: `inet_pton`, and the time in microseconds.
pub record World : Type 0 where
  pub inet_pton : List ℕ → Option Addr
  pub now : ℕ

-- `struct srdb_nodestate_entry`
pub record NodeState : Type 0 where
  pub name : List ℕ
  pub addr : List ℕ
  pub prefix : List ℕ
  pub pbsid : List ℕ

-- `struct srdb_linkstate_entry`
pub record LinkState : Type 0 where
  pub name1 : List ℕ
  pub addr1 : List ℕ
  pub name2 : List ℕ
  pub addr2 : List ℕ
  pub metric : ℕ
  pub bw : ℕ
  pub ava_bw : ℕ
  pub delay : ℕ

-- The loop over the prefixes of a router: what it has listed, and the tree. `lpm_insert` takes the
-- length as an `uint8_t`.
unfoldable pub add_prefixes :
    World → ℕ → List (List ℕ) → List Prefix → Tree → Outcome (List Prefix × Tree)
add_prefixes w rt [] listed t = ok (listed, t)
add_prefixes w rt ([] ∷ vargs) listed t = add_prefixes w rt vargs listed t
add_prefixes w rt ((c ∷ s) ∷ vargs) listed t =
    let p : Prefix = pref_pton w.inet_pton (c ∷ s) in
    insert p.addr (p.len % 2 ^ 8) rt t >>= λ t'. add_prefixes w rt vargs (listed ++ (p ∷ [])) t'

-- The test on `pbsid`.
unfoldable pub read_pbsid : World → List ℕ → Option Prefix
read_pbsid w [] = none
read_pbsid w (c ∷ s) = some (pref_pton w.inet_pton (c ∷ s))

-- What `nodestate_read` does with the node of `graph_add_node`.
unfoldable pub add_router :
    World → ℕ → NodeState → List Prefix → State → Option Node × Graph → Outcome (Bool × State)
add_router w rt entry listed st (none, g) = fault null_pointer
add_router w rt entry listed st (some n, g) =
    let router : Router = record {
      ptr = rt;
      name = entry.name;
      addr = w.inet_pton entry.addr;
      pbsid = read_pbsid w entry.pbsid;
      prefixes = listed;
      node_id = n.id;
    } in
    ok (true, record st { graph_staging = g; routers = store str_ops entry.name router st.routers })

-- `nodestate_read`: the answers of `malloc` for the router and for the node.
unfoldable pub nodestate_read :
    World → Option ℕ → Option ℕ → NodeState → State → Outcome (Bool × State)
nodestate_read w rt_addr node_addr entry st = elim (lookup str_ops entry.name st.routers) [
  | some rt ↦ ok (false, st)
  | none ↦ elim rt_addr [
    | none ↦ ok (false, st)
    | some rt ↦ strsplit entry.prefix 59 >>= λ vargs.
        add_prefixes w rt vargs [] st.prefixes >>= λ (listed, t).
        let st' : State = mark_graph_dirty w.now (record st { prefixes = t }) in
        add_router w rt entry listed st' (add_node st'.graph_staging node_addr rt)
  ]
]

-- `metric ?: UINT32_MAX`
abbrev pub metric_of : LinkState → ℕ
metric_of entry = if entry.metric == 0 then max_metric else entry.metric

-- A link, of its two addresses. An address that `inet_pton` cannot read leaves memory unwritten,
-- which the comparisons with other links read: it is a fault here, also where there are none.
unfoldable pub link_of : LinkState → Option Addr → Option Addr → Outcome Link
link_of entry (some local) (some remote) = ok (record {
  local = local;
  remote = remote;
  bw = entry.bw;
  ava_bw = entry.ava_bw;
  delay = entry.delay;
})
link_of entry (some local) none = fault indeterminate
link_of entry none remote = fault indeterminate

-- Where `malloc` puts what `linkstate_read` makes.
pub record LinkPlaces : Type 0 where
  pub link : ℕ
  pub link2 : ℕ
  pub edge : ℕ
  pub edge2 : ℕ

-- The two calls of `graph_add_edge`.
unfoldable pub add_edges : LinkPlaces → ℕ → Graph → Node → Node → Graph
add_edges at metric g rt1_node rt2_node =
    let g' : Graph = (add_edge g none (some at.edge) rt1_node rt2_node metric false at.link).1 in
    (add_edge g' none (some at.edge2) rt2_node rt1_node metric false at.link2).1

-- The rest of `linkstate_read`, on two links that have been written to their places.
unfoldable pub add_link :
    World → LinkPlaces → LinkState → ℕ → ℕ → Link → Link → State → Outcome (Bool × State)
add_link w at entry id1 id2 link link2 st =
    elim (get_edge_data st.links link st.graph_staging.edges) [
      | some e ↦ ok (false, st)
      | none ↦ elim (get_edge_data st.links link2 st.graph_staging.edges) [
        | some e ↦ ok (false, st)
        | none ↦ elim (get_node_in st.graph_staging.nodes id1) [
          | none ↦ fault assertion
          | some rt1_node ↦ elim (get_node_in st.graph_staging.nodes id2) [
            | none ↦ fault assertion
            | some rt2_node ↦
                let st' : State = mark_graph_dirty w.now st in
                ok (
                  true,
                  record st' {
                    graph_staging =
                        add_edges at (metric_of entry) st'.graph_staging rt1_node rt2_node;
                    links = put at.link2 link2 (put at.link link st'.links);
                  },
                )
          ]
        ]
      ]
    ]

-- `linkstate_read`; `none` where `malloc` of a link fails. The edges are allocated.
unfoldable pub linkstate_read :
    World → Option LinkPlaces → LinkState → State → Outcome (Bool × State)
linkstate_read w none entry st = ok (false, st)
linkstate_read w (some at) entry st = elim (lookup str_ops entry.name1 st.routers) [
  | none ↦ ok (false, st)
  | some rt1 ↦ elim (lookup str_ops entry.name2 st.routers) [
    | none ↦ ok (false, st)
    | some rt2 ↦ link_of entry (w.inet_pton entry.addr1) (w.inet_pton entry.addr2) >>= λ link.
        link_of entry (w.inet_pton entry.addr2) (w.inet_pton entry.addr1) >>= λ link2.
        add_link w at entry rt1.node_id rt2.node_id link link2 st
  ]
]

-- The bits of `fmask` that `linkstate_update` knows.
pub record Fields : Type 0 where
  pub metric : Bool
  pub bw : Bool
  pub ava_bw : Bool
  pub delay : Bool

-- The edge at a place gets a metric.
unfoldable pub set_metric : ℕ → ℕ → List Edge → List Edge
set_metric p metric [] = []
set_metric p metric (e ∷ es) =
    (if e.addr == p then record e { metric = metric } else e) ∷ set_metric p metric es

-- What is written to a link.
unfoldable pub write_link : Fields → LinkState → Link → Link
write_link f entry l = record l {
  bw = if f.bw then entry.bw else l.bw;
  ava_bw = if f.ava_bw then entry.ava_bw else l.ava_bw;
  delay = if f.delay then entry.delay else l.delay;
}

-- What `linkstate_update` writes, once it has the two edges. `link2` is the data of the first.
unfoldable pub write_edges : Fields → LinkState → Edge → Edge → State → State
write_edges f entry edge edge2 st =
    let metric : ℕ = metric_of entry in
    record st {
      graph_staging = record st.graph_staging {
        edges =
            if f.metric
            then set_metric edge2.addr metric (set_metric edge.addr metric st.graph_staging.edges)
            else st.graph_staging.edges;
      };
      links = put edge.payload (write_link f entry (st.links edge.payload)) st.links;
    }

-- `linkstate_update`
unfoldable pub linkstate_update : World → Fields → LinkState → State → Outcome (Bool × State)
linkstate_update w f entry st =
    link_of entry (w.inet_pton entry.addr1) (w.inet_pton entry.addr2) >>= λ lp1.
    link_of entry (w.inet_pton entry.addr2) (w.inet_pton entry.addr1) >>= λ lp2.
    elim (get_edge_data st.links lp1 st.graph_staging.edges) [
      | none ↦ ok (false, st)
      | some edge ↦
          if edge.payload == 0
          then ok (false, st)
          else elim (get_edge_data st.links lp2 st.graph_staging.edges) [
            | none ↦ ok (false, st)
            | some edge2 ↦ ok (true, mark_graph_dirty w.now (write_edges f entry edge edge2 st))
          ]
    ]

-- A look-up of an edge, and the removal of what it finds.
unfoldable pub remove_link : (ℕ → Link) → Link → Graph → Graph
remove_link links l g = elim (get_edge_data links l g.edges) [ none ↦ g | some e ↦ remove_edge g e ]

-- `linkstate_delete`
unfoldable pub linkstate_delete : World → LinkState → State → Outcome (Bool × State)
linkstate_delete w entry st =
    link_of entry (w.inet_pton entry.addr1) (w.inet_pton entry.addr2) >>= λ lp1.
    link_of entry (w.inet_pton entry.addr2) (w.inet_pton entry.addr1) >>= λ lp2.
    let g : Graph = remove_link st.links lp2 (remove_link st.links lp1 st.graph_staging) in
    ok (true, mark_graph_dirty w.now (record st { graph_staging = g }))

-- `link_edge_data_copy`, over the edges that are copied.
unfoldable pub copy_links : (ℕ → ℕ) → List Edge → (ℕ → Link) → ℕ → Link
copy_links edge_data_copy [] links = links
copy_links edge_data_copy (e ∷ es) links =
    copy_links edge_data_copy es (put (edge_data_copy e.payload) (links e.payload) links)

-- A graph that has been copied and finalized takes the place of the one that was published.
unfoldable pub swap_graph : Copying → (Node → Bool) → State → Outcome State
swap_graph copying cached st = deepcopy copying st.graph_staging >>= λ g.
    build_cache cached (finalize g) >>= λ (done, f). ok (record st {
      graph = g;
      finalized = f;
      links = copy_links copying.edge_data_copy st.graph_staging.edges st.links;
    })

-- The last lines of `netstate_graph_sync`, under a lock that is taken again.
unfoldable pub clear_dirty : State → State
clear_dirty st = record st { graph_staging = record st.graph_staging { dirty = false } }

-- The two parts of `netstate_graph_sync` on a dirty graph, with nothing between them.
unfoldable pub publish : Copying → (Node → Bool) → State → Outcome (Bool × State)
publish copying cached st = swap_graph copying cached st >>= λ st'. ok (true, clear_dirty st')

-- `netstate_graph_sync`; `granted` is `none` where the copy fails, and then says which allocations
-- of the cache succeed. No change of the staging graph comes between the copy and the last lines.
unfoldable pub netstate_graph_sync :
    Option (Copying × (Node → Bool)) → State → Outcome (Bool × State)
netstate_graph_sync none st = ok (not st.graph_staging.dirty, st)
netstate_graph_sync (some (copying, cached)) st =
    if st.graph_staging.dirty then publish copying cached st else ok (true, st)
