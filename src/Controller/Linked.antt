-- ===== src/Controller/Linked.antt =====
-- What the handlers of links keep.
use thesis_data.Common.{
  ℕ, ◌^◌, ◌≤◌, ◌<◌, ◌≡◌, inl, inr, refl, ap, sym, ◌∙◌, true, false, Option, none, some, List, ◌==◌,
  Returns, arith, Bool-cases, Option-cases,
}
use thesis_data.HashMap.Keys.{str_ops}
use thesis_data.Lpm.{Addr}
use thesis_data.Lpm.Below.{Has}
use thesis_data.Graph.{Node, Edge, Graph, max_metric, get_node_in}
use thesis_data.Graph.Tables.{lookup}
use thesis_data.Graph.Dijkstra.{put}
use thesis_data.Graph.Dijkstra.Queue.{waits, waits-node}
use thesis_data.Graph.Dijkstra.Plain.{IsPlain}
use thesis_data.Graph.Minseg.Pinned.{found-Known, get_node_in-Known}
use thesis_data.Controller.{Link, State, get_edge_data, mark_graph_dirty}
use thesis_data.Controller.Netstate.{
  World, LinkState, LinkPlaces, Fields, metric_of, link_of, add_edges, add_link, linkstate_read,
  set_metric, write_edges, linkstate_update, remove_link, linkstate_delete,
}
use thesis_data.Controller.Growth.{
  SameNodes, add_edges-IsPlain, remove_link-IsPlain, set_metric-IsPlain,
}
use thesis_data.Controller.Staged.{Staged, Kept, unchanged}

-- The addresses of a link can be read, and its metric is a word of 32 bits.
pub record Readable (w : World) (entry : LinkState) : Type 0 where
  pub local : Addr
  pub remote : Addr
  pub parsed1 : w.inet_pton entry.addr1 ≡ some local
  pub parsed2 : w.inet_pton entry.addr2 ≡ some remote
  pub word : entry.metric < 2 ^ 32

metric_of-le : (entry : LinkState) → entry.metric < 2 ^ 32 → metric_of entry ≤ max_metric
metric_of-le entry h = elim (Bool-cases (entry.metric == 0)) [
  | inl e ↦ rw e (omega arith)
  | inr e ↦ rw e (omega (arith, h))
]

link_of-Returns :
    (entry : LinkState) (local remote : Addr)
    → Returns (link_of entry (some local) (some remote)) λ l. Unit {0}
unfolding link_of
link_of-Returns entry local remote = (_, refl, tt)

waits-found :
    (ns : List Node) (id : ℕ) → waits ns id ≡ true → (n : Node) × (get_node_in ns id ≡ some n)
waits-found ns id h =
    let (m, k, e) = waits-node ns id h in
    let (n, found) = found-Known ns m k in (n, sym (ap (get_node_in ns) e) ∙ found)

-- A staging graph with the same nodes, on which `graph_dijkstra` ends, is as good.
restaged :
    (st st' : State)
    → Staged st
    → IsPlain st'.graph_staging
    → SameNodes st.graph_staging st'.graph_staging
    → st'.routers ≡ st.routers
    → st'.prefixes ≡ st.prefixes
    → (st'.graph ≡ st.graph) × (st'.finalized ≡ st.finalized) × (st'.flows ≡ st.flows)
    → Kept st true st'
restaged st st' staged plain (nodes, last) routers prefixes (graph, finalized, flows) = record {
  staged = record {
    plain = plain;
    numbered = rw (nodes, last) staged.numbered;
    homes = λ name rt h.
        ap (λ ns. waits ns rt.node_id) nodes
        ∙ staged.homes name rt (ap (lookup str_ops name) (sym routers) ∙ h);
    tree = rw prefixes staged.tree;
    owned = λ q k x h.
        let has : Has st.prefixes q k x = rw prefixes at h in rw routers (staged.owned q k x has);
  };
  graph = graph;
  finalized = finalized;
  flows = flows;
  refused = λ e. absurd cc;
}

module _ (w : World) (entry : LinkState) (readable : Readable w entry) (st : State)
    (staged : Staged st) where
  add_link-Kept :
      (at : LinkPlaces) (id1 id2 : ℕ) (link link2 : Link)
      → waits st.graph_staging.nodes id1 ≡ true
      → waits st.graph_staging.nodes id2 ≡ true
      → Returns (add_link w at entry id1 id2 link link2 st) λ (b, st'). Kept st b st'
  unfolding add_link mark_graph_dirty
  add_link-Kept at id1 id2 link link2 h h' =
      let (n1, e1) = waits-found st.graph_staging.nodes id1 h in
      let (n2, e2) = waits-found st.graph_staging.nodes id2 h' in
      let es : List Edge = st.graph_staging.edges in
      elim (Option-cases (get_edge_data st.links link es)) [
        | inr (e, p) ↦ ((false, st), rw (add_link, p) refl, unchanged st staged)
        | inl p ↦ elim (Option-cases (get_edge_data st.links link2 es)) [
          | inr (e, q) ↦ ((false, st), rw (add_link, p, q) refl, unchanged st staged)
          | inl q ↦
              let g : Graph = (mark_graph_dirty w.now st).graph_staging in
              let (plain, same) =
                add_edges-IsPlain at (metric_of entry) g n1 n2
                  (record {
                    ids = staged.plain.ids;
                    addrs = staged.plain.addrs;
                    ends = staged.plain.ends;
                    metrics = staged.plain.metrics;
                  })
                  (get_node_in-Known g.nodes id1 n1 e1) (get_node_in-Known g.nodes id2 n2 e2)
                  (metric_of-le entry readable.word) in
              let st' : State = record (mark_graph_dirty w.now st) {
                graph_staging = add_edges at (metric_of entry) g n1 n2;
                links = put at.link2 link2 (put at.link link st.links);
              } in
              (
                (true, st'),
                rw (add_link, p, q, e1, e2) refl,
                restaged st st' staged plain same refl refl (refl, refl, refl),
              )
        ]
      ]

  pub linkstate_read-Kept :
      (places : Option LinkPlaces)
      → Returns (linkstate_read w places entry st) λ (b, st'). Kept st b st'
  unfolding linkstate_read
  linkstate_read-Kept none = ((false, st), refl, unchanged st staged)
  linkstate_read-Kept (some at) = elim (Option-cases (lookup str_ops entry.name1 st.routers)) [
    | inl p ↦ ((false, st), rw (linkstate_read, p) refl, unchanged st staged)
    | inr (rt1, p) ↦ elim (Option-cases (lookup str_ops entry.name2 st.routers)) [
      | inl q ↦ ((false, st), rw (linkstate_read, p, q) refl, unchanged st staged)
      | inr (rt2, q) ↦
          let (link, e, u) = link_of-Returns entry readable.local readable.remote in
          let (link2, e', u') = link_of-Returns entry readable.remote readable.local in
          let (o, run, kept) =
            add_link-Kept at rt1.node_id rt2.node_id link link2 (staged.homes entry.name1 rt1 p)
              (staged.homes entry.name2 rt2 q) in
          (o, rw (linkstate_read, p, q, readable.parsed1, readable.parsed2, e, e') run, kept)
    ]
  ]

  pub linkstate_delete-Kept : Returns (linkstate_delete w entry st) λ (b, st'). Kept st b st'
  unfolding linkstate_delete mark_graph_dirty
  linkstate_delete-Kept =
      let (lp1, e, u) = link_of-Returns entry readable.local readable.remote in
      let (lp2, e', u') = link_of-Returns entry readable.remote readable.local in
      let (plain, (nodes, last)) = remove_link-IsPlain st.links lp1 st.graph_staging staged.plain in
      let (plain', (nodes', last')) =
        remove_link-IsPlain st.links lp2 (remove_link st.links lp1 st.graph_staging) plain in
      let st' : State = mark_graph_dirty w.now (record st {
        graph_staging = remove_link st.links lp2 (remove_link st.links lp1 st.graph_staging);
      }) in
      (
        (true, st'),
        rw (linkstate_delete, readable.parsed1, readable.parsed2, e, e') refl,
        restaged st st' staged
            (record {
              ids = plain'.ids;
              addrs = plain'.addrs;
              ends = plain'.ends;
              metrics = plain'.metrics;
            })
            (nodes' ∙ nodes, last' ∙ last) refl refl (refl, refl, refl),
      )

  -- The metrics of two edges are written.
  write_edges-IsPlain :
      (f : Fields) (edge edge2 : Edge) → IsPlain (write_edges f entry edge edge2 st).graph_staging
  unfolding write_edges
  write_edges-IsPlain f edge edge2 =
      let m : metric_of entry ≤ max_metric = metric_of-le entry readable.word in
      let first : IsPlain _ =
        set_metric-IsPlain edge.addr (metric_of entry) st.graph_staging m staged.plain in
      elim (Bool-cases f.metric) [
        | inl e ↦ rw e (
            set_metric-IsPlain edge2.addr (metric_of entry)
              (record st.graph_staging {
                edges = set_metric edge.addr (metric_of entry) st.graph_staging.edges;
              })
              m first)
        | inr e ↦ rw e staged.plain
      ]

  pub linkstate_update-Kept :
      (f : Fields) → Returns (linkstate_update w f entry st) λ (b, st'). Kept st b st'
  unfolding linkstate_update mark_graph_dirty write_edges
  linkstate_update-Kept f =
      let (lp1, e, u) = link_of-Returns entry readable.local readable.remote in
      let (lp2, e', u') = link_of-Returns entry readable.remote readable.local in
      let es : List Edge = st.graph_staging.edges in
      elim (Option-cases (get_edge_data st.links lp1 es)) [
        | inl p ↦ (
          (false, st),
          rw (linkstate_update, readable.parsed1, readable.parsed2, e, e', p) refl,
          unchanged st staged,
        )
        | inr (edge, p) ↦ elim (Bool-cases (edge.payload == 0)) [
          | inl z ↦ (
            (false, st),
            rw (linkstate_update, readable.parsed1, readable.parsed2, e, e', p, z) refl,
            unchanged st staged,
          )
          | inr z ↦ elim (Option-cases (get_edge_data st.links lp2 es)) [
            | inl q ↦ (
              (false, st),
              rw (linkstate_update, readable.parsed1, readable.parsed2, e, e', p, z, q) refl,
              unchanged st staged,
            )
            | inr (edge2, q) ↦
                let plain : IsPlain (write_edges f entry edge edge2 st).graph_staging =
                  write_edges-IsPlain f edge edge2 in
                let st' : State = mark_graph_dirty w.now (write_edges f entry edge edge2 st) in
                (
                  (true, st'),
                  rw (linkstate_update, readable.parsed1, readable.parsed2, e, e', p, z, q) refl,
                  restaged st st' staged
                      (record {
                        ids = plain.ids;
                        addrs = plain.addrs;
                        ends = plain.ends;
                        metrics = plain.metrics;
                      })
                      (refl, refl) refl refl (refl, refl, refl),
                )
          ]
        ]
      ]
