-- ===== src/Controller/Flows.antt =====
-- What the thread `thread_netmon` of sdnres-src/sr-ctrl/sr-ctrl.c does to the flows. A table is
-- gone through in the order of its list.
use thesis_data.Common.{
  ℕ, ◌+◌, Bool, true, false, not, ◌&&◌, ◌||◌, Option, none, some, List, [], ◌∷◌, ◌++◌, ltb, ◌==◌,
  if◌then◌else◌, Outcome, ok, fault, null_pointer, ◌>>=◌, map,
}
use thesis_data.HashMap.Keys.{In6Addr, in6_ops}
use thesis_data.Graph.{Edge, Graph, get_node_in, get_edge_in}
use thesis_data.Graph.Tables.{Table}
use thesis_data.Graph.Segments.{Segment, compare_segments}
use thesis_data.Graph.Minseg.{copy_segments}
use thesis_data.Graph.Segpath.{build_segpath}
use thesis_data.Controller.{Flow, FlowStatus, SrcPrefix, State, active, running, expired, orphan}
use thesis_data.Controller.Paths.{pspec_of}
use thesis_data.Controller.Requests.{erase, copied_path}

abbrev pub is_orphan : FlowStatus → Bool
is_orphan orphan = true
is_orphan active = false
is_orphan running = false
is_orphan expired = false

-- The test of `gc_flows`.
unfoldable pub is_over : ℕ → Flow → Bool
is_over now fl = not (fl.ttl == 0) && ltb (fl.timestamp + fl.ttl) now || is_orphan fl.status

-- The loop of `gc_flows` over the entries there are: the flows it has listed, and the table.
unfoldable pub collect :
    ℕ → List (In6Addr × Flow) → List Flow → Table In6Addr Flow → List Flow × Table In6Addr Flow
collect now [] listed flows = (listed, flows)
collect now ((key, fl) ∷ entries) listed flows =
    if is_over now fl
    then collect now entries (listed ++ (fl ∷ [])) (erase in6_ops key flows)
    else collect now entries listed flows

-- `set_flow_status`, as far as the flow goes.
abbrev pub set_flow_status : FlowStatus → Flow → Flow
set_flow_status status fl = record fl { status = status }

-- `gc_flows`: the flows whose end is told to the database, and the table. `none` is a list that is
-- not allocated.
unfoldable pub gc_flows : Bool → ℕ → Table In6Addr Flow → List Flow × Table In6Addr Flow
gc_flows false now flows = ([], flows)
gc_flows true now flows =
    let r = collect now flows [] flows in (map (set_flow_status expired) r.0, r.1)

-- The tests of the inner loop of `flow_affected`.
unfoldable pub edge_affected : Graph → Edge → Bool
edge_affected g e1 = elim (get_edge_in g.edges e1.id) [
  | none ↦ true
  | some e2 ↦ not (e1.metric == e2.metric)
]

-- The inner loop.
unfoldable pub path_affected : Graph → List Edge → Bool
path_affected g [] = false
path_affected g (e ∷ es) = let rest = path_affected g es in if edge_affected g e then true else rest

-- `flow_affected`; an `epath` that is a null pointer is followed.
unfoldable pub flow_affected : Graph → List SrcPrefix → Outcome Bool
flow_affected g [] = ok false
flow_affected g (p ∷ ps) =
    let rest = flow_affected g ps in
    elim p.epath [
      | none ↦ fault null_pointer
      | some es ↦ if path_affected g es then ok true else rest
    ]

-- The prefixes of a flow whose path has been computed again, and whether segments have changed.
unfoldable pub renew :
    List Segment → Option (List Edge) → List SrcPrefix → Outcome (List SrcPrefix × Bool)
renew segs epath [] = ok ([], false)
renew segs epath (p ∷ ps) = compare_segments segs p.segs >>= λ same. renew segs epath ps >>= λ rest.
    ok (
      record p { segs = copy_segments [] segs; epath = copied_path epath } ∷ rest.0,
      not same || rest.1,
    )

-- The first prefix gets the path itself.
unfoldable pub renew_flow : List Segment → Option (List Edge) → Flow → Outcome (Flow × Bool)
renew_flow segs epath fl = elim fl.src_prefixes [
  | [] ↦ fault null_pointer
  | p ∷ ps ↦ compare_segments segs p.segs >>= λ same. renew segs epath ps >>= λ (ps', diff).
      ok (
        record fl { src_prefixes = record p { segs = segs; epath = epath } ∷ ps' },
        not same || diff,
      )
]

-- `recompute_flow`: the flow, and whether the database is told of it.
unfoldable pub recompute_flow : State → Flow → Outcome (Flow × Bool)
recompute_flow st fl = elim (get_node_in st.graph.nodes fl.srcrt.node_id) [
  | none ↦ ok (set_flow_status orphan fl, false)
  | some src_node ↦ elim (get_node_in st.graph.nodes fl.dstrt.node_id) [
    | none ↦ ok (set_flow_status orphan fl, false)
    | some dst_node ↦
        build_segpath (pspec_of st.links fl.bw fl.delay src_node dst_node []) st.graph st.finalized
        >>= λ r. elim r [ none ↦ ok (fl, false) | some (segs, epath) ↦ renew_flow segs epath fl ]
  ]
]

-- A flow of the loops of `recompute_flows`.
unfoldable pub recompute_one : State → Flow → Outcome (Flow × Bool)
recompute_one st fl = flow_affected st.graph fl.src_prefixes >>= λ affected.
    if affected then recompute_flow st fl else ok (fl, false)

-- `recompute_flows`: the flows that the database is told of, and the table.
unfoldable pub recompute_flows :
    State → Table In6Addr Flow → Outcome (List Flow × Table In6Addr Flow)
recompute_flows st [] = ok ([], [])
recompute_flows st ((key, fl) ∷ flows) = recompute_one st fl >>= λ (fl', told).
    recompute_flows st flows >>= λ (tell, flows').
    ok (if told then fl' ∷ tell else tell, (key, fl') ∷ flows')
