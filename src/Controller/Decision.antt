-- ===== src/Controller/Decision.antt =====
-- What `process_request` is to decide, and what it needs for that.
use thesis_data.Common.{ℕ, ◌≡◌, ◌≢◌, ◌⊎◌, true, false, Option, none, some, List, [], length, ok}
use thesis_data.HashMap.Keys.{str_ops, in6_ops}
use thesis_data.Lpm.{Addr}
use thesis_data.Lpm
use thesis_data.Lpm.Below.{IsTree, Has}
use thesis_data.Rules.{Rule, rule_allow}
use thesis_data.Graph.{Node, Edge, get_node_in}
use thesis_data.Graph.Minimal.{All}
use thesis_data.Graph.Tables.{Table, lookup, store}
use thesis_data.Graph.Segments.{Segment}
use thesis_data.Graph.Dijkstra.Plain.{IsPlain}
use thesis_data.Graph.Minseg.{Dres, finalize}
use thesis_data.Graph.Minseg.Pinned.{IsSound}
use thesis_data.Graph.Minseg.Cached.{with_cache}
use thesis_data.Graph.Segpath.{build_segpath}
use thesis_data.Controller.{
  Router, Flow, SrcPrefix, Config, State, RequestStatus, pending, allowed, denied, unavailable,
  error, norouter, noprefix, active, in6, router_at,
}
use thesis_data.Controller.Paths.{pspec_of, via_of}
use thesis_data.Controller.Requests.{Request, Answers, rule_of, flow_of}
use thesis_data.Controller.Bindings.{BoundBy, Binds}

-- The published graph can be searched, and what it has computed is up to date.
pub record Published (st : State) : Type 0 where
  pub plain : IsPlain st.graph
  pub cache : Table ℕ Dres
  pub computed : st.finalized ≡ with_cache (finalize st.graph) cache
  pub sound : IsSound (with_cache (finalize st.graph) cache)

-- What a request finds: a rule without a path, an address, a tree of prefixes of routers there are,
-- a published graph, and a router with an address left to bind a flow to.
pub record Serves (cfg : Config) (ans : Answers) (req : Request) (st : State) : Type 0 where
  pub rule : Rule
  pub ruled : rule_of cfg req ≡ ok rule
  pub direct : via_of rule.path ≡ ok []
  pub address : Addr
  pub parsed : ans.inet_pton req.dstaddr ≡ some address
  pub tree : IsTree st.prefixes
  pub owned :
      (q : Addr) (k x : ℕ)
      → Has st.prefixes q k x
      → (x ≡ 0) ⊎ ((rt : Router) × (router_at x st.routers ≡ some rt))
  pub published : Published st
  pub binds :
      (rt : Router)
      → lookup str_ops req.router st.routers ≡ some rt
      → Binds ans.random ans.attempts rt st.flows

-- A path between the routers of a flow, as its bandwidth and its delay want it.
pub record Routed (st : State) (fl : Flow) (segs : List Segment) : Type 0 where
  pub src_node : Node
  pub dst_node : Node
  pub from : get_node_in st.graph.nodes fl.srcrt.node_id ≡ some src_node
  pub to : get_node_in st.graph.nodes fl.dstrt.node_id ≡ some dst_node
  pub epath : Option (List Edge)
  pub found :
      build_segpath (pspec_of st.links fl.bw fl.delay src_node dst_node []) st.graph st.finalized
      ≡ ok (some (segs, epath))

-- The new flow of a request.
pub record Admits (cfg : Config) (ans : Answers) (st : State) (bsid : Addr) (fl : Flow)
    : Type 0 where
  pub free : lookup in6_ops (in6 bsid) st.flows ≡ none
  pub bound : BoundBy bsid fl.src_prefixes
  pub serving : fl.status ≡ active
  pub counted : length fl.src_prefixes ≡ length cfg.providers
  pub segs : List Segment
  pub routed : Routed st fl segs
  pub same : All (λ (p : SrcPrefix). p.segs ≡ segs) fl.src_prefixes
  pub row : ans.row ≡ some fl.uuid

-- No node for an end of a flow, or no path for one that has prefixes.
pub data Unreachable (cfg : Config) (ans : Answers) (st : State) (fl : Flow) : Type 0 where
  no_source : get_node_in st.graph.nodes fl.srcrt.node_id ≡ none → Unreachable cfg ans st fl
  no_destination : get_node_in st.graph.nodes fl.dstrt.node_id ≡ none → Unreachable cfg ans st fl
  no_path :
      {src_node dst_node : Node}
      → get_node_in st.graph.nodes fl.srcrt.node_id ≡ some src_node
      → get_node_in st.graph.nodes fl.dstrt.node_id ≡ some dst_node
      → build_segpath (pspec_of st.links fl.bw fl.delay src_node dst_node []) st.graph st.finalized
        ≡ ok none
      → ans.prefixes_granted ≡ true
      → cfg.providers ≢ []
      → Unreachable cfg ans st fl

-- The address has its longest prefix from a router.
abbrev pub Reaches : State → Addr → Router → Type 0
Reaches st address dstrt =
    (p : ℕ) × (Lpm.lookup st.prefixes address ≡ ok p) × (router_at p st.routers ≡ some dstrt)

-- A flow has what its request asks for, and no more.
abbrev pub Asked : Answers → Request → Rule → Flow → Type 0
Asked ans req rule fl = fl ≡ record (flow_of ans req rule fl.srcrt fl.dstrt) {
  uuid = fl.uuid;
  timestamp = ans.now;
  src_prefixes = fl.src_prefixes;
}

-- A pending request, which its rule allows.
pub record Admissible (req : Request) (rule : Rule) : Type 0 where
  pub waiting : req.status ≡ pending
  pub fair : rule.type ≡ rule_allow

-- A flow that has memory is laid from the access router of the request to the router of its
-- address.
pub record Targeted (ans : Answers) (req : Request) (rule : Rule) (address : Addr) (st : State)
    (rt dstrt : Router) : Type 0 where
  pub admissible : Admissible req rule
  pub granted : ans.flow_granted ≡ true
  pub source : lookup str_ops req.router st.routers ≡ some rt
  pub target : Reaches st address dstrt

-- The prefixes of the flow cannot be made, or there are none.
abbrev pub NoPrefixes : Config → Answers → Type 0
NoPrefixes cfg ans = (ans.prefixes_granted ≡ false) ⊎ (cfg.providers ≡ [])

-- What is written to a request, and the state behind it.
pub data Decision (cfg : Config) (ans : Answers) (req : Request) (rule : Rule) (address : Addr)
    (st : State) : Option RequestStatus → State → Type 0 where
  skipped : req.status ≢ pending → Decision cfg ans req rule address st none st
  forbidden :
      req.status ≡ pending
      → rule.type ≢ rule_allow
      → Decision cfg ans req rule address st (some denied) st
  no_memory :
      Admissible req rule
      → ans.flow_granted ≡ false
      → Decision cfg ans req rule address st (some error) st
  unknown :
      Admissible req rule
      → ans.flow_granted ≡ true
      → lookup str_ops req.router st.routers ≡ none
      → Decision cfg ans req rule address st (some norouter) st
  uncovered :
      (rt : Router)
      → Admissible req rule
      → ans.flow_granted ≡ true
      → lookup str_ops req.router st.routers ≡ some rt
      → Lpm.lookup st.prefixes address ≡ ok 0
      → Decision cfg ans req rule address st (some noprefix) st
  unreachable :
      (rt dstrt : Router)
      → Targeted ans req rule address st rt dstrt
      → Unreachable cfg ans st (flow_of ans req rule rt dstrt)
      → Decision cfg ans req rule address st (some unavailable) st
  no_prefixes :
      (rt dstrt : Router) (src_node dst_node : Node)
      → Targeted ans req rule address st rt dstrt
      → get_node_in st.graph.nodes rt.node_id ≡ some src_node
      → get_node_in st.graph.nodes dstrt.node_id ≡ some dst_node
      → NoPrefixes cfg ans
      → Decision cfg ans req rule address st (some error) st
  not_recorded :
      (rt dstrt : Router) (segs : List Segment)
      → Targeted ans req rule address st rt dstrt
      → Routed st (flow_of ans req rule rt dstrt) segs
      → ans.row ≡ none
      → Decision cfg ans req rule address st (some error) st
  admitted :
      (bsid : Addr) (fl : Flow)
      → Targeted ans req rule address st fl.srcrt fl.dstrt
      → Asked ans req rule fl
      → Admits cfg ans st bsid fl
      → Decision cfg ans req rule address st
          (some allowed)
          (record st { flows = store in6_ops (in6 bsid) fl st.flows })
