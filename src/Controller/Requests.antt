-- ===== src/Controller/Requests.antt =====
-- `process_request` of sdnres-src/sr-ctrl/sr-ctrl.c, and what it calls. The result is the status
-- that is written to the request, `none` where none is, and the state.
use thesis_data.Common.{
  ℕ, zero, suc, ◌-◌, ◌/◌, Bool, true, false, Option, none, some, List, [], ◌∷◌, ◌++◌, take, ◌==◌,
  if◌then◌else◌, Outcome, ok, fault, null_pointer, indeterminate, out_of_fuel, out_of_bounds, ◌>>=◌,
  leb, map,
}
use thesis_data.HashMap.{KeyOps}
use thesis_data.HashMap.Keys.{In6Addr, str_ops, in6_ops}
use thesis_data.Lpm.{Addr}
use thesis_data.Lpm
use thesis_data.Rules.{Rule, RuleType, rule_none, rule_allow, rule_deny, match_rules, slen}
use thesis_data.Graph.{Node, Edge, get_node_in}
use thesis_data.Graph.Tables.{Table, lookup, store}
use thesis_data.Graph.Segments.{Segment}
use thesis_data.Graph.Copies.{copy_edgepath}
use thesis_data.Graph.Minseg.{copy_segments}
use thesis_data.Graph.Segpath.{build_segpath}
use thesis_data.Controller.{
  Router, Flow, SrcPrefix, Provider, Config, State, RequestStatus, pending, allowed, denied,
  unavailable, error, norouter, noprefix, active, in6, router_at, zero_addr, over,
}
use thesis_data.Controller.Paths.{pspec_of, via_of}

-- `struct srdb_flowreq_entry`
pub record Request : Type 0 where
  pub status : RequestStatus
  pub request_id : List ℕ
  pub destination : List ℕ
  pub dstaddr : List ℕ
  pub source : List ℕ
  pub bandwidth : ℕ
  pub delay : ℕ
  pub router : List ℕ
  pub proxy : List ℕ

-- What a call asks of its surroundings: `inet_pton`, whether `calloc` of the flow and of its
-- prefixes succeeds, the random bytes of an attempt, the number of attempts, the time, and the row
-- that the database gives to the flow, if it takes it.
pub record Answers : Type 0 where
  pub inet_pton : List ℕ → Option Addr
  pub flow_granted : Bool
  pub prefixes_granted : Bool
  pub random : ℕ → ℕ → List ℕ
  pub attempts : ℕ
  pub now : ℕ
  pub row : Option (List ℕ)

-- `hmap_delete`, on what the table holds.
unfoldable pub erase {ℓ} : {K : Type 0} {V : Type ℓ} → KeyOps K → K → List (K × V) → List (K × V)
erase ops k [] = []
erase ops k ((l, v) ∷ t) = let rest = erase ops k t in if ops.equal l k then t else (l, v) ∷ rest

-- `generate_bsid`, with the random bytes for a number of bytes. A prefix of more than 128 bits
-- makes the number of bytes negative.
unfoldable pub generate_bsid : (ℕ → List ℕ) → Router → Outcome Addr
generate_bsid random rt = elim rt.pbsid [
  | none ↦ fault indeterminate
  | some pbsid ↦
      if leb pbsid.len 128
      then (let len : ℕ = (128 - pbsid.len) / 8 in ok (take (16 - len) pbsid.addr ++ random len))
      else fault out_of_bounds
]

-- `generate_unique_bsid`, by the number of attempts.
unfoldable pub generate_unique_bsid :
    (ℕ → ℕ → List ℕ) → ℕ → Router → Table In6Addr Flow → Outcome Addr
generate_unique_bsid random zero rt flows = fault out_of_fuel
generate_unique_bsid random (suc attempts) rt flows = generate_bsid (random attempts) rt >>= λ res.
    elim (lookup in6_ops (in6 res) flows) [
      | none ↦ ok res
      | some fl ↦ generate_unique_bsid random attempts rt flows
    ]

-- A turn of the loop of `select_providers`, on memory of `calloc`.
abbrev pub provider_prefix : Provider → SrcPrefix
provider_prefix p = record {
  router = take slen p.router;
  addr = take slen p.addr;
  prefix_len = p.prefix_len;
  priority = 0;
  bsid = zero_addr;
  segs = [];
  epath = none;
}

-- `select_providers`; `none` is the result -1.
unfoldable pub select_providers : Bool → Config → Option (List SrcPrefix)
select_providers granted cfg = if granted then some (map provider_prefix cfg.providers) else none

-- `a ?: b`
abbrev pub or_else : ℕ → ℕ → ℕ
or_else a b = if a == 0 then b else a

-- The rule of a request.
unfoldable pub rule_of : Config → Request → Outcome Rule
rule_of cfg req = elim (match_rules cfg.rules req.source req.destination) [
  | some r ↦ ok r
  | none ↦ elim cfg.defrule [ none ↦ fault null_pointer | some r ↦ ok r ]
]

abbrev pub is_allow : RuleType → Bool
is_allow rule_allow = true
is_allow rule_deny = false
is_allow rule_none = false

-- `copy_edgepath` of `epath`.
unfoldable pub copied_path : Option (List Edge) → Option (List Edge)
copied_path none = none
copied_path (some es) = some (copy_edgepath [] es)

-- The prefixes of a flow: the first has the path that was found, the others copies of it, and all
-- have one binding.
unfoldable pub fill_prefixes :
    Addr → List Segment → Option (List Edge) → List SrcPrefix → List SrcPrefix
fill_prefixes bsid segs epath [] = []
fill_prefixes bsid segs epath (p ∷ ps) =
    record p { segs = segs; epath = epath; bsid = bsid }
    ∷ map
        (λ (q : SrcPrefix). record q {
          segs = copy_segments [] segs;
          epath = copied_path epath;
          bsid = bsid;
        })
        ps

-- The deletions behind `free_segs`.
unfoldable pub unbind : List SrcPrefix → Table In6Addr Flow → Table In6Addr Flow
unbind [] flows = flows
unbind (p ∷ ps) flows = unbind ps (erase in6_ops (in6 p.bsid) flows)

-- A flow before its prefixes are chosen.
unfoldable pub flow_of : Answers → Request → Rule → Router → Router → Flow
flow_of ans req rule rt dstrt = record {
  uuid = [];
  src = take slen req.source;
  dst = take slen req.destination;
  dstaddr = over (ans.inet_pton req.dstaddr) zero_addr;
  src_prefixes = [];
  srcrt = rt;
  dstrt = dstrt;
  bw = or_else rule.bw req.bandwidth;
  delay = or_else rule.delay req.delay;
  ttl = rule.ttl;
  idle = rule.idle;
  timestamp = 0;
  status = active;
  proxy = take slen req.proxy;
  request_id = take slen req.request_id;
}

abbrev pub Result : Type 0
Result = Outcome (Option RequestStatus × State)

-- The result of a request that changes no state.
abbrev pub answer : RequestStatus → State → Result
answer status st = ok (some status, st)

-- From the binding on: the flow is in the table before it is in the database.
unfoldable pub commit : Answers → Flow → State → Result
commit ans fl st = elim ans.row [
  | none ↦ answer error (record st { flows = unbind fl.src_prefixes st.flows })
  | some uuid ↦ answer allowed st
]

-- The row of a flow, which has none while the database has not taken it.
abbrev pub row_of : Option (List ℕ) → List ℕ
row_of none = []
row_of (some uuid) = uuid

-- What stands between `build_segpath` and `commit_flow`.
unfoldable pub bind_flow :
    Answers → Router → Flow → List Segment → Option (List Edge) → List SrcPrefix → State → Result
bind_flow ans rt fl segs epath prefixes st =
    generate_unique_bsid ans.random ans.attempts rt st.flows >>= λ bsid.
    let fl' : Flow = record fl {
      timestamp = ans.now;
      uuid = row_of ans.row;
      src_prefixes = fill_prefixes bsid segs epath prefixes;
    } in
    commit ans fl' (record st { flows = store in6_ops (in6 bsid) fl' st.flows })

-- From the nodes of the two routers on.
unfoldable pub route_flow : Config → Answers → Rule → Flow → Node → Node → State → Result
route_flow cfg ans rule fl src_node dst_node st = elim (select_providers ans.prefixes_granted cfg) [
  | none ↦ answer error st
  | some [] ↦ answer error st
  | some (p ∷ ps) ↦ via_of rule.path >>= λ via.
      build_segpath (pspec_of st.links fl.bw fl.delay src_node dst_node via) st.graph st.finalized
      >>= λ r. elim r [
        | none ↦ answer unavailable st
        | some (segs, epath) ↦ bind_flow ans fl.srcrt fl segs epath (p ∷ ps) st
      ]
]

-- From the two routers on.
unfoldable pub place_flow : Config → Answers → Rule → Flow → State → Result
place_flow cfg ans rule fl st = elim (get_node_in st.graph.nodes fl.srcrt.node_id) [
  | none ↦ answer unavailable st
  | some src_node ↦ elim (get_node_in st.graph.nodes fl.dstrt.node_id) [
    | none ↦ answer unavailable st
    | some dst_node ↦ route_flow cfg ans rule fl src_node dst_node st
  ]
]

-- The router of a pointer that `lpm_lookup` returns; `none` is the null pointer.
unfoldable pub destination_router : State → ℕ → Outcome (Option Router)
destination_router st p =
    if p == 0
    then ok none
    else elim (router_at p st.routers) [ none ↦ fault null_pointer | some rt ↦ ok (some rt) ]

-- `lpm_lookup` of the address that `inet_pton` has written.
unfoldable pub find_destination : Option Addr → State → Outcome (Option Router)
find_destination none st = fault indeterminate
find_destination (some addr) st = Lpm.lookup st.prefixes addr >>= λ p. destination_router st p

-- From `calloc` of the flow on, for a rule that allows it.
unfoldable pub admit : Config → Answers → Request → Rule → State → Result
admit cfg ans req rule st =
    if ans.flow_granted
    then (elim (lookup str_ops req.router st.routers) [
      | none ↦ answer norouter st
      | some rt ↦ find_destination (ans.inet_pton req.dstaddr) st >>= λ d. elim d [
        | none ↦ answer noprefix st
        | some dstrt ↦ place_flow cfg ans rule (flow_of ans req rule rt dstrt) st
      ]
    ])
    else answer error st

abbrev pub is_pending : RequestStatus → Bool
is_pending pending = true
is_pending allowed = false
is_pending denied = false
is_pending unavailable = false
is_pending error = false
is_pending norouter = false
is_pending noprefix = false

-- `process_request`
unfoldable pub process_request : Config → Answers → Request → State → Result
process_request cfg ans req st =
    if is_pending req.status
    then (rule_of cfg req >>= λ rule.
        if is_allow rule.type then admit cfg ans req rule st else answer denied st)
    else ok (none, st)
