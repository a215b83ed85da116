-- ===== src/Controller.antt =====
-- sdnres-src/sr-ctrl/sr-ctrl.c and sr-ctrl.h: the state of the controller and what its parts
-- share. A pointer to a router or to a link is a number, which is the data of a node or of an edge.
-- A link is found at its pointer, a router in the table of routers. Names have fewer than SLEN
-- bytes, and the counts of references are not part of the model, nor are the locks: each handler
-- is one step.
pub mod Netstate
pub mod Providers
pub mod Paths
pub mod Requests
pub mod Flows
pub mod Bindings
pub mod Growth
pub mod Staged
pub mod Linked
pub mod Synced
pub mod Pruned
pub mod Decision
pub mod Decided
pub mod Collected
pub mod Renewed
pub mod Events
pub mod Sound
pub mod Runs
pub mod Samples
pub mod Tests
pub mod Answered
use thesis_data.Common.{
  ℕ, zero, suc, ◌+◌, ◌*◌, ◌^◌, ◌%◌, Bool, true, false, ◌&&◌, Option, none, some, List, [], ◌∷◌,
  ◌==◌, if◌then◌else◌,
}
use thesis_data.HashMap.{KeyOps}
use thesis_data.HashMap.Keys.{In6Addr, str_equal}
use thesis_data.Lpm.{Addr, Tree, byte_at}
use thesis_data.Rules.{Rule, to_int}
use thesis_data.Graph.{Node, Edge, Graph}
use thesis_data.Graph.Tables.{Table}
use thesis_data.Graph.Segments.{Segment}
use thesis_data.Graph.Minseg.{Finalized}

-- `struct prefix`
pub record Prefix : Type 0 where
  pub addr : Addr
  pub len : ℕ

-- `struct router`; `pbsid` is `none` where nothing has been written to it.
pub record Router : Type 0 where
  pub ptr : ℕ
  pub name : List ℕ
  pub addr : Option Addr
  pub pbsid : Option Prefix
  pub prefixes : List Prefix
  pub node_id : ℕ

-- `struct link`
pub record Link : Type 0 where
  pub local : Addr
  pub remote : Addr
  pub bw : ℕ
  pub ava_bw : ℕ
  pub delay : ℕ

-- `enum flow_status`
pub data FlowStatus : Type 0 where
  active running expired orphan : FlowStatus

-- `enum flowreq_status`
pub data RequestStatus : Type 0 where
  pending allowed denied unavailable error norouter noprefix : RequestStatus

-- `struct src_prefix`; `epath` is `none` for a null pointer.
pub record SrcPrefix : Type 0 where
  pub router : List ℕ
  pub addr : List ℕ
  pub prefix_len : ℕ
  pub priority : ℕ
  pub bsid : Addr
  pub segs : List Segment
  pub epath : Option (List Edge)

-- `struct flow`
pub record Flow : Type 0 where
  pub uuid : List ℕ
  pub src : List ℕ
  pub dst : List ℕ
  pub dstaddr : Addr
  pub src_prefixes : List SrcPrefix
  pub srcrt : Router
  pub dstrt : Router
  pub bw : ℕ
  pub delay : ℕ
  pub ttl : ℕ
  pub idle : ℕ
  pub timestamp : ℕ
  pub status : FlowStatus
  pub proxy : List ℕ
  pub request_id : List ℕ

-- `struct provider`
pub record Provider : Type 0 where
  pub router : List ℕ
  pub name : List ℕ
  pub addr : List ℕ
  pub prefix_len : ℕ

-- The parts of `struct config` that are only read.
pub record Config : Type 0 where
  pub providers : List Provider
  pub rules : List Rule
  pub defrule : Option Rule

-- `struct netstate`, with the contents of the links and with `flows` of `struct config`.
-- `finalized` is what the published graph has computed.
pub record State : Type 0 where
  pub graph : Graph
  pub finalized : Finalized
  pub graph_staging : Graph
  pub gs_mod : ℕ
  pub gs_dirty : ℕ
  pub routers : Table (List ℕ) Router
  pub prefixes : Tree
  pub links : ℕ → Link
  pub flows : Table In6Addr Flow

-- `s6_addr32` of an address, on a machine that has the low byte first.
abbrev pub word : Addr → ℕ → ℕ
word a i =
    byte_at a i
    + byte_at a (i + 1) * 2 ^ 8
    + byte_at a (i + 2) * 2 ^ 16
    + byte_at a (i + 3) * 2 ^ 24

unfoldable pub in6 : Addr → In6Addr
in6 a = record { word_0 = word a 0; word_1 = word a 4; word_2 = word a 8; word_3 = word a 12 }

-- The router that a pointer leads to.
unfoldable pub router_at : ℕ → Table (List ℕ) Router → Option Router
router_at p [] = none
router_at p ((name, rt) ∷ t) = let rest = router_at p t in if rt.ptr == p then some rt else rest

-- What stands behind the first `/`, and in front of it; `none` where there is none.
unfoldable pub split_slash : List ℕ → Option (List ℕ × List ℕ)
split_slash [] = none
split_slash (c ∷ s) =
    let rest = split_slash s in
    if c == 47 then some ([], s) else elim rest [ none ↦ none | some (a, b) ↦ some (c ∷ a, b) ]

-- Sixteen bytes of 0.
abbrev pub zero_addr : Addr
zero_addr = 0 ∷ 0 ∷ 0 ∷ 0 ∷ 0 ∷ 0 ∷ 0 ∷ 0 ∷ 0 ∷ 0 ∷ 0 ∷ 0 ∷ 0 ∷ 0 ∷ 0 ∷ 0 ∷ []

-- What `inet_pton` writes over an address.
unfoldable pub over : Option Addr → Addr → Addr
over none old = old
over (some a) old = a

-- `pref_pton`, where `inet_pton` answers with the bytes that it writes, if any.
unfoldable pub pref_pton : (List ℕ → Option Addr) → List ℕ → Prefix
pref_pton inet_pton src = elim (split_slash src) [
  | none ↦ record { addr = zero_addr; len = 0 }
  | some (d, s) ↦ record { addr = over (inet_pton d) zero_addr; len = to_int s }
]

-- `link_edge_data_equals`: `memcmp` of sixteen bytes.
unfoldable pub link_edge_data_equals : Link → Link → Bool
link_edge_data_equals l1 l2 = str_equal l1.local l2.local && str_equal l1.remote l2.remote

-- `graph_get_edge_data`, with the comparison of the controller.
unfoldable pub get_edge_data : (ℕ → Link) → Link → List Edge → Option Edge
get_edge_data links l [] = none
get_edge_data links l (e ∷ es) =
    let rest = get_edge_data links l es in
    if link_edge_data_equals (links e.payload) l then some e else rest

-- `mark_graph_dirty`, at a time, in microseconds.
unfoldable pub mark_graph_dirty : ℕ → State → State
mark_graph_dirty now st = record st {
  gs_dirty = if st.graph_staging.dirty then st.gs_dirty else now;
  gs_mod = now;
  graph_staging = record st.graph_staging { dirty = true };
}
