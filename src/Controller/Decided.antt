-- ===== src/Controller/Decided.antt =====
-- What `process_request` decides.
use mathlib.Core.Path.{subst}
use thesis_data.Common.{
  ℕ, ◌≡◌, ◌≢◌, ◌⊎◌, inl, inr, refl, ap, sym, ◌∙◌, Bool, true, false, Option, none, some, List, [],
  ◌∷◌, map, ◌==◌, ok, Returns, arith, Bool-cases, Option-cases, ==→eq,
}
use thesis_data.HashMap.Keys.{str_ops, in6_ops}
use thesis_data.Lpm.{Addr}
use thesis_data.Lpm
use thesis_data.Lpm.Longest.{lookup-IsLongest}
use thesis_data.Rules.{RuleType, rule_none, rule_allow, rule_deny}
use thesis_data.Graph.{Node, Edge, get_node_in}
use thesis_data.Graph.Tables.{lookup, store}
use thesis_data.Graph.Segments.{Segment}
use thesis_data.Graph.Dijkstra.Queue.{Known}
use thesis_data.Graph.Minseg.Pinned.{get_node_in-Known}
use thesis_data.Graph.Minseg.Total.{build_segpath-Returns}
use thesis_data.Graph.Segpath.{build_segpath}
use thesis_data.Controller.{
  Router, Flow, SrcPrefix, Provider, Config, State, RequestStatus, pending, allowed, denied,
  unavailable, error, norouter, noprefix, in6,
}
use thesis_data.Controller.Paths.{pspec_of}
use thesis_data.Controller.Pruned.{pre_prune-Prunes}
use thesis_data.Controller.Requests.{
  Request, Answers, provider_prefix, select_providers, is_allow, is_pending, fill_prefixes, unbind,
  flow_of, commit, bind_flow, route_flow, place_flow, destination_router, row_of, find_destination,
  admit, process_request,
}
use thesis_data.Controller.Bindings.{
  fill_prefixes-BoundBy, fill_prefixes-segs, length-filled, unbind-filled,
  generate_unique_bsid-free,
}
use thesis_data.Controller.Decision.{
  Published, Serves, Routed, no_source, no_destination, no_path, Decision, skipped, forbidden,
  no_memory, unknown, uncovered, unreachable, no_prefixes, not_recorded, admitted, Admissible,
  Targeted, Reaches,
}

not_chosen : (granted : Bool) (cfg : Config) → select_providers granted cfg ≡ none → granted ≡ false
unfolding select_providers
not_chosen true cfg h = absurd cc
not_chosen false cfg h = refl

no_provider :
    (granted : Bool) (cfg : Config) → select_providers granted cfg ≡ some [] → cfg.providers ≡ []
unfolding select_providers
no_provider true cfg h = no_items cfg.providers cc
  where
    no_items : (ps : List Provider) → map provider_prefix ps ≡ [] → ps ≡ []
    no_items [] e = refl
    no_items (p ∷ ps) e = absurd cc
no_provider false cfg h = absurd cc

there_are :
    (granted : Bool) (cfg : Config) (p : SrcPrefix) (ps : List SrcPrefix)
    → select_providers granted cfg ≡ some (p ∷ ps)
    → (granted ≡ true) × (cfg.providers ≢ [])
unfolding select_providers
there_are true cfg p ps h = (refl, λ e. some_items cfg.providers e cc)
  where
    some_items : (qs : List Provider) → qs ≡ [] → map provider_prefix qs ≡ p ∷ ps → ⊥
    some_items [] e h' = absurd cc
    some_items (q ∷ qs) e h' = absurd cc
there_are false cfg p ps h = absurd cc

-- The search for a path ends.
pub built :
    (st : State)
    → Published st
    → (bw delay : ℕ) (src_node dst_node : Node) → Known st.graph.nodes src_node
    → Known st.graph.nodes dst_node
    → Returns
        (build_segpath (pspec_of st.links bw delay src_node dst_node []) st.graph st.finalized)
        λ o. Unit {0}
unfolding pspec_of
built st published bw delay src_node dst_node k k' =
    subst
      (λ f.
        Returns (build_segpath (pspec_of st.links bw delay src_node dst_node []) st.graph f)
          λ o. Unit {0})
      (sym published.computed)
      (build_segpath-Returns (pspec_of st.links bw delay src_node dst_node []) st.graph
        published.cache published.plain published.sound
        (pre_prune-Prunes st.links bw st.graph published.plain) k (k', tt))

module _ (cfg : Config) (ans : Answers) (req : Request) (st : State)
    (serves : Serves cfg ans req st) where
  abbrev Decides : Option RequestStatus × State → Type 0
  Decides (status, st') = Decision cfg ans req serves.rule serves.address st status st'

  commit-Decides :
      (bsid : Addr) (fl : Flow)
      → unbind fl.src_prefixes (store in6_ops (in6 bsid) fl st.flows) ≡ st.flows
      → (ans.row ≡ none → Decides (some error, st))
      → (ans.row ≡ some (row_of ans.row)
          → Decides (some allowed, record st { flows = store in6_ops (in6 bsid) fl st.flows }))
      → Returns (commit ans fl (record st { flows = store in6_ops (in6 bsid) fl st.flows })) Decides
  unfolding commit
  commit-Decides bsid fl back lost f = elim (Option-cases ans.row) [
    | inr (uuid, q) ↦ (
      (some allowed, record st { flows = store in6_ops (in6 bsid) fl st.flows }),
      rw (commit, q) refl,
      f (q ∙ ap (λ r. some (row_of r)) (sym q)),
    )
    | inl q ↦ (
      (some error, st),
      rw (commit, q) (ap (λ t. ok (some error, record st { flows = t })) back),
      lost q,
    )
  ]

  module _ (rt dstrt : Router)
      (targeted : Targeted ans req serves.rule serves.address st rt dstrt) where
    abbrev fl : Flow
    fl = flow_of ans req serves.rule rt dstrt

    bind_flow-Decides :
        (segs : List Segment) (epath : Option (List Edge)) (p : SrcPrefix) (ps : List SrcPrefix)
        → Routed st fl segs
        → select_providers ans.prefixes_granted cfg ≡ some (p ∷ ps)
        → Returns (bind_flow ans rt fl segs epath (p ∷ ps) st) Decides
    unfolding bind_flow flow_of
    bind_flow-Decides segs epath p ps routed chosen =
        let (bsid, run, free) =
          generate_unique_bsid-free ans.random ans.attempts rt st.flows
            (serves.binds rt targeted.source) in
        let fl' : Flow = record fl {
          timestamp = ans.now;
          uuid = row_of ans.row;
          src_prefixes = fill_prefixes bsid segs epath (p ∷ ps);
        } in
        let again : Targeted ans req serves.rule serves.address st fl'.srcrt fl'.dstrt = record {
          admissible = targeted.admissible;
          granted = targeted.granted;
          source = targeted.source;
          target = targeted.target;
        } in
        let (o, run', d) =
          commit-Decides bsid fl' (unbind-filled bsid segs epath p ps fl' st.flows free)
            (λ lost. not_recorded rt dstrt segs targeted routed lost)
            (λ row. admitted bsid fl' again refl (record {
              free = free;
              bound = fill_prefixes-BoundBy bsid segs epath (p ∷ ps);
              serving = refl;
              counted = length-filled bsid segs epath ans.prefixes_granted cfg (p ∷ ps) chosen;
              segs = segs;
              routed = record {
                src_node = routed.src_node;
                dst_node = routed.dst_node;
                from = routed.from;
                to = routed.to;
                epath = routed.epath;
                found = routed.found;
              };
              same = fill_prefixes-segs bsid segs epath (p ∷ ps);
              row = row;
            })) in
        (o, rw (bind_flow, run) run', d)

    route_flow-Decides :
        (src_node dst_node : Node)
        → get_node_in st.graph.nodes rt.node_id ≡ some src_node
        → get_node_in st.graph.nodes dstrt.node_id ≡ some dst_node
        → Returns (route_flow cfg ans serves.rule fl src_node dst_node st) Decides
    unfolding route_flow flow_of select_providers
    route_flow-Decides src_node dst_node from to =
        elim (Option-cases (select_providers ans.prefixes_granted cfg)) [
          | inl q ↦ (
            (some error, st),
            rw (route_flow, q) refl,
            no_prefixes rt dstrt src_node dst_node targeted from to
                (inl (not_chosen ans.prefixes_granted cfg q)),
          )
          | inr ([], q) ↦ (
            (some error, st),
            rw (route_flow, q) refl,
            no_prefixes rt dstrt src_node dst_node targeted from to
                (inr (no_provider ans.prefixes_granted cfg q)),
          )
          | inr (p ∷ ps, q) ↦
              let (r, run, u) =
                built st serves.published fl.bw fl.delay src_node dst_node
                  (get_node_in-Known st.graph.nodes rt.node_id src_node from)
                  (get_node_in-Known st.graph.nodes dstrt.node_id dst_node to) in
              let held = there_are ans.prefixes_granted cfg p ps q in
              elim (Option-cases r) [
                | inl e ↦ (
                  (some unavailable, st),
                  rw (route_flow, q, serves.direct, run, e) refl,
                  unreachable rt dstrt targeted
                      (no_path from to (run ∙ ap (λ x. ok x) e) held.0 held.1),
                )
                | inr ((segs, epath), e) ↦
                    let (o, run', d) =
                      bind_flow-Decides segs epath p ps
                        (record {
                          src_node = src_node;
                          dst_node = dst_node;
                          from = from;
                          to = to;
                          epath = epath;
                          found = run ∙ ap (λ x. ok x) e;
                        })
                        q in
                    (o, rw (route_flow, q, serves.direct, run, e) run', d)
              ]
        ]

    place_flow-Decides : Returns (place_flow cfg ans serves.rule fl st) Decides
    unfolding place_flow flow_of
    place_flow-Decides = elim (Option-cases (get_node_in st.graph.nodes rt.node_id)) [
      | inl e ↦ (
        (some unavailable, st),
        rw (place_flow, e) refl,
        unreachable rt dstrt targeted (no_source e),
      )
      | inr (src_node, e) ↦ elim (Option-cases (get_node_in st.graph.nodes dstrt.node_id)) [
        | inl e' ↦ (
          (some unavailable, st),
          rw (place_flow, e, e') refl,
          unreachable rt dstrt targeted (no_destination e'),
        )
        | inr (dst_node, e') ↦
            let (o, run, d) = route_flow-Decides src_node dst_node e e' in
            (o, rw (place_flow, e, e') run, d)
      ]
    ]

  -- The router of the address, if it has one.
  find_destination-Reaches : Returns (find_destination (ans.inet_pton req.dstaddr) st) λ o.
      ((o ≡ none) × (Lpm.lookup st.prefixes serves.address ≡ ok 0))
      ⊎ ((dstrt : Router) × (o ≡ some dstrt) × Reaches st serves.address dstrt)
  unfolding find_destination destination_router
  find_destination-Reaches =
      let (x, run, found) = lookup-IsLongest st.prefixes serves.address serves.tree in
      elim (Bool-cases (x == 0)) [
        | inl z ↦
            let nothing : x ≡ 0 = ==→eq x 0 z in
            (
              none,
              rw (find_destination, serves.parsed, run, destination_router, z) refl,
              inl (refl, run ∙ ap (λ y. ok y) nothing),
            )
        | inr z ↦ elim found [
          | inr (nothing, no_one) ↦ absurd (ground (arith, z, nothing))
          | inl longest ↦ elim (serves.owned longest.prefix longest.plen x longest.entry) [
            | inl nothing ↦ absurd (ground (arith, z, nothing))
            | inr (dstrt, there) ↦ (
              some dstrt,
              rw (find_destination, serves.parsed, run, destination_router, z, there) refl,
              inr (dstrt, refl, (x, run, there)),
            )
          ]
        ]
      ]

  admit-Decides : Admissible req serves.rule → Returns (admit cfg ans req serves.rule st) Decides
  unfolding admit
  admit-Decides admissible = elim (Bool-cases ans.flow_granted) [
    | inr e ↦ ((some error, st), rw (admit, e) refl, no_memory admissible e)
    | inl e ↦ elim (Option-cases (lookup str_ops req.router st.routers)) [
      | inl p ↦ ((some norouter, st), rw (admit, e, p) refl, unknown admissible e p)
      | inr (rt, p) ↦
          let (o, run, found) = find_destination-Reaches in
          elim found [
            | inl (q, miss) ↦ (
              (some noprefix, st),
              rw (admit, e, p, run, q) refl,
              uncovered rt admissible e p miss,
            )
            | inr (dstrt, q, target) ↦
                let (r, run', d) =
                  place_flow-Decides rt dstrt (record {
                    admissible = admissible;
                    granted = e;
                    source = p;
                    target = target;
                  }) in
                (r, rw (admit, e, p, run, q) run', d)
          ]
    ]
  ]

-- What the two tests of `process_request` say.
pending_cases :
    (s : RequestStatus)
    → ((is_pending s ≡ true) × (s ≡ pending)) ⊎ ((is_pending s ≡ false) × (s ≢ pending))
pending_cases pending = inl (refl, refl)
pending_cases allowed = inr (refl, λ e. cc)
pending_cases denied = inr (refl, λ e. cc)
pending_cases unavailable = inr (refl, λ e. cc)
pending_cases error = inr (refl, λ e. cc)
pending_cases norouter = inr (refl, λ e. cc)
pending_cases noprefix = inr (refl, λ e. cc)

allow_cases :
    (t : RuleType)
    → ((is_allow t ≡ true) × (t ≡ rule_allow)) ⊎ ((is_allow t ≡ false) × (t ≢ rule_allow))
allow_cases rule_none = inr (refl, λ e. cc)
allow_cases rule_allow = inl (refl, refl)
allow_cases rule_deny = inr (refl, λ e. cc)

pub process_request-Decision :
    (cfg : Config) (ans : Answers) (req : Request) (st : State) (serves : Serves cfg ans req st)
    → Returns
        (process_request cfg ans req st)
        λ (status, st'). Decision cfg ans req serves.rule serves.address st status st'
unfolding process_request
process_request-Decision cfg ans req st serves = elim (pending_cases req.status) [
  | inr (e, other) ↦ ((none, st), rw (process_request, e) refl, skipped other)
  | inl (e, waits) ↦ elim (allow_cases serves.rule.type) [
    | inr (f, not_fair) ↦
        ((some denied, st), rw (process_request, e, serves.ruled, f) refl, forbidden waits not_fair)
    | inl (f, fair) ↦
        let (o, run, d) =
          admit-Decides cfg ans req st serves (record { waiting = waits; fair = fair }) in
        (o, rw (process_request, e, serves.ruled, f) run, d)
  ]
]
