-- ===== src/Controller/Renewed.antt =====
-- `recompute_flows` ends.
use thesis_data.Common.{
  ◌≡◌, ◌≢◌, inl, inr, refl, true, false, not, ◌||◌, Option, none, List, [], ◌∷◌, if◌then◌else◌,
  Returns, Bool-cases, Option-cases,
}
use thesis_data.HashMap.Keys.{In6Addr}
use thesis_data.Lpm.{Addr}
use thesis_data.Graph.{Edge, Graph, get_node_in}
use thesis_data.Graph.Minimal.{All}
use thesis_data.Graph.Tables.{Table}
use thesis_data.Graph.Segments.{Segment, compare_segments-label}
use thesis_data.Graph.Minseg.{copy_segments}
use thesis_data.Graph.Minseg.Pinned.{get_node_in-Known}
use thesis_data.Controller.{Flow, SrcPrefix, State, orphan}
use thesis_data.Controller.Flows.{
  path_affected, flow_affected, renew, renew_flow, recompute_flow, recompute_one, recompute_flows,
  set_flow_status,
}
use thesis_data.Controller.Requests.{copied_path}
use thesis_data.Controller.Bindings.{BoundBy, AllBound}
use thesis_data.Controller.Collected.{NotKey, DistinctKeys}
use thesis_data.Controller.Decision.{Published}
use thesis_data.Controller.Decided.{built}

-- Each prefix of the flow has its list of edges, and there is one.
abbrev pub Pathed : Flow → Type 0
Pathed fl = All (λ (p : SrcPrefix). p.epath ≢ none) fl.src_prefixes × (fl.src_prefixes ≢ [])

flow_affected-Returns :
    (g : Graph) (ps : List SrcPrefix)
    → All (λ (p : SrcPrefix). p.epath ≢ none) ps
    → Returns (flow_affected g ps) λ b. Unit {0}
unfolding flow_affected
flow_affected-Returns g [] a = (false, refl, tt)
flow_affected-Returns g (p ∷ ps) (ne, a) = elim (Option-cases p.epath) [
  | inl e ↦ absurd (ne e)
  | inr (es, e) ↦ elim (Bool-cases (path_affected g es)) [
    | inl h ↦ (true, rw (flow_affected, e, h) refl, tt)
    | inr h ↦
        let (b, run, u) = flow_affected-Returns g ps a in (b, rw (flow_affected, e, h) run, tt)
  ]
]

-- The bindings of the prefixes stay.
abbrev Rebound : List SrcPrefix → List SrcPrefix → Type 0
Rebound ps ps' = (b : Addr) → BoundBy b ps → BoundBy b ps'

renew-Returns :
    (segs : List Segment) (epath : Option (List Edge)) (ps : List SrcPrefix)
    → Returns (renew segs epath ps) λ r. Rebound ps r.0
unfolding renew
renew-Returns segs epath [] = (([], false), refl, λ b h. tt)
renew-Returns segs epath (p ∷ ps) =
    let (b, run, says) = compare_segments-label segs p.segs in
    let (r, run', kept) = renew-Returns segs epath ps in
    (
      (record p { segs = copy_segments [] segs; epath = copied_path epath } ∷ r.0, not b || r.1),
      rw (renew, run, run') refl,
      λ b (h, hs). (h, kept b hs),
    )

renew_flow-Returns :
    (segs : List Segment) (epath : Option (List Edge)) (fl : Flow) (ps : List SrcPrefix)
    → fl.src_prefixes ≡ ps
    → ps ≢ []
    → Returns (renew_flow segs epath fl) λ r. Rebound ps r.0.src_prefixes
unfolding renew_flow
renew_flow-Returns segs epath fl [] e ne = absurd (ne refl)
renew_flow-Returns segs epath fl (p ∷ ps) e ne =
    let (b, run, says) = compare_segments-label segs p.segs in
    let ((ps', diff), run', kept) = renew-Returns segs epath ps in
    (
      (record fl { src_prefixes = record p { segs = segs; epath = epath } ∷ ps' }, not b || diff),
      rw (renew_flow, e, run, run') refl,
      λ b (h, hs). (h, kept b hs),
    )

module _ (st : State) (published : Published st) where
  recompute_flow-Returns :
      (fl : Flow)
      → Pathed fl
      → Returns (recompute_flow st fl) λ r. Rebound fl.src_prefixes r.0.src_prefixes
  unfolding recompute_flow
  recompute_flow-Returns fl (a, ne) =
      elim (Option-cases (get_node_in st.graph.nodes fl.srcrt.node_id)) [
        | inl e ↦ ((set_flow_status orphan fl, false), rw (recompute_flow, e) refl, λ b h. h)
        | inr (src_node, e) ↦ elim (Option-cases (get_node_in st.graph.nodes fl.dstrt.node_id)) [
          | inl e' ↦ ((set_flow_status orphan fl, false), rw (recompute_flow, e, e') refl, λ b h. h)
          | inr (dst_node, e') ↦
              let (o, run, u) =
                built st published fl.bw fl.delay src_node dst_node
                  (get_node_in-Known st.graph.nodes fl.srcrt.node_id src_node e)
                  (get_node_in-Known st.graph.nodes fl.dstrt.node_id dst_node e') in
              elim (Option-cases o) [
                | inl q ↦ ((fl, false), rw (recompute_flow, e, e', run, q) refl, λ b h. h)
                | inr ((segs, epath), q) ↦
                    let (r, run', kept) =
                      renew_flow-Returns segs epath fl fl.src_prefixes refl ne in
                    (r, rw (recompute_flow, e, e', run, q) run', kept)
              ]
        ]
      ]

  recompute_one-Returns :
      (fl : Flow)
      → Pathed fl
      → Returns (recompute_one st fl) λ r. Rebound fl.src_prefixes r.0.src_prefixes
  unfolding recompute_one
  recompute_one-Returns fl (a, ne) =
      let (b, run, u) = flow_affected-Returns st.graph fl.src_prefixes a in
      elim (Bool-cases b) [
        | inl e ↦
            let (r, run', kept) = recompute_flow-Returns fl (a, ne) in
            (r, rw (recompute_one, run, e) run', kept)
        | inr e ↦ ((fl, false), rw (recompute_one, run, e) refl, λ b h. h)
      ]

  -- The keys are those of before, and so are the bindings.
  pub recompute_flows-Keys :
      (flows : Table In6Addr Flow)
      → All (λ (e : In6Addr × Flow). Pathed e.1) flows
      → Returns (recompute_flows st flows) λ (tell, flows').
        ((k : In6Addr) → NotKey k flows → NotKey k flows')
        × (DistinctKeys flows → DistinctKeys flows')
        × (AllBound flows → AllBound flows')
  unfolding recompute_flows
  recompute_flows-Keys [] a = (([], []), refl, (λ k n. tt, λ d. tt, λ b. tt))
  recompute_flows-Keys ((k, fl) ∷ flows) (p, a) =
      let ((fl', told), run, again) = recompute_one-Returns fl p in
      let ((tell, flows'), run', (kept, distinct, bound)) = recompute_flows-Keys flows a in
      (
        (if told then fl' ∷ tell else tell, (k, fl') ∷ flows'),
        rw (recompute_flows, run, run') refl,
        (
          λ l (h, n). (h, kept l n),
          λ (n, d). (kept k n, distinct d),
          λ ((b, same, h), rest). ((b, same, again b h), bound rest),
        ),
      )
