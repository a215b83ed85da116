-- ===== src/Controller/Runs.antt =====
-- What holds of the controller after any sequence of turns.
use thesis_data.Common.{
  ltb, ℕ, ◌≡◌, inl, inr, refl, ap, Bool, true, false, none, some, List, [], ◌∷◌, Outcome, ok, ◌>>=◌,
  Returns, Bool-cases,
}
use thesis_data.HashMap.Keys.{In6Addr, str_ops}
use thesis_data.Lpm.{Addr}
use thesis_data.Rules.{Rule}
use thesis_data.Graph
use thesis_data.Graph.{Node}
use thesis_data.Graph.Minimal.{All}
use thesis_data.Graph.Tables.{Table, lookup}
use thesis_data.Graph.Minseg.Cached.{finalize-IsSound}
use thesis_data.Graph.Copies.{Copying}
use thesis_data.Controller.{Router, Link, Flow, Config, State}
use thesis_data.Controller.Paths.{via_of}
use thesis_data.Controller.Netstate.{
  nodestate_read, linkstate_read, linkstate_update, linkstate_delete,
}
use thesis_data.Controller.Requests.{Request, Answers, rule_of, process_request}
use thesis_data.Controller.Flows.{gc_flows}
use thesis_data.Controller.Bindings.{Binds, AllBound}
use thesis_data.Controller.Decision.{Serves}
use thesis_data.Controller.Decided.{process_request-Decision}
use thesis_data.Controller.Collected.{DistinctKeys, gc_flows-parts}
use thesis_data.Controller.Staged.{NewRouter, nodestate_read-Kept}
use thesis_data.Controller.Linked.{
  Readable, linkstate_read-Kept, linkstate_update-Kept, linkstate_delete-Kept,
}
use thesis_data.Controller.Synced.{Places, netstate_graph_sync-Syncs}
use thesis_data.Controller.Renewed.{Pathed, recompute_flows-Keys}
use thesis_data.Controller.Sound.{
  IsSound, DistinctKeys-stays, with_flows, Kept-IsSound, Decision-IsSound, All-stays,
}
use thesis_data.Controller.Events.{
  Monitor, getmsdiff, collect_turn, is_due, sync_turn, netmon_turn, Event, node_came, link_came,
  link_changed, link_went, requested, monitored, handle, run, initial,
}

-- What a request needs that is not in the invariant.
pub record Asks (cfg : Config) (ans : Answers) (req : Request) (st : State) : Type 0 where
  pub rule : Rule
  pub ruled : rule_of cfg req ≡ ok rule
  pub direct : via_of rule.path ≡ ok []
  pub address : Addr
  pub parsed : ans.inet_pton req.dstaddr ≡ some address
  pub binds :
      (rt : Router)
      → lookup str_ops req.router st.routers ≡ some rt
      → Binds ans.random ans.attempts rt st.flows

abbrev pub AllPathed : Table In6Addr Flow → Type 0
AllPathed flows = All (λ (e : In6Addr × Flow). Pathed e.1) flows

-- What a turn needs of its surroundings.
abbrev pub Permits : Event → State → Type 0
Permits (node_came w none node_addr entry) st = Unit
Permits (node_came w (some rt) node_addr entry) st = NewRouter w entry st rt node_addr
Permits (link_came w places entry) st = Readable w entry
Permits (link_changed w f entry) st = Readable w entry
Permits (link_went w entry) st = Readable w entry
Permits (requested cfg ans req) st = Asks cfg ans req st
Permits (monitored m) st =
    ((ops : Copying) (cached : Node → Bool)
      → m.copy_granted ≡ some (ops, cached)
      → Places ops st.graph_staging.edges)
    × AllPathed st.flows

abbrev pub Permitted : List Event → State → Type 0
Permitted [] st = Unit
Permitted (e ∷ es) st = Permits e st × ((st' : State) → handle e st ≡ ok st' → Permitted es st')

-- A turn that ends in a result of which a property holds.
bound :
    {A : Type 0} {P : A → Type 0} {Q : State → Type 0} (m : Outcome A) (f : A → State)
    → Returns m P
    → ((a : A) → P a → Q (f a))
    → Returns (m >>= λ a. ok (f a)) Q
bound m f (a, e, p) g = (f a, ap (λ x. x >>= λ y. ok (f y)) e, g a p)

asked-Serves :
    (cfg : Config) (ans : Answers) (req : Request) (st : State)
    → IsSound st
    → Asks cfg ans req st
    → Serves cfg ans req st
asked-Serves cfg ans req st sound asks = record {
  rule = asks.rule;
  ruled = asks.ruled;
  direct = asks.direct;
  address = asks.address;
  parsed = asks.parsed;
  tree = sound.staged.tree;
  owned = sound.staged.owned;
  published = sound.published;
  binds = asks.binds;
}

gc_flows-keeps :
    (granted : Bool) (now : ℕ) (flows : Table In6Addr Flow)
    → DistinctKeys flows
    → AllPathed flows
    → AllBound flows
    → DistinctKeys (gc_flows granted now flows).1
      × AllPathed (gc_flows granted now flows).1
      × AllBound (gc_flows granted now flows).1
unfolding gc_flows
gc_flows-keeps false now flows d a b = (d, a, b)
gc_flows-keeps true now flows d a b =
    rw (ap (λ r. r.1) (gc_flows-parts now flows d))
      (DistinctKeys-stays now flows d, All-stays _ now flows a, All-stays _ now flows b)

collect_turn-keeps :
    (m : Monitor) (st : State)
    → IsSound st
    → AllPathed st.flows
    → IsSound (collect_turn m st).1 × AllPathed (collect_turn m st).1.flows
unfolding collect_turn
collect_turn-keeps m st sound a = elim (Bool-cases (ltb 1000 (getmsdiff m.now m.gc_time))) [
  | inr e ↦ rw (collect_turn, e) (sound, a)
  | inl e ↦
      let (d, a', b) =
        gc_flows-keeps m.list_granted m.seconds st.flows sound.distinct a sound.bound in
      rw (collect_turn, e)
        (with_flows st (gc_flows m.list_granted m.seconds st.flows).1 sound d b, a')
]

collect_turn-staging :
    (m : Monitor) (st : State) → (collect_turn m st).1.graph_staging.edges ≡ st.graph_staging.edges
unfolding collect_turn
collect_turn-staging m st = elim (Bool-cases (ltb 1000 (getmsdiff m.now m.gc_time))) [
  | inr e ↦ rw (collect_turn, e) refl
  | inl e ↦ rw (collect_turn, e) refl
]

sync_turn-IsSound :
    (m : Monitor) (st : State)
    → IsSound st
    → ((ops : Copying) (cached : Node → Bool)
        → m.copy_granted ≡ some (ops, cached)
        → Places ops st.graph_staging.edges)
    → AllPathed st.flows
    → Returns (sync_turn m st) IsSound
unfolding sync_turn
sync_turn-IsSound m st sound places a =
    let ((done, st'), run, syncs) =
      netstate_graph_sync-Syncs m.copy_granted st places sound.staged sound.published in
    let sound' : IsSound st' = record {
      staged = syncs.staged;
      published = syncs.published;
      distinct = rw syncs.flows sound.distinct;
      bound = rw syncs.flows sound.bound;
    } in
    elim (Bool-cases done) [
      | inr e ↦ (st', rw (sync_turn, run, e) refl, sound')
      | inl e ↦
          let pathed : AllPathed st'.flows = rw syncs.flows a in
          let ((tell, flows), run', (kept, distinct, bound)) =
            recompute_flows-Keys st' syncs.published st'.flows pathed in
          (
            record st' { flows = flows },
            rw (sync_turn, run, e, run') refl,
            with_flows st' flows sound' (distinct sound'.distinct) (bound sound'.bound),
          )
    ]

netmon_turn-IsSound :
    (m : Monitor) (st : State)
    → IsSound st
    → ((ops : Copying) (cached : Node → Bool)
        → m.copy_granted ≡ some (ops, cached)
        → Places ops st.graph_staging.edges)
    → AllPathed st.flows
    → Returns (netmon_turn m st) λ r. IsSound r.1
unfolding netmon_turn
netmon_turn-IsSound m st sound places a =
    let (sound', a') = collect_turn-keeps m st sound a in
    let st1 : State = (collect_turn m st).1 in
    let places' : (ops : Copying) (cached : Node → Bool)
        → m.copy_granted ≡ some (ops, cached)
        → Places ops st1.graph_staging.edges =
      λ ops cached e. rw (collect_turn-staging m st) (places ops cached e) in
    elim (Bool-cases (is_due m st1)) [
      | inr e ↦ (collect_turn m st, rw (netmon_turn, e) refl, sound')
      | inl e ↦
          let (st', run, sound'') = sync_turn-IsSound m st1 sound' places' a' in
          (((collect_turn m st).0, st'), rw (netmon_turn, e, run) refl, sound'')
    ]

handle-IsSound :
    (e : Event) (st : State) → IsSound st → Permits e st → Returns (handle e st) IsSound
unfolding handle
handle-IsSound (node_came w none node_addr entry) st sound p =
    bound (nodestate_read w none (some node_addr) entry st) (λ r. r.1)
      (nodestate_read-Kept w none 0 node_addr entry st sound.staged (inl refl))
      (λ (b, st') kept. Kept-IsSound st b st' sound kept)
handle-IsSound (node_came w (some rt) node_addr entry) st sound p =
    bound (nodestate_read w (some rt) (some node_addr) entry st) (λ r. r.1)
      (nodestate_read-Kept w (some rt) rt node_addr entry st sound.staged (inr (refl, p)))
      (λ (b, st') kept. Kept-IsSound st b st' sound kept)
handle-IsSound (link_came w places entry) st sound p =
    bound (linkstate_read w places entry st) (λ r. r.1)
      (linkstate_read-Kept w entry p st sound.staged places)
      (λ (b, st') kept. Kept-IsSound st b st' sound kept)
handle-IsSound (link_changed w f entry) st sound p =
    bound (linkstate_update w f entry st) (λ r. r.1)
      (linkstate_update-Kept w entry p st sound.staged f)
      (λ (b, st') kept. Kept-IsSound st b st' sound kept)
handle-IsSound (link_went w entry) st sound p =
    bound (linkstate_delete w entry st) (λ r. r.1) (linkstate_delete-Kept w entry p st sound.staged)
      (λ (b, st') kept. Kept-IsSound st b st' sound kept)
handle-IsSound (requested cfg ans req) st sound p =
    let serves : Serves cfg ans req st = asked-Serves cfg ans req st sound p in
    bound (process_request cfg ans req st) (λ r. r.1)
      (process_request-Decision cfg ans req st serves)
      (λ (status, st') d.
        Decision-IsSound cfg ans req serves.rule serves.address st status st' sound d)
handle-IsSound (monitored m) st sound (places, a) =
    bound (netmon_turn m st) (λ r. r.1) (netmon_turn-IsSound m st sound places a) (λ r kept. kept)

run-IsSound :
    (es : List Event) (st : State) → IsSound st → Permitted es st → Returns (run es st) IsSound
unfolding run
run-IsSound [] st sound p = (st, refl, sound)
run-IsSound (e ∷ es) st sound (p, later) =
    let (st', step, sound') = handle-IsSound e st sound p in
    let (st'', rest, sound'') = run-IsSound es st' sound' (later st' step) in
    (st'', rw (run, step) rest, sound'')

initial-IsSound : (links : ℕ → Link) → IsSound (initial links)
unfolding lookup
initial-IsSound links = record {
  staged = record {
    plain = record { ids = tt; addrs = tt; ends = tt; metrics = tt };
    numbered = tt;
    homes = λ name rt h. absurd cc;
    tree = (refl, tt, tt);
    owned = λ q k x h. elim h [
      | inl (e, p, n) ↦ inl cc
      | inr h' ↦ elim h' [ inl n ↦ absurd n | inr n ↦ absurd n ]
    ];
  };
  published = record {
    plain = record { ids = tt; addrs = tt; ends = tt; metrics = tt };
    cache = [];
    computed = refl;
    sound = finalize-IsSound Graph.new;
  };
  distinct = tt;
  bound = tt;
}

-- From the state after `init_netstate`, and as long as each turn is given what it needs, any
-- sequence of turns of the handlers, of `process_request` and of the loop of `thread_netmon`, with
-- `gc_flows`, `netstate_graph_sync` and `recompute_flows`, ends without a fault, in a state where
-- the staging graph has a node for each router, and is one on which `graph_dijkstra` ends, the tree
-- of prefixes is well formed and leads to routers, the published graph is one on which
-- `graph_dijkstra` ends, with tables and a cache of its own, the keys of the table of flows are
-- distinct, and each flow stands at the address that its prefixes are bound by.
pub run-initial-IsSound :
    (es : List Event) (links : ℕ → Link)
    → Permitted es (initial links)
    → Returns (run es (initial links)) IsSound
run-initial-IsSound es links p = run-IsSound es (initial links) (initial-IsSound links) p
