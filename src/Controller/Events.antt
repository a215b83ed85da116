-- ===== src/Controller/Events.antt =====
-- The turns of the threads of sdnres-src/sr-ctrl/sr-ctrl.c: `launch_srdb` has the handlers called,
-- `thread_worker` takes requests, and `thread_netmon` synchronizes the graph and looks after the
-- flows. The state is handed from one to the next.
use thesis_data.Common.{
  ℕ, ◌+◌, ◌-◌, ◌/◌, ◌%◌, ◌^◌, ◌&&◌, ◌||◌, ltb, if◌then◌else◌, Bool, Option, some, List, [], ◌∷◌,
  Outcome, ok, ◌>>=◌,
}
use thesis_data.Lpm
use thesis_data.Graph
use thesis_data.Graph.{Node}
use thesis_data.Graph.Copies.{Copying}
use thesis_data.Graph.Minseg.{finalize}
use thesis_data.Controller.{Link, Config, State}
use thesis_data.Controller.Netstate.{
  World, NodeState, LinkState, LinkPlaces, Fields, nodestate_read, linkstate_read, linkstate_update,
  linkstate_delete, netstate_graph_sync,
}
use thesis_data.Controller.Requests.{Request, Answers, process_request}
use thesis_data.Controller.Flows.{gc_flows, recompute_flows}

-- What a turn of `thread_netmon` is given: its clock and the time of the last collection, the
-- time in seconds, and what memory answers to `gc_flows` and to
-- `netstate_graph_sync`.
pub record Monitor : Type 0 where
  pub now : ℕ
  pub gc_time : ℕ
  pub seconds : ℕ
  pub list_granted : Bool
  pub copy_granted : Option (Copying × (Node → Bool))

-- `getmsdiff`, of two times in microseconds: `timersub` rounds the seconds down, and an earlier
-- first time gives a negative number, which wraps.
unfoldable pub getmsdiff : ℕ → ℕ → ℕ
getmsdiff t1 t2 =
    if ltb t1 t2
    then (2 ^ 32 - (t2 - t1 + 999) / 1000 % 2 ^ 32) % 2 ^ 32
    else (t1 - t2) / 1000 % 2 ^ 32

-- The part of a turn for the flows; the time of the last collection stands beside the state.
unfoldable pub collect_turn : Monitor → State → ℕ × State
collect_turn m st =
    if ltb 1000 (getmsdiff m.now m.gc_time)
    then (m.now, record st { flows = (gc_flows m.list_granted m.seconds st.flows).1 })
    else (m.gc_time, st)

-- The test on the two times of the staging graph, GSYNC_SOFT_TIMEOUT and GSYNC_HARD_TIMEOUT.
unfoldable pub is_due : Monitor → State → Bool
is_due m st =
    st.graph_staging.dirty
    && (ltb 5 (getmsdiff m.now st.gs_mod) || ltb 50 (getmsdiff m.now st.gs_dirty))

-- The calls of `netstate_graph_sync` and, unless it fails, of `recompute_flows`.
unfoldable pub sync_turn : Monitor → State → Outcome State
sync_turn m st = netstate_graph_sync m.copy_granted st >>= λ (done, st').
    let next = recompute_flows st' st'.flows >>= λ r. ok (record st' { flows = r.1 }) in
    if done then next else ok st'

-- A turn of the loop of `thread_netmon`.
unfoldable pub netmon_turn : Monitor → State → Outcome (ℕ × State)
netmon_turn m st =
    let r = collect_turn m st in
    let synced = sync_turn m r.1 >>= λ st'. ok (r.0, st') in if is_due m r.1 then synced else ok r

-- A turn, with what it is given by its surroundings.
pub data Event : Type 0 where
  node_came : World → Option ℕ → ℕ → NodeState → Event
  link_came : World → Option LinkPlaces → LinkState → Event
  link_changed : World → Fields → LinkState → Event
  link_went : World → LinkState → Event
  requested : Config → Answers → Request → Event
  monitored : Monitor → Event

-- A turn, without what it answers.
unfoldable pub handle : Event → State → Outcome State
handle (node_came w rt_addr node_addr entry) st =
    nodestate_read w rt_addr (some node_addr) entry st >>= λ r. ok r.1
handle (link_came w places entry) st = linkstate_read w places entry st >>= λ r. ok r.1
handle (link_changed w f entry) st = linkstate_update w f entry st >>= λ r. ok r.1
handle (link_went w entry) st = linkstate_delete w entry st >>= λ r. ok r.1
handle (requested cfg ans req) st = process_request cfg ans req st >>= λ r. ok r.1
handle (monitored m) st = netmon_turn m st >>= λ r. ok r.1

-- The turns, one behind the other.
unfoldable pub run : List Event → State → Outcome State
run [] st = ok st
run (e ∷ es) st = handle e st >>= λ st'. run es st'

-- The state after `init_netstate`, where the links hold what they may.
abbrev pub initial : (ℕ → Link) → State
initial links = record {
  graph = Graph.new;
  finalized = finalize Graph.new;
  graph_staging = Graph.new;
  gs_mod = 0;
  gs_dirty = 0;
  routers = [];
  prefixes = Lpm.new;
  links = links;
  flows = [];
}
