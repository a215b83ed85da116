-- ===== src/Controller/Paths.antt =====
-- The callbacks that sdnres-src/sr-ctrl/sr-ctrl.c gives to the search for paths.
use thesis_data.Common.{
  ℕ, ◌+◌, ◌^◌, ◌%◌, Bool, Option, none, some, List, [], ◌∷◌, ltb, ◌==◌, if◌then◌else◌, Outcome, ok,
  fault, indeterminate,
}
use thesis_data.Graph.{Node, Edge, Graph, max_metric, prune}
use thesis_data.Graph.Dijkstra.{DOps, no_ops, put, initial_dist}
use thesis_data.Graph.Segpath.{PathSpec}
use thesis_data.Controller.{Link}

-- `prune_bw`
unfoldable pub prune_bw : (ℕ → Link) → ℕ → Edge → Bool
prune_bw links bw e = ltb (links e.payload).ava_bw bw

-- `pre_prune`, for the bandwidth of a flow.
unfoldable pub pre_prune : (ℕ → Link) → ℕ → Graph → Graph
pre_prune links bw g = if bw == 0 then g else (prune g (prune_bw links bw)).1

-- `delay_below_cost`: the state has the delays of the ids.
unfoldable pub delay_below_cost : (ℕ → Link) → ℕ → ℕ → Edge → (ℕ → ℕ) → ℕ
delay_below_cost links delay cur_cost e dist =
    if ltb delay ((dist e.local.id + (links e.payload).delay) % 2 ^ 32)
    then max_metric
    else (cur_cost + e.metric) % 2 ^ 32

-- `delay_update`
unfoldable pub delay_update : (ℕ → Link) → Edge → (ℕ → ℕ) → ℕ → ℕ
delay_update links e dist =
    put e.remote.id ((dist e.local.id + (links e.payload).delay) % 2 ^ 32) dist

-- `delay_below_ops`, for the delay of a flow.
abbrev pub delay_below_ops : (ℕ → Link) → ℕ → DOps (ℕ → ℕ)
delay_below_ops links delay = record {
  cost = some (delay_below_cost links delay);
  update = some (delay_update links);
}

-- `delay_init`: the same table as that of the costs.
abbrev pub delay_init : Graph → Node → ℕ → ℕ
delay_init g src = initial_dist src g.nodes

-- `delay_min_cost`
unfoldable pub delay_min_cost : (ℕ → Link) → ℕ → Edge → Unit {0} → ℕ
delay_min_cost links cur_cost e state = (cur_cost + (links e.payload).delay) % 2 ^ 32

-- `delay_min_ops`
abbrev pub delay_min_ops : (ℕ → Link) → DOps (Unit {0})
delay_min_ops links = record { cost = some (delay_min_cost links); update = none }

-- `pspec` of a flow with a bandwidth and a delay, between two nodes.
unfoldable pub pspec_of : (ℕ → Link) → ℕ → ℕ → Node → Node → List Node → PathSpec (Unit {0})
pspec_of links bw delay src dst via = record {
  src = src;
  dst = dst;
  via = via;
  prune = some (pre_prune links bw);
  d_ops = if delay == 0 then no_ops else delay_min_ops links;
  init = λ n. tt;
}

-- `rule->path` as `via`: a string that is read as a node is a fault.
unfoldable pub via_of : Option (List (List ℕ)) → Outcome (List Node)
via_of none = ok []
via_of (some []) = ok []
via_of (some (s ∷ path)) = fault indeterminate
