-- ===== src/Controller/Tests.antt =====
-- The theorems of the controller at a network of two routers and one link.
use mathlib.Core.Path.{subst}
use thesis_data.Common.{
  ℕ, length, ◌>>=◌, ◌+◌, ◌≡◌, inl, inr, refl, sym, ◌∙◌, Bool, true, false, Option, some, List, [],
  ◌∷◌, ok, Returns, arith,
}
use thesis_data.HashMap.Keys.{str_equal}
use thesis_data.Misc.{strsplit, remove_trail, pieces, count, before, trim_from}
use thesis_data.Lpm.{
  insert, is_exact, match_node, same_bits, bit, byte_at, enters, is_within, match_child, insert_at,
  replace_child,
}
use thesis_data.Rules.{to_int, signed, digits_from}
use thesis_data.Graph.{
  Node, add_node, add_edge, add_one_edge, get_node_in, exist_node, remove_edge, remove_item,
}
use thesis_data.Graph.Tables.{lookup, store}
use thesis_data.Graph.Dijkstra.{put}
use thesis_data.Graph.Copies.{Copying, deepcopy, copy_nodes, copy_edges, copy_edge, get_node}
use thesis_data.Graph.Minseg.{build_cache_from, build_cache_one}
use thesis_data.Lpm.Updated.{Continues}
use thesis_data.Controller.{
  link_edge_data_equals, State, mark_graph_dirty, get_edge_data, pref_pton, split_slash, over,
}
use thesis_data.Controller.Netstate.{
  Fields, nodestate_read, add_prefixes, add_router, read_pbsid, linkstate_read, link_of, add_link,
  add_edges, linkstate_update, write_edges, swap_graph, clear_dirty, copy_links, linkstate_delete,
  remove_link, write_link,
}
use thesis_data.Controller.Events.{
  Event, link_changed, link_went, Monitor, monitored, getmsdiff, handle, run,
}
use thesis_data.Controller.Staged.{NewRouter}
use thesis_data.Controller.Linked.{Readable}
use thesis_data.Controller.Synced.{Places}
use thesis_data.Controller.Runs.{Permits, Permitted, run-initial-IsSound}
use thesis_data.Controller.Sound.{IsSound}
use thesis_data.Controller.Samples.{
  world, no_link, start, entry_a, entry_b, link_ab, came_a, came_b, came_ab, after_a, after_b,
  there_link, back_link, after_ab,
}

step_a : handle came_a start ≡ ok after_a
unfolding handle nodestate_read lookup strsplit remove_trail pieces count add_prefixes before
    add_router add_node store mark_graph_dirty read_pbsid pref_pton split_slash over to_int signed
    digits_from
step_a = refl

step_b : handle came_b after_a ≡ ok after_b
unfolding handle nodestate_read lookup strsplit remove_trail pieces count add_prefixes before
    add_router add_node store mark_graph_dirty str_equal trim_from insert is_exact match_node
    same_bits bit byte_at enters is_within match_child insert_at replace_child read_pbsid pref_pton
    split_slash over to_int signed digits_from
step_b = refl

step_ab : handle came_ab after_b ≡ ok after_ab
unfolding handle linkstate_read lookup str_equal link_of add_link get_edge_data get_node_in
    mark_graph_dirty add_edges add_edge add_one_edge
step_ab = refl

abbrev fields : Fields
fields = record { metric = false; bw = true; ava_bw = false; delay = false }

-- `linkstate_update` of the bandwidth leaves the link back as it was.
half_updated :
    handle (link_changed world fields (record link_ab { bw = 50 })) after_ab
    ≡ ok (record after_ab {
      links =
          put 500
            (record there_link { bw = 50 })
            (put 501 back_link (put 500 there_link (λ p. no_link)));
    })
unfolding handle linkstate_update link_of get_edge_data str_equal write_edges write_link
    mark_graph_dirty link_edge_data_equals
half_updated = refl

permit :
    (e : Event) (es : List Event) (st s : State)
    → handle e st ≡ ok s
    → Permits e st
    → Permitted es s
    → Permitted (e ∷ es) st
permit e es st s step p later = (
  p,
  λ st' h.
      let ran : ok s ≡ ok st' = sym step ∙ h in
      let same : s ≡ st' = cc in subst (Permitted es) same later,
)

new_a : NewRouter world entry_a start 300 400
unfolding strsplit remove_trail pieces count before exist_node
new_a = record { vargs = [] ∷ []; split = refl; fit = tt; apart = λ n e. refl; left = omega arith }

start-Continues : Continues (1 ∷ []) 8 301 start.prefixes
start-Continues q k (inl (same, len)) agree lt = absurd (omega (arith, len, lt))
start-Continues q k (inr (inl h)) agree lt = absurd h
start-Continues q k (inr (inr h)) agree lt = absurd h

new_b : NewRouter world entry_b after_a 301 401
unfolding strsplit remove_trail pieces count before exist_node trim_from pref_pton split_slash over
    to_int signed digits_from
new_b = record {
  vargs = (1 ∷ 47 ∷ 56 ∷ []) ∷ [];
  split = refl;
  fit = (omega arith, start-Continues, λ t' e. tt);
  apart = λ n e. ground (arith, e);
  left = omega arith;
}

ab-Readable : Readable world link_ab
ab-Readable = record {
  local = 20 ∷ [];
  remote = 21 ∷ [];
  parsed1 = refl;
  parsed2 = refl;
  word = omega arith;
}

abbrev pub copying : Copying
copying = record {
  node_addr = λ n. 1000 + n.addr;
  edge_addr = λ e. 1000 + e.addr;
  node_data_copy = λ p. p;
  edge_data_copy = λ p. 1000 + p;
}

abbrev pub granted : Option (Copying × (Node → Bool))
granted = some (copying, λ n. true)

pub copying-Places :
    (ops : Copying) (cached : Node → Bool)
    → granted ≡ some (ops, cached)
    → Places ops after_ab.graph_staging.edges
copying-Places ops cached e =
    let same : copying ≡ ops = cc in
    subst (λ (o : Copying). Places o after_ab.graph_staging.edges) same
      (record {
        nodes = λ n m h. omega (arith, h);
        links = λ p q h. omega (arith, h);
        fresh = λ p. ((λ h. omega (arith, h)), ((λ h. omega (arith, h)), tt));
      })

-- The edges of the published and of the staging graph, and whether the latter is dirty.
abbrev edges_of : State → ℕ × ℕ × Bool
edges_of st = (length st.graph.edges, length st.graph_staging.edges, st.graph_staging.dirty)

-- `linkstate_delete` between the two parts of `netstate_graph_sync` is not published, and leaves
-- nothing dirty.
lost_update :
    (swap_graph copying (λ n. false) after_ab >>= λ st. handle (link_went world link_ab) st)
      >>= (λ st. ok (edges_of (clear_dirty st)))
    ≡ ok (2, 0, false)
unfolding swap_graph clear_dirty handle deepcopy copy_nodes copy_edges copy_edge get_node
    get_node_in build_cache_from build_cache_one copy_links linkstate_delete link_of remove_link
    get_edge_data link_edge_data_equals str_equal remove_edge remove_item mark_graph_dirty
lost_update = refl

-- A clock that was read a microsecond before the last change.
early_clock : getmsdiff 20000 20001 ≡ 4294967295
unfolding getmsdiff
early_clock = refl

-- A turn of the loop that finds the staging graph changed more than 5 milliseconds ago.
abbrev monitor : Monitor
monitor = record {
  now = 20000;
  gc_time = 0;
  seconds = 0;
  list_granted = true;
  copy_granted = granted;
}

abbrev turns : List Event
turns = came_a ∷ came_b ∷ came_ab ∷ monitored monitor ∷ []

turns-Permitted : Permitted turns start
turns-Permitted =
    permit came_a (came_b ∷ came_ab ∷ monitored monitor ∷ []) start after_a step_a new_a (
      permit came_b (came_ab ∷ monitored monitor ∷ []) after_a after_b step_b new_b (
        permit came_ab (monitored monitor ∷ []) after_b after_ab step_ab ab-Readable
          ((copying-Places, tt), λ st' h. tt)))

run-initial-IsSound_example : Returns (run turns start) IsSound
run-initial-IsSound_example = run-initial-IsSound turns (λ p. no_link) turns-Permitted
