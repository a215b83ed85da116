-- ===== src/Controller/Pruned.antt =====
-- `pre_prune` leaves a graph on which `graph_dijkstra` ends.
use thesis_data.Common.{ℕ, ◌≡◌, inl, inr, refl, some, Bool, List, [], ◌∷◌, ◌==◌, Bool-cases}
use thesis_data.Graph.{Edge, Graph, prune}
use thesis_data.Graph.Minimal.{All}
use thesis_data.Graph.Pruning.{spared, prune_from-spared}
use thesis_data.Graph.Copies.{clone}
use thesis_data.Graph.Dijkstra.Plain.{IsPlain}
use thesis_data.Graph.Minseg.Total.{Prunes}
use thesis_data.Controller.{Link}
use thesis_data.Controller.Paths.{prune_bw, pre_prune}

All-spared :
    (P : Edge → Type 0) (test : Edge → Bool) (es : List Edge) → All P es → All P (spared test es)
All-spared P test [] a = tt
All-spared P test (e ∷ es) (p, a) = elim (Bool-cases (test e)) [
  | inl h ↦ rw h (All-spared P test es a)
  | inr h ↦ rw h (p, All-spared P test es a)
]

prune-edges :
    (g : Graph) (test : Edge → Bool) → (prune g test).1 ≡ record g { edges = spared test g.edges }
unfolding prune
prune-edges g test = rw ((prune_from-spared test g.edges).0) refl

spared-IsPlain :
    (g : Graph) (test : Edge → Bool)
    → IsPlain g
    → IsPlain (record g { edges = spared test g.edges })
spared-IsPlain g test plain = record {
  ids = plain.ids;
  addrs = plain.addrs;
  ends = All-spared _ test g.edges plain.ends;
  metrics = All-spared _ test g.edges plain.metrics;
}

clone-IsPlain : (g : Graph) → IsPlain g → IsPlain (clone g)
clone-IsPlain g plain = record {
  ids = plain.ids;
  addrs = plain.addrs;
  ends = plain.ends;
  metrics = plain.metrics;
}

pub pre_prune-Prunes :
    (links : ℕ → Link) (bw : ℕ) (g : Graph) → IsPlain g → Prunes (some (pre_prune links bw)) g
unfolding pre_prune
pre_prune-Prunes links bw g plain = elim (Bool-cases (bw == 0)) [
  | inl h ↦ rw (pre_prune, h) (refl, clone-IsPlain g plain)
  | inr h ↦
      rw (pre_prune, h, prune-edges (clone g) (prune_bw links bw))
        (refl, spared-IsPlain (clone g) (prune_bw links bw) (clone-IsPlain g plain))
]
