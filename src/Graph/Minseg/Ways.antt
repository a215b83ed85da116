-- ===== src/Graph/Minseg/Ways.antt =====
-- The only way of shortest paths into a node, in terms of the edges of the graph: what a list with
-- one predecessor, which `graph_minseg` looks at, says.
use thesis_data.Common.{
  ℕ, ◌+◌, ◌<◌, ◌≡◌, inl, inr, refl, sym, List, [], ◌∷◌, ◌==◌, ok, arith, Bool-cases, ==→eq,
}
use thesis_data.Graph.{Node, Edge, Graph, max_metric, exist_node}
use thesis_data.Graph.Minimal.{All, Any}
use thesis_data.Graph.Dijkstra.Queue.{Known}
use thesis_data.Graph.Dijkstra.Plain.{names}
use thesis_data.Graph.Dijkstra.Tidy.{IsTidy, tidy-IsPlain}
use thesis_data.Graph.Dijkstra.Shortest.{dijkstra-Shortest}
use thesis_data.Graph.Dijkstra.Shortest
use thesis_data.Graph.Minseg.{Dres, finalize, from_node}
use thesis_data.Graph.Minseg.Pinned.{preds, Only}

-- Shortest paths from a node lead into another by an edge from a third, and by no edge from any
-- other node, except by one of metric 0.
pub record OnlyWay (g : Graph) (r i ii : Node) : Type 0 where
  pub costs : Dres
  pub search : from_node (finalize g) r ≡ ok costs
  pub least : Shortest.Shortest g r costs
  pub taken :
      Any
        (λ e. (e.local ≡ i) × (e.remote ≡ ii) × (costs.dist ii.id ≡ costs.dist i.id + e.metric))
        g.edges
  pub no_other :
      (e : Edge)
      → Any (λ x. x ≡ e) g.edges
      → e.remote ≡ ii
      → 0 < e.metric
      → costs.dist ii.id < max_metric
      → costs.dist ii.id ≡ costs.dist e.local.id + e.metric
      → e.local ≡ i

module _ (g : Graph) (top : ℕ) (tidy : IsTidy g top) where
  abbrev Leads : Dres → Node → Node → Type 0
  Leads s ii p =
      Any (λ e. (e.local ≡ p) × (e.remote ≡ ii) × (s.dist ii.id ≡ s.dist p.id + e.metric)) g.edges

  local-Known : (s : Dres) (ii p : Node) → Leads s ii p → Known g.nodes p
  local-Known s ii p h = found g.edges h tidy.ends
    where
      found :
          (es : List Edge)
          → Any (λ e. (e.local ≡ p) × (e.remote ≡ ii) × (s.dist ii.id ≡ s.dist p.id + e.metric)) es
          → All (λ e. Known g.nodes e.local × Known g.nodes e.remote) es
          → Known g.nodes p
      found [] a k = absurd a
      found (e ∷ es) (inl (q, b, c)) ((k, k'), ks) = rw (sym q) k
      found (e ∷ es) (inr a) (k, ks) = found es a ks

  -- The one node of a list.
  one_node :
      (s : Dres) (ii i : Node) (ps : List Node)
      → Known g.nodes i
      → All (Leads s ii) ps
      → Only ps i
      → ps ≡ i ∷ []
  unfolding exist_node
  one_node s ii i [] k a (one, h) = absurd (omega (arith, one))
  one_node s ii i (p ∷ []) k (l, a) (one, h) = elim (Bool-cases (p.addr == i.addr)) [
    | inl q ↦
        let same : p ≡ i =
          (names g (tidy-IsPlain g top tidy)).by_addr p i (local-Known s ii p l) k
            (==→eq p.addr i.addr q) in
        rw same refl
    | inr q ↦ absurd (ground (arith, h, q))
  ]
  one_node s ii i (p ∷ q ∷ ps) k a (one, h) = absurd (omega (arith, one))

  -- A single predecessor is the only way.
  pub Only-OnlyWay :
      (r i ii : Node)
      → Known g.nodes r
      → Known g.nodes i
      → Known g.nodes ii
      → Only (preds (finalize g) r ii) i
      → OnlyWay g r i ii
  unfolding preds
  Only-OnlyWay r i ii k k' k'' only =
      let (s, run, shortest) = dijkstra-Shortest g top r tidy k in
      let listed : preds (finalize g) r ii ≡ s.prev ii.id = rw (preds, run) refl in
      let only' : Only (s.prev ii.id) i = rw listed at only in
      let alone : s.prev ii.id ≡ i ∷ [] =
        one_node s ii i (s.prev ii.id) k' (shortest.preceded ii k'') only' in
      let each : All (Leads s ii) (s.prev ii.id) = shortest.preceded ii k'' in
      let leads : All (Leads s ii) (i ∷ []) = rw alone at each in
      record {
        costs = s;
        search = run;
        least = shortest;
        taken = leads.0;
        no_other = λ e m to pos reached eq.
            let there : Any (λ p. p ≡ e.local) (s.prev e.remote.id) =
              shortest.listed e m pos (rw to reached) (rw to eq) in
            let there' : Any (λ p. p ≡ e.local) (s.prev ii.id) = rw to at there in
            first e.local (rw alone at there');
      }
    where
      first : (x : Node) → Any (λ p. p ≡ x) (i ∷ []) → x ≡ i
      first x (inl q) = sym q
      first x (inr q) = absurd q
