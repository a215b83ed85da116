-- ===== src/Graph/Dijkstra/Shortest.antt =====
-- `graph_dijkstra` on the tables that the graph computes.
use thesis_data.Common.{
  ℕ, ◌+◌, ◌*◌, ◌≤◌, ◌<◌, ◌≡◌, ◌⊎◌, inl, inr, refl, ap, sym, ◌∙◌, true, false, some, List, [], ◌∷◌,
  length, ◌==◌, arith, Bool-cases, ==→eq, ==_iff, Returns,
}
use thesis_data.HashMap.Keys.{node_ops}
use thesis_data.Graph.{Node, Edge, Graph, max_metric, compute_neighbors}
use thesis_data.Graph.Minimal.{All, Any, All-map, IsMinimal}
use thesis_data.Graph.Neighbors.{compute_neighbors-Reached}
use thesis_data.Graph.Tables.{lookup, compute_all_neighbors}
use thesis_data.Graph.Adjacent.{compute_all_neighbors-lookup}
use thesis_data.Graph.Dijkstra.{Search, no_ops, dijkstra}
use thesis_data.Graph.Dijkstra.Queue.{Known}
use thesis_data.Graph.Dijkstra.Inv.{Arc, Walk, here, step, IsTight}
use thesis_data.Graph.Dijkstra.Correct.{Walk-Known, dijkstra-IsShortest_of_Ready}
use thesis_data.Graph.Dijkstra.Plain.{tables, at, names, ends, joined}
use thesis_data.Graph.Dijkstra.Tidy.{IsTidy, exist-found, listed-IsMinimal, tidy-IsPlain, ready}

-- A walk along edges of the graph with metrics below UINT32_MAX, and the sum of the metrics.
pub data Route (g : Graph) (src : Node) : Node → ℕ → Type 0 where
  start : Route g src src 0
  along :
      {u : Node} {c : ℕ} (e : Edge)
      → Route g src u c
      → Any (λ x. x ≡ e) g.edges
      → e.local ≡ u
      → e.metric < max_metric
      → Route g src e.remote (c + e.metric)

module _ (g : Graph) (top : ℕ) (tidy : IsTidy g top) where
  -- The step along the minimal edge, where there is an edge.
  best-Arc :
      (u : Node) (e : Edge)
      → Known g.nodes u
      → Any (λ x. x ≡ e) g.edges
      → e.local ≡ u
      → e.metric < max_metric
      → (u.id == e.remote.id) ≡ false
      → (x : Edge) × Arc (tables g) u e.remote x × (x.metric ≤ e.metric)
  best-Arc u e k m l b ne =
      let (d, all, c) = compute_neighbors-Reached g u in
      let (from, to) = at _ g.edges e tidy.ends m in
      let local : (e.local.id == u.id) ≡ true =
        (==_iff e.local.id u.id).1 (ap (λ (n : Node). n.id) l) in
      let (y, member, same_addr) =
        exist-found (compute_neighbors g u) e.remote
          (at _ g.edges e c m (local, ground (arith, b))) in
      let listed : lookup node_ops u.id (compute_all_neighbors g) ≡ some (compute_neighbors g u) =
        compute_all_neighbors-lookup g u k in
      let same : y ≡ e.remote =
        (names g (tidy-IsPlain g top tidy)).by_addr y e.remote
          (ends g (tidy-IsPlain g top tidy) u y (compute_neighbors g u) k listed member) to
          same_addr in
      let member' : Any (λ m. m ≡ e.remote) (compute_neighbors g u) = rw (sym same) member in
      let (x, found, minimal) =
        joined g (tidy-IsPlain g top tidy) u e.remote (compute_neighbors g u) k listed member' ne in
      let there : (e.remote.id == e.remote.id) ≡ true = (==_iff e.remote.id e.remote.id).1 refl in
      (
        x,
        record { ns = compute_neighbors g u; listed = listed; member = member'; edge = found },
        at _ g.edges e minimal.least m (rw (local, there) refl),
      )

  -- A step of a route is no shorter than the step along the minimal edge.
  Route-Walk :
      {src v : Node} {c : ℕ}
      → Known g.nodes src
      → Route g src v c
      → (d : ℕ) × Walk (tables g) src v d × (d ≤ c)
  Route-Walk k start = (0, here, omega arith)
  Route-Walk k (along {u} {c} e r m l b) =
      let (d, w, shorter) = Route-Walk k r in
      let (from, to) = at _ g.edges e tidy.ends m in
      let known : Known g.nodes u = rw (sym l) from in
      elim (Bool-cases (u.id == e.remote.id)) [
        | inl same ↦
            let stays : u ≡ e.remote =
              (names g (tidy-IsPlain g top tidy)).by_id u e.remote known to
                (==→eq u.id e.remote.id same) in
            (d, rw (sym stays) w, omega (arith, shorter))
        | inr ne ↦
            let (x, arc, below) = best-Arc u e known m l b ne in
            (d + x.metric, step w arc, omega (arith, shorter, below))
      ]

  Arc-ends :
      (u v : Node) (e : Edge)
      → Known g.nodes u
      → Arc (tables g) u v e
      → (e.local ≡ u) × (e.remote ≡ v)
  Arc-ends u v e known a =
      let m : IsMinimal u v max_metric g.edges e = listed-IsMinimal g u v e a.edge in
      let (from, to) = at _ g.edges e tidy.ends m.member in
      (
        (names g (tidy-IsPlain g top tidy)).by_id e.local u from known
            (==→eq e.local.id u.id (ground (arith, m.between))),
        (names g (tidy-IsPlain g top tidy)).by_id e.remote v to ((ready g top tidy).closed known a)
            (==→eq e.remote.id v.id (ground (arith, m.between))),
      )

  Walk-Route :
      {src v : Node} {c : ℕ} → Known g.nodes src → Walk (tables g) src v c → Route g src v c
  Walk-Route k here = start
  Walk-Route k (step {u} {v} {e} {c} w a) =
      let m : IsMinimal u v max_metric g.edges e = listed-IsMinimal g u v e a.edge in
      let known : Known g.nodes u = Walk-Known g.nodes (tables g) top _ (ready g top tidy) k w in
      let (l, r) = Arc-ends u v e known a in
      rw (sym r) (along e (Walk-Route k w) m.member l m.below)

-- What the search leaves behind, in terms of the edges of the graph: the cost of a node is the
-- least sum of metrics of a route from the source, or no route has a sum below UINT32_MAX; a node
-- of the list of predecessors of a node gives it its cost along an edge; and the list has each node
-- that gives it its cost along an edge with a metric above 0.
pub record Shortest (g : Graph) (src : Node) (s : Search (Unit {0})) : Type 0 where
  pub least : (v : Node) (c : ℕ) → Route g src v c → c < max_metric → s.dist v.id ≤ c
  pub attained :
      (v : Node) → Known g.nodes v → s.dist v.id < max_metric → Route g src v (s.dist v.id)
  pub preceded :
      (v : Node)
      → Known g.nodes v
      → All
          (λ p.
            Any
              (λ e. (e.local ≡ p) × (e.remote ≡ v) × (s.dist v.id ≡ s.dist p.id + e.metric))
              g.edges)
          (s.prev v.id)
  pub listed :
      (e : Edge)
      → Any (λ x. x ≡ e) g.edges
      → 0 < e.metric
      → s.dist e.remote.id < max_metric
      → s.dist e.remote.id ≡ s.dist e.local.id + e.metric
      → Any (λ p. p ≡ e.local) (s.prev e.remote.id)

Any-map : {A : Type 0} (P : A → Type 0) (xs : List A) (x : A) → Any (λ y. y ≡ x) xs → P x → Any P xs
Any-map P [] x h p = absurd h
Any-map P (y ∷ xs) x (inl e) p = inl (rw e p)
Any-map P (y ∷ xs) x (inr h) p = inr (Any-map P xs x h p)

tight-Any :
    (g : Graph) (top : ℕ) (tidy : IsTidy g top) {dist : ℕ → ℕ} {queue : List Node} (v p : Node)
    → Known g.nodes v
    → IsTight g.nodes (tables g) dist queue v.id p
    → Any (λ e. (e.local ≡ p) × (e.remote ≡ v) × (dist v.id ≡ dist p.id + e.metric)) g.edges
tight-Any g top tidy {dist} v p k tight =
    let target : Node = tight.target in
    let e : Edge = tight.edge in
    let (l, r) = Arc-ends g top tidy p target e tight.known tight.arc in
    let k' : Known g.nodes target = (ready g top tidy).closed tight.known tight.arc in
    let same : target ≡ v = (names g (tidy-IsPlain g top tidy)).by_id target v k' k tight.named in
    Any-map (λ e. (e.local ≡ p) × (e.remote ≡ v) × (dist v.id ≡ dist p.id + e.metric)) g.edges e
      (listed-IsMinimal g p target e tight.arc.edge).member (l, r ∙ same, tight.cost)

-- On a graph that is not dirty, whose nodes have distinct ids and distinct addresses and are the
-- ends of its edges, and whose metrics are UINT32_MAX or at most `top`, where the number of nodes
-- times `top` is below UINT32_MAX, `graph_dijkstra` without `ops` from a node of the graph ends
-- without a fault. The cost of a node is at most the sum of the metrics of any route from the
-- source along edges with metrics below UINT32_MAX, where that sum is below UINT32_MAX; a cost
-- below UINT32_MAX is the sum of such a route; each predecessor of a node has an edge to it with a
-- metric that is the difference of their costs; and a node of a cost below UINT32_MAX has all
-- those as predecessors that have an edge to it with such a metric, where that is not 0.
pub dijkstra-Shortest :
    (g : Graph) (top : ℕ) (src : Node)
    → IsTidy g top
    → Known g.nodes src
    → Returns (dijkstra no_ops (tables g) g.nodes src tt) (Shortest g src)
dijkstra-Shortest g top src tidy known =
    let (s, e, done) =
      dijkstra-IsShortest_of_Ready g.nodes (tables g) top src (ready g top tidy) known tidy.ids in
    (
      s,
      e,
      record {
        least = λ v c r h.
            let (d, w, low) = Route-Walk g top tidy known r in
            omega (arith, low, done.least v d w (omega (arith, low, h)));
        attained = λ v k h. Walk-Route g top tidy known (done.attained v k h);
        preceded = λ v k.
            All-map (s.prev v.id) (λ p tight. tight-Any g top tidy v p k tight)
              (done.preceded v.id);
        listed = λ e m pos reached eq.
            let (from, to) = at _ g.edges e tidy.ends m in
            let apart : (e.local.id == e.remote.id) ≡ false =
              elim (Bool-cases (e.local.id == e.remote.id)) [
                | inl q ↦
                    absurd (omega (arith, pos, eq, ap s.dist (==→eq e.local.id e.remote.id q)))
                | inr q ↦ q
              ] in
            let (x, arc, low) =
              best-Arc g top tidy e.local e from m refl (omega (arith, reached, eq)) apart in
            done.listed e.local e.remote x e.metric from arc low pos reached eq;
      },
    )

-- Under the same conditions each cost is UINT32_MAX, or at most the number of nodes times the
-- largest other metric.
pub dijkstra-cost_le :
    (g : Graph) (top : ℕ) (src : Node)
    → IsTidy g top
    → Known g.nodes src
    → Returns
        (dijkstra no_ops (tables g) g.nodes src tt)
        λ s. (i : ℕ) → (s.dist i ≡ max_metric) ⊎ (s.dist i ≤ length g.nodes * top)
dijkstra-cost_le g top src tidy known =
    let (s, e, done) =
      dijkstra-IsShortest_of_Ready g.nodes (tables g) top src (ready g top tidy) known tidy.ids in
    (s, e, done.near)
