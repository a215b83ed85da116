-- ===== src/Graph/Dijkstra/Correct.antt =====
-- What `graph_dijkstra` without `ops` computes.
use native.Mathlib.Nat.{mul-le-mul_right}
use thesis_data.Common.{
  ℕ, suc, ◌+◌, ◌*◌, ◌≤◌, ◌<◌, ◌≡◌, ◌⊎◌, inl, inr, refl, ap, ◌∙◌, true, false, List, [], ◌∷◌, length,
  ◌==◌, if◌then◌else◌, arith, Bool-cases, ==→eq, ==_iff, Returns,
}
use thesis_data.Graph.{Node, Edge, max_metric}
use thesis_data.Graph.Minimal.{All, Any}
use thesis_data.Graph.Dijkstra.{Tables, Search, no_ops, initial_dist, initial, dijkstra}
use thesis_data.Graph.Dijkstra.Queue.{waits, DistinctIds, Known, waits-Any, All-Known, Beyond}
use thesis_data.Graph.Dijkstra.Inv.{Arc, Walk, here, step, Tried, Ready, IsTight, Inv}
use thesis_data.Graph.Dijkstra.Visit.{Every, search_from-Inv}

initial_dist-missing :
    (src : Node) (ns : List Node) (i : ℕ) → waits ns i ≡ false → initial_dist src ns i ≡ 0
unfolding initial_dist
initial_dist-missing src [] i h = refl
initial_dist-missing src (n ∷ ns) i h = ground (arith, initial_dist-missing src ns i)

initial_dist-at :
    (src : Node) (ns : List Node) (i : ℕ)
    → waits ns i ≡ true
    → initial_dist src ns i ≡ (if i == src.id then 0 else max_metric)
unfolding initial_dist
initial_dist-at src [] i h = absurd cc
initial_dist-at src (n ∷ ns) i h = elim (Bool-cases (n.id == i)) [
  | inl e ↦
      let same : n.id ≡ i = ==→eq n.id i e in
      rw (initial_dist, e) (ap (λ k. if k == src.id then 0 else max_metric) same)
  | inr e ↦ rw (initial_dist, e) (initial_dist-at src ns i (ground (arith, h, e)))
]

-- A cost is 0 or UINT32_MAX at first, and 0 at the source.
initial_dist-cases :
    (src : Node) (ns : List Node) (i : ℕ)
    → ((i ≡ src.id) × (initial_dist src ns i ≡ 0))
      ⊎ ((waits ns i ≡ true) × (initial_dist src ns i ≡ max_metric))
      ⊎ ((waits ns i ≡ false) × (initial_dist src ns i ≡ 0))
initial_dist-cases src ns i = elim (Bool-cases (waits ns i)) [
  | inr w ↦ inr (inr (w, initial_dist-missing src ns i w))
  | inl w ↦ elim (Bool-cases (i == src.id)) [
    | inl e ↦ inl (==→eq i src.id e, initial_dist-at src ns i w ∙ rw e refl)
    | inr e ↦ inr (inl (w, initial_dist-at src ns i w ∙ rw e refl))
  ]
]

initial_dist-src : (src : Node) (ns : List Node) → initial_dist src ns src.id ≡ 0
initial_dist-src src ns =
    let same : (src.id == src.id) ≡ true = (==_iff src.id src.id).1 refl in
    elim (Bool-cases (waits ns src.id)) [
      | inl w ↦ initial_dist-at src ns src.id w ∙ rw same refl
      | inr w ↦ initial_dist-missing src ns src.id w
    ]

module _ (nodes : List Node) (t : Tables) (top : ℕ) (src : Node) (ready : Ready nodes t top) where
  source-Walk : (v : Node) → Known nodes src → Known nodes v → v.id ≡ src.id → Walk t src v 0
  source-Walk v known k e = let same : v ≡ src = ready.names.by_id v src k known e in rw same here

  initial_walks :
      Known nodes src
      → (v : Node) → Known nodes v
      → initial_dist src nodes v.id < max_metric
      → Walk t src v (initial_dist src nodes v.id)
  initial_walks known v k h = elim (initial_dist-cases src nodes v.id) [
    | inl (p, e) ↦ rw e (source-Walk v known k p)
    | inr (inl (p, e)) ↦ absurd (omega (arith, h, e))
    | inr (inr (w, e)) ↦ absurd (ground (arith, w, waits-Any nodes v k))
  ]

  pub initial-Inv :
      Known nodes src
      → DistinctIds nodes
      → Inv nodes t top src 0 (Every nodes t top src ready) (initial_dist src nodes) (λ i. []) nodes
  initial-Inv known distinct = record {
    known = All-Known nodes;
    distinct = distinct;
    counted = omega arith;
    order = λ i j h k. omega (arith, initial_dist-missing src nodes i h);
    near = λ i. elim (initial_dist-cases src nodes i) [
      | inl (p, e) ↦ inr (omega (arith, e))
      | inr (inl (p, e)) ↦ inl e
      | inr (inr (p, e)) ↦ inr (omega (arith, e))
    ];
    arcs = λ x y e d k w b. absurd (ground (arith, w, waits-Any nodes x k));
    origin = initial_dist-src src nodes;
    walks = initial_walks known;
    tight = λ i. tt;
    deep = λ i w. tt;
  }

  -- What the search leaves behind: the cost of a node is the least sum of metrics of a walk from
  -- the source, or UINT32_MAX where no walk has a smaller sum.
  pub record IsShortest (s : Search (Unit {0})) : Type 0 where
    pub least : (v : Node) (c : ℕ) → Walk t src v c → c < max_metric → s.dist v.id ≤ c
    pub attained :
        (v : Node) → Known nodes v → s.dist v.id < max_metric → Walk t src v (s.dist v.id)
    pub near : (i : ℕ) → (s.dist i ≡ max_metric) ⊎ (s.dist i ≤ length nodes * top)
    pub preceded : (i : ℕ) → All (IsTight nodes t s.dist s.queue i) (s.prev i)
    pub listed :
        (u v : Node) (e : Edge) (m : ℕ)
        → Known nodes u
        → Arc t u v e
        → e.metric ≤ m
        → 0 < m
        → s.dist v.id < max_metric
        → s.dist v.id ≡ s.dist u.id + m
        → Any (λ p. p ≡ u) (s.prev v.id)

  pub Walk-Known : {v : Node} {c : ℕ} → Known nodes src → Walk t src v c → Known nodes v
  Walk-Known known here = known
  Walk-Known known (step w a) = ready.closed (Walk-Known known w) a

  least_of_Walk :
      (turns : ℕ) (s : Search (Unit {0}))
      → Known nodes src
      → Inv nodes t top src turns (Every nodes t top src ready) s.dist s.prev s.queue
      → Beyond s.dist max_metric s.queue
      → {v : Node} {c : ℕ} → Walk t src v c
      → c < max_metric
      → s.dist v.id ≤ c
  least_of_Walk turns s known inv beyond here h = omega (arith, inv.origin)
  least_of_Walk turns s known inv beyond (step {u} {v} {e} {c} w a) h =
      let before : s.dist u.id ≤ c = least_of_Walk turns s known inv beyond w (omega arith) in
      elim (Bool-cases (waits s.queue u.id)) [
        | inl q ↦ absurd (omega (arith, beyond u.id q, before))
        | inr q ↦ omega (arith, before, (inv.arcs u v e tt (Walk-Known known w) q a).bound)
      ]

  -- Each node from which a cost comes is a predecessor.
  listed_of_Arc :
      (turns : ℕ) (s : Search (Unit {0}))
      → Inv nodes t top src turns (Every nodes t top src ready) s.dist s.prev s.queue
      → Beyond s.dist max_metric s.queue
      → (u v : Node) (e : Edge) (m : ℕ) → Known nodes u
      → Arc t u v e
      → e.metric ≤ m
      → 0 < m
      → s.dist v.id < max_metric
      → s.dist v.id ≡ s.dist u.id + m
      → Any (λ p. p ≡ u) (s.prev v.id)
  listed_of_Arc turns s inv beyond u v e m k a low pos reached eq =
      elim (Bool-cases (waits s.queue u.id)) [
        | inl q ↦ absurd (omega (arith, beyond u.id q, reached, eq))
        | inr q ↦
            let tried : Tried s.dist s.prev u v e = inv.arcs u v e tt k q a in
            tried.listed (omega (arith, tried.bound, low, pos, eq))
              (omega (arith, tried.bound, low, eq))
      ]

  cost_near :
      (turns : ℕ) (s : Search (Unit {0}))
      → Inv nodes t top src turns (Every nodes t top src ready) s.dist s.prev s.queue
      → (i : ℕ) → (s.dist i ≡ max_metric) ⊎ (s.dist i ≤ length nodes * top)
  cost_near turns s inv i = elim (inv.near i) [
    | inl e ↦ inl e
    | inr h ↦
        let few : turns ≤ length nodes = omega (arith, inv.counted) in
        inr (omega (arith, h, mul-le-mul_right top few))
  ]

  pub dijkstra-IsShortest_of_Ready :
      Known nodes src → DistinctIds nodes → Returns (dijkstra no_ops t nodes src tt) IsShortest
  unfolding dijkstra initial
  dijkstra-IsShortest_of_Ready known distinct =
      let (s, e, (turns, inv, beyond)) =
        search_from-Inv nodes t top src ready (suc (length nodes)) 0 (initial nodes src tt)
          (initial-Inv known distinct) (omega arith) in
      (
        s,
        e,
        record {
          least = λ v c w h. least_of_Walk turns s known inv beyond w h;
          attained = inv.walks;
          near = cost_near turns s inv;
          preceded = inv.tight;
          listed = listed_of_Arc turns s inv beyond;
        },
      )
