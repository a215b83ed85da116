-- ===== src/Graph/Dijkstra/Inv.antt =====
-- The invariant of `graph_dijkstra` without `ops`.
use thesis_data.Common.{
  ℕ, zero, suc, ◌+◌, ◌*◌, ◌≤◌, ◌<◌, ◌≡◌, ◌⊎◌, refl, true, false, some, List, length, ◌==◌, ==_iff,
}
use thesis_data.HashMap.Keys.{node_ops, nodepair_ops}
use thesis_data.Graph.{Node, Edge, max_metric}
use thesis_data.Graph.Minimal.{All, Any}
use thesis_data.Graph.Tables.{lookup, pair}
use thesis_data.Graph.Dijkstra.{Tables, put}
use thesis_data.Graph.Dijkstra.Queue.{waits, DistinctIds, Known, Names}

-- A step from one node to a neighbour of it, along the minimal edge.
pub record Arc (t : Tables) (u v : Node) (e : Edge) : Type 0 where
  pub ns : List Node
  pub listed : lookup node_ops u.id t.neighs ≡ some ns
  pub member : Any (λ m. m ≡ v) ns
  pub edge : lookup nodepair_ops (pair u v) t.min_edges ≡ some e

-- A walk from a node, with the sum of its metrics.
pub data Walk (t : Tables) (src : Node) : Node → ℕ → Type 0 where
  here : Walk t src src 0
  step :
      {u v : Node} {e : Edge} {c : ℕ} → Walk t src u c → Arc t u v e → Walk t src v (c + e.metric)

-- A step has been tried: the cost of its end is no larger than the step makes it, and where it is
-- just that, by a metric that is not 0, the step's first node is a predecessor.
pub record Tried (dist : ℕ → ℕ) (prev : ℕ → List Node) (u v : Node) (e : Edge) : Type 0 where
  pub bound : dist v.id ≤ dist u.id + e.metric
  pub listed : 0 < e.metric → dist v.id ≡ dist u.id + e.metric → Any (λ p. p ≡ u) (prev v.id)

-- No chain of predecessors from an id is longer than a number.
abbrev pub Depth : ℕ → (ℕ → List Node) → ℕ → Type 0
Depth zero prev i = ⊥
Depth (suc n) prev i = All (λ p. Depth n prev p.id) (prev i)

pub put_self {ℓ} : {V : Type ℓ} (i : ℕ) (v : V) (f : ℕ → V) → put i v f i ≡ v
put_self i v f = let same : (i == i) ≡ true = (==_iff i i).1 refl in rw same refl

pub put_ne {ℓ} : {V : Type ℓ} (i j : ℕ) (v : V) (f : ℕ → V) → (i == j) ≡ false → put i v f j ≡ f j
put_ne i j v f h = rw h refl

-- What the tables must say of the nodes, where metrics are at most `top`.
pub record Ready (nodes : List Node) (t : Tables) (top : ℕ) : Type 0 where
  pub names : Names nodes
  pub listed :
      (u : Node) → Known nodes u → (ns : List Node) × (lookup node_ops u.id t.neighs ≡ some ns)
  pub closed : {u v : Node} {e : Edge} → Known nodes u → Arc t u v e → Known nodes v
  pub ends :
      (u v : Node) (ns : List Node)
      → Known nodes u
      → lookup node_ops u.id t.neighs ≡ some ns
      → Any (λ m. m ≡ v) ns
      → Known nodes v
  pub joined :
      (u v : Node) (ns : List Node)
      → Known nodes u
      → lookup node_ops u.id t.neighs ≡ some ns
      → Any (λ m. m ≡ v) ns
      → (u.id == v.id) ≡ false
      → (e : Edge) × (lookup nodepair_ops (pair u v) t.min_edges ≡ some e) × (e.metric ≤ top)
  pub small : length nodes * top < max_metric

-- A predecessor that gives an id its cost.
pub record IsTight (nodes : List Node) (t : Tables) (dist : ℕ → ℕ) (queue : List Node) (i : ℕ)
    (p : Node) : Type 0 where
  pub known : Known nodes p
  pub settled : waits queue p.id ≡ false
  pub target : Node
  pub named : target.id ≡ i
  pub edge : Edge
  pub arc : Arc t p target edge
  pub cost : dist i ≡ dist p.id + edge.metric

module _ (nodes : List Node) (t : Tables) (top : ℕ) (src : Node) where
  -- `turns` nodes have been taken from the queue, and the arcs in `Done` have been tried.
  pub record Inv (turns : ℕ) (Done : Node → Node → Type 0) (dist : ℕ → ℕ) (prev : ℕ → List Node)
      (queue : List Node) : Type 0 where
    pub known : All (Known nodes) queue
    pub distinct : DistinctIds queue
    pub counted : turns + length queue ≡ length nodes
    pub order : (i j : ℕ) → waits queue i ≡ false → waits queue j ≡ true → dist i ≤ dist j
    pub near : (i : ℕ) → (dist i ≡ max_metric) ⊎ (dist i ≤ turns * top)
    pub arcs :
        (u v : Node) (e : Edge)
        → Done u v
        → Known nodes u
        → waits queue u.id ≡ false
        → Arc t u v e
        → Tried dist prev u v e
    pub origin : dist src.id ≡ 0
    pub walks : (v : Node) → Known nodes v → dist v.id < max_metric → Walk t src v (dist v.id)
    pub tight : (i : ℕ) → All (IsTight nodes t dist queue i) (prev i)
    pub deep : (i : ℕ) → waits queue i ≡ false → Depth (suc turns) prev i

  -- The node that was taken last.
  pub record Last (turns : ℕ) (u : Node) (dist : ℕ → ℕ) (queue : List Node) : Type 0 where
    pub known : Known nodes u
    pub settled : waits queue u.id ≡ false
    pub furthest : (i : ℕ) → waits queue i ≡ false → dist i ≤ dist u.id
    pub near : dist u.id ≤ turns * top
    pub reached : dist u.id < max_metric
