-- ===== src/Graph/Neighbors.antt =====
-- `graph_compute_neighbors`.
use thesis_data.Common.{
  ◌≡◌, inl, inr, refl, ap, ◌∙◌, true, false, List, [], ◌∷◌, ◌++◌, ◌==◌, arith, Bool-cases, ◌||◌,
}
use thesis_data.Graph.{Node, Edge, Graph, max_metric, exist_node, neighbors_from, compute_neighbors}
use thesis_data.Graph.Minimal.{All, Any, All-map}

-- An edge that leaves a node, with a metric that is not UINT32_MAX.
abbrev pub Leads : Node → Edge → Type 0
Leads node e = ((e.local.id == node.id) ≡ true) × ((e.metric == max_metric) ≡ false)

abbrev pub Distinct : List Node → Type 0
Distinct [] = Unit
Distinct (n ∷ ns) = (exist_node ns n ≡ false) × Distinct ns

exist-snoc :
    (ns : List Node) (m n : Node)
    → exist_node (ns ++ (m ∷ [])) n ≡ (exist_node ns n || m.addr == n.addr)
unfolding exist_node
exist-snoc [] m n = ground arith
exist-snoc (x ∷ ns) m n = ground (arith, exist-snoc ns m n)

pub Distinct-snoc :
    (ns : List Node) (m : Node) → Distinct ns → exist_node ns m ≡ false → Distinct (ns ++ (m ∷ []))
unfolding exist_node
Distinct-snoc [] m d h = (refl, tt)
Distinct-snoc (x ∷ ns) m (f, d) h =
    (ground (arith, exist-snoc ns m x, f, h), Distinct-snoc ns m d (ground (arith, h)))

pub All-snoc {ℓ} :
    {A : Type ℓ} (P : A → Type 0) (xs : List A) (x : A) → All P xs → P x → All P (xs ++ (x ∷ []))
All-snoc P [] x a p = (p, tt)
All-snoc P (y ∷ xs) x (q, a) p = (q, All-snoc P xs x a p)

-- A case split on the three tests of the loop.
data Turn (node : Node) (neighs : List Node) (e : Edge) (es : List Edge) : Type 0 where
  skipped :
      (Leads node e → exist_node neighs e.remote ≡ true)
      → neighbors_from node neighs (e ∷ es) ≡ neighbors_from node neighs es
      → Turn node neighs e es
  added :
      Leads node e
      → exist_node neighs e.remote ≡ false
      → neighbors_from node neighs (e ∷ es) ≡ neighbors_from node (neighs ++ (e.remote ∷ [])) es
      → Turn node neighs e es

turn : (node : Node) (neighs : List Node) (e : Edge) (es : List Edge) → Turn node neighs e es
unfolding neighbors_from
turn node neighs e es = elim (Bool-cases (e.local.id == node.id)) [
  | inr a ↦ skipped (λ (k, l). absurd cc) (rw (neighbors_from, a) refl)
  | inl a ↦ elim (Bool-cases (e.metric == max_metric)) [
    | inl b ↦ skipped (λ (k, l). absurd cc) (rw (neighbors_from, a, b) refl)
    | inr b ↦ elim (Bool-cases (exist_node neighs e.remote)) [
      | inl c ↦ skipped (λ k. c) (rw (neighbors_from, a, b, c) refl)
      | inr c ↦ added (a, b) c (rw (neighbors_from, a, b, c) refl)
    ]
  ]
]

neighbors_from-All :
    (P : Node → Type 0) (node : Node) (es : List Edge) (neighs : List Node)
    → All P neighs
    → All (λ e. Leads node e → P e.remote) es
    → All P (neighbors_from node neighs es)
unfolding neighbors_from
neighbors_from-All P node [] neighs a h = a
neighbors_from-All P node (e ∷ es) neighs a (h, hs) = elim (turn node neighs e es) [
  | skipped c r ↦ rw r (neighbors_from-All P node es neighs a hs)
  | added l c r ↦ rw r (
      neighbors_from-All P node es (neighs ++ (e.remote ∷ [])) (All-snoc P neighs e.remote a (h l))
        hs)
]

neighbors_from-Distinct :
    (node : Node) (es : List Edge) (neighs : List Node)
    → Distinct neighs
    → Distinct (neighbors_from node neighs es)
unfolding neighbors_from
neighbors_from-Distinct node [] neighs d = d
neighbors_from-Distinct node (e ∷ es) neighs d = elim (turn node neighs e es) [
  | skipped c r ↦ rw r (neighbors_from-Distinct node es neighs d)
  | added l c r ↦ rw r (
      neighbors_from-Distinct node es (neighs ++ (e.remote ∷ []))
        (Distinct-snoc neighs e.remote d c))
]

neighbors_from-keeps :
    (node n : Node) (es : List Edge) (neighs : List Node)
    → exist_node neighs n ≡ true
    → exist_node (neighbors_from node neighs es) n ≡ true
unfolding neighbors_from
neighbors_from-keeps node n [] neighs h = h
neighbors_from-keeps node n (e ∷ es) neighs h = elim (turn node neighs e es) [
  | skipped c r ↦ rw r (neighbors_from-keeps node n es neighs h)
  | added l c r ↦ rw r (
      neighbors_from-keeps node n es (neighs ++ (e.remote ∷ []))
        (ground (arith, exist-snoc neighs e.remote n, h)))
]

neighbors_from_complete :
    (node : Node) (es : List Edge) (neighs : List Node)
    → All (λ e. Leads node e → exist_node (neighbors_from node neighs es) e.remote ≡ true) es
unfolding neighbors_from
neighbors_from_complete node [] neighs = tt
neighbors_from_complete node (e ∷ es) neighs = elim (turn node neighs e es) [
  | skipped c r ↦ (
    (λ l. ap (λ ns. exist_node ns e.remote) r ∙ neighbors_from-keeps node e.remote es neighs (c l)),
    All-map es (λ x k l. ap (λ ns. exist_node ns x.remote) r ∙ k l)
        (neighbors_from_complete node es neighs),
  )
  | added l c r ↦
      let more : List Node = neighs ++ (e.remote ∷ []) in
      let found : exist_node more e.remote ≡ true =
        ground (arith, exist-snoc neighs e.remote e.remote) in
      (
        (λ k.
            ap (λ ns. exist_node ns e.remote) r ∙ neighbors_from-keeps node e.remote es more found),
        All-map es (λ x k l. ap (λ ns. exist_node ns x.remote) r ∙ k l)
            (neighbors_from_complete node es more),
      )
]

-- Some edge of the list leads from the node to `n`.
abbrev pub Reached : List Edge → Node → Node → Type 0
Reached es node n = Any (λ e. Leads node e × (e.remote ≡ n)) es

edges-Reached :
    (node : Node) (es : List Edge) → All (λ e. Leads node e → Reached es node e.remote) es
edges-Reached node [] = tt
edges-Reached node (e ∷ es) =
    ((λ l. inl (l, refl)), All-map es (λ x k l. inr (k l)) (edges-Reached node es))

-- `graph_compute_neighbors` returns nodes with distinct addresses, each of them the remote end of
-- an edge of the graph that leaves the node, by its id, and whose metric is not UINT32_MAX; and
-- the remote end of each such edge is among them.
pub compute_neighbors-Reached :
    (g : Graph) (node : Node)
    → Distinct (compute_neighbors g node)
      × All (Reached g.edges node) (compute_neighbors g node)
      × All (λ e. Leads node e → exist_node (compute_neighbors g node) e.remote ≡ true) g.edges
compute_neighbors-Reached g node = (
  neighbors_from-Distinct node g.edges [] tt,
  neighbors_from-All (Reached g.edges node) node g.edges [] tt (edges-Reached node g.edges),
  neighbors_from_complete node g.edges [],
)
