-- ===== src/Graph/Dijkstra/Plain.antt =====
-- Graphs on which `graph_dijkstra` ends without a fault, whatever its costs, and what their tables
-- say.
use thesis_data.Common.{
  ◌≤◌, ◌≡◌, inl, inr, refl, ap, sym, ◌∙◌, true, false, some, List, [], ◌∷◌, ◌==◌, arith, ==_iff,
}
use thesis_data.HashMap.Keys.{node_ops, nodepair_ops}
use thesis_data.Graph.{Node, Edge, Graph, exist_node, max_metric, compute_neighbors}
use thesis_data.Graph.Minimal.{All, Any, IsMinimal, get_minimal_edge-cases}
use thesis_data.Graph.Neighbors.{Distinct, Reached, compute_neighbors-Reached}
use thesis_data.Graph.Tables.{lookup, pair, compute_minimal_edges, compute_all_neighbors}
use thesis_data.Graph.Lookups.{compute_minimal_edges-lookup}
use thesis_data.Graph.Adjacent.{compute_all_neighbors-lookup}
use thesis_data.Graph.Dijkstra.{Tables}
use thesis_data.Graph.Dijkstra.Queue.{DistinctIds, Known, Names, same_test, waits-Any}

-- A graph whose nodes have distinct ids and addresses and are the ends of its edges, and whose
-- metrics are words of 32 bits.
pub record IsPlain (g : Graph) : Type 0 where
  pub ids : DistinctIds g.nodes
  pub addrs : Distinct g.nodes
  pub ends : All (λ e. Known g.nodes e.local × Known g.nodes e.remote) g.edges
  pub metrics : All (λ e. e.metric ≤ max_metric) g.edges

-- The tables of a graph that is not dirty.
abbrev pub tables : Graph → Tables
tables g = record { neighs = compute_all_neighbors g; min_edges = compute_minimal_edges g }

pub pick :
    {A : Type 0} {P Q : A → Type 0} (xs : List A)
    → All P xs
    → Any Q xs
    → (x : A) × P x × Q x × Any (λ y. y ≡ x) xs
pick [] a h = absurd h
pick (x ∷ xs) (p, a) (inl q) = (x, p, q, inl refl)
pick (x ∷ xs) (p, a) (inr h) = let (y, p', q', m) = pick xs a h in (y, p', q', inr m)

pub at : {A : Type 0} (P : A → Type 0) (xs : List A) (x : A) → All P xs → Any (λ y. y ≡ x) xs → P x
at P xs x a h = let (y, p, e, m) = pick xs a h in rw (sym e) p

pub unique_id :
    (ns : List Node) → DistinctIds ns → (x y : Node) → Known ns x → Known ns y → x.id ≡ y.id → x ≡ y
unique_id [] d x y h k e = absurd h
unique_id (n ∷ ns) (f, d) x y (inl p) (inl q) e = sym p ∙ q
unique_id (n ∷ ns) (f, d) x y (inl p) (inr q) e =
    absurd (ground (arith, f, waits-Any ns y q, ap (λ (k : Node). k.id) p ∙ e))
unique_id (n ∷ ns) (f, d) x y (inr p) (inl q) e =
    absurd (ground (arith, f, waits-Any ns x p, ap (λ (k : Node). k.id) q ∙ sym e))
unique_id (n ∷ ns) (f, d) x y (inr p) (inr q) e = unique_id ns d x y p q e

exist-Any : (ns : List Node) (n y : Node) → Known ns y → y.addr ≡ n.addr → exist_node ns n ≡ true
unfolding exist_node
exist-Any [] n y h e = absurd h
exist-Any (m ∷ ns) n y (inl p) e =
    let same : (m.addr == n.addr) ≡ true =
      (==_iff m.addr n.addr).1 (ap (λ (k : Node). k.addr) p ∙ e) in
    rw same refl
exist-Any (m ∷ ns) n y (inr h) e = ground (arith, exist-Any ns n y h e)

unique_addr :
    (ns : List Node)
    → Distinct ns
    → (x y : Node) → Known ns x
    → Known ns y
    → x.addr ≡ y.addr
    → x ≡ y
unique_addr [] d x y h k e = absurd h
unique_addr (n ∷ ns) (f, d) x y (inl p) (inl q) e = sym p ∙ q
unique_addr (n ∷ ns) (f, d) x y (inl p) (inr q) e =
    let found : exist_node ns n ≡ true =
      exist-Any ns n y q (sym (ap (λ (k : Node). k.addr) p ∙ e)) in
    absurd cc
unique_addr (n ∷ ns) (f, d) x y (inr p) (inl q) e =
    let found : exist_node ns n ≡ true =
      exist-Any ns n x p (e ∙ sym (ap (λ (k : Node). k.addr) q)) in
    absurd cc
unique_addr (n ∷ ns) (f, d) x y (inr p) (inr q) e = unique_addr ns d x y p q e

module _ (g : Graph) (plain : IsPlain g) where
  pub names : Names g.nodes
  names = record { by_id = unique_id g.nodes plain.ids; by_addr = unique_addr g.nodes plain.addrs }

  -- A neighbour is reached along an edge.
  neighbor-Reached :
      (u v : Node) (ns : List Node)
      → Known g.nodes u
      → lookup node_ops u.id (compute_all_neighbors g) ≡ some ns
      → Any (λ m. m ≡ v) ns
      → Reached g.edges u v
  neighbor-Reached u v ns k h m =
      let (d, all, c) = compute_neighbors-Reached g u in
      let found : some ns ≡ some (compute_neighbors g u) =
        sym h ∙ compute_all_neighbors-lookup g u k in
      let same : ns ≡ compute_neighbors g u = cc in
      at _ (compute_neighbors g u) v all (rw same at m)

  pub ends :
      (u v : Node) (ns : List Node)
      → Known g.nodes u
      → lookup node_ops u.id (compute_all_neighbors g) ≡ some ns
      → Any (λ m. m ≡ v) ns
      → Known g.nodes v
  ends u v ns k h m =
      let (e, (l, r), (leads, q), x) = pick g.edges plain.ends (neighbor-Reached u v ns k h m) in
      rw (sym q) r

  -- The table of minimal edges has one from a node to each other neighbour of it.
  pub joined :
      (u v : Node) (ns : List Node)
      → Known g.nodes u
      → lookup node_ops u.id (compute_all_neighbors g) ≡ some ns
      → Any (λ m. m ≡ v) ns
      → (u.id == v.id) ≡ false
      → (e : Edge) × (lookup nodepair_ops (pair u v) (compute_minimal_edges g) ≡ some e)
        × IsMinimal u v max_metric g.edges e
  joined u v ns k h m ne =
      let (e, metric, ((local, below), remote), x) =
        pick g.edges plain.metrics (neighbor-Reached u v ns k h m) in
      let k' : Known g.nodes v = ends u v ns k h m in
      let other : (u.addr == v.addr) ≡ false = same_test g.nodes names u v k k' ∙ ne in
      let there : (e.remote.id == v.id) ≡ true =
        (==_iff e.remote.id v.id).1 (ap (λ (n : Node). n.id) remote) in
      elim (get_minimal_edge-cases g u v) [
        | inl (p, b) ↦
            let far : max_metric ≤ e.metric = at _ g.edges e b x (rw (local, there) refl) in
            let near : (e.metric == max_metric) ≡ true = ground (arith, far, metric) in
            absurd (ground (arith, near, below))
        | inr (y, p, minimal) ↦ (y, compute_minimal_edges-lookup g u v k k' other ∙ p, minimal)
      ]
