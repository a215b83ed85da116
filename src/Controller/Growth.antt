-- ===== src/Controller/Growth.antt =====
-- What the handlers do to the staging graph keeps it one on which `graph_dijkstra` ends.
use thesis_data.Common.{
  ℕ, ◌≤◌, ◌<◌, ◌≡◌, inl, inr, refl, sym, ◌∙◌, Bool, false, ◌||◌, Option, none, some, List, [], ◌∷◌,
  ◌++◌, ◌==◌, arith, Bool-cases, Option-cases,
}
use thesis_data.Graph.{
  Node, Edge, Graph, max_metric, add_one_edge, add_edge, remove_item, remove_edge, exist_node,
}
use thesis_data.Graph.Minimal.{All, All-map, All-append}
use thesis_data.Graph.Neighbors.{Distinct-snoc}
use thesis_data.Graph.Dijkstra.Queue.{waits, DistinctIds, Known}
use thesis_data.Graph.Dijkstra.Plain.{IsPlain}
use thesis_data.Controller.{Link, get_edge_data}
use thesis_data.Controller.Netstate.{LinkPlaces, add_edges, set_metric, remove_link}

pub waits-snoc :
    (ns : List Node) (n : Node) (i : ℕ) → waits (ns ++ (n ∷ [])) i ≡ (waits ns i || n.id == i)
waits-snoc [] n i = ground arith
waits-snoc (m ∷ ns) n i = ground (arith, waits-snoc ns n i)

DistinctIds-snoc :
    (ns : List Node) (n : Node)
    → DistinctIds ns
    → waits ns n.id ≡ false
    → DistinctIds (ns ++ (n ∷ []))
DistinctIds-snoc [] n d w = (refl, tt)
DistinctIds-snoc (m ∷ ns) n (f, d) w =
    (ground (arith, waits-snoc ns n m.id, f, w), DistinctIds-snoc ns n d (ground (arith, w)))

Known-left : (ns ms : List Node) (n : Node) → Known ns n → Known (ns ++ ms) n
Known-left [] ms n k = absurd k
Known-left (m ∷ ns) ms n (inl e) = inl e
Known-left (m ∷ ns) ms n (inr k) = inr (Known-left ns ms n k)

pub above_waits :
    (ns : List Node) (top i : ℕ) → All (λ n. n.id ≤ top) ns → top < i → waits ns i ≡ false
above_waits [] top i a h = refl
above_waits (n ∷ ns) top i (b, a) h = ground (arith, above_waits ns top i a h, b, h)

-- A node with a new id and at a new place.
pub add_node-IsPlain :
    (g : Graph) (n : Node) (last : ℕ) (d : Bool)
    → IsPlain g
    → waits g.nodes n.id ≡ false
    → exist_node g.nodes n ≡ false
    → IsPlain (record g { nodes = g.nodes ++ (n ∷ []); last_node = last; dirty = d })
add_node-IsPlain g n last d plain w x = record {
  ids = DistinctIds-snoc g.nodes n plain.ids w;
  addrs = Distinct-snoc g.nodes n plain.addrs x;
  ends =
      All-map g.edges
        (λ e (l, r).
          (Known-left g.nodes (n ∷ []) e.local l, Known-left g.nodes (n ∷ []) e.remote r))
        plain.ends;
  metrics = plain.metrics;
}

-- An edge between nodes there are.
pub add_edge-IsPlain :
    (g : Graph) (back_addr : Option ℕ) (p : ℕ) (local remote : Node) (metric payload : ℕ)
    → IsPlain g
    → Known g.nodes local
    → Known g.nodes remote
    → metric ≤ max_metric
    → IsPlain (add_edge g back_addr (some p) local remote metric false payload).1
unfolding add_edge add_one_edge
add_edge-IsPlain g back_addr p local remote metric payload plain k k' m = record {
  ids = plain.ids;
  addrs = plain.addrs;
  ends = All-append _ g.edges _ plain.ends ((k, k'), tt);
  metrics = All-append _ g.edges _ plain.metrics (m, tt);
}

add_edge-nodes :
    (g : Graph) (back_addr addr : Option ℕ) (local remote : Node) (metric payload : ℕ)
    → ((add_edge g back_addr addr local remote metric false payload).1.nodes ≡ g.nodes)
      × ((add_edge g back_addr addr local remote metric false payload).1.last_node ≡ g.last_node)
unfolding add_edge add_one_edge
add_edge-nodes g back_addr none local remote metric payload = (refl, refl)
add_edge-nodes g back_addr (some p) local remote metric payload = (refl, refl)

-- The nodes and the counter of nodes are those of another graph.
abbrev pub SameNodes : Graph → Graph → Type 0
SameNodes g h = (h.nodes ≡ g.nodes) × (h.last_node ≡ g.last_node)

pub add_edges-IsPlain :
    (at : LinkPlaces) (metric : ℕ) (g : Graph) (n1 n2 : Node)
    → IsPlain g
    → Known g.nodes n1
    → Known g.nodes n2
    → metric ≤ max_metric
    → IsPlain (add_edges at metric g n1 n2) × SameNodes g (add_edges at metric g n1 n2)
unfolding add_edges
add_edges-IsPlain at metric g n1 n2 plain k k' m =
    let g' : Graph = (add_edge g none (some at.edge) n1 n2 metric false at.link).1 in
    let (same, last) = add_edge-nodes g none (some at.edge) n1 n2 metric at.link in
    let (same', last') = add_edge-nodes g' none (some at.edge2) n2 n1 metric at.link2 in
    (
      add_edge-IsPlain g' none at.edge2 n2 n1 metric at.link2
          (add_edge-IsPlain g none at.edge n1 n2 metric at.link plain k k' m) (rw same k')
          (rw same k) m,
      (same' ∙ same, last' ∙ last),
    )

All-remove :
    (P : Edge → Type 0) (p : ℕ) (es fs : List Edge)
    → All P es
    → remove_item (λ e. e.addr) p es ≡ some fs
    → All P fs
unfolding remove_item
All-remove P p [] fs a h = absurd cc
All-remove P p (e ∷ es) fs (q, a) h = elim (Bool-cases (e.addr == p)) [
  | inl x ↦ let found : some es ≡ some fs = rw x at h in let same : es ≡ fs = cc in rw (sym same) a
  | inr x ↦ elim (Option-cases (remove_item (λ e. e.addr) p es)) [
    | inl y ↦ let lost : none ≡ some fs = rw (x, y) at h in absurd cc
    | inr (gs, y) ↦
        let found : some (e ∷ gs) ≡ some fs = rw (x, y) at h in
        let same : e ∷ gs ≡ fs = cc in rw (sym same) (q, All-remove P p es gs a y)
  ]
]

remove_edge-IsPlain :
    (g : Graph) (e : Edge) → IsPlain g → IsPlain (remove_edge g e) × SameNodes g (remove_edge g e)
unfolding remove_edge
remove_edge-IsPlain g e plain = elim (Option-cases (remove_item (λ e. e.addr) e.addr g.edges)) [
  | inl y ↦ rw (remove_edge, y) (plain, (refl, refl))
  | inr (es, y) ↦
      rw (remove_edge, y)
        (
          record {
            ids = plain.ids;
            addrs = plain.addrs;
            ends = All-remove _ e.addr g.edges es plain.ends y;
            metrics = All-remove _ e.addr g.edges es plain.metrics y;
          },
          (refl, refl),
        )
]

pub remove_link-IsPlain :
    (links : ℕ → Link) (l : Link) (g : Graph)
    → IsPlain g
    → IsPlain (remove_link links l g) × SameNodes g (remove_link links l g)
unfolding remove_link
remove_link-IsPlain links l g plain = elim (Option-cases (get_edge_data links l g.edges)) [
  | inl y ↦ rw (remove_link, y) (plain, (refl, refl))
  | inr (e, y) ↦ rw (remove_link, y) (remove_edge-IsPlain g e plain)
]

All-set_metric :
    (P : Edge → Type 0) (p metric : ℕ) (es : List Edge)
    → ((e : Edge) → P e → P (record e { metric = metric }))
    → All P es
    → All P (set_metric p metric es)
unfolding set_metric
All-set_metric P p metric [] f a = tt
All-set_metric P p metric (e ∷ es) f (q, a) = elim (Bool-cases (e.addr == p)) [
  | inl x ↦ rw (set_metric, x) (f e q, All-set_metric P p metric es f a)
  | inr x ↦ rw (set_metric, x) (q, All-set_metric P p metric es f a)
]

pub set_metric-IsPlain :
    (p metric : ℕ) (g : Graph)
    → metric ≤ max_metric
    → IsPlain g
    → IsPlain (record g { edges = set_metric p metric g.edges })
set_metric-IsPlain p metric g m plain = record {
  ids = plain.ids;
  addrs = plain.addrs;
  ends = All-set_metric _ p metric g.edges (λ e k. k) plain.ends;
  metrics = All-set_metric _ p metric g.edges (λ e k. m) plain.metrics;
}
