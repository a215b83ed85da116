-- ===== src/Graph/Changes.antt =====
-- `graph_remove_node`.
use thesis_data.Common.{
  ◌||◌, ℕ, ◌≡◌, inl, inr, refl, ap, sym, ◌∙◌, Bool, true, false, none, some, List, [], ◌∷◌, ◌++◌,
  ◌==◌, if◌then◌else◌, arith, Bool-cases, Option-cases, append_assoc,
}
use thesis_data.Graph.{
  Node, Edge, Graph, GraphOps, remove_item, remove_edge, touches, remove_edges, remove_node,
}
use thesis_data.Graph.Minimal.{All}

-- No edge of the list has the address.
abbrev pub NotAt : ℕ → List Edge → Type 0
NotAt p es = All (λ e. (e.addr == p) ≡ false) es

abbrev pub DistinctEdges : List Edge → Type 0
DistinctEdges [] = Unit
DistinctEdges (e ∷ es) = NotAt e.addr es × DistinctEdges es

-- The edges that do not end at the node.
unfoldable pub survivors : GraphOps → Node → List Edge → List Edge
survivors ops node [] = []
survivors ops node (e ∷ es) =
    let rest = survivors ops node es in
    if ops.node_equals e.local node || ops.node_equals e.remote node then rest else e ∷ rest

==_comm : (a b : ℕ) → (a == b) ≡ (b == a)
==_comm a b = ground arith

remove_item-append :
    (p : ℕ) (kept : List Edge) (e : Edge) (es : List Edge)
    → NotAt p kept
    → (e.addr == p) ≡ true
    → remove_item (λ x. x.addr) p (kept ++ (e ∷ es)) ≡ some (kept ++ es)
unfolding remove_item
remove_item-append p [] e es h k = rw (remove_item, k) refl
remove_item-append p (x ∷ kept) e es (f, h) k =
    rw (remove_item, f, remove_item-append p kept e es h k) refl

remove_edge-append :
    (g : Graph) (kept : List Edge) (e : Edge) (es : List Edge)
    → g.edges ≡ kept ++ (e ∷ es)
    → NotAt e.addr kept
    → remove_edge g e ≡ record g { edges = kept ++ es; dirty = true }
unfolding remove_edge
remove_edge-append g kept e es h k =
    rw (remove_edge, h, remove_item-append e.addr kept e es k (ground arith)) refl

-- Each edge to come has another address than those that stay.
abbrev Apart : List Edge → List Edge → Type 0
Apart kept es = All (λ e. NotAt e.addr kept) es

NotAt-snoc :
    (p : ℕ) (kept : List Edge) (e : Edge)
    → NotAt p kept
    → (e.addr == p) ≡ false
    → NotAt p (kept ++ (e ∷ []))
NotAt-snoc p [] e h k = (k, tt)
NotAt-snoc p (x ∷ kept) e (f, h) k = (f, NotAt-snoc p kept e h k)

Apart-snoc :
    (kept : List Edge) (e : Edge) (es : List Edge)
    → Apart kept es
    → NotAt e.addr es
    → Apart (kept ++ (e ∷ [])) es
Apart-snoc kept e [] a n = tt
Apart-snoc kept e (x ∷ es) (h, a) (k, n) =
    (NotAt-snoc x.addr kept e h (==_comm e.addr x.addr ∙ k), Apart-snoc kept e es a n)

remove_edges-survivors :
    (ops : GraphOps) (node : Node) (es kept : List Edge) (g : Graph)
    → g.edges ≡ kept ++ es
    → Apart kept es
    → DistinctEdges es
    → (d : Bool) × (remove_edges ops node es g
        ≡ record g { edges = kept ++ survivors ops node es; dirty = d })
unfolding remove_edges survivors
remove_edges-survivors ops node [] kept g h a d =
    (g.dirty, ap (λ xs. record g { edges = xs; dirty = g.dirty }) h)
remove_edges-survivors ops node (e ∷ es) kept g h (k, a) (n, d) =
    elim (Bool-cases (touches ops node e)) [
      | inl t ↦
          let gone : Graph = record g { edges = kept ++ es; dirty = true } in
          let (b, r) = remove_edges-survivors ops node es kept gone refl a d in
          (b, rw (remove_edges, survivors, t, remove_edge-append g kept e es h k) r)
      | inr t ↦
          let split : g.edges ≡ (kept ++ (e ∷ [])) ++ es =
            h ∙ sym (append_assoc kept (e ∷ []) es) in
          let (b, r) =
            remove_edges-survivors ops node es (kept ++ (e ∷ [])) g split (Apart-snoc kept e es a n)
              d in
          (
            b,
            rw (remove_edges, survivors, t)
                (r
                  ∙ ap (λ xs. record g { edges = xs; dirty = b })
                      (append_assoc kept (e ∷ []) (survivors ops node es))),
          )
    ]

Apart-nil : (es : List Edge) → Apart [] es
Apart-nil [] = tt
Apart-nil (e ∷ es) = (tt, Apart-nil es)

-- On a graph whose edges have distinct addresses, `graph_remove_node` of a node of the graph takes
-- out the node, and exactly the edges one of whose ends is equal to it, and sets `dirty`; the
-- other edges stay in order. A node that the graph does not have leaves it as it is.
pub remove_node-survivors :
    (ops : GraphOps) (g : Graph) (node : Node)
    → DistinctEdges g.edges
    → remove_node ops g node ≡ elim (remove_item (λ n. n.addr) node.addr g.nodes) as (λ _. Graph) [
      | none ↦ g
      | some ns ↦ record g { nodes = ns; edges = survivors ops node g.edges; dirty = true }
    ]
unfolding remove_node
remove_node-survivors ops g node d =
    let (b, r) = remove_edges-survivors ops node g.edges [] g refl (Apart-nil g.edges) d in
    elim (Option-cases (remove_item (λ n. n.addr) node.addr g.nodes)) [
      | inl e ↦ rw (remove_node, e) refl
      | inr (ns, e) ↦
          rw (remove_node, e) (ap (λ (t : Graph). record t { nodes = ns; dirty = true }) r)
    ]
