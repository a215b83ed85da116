-- ===== src/Graph/Copies/Copied.antt =====
-- What `graph_deepcopy` keeps.
use thesis_data.Common.{
  ◌≡◌, inl, inr, refl, ap, sym, ◌∙◌, List, [], ◌∷◌, ◌++◌, map, ◌==◌, arith, Bool-cases, ==→eq,
  Returns, append_assoc, append-nil,
}
use thesis_data.Graph.{Node, Edge, Graph, get_node_in, new}
use thesis_data.Graph.Minimal.{All, Any}
use thesis_data.Graph.Copies.{
  Copying, copy_node, copy_nodes, get_node, copy_edge, copy_edges, deepcopy,
}

abbrev Known : List Node → Node → Type 0
Known nodes n = Any (λ m. m ≡ n) nodes

-- An edge that says of nodes of a list what another edge says of nodes with the same ids.
pub record IsCopy (ops : Copying) (nodes : List Node) (e e2 : Edge) : Type 0 where
  pub addr : e2.addr ≡ ops.edge_addr e
  pub id : e2.id ≡ e.id
  pub metric : e2.metric ≡ e.metric
  pub payload : e2.payload ≡ ops.edge_data_copy e.payload
  pub local : e2.local.id ≡ e.local.id
  pub remote : e2.remote.id ≡ e.remote.id
  pub from : Any (λ m. m ≡ e2.local) nodes
  pub to : Any (λ m. m ≡ e2.remote) nodes

-- One list has the copies of the edges of another, in order.
abbrev pub Copied : Copying → List Node → List Edge → List Edge → Type 0
Copied ops nodes [] [] = Unit
Copied ops nodes [] (e2 ∷ es2) = ⊥
Copied ops nodes (e ∷ es) [] = ⊥
Copied ops nodes (e ∷ es) (e2 ∷ es2) = IsCopy ops nodes e e2 × Copied ops nodes es es2

copy_nodes-map :
    (ops : Copying) (copied ns : List Node)
    → copy_nodes ops copied ns ≡ copied ++ map (copy_node ops) ns
unfolding copy_nodes
copy_nodes-map ops copied [] = sym (append-nil copied)
copy_nodes-map ops copied (n ∷ ns) =
    copy_nodes-map ops (copied ++ (copy_node ops n ∷ [])) ns
    ∙ append_assoc copied (copy_node ops n ∷ []) (map (copy_node ops) ns)

get_node-copied :
    (ops : Copying) (ns : List Node) (n : Node)
    → Known ns n
    → Returns
        (get_node (map (copy_node ops) ns) n.id)
        λ m. Known (map (copy_node ops) ns) m × (m.id ≡ n.id)
unfolding get_node get_node_in
get_node-copied ops [] n k = absurd k
get_node-copied ops (x ∷ ns) n k = elim (Bool-cases (x.id == n.id)) [
  | inl e ↦ (copy_node ops x, rw (get_node, get_node_in, e) refl, (inl refl, ==→eq x.id n.id e))
  | inr e ↦ elim k [
    | inl same ↦ absurd (ground (arith, e, ap (λ (k : Node). k.id) same))
    | inr k' ↦
        let (m, run, (known, q)) = get_node-copied ops ns n k' in
        (m, rw (get_node, get_node_in, e) run, (inr known, q))
  ]
]

module _ (ops : Copying) (ns : List Node) where
  copy_edge-IsCopy :
      (e : Edge)
      → Known ns e.local
      → Known ns e.remote
      → Returns (copy_edge ops (map (copy_node ops) ns) e) (IsCopy ops (map (copy_node ops) ns) e)
  unfolding copy_edge
  copy_edge-IsCopy e k k' =
      let (l, run, (known, same)) = get_node-copied ops ns e.local k in
      let (r, run', (known', same')) = get_node-copied ops ns e.remote k' in
      (
        _,
        rw (copy_edge, run, run') refl,
        record {
          addr = refl;
          id = refl;
          metric = refl;
          payload = refl;
          local = same;
          remote = same';
          from = known;
          to = known';
        },
      )

  copy_edges-Copied :
      (copied es : List Edge)
      → All (λ e. Known ns e.local × Known ns e.remote) es
      → Returns (copy_edges ops (map (copy_node ops) ns) copied es) λ es2.
        (rest : List Edge) × (es2 ≡ copied ++ rest) × Copied ops (map (copy_node ops) ns) es rest
  unfolding copy_edges
  copy_edges-Copied copied [] a = (copied, refl, ([], sym (append-nil copied), tt))
  copy_edges-Copied copied (e ∷ es) ((k, k'), a) =
      let (e2, run, is) = copy_edge-IsCopy e k k' in
      let (es2, run', (rest, same, all)) = copy_edges-Copied (copied ++ (e2 ∷ [])) es a in
      (
        es2,
        rw (copy_edges, run) run',
        (e2 ∷ rest, same ∙ append_assoc copied (e2 ∷ []) rest, (is, all)),
      )

-- `graph_deepcopy` of a graph whose nodes are the ends of its edges ends without a fault: its nodes
-- are copies of the nodes, in order, with the same ids; its edges are copies of the edges, in
-- order, with the same ids and metrics, and lead between nodes of the copy with the ids that the
-- ends have; and the counters are the same.
pub deepcopy-Copied :
    (ops : Copying) (g : Graph)
    → All (λ e. Any (λ m. m ≡ e.local) g.nodes × Any (λ m. m ≡ e.remote) g.nodes) g.edges
    → Returns (deepcopy ops g) λ g2.
      (g2.nodes ≡ map (copy_node ops) g.nodes)
      × Copied ops g2.nodes g.edges g2.edges
      × (g2.last_node ≡ g.last_node)
      × (g2.last_edge ≡ g.last_edge)
unfolding deepcopy
deepcopy-Copied ops g a =
    let copies : copy_nodes ops [] g.nodes ≡ map (copy_node ops) g.nodes =
      copy_nodes-map ops [] g.nodes in
    let (es2, run, (rest, same, all)) = copy_edges-Copied ops g.nodes [] g.edges a in
    let kept : Copied ops (map (copy_node ops) g.nodes) g.edges es2 = rw same all in
    (
      record new {
        nodes = map (copy_node ops) g.nodes;
        edges = es2;
        last_node = g.last_node;
        last_edge = g.last_edge;
      },
      rw (deepcopy, copies, run) refl,
      (refl, kept, refl, refl),
    )
