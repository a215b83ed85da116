-- ===== src/Graph/Lookups.antt =====
-- What a look-up finds in the tables that the graph computes.
use thesis_data.Common.{
  ℕ, ◌≡◌, ◌≢◌, ◌⊎◌, inl, inr, refl, ap, sym, ◌∙◌, true, false, Option, none, some, List, [], ◌∷◌,
  ◌==◌, ◌&&◌, if◌then◌else◌, Bool-cases,
}
use thesis_data.HashMap.{KeyOps, IsKey}
use thesis_data.HashMap.Keys.{
  NodePair, nodepair_ops, nodepair_equal, nodepair_equal_iff, nodepair_ops-IsKey,
}
use thesis_data.Graph.{Node, Edge, Graph, max_metric, joins, minimal_from, get_minimal_edge}
use thesis_data.Graph.Minimal.{Any, get_minimal_edge-cases}
use thesis_data.Graph.Tables.{
  Table, lookup, store, pair, store_minimal, minimal_row, minimal_rows, compute_minimal_edges,
}

equal_cong :
    {K : Type 0} {ops : KeyOps K} (laws : IsKey ops) (m k l : K)
    → ops.equal m k ≡ true
    → ops.equal m l ≡ ops.equal k l
equal_cong {ops = ops} laws m k l e = elim (Bool-cases (ops.equal m l)) [
  | inl p ↦ p ∙ sym (laws.equal_trans k m l (laws.equal_symm k m ∙ e) p)
  | inr p ↦ elim (Bool-cases (ops.equal k l)) [
    | inl q ↦ laws.equal_trans m k l e q ∙ sym q
    | inr q ↦ p ∙ sym q
  ]
]

ne_true : false ≢ true
ne_true e = cc

pub lookup-store :
    {K V : Type 0} {ops : KeyOps K} (laws : IsKey ops) (k l : K) (v : V) (t : Table K V)
    → lookup ops l (store ops k v t) ≡ (if ops.equal k l then some v else lookup ops l t)
unfolding lookup store
lookup-store laws k l v [] = refl
lookup-store {ops = ops} laws k l v ((m, w) ∷ t) = elim (Bool-cases (ops.equal m k)) [
  | inl e ↦
      rw (store, e)
        (rw (lookup, equal_cong laws m k l e)
          (elim (Bool-cases (ops.equal k l)) [ inl q ↦ rw q refl | inr q ↦ rw q refl ]))
  | inr e ↦ elim (Bool-cases (ops.equal m l)) [
    | inl p ↦ elim (Bool-cases (ops.equal k l)) [
      | inl q ↦ absurd (ne_true (sym e ∙ laws.equal_trans m l k p (laws.equal_symm l k ∙ q)))
      | inr q ↦ rw (store, e) (rw (lookup, p, q) refl)
    ]
    | inr p ↦ rw (store, e) (rw (lookup, p) (lookup-store laws k l v t))
  ]
]

-- A look-up stays as it was, or gives the minimal edge.
abbrev Settles : Graph → Table NodePair Edge → Table NodePair Edge → Type 0
Settles g t t' =
    (c d : Node)
    → (lookup nodepair_ops (pair c d) t' ≡ lookup nodepair_ops (pair c d) t)
      ⊎ (lookup nodepair_ops (pair c d) t' ≡ get_minimal_edge g c d)

minimal_from_ids :
    (a b c d : Node) (es : List Edge) (res : Option Edge) (metric : ℕ)
    → a.id ≡ c.id
    → b.id ≡ d.id
    → minimal_from a b res metric es ≡ minimal_from c d res metric es
unfolding minimal_from
minimal_from_ids a b c d [] res metric p q = refl
minimal_from_ids a b c d (e ∷ es) res metric p q =
    let same : joins a b e ≡ joins c d e =
      ap (λ i. e.local.id == i && e.remote.id == b.id) p
      ∙ ap (λ i. e.local.id == c.id && e.remote.id == i) q in
    rw
      (
        same,
        minimal_from_ids a b c d es (some e) e.metric p q,
        minimal_from_ids a b c d es res metric p q,
      )
      refl

pub minimal-pair :
    (g : Graph) (a b : Node) (e : Edge)
    → get_minimal_edge g a b ≡ some e
    → pair e.local e.remote ≡ pair a b
unfolding nodepair_equal
minimal-pair g a b e h = elim (get_minimal_edge-cases g a b) [
  | inl (p, q) ↦ absurd cc
  | inr (x, p, m) ↦
      let same : e ≡ x = cc in
      rw same ((nodepair_equal_iff (pair x.local x.remote) (pair a b)).0 m.between)
]

Settles-refl : (g : Graph) (t : Table NodePair Edge) → Settles g t t
Settles-refl g t = λ c d. inl refl

Settles-trans :
    (g : Graph) (t t' t'' : Table NodePair Edge)
    → Settles g t t'
    → Settles g t' t''
    → Settles g t t''
Settles-trans g t t' t'' p q = λ c d. elim (q c d) [
  | inr e ↦ inr e
  | inl e ↦ elim (p c d) [ inl f ↦ inl (e ∙ f) | inr f ↦ inr (e ∙ f) ]
]

-- A look-up that gives the minimal edge still does.
settled :
    (g : Graph) (t t' : Table NodePair Edge) (c d : Node)
    → Settles g t t'
    → lookup nodepair_ops (pair c d) t ≡ get_minimal_edge g c d
    → lookup nodepair_ops (pair c d) t' ≡ get_minimal_edge g c d
settled g t t' c d p e = elim (p c d) [ inl f ↦ f ∙ e | inr f ↦ f ]

store_minimal-Settles :
    (g : Graph) (a b : Node) (t : Table NodePair Edge) (o : Option Edge)
    → get_minimal_edge g a b ≡ o
    → Settles g t (store_minimal o t)
unfolding store_minimal
store_minimal-Settles g a b t none h = Settles-refl g t
store_minimal-Settles g a b t (some e) h = λ c d.
    let key : NodePair = pair e.local e.remote in
    elim (Bool-cases (nodepair_equal key (pair c d))) [
      | inl q ↦
          let same : pair a b ≡ pair c d =
            sym (minimal-pair g a b e h) ∙ (nodepair_equal_iff key (pair c d)).0 q in
          inr (
            lookup-store nodepair_ops-IsKey key (pair c d) e t
            ∙ rw q refl
            ∙ sym h
            ∙ minimal_from_ids a b c d g.edges none max_metric (ap (λ k. k.local_id) same)
                (ap (λ k. k.remote_id) same))
      | inr q ↦ inl (lookup-store nodepair_ops-IsKey key (pair c d) e t ∙ rw q refl)
    ]

store_minimal-finds :
    (g : Graph) (a b : Node) (t : Table NodePair Edge) (o : Option Edge)
    → get_minimal_edge g a b ≡ o
    → Settles g [] t
    → lookup nodepair_ops (pair a b) (store_minimal o t) ≡ get_minimal_edge g a b
unfolding store_minimal lookup
store_minimal-finds g a b t none h p = elim (p a b) [ inl f ↦ f ∙ sym h | inr f ↦ f ]
store_minimal-finds g a b t (some e) h p =
    let key : NodePair = pair e.local e.remote in
    let same : nodepair_equal key (pair a b) ≡ true =
      (nodepair_equal_iff key (pair a b)).1 (minimal-pair g a b e h) in
    lookup-store nodepair_ops-IsKey key (pair a b) e t ∙ rw same refl ∙ sym h

row-Settles :
    (g : Graph) (a : Node) (ns : List Node) (t : Table NodePair Edge)
    → Settles g t (minimal_row g a ns t)
unfolding minimal_row
row-Settles g a [] t = Settles-refl g t
row-Settles g a (b ∷ ns) t = elim (Bool-cases (a.addr == b.addr)) [
  | inl e ↦ rw (minimal_row, e) (row-Settles g a ns t)
  | inr e ↦
      let next : Table NodePair Edge = store_minimal (get_minimal_edge g a b) t in
      rw (minimal_row, e)
        (Settles-trans g t next (minimal_row g a ns next)
          (store_minimal-Settles g a b t (get_minimal_edge g a b) refl) (row-Settles g a ns next))
]

row-finds :
    (g : Graph) (a b : Node) (ns : List Node) (t : Table NodePair Edge)
    → Any (λ n. n ≡ b) ns
    → (a.addr == b.addr) ≡ false
    → Settles g [] t
    → lookup nodepair_ops (pair a b) (minimal_row g a ns t) ≡ get_minimal_edge g a b
unfolding minimal_row
row-finds g a b [] t m ne s = absurd m
row-finds g a b (n ∷ ns) t (inl m) ne s =
    let next : Table NodePair Edge = store_minimal (get_minimal_edge g a b) t in
    rw (minimal_row, m, ne)
      (settled g next (minimal_row g a ns next) a b (row-Settles g a ns next)
        (store_minimal-finds g a b t (get_minimal_edge g a b) refl s))
row-finds g a b (n ∷ ns) t (inr m) ne s = elim (Bool-cases (a.addr == n.addr)) [
  | inl e ↦ rw (minimal_row, e) (row-finds g a b ns t m ne s)
  | inr e ↦
      let next : Table NodePair Edge = store_minimal (get_minimal_edge g a n) t in
      rw (minimal_row, e)
        (row-finds g a b ns next m ne (
          Settles-trans g [] t next s
            (store_minimal-Settles g a n t (get_minimal_edge g a n) refl)))
]

pub rows-Settles :
    (g : Graph) (ns : List Node) (t : Table NodePair Edge) → Settles g t (minimal_rows g ns t)
unfolding minimal_rows
rows-Settles g [] t = Settles-refl g t
rows-Settles g (a ∷ ns) t =
    let next : Table NodePair Edge = minimal_row g a g.nodes t in
    Settles-trans g t next (minimal_rows g ns next) (row-Settles g a g.nodes t)
      (rows-Settles g ns next)

rows-finds :
    (g : Graph) (a b : Node) (ns : List Node) (t : Table NodePair Edge)
    → Any (λ n. n ≡ a) ns
    → Any (λ n. n ≡ b) g.nodes
    → (a.addr == b.addr) ≡ false
    → Settles g [] t
    → lookup nodepair_ops (pair a b) (minimal_rows g ns t) ≡ get_minimal_edge g a b
unfolding minimal_rows
rows-finds g a b [] t m m' ne s = absurd m
rows-finds g a b (n ∷ ns) t (inl m) m' ne s =
    let next : Table NodePair Edge = minimal_row g a g.nodes t in
    rw (minimal_rows, m)
      (settled g next (minimal_rows g ns next) a b (rows-Settles g ns next)
        (row-finds g a b g.nodes t m' ne s))
rows-finds g a b (n ∷ ns) t (inr m) m' ne s =
    let next : Table NodePair Edge = minimal_row g n g.nodes t in
    rows-finds g a b ns next m m' ne (Settles-trans g [] t next s (row-Settles g n g.nodes t))

-- In the table that `graph_compute_minimal_edges` fills, a look-up of two nodes of the graph with
-- distinct addresses gives what `graph_get_minimal_edge` returns for them.
pub compute_minimal_edges-lookup :
    (g : Graph) (a b : Node)
    → Any (λ n. n ≡ a) g.nodes
    → Any (λ n. n ≡ b) g.nodes
    → (a.addr == b.addr) ≡ false
    → lookup nodepair_ops (pair a b) (compute_minimal_edges g) ≡ get_minimal_edge g a b
compute_minimal_edges-lookup g a b m m' ne = rows-finds g a b g.nodes [] m m' ne (Settles-refl g [])
