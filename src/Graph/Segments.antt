-- ===== src/Graph/Segments.antt =====
-- Paths and segments of sdnres-src/sr-ctrl/graph.c: `compare_segments` and `nodes_to_edges`.
use thesis_data.Common.{
  ◌⊎◌, ℕ, suc, ◌≡◌, ◌↔◌, inl, inr, refl, ap, ap₂, sym, ◌∙◌, Bool, true, false, Option, none, some,
  List, [], ◌∷◌, map, length, ◌==◌, if◌then◌else◌, arith, Bool-cases, Option-cases, Outcome, ok,
  fault, null_pointer, Returns, ==→eq, ==_iff,
}
use thesis_data.HashMap.Keys.{NodePair, nodepair_ops}
use thesis_data.Graph.{Node, Edge, Graph}
use thesis_data.Graph.Tables.{Table, lookup, pair, compute_minimal_edges}
use thesis_data.Graph.Lookups.{rows-Settles, minimal-pair}

-- `struct segment`
pub data Segment : Type 0 where
  node_segment : Node → Segment
  adj_segment : Edge → Segment

-- The tests of the loop of `compare_segments`.
unfoldable pub same_segment : Segment → Segment → Bool
same_segment (node_segment m) (node_segment n) = m.id == n.id
same_segment (node_segment m) (adj_segment e) = false
same_segment (adj_segment d) (node_segment n) = false
same_segment (adj_segment d) (adj_segment e) = d.id == e.id

-- The loop of `compare_segments`; `iter2` goes on beside `iter1`.
unfoldable pub compare_from : List Segment → List Segment → Outcome Bool
compare_from [] ts = ok true
compare_from (s ∷ ss) [] = fault null_pointer
compare_from (s ∷ ss) (t ∷ ts) =
    let rest = compare_from ss ts in if same_segment s t then rest else ok false

-- `compare_segments`
unfoldable pub compare_segments : List Segment → List Segment → Outcome Bool
compare_segments segs1 segs2 =
    if length segs1 == length segs2 then compare_from segs1 segs2 else ok false

-- `nodes_to_edges`; `none` is the null pointer.
unfoldable pub nodes_to_edges : Table NodePair Edge → List Node → Option (List Edge)
nodes_to_edges min_edges [] = some []
nodes_to_edges min_edges (n ∷ []) = some []
nodes_to_edges min_edges (n ∷ m ∷ ns) =
    let rest = nodes_to_edges min_edges (m ∷ ns) in
    elim (lookup nodepair_ops (pair n m) min_edges) [
      | none ↦ none
      | some e ↦ elim rest [ none ↦ none | some es ↦ some (e ∷ es) ]
    ]

-- What a segment says: whether it is an adjacency, and the id of its edge or node.
abbrev pub label : Segment → Bool × ℕ
label (node_segment n) = (false, n.id)
label (adj_segment e) = (true, e.id)

same_segment_iff : (s t : Segment) → (same_segment s t ≡ true) ↔ (label s ≡ label t)
unfolding same_segment
same_segment_iff (node_segment m) (node_segment n) =
    (λ h. ap (λ i. (false, i)) (==→eq m.id n.id h), λ h. (==_iff m.id n.id).1 (ap (λ p. p.1) h))
same_segment_iff (node_segment m) (adj_segment e) = (λ h. cc, λ h. ap (λ p. p.0) h)
same_segment_iff (adj_segment d) (node_segment n) = (λ h. cc, λ h. sym (ap (λ p. p.0) h))
same_segment_iff (adj_segment d) (adj_segment e) =
    (λ h. ap (λ i. (true, i)) (==→eq d.id e.id h), λ h. (==_iff d.id e.id).1 (ap (λ p. p.1) h))

compare_from-label :
    (ss ts : List Segment)
    → length ss ≡ length ts
    → Returns (compare_from ss ts) λ b. (b ≡ true) ↔ (map label ss ≡ map label ts)
unfolding compare_from
compare_from-label [] [] h = (true, refl, (λ e. refl, λ e. refl))
compare_from-label [] (t ∷ ts) h = absurd (omega arith)
compare_from-label (s ∷ ss) [] h = absurd (omega arith)
compare_from-label (s ∷ ss) (t ∷ ts) h = elim (Bool-cases (same_segment s t)) [
  | inl e ↦
      let (b, r, f) = compare_from-label ss ts (omega arith) in
      (
        b,
        rw (compare_from, e) r,
        (λ k. ap₂ (λ x xs. x ∷ xs) ((same_segment_iff s t).0 e) (f.0 k), λ k. f.1 cc),
      )
  | inr e ↦
      (false, rw (compare_from, e) refl, (λ k. absurd cc, λ k. sym e ∙ (same_segment_iff s t).1 cc))
]

length-map-label : (ss ts : List Segment) → map label ss ≡ map label ts → length ss ≡ length ts
length-map-label [] [] h = refl
length-map-label [] (t ∷ ts) h = absurd cc
length-map-label (s ∷ ss) [] h = absurd cc
length-map-label (s ∷ ss) (t ∷ ts) h = ap suc (length-map-label ss ts cc)

-- `compare_segments` ends without a fault, and answers whether the two lists say the same: in each
-- place both have an adjacency, or both a node, with the same id.
pub compare_segments-label :
    (ss ts : List Segment)
    → Returns (compare_segments ss ts) λ b. (b ≡ true) ↔ (map label ss ≡ map label ts)
unfolding compare_segments
compare_segments-label ss ts = elim (Bool-cases (length ss == length ts)) [
  | inl e ↦ rw (compare_segments, e) (compare_from-label ss ts (==→eq (length ss) (length ts) e))
  | inr e ↦ (
    false,
    rw (compare_segments, e) refl,
    (λ k. absurd cc, λ k. sym e ∙ (==_iff (length ss) (length ts)).1 (length-map-label ss ts k)),
  )
]

-- Each edge leads from a node of the path to the next, by their ids.
abbrev pub Links : List Node → List Edge → Type 0
Links [] es = es ≡ []
Links (n ∷ []) es = es ≡ []
Links (n ∷ m ∷ ns) [] = ⊥
Links (n ∷ m ∷ ns) (e ∷ es) = (pair e.local e.remote ≡ pair n m) × Links (m ∷ ns) es

found-pair :
    (g : Graph) (n m : Node) (e : Edge)
    → lookup nodepair_ops (pair n m) (compute_minimal_edges g) ≡ some e
    → pair e.local e.remote ≡ pair n m
unfolding lookup
found-pair g n m e h = elim (rows-Settles g g.nodes [] n m) [
  | inl p ↦ absurd cc
  | inr p ↦ minimal-pair g n m e (sym p ∙ h)
]

-- Some node of the path and the next have no edge between them in the table.
abbrev pub Gap : Table NodePair Edge → List Node → Type 0
Gap t [] = ⊥
Gap t (n ∷ []) = ⊥
Gap t (n ∷ m ∷ ns) = (lookup nodepair_ops (pair n m) t ≡ none) ⊎ Gap t (m ∷ ns)

-- On the table that `graph_compute_minimal_edges` fills, `nodes_to_edges` returns edges that lead
-- from each node of the path to the next, and no others, or it returns a null pointer, and two
-- nodes of the path, one next to the other, have no edge in the table.
pub nodes_to_edges-Links :
    (g : Graph) (path : List Node)
    → ((es : List Edge) × (nodes_to_edges (compute_minimal_edges g) path ≡ some es) × Links path es)
      ⊎ ((nodes_to_edges (compute_minimal_edges g) path ≡ none)
          × Gap (compute_minimal_edges g) path)
unfolding nodes_to_edges
nodes_to_edges-Links g [] = inl ([], refl, refl)
nodes_to_edges-Links g (n ∷ []) = inl ([], refl, refl)
nodes_to_edges-Links g (n ∷ m ∷ ns) =
    elim (Option-cases (lookup nodepair_ops (pair n m) (compute_minimal_edges g))) [
      | inl p ↦ inr (rw (nodes_to_edges, p) refl, inl p)
      | inr (e, p) ↦ elim (nodes_to_edges-Links g (m ∷ ns)) [
        | inl (es, q, links) ↦
            inl (e ∷ es, rw (nodes_to_edges, p, q) refl, (found-pair g n m e p, links))
        | inr (q, gap) ↦ inr (rw (nodes_to_edges, p, q) refl, inr gap)
      ]
    ]
