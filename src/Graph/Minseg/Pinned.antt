-- ===== src/Graph/Minseg/Pinned.antt =====
-- `graph_minseg` against the shortest paths that a packet takes between two segments.
use thesis_data.Common.{
  ℕ, ◌≡◌, ◌≢◌, ◌≤◌, ◌⊎◌, inl, inr, refl, ap, sym, ◌∙◌, true, Option, none, some, List, [], ◌∷◌,
  ◌++◌, length, ltb, leb, ◌==◌, Outcome, ok, fault, Returns, arith, Bool-cases, Option-cases, ==→eq,
  append_assoc, append-nil,
}
use thesis_data.HashMap.Keys.{node_ops, nodepair_ops}
use thesis_data.Graph.{Node, Edge, exist_node, get_node_in}
use thesis_data.Graph.Minimal.{All}
use thesis_data.Graph.Tables.{lookup, pair}
use thesis_data.Graph.Segments.{Segment, node_segment, adj_segment, Gap}
use thesis_data.Graph.Dijkstra.Queue.{Known}
use thesis_data.Graph.Minseg.{
  Dres, Finalized, from_node, insert_adj_segment, result_of, prev_of, break_link, choose,
  minseg_from, minseg,
}

-- The predecessors of a node on the shortest paths from another.
unfoldable pub preds : Finalized → Node → Node → List Node
preds g n v = elim (from_node g n) [ ok s ↦ s.prev v.id | fault e ↦ [] ]

-- The list has a node, which is that node, and no other.
abbrev pub Only : List Node → Node → Type 0
Only ns n = (length ns ≡ 1) × (exist_node ns n ≡ true)

-- Segments that pin a path down, where the last segment ended at a node and `Way r i ii` says what
-- the only way is on which shortest paths from `r` come into `ii`: each link of the path is
-- the only way that shortest paths from the end of the last segment take into its second node, or
-- a segment for its first node stands in front of it, of which that is true, or it stands as an
-- adjacency itself.
pub data Pinned (g : Finalized) (Way : Node → Node → Node → Type 0)
    : Node → List Node → List Segment → Type 0 where
  arrived : {r n : Node} → Pinned g Way r (n ∷ []) []
  followed :
      {r i ii : Node} {ns : List Node} {ss : List Segment}
      → Way r i ii
      → Pinned g Way r (ii ∷ ns) ss
      → Pinned g Way r (i ∷ ii ∷ ns) ss
  through :
      {r i ii : Node} {ns : List Node} {ss : List Segment}
      → Way i i ii
      → Pinned g Way i (ii ∷ ns) ss
      → Pinned g Way r (i ∷ ii ∷ ns) (node_segment i ∷ ss)
  across :
      {r i ii : Node} {ns : List Node} {ss : List Segment} {e : Edge}
      → lookup nodepair_ops (pair i ii) g.tables.min_edges ≡ some e
      → Pinned g Way ii (ii ∷ ns) ss
      → Pinned g Way r (i ∷ ii ∷ ns) (node_segment i ∷ adj_segment e ∷ ss)

-- Each link of the path is on a shortest path from its first node to its second.
abbrev pub Shortest : Finalized → List Node → Type 0
Shortest g [] = Unit
Shortest g (i ∷ []) = Unit
Shortest g (i ∷ ii ∷ ns) = (exist_node (preds g i ii) i ≡ true) × Shortest g (ii ∷ ns)

-- The cache has what a computation would give.
abbrev pub IsSound : Finalized → Type 0
IsSound g = (n : Node) (r : Dres) → lookup node_ops n.id g.dcache ≡ some r → from_node g n ≡ ok r

pub result_of-IsSound : (g : Finalized) → IsSound g → (n : Node) → result_of g n ≡ from_node g n
unfolding result_of
result_of-IsSound g sound n = elim (Option-cases (lookup node_ops n.id g.dcache)) [
  | inl p ↦ rw (result_of, p) refl
  | inr (r, p) ↦ rw (result_of, p) (sym (sound n r p))
]

exist-length : (ns : List Node) (n : Node) → exist_node ns n ≡ true → 1 ≤ length ns
unfolding exist_node
exist-length [] n h = absurd cc
exist-length (m ∷ ns) n h = omega arith

pub found-Known :
    (ns : List Node) (v : Node) → Known ns v → (m : Node) × (get_node_in ns v.id ≡ some m)
unfolding get_node_in
found-Known [] v k = absurd k
found-Known (n ∷ ns) v (inl e) =
    let same : (n.id == v.id) ≡ true = ground (arith, ap (λ (k : Node). k.id) e) in
    (n, rw (get_node_in, same) refl)
found-Known (n ∷ ns) v (inr k) = elim (Bool-cases (n.id == v.id)) [
  | inl e ↦ (n, rw (get_node_in, e) refl)
  | inr e ↦ let (m, p) = found-Known ns v k in (m, rw (get_node_in, e) p)
]

pub get_node_in-Known :
    (ns : List Node) (id : ℕ) (n : Node) → get_node_in ns id ≡ some n → Known ns n
unfolding get_node_in
get_node_in-Known [] id n h = absurd cc
get_node_in-Known (m ∷ ns) id n h = elim (Bool-cases (m.id == id)) [
  | inl e ↦ let found : some m ≡ some n = rw e at h in inl cc
  | inr e ↦
      let later : get_node_in ns id ≡ some n = rw e at h in inr (get_node_in-Known ns id n later)
]

-- The result of a run: the segments put behind others pin the path down, or a link has no edge.
abbrev pub Pins :
    Finalized
    → (Node → Node → Node → Type 0)
    → Node
    → List Node
    → List Segment
    → Option (List Segment)
    → Type 0
Pins g Way r path res o =
    ((ss : List Segment) × (o ≡ some (res ++ ss)) × Pinned g Way r path ss)
    ⊎ ((o ≡ none) × Gap g.tables.min_edges path)

-- One way is another, for the nodes there are.
pub Pins-map :
    (g : Finalized) (Way Way' : Node → Node → Node → Type 0)
    → ((r i ii : Node)
        → Known g.nodes r
        → Known g.nodes i
        → Known g.nodes ii
        → Way r i ii
        → Way' r i ii)
    → (r : Node) (path : List Node) (res : List Segment) (o : Option (List Segment))
    → Known g.nodes r
    → All (Known g.nodes) path
    → Pins g Way r path res o
    → Pins g Way' r path res o
Pins-map g Way Way' f r path res o k a (inr h) = inr h
Pins-map g Way Way' f r path res o k a (inl (ss, e, p)) = inl (ss, e, ways r path ss k a p)
  where
    ways :
        (r : Node) (path : List Node) (ss : List Segment)
        → Known g.nodes r
        → All (Known g.nodes) path
        → Pinned g Way r path ss
        → Pinned g Way' r path ss
    ways r path ss k a arrived = arrived
    ways r (i ∷ ii ∷ ns) ss k a (followed w p) =
        followed (f r i ii k a.0 a.1.0 w) (ways r (ii ∷ ns) ss k a.1 p)
    ways r (i ∷ ii ∷ ns) (s ∷ ss) k a (through w p) =
        through (f i i ii a.0 a.0 a.1.0 w) (ways i (ii ∷ ns) ss a.0 a.1 p)
    ways r (i ∷ ii ∷ ns) (s ∷ s' ∷ ss) k a (across e p) =
        across e (ways ii (ii ∷ ns) ss a.1.0 a.1 p)

-- The list of predecessors has one node.
abbrev pub Listed : Finalized → Node → Node → Node → Type 0
Listed g r i ii = Only (preds g r ii) i

-- What a turn does: the link is followed, or a segment for its first node is put in front, or the
-- link is broken out, or has no edge.
data Choice (g : Finalized) (r i ii : Node) (prev_r prev_i : List Node) (res : List Segment)
    : Type 0 where
  follows :
      Only prev_r i
      → choose g r i ii prev_r prev_i res ≡ some (r, res)
      → Choice g r i ii prev_r prev_i res
  goes_through :
      Only prev_i i
      → choose g r i ii prev_r prev_i res ≡ some (i, res ++ (node_segment i ∷ []))
      → Choice g r i ii prev_r prev_i res
  breaks :
      (e : Edge)
      → lookup nodepair_ops (pair i ii) g.tables.min_edges ≡ some e
      → choose g r i ii prev_r prev_i res
        ≡ some (ii, (res ++ (node_segment i ∷ [])) ++ (adj_segment e ∷ []))
      → Choice g r i ii prev_r prev_i res
  fails :
      lookup nodepair_ops (pair i ii) g.tables.min_edges ≡ none
      → choose g r i ii prev_r prev_i res ≡ none
      → Choice g r i ii prev_r prev_i res

breaking :
    (g : Finalized) (r i ii : Node) (prev_r prev_i : List Node) (res : List Segment)
    → choose g r i ii prev_r prev_i res ≡ break_link g i ii res
    → Choice g r i ii prev_r prev_i res
unfolding break_link insert_adj_segment
breaking g r i ii prev_r prev_i res run =
    elim (Option-cases (lookup nodepair_ops (pair i ii) g.tables.min_edges)) [
      | inl p ↦ fails p (run ∙ rw (break_link, insert_adj_segment, p) refl)
      | inr (e, p) ↦ breaks e p (run ∙ rw (break_link, insert_adj_segment, p) refl)
    ]

choice :
    (g : Finalized) (r i ii : Node) (prev_r prev_i : List Node) (res : List Segment)
    → exist_node prev_i i ≡ true
    → Choice g r i ii prev_r prev_i res
unfolding choose
choice g r i ii prev_r prev_i res h =
    let some_i : 1 ≤ length prev_i = exist-length prev_i i h in
    elim (Bool-cases (exist_node prev_r i)) [
      | inr a ↦ elim (Bool-cases (length prev_i == 1)) [
        | inl b ↦ goes_through (==→eq (length prev_i) 1 b, h) (rw (choose, a, b) refl)
        | inr b ↦ breaking g r i ii prev_r prev_i res (rw (choose, a, b) refl)
      ]
      | inl a ↦
          let some_r : 1 ≤ length prev_r = exist-length prev_r i a in
          elim (Bool-cases (leb (length prev_r) 1)) [
            | inl b ↦ follows (ground (arith, b, some_r), a) (rw (choose, a, b) refl)
            | inr b ↦ elim (Bool-cases (ltb 1 (length prev_i))) [
              | inl c ↦ breaking g r i ii prev_r prev_i res (rw (choose, a, b, c) refl)
              | inr c ↦ goes_through (ground (arith, c, some_i), h) (rw (choose, a, b, c) refl)
            ]
          ]
    ]

-- Every computation of shortest paths ends.
abbrev pub Ends : Finalized → Type 0
Ends g = (n : Node) → Known g.nodes n → Returns (from_node g n) λ s. Unit {0}

-- One more link in front of a path.
Pins-cons :
    (g : Finalized) (Way : Node → Node → Node → Type 0) (r r' i ii : Node) (ns : List Node)
    (res before acc : List Segment) (o : Option (List Segment))
    → acc ≡ res ++ before
    → ((ss : List Segment)
        → Pinned g Way r' (ii ∷ ns) ss
        → Pinned g Way r (i ∷ ii ∷ ns) (before ++ ss))
    → Pins g Way r' (ii ∷ ns) acc o
    → Pins g Way r (i ∷ ii ∷ ns) res o
Pins-cons g Way r r' i ii ns res before acc o e f (inl (ss, p, pinned)) = inl (
  before ++ ss,
  p ∙ ap (λ a. some (a ++ ss)) e ∙ ap some (append_assoc res before ss),
  f ss pinned,
)
Pins-cons g Way r r' i ii ns res before acc o e f (inr (p, gap)) = inr (p, inr gap)

module _ (g : Finalized) (sound : IsSound g) (total : Ends g) where
  pub looked_up :
      (n v : Node)
      → Known g.nodes n
      → Known g.nodes v
      → (s : Dres) × (result_of g n ≡ ok s) × (prev_of g s v ≡ ok (preds g n v))
  unfolding prev_of preds
  looked_up n v k k' =
      let (s, e, u) = total n k in
      let (m, found) = found-Known g.nodes v k' in
      (s, result_of-IsSound g sound n ∙ e, rw (prev_of, preds, found, e) refl)

  -- A turn of the loop.
  pub turn :
      (r i ii : Node) (ns : List Node) (res : List Segment)
      → Known g.nodes r
      → Known g.nodes i
      → Known g.nodes ii
      → minseg_from g r (i ∷ ii ∷ ns) res
        ≡ elim (choose g r i ii (preds g r ii) (preds g i ii) res)
            as (λ _. Outcome (Option (List Segment))) [
              | none ↦ ok none
              | some (r', res') ↦ minseg_from g r' (ii ∷ ns) res'
            ]
  unfolding minseg_from
  turn r i ii ns res k k' k'' =
      let (s_i, e_i, p_i) = looked_up i ii k' k'' in
      let (s_r, e_r, p_r) = looked_up r ii k k'' in rw (minseg_from, e_i, e_r, p_r, p_i) refl

  minseg_from-Pins :
      (r : Node) (path : List Node) (res : List Segment)
      → Known g.nodes r
      → All (Known g.nodes) path
      → path ≢ []
      → Shortest g path
      → Returns (minseg_from g r path res) (Pins g (Listed g) r path res)
  unfolding minseg_from
  minseg_from-Pins r [] res k a ne s = absurd (ne refl)
  minseg_from-Pins r (i ∷ []) res k a ne s =
      (some res, refl, inl ([], ap some (sym (append-nil res)), arrived))
  minseg_from-Pins r (i ∷ ii ∷ ns) res k (k', a) ne (on, s) =
      elim (choice g r i ii (preds g r ii) (preds g i ii) res on) [
        | follows only e ↦
            let (o, run, pins) = minseg_from-Pins r (ii ∷ ns) res k a (λ p. cc) s in
            (
              o,
              turn r i ii ns res k k' a.0 ∙ rw e run,
              Pins-cons g (Listed g) r r i ii ns res [] res o (sym (append-nil res))
                  (λ ss p. followed only p) pins,
            )
        | goes_through only e ↦
            let (o, run, pins) =
              minseg_from-Pins i (ii ∷ ns) (res ++ (node_segment i ∷ [])) k' a (λ p. cc) s in
            (
              o,
              turn r i ii ns res k k' a.0 ∙ rw e run,
              Pins-cons g (Listed g) r i i ii ns res (node_segment i ∷ [])
                  (res ++ (node_segment i ∷ [])) o refl (λ ss p. through only p) pins,
            )
        | breaks edge found e ↦
            let (o, run, pins) =
              minseg_from-Pins ii (ii ∷ ns)
                ((res ++ (node_segment i ∷ [])) ++ (adj_segment edge ∷ [])) a.0 a (λ p. cc) s in
            (
              o,
              turn r i ii ns res k k' a.0 ∙ rw e run,
              Pins-cons g (Listed g) r ii i ii ns res (node_segment i ∷ adj_segment edge ∷ [])
                  ((res ++ (node_segment i ∷ [])) ++ (adj_segment edge ∷ [])) o
                  (append_assoc res (node_segment i ∷ []) (adj_segment edge ∷ []))
                  (λ ss p. across found p) pins,
            )
        | fails gap e ↦ (none, turn r i ii ns res k k' a.0 ∙ rw e refl, inr (refl, inl gap))
      ]

  pub minseg-Pins :
      (n : Node) (ns : List Node) (res : List Segment)
      → All (Known g.nodes) (n ∷ ns)
      → Shortest g (n ∷ ns)
      → Returns (minseg g (n ∷ ns) res) (Pins g (Listed g) n (n ∷ ns) res)
  unfolding minseg
  minseg-Pins n ns res (k, a) s = minseg_from-Pins n (n ∷ ns) res k (k, a) (λ p. cc) s
