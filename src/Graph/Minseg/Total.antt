-- ===== src/Graph/Minseg/Total.antt =====
-- `graph_minseg` and `build_segpath` on any graph on which `graph_dijkstra` ends.
use mathlib.Core.List.{reverse_aux}
use mathlib.Core.Path.{subst}
use thesis_data.Common.{
  ℕ, ◌≡◌, inl, inr, refl, sym, ◌∙◌, Option, none, some, List, [], ◌∷◌, ◌++◌, length, leb, ltb, ◌==◌,
  reverse, Outcome, ok, Returns, Bool-cases, Option-cases,
}
use thesis_data.HashMap.Keys.{nodepair_ops}
use thesis_data.Graph.{Node, Graph, exist_node}
use thesis_data.Graph.Minimal.{All, All-map}
use thesis_data.Graph.Tables.{Table, lookup, pair}
use thesis_data.Graph.Segments.{Segment, nodes_to_edges}
use thesis_data.Graph.Copies.{clone}
use thesis_data.Graph.Dijkstra.{Search, no_ops}
use thesis_data.Graph.Dijkstra.Queue.{Known}
use thesis_data.Graph.Dijkstra.Plain.{IsPlain, tables}
use thesis_data.Graph.Dijkstra.Total.{PathsKnown, dijkstra-PathsKnown}
use thesis_data.Graph.Minseg.{
  Dres, Finalized, finalize, insert_adj_segment, break_link, choose, minseg_from, minseg,
}
use thesis_data.Graph.Minseg.Pinned.{IsSound, Ends, preds, found-Known, turn}
use thesis_data.Graph.Minseg.Cached.{with_cache}
use thesis_data.Graph.Segpath.{PathSpec, add_waypoint, path_to, segpath_from, pruned, build_segpath}

-- The next `node_r` of a turn is a node of the graph.
abbrev Next : Finalized → Option (Node × List Segment) → Type 0
Next g o = (r : Node) (res : List Segment) → o ≡ some (r, res) → Known g.nodes r

Next-some :
    (g : Finalized) (r : Node) (res : List Segment) → Known g.nodes r → Next g (some (r, res))
Next-some g r res k = λ r' res' e. let same : r ≡ r' = cc in rw (sym same) k

break_link-Next :
    (g : Finalized) (i ii : Node) (res : List Segment)
    → Known g.nodes ii
    → Next g (break_link g i ii res)
unfolding break_link insert_adj_segment
break_link-Next g i ii res k =
    elim (Option-cases (lookup nodepair_ops (pair i ii) g.tables.min_edges)) [
      | inl p ↦ rw (break_link, insert_adj_segment, p) (λ r res' e. absurd cc)
      | inr (e, p) ↦ rw (break_link, insert_adj_segment, p) (Next-some g ii _ k)
    ]

choose-Next :
    (g : Finalized) (r i ii : Node) (prev_r prev_i : List Node) (res : List Segment)
    → Known g.nodes r
    → Known g.nodes i
    → Known g.nodes ii
    → Next g (choose g r i ii prev_r prev_i res)
unfolding choose
choose-Next g r i ii prev_r prev_i res k k' k'' = elim (Bool-cases (exist_node prev_r i)) [
  | inr a ↦ elim (Bool-cases (length prev_i == 1)) [
    | inl b ↦ rw (choose, a, b) (Next-some g i _ k')
    | inr b ↦ rw (choose, a, b) (break_link-Next g i ii res k'')
  ]
  | inl a ↦ elim (Bool-cases (leb (length prev_r) 1)) [
    | inl b ↦ rw (choose, a, b) (Next-some g r res k)
    | inr b ↦ elim (Bool-cases (ltb 1 (length prev_i))) [
      | inl c ↦ rw (choose, a, b, c) (break_link-Next g i ii res k'')
      | inr c ↦ rw (choose, a, b, c) (Next-some g i _ k')
    ]
  ]
]

module _ (g : Finalized) (sound : IsSound g) (total : Ends g) where
  minseg_from-Returns :
      (r : Node) (path : List Node) (res : List Segment)
      → Known g.nodes r
      → All (Known g.nodes) path
      → Returns (minseg_from g r path res) λ o. Unit {0}
  unfolding minseg_from
  minseg_from-Returns r [] res k a = (some res, refl, tt)
  minseg_from-Returns r (i ∷ []) res k a = (some res, refl, tt)
  minseg_from-Returns r (i ∷ ii ∷ ns) res k (k', a) =
      elim (Option-cases (choose g r i ii (preds g r ii) (preds g i ii) res)) [
        | inl p ↦ (none, turn g sound total r i ii ns res k k' a.0 ∙ rw p refl, tt)
        | inr ((r', res'), p) ↦
            let next : Known g.nodes r' =
              choose-Next g r i ii (preds g r ii) (preds g i ii) res k k' a.0 r' res' p in
            let (o, run, u) = minseg_from-Returns r' (ii ∷ ns) res' next a in
            (o, turn g sound total r i ii ns res k k' a.0 ∙ rw p run, tt)
      ]

  pub minseg-Returns :
      (path : List Node) (res : List Segment)
      → All (Known g.nodes) path
      → Returns (minseg g path res) λ o. Unit {0}
  unfolding minseg
  minseg-Returns [] res a = (some res, refl, tt)
  minseg-Returns (n ∷ ns) res a = minseg_from-Returns n (n ∷ ns) res a.0 a

All-reverse_aux :
    (P : Node → Type 0) (xs ys : List Node) → All P xs → All P ys → All P (reverse_aux xs ys)
All-reverse_aux P [] ys a b = b
All-reverse_aux P (x ∷ xs) ys (p, a) b = All-reverse_aux P xs (x ∷ ys) a (p, b)

first-Known :
    (nodes : List Node) (paths : List (List Node))
    → All (All (Known nodes)) paths
    → Returns
        (elim paths as (λ _. Outcome (Option (List Node))) [ [] ↦ ok none | p ∷ ps ↦ ok (some p) ])
        λ o. (p : List Node) → o ≡ some p → All (Known nodes) p
first-Known nodes [] a = (none, refl, λ p e. absurd cc)
first-Known nodes (q ∷ qs) (a, b) = (some q, refl, λ p e. let same : q ≡ p = cc in rw (sym same) a)

path_to-Returns :
    {S : Type 0} (gc : Finalized) (gres : Search S) (n : Node)
    → Known gc.nodes n
    → PathsKnown gc.nodes gres.path
    → Returns (path_to gc gres n) λ o. (p : List Node) → o ≡ some p → All (Known gc.nodes) p
unfolding path_to
path_to-Returns gc gres n k paths =
    let (m, found) = found-Known gc.nodes n k in
    let (o, e, all) = first-Known gc.nodes (gres.path n.id) (paths n.id) in
    (o, rw (path_to, found) e, all)

-- A finalized graph on which searches end, and another with its nodes, which has been finalized.
module _ {S : Type 0} (pspec : PathSpec S) (f : Finalized) (sound : IsSound f) (total : Ends f)
    (g : Graph) (plain : IsPlain g) (cache : Table ℕ Dres) (same : f.nodes ≡ g.nodes) where
  segpath_from-Returns :
      (cur : Node) (ns : List Node) (res : List Segment) (fpath : List Node)
      → Known g.nodes cur
      → All (Known g.nodes) ns
      → Returns
          (segpath_from pspec f (with_cache (finalize g) cache) cur ns res fpath)
          λ o. Unit {0}
  unfolding segpath_from
  segpath_from-Returns cur [] res fpath k a = (some (res, fpath), refl, tt)
  segpath_from-Returns cur (n ∷ ns) res fpath k (k', a) =
      let (gres, e, paths) = dijkstra-PathsKnown pspec.d_ops g cur (pspec.init cur) plain in
      let (o, e', known) = path_to-Returns (with_cache (finalize g) cache) gres n k' paths in
      elim (Option-cases o) [
        | inl p ↦ (none, rw (segpath_from, e, e', p) refl, tt)
        | inr (path, p) ↦
            let rev_path : List Node = cur ∷ reverse path in
            let all : All (Known g.nodes) rev_path =
              (k, All-reverse_aux (Known g.nodes) path [] (known path p) tt) in
            let (r, e'', u) =
              minseg-Returns f sound total rev_path res
                (All-map rev_path (λ x h. subst (λ ns. Known ns x) (sym same) h) all) in
            elim (Option-cases r) [
              | inl q ↦ (none, rw (segpath_from, e, e', p, e'', q) refl, tt)
              | inr (res', q) ↦
                  let (z, run, u') =
                    segpath_from-Returns n ns (add_waypoint n res') (fpath ++ rev_path) k' a in
                  (z, rw (segpath_from, e, e', p, e'', q) run, tt)
            ]
      ]

-- The graph after what `prune` does to a copy of it has its nodes, and `graph_dijkstra` ends on it.
abbrev pub Prunes : Option (Graph → Graph) → Graph → Type 0
Prunes none g = Unit
Prunes (some prune) g = ((prune (clone g)).nodes ≡ g.nodes) × IsPlain (prune (clone g))

pub plain-Ends :
    (g : Graph) (cache : Table ℕ Dres) → IsPlain g → Ends (with_cache (finalize g) cache)
plain-Ends g cache plain =
    λ n k. let (s, e, u) = dijkstra-PathsKnown no_ops g n tt plain in (s, e, tt)

pruned-none :
    {S : Type 0} (pspec : PathSpec S) (g : Graph) (f : Finalized)
    → pspec.prune ≡ none
    → pruned pspec g f ≡ f
unfolding pruned
pruned-none pspec g f e = rw (pruned, e) refl

pruned-some :
    {S : Type 0} (pspec : PathSpec S) (g : Graph) (f : Finalized) (prune : Graph → Graph)
    → pspec.prune ≡ some prune
    → pruned pspec g f ≡ finalize (prune (clone g))
unfolding pruned
pruned-some pspec g f prune e = rw (pruned, e) refl

module _ {S : Type 0} (pspec : PathSpec S) (g : Graph) (cache : Table ℕ Dres) (plain : IsPlain g)
    (sound : IsSound (with_cache (finalize g) cache)) (known : Known g.nodes pspec.src)
    (stops : All (Known g.nodes) (pspec.via ++ (pspec.dst ∷ []))) where
  pruned-Returns :
      (prune : Option (Graph → Graph))
      → pspec.prune ≡ prune
      → Prunes prune g
      → Returns
          (segpath_from pspec
            (with_cache (finalize g) cache)
            (pruned pspec g (with_cache (finalize g) cache))
            pspec.src
            (pspec.via ++ (pspec.dst ∷ []))
            []
            [])
          λ o. Unit {0}
  pruned-Returns none e h = rw (pruned-none pspec g (with_cache (finalize g) cache) e) (
      segpath_from-Returns pspec (with_cache (finalize g) cache) sound (plain-Ends g cache plain) g
        plain cache refl pspec.src (pspec.via ++ (pspec.dst ∷ [])) [] [] known stops)
  pruned-Returns (some prune) e (nodes, plain') =
      rw (pruned-some pspec g (with_cache (finalize g) cache) prune e) (
        segpath_from-Returns pspec (with_cache (finalize g) cache) sound (plain-Ends g cache plain)
          (prune (clone g)) plain' [] (sym nodes) pspec.src (pspec.via ++ (pspec.dst ∷ [])) [] []
          (subst (λ ns. Known ns pspec.src) (sym nodes) known)
          (All-map (pspec.via ++ (pspec.dst ∷ [])) (λ x h. subst (λ ns. Known ns x) (sym nodes) h)
            stops))

-- On a graph as in `dijkstra-PathsKnown`, with what `graph_finalize` and a sound cache hold, and
-- for a source, waypoints and a destination that are nodes of it, `build_segpath` ends without a
-- fault, whatever its `d_ops` do, where its `prune` leaves such a graph of the same nodes.
pub build_segpath-Returns :
    {S : Type 0} (pspec : PathSpec S) (g : Graph) (cache : Table ℕ Dres)
    → IsPlain g
    → IsSound (with_cache (finalize g) cache)
    → Prunes pspec.prune g
    → Known g.nodes pspec.src
    → All (Known g.nodes) (pspec.via ++ (pspec.dst ∷ []))
    → Returns (build_segpath pspec g (with_cache (finalize g) cache)) λ o. Unit {0}
unfolding build_segpath
build_segpath-Returns pspec g cache plain sound prunes known stops =
    let (o, e, u) = pruned-Returns pspec g cache plain sound known stops pspec.prune refl prunes in
    elim (Option-cases o) [
      | inl p ↦ (none, rw (build_segpath, e, p) refl, tt)
      | inr ((res, fpath), p) ↦
          (some (res, nodes_to_edges (tables g).min_edges fpath), rw (build_segpath, e, p) refl, tt)
    ]
