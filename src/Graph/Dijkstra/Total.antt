-- ===== src/Graph/Dijkstra/Total.antt =====
-- `graph_dijkstra` with any `ops`.
use thesis_data.Common.{
  ℕ, zero, suc, ◌+◌, ◌-◌, ◌<◌, ◌≡◌, inl, inr, refl, sym, ap, ◌∙◌, true, false, not, ◌&&◌, ltb, some,
  List, [], ◌∷◌, ◌++◌, length, ◌==◌, arith, Bool-cases, Returns, ok,
}
use thesis_data.HashMap.Keys.{node_ops, nodepair_ops}
use thesis_data.Graph.{Node, Edge, Graph, exist_node, compute_neighbors}
use thesis_data.Graph.Minimal.{All, All-map, All-append, Any}
use thesis_data.Graph.Tables.{lookup, pair}
use thesis_data.Graph.Adjacent.{compute_all_neighbors-lookup}
use thesis_data.Graph.Dijkstra.{
  put, Search, DOps, drop_node, new_cost, improve, relax_one, relax, visit, search_from, initial,
  dijkstra,
}
use thesis_data.Graph.Dijkstra.Queue.{
  waits, DistinctIds, Known, All-Any, All-Known, exist_node-waits, drop-waits, drop-All,
  drop-DistinctIds, length-drop, select-cases,
}
use thesis_data.Graph.Dijkstra.Inv.{Depth, put_ne}
use thesis_data.Graph.Dijkstra.Relax.{Depth-agree, settled_ne}
use thesis_data.Graph.Dijkstra.Depths.{Depth-suc, Depth-le, paths_from-Returns, not_dropped}
use thesis_data.Graph.Dijkstra.Plain.{IsPlain, tables, names, ends, joined}

-- A node of the graph that has been taken from the queue.
abbrev Settled : List Node → List Node → Node → Type 0
Settled nodes queue p = Known nodes p × (waits queue p.id ≡ false)

-- What each turn of a search keeps, whatever its costs.
record Sane (nodes : List Node) (turns : ℕ) (prev : ℕ → List Node) (queue : List Node)
    : Type 0 where
  known : All (Known nodes) queue
  distinct : DistinctIds queue
  counted : turns + length queue ≡ length nodes
  preds : (i : ℕ) → All (Settled nodes queue) (prev i)
  deep : (i : ℕ) → waits queue i ≡ false → Depth (suc turns) prev i

-- The nodes of all paths are nodes of the graph.
abbrev pub PathsKnown : List Node → (ℕ → List (List Node)) → Type 0
PathsKnown nodes path = (i : ℕ) → All (All (Known nodes)) (path i)

All-put {ℓ} :
    {A : Type ℓ} (P : A → Type 0) (i : ℕ) (xs : List A) (f : ℕ → List A)
    → All P xs
    → ((j : ℕ) → All P (f j))
    → (j : ℕ) → All P (put i xs f j)
All-put P i xs f a h j = elim (Bool-cases (i == j)) [ inl e ↦ rw e a | inr e ↦ rw e (h j) ]

module _ {S : Type 0} (ops : DOps S) (g : Graph) (plain : IsPlain g) where
  -- New predecessors of a node that waits.
  put-Sane :
      {turns : ℕ} {prev : ℕ → List Node} {queue : List Node} (i : ℕ) (ps : List Node)
      → waits queue i ≡ true
      → All (Settled g.nodes queue) ps
      → Sane g.nodes (suc turns) prev queue
      → Sane g.nodes (suc turns) (put i ps prev) queue
  put-Sane {turns = turns} {prev = prev} {queue = queue} i ps w a sane = record {
    known = sane.known;
    distinct = sane.distinct;
    counted = sane.counted;
    preds = All-put (Settled g.nodes queue) i ps prev a sane.preds;
    deep = λ j h.
        Depth-agree queue prev (put i ps prev)
          (λ k h'. put_ne i k ps prev (settled_ne queue i k w h'))
          (λ k. All-map (prev k) (λ p s. s.1) (sane.preds k)) (suc (suc turns)) j h (sane.deep j h);
  }

  -- What a turn, or the rest of the loop, over the neighbours keeps.
  abbrev Kept : ℕ → Search S → Search S → Type 0
  Kept turns s s' =
      (s'.queue ≡ s.queue) × (s'.path ≡ s.path) × Sane g.nodes (suc turns) s'.prev s'.queue

  improve-Kept :
      (turns : ℕ) (u v : Node) (e : Edge) (alt : ℕ) (s : Search S)
      → Settled g.nodes s.queue u
      → waits s.queue v.id ≡ true
      → Sane g.nodes (suc turns) s.prev s.queue
      → Kept turns s (improve ops s u v e alt)
  unfolding improve
  improve-Kept turns u v e alt s settled w sane = elim (Bool-cases (ltb alt (s.dist v.id))) [
    | inl p ↦ rw (improve, p) (refl, refl, put-Sane v.id (u ∷ []) w (settled, tt) sane)
    | inr p ↦ elim (Bool-cases (alt == s.dist v.id)) [
      | inl q ↦
          rw (improve, p, q)
            (
              refl,
              refl,
              put-Sane v.id (s.prev v.id ++ (u ∷ [])) w
                  (All-append _ (s.prev v.id) (u ∷ []) (sane.preds v.id) (settled, tt)) sane,
            )
      | inr q ↦ rw (improve, p, q) (refl, refl, sane)
    ]
  ]

  relaxed :
      (u v : Node) (e : Edge) (s : Search S)
      → exist_node s.queue v ≡ true
      → lookup nodepair_ops (pair u v) (tables g).min_edges ≡ some e
      → relax_one ops (tables g) u s v ≡ ok (improve ops s u v e (new_cost ops s u e))
  unfolding relax_one
  relaxed u v e s waiting found = rw (relax_one, waiting, found) refl

  relax_one-Kept :
      (turns : ℕ) (u v : Node) (ns : List Node) (s : Search S)
      → Settled g.nodes s.queue u
      → lookup node_ops u.id (tables g).neighs ≡ some ns
      → Any (λ m. m ≡ v) ns
      → Sane g.nodes (suc turns) s.prev s.queue
      → Returns (relax_one ops (tables g) u s v) (Kept turns s)
  unfolding relax_one
  relax_one-Kept turns u v ns s settled listed m sane =
      let k : Known g.nodes v = ends g plain u v ns settled.0 listed m in
      let test : exist_node s.queue v ≡ waits s.queue v.id =
        exist_node-waits g.nodes (names g plain) s.queue v sane.known k in
      elim (Bool-cases (exist_node s.queue v)) [
        | inr out ↦ (s, rw (relax_one, out) refl, (refl, refl, sane))
        | inl waiting ↦
            let w : waits s.queue v.id ≡ true = sym test ∙ waiting in
            let other : (u.id == v.id) ≡ false =
              ground (arith, settled_ne s.queue v.id u.id w settled.1) in
            let (e, found, minimal) = joined g plain u v ns settled.0 listed m other in
            let s' : Search S = improve ops s u v e (new_cost ops s u e) in
            let kept : Kept turns s s' =
              improve-Kept turns u v e (new_cost ops s u e) s settled w sane in
            (s', relaxed u v e s waiting found, kept)
      ]

  relax-Kept :
      (turns : ℕ) (u : Node) (ns vs : List Node) (s : Search S)
      → Settled g.nodes s.queue u
      → lookup node_ops u.id (tables g).neighs ≡ some ns
      → All (λ v. Any (λ m. m ≡ v) ns) vs
      → Sane g.nodes (suc turns) s.prev s.queue
      → Returns (relax ops (tables g) u vs s) (Kept turns s)
  unfolding relax
  relax-Kept turns u ns [] s settled listed a sane = (s, refl, (refl, refl, sane))
  relax-Kept turns u ns (v ∷ vs) s settled listed (m, a) sane =
      let (s', e, (q, p, sane')) = relax_one-Kept turns u v ns s settled listed m sane in
      let (s'', e', (q', p', sane'')) = relax-Kept turns u ns vs s' (rw q settled) listed a sane' in
      (s'', rw (relax, e) e', (q' ∙ q, p' ∙ p, sane''))

  module _ {turns : ℕ} {prev : ℕ → List Node} {queue : List Node} (u : Node)
      (sane : Sane g.nodes turns prev queue) (member : Known queue u) where
    u-Known : Known g.nodes u
    u-Known = All-Any (Known g.nodes) queue u sane.known member

    dropped : (i : ℕ) → waits (drop_node queue u.addr) i ≡ (waits queue i && not (u.id == i))
    dropped i = drop-waits g.nodes (names g plain) queue u i sane.known u-Known sane.distinct

    u-Settled : Settled g.nodes (drop_node queue u.addr) u
    u-Settled = (u-Known, ground (arith, dropped u.id))

    settled_stays :
        (p : Node) → Settled g.nodes queue p → Settled g.nodes (drop_node queue u.addr) p
    settled_stays p (k, w) = (k, ground (arith, dropped p.id, w))

    u_deep : Depth (suc (suc turns)) prev u.id
    u_deep = All-map (prev u.id) (λ p s. sane.deep p.id s.1) (sane.preds u.id)

    settle-Sane : Sane g.nodes (suc turns) prev (drop_node queue u.addr)
    settle-Sane = record {
      known = drop-All (Known g.nodes) queue u.addr sane.known;
      distinct = drop-DistinctIds queue u.addr sane.distinct;
      counted = omega (arith, sane.counted, length-drop queue u member);
      preds = λ i. All-map (prev i) settled_stays (sane.preds i);
      deep = λ i w.
          elim (not_dropped g.nodes queue (names g plain) u i sane.known u-Known sane.distinct w) [
            | inl k ↦ Depth-suc (suc turns) prev i (sane.deep i k)
            | inr e ↦ rw (sym e) u_deep
          ];
    }

  visit-Sane :
      (turns : ℕ) (u : Node) (s : Search S)
      → Sane g.nodes turns s.prev s.queue
      → PathsKnown g.nodes s.path
      → Known s.queue u
      → Returns (visit ops (tables g) (length g.nodes) u s) λ s'.
        (suc (length s'.queue) ≡ length s.queue)
        × Sane g.nodes (suc turns) s'.prev s'.queue
        × PathsKnown g.nodes s'.path
  unfolding visit
  visit-Sane turns u s sane paths_known member =
      let k : Known g.nodes u = u-Known u sane member in
      let listed : lookup node_ops u.id (tables g).neighs ≡ some (compute_neighbors g u) =
        compute_all_neighbors-lookup g u k in
      let shorter : suc (length (drop_node s.queue u.addr)) ≡ length s.queue =
        length-drop s.queue u member in
      let fits : suc (length g.nodes) ≡ length s.queue - 1 + suc (suc turns) =
        omega (arith, sane.counted, shorter) in
      let (paths, p, all) =
        paths_from-Returns (suc (length g.nodes)) s.prev [] u
          (λ i. All-map (s.prev i) (λ p s. s.0) (sane.preds i)) tt k
          (Depth-le (length s.queue - 1) (suc (suc turns)) (suc (length g.nodes)) s.prev u.id fits
            (u_deep u sane member)) in
      let s1 : Search S = record s {
        path = put u.id paths s.path;
        queue = drop_node s.queue u.addr;
      } in
      let (s', e, (q, same, sane')) =
        relax-Kept turns u (compute_neighbors g u) (compute_neighbors g u) s1
          (u-Settled u sane member) listed (All-Known (compute_neighbors g u))
          (settle-Sane u sane member) in
      (
        s',
        rw (visit, p, listed) e,
        (
          omega (arith, ap length q, shorter),
          sane',
          rw same (All-put (All (Known g.nodes)) u.id paths s.path all paths_known),
        ),
      )

  search_from-Sane :
      (fuel turns : ℕ) (s : Search S)
      → Sane g.nodes turns s.prev s.queue
      → PathsKnown g.nodes s.path
      → length s.queue < fuel
      → Returns
          (search_from ops (tables g) (length g.nodes) fuel s)
          λ s'. PathsKnown g.nodes s'.path
  unfolding search_from
  search_from-Sane zero turns s sane paths_known h = absurd (omega arith)
  search_from-Sane (suc fuel) turns s sane paths_known h = elim (select-cases s.dist s.queue) [
    | inl (p, b) ↦ (s, rw (search_from, p) refl, paths_known)
    | inr (u, p, nearest) ↦
        let (s', e, (shorter, sane', paths_known')) =
          visit-Sane turns u s sane paths_known nearest.member in
        let (s'', e', result) =
          search_from-Sane fuel (suc turns) s' sane' paths_known' (omega (arith, h, shorter)) in
        (s'', rw (search_from, p, e) e', result)
  ]

-- On a graph whose nodes have distinct ids and addresses and are the ends of its edges, and whose
-- metrics are words of 32 bits, `graph_dijkstra` from any node ends without a fault, whatever the
-- callbacks `cost` and `update` do, and the paths it leaves go through nodes of the graph.
pub dijkstra-PathsKnown :
    {S : Type 0} (ops : DOps S) (g : Graph) (src : Node) (state : S)
    → IsPlain g
    → Returns (dijkstra ops (tables g) g.nodes src state) λ s. PathsKnown g.nodes s.path
unfolding dijkstra initial
dijkstra-PathsKnown ops g src state plain =
    search_from-Sane ops g plain (suc (length g.nodes)) 0 (initial g.nodes src state)
      (record {
        known = All-Known g.nodes;
        distinct = plain.ids;
        counted = omega arith;
        preds = λ i. tt;
        deep = λ i h. tt;
      })
      (λ i. tt) (omega arith)
