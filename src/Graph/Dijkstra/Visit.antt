-- ===== src/Graph/Dijkstra/Visit.antt =====
-- A turn of the main loop keeps the invariant.
use native.Mathlib.Nat.{mul-le-mul_right}
use thesis_data.Common.{
  ℕ, zero, suc, ◌+◌, ◌-◌, ◌*◌, ◌≤◌, ◌<◌, ◌≡◌, ◌⊎◌, inl, inr, refl, ap, sym, true, false, not, ◌&&◌,
  some, List, [], length, ◌==◌, arith, Bool-cases, ==→eq, Returns,
}
use thesis_data.HashMap.Keys.{node_ops}
use thesis_data.Graph.{Node, Edge, max_metric}
use thesis_data.Graph.Minimal.{Any, All-map, All-every}
use thesis_data.Graph.Tables.{lookup}
use thesis_data.Graph.Dijkstra.{Tables, put, Search, no_ops, drop_node, visit, search_from}
use thesis_data.Graph.Dijkstra.Queue.{
  waits, Known, waits-Any, All-Any, All-Known, drop-waits, drop-All, drop-DistinctIds, length-drop,
  IsNearest, Beyond, select-cases,
}
use thesis_data.Graph.Dijkstra.Inv.{Arc, Tried, Depth, Ready, Inv, Last}
use thesis_data.Graph.Dijkstra.Depths.{Depth-suc, Depth-le, paths_from-Returns, not_dropped}
use thesis_data.Graph.Dijkstra.Turns.{WithAll, relax-Kept}

module _ (nodes : List Node) (t : Tables) (top : ℕ) (src : Node) (ready : Ready nodes t top) where
  abbrev pub Every : Node → Node → Type 0
  Every x y = Unit

  module _ {turns : ℕ} {dist : ℕ → ℕ} {prev : ℕ → List Node} {queue : List Node} (u : Node)
      (inv : Inv nodes t top src turns Every dist prev queue)
      (nearest : IsNearest dist max_metric queue u) where
    abbrev rest : List Node
    rest = drop_node queue u.addr

    u-Known : Known nodes u
    u-Known = All-Any (Known nodes) queue u inv.known nearest.member

    u_waits : waits queue u.id ≡ true
    u_waits = waits-Any queue u nearest.member

    dropped : (i : ℕ) → waits rest i ≡ (waits queue i && not (u.id == i))
    dropped i = drop-waits nodes ready.names queue u i inv.known u-Known inv.distinct

    u_settled : waits rest u.id ≡ false
    u_settled = ground (arith, dropped u.id)

    settled_stays : (i : ℕ) → waits queue i ≡ false → waits rest i ≡ false
    settled_stays i h = ground (arith, dropped i, h)

    settled : (i : ℕ) → waits rest i ≡ false → (waits queue i ≡ false) ⊎ (u.id ≡ i)
    settled i h = not_dropped nodes queue ready.names u i inv.known u-Known inv.distinct h

    furthest : (i : ℕ) → waits rest i ≡ false → dist i ≤ dist u.id
    furthest i h = elim (settled i h) [
      | inl k ↦ inv.order i u.id k u_waits
      | inr e ↦ omega (arith, ap dist e)
    ]

    u_near : dist u.id ≤ turns * top
    u_near = elim (inv.near u.id) [ inl e ↦ absurd (omega (arith, e, nearest.below)) | inr h ↦ h ]

    u_deep : Depth (suc (suc turns)) prev u.id
    u_deep = All-map (prev u.id) (λ p b. inv.deep p.id b.settled) (inv.tight u.id)

    settle-Last : Last nodes t top src turns u dist rest
    settle-Last = record {
      known = u-Known;
      settled = u_settled;
      furthest = furthest;
      near = u_near;
      reached = nearest.below;
    }

    rest_order : (i j : ℕ) → waits rest i ≡ false → waits rest j ≡ true → dist i ≤ dist j
    rest_order i j h k =
        let waited : waits queue j ≡ true = ground (arith, dropped j, k) in
        elim (settled i h) [
          | inl l ↦ inv.order i j l waited
          | inr e ↦ omega (arith, ap dist e, nearest.least j waited)
        ]

    rest_near : (i : ℕ) → (dist i ≡ max_metric) ⊎ (dist i ≤ suc turns * top)
    rest_near i = elim (inv.near i) [
      | inl e ↦ inl e
      | inr h ↦
          let one_more : turns ≤ suc turns = omega arith in
          inr (omega (arith, h, mul-le-mul_right top one_more))
    ]

    rest_arcs :
        (x y : Node) (e : Edge)
        → (x.id == u.id) ≡ false
        → Known nodes x
        → waits rest x.id ≡ false
        → Arc t x y e
        → Tried dist prev x y e
    rest_arcs x y e d k w b = elim (settled x.id w) [
      | inl l ↦ inv.arcs x y e tt k l b
      | inr f ↦ absurd (ground (arith, d, f))
    ]

    settle-Inv : Inv nodes t top src (suc turns) (λ x y. (x.id == u.id) ≡ false) dist prev rest
    settle-Inv = record {
      known = drop-All (Known nodes) queue u.addr inv.known;
      distinct = drop-DistinctIds queue u.addr inv.distinct;
      counted = omega (arith, inv.counted, length-drop queue u nearest.member);
      order = rest_order;
      near = rest_near;
      arcs = rest_arcs;
      origin = inv.origin;
      walks = inv.walks;
      tight = λ i.
          All-map (prev i)
            (λ p b. record {
              known = b.known;
              settled = settled_stays p.id b.settled;
              target = b.target;
              named = b.named;
              edge = b.edge;
              arc = b.arc;
              cost = b.cost;
            })
            (inv.tight i);
      deep = λ i w. elim (settled i w) [
        | inl k ↦ Depth-suc (suc turns) prev i (inv.deep i k)
        | inr e ↦ rw (sym e) u_deep
      ];
    }

  -- The arcs from `u` to all its neighbours, and those of the other nodes, are all there are.
  covered :
      {turns : ℕ} {dist : ℕ → ℕ} {prev : ℕ → List Node} {queue : List Node} (u : Node)
      (ns : List Node)
      → Known nodes u
      → lookup node_ops u.id t.neighs ≡ some ns
      → Inv nodes t top src turns
          (WithAll nodes t top src ready (λ x y. (x.id == u.id) ≡ false) u ns)
          dist
          prev
          queue
      → Inv nodes t top src turns Every dist prev queue
  covered {dist = dist} {queue = queue} u ns u-Known listed inv = record {
    known = inv.known;
    distinct = inv.distinct;
    counted = inv.counted;
    order = inv.order;
    near = inv.near;
    arcs = λ x y e d k w b. inv.arcs x y e (tried x y e k b) k w b;
    origin = inv.origin;
    walks = inv.walks;
    tight = inv.tight;
    deep = inv.deep;
  }
    where
      tried :
          (x y : Node) (e : Edge)
          → Known nodes x
          → Arc t x y e
          → ((x.id == u.id) ≡ false) ⊎ ((x ≡ u) × Any (λ m. m ≡ y) ns)
      tried x y e k b = elim (Bool-cases (x.id == u.id)) [
        | inr d ↦ inl d
        | inl d ↦
            let same : x ≡ u = ready.names.by_id x u k u-Known (==→eq x.id u.id d) in
            let listed' : lookup node_ops u.id t.neighs ≡ some b.ns = rw same at b.listed in
            let lists : b.ns ≡ ns = cc in inr (same, rw lists at b.member)
      ]

  pub visit-Inv :
      (turns : ℕ) (u : Node) (s : Search (Unit {0}))
      → Inv nodes t top src turns Every s.dist s.prev s.queue
      → IsNearest s.dist max_metric s.queue u
      → Returns (visit no_ops t (length nodes) u s) λ s'.
        (suc (length s'.queue) ≡ length s.queue)
        × Inv nodes t top src (suc turns) Every s'.dist s'.prev s'.queue
  unfolding visit
  visit-Inv turns u s inv nearest =
      let k : Known nodes u = u-Known u inv nearest in
      let (ns, listed) = ready.listed u k in
      let shorter : suc (length (drop_node s.queue u.addr)) ≡ length s.queue =
        length-drop s.queue u nearest.member in
      let fits : suc (length nodes) ≡ length s.queue - 1 + suc (suc turns) =
        omega (arith, inv.counted, shorter) in
      let (paths, p, x) =
        paths_from-Returns {P = λ p. Unit {0}} (suc (length nodes)) s.prev [] u
          (λ i. All-every (λ p. Unit {0}) (s.prev i) (λ p. tt)) tt tt
          (Depth-le (length s.queue - 1) (suc (suc turns)) (suc (length nodes)) s.prev u.id fits
            (u_deep u inv nearest)) in
      let s1 : Search (Unit {0}) = record s {
        path = put u.id paths s.path;
        queue = drop_node s.queue u.addr;
      } in
      let (s', e, (q, inv', last)) =
        relax-Kept nodes t top src ready turns (λ x y. (x.id == u.id) ≡ false) u ns ns s1
          (refl, settle-Inv u inv nearest, settle-Last u inv nearest) listed (All-Known ns) in
      (
        s',
        rw (visit, p, listed) e,
        (omega (arith, ap length q, shorter), rw q (covered u ns k listed inv')),
      )

  pub search_from-Inv :
      (fuel turns : ℕ) (s : Search (Unit {0}))
      → Inv nodes t top src turns Every s.dist s.prev s.queue
      → length s.queue < fuel
      → Returns (search_from no_ops t (length nodes) fuel s) λ s'.
        (turns' : ℕ) × Inv nodes t top src turns' Every s'.dist s'.prev s'.queue
        × Beyond s'.dist max_metric s'.queue
  unfolding search_from
  search_from-Inv zero turns s inv h = absurd (omega arith)
  search_from-Inv (suc fuel) turns s inv h = elim (select-cases s.dist s.queue) [
    | inl (p, b) ↦ (s, rw (search_from, p) refl, (turns, inv, b))
    | inr (u, p, nearest) ↦
        let (s', e, (shorter, inv')) = visit-Inv turns u s inv nearest in
        let (s'', e', result) = search_from-Inv fuel (suc turns) s' inv' (omega (arith, shorter)) in
        (s'', rw (search_from, p, e) e', result)
  ]
