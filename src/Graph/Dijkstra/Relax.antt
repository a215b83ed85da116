-- ===== src/Graph/Dijkstra/Relax.antt =====
-- A turn of the loop over the neighbours keeps the invariant.
use thesis_data.Common.{
  ℕ, zero, suc, ◌+◌, ◌*◌, ◌≤◌, ◌<◌, ◌≡◌, ◌⊎◌, inl, inr, refl, ap, sym, ◌∙◌, true, false, some, List,
  [], ◌∷◌, ◌==◌, arith, Bool-cases, ==→eq,
}
use thesis_data.Graph.{Node, Edge, max_metric}
use thesis_data.Graph.Minimal.{All, All-map, All-both}
use thesis_data.Graph.Dijkstra.{Tables, put}
use thesis_data.Graph.Dijkstra.Queue.{waits, Known}
use thesis_data.Graph.Dijkstra.Inv.{
  Arc, Walk, step, Tried, Depth, put_self, put_ne, Ready, IsTight, Inv, Last,
}

-- Predecessors of settled ids stay as they are.
pub Depth-agree :
    (queue : List Node) (prev prev' : ℕ → List Node)
    → ((i : ℕ) → waits queue i ≡ false → prev' i ≡ prev i)
    → ((i : ℕ) → All (λ p. waits queue p.id ≡ false) (prev i))
    → (n i : ℕ) → waits queue i ≡ false
    → Depth n prev i
    → Depth n prev' i
Depth-agree queue prev prev' same settled zero i w d = d
Depth-agree queue prev prev' same settled (suc n) i w d = rw (same i w) (
    All-both (prev i) (λ p a b. Depth-agree queue prev prev' same settled n p.id a b) (settled i) d)

pub near_step : (a m n w : ℕ) → a ≤ n * w → m ≤ w → a + m ≤ suc n * w
near_step a m n w h k = grind arith

pub settled_ne :
    (queue : List Node) (v i : ℕ) → waits queue v ≡ true → waits queue i ≡ false → (v == i) ≡ false
settled_ne queue v i w h = elim (Bool-cases (v == i)) [
  | inl e ↦ absurd (ground (arith, w, h, ap (waits queue) (==→eq v i e)))
  | inr e ↦ e
]

module _ (nodes : List Node) (t : Tables) (top : ℕ) (src : Node) (ready : Ready nodes t top) where
  -- One arc more has been tried.
  abbrev pub With : (Node → Node → Type 0) → Node → Node → Node → Node → Type 0
  With Done u v x y = Done x y ⊎ ((x ≡ u) × (y ≡ v))

  module _ {turns : ℕ} {Done : Node → Node → Type 0} {dist : ℕ → ℕ} {prev : ℕ → List Node}
      {queue : List Node} {u v : Node} {e : Edge}
      (inv : Inv nodes t top src (suc turns) Done dist prev queue)
      (last : Last nodes t top src turns u dist queue) (arc : Arc t u v e) (v_known : Known nodes v)
      (low : e.metric ≤ top) (waiting : waits queue v.id ≡ true) where
    abbrev pub alt : ℕ
    alt = dist u.id + e.metric

    -- All arcs from `u` to `v` are the one edge.
    one_edge : (f : Edge) → Arc t u v f → f ≡ e
    one_edge f b = let same : some f ≡ some e = sym b.edge ∙ arc.edge in cc

    module _ (lower : alt < dist v.id) where
      abbrev pub dist' : ℕ → ℕ
      dist' = put v.id alt dist

      abbrev pub prev' : ℕ → List Node
      prev' = put v.id (u ∷ []) prev

      kept : (i : ℕ) → waits queue i ≡ false → dist' i ≡ dist i
      kept i h = put_ne v.id i alt dist (settled_ne queue v.id i waiting h)

      at_v : (i : ℕ) → (v.id == i) ≡ true → dist' i ≡ alt
      at_v i h = rw h refl

      dist'-le : (i : ℕ) → dist' i ≤ dist i
      dist'-le i = elim (Bool-cases (v.id == i)) [
        | inl h ↦ omega (arith, at_v i h, ap dist (==→eq v.id i h))
        | inr h ↦ omega (arith, put_ne v.id i alt dist h)
      ]

      falls_order : (i j : ℕ) → waits queue i ≡ false → waits queue j ≡ true → dist' i ≤ dist' j
      falls_order i j h k = elim (Bool-cases (v.id == j)) [
        | inl q ↦ omega (arith, kept i h, at_v j q, last.furthest i h)
        | inr q ↦ omega (arith, kept i h, put_ne v.id j alt dist q, inv.order i j h k)
      ]

      falls_near : (i : ℕ) → (dist' i ≡ max_metric) ⊎ (dist' i ≤ suc turns * top)
      falls_near i = elim (Bool-cases (v.id == i)) [
        | inl q ↦
            let bound : alt ≤ suc turns * top =
              near_step (dist u.id) e.metric turns top last.near low in
            inr (rw (at_v i q) bound)
        | inr q ↦ rw (put_ne v.id i alt dist q) (inv.near i)
      ]

      falls_arcs :
          (x y : Node) (f : Edge)
          → With Done u v x y
          → Known nodes x
          → waits queue x.id ≡ false
          → Arc t x y f
          → Tried dist' prev' x y f
      falls_arcs x y f (inl d) k w b =
          let tried : Tried dist prev x y f = inv.arcs x y f d k w b in
          record {
            bound = omega (arith, kept x.id w, dist'-le y.id, tried.bound);
            listed = λ pos eq. elim (Bool-cases (v.id == y.id)) [
              | inl q ↦ absurd (
                  omega
                    (arith, kept x.id w, at_v y.id q, tried.bound, eq, ap dist (==→eq v.id y.id q)))
              | inr q ↦
                  rw q
                    (tried.listed pos (omega (arith, kept x.id w, put_ne v.id y.id alt dist q, eq)))
            ];
          }
      falls_arcs x y f (inr (p, q)) k w b =
          let b' : Arc t u v f = rw (p, q) at b in
          let same : f.metric ≡ e.metric = ap (λ (g : Edge). g.metric) (one_edge f b') in
          let from : dist' x.id ≡ dist u.id = kept x.id w ∙ ap (λ (n : Node). dist n.id) p in
          let to : dist' y.id ≡ alt = ap (λ (n : Node). dist' n.id) q ∙ put_self v.id alt dist in
          record {
            bound = omega (arith, same, from, to);
            listed = λ pos eq.
                let here : prev' y.id ≡ u ∷ [] =
                  ap (λ (n : Node). prev' n.id) q ∙ put_self v.id (u ∷ []) prev in
                rw here (inl (sym p));
          }

      falls_walks : (x : Node) → Known nodes x → dist' x.id < max_metric → Walk t src x (dist' x.id)
      falls_walks x k h = elim (Bool-cases (v.id == x.id)) [
        | inl q ↦
            let same : x ≡ v = sym (ready.names.by_id v x v_known k (==→eq v.id x.id q)) in
            let walk : Walk t src v alt = step (inv.walks u last.known last.reached) arc in
            rw (at_v x.id q) (rw same walk)
        | inr q ↦
            let other : dist' x.id ≡ dist x.id = put_ne v.id x.id alt dist q in
            rw other (inv.walks x k (rw other at h))
      ]

      falls-IsTight : (i : ℕ) → All (IsTight nodes t dist' queue i) (prev' i)
      falls-IsTight i = elim (Bool-cases (v.id == i)) [
        | inl q ↦ rw q (
          record {
            known = last.known;
            settled = last.settled;
            target = v;
            named = ==→eq v.id i q;
            edge = e;
            arc = arc;
            cost = omega (arith, at_v i q, kept u.id last.settled);
          },
          tt,
        )
        | inr q ↦ rw q (
            All-map (prev i)
              (λ p b. record {
                known = b.known;
                settled = b.settled;
                target = b.target;
                named = b.named;
                edge = b.edge;
                arc = b.arc;
                cost = omega (arith, put_ne v.id i alt dist q, kept p.id b.settled, b.cost);
              })
              (inv.tight i))
      ]

      pub falls-Inv : Inv nodes t top src (suc turns) (With Done u v) dist' prev' queue
      falls-Inv = record {
        known = inv.known;
        distinct = inv.distinct;
        counted = inv.counted;
        order = falls_order;
        near = falls_near;
        arcs = falls_arcs;
        origin = omega (arith, dist'-le src.id, inv.origin);
        walks = falls_walks;
        tight = falls-IsTight;
        deep = λ i w.
            Depth-agree queue prev prev'
              (λ j h. put_ne v.id j (u ∷ []) prev (settled_ne queue v.id j waiting h))
              (λ j. All-map (prev j) (λ p b. b.settled) (inv.tight j)) (suc (suc turns)) i w
              (inv.deep i w);
      }

      pub falls-Last : Last nodes t top src turns u dist' queue
      falls-Last = record {
        known = last.known;
        settled = last.settled;
        furthest = λ i h. omega (arith, kept i h, kept u.id last.settled, last.furthest i h);
        near = omega (arith, kept u.id last.settled, last.near);
        reached = omega (arith, kept u.id last.settled, last.reached);
      }
