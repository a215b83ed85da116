-- ===== src/Graph/Dijkstra/Turns.antt =====
-- The loop over the neighbours, with its three branches, keeps the invariant.
use native.Mathlib.Nat.{mod-eq_of_lt, mul-le-mul_right}
use thesis_data.Common.{
  ℕ, suc, ◌+◌, ◌*◌, ◌%◌, ◌^◌, ◌≤◌, ◌<◌, ◌≡◌, ◌⊎◌, inl, inr, refl, ap, sym, ◌∙◌, true, false, some,
  List, [], ◌∷◌, ◌++◌, length, ltb, ◌==◌, arith, Bool-cases, ==→eq, Returns,
}
use thesis_data.HashMap.Keys.{node_ops}
use thesis_data.Graph.{Node, Edge, exist_node, max_metric}
use thesis_data.Graph.Minimal.{All, Any, All-map}
use thesis_data.Graph.Neighbors.{All-snoc}
use thesis_data.Graph.Tables.{lookup}
use thesis_data.Graph.Dijkstra.{Tables, put, Search, no_ops, new_cost, improve, relax_one, relax}
use thesis_data.Graph.Dijkstra.Queue.{waits, Known, exist_node-waits}
use thesis_data.Graph.Dijkstra.Inv.{Arc, Tried, put_self, put_ne, Ready, IsTight, Inv, Last}
use thesis_data.Graph.Dijkstra.Relax.{
  With, Depth-agree, settled_ne, near_step, falls-Inv, falls-Last,
}

==_flip : (a b : ℕ) → (a == b) ≡ false → (b == a) ≡ false
==_flip a b h = ground arith

no_wrap :
    (a m turns top size : ℕ)
    → a ≤ turns * top
    → m ≤ top
    → suc turns ≤ size
    → size * top < max_metric
    → (a + m) % 2 ^ 32 ≡ a + m
no_wrap a m turns top size h k fits small =
    let most : suc turns * top ≤ size * top = mul-le-mul_right top fits in
    mod-eq_of_lt (omega (arith, near_step a m turns top h k))

Any-left : (P : Node → Type 0) (xs ys : List Node) → Any P xs → Any P (xs ++ ys)
Any-left P [] ys h = absurd h
Any-left P (x ∷ xs) ys (inl p) = inl p
Any-left P (x ∷ xs) ys (inr h) = inr (Any-left P xs ys h)

Any-last : (xs : List Node) (u : Node) → Any (λ p. p ≡ u) (xs ++ (u ∷ []))
Any-last [] u = inl refl
Any-last (x ∷ xs) u = inr (Any-last xs u)

module _ (nodes : List Node) (t : Tables) (top : ℕ) (src : Node) (ready : Ready nodes t top) where
  -- More arcs than are needed have been tried.
  pub Inv-fewer :
      {turns : ℕ} {Done Done' : Node → Node → Type 0} {dist : ℕ → ℕ} {prev : ℕ → List Node}
      {queue : List Node}
      → ((x y : Node) → Done' x y → Done x y)
      → Inv nodes t top src turns Done dist prev queue
      → Inv nodes t top src turns Done' dist prev queue
  Inv-fewer f inv = record {
    known = inv.known;
    distinct = inv.distinct;
    counted = inv.counted;
    order = inv.order;
    near = inv.near;
    arcs = λ x y e d. inv.arcs x y e (f x y d);
    origin = inv.origin;
    walks = inv.walks;
    tight = inv.tight;
    deep = inv.deep;
  }

  -- An arc that asks for nothing.
  steady :
      {turns : ℕ} {Done : Node → Node → Type 0} {dist : ℕ → ℕ} {prev : ℕ → List Node}
      {queue : List Node} (u v : Node)
      → Inv nodes t top src turns Done dist prev queue
      → ((f : Edge) → Arc t u v f → Tried dist prev u v f)
      → Inv nodes t top src turns (With nodes t top src ready Done u v) dist prev queue
  steady {Done = Done} {dist = dist} {prev = prev} {queue = queue} u v inv h = record {
    known = inv.known;
    distinct = inv.distinct;
    counted = inv.counted;
    order = inv.order;
    near = inv.near;
    arcs = tried;
    origin = inv.origin;
    walks = inv.walks;
    tight = inv.tight;
    deep = inv.deep;
  }
    where
      tried :
          (x y : Node) (f : Edge)
          → With nodes t top src ready Done u v x y
          → Known nodes x
          → waits queue x.id ≡ false
          → Arc t x y f
          → Tried dist prev x y f
      tried x y f (inl d) k w b = inv.arcs x y f d k w b
      tried x y f (inr (p, q)) k w b = let b' : Arc t u v f = rw (p, q) at b in rw (p, q) (h f b')

  -- One predecessor more, of the same cost.
  ties :
      {turns : ℕ} {Done : Node → Node → Type 0} {dist : ℕ → ℕ} {prev : ℕ → List Node}
      {queue : List Node} (u v : Node) (e : Edge)
      → Inv nodes t top src (suc turns) Done dist prev queue
      → Last nodes t top src turns u dist queue
      → Arc t u v e
      → waits queue v.id ≡ true
      → dist v.id ≡ dist u.id + e.metric
      → Inv nodes t top src (suc turns) Done dist (put v.id (prev v.id ++ (u ∷ [])) prev) queue
  ties {turns = turns} {dist = dist} {prev = prev} {queue = queue} u v e inv last arc waiting
        equal =
      let more : ℕ → List Node = put v.id (prev v.id ++ (u ∷ [])) prev in
      record {
        known = inv.known;
        distinct = inv.distinct;
        counted = inv.counted;
        order = inv.order;
        near = inv.near;
        arcs = λ x y f d k w b.
            let tried : Tried dist prev x y f = inv.arcs x y f d k w b in
            record { bound = tried.bound; listed = λ pos eq. longer x y (tried.listed pos eq) };
        origin = inv.origin;
        walks = inv.walks;
        tight = tight';
        deep = λ i w.
            Depth-agree queue prev more
              (λ j h.
                put_ne v.id j (prev v.id ++ (u ∷ [])) prev (settled_ne queue v.id j waiting h))
              (λ j. All-map (prev j) (λ p b. b.settled) (inv.tight j)) (suc (suc turns)) i w
              (inv.deep i w);
      }
    where
      longer :
          (x y : Node)
          → Any (λ p. p ≡ x) (prev y.id)
          → Any (λ p. p ≡ x) (put v.id (prev v.id ++ (u ∷ [])) prev y.id)
      longer x y h = elim (Bool-cases (v.id == y.id)) [
        | inl q ↦
            let here_too : Any (λ p. p ≡ x) (prev v.id) = rw (sym (==→eq v.id y.id q)) at h in
            rw q (Any-left (λ p. p ≡ x) (prev v.id) (u ∷ []) here_too)
        | inr q ↦ rw q h
      ]

      tight' :
          (i : ℕ) → All (IsTight nodes t dist queue i) (put v.id (prev v.id ++ (u ∷ [])) prev i)
      tight' i = elim (Bool-cases (v.id == i)) [
        | inl q ↦
            let here_too : v.id ≡ i = ==→eq v.id i q in
            rw q (
              All-snoc (IsTight nodes t dist queue i) (prev v.id) u (rw here_too (inv.tight i))
                (record {
                  known = last.known;
                  settled = last.settled;
                  target = v;
                  named = here_too;
                  edge = e;
                  arc = arc;
                  cost = omega (arith, ap dist here_too, equal);
                }))
        | inr q ↦ rw q (inv.tight i)
      ]

  abbrev pub Kept : ℕ → (Node → Node → Type 0) → Node → List Node → Search (Unit {0}) → Type 0
  Kept turns Done u queue s =
      (s.queue ≡ queue)
      × Inv nodes t top src (suc turns) Done s.dist s.prev queue
      × Last nodes t top src turns u s.dist queue

  improve-Kept :
      (turns : ℕ) (Done : Node → Node → Type 0) (u v : Node) (e : Edge) (s : Search (Unit {0}))
      → Kept turns Done u s.queue s
      → Arc t u v e
      → Known nodes v
      → e.metric ≤ top
      → waits s.queue v.id ≡ true
      → Kept turns
          (With nodes t top src ready Done u v)
          u
          s.queue
          (improve no_ops s u v e (s.dist u.id + e.metric))
  unfolding improve
  improve-Kept turns Done u v e s (q, inv, last) arc k low w =
      elim (Bool-cases (ltb (s.dist u.id + e.metric) (s.dist v.id))) [
        | inl l ↦
            let lower : s.dist u.id + e.metric < s.dist v.id = ground (arith, l) in
            rw (improve, l)
              (
                refl,
                falls-Inv nodes t top src ready inv last arc k low w lower,
                falls-Last nodes t top src ready inv last arc k low w lower,
              )
        | inr l ↦ elim (Bool-cases (s.dist u.id + e.metric == s.dist v.id)) [
          | inl m ↦
              let equal : s.dist v.id ≡ s.dist u.id + e.metric = ground (arith, m) in
              rw (improve, l, m)
                (
                  refl,
                  steady u v (ties u v e inv last arc w equal) (λ f b. record {
                    bound = omega (arith, equal, ap (λ (g : Edge). g.metric) (same_edge f b));
                    listed = λ pos eq.
                        rw (put_self v.id (s.prev v.id ++ (u ∷ [])) s.prev)
                          (Any-last (s.prev v.id) u);
                  }),
                  last,
                )
          | inr m ↦
              rw (improve, l, m)
                (
                  refl,
                  steady u v inv (λ f b. record {
                    bound = ground (arith, l, ap (λ (g : Edge). g.metric) (same_edge f b));
                    listed = λ pos eq.
                        absurd (ground (arith, m, eq, ap (λ (g : Edge). g.metric) (same_edge f b)));
                  }),
                  last,
                )
        ]
      ]
    where
      same_edge : (f : Edge) → Arc t u v f → f ≡ e
      same_edge f b = let same : some f ≡ some e = sym b.edge ∙ arc.edge in cc

  new_cost-exact :
      (turns : ℕ) (Done : Node → Node → Type 0) (u : Node) (e : Edge) (s : Search (Unit {0}))
      → Kept turns Done u s.queue s
      → e.metric ≤ top
      → new_cost no_ops s u e ≡ s.dist u.id + e.metric
  unfolding new_cost
  new_cost-exact turns Done u e s (q, inv, last) low =
      let fits : suc turns ≤ length nodes = omega (arith, inv.counted) in
      no_wrap (s.dist u.id) e.metric turns top (length nodes) last.near low fits ready.small

  pub relax_one-Kept :
      (turns : ℕ) (Done : Node → Node → Type 0) (u v : Node) (ns : List Node)
      (s : Search (Unit {0}))
      → Kept turns Done u s.queue s
      → lookup node_ops u.id t.neighs ≡ some ns
      → Any (λ m. m ≡ v) ns
      → Returns
          (relax_one no_ops t u s v)
          λ s'. Kept turns (With nodes t top src ready Done u v) u s.queue s'
  unfolding relax_one
  relax_one-Kept turns Done u v ns s (q, inv, last) listed member =
      let k : Known nodes v = ready.ends u v ns last.known listed member in
      let asked : exist_node s.queue v ≡ waits s.queue v.id =
        exist_node-waits nodes ready.names s.queue v inv.known k in
      elim (Bool-cases (waits s.queue v.id)) [
        | inl w ↦
            let apart : (u.id == v.id) ≡ false =
              ==_flip v.id u.id (settled_ne s.queue v.id u.id w last.settled) in
            let (e, found, low) = ready.joined u v ns last.known listed member apart in
            let arc : Arc t u v e = record {
              ns = ns;
              listed = listed;
              member = member;
              edge = found;
            } in
            (
              improve no_ops s u v e (s.dist u.id + e.metric),
              rw (relax_one, asked, w, found, new_cost-exact turns Done u e s (q, inv, last) low)
                  refl,
              improve-Kept turns Done u v e s (q, inv, last) arc k low w,
            )
        | inr w ↦ (
          s,
          rw (relax_one, asked, w) refl,
          (
            refl,
            steady u v inv (λ f b. record {
              bound = omega (arith, last.furthest v.id w);
              listed = λ pos eq. absurd (omega (arith, last.furthest v.id w, pos, eq));
            }),
            last,
          ),
        )
      ]

  -- The arcs from `u` to the nodes of a list have been tried.
  abbrev pub WithAll : (Node → Node → Type 0) → Node → List Node → Node → Node → Type 0
  WithAll Done u vs x y = Done x y ⊎ ((x ≡ u) × Any (λ m. m ≡ y) vs)

  pub relax-Kept :
      (turns : ℕ) (Done : Node → Node → Type 0) (u : Node) (ns vs : List Node)
      (s : Search (Unit {0}))
      → Kept turns Done u s.queue s
      → lookup node_ops u.id t.neighs ≡ some ns
      → All (λ v. Any (λ m. m ≡ v) ns) vs
      → Returns (relax no_ops t u vs s) λ s'. Kept turns (WithAll Done u vs) u s.queue s'
  unfolding relax
  relax-Kept turns Done u ns [] s (q, inv, last) listed members =
      (s, refl, (refl, Inv-fewer (λ x y d. elim d [ inl k ↦ k | inr (k, m) ↦ absurd m ]) inv, last))
  relax-Kept turns Done u ns (v ∷ vs) s kept listed (m, members) =
      let (s', e, (q', inv', last')) = relax_one-Kept turns Done u v ns s kept listed m in
      let again : Kept turns (With nodes t top src ready Done u v) u s'.queue s' =
        (refl, rw q' inv', rw q' last') in
      let (s'', e', (q'', inv'', last'')) =
        relax-Kept turns (With nodes t top src ready Done u v) u ns vs s' again listed members in
      (
        s'',
        rw (relax, e) e',
        (q'' ∙ q', Inv-fewer (λ x y d. regroup x y d) (rw q' at inv''), rw q' at last''),
      )
    where
      regroup :
          (x y : Node)
          → WithAll Done u (v ∷ vs) x y
          → WithAll (With nodes t top src ready Done u v) u vs x y
      regroup x y (inl d) = inl (inl d)
      regroup x y (inr (p, inl q)) = inl (inr (p, sym q))
      regroup x y (inr (p, inr q)) = inr (p, q)
