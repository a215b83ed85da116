-- ===== src/Graph/Dijkstra/Paths.antt =====
-- The paths that `graph_dijkstra` leaves.
use thesis_data.Common.{
  ℕ, zero, suc, ◌<◌, ◌≡◌, inl, inr, refl, ap, sym, ◌∙◌, true, false, List, [], ◌∷◌, ◌++◌, length,
  ltb, ◌==◌, Outcome, ok, fault, assertion, arith, Bool-cases, Option-cases, ==→eq, Returns,
}
use thesis_data.HashMap.Keys.{nodepair_ops}
use thesis_data.Graph.{Node, Edge, Graph, exist_node, max_metric}
use thesis_data.Graph.Minimal.{All, Any, All-map}
use thesis_data.Graph.Tables.{lookup, pair}
use thesis_data.Graph.Dijkstra.{
  Tables, Search, no_ops, put, each, paths_from, drop_node, improve, new_cost, relax_one, relax,
  visit, search_from, initial, dijkstra,
}
use thesis_data.Graph.Dijkstra.Queue.{
  waits, Known, Names, waits-Any, exist_node-waits, waits-drop, drop-All, All-Any, Beyond,
  select-cases,
}
use thesis_data.Graph.Dijkstra.Inv.{Ready, Inv, put_self, put_ne}
use thesis_data.Graph.Dijkstra.Depths.{not_dropped}
use thesis_data.Graph.Dijkstra.Visit.{Every, visit-Inv, search_from-Inv}
use thesis_data.Graph.Dijkstra.Correct.{initial-Inv}
use thesis_data.Graph.Dijkstra.Plain.{tables}
use thesis_data.Graph.Dijkstra.Tidy.{IsTidy, ready}
use thesis_data.Graph.Dijkstra.Chains.{Chain, Lists, bind-ok, paths_from-Lists}

-- `__compute_paths` reads the predecessors of nodes that it comes to only.
each_cong :
    (f g : Node → Outcome (List (List Node))) (ns : List Node)
    → All (λ p. f p ≡ g p) ns
    → each f ns ≡ each g ns
unfolding each
each_cong f g [] a = refl
each_cong f g (n ∷ ns) (e, a) = rw (e, each_cong f g ns a) refl

step_cong :
    (n : ℕ) (prev prev2 : ℕ → List Node) (tmp : List Node) (u : Node) (ns : List Node)
    → prev u.id ≡ ns
    → prev2 u.id ≡ ns
    → each (paths_from n prev (tmp ++ (u ∷ []))) ns ≡ each (paths_from n prev2 (tmp ++ (u ∷ []))) ns
    → paths_from (suc n) prev tmp u ≡ paths_from (suc n) prev2 tmp u
unfolding paths_from
step_cong n prev prev2 tmp u [] e e2 h = rw (paths_from, e, e2) refl
step_cong n prev prev2 tmp u (m ∷ ns) e e2 h = rw (paths_from, e, e2) h

paths_from_cong :
    (S : ℕ → Type 0) (n : ℕ) (prev prev2 : ℕ → List Node) (tmp : List Node) (u : Node)
    → ((i : ℕ) → S i → prev2 i ≡ prev i)
    → ((i : ℕ) → S i → All (λ p. S p.id) (prev i))
    → S u.id
    → paths_from n prev tmp u ≡ paths_from n prev2 tmp u
unfolding paths_from
paths_from_cong S zero prev prev2 tmp u same closed su = refl
paths_from_cong S (suc n) prev prev2 tmp u same closed su =
    step_cong n prev prev2 tmp u (prev u.id) refl (same u.id su) (
      each_cong (paths_from n prev (tmp ++ (u ∷ []))) (paths_from n prev2 (tmp ++ (u ∷ [])))
        (prev u.id)
        (All-map (prev u.id)
          (λ p sp. paths_from_cong S n prev prev2 (tmp ++ (u ∷ [])) p same closed sp)
          (closed u.id su)))

-- What a turn over the neighbours leaves as it was.
record Keep (s s2 : Search (Unit {0})) : Type 0 where
  queue : s2.queue ≡ s.queue
  path : s2.path ≡ s.path
  prev : (i : ℕ) → waits s.queue i ≡ false → s2.prev i ≡ s.prev i

Keep-refl : (s : Search (Unit {0})) → Keep s s
Keep-refl s = record { queue = refl; path = refl; prev = λ i w. refl }

improve-Keep :
    (s : Search (Unit {0})) (u v : Node) (e : Edge) (alt : ℕ)
    → waits s.queue v.id ≡ true
    → Keep s (improve no_ops s u v e alt)
unfolding improve
improve-Keep s u v e alt w = elim (Bool-cases (ltb alt (s.dist v.id))) [
  | inl h ↦
      rw (improve, h)
        (record {
          queue = refl;
          path = refl;
          prev = λ i w2. put_ne v.id i (u ∷ []) s.prev (ground (arith, w, w2));
        })
  | inr h ↦ elim (Bool-cases (alt == s.dist v.id)) [
    | inl h2 ↦
        rw (improve, h, h2)
          (record {
            queue = refl;
            path = refl;
            prev = λ i w2. put_ne v.id i (s.prev v.id ++ (u ∷ [])) s.prev (ground (arith, w, w2));
          })
    | inr h2 ↦ rw (improve, h, h2) (Keep-refl s)
  ]
]

module _ (nodes : List Node) (t : Tables) (names : Names nodes) where
  relax_one-Keep :
      (u v : Node) (s s2 : Search (Unit {0}))
      → All (Known nodes) s.queue
      → Known nodes v
      → relax_one no_ops t u s v ≡ ok s2
      → Keep s s2
  unfolding relax_one
  relax_one-Keep u v s s2 a k run = elim (Bool-cases (exist_node s.queue v)) [
    | inr h ↦
        let done : ok s ≡ ok s2 = rw (relax_one, h) at run in
        let same : s2 ≡ s = cc in rw same (Keep-refl s)
    | inl h ↦ elim (Option-cases (lookup nodepair_ops (pair u v) t.min_edges)) [
      | inl e ↦ let failed : fault assertion ≡ ok s2 = rw (relax_one, h, e) at run in absurd cc
      | inr (e, p) ↦
          let done : ok (improve no_ops s u v e (new_cost no_ops s u e)) ≡ ok s2 =
            rw (relax_one, h, p) at run in
          let same : s2 ≡ improve no_ops s u v e (new_cost no_ops s u e) = cc in
          rw same (
            improve-Keep s u v e (new_cost no_ops s u e)
              (sym (exist_node-waits nodes names s.queue v a k) ∙ h))
    ]
  ]

  moved : (q q2 : List Node) → q2 ≡ q → All (Known nodes) q → All (Known nodes) q2
  moved q q2 e a = rw e a

  relax-Keep :
      (u : Node) (vs : List Node) (s s2 : Search (Unit {0}))
      → All (Known nodes) s.queue
      → All (Known nodes) vs
      → relax no_ops t u vs s ≡ ok s2
      → Keep s s2
  unfolding relax
  relax-Keep u [] s s2 a k run = let same : s2 ≡ s = cc in rw same (Keep-refl s)
  relax-Keep u (v ∷ vs) s s2 a (k, ks) run =
      let (s1, run1, rest) =
        bind-ok (relax_one no_ops t u s v) (λ s1. relax no_ops t u vs s1) s2 run in
      let one : Keep s s1 = relax_one-Keep u v s s1 a k run1 in
      let more : Keep s1 s2 = relax-Keep u vs s1 s2 (moved s.queue s1.queue one.queue a) ks rest in
      record {
        queue = more.queue ∙ one.queue;
        path = more.path ∙ one.path;
        prev = λ i w. more.prev i (ap (λ q. waits q i) one.queue ∙ w) ∙ one.prev i w;
      }

-- The paths of the nodes that have been taken out of the queue.
abbrev PathsOk : List Node → ℕ → Search (Unit {0}) → Type 0
PathsOk nodes size s =
    (v : Node)
    → Known nodes v
    → waits s.queue v.id ≡ false
    → paths_from (suc size) s.prev [] v ≡ ok (s.path v.id)

module _ (nodes : List Node) (t : Tables) (top : ℕ) (src : Node) (ready : Ready nodes t top) where
  visit-PathsOk :
      (turns : ℕ) (u : Node) (s s2 : Search (Unit {0}))
      → Inv nodes t top src turns (Every nodes t top src ready) s.dist s.prev s.queue
      → Known nodes u
      → PathsOk nodes (length nodes) s
      → visit no_ops t (length nodes) u s ≡ ok s2
      → PathsOk nodes (length nodes) s2
  unfolding visit
  visit-PathsOk turns u s s2 inv k paths run =
      let (ps, run1, rest) = bind-ok (paths_from (suc (length nodes)) s.prev [] u) _ s2 run in
      let (ns, listed) = ready.listed u k in
      let s1 : Search (Unit {0}) = record s {
        path = put u.id ps s.path;
        queue = drop_node s.queue u.addr;
      } in
      let run2 : relax no_ops t u ns s1 ≡ ok s2 = rw listed at rest in
      let kept : Keep s1 s2 =
        relax-Keep nodes t ready.names u ns s1 s2 (drop-All (Known nodes) s.queue u.addr inv.known)
          (all_Known ns (λ v m. ready.ends u v ns k listed m)) run2 in
      λ v kv w.
        let out : waits (drop_node s.queue u.addr) v.id ≡ false =
          ap (λ q. waits q v.id) (sym kept.queue) ∙ w in
        let same : paths_from (suc (length nodes)) s.prev [] v
            ≡ paths_from (suc (length nodes)) s2.prev [] v =
          paths_from_cong (λ i. waits (drop_node s.queue u.addr) i ≡ false) (suc (length nodes))
            s.prev s2.prev [] v kept.prev
            (λ i si.
              All-map (s.prev i) (λ p b. waits-drop s.queue u.addr p.id b.settled) (inv.tight i))
            out in
        let at : s2.path v.id ≡ put u.id ps s.path v.id = ap (λ f. f v.id) kept.path in
        sym same ∙ value v kv out ps run1 ∙ ap (λ x. ok x) (sym at)
    where
      value :
          (v : Node)
          → Known nodes v
          → waits (drop_node s.queue u.addr) v.id ≡ false
          → (ps : List (List Node)) → paths_from (suc (length nodes)) s.prev [] u ≡ ok ps
          → paths_from (suc (length nodes)) s.prev [] v ≡ ok (put u.id ps s.path v.id)
      value v kv out ps run1 = elim (Bool-cases (u.id == v.id)) [
        | inl e ↦
            let same : v ≡ u = ready.names.by_id v u kv k (sym (==→eq u.id v.id e)) in
            rw (same, put_self u.id ps s.path) run1
        | inr e ↦ elim (not_dropped nodes s.queue ready.names u v.id inv.known k inv.distinct out) [
          | inr f ↦ absurd (ground (arith, e, f))
          | inl still ↦ paths v kv still ∙ ap (λ x. ok x) (sym (put_ne u.id v.id ps s.path e))
        ]
      ]

      all_Known :
          (ns : List Node)
          → ((v : Node) → Any (λ m. m ≡ v) ns → Known nodes v)
          → All (Known nodes) ns
      all_Known [] f = tt
      all_Known (n ∷ ns) f = (f n (inl refl), all_Known ns (λ v m. f v (inr m)))

  search_from-PathsOk :
      (fuel turns : ℕ) (s s2 : Search (Unit {0}))
      → Inv nodes t top src turns (Every nodes t top src ready) s.dist s.prev s.queue
      → PathsOk nodes (length nodes) s
      → search_from no_ops t (length nodes) fuel s ≡ ok s2
      → PathsOk nodes (length nodes) s2 × Beyond s2.dist max_metric s2.queue
  unfolding search_from
  search_from-PathsOk zero turns s s2 inv paths run = absurd cc
  search_from-PathsOk (suc fuel) turns s s2 inv paths run = elim (select-cases s.dist s.queue) [
    | inl (p, b) ↦
        let done : ok s ≡ ok s2 = rw (search_from, p) at run in
        let same : s2 ≡ s = cc in rw same (paths, b)
    | inr (u, p, nearest) ↦
        let (s1, run1, (shorter, inv1)) = visit-Inv nodes t top src ready turns u s inv nearest in
        let rest : search_from no_ops t (length nodes) fuel s1 ≡ ok s2 =
          rw (search_from, p, run1) at run in
        search_from-PathsOk fuel (suc turns) s1 s2 inv1
          (visit-PathsOk turns u s s1 inv (All-Any (Known nodes) s.queue u inv.known nearest.member)
            paths run1)
          rest
  ]

-- The paths of a node are its chains of predecessors, each of them.
abbrev pub Complete : (ℕ → List Node) → Node → List (List Node) → Type 0
Complete prev v paths =
    All (Chain prev v) paths × ((ps : List Node) → Chain prev v ps → Any (λ w. w ≡ ps) paths)

-- Under the conditions of `dijkstra-Shortest`, the paths that `graph_dijkstra` leaves for a node of
-- the graph with a cost below UINT32_MAX are the chains of predecessors from the node on, up to a
-- node that has none, which is not listed; and each such chain is among them.
pub dijkstra-Complete :
    (g : Graph) (top : ℕ) (src : Node)
    → IsTidy g top
    → Known g.nodes src
    → Returns (dijkstra no_ops (tables g) g.nodes src tt) λ s.
      (v : Node) → Known g.nodes v → s.dist v.id < max_metric → Complete s.prev v (s.path v.id)
unfolding dijkstra initial
dijkstra-Complete g top src tidy known =
    let r : Ready g.nodes (tables g) top = ready g top tidy in
    let inv = initial-Inv g.nodes (tables g) top src r known tidy.ids in
    let (s, run, done) =
      search_from-Inv g.nodes (tables g) top src r (suc (length g.nodes)) 0 (initial g.nodes src tt)
        inv (omega arith) in
    let (paths, beyond) =
      search_from-PathsOk g.nodes (tables g) top src r (suc (length g.nodes)) 0
        (initial g.nodes src tt) s inv (λ v k w. absurd (ground (arith, w, waits-Any g.nodes v k)))
        run in
    (
      s,
      run,
      λ v k low. elim (Bool-cases (waits s.queue v.id)) [
        | inl w ↦ absurd (omega (arith, low, beyond v.id w))
        | inr w ↦
            let l : Lists s.prev [] v (s.path v.id) =
              paths_from-Lists (suc (length g.nodes)) s.prev [] v (s.path v.id) (paths v k w) in
            (All-map (s.path v.id) (λ w (ps, e, c). rw e c) l.sound, l.complete)
      ],
    )
