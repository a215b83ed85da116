-- ===== src/Graph/Minseg/Cached.antt =====
-- The cache of shortest paths, and `graph_minseg` on a graph whose cache has been built.
use thesis_data.Common.{
  ℕ, ◌≡◌, inl, inr, refl, ap, sym, ◌∙◌, Bool, true, false, Option, none, some, List, [], ◌∷◌, ◌==◌,
  if◌then◌else◌, Outcome, ok, bind_cong, Returns, Bool-cases, ==→eq,
}
use thesis_data.HashMap.Keys.{node_ops, node_ops-IsKey}
use thesis_data.Graph.{Node, Graph}
use thesis_data.Graph.Minimal.{All}
use thesis_data.Graph.Tables.{Table, lookup, store}
use thesis_data.Graph.Lookups.{lookup-store}
use thesis_data.Graph.Segments.{Segment}
use thesis_data.Graph.Dijkstra.{initial, initial_dist, dijkstra}
use thesis_data.Graph.Dijkstra.Queue.{Known}
use thesis_data.Graph.Dijkstra.Tidy.{IsTidy}
use thesis_data.Graph.Dijkstra.Shortest.{dijkstra-Shortest}
use thesis_data.Graph.Minseg.{
  Dres, Finalized, finalize, from_node, build_cache_one, build_cache_from, build_cache, result_of,
  prev_of, choose, break_link, insert_adj_segment, minseg_from, minseg,
}
use thesis_data.Graph.Minseg.Pinned.{
  IsSound, Shortest, Pins, Listed, Pins-map, result_of-IsSound, minseg-Pins,
}
use thesis_data.Graph.Minseg.Ways.{OnlyWay, Only-OnlyWay}

initial_dist_ids :
    (m n : Node) (ns : List Node) → m.id ≡ n.id → initial_dist m ns ≡ initial_dist n ns
unfolding initial_dist
initial_dist_ids m n [] e = refl
initial_dist_ids m n (x ∷ ns) e = rw (e, initial_dist_ids m n ns e) refl

from_node_ids : (g : Finalized) (m n : Node) → m.id ≡ n.id → from_node g m ≡ from_node g n
unfolding dijkstra initial
from_node_ids g m n e = rw (initial_dist_ids m n g.nodes e) refl

abbrev pub with_cache : Finalized → Table ℕ Dres → Finalized
with_cache g cache = record g { dcache = cache }

store-IsSound :
    (g : Finalized) (n : Node) (res : Dres)
    → IsSound g
    → from_node g n ≡ ok res
    → IsSound (with_cache g (store node_ops n.id res g.dcache))
store-IsSound g n res sound e = λ m r found.
    let stored : some r ≡ (if n.id == m.id then some res else lookup node_ops m.id g.dcache) =
      sym found ∙ lookup-store node_ops-IsKey n.id m.id res g.dcache in
    elim (Bool-cases (n.id == m.id)) [
      | inl p ↦
          let same : some r ≡ some res = rw p at stored in
          let result : res ≡ r = cc in
          from_node_ids g m n (sym (==→eq n.id m.id p)) ∙ e ∙ ap (λ s. ok s) result
      | inr p ↦
          let kept : some r ≡ lookup node_ops m.id g.dcache = rw p at stored in sound m r (sym kept)
    ]

-- Building the cache ends where the computations do, and changes nothing but a sound cache.
abbrev pub Caches : Finalized → Bool × Finalized → Type 0
Caches g (b, g') = (cache : Table ℕ Dres) × (g' ≡ with_cache g cache) × IsSound g'

pub build_cache_from-Caches :
    (granted : Node → Bool) (ns : List Node) (g : Finalized)
    → All (λ n. Returns (from_node g n) λ s. Unit {0}) ns
    → IsSound g
    → Returns (build_cache_from granted ns g) (Caches g)
unfolding build_cache_from build_cache_one
build_cache_from-Caches granted [] g total sound = ((true, g), refl, (g.dcache, refl, sound))
build_cache_from-Caches granted (n ∷ ns) g ((res, e, u), total) sound =
    elim (Bool-cases (granted n)) [
      | inr failed ↦
          ((false, g), rw (build_cache_from, failed, build_cache_one) refl, (g.dcache, refl, sound))
      | inl held ↦
          let g' : Finalized = with_cache g (store node_ops n.id res g.dcache) in
          let (o, run, (cache, same, sound')) =
            build_cache_from-Caches granted ns g' total (store-IsSound g n res sound e) in
          (o, rw (build_cache_from, held, build_cache_one, e) run, (cache, same, sound'))
    ]

chosen_cong :
    {f f' : Node → List Segment → Outcome (Option (List Segment))}
    (o : Option (Node × List Segment))
    → ((r : Node) (res : List Segment) → f r res ≡ f' r res)
    → elim o as (λ _. Outcome (Option (List Segment))) [ none ↦ ok none | some (r, res) ↦ f r res ]
      ≡ elim o as (λ _. Outcome (Option (List Segment))) [
        | none ↦ ok none
        | some (r, res) ↦ f' r res
      ]
chosen_cong none h = refl
chosen_cong (some (r, res)) h = h r res

module _ (g : Finalized) (cache : Table ℕ Dres) (sound : IsSound g)
    (sound' : IsSound (with_cache g cache)) where
  same_result : (n : Node) → result_of (with_cache g cache) n ≡ result_of g n
  same_result n =
      result_of-IsSound (with_cache g cache) sound' n ∙ sym (result_of-IsSound g sound n)

  same_prev : (s : Dres) (n : Node) → prev_of (with_cache g cache) s n ≡ prev_of g s n
  unfolding prev_of
  same_prev s n = refl

  minseg_from-cached :
      (r : Node) (path : List Node) (res : List Segment)
      → minseg_from (with_cache g cache) r path res ≡ minseg_from g r path res
  unfolding minseg_from prev_of choose break_link insert_adj_segment
  minseg_from-cached r [] res = refl
  minseg_from-cached r (i ∷ []) res = refl
  minseg_from-cached r (i ∷ ii ∷ ns) res = bind_cong (same_result i) λ res_i.
      bind_cong (same_result r) λ res_r. bind_cong (same_prev res_r ii) λ prev_r.
        bind_cong (same_prev res_i ii) λ prev_i.
          chosen_cong (choose g r i ii prev_r prev_i res)
            (λ r' res'. minseg_from-cached r' (ii ∷ ns) res')

  minseg-cached :
      (path : List Node) (res : List Segment)
      → minseg (with_cache g cache) path res ≡ minseg g path res
  unfolding minseg
  minseg-cached [] res = refl
  minseg-cached (n ∷ ns) res = minseg_from-cached n (n ∷ ns) res

pub finalize-IsSound : (g : Graph) → IsSound (finalize g)
unfolding lookup
finalize-IsSound g = λ n r e. absurd cc

pub All-self : {P : Node → Type 0} (ns : List Node) → ((n : Node) → Known ns n → P n) → All P ns
All-self [] f = tt
All-self (n ∷ ns) f = (f n (inl refl), All-self ns (λ m k. f m (inr k)))

from_node-Returns :
    (g : Graph) (top : ℕ)
    → IsTidy g top
    → (n : Node) → Known g.nodes n
    → Returns (from_node (finalize g) n) λ s. Unit {0}
from_node-Returns g top tidy n k = let (s, e, u) = dijkstra-Shortest g top n tidy k in (s, e, tt)

-- On a graph as in `dijkstra-Shortest`, that has been finalized, `graph_build_cache` ends without
-- a fault, whichever of its results `malloc` has no room for, where the allocations of
-- `graph_dijkstra` succeed; and on the cache that it leaves, whole or in part,
-- `graph_minseg` does for any path what it does with an empty cache.
pub build_cache-minseg :
    (g : Graph) (top : ℕ) (granted : Node → Bool)
    → IsTidy g top
    → Returns (build_cache granted (finalize g)) λ (b, g').
      (path : List Node) (res : List Segment) → minseg g' path res ≡ minseg (finalize g) path res
build_cache-minseg g top granted tidy =
    let (o, e, (cache, same, sound)) =
      build_cache_from-Caches granted g.nodes (finalize g)
        (All-self g.nodes (from_node-Returns g top tidy)) (finalize-IsSound g) in
    (
      o,
      e,
      λ path res.
          let kept : IsSound (with_cache (finalize g) cache) = rw same at sound in
          ap (λ g'. minseg g' path res) same
          ∙ minseg-cached (finalize g) cache (finalize-IsSound g) kept path res,
    )

-- On a graph as in `dijkstra-Shortest`, that has been finalized, and for a path of nodes of the
-- graph, where `graph_dijkstra` from the first node of each link lists it as a predecessor of the
-- second, `graph_minseg` ends without a fault. It puts segments behind those there were that pin
-- the path down: by the least costs of routes from where the segment before it ended, the link is
-- on a shortest path into its second node, and no edge from any other node is, unless its metric is
-- 0; or that is made true by a segment for its first node, or the link stands as an adjacency. Or
-- it returns -1, and two nodes of the path, one next to the other, have no edge in the table of
-- minimal edges.
pub minseg-Pinned :
    (g : Graph) (top : ℕ) (n : Node) (ns : List Node) (res : List Segment)
    → IsTidy g top
    → All (Known g.nodes) (n ∷ ns)
    → Shortest (finalize g) (n ∷ ns)
    → Returns (minseg (finalize g) (n ∷ ns) res) (Pins (finalize g) (OnlyWay g) n (n ∷ ns) res)
minseg-Pinned g top n ns res tidy known on =
    let (o, run, pins) =
      minseg-Pins (finalize g) (finalize-IsSound g) (from_node-Returns g top tidy) n ns res known
        on in
    (
      o,
      run,
      Pins-map (finalize g) (Listed (finalize g)) (OnlyWay g) (Only-OnlyWay g top tidy) n (n ∷ ns)
          res o known.0 known pins,
    )
