-- ===== src/Graph/Dijkstra/Depths.antt =====
-- `__compute_paths`, and the queue from which a node is taken.
use thesis_data.Common.{
  ℕ, zero, suc, ◌+◌, ◌≡◌, ◌⊎◌, inl, inr, refl, false, List, [], ◌∷◌, ◌++◌, ◌==◌, arith, Bool-cases,
  ==→eq, Returns, Outcome,
}
use thesis_data.Graph.{Node}
use thesis_data.Graph.Minimal.{All, All-map, All-both, All-append}
use thesis_data.Graph.Dijkstra.{each, paths_from, drop_node}
use thesis_data.Graph.Dijkstra.Queue.{waits, DistinctIds, Known, Names, drop-waits}
use thesis_data.Graph.Dijkstra.Inv.{Depth}

pub Depth-suc : (n : ℕ) (prev : ℕ → List Node) (i : ℕ) → Depth n prev i → Depth (suc n) prev i
Depth-suc zero prev i d = absurd d
Depth-suc (suc n) prev i d = All-map (prev i) (λ p k. Depth-suc n prev p.id k) d

pub Depth-le :
    (d n m : ℕ) (prev : ℕ → List Node) (i : ℕ) → m ≡ d + n → Depth n prev i → Depth m prev i
Depth-le zero n m prev i e h = let same : m ≡ n = omega arith in rw same h
Depth-le (suc d) n m prev i e h =
    let next : m ≡ suc (d + n) = omega arith in
    rw next (Depth-suc (d + n) prev i (Depth-le d n (d + n) prev i refl h))

module _ {P : Node → Type 0} where
  each-Returns :
      (f : Node → Outcome (List (List Node))) (ps : List Node)
      → All (λ p. Returns (f p) (All (All P))) ps
      → Returns (each f ps) (All (All P))
  unfolding each
  each-Returns f [] a = ([], refl, tt)
  each-Returns f (p ∷ ps) ((r, e, u), a) =
      let (rs, e', u') = each-Returns f ps a in
      (r ++ rs, rw (each, e, e') refl, All-append (All P) r rs u u')

  paths_step :
      (n : ℕ) (prev : ℕ → List Node) (tmp : List Node) (u : Node) (ps : List Node)
      → All P tmp
      → prev u.id ≡ ps
      → Returns (each (paths_from n prev (tmp ++ (u ∷ []))) ps) (All (All P))
      → Returns (paths_from (suc n) prev tmp u) (All (All P))
  unfolding paths_from
  paths_step n prev tmp u [] a e r = (tmp ∷ [], rw (paths_from, e) refl, (a, tt))
  paths_step n prev tmp u (p ∷ ps) a e (r, q, x) = (r, rw (paths_from, e) q, x)

  -- `__compute_paths` ends where the chains of predecessors do, and goes through them alone.
  pub paths_from-Returns :
      (n : ℕ) (prev : ℕ → List Node) (tmp : List Node) (u : Node)
      → ((i : ℕ) → All P (prev i))
      → All P tmp
      → P u
      → Depth n prev u.id
      → Returns (paths_from n prev tmp u) (All (All P))
  paths_from-Returns zero prev tmp u h a q d = absurd d
  paths_from-Returns (suc n) prev tmp u h a q d = paths_step n prev tmp u (prev u.id) a refl (
      each-Returns (paths_from n prev (tmp ++ (u ∷ []))) (prev u.id) (
        All-both (prev u.id)
          (λ p r k.
            paths_from-Returns n prev (tmp ++ (u ∷ [])) p h (All-append P tmp (u ∷ []) a (q, tt)) r
              k)
          (h u.id) d))

pub not_dropped :
    (nodes ns : List Node) (names : Names nodes) (u : Node) (i : ℕ)
    → All (Known nodes) ns
    → Known nodes u
    → DistinctIds ns
    → waits (drop_node ns u.addr) i ≡ false
    → (waits ns i ≡ false) ⊎ (u.id ≡ i)
not_dropped nodes ns names u i a k d h = elim (Bool-cases (u.id == i)) [
  | inl e ↦ inr (==→eq u.id i e)
  | inr e ↦ inl (ground (arith, h, e, drop-waits nodes names ns u i a k d))
]
