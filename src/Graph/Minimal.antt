-- ===== src/Graph/Minimal.antt =====
-- `graph_get_minimal_edge` and `graph_prune`.
use thesis_data.Common.{
  ℕ, ◌≤◌, ◌<◌, ◌≡◌, ◌⊎◌, inl, inr, refl, ◌∙◌, true, Option, none, some, List, [], ◌∷◌, ◌++◌, ltb,
  arith, Bool-cases,
}
use thesis_data.Graph.{Node, Edge, Graph, max_metric, joins, minimal_from, get_minimal_edge}

abbrev pub All {ℓ κ} : {A : Type ℓ} → (A → Type κ) → List A → Type κ
All P [] = Unit
All P (x ∷ xs) = P x × All P xs

abbrev pub Any {ℓ} : {A : Type ℓ} → (A → Type 0) → List A → Type 0
Any P [] = ⊥
Any P (x ∷ xs) = P x ⊎ Any P xs

pub All-map {ℓ} :
    {A : Type ℓ} {P Q : A → Type 0} (xs : List A) → ((x : A) → P x → Q x) → All P xs → All Q xs
All-map [] f a = tt
All-map (x ∷ xs) f (p, a) = (f x p, All-map xs f a)

pub All-both {ℓ} :
    {A : Type ℓ} {P Q R : A → Type 0} (xs : List A)
    → ((x : A) → P x → Q x → R x)
    → All P xs
    → All Q xs
    → All R xs
All-both [] f a b = tt
All-both (x ∷ xs) f (p, a) (q, b) = (f x p q, All-both xs f a b)

pub All-append {ℓ} :
    {A : Type ℓ} (P : A → Type 0) (xs ys : List A) → All P xs → All P ys → All P (xs ++ ys)
All-append P [] ys a b = b
All-append P (x ∷ xs) ys (p, a) b = (p, All-append P xs ys a b)

pub All-every {ℓ} : {A : Type ℓ} (P : A → Type 0) (xs : List A) → ((x : A) → P x) → All P xs
All-every P [] f = tt
All-every P (x ∷ xs) f = (f x, All-every P xs f)

-- An edge of the list from one node to the other, below a bound, that no such edge is below.
pub record IsMinimal (local remote : Node) (bound : ℕ) (es : List Edge) (e : Edge) : Type 0 where
  pub member : Any (λ x. x ≡ e) es
  pub between : joins local remote e ≡ true
  pub below : e.metric < bound
  pub least : All (λ x. joins local remote x ≡ true → e.metric ≤ x.metric) es

abbrev pub NoneBelow : Node → Node → ℕ → List Edge → Type 0
NoneBelow local remote bound es = All (λ x. joins local remote x ≡ true → bound ≤ x.metric) es

minimal_from-cases :
    (local remote : Node) (es : List Edge) (res : Option Edge) (metric : ℕ)
    → ((minimal_from local remote res metric es ≡ res) × NoneBelow local remote metric es)
      ⊎ ((e : Edge) × (minimal_from local remote res metric es ≡ some e)
          × IsMinimal local remote metric es e)
unfolding minimal_from
minimal_from-cases local remote [] res metric = inl (refl, tt)
minimal_from-cases local remote (x ∷ es) res metric = elim (Bool-cases (joins local remote x)) [
  | inl j ↦ elim (Bool-cases (ltb x.metric metric)) [
    | inl l ↦ inr (better j l (minimal_from-cases local remote es (some x) x.metric))
    | inr l ↦
        same (rw (minimal_from, j, l) refl) (λ k. ground arith)
          (minimal_from-cases local remote es res metric)
  ]
  | inr j ↦
      same (rw (minimal_from, j) refl) (λ k. absurd cc)
        (minimal_from-cases local remote es res metric)
]
  where
    better :
        joins local remote x ≡ true
        → ltb x.metric metric ≡ true
        → ((minimal_from local remote (some x) x.metric es ≡ some x)
            × NoneBelow local remote x.metric es)
          ⊎ ((e : Edge) × (minimal_from local remote (some x) x.metric es ≡ some e)
              × IsMinimal local remote x.metric es e)
        → (e : Edge) × (minimal_from local remote res metric (x ∷ es) ≡ some e)
          × IsMinimal local remote metric (x ∷ es) e
    better j l (inl (v, none_below)) = (
      x,
      rw (minimal_from, j, l) v,
      record {
        member = inl refl;
        between = j;
        below = ground arith;
        least = ((λ k. omega arith), none_below);
      },
    )
    better j l (inr (e, v, m)) = (
      e,
      rw (minimal_from, j, l) v,
      record {
        member = inr m.member;
        between = m.between;
        below = ground (arith, m.below);
        least = ((λ k. ground (arith, m.below)), m.least);
      },
    )

    same :
        minimal_from local remote res metric (x ∷ es) ≡ minimal_from local remote res metric es
        → (joins local remote x ≡ true → metric ≤ x.metric)
        → ((minimal_from local remote res metric es ≡ res) × NoneBelow local remote metric es)
          ⊎ ((e : Edge) × (minimal_from local remote res metric es ≡ some e)
              × IsMinimal local remote metric es e)
        → ((minimal_from local remote res metric (x ∷ es) ≡ res)
            × NoneBelow local remote metric (x ∷ es))
          ⊎ ((e : Edge) × (minimal_from local remote res metric (x ∷ es) ≡ some e)
              × IsMinimal local remote metric (x ∷ es) e)
    same run h (inl (v, none_below)) = inl (run ∙ v, (h, none_below))
    same run h (inr (e, v, m)) = inr (
      e,
      run ∙ v,
      record {
        member = inr m.member;
        between = m.between;
        below = m.below;
        least = ((λ k. omega (arith, h k, m.below)), m.least);
      },
    )

-- `graph_get_minimal_edge` returns a null pointer, and every edge from the one node to the other,
-- by their ids, has the metric UINT32_MAX at least; or it returns an edge of the graph from the
-- one to the other with a smaller metric, and no such edge has a smaller metric than that.
pub get_minimal_edge-cases :
    (g : Graph) (local remote : Node)
    → ((get_minimal_edge g local remote ≡ none) × NoneBelow local remote max_metric g.edges)
      ⊎ ((e : Edge) × (get_minimal_edge g local remote ≡ some e)
          × IsMinimal local remote max_metric g.edges e)
get_minimal_edge-cases g local remote = minimal_from-cases local remote g.edges none max_metric
