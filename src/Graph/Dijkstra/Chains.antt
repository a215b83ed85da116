-- ===== src/Graph/Dijkstra/Chains.antt =====
-- `__compute_paths` lists the chains of predecessors.
use thesis_data.Common.{
  ℕ, zero, suc, ◌≡◌, ◌⊎◌, inl, inr, refl, ap, sym, ◌∙◌, List, [], ◌∷◌, ◌++◌, Outcome, ok, fault,
  ◌>>=◌, append_assoc, append-nil,
}
use thesis_data.Graph.{Node}
use thesis_data.Graph.Minimal.{All, Any, All-map, All-append}
use thesis_data.Graph.Dijkstra.{each, paths_from}

-- A chain of predecessors from a node on, up to a node that has none and is not listed.
pub data Chain (prev : ℕ → List Node) : Node → List Node → Type 0 where
  stop : {u : Node} → prev u.id ≡ [] → Chain prev u []
  link :
      {u p : Node} {ps : List Node}
      → Any (λ m. m ≡ p) (prev u.id)
      → Chain prev p ps
      → Chain prev u (u ∷ ps)

Chain-cases :
    (prev : ℕ → List Node) (u : Node) (ps : List Node)
    → Chain prev u ps
    → ((prev u.id ≡ []) × (ps ≡ []))
      ⊎ ((p : Node) × (rest : List Node) × (ps ≡ u ∷ rest)
          × Any (λ m. m ≡ p) (prev u.id)
          × Chain prev p rest)
Chain-cases prev u ps (stop e) = inl (e, refl)
Chain-cases prev v qs (link {p} {ps} k c) = inr (p, ps, refl, k, c)

pub bind-ok :
    {A B : Type 0} (m : Outcome A) (f : A → Outcome B) (b : B)
    → m >>= f ≡ ok b
    → (a : A) × (m ≡ ok a) × (f a ≡ ok b)
bind-ok (ok a) f b h = (a, refl, h)
bind-ok (fault e) f b h = absurd cc

Any-left : (P : List Node → Type 0) (xs ys : List (List Node)) → Any P xs → Any P (xs ++ ys)
Any-left P [] ys h = absurd h
Any-left P (x ∷ xs) ys (inl p) = inl p
Any-left P (x ∷ xs) ys (inr h) = inr (Any-left P xs ys h)

Any-right : (P : List Node → Type 0) (xs ys : List (List Node)) → Any P ys → Any P (xs ++ ys)
Any-right P [] ys h = h
Any-right P (x ∷ xs) ys h = inr (Any-right P xs ys h)

-- The lists are what is there and a chain from the node on, and each chain is there.
pub record Lists (prev : ℕ → List Node) (tmp : List Node) (u : Node) (res : List (List Node))
    : Type 0 where
  pub sound : All (λ w. (ps : List Node) × (w ≡ tmp ++ ps) × Chain prev u ps) res
  pub complete : (ps : List Node) → Chain prev u ps → Any (λ w. w ≡ tmp ++ ps) res

-- The same of a list of predecessors.
record ListsEach (prev : ℕ → List Node) (tmp : List Node) (ns : List Node) (res : List (List Node))
    : Type 0 where
  sound :
      All
        (λ w.
          (p : Node) × (ps : List Node) × Any (λ m. m ≡ p) ns × (w ≡ tmp ++ ps) × Chain prev p ps)
        res
  complete :
      (p : Node) (ps : List Node)
      → Any (λ m. m ≡ p) ns
      → Chain prev p ps
      → Any (λ w. w ≡ tmp ++ ps) res

each-Lists :
    (prev : ℕ → List Node) (tmp : List Node) (f : Node → Outcome (List (List Node)))
    → ((p : Node) (res : List (List Node)) → f p ≡ ok res → Lists prev tmp p res)
    → (ns : List Node) (res : List (List Node)) → each f ns ≡ ok res
    → ListsEach prev tmp ns res
unfolding each
each-Lists prev tmp f h [] res e =
    let same : res ≡ [] = cc in rw same (record { sound = tt; complete = λ p ps m c. absurd m })
each-Lists prev tmp f h (n ∷ ns) res e =
    let (a, run, e2) = bind-ok (f n) (λ a. each f ns >>= λ b. ok (a ++ b)) res e in
    let (b, run2, e3) = bind-ok (each f ns) (λ b. ok (a ++ b)) res e2 in
    let same : res ≡ a ++ b = cc in
    let first : Lists prev tmp n a = h n a run in
    let others : ListsEach prev tmp ns b = each-Lists prev tmp f h ns b run2 in
    rw same (record {
      sound =
          All-append _ a b (All-map a (λ w (ps, q, c). (n, ps, inl refl, q, c)) first.sound)
            (All-map b (λ w (p, ps, m, q, c). (p, ps, inr m, q, c)) others.sound);
      complete = λ p ps m c. elim m [
        | inl q ↦ Any-left _ a b (first.complete ps (rw q c))
        | inr m2 ↦ Any-right _ a b (others.complete p ps m2 c)
      ];
    })

paths_from_step :
    (n : ℕ) (prev : ℕ → List Node) (tmp : List Node) (u : Node) (ns : List Node)
    (res : List (List Node))
    → prev u.id ≡ ns
    → ((p : Node) (res : List (List Node))
        → paths_from n prev (tmp ++ (u ∷ [])) p ≡ ok res
        → Lists prev (tmp ++ (u ∷ [])) p res)
    → paths_from (suc n) prev tmp u ≡ ok res
    → Lists prev tmp u res
unfolding paths_from
paths_from_step n prev tmp u [] res e h run =
    let one : res ≡ tmp ∷ [] =
      let made : ok (tmp ∷ []) ≡ ok res = rw (paths_from, e) at run in cc in
    rw one (record {
      sound = (([], sym (append-nil tmp), stop e), tt);
      complete = λ ps c. elim (Chain-cases prev u ps c) [
        | inl (x, q) ↦ inl (sym (append-nil tmp) ∙ ap (λ a. tmp ++ a) (sym q))
        | inr (p, rest, q, k, c2) ↦ absurd (rw e at k)
      ];
    })
paths_from_step n prev tmp u (m ∷ ns) res e h run =
    let run2 : each (paths_from n prev (tmp ++ (u ∷ []))) (m ∷ ns) ≡ ok res =
      rw (paths_from, e) at run in
    let l : ListsEach prev (tmp ++ (u ∷ [])) (m ∷ ns) res =
      each-Lists prev (tmp ++ (u ∷ [])) (paths_from n prev (tmp ++ (u ∷ []))) h (m ∷ ns) res run2 in
    record {
      sound =
          All-map res
            (λ w (p, ps, k, q, c). (u ∷ ps, q ∙ append_assoc tmp (u ∷ []) ps, link (rw e k) c))
            l.sound;
      complete = λ ps c. elim (Chain-cases prev u ps c) [
        | inl (x, q) ↦ absurd cc
        | inr (p, rest, q, k, c2) ↦
            rw (q, sym (append_assoc tmp (u ∷ []) rest)) (l.complete p rest (rw e at k) c2)
      ];
    }

pub paths_from-Lists :
    (n : ℕ) (prev : ℕ → List Node) (tmp : List Node) (u : Node) (res : List (List Node))
    → paths_from n prev tmp u ≡ ok res
    → Lists prev tmp u res
unfolding paths_from
paths_from-Lists zero prev tmp u res run = absurd cc
paths_from-Lists (suc n) prev tmp u res run =
    paths_from_step n prev tmp u (prev u.id) res refl (paths_from-Lists n prev (tmp ++ (u ∷ [])))
      run
