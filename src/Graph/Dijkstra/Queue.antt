-- ===== src/Graph/Dijkstra/Queue.antt =====
-- The queue of a search: which ids wait in it, and what is taken from it.
use thesis_data.Common.{
  ℕ, suc, ◌≤◌, ◌<◌, ◌≡◌, ◌⊎◌, inl, inr, refl, ap, sym, ◌∙◌, Bool, true, false, not, ◌||◌, ◌&&◌,
  Option, none, some, List, [], ◌∷◌, length, ltb, ◌==◌, arith, Bool-cases, ==→eq, ==_iff,
}
use thesis_data.Graph.{Node, exist_node, max_metric}
use thesis_data.Graph.Minimal.{All, All-map, Any}
use thesis_data.Graph.Dijkstra.{drop_node, select_from, select}

-- Some node of the list has the id.
abbrev pub waits : List Node → ℕ → Bool
waits [] i = false
waits (n ∷ ns) i = n.id == i || waits ns i

abbrev pub DistinctIds : List Node → Type 0
DistinctIds [] = Unit
DistinctIds (n ∷ ns) = (waits ns n.id ≡ false) × DistinctIds ns

abbrev pub Known : List Node → Node → Type 0
Known nodes n = Any (λ m. m ≡ n) nodes

-- An address, or an id, belongs to one node of the list at most.
pub record Names (nodes : List Node) : Type 0 where
  pub by_id : (x y : Node) → Known nodes x → Known nodes y → x.id ≡ y.id → x ≡ y
  pub by_addr : (x y : Node) → Known nodes x → Known nodes y → x.addr ≡ y.addr → x ≡ y

pub waits-Any : (ns : List Node) (n : Node) → Any (λ m. m ≡ n) ns → waits ns n.id ≡ true
waits-Any [] n h = absurd h
waits-Any (m ∷ ns) n (inl e) =
    let same : (m.id == n.id) ≡ true = (==_iff m.id n.id).1 (ap (λ (k : Node). k.id) e) in
    rw same refl
waits-Any (m ∷ ns) n (inr h) = ground (arith, waits-Any ns n h)

pub waits-node :
    (ns : List Node) (i : ℕ) → waits ns i ≡ true → (n : Node) × Any (λ m. m ≡ n) ns × (n.id ≡ i)
waits-node [] i h = absurd cc
waits-node (m ∷ ns) i h = elim (Bool-cases (m.id == i)) [
  | inl e ↦ (m, inl refl, ==→eq m.id i e)
  | inr e ↦ let (n, a, p) = waits-node ns i (ground (arith, h, e)) in (n, inr a, p)
]

pub All-Any : (P : Node → Type 0) (ns : List Node) (n : Node) → All P ns → Any (λ m. m ≡ n) ns → P n
All-Any P [] n a h = absurd h
All-Any P (m ∷ ns) n (p, a) (inl e) = rw (sym e) p
All-Any P (m ∷ ns) n (p, a) (inr h) = All-Any P ns n a h

pub All-Known : (ns : List Node) → All (Known ns) ns
All-Known [] = tt
All-Known (n ∷ ns) = (inl refl, All-map ns (λ v k. inr k) (All-Known ns))

module _ (nodes : List Node) (names : Names nodes) where
  pub same_test : (x y : Node) → Known nodes x → Known nodes y → (x.addr == y.addr) ≡ (x.id == y.id)
  same_test x y h k = elim (Bool-cases (x.addr == y.addr)) [
    | inl e ↦
        let same : x ≡ y = names.by_addr x y h k (==→eq x.addr y.addr e) in
        e ∙ sym ((==_iff x.id y.id).1 (ap (λ (n : Node). n.id) same))
    | inr e ↦ elim (Bool-cases (x.id == y.id)) [
      | inl f ↦
          let same : x ≡ y = names.by_id x y h k (==→eq x.id y.id f) in
          absurd (ground (arith, e, ap (λ (n : Node). n.addr) same))
      | inr f ↦ e ∙ sym f
    ]
  ]

  pub exist_node-waits :
      (ns : List Node) (x : Node)
      → All (Known nodes) ns
      → Known nodes x
      → exist_node ns x ≡ waits ns x.id
  unfolding exist_node
  exist_node-waits [] x a h = refl
  exist_node-waits (n ∷ ns) x (k, a) h = rw (same_test n x k h, exist_node-waits ns x a h) refl

  pub drop-waits :
      (ns : List Node) (u : Node) (i : ℕ)
      → All (Known nodes) ns
      → Known nodes u
      → DistinctIds ns
      → waits (drop_node ns u.addr) i ≡ (waits ns i && not (u.id == i))
  unfolding drop_node
  drop-waits [] u i a h d = refl
  drop-waits (n ∷ ns) u i (k, a) h (f, d) = elim (Bool-cases (n.id == u.id)) [
    | inl e ↦
        let same : n.addr == u.addr ≡ true = same_test n u k h ∙ e in
        rw (drop_node, same) (ground (arith, ==→eq n.id u.id e, f))
    | inr e ↦
        let other : n.addr == u.addr ≡ false = same_test n u k h ∙ e in
        rw (drop_node, other) (ground (arith, drop-waits ns u i a h d, e))
  ]

pub drop-All : (P : Node → Type 0) (ns : List Node) (p : ℕ) → All P ns → All P (drop_node ns p)
unfolding drop_node
drop-All P [] p a = tt
drop-All P (n ∷ ns) p (h, a) = elim (Bool-cases (n.addr == p)) [
  | inl e ↦ rw (drop_node, e) a
  | inr e ↦ rw (drop_node, e) (h, drop-All P ns p a)
]

pub waits-drop : (ns : List Node) (p i : ℕ) → waits ns i ≡ false → waits (drop_node ns p) i ≡ false
unfolding drop_node
waits-drop [] p i h = refl
waits-drop (n ∷ ns) p i h = ground (arith, waits-drop ns p i)

pub drop-DistinctIds : (ns : List Node) (p : ℕ) → DistinctIds ns → DistinctIds (drop_node ns p)
unfolding drop_node
drop-DistinctIds [] p d = tt
drop-DistinctIds (n ∷ ns) p (h, d) = elim (Bool-cases (n.addr == p)) [
  | inl e ↦ rw (drop_node, e) d
  | inr e ↦ rw (drop_node, e) (waits-drop ns p n.id h, drop-DistinctIds ns p d)
]

pub length-drop :
    (ns : List Node) (u : Node)
    → Any (λ m. m ≡ u) ns
    → suc (length (drop_node ns u.addr)) ≡ length ns
unfolding drop_node
length-drop [] u h = absurd h
length-drop (n ∷ ns) u h = elim (Bool-cases (n.addr == u.addr)) [
  | inl e ↦ rw (drop_node, e) refl
  | inr e ↦ elim h [
    | inl same ↦ absurd (ground (arith, e, ap (λ (k : Node). k.addr) same))
    | inr k ↦ rw (drop_node, e) (ap suc (length-drop ns u k))
  ]
]

-- A node of the queue, nearer than a bound, that no node of the queue is nearer than.
pub record IsNearest (dist : ℕ → ℕ) (bound : ℕ) (ns : List Node) (u : Node) : Type 0 where
  pub member : Any (λ m. m ≡ u) ns
  pub below : dist u.id < bound
  pub least : (i : ℕ) → waits ns i ≡ true → dist u.id ≤ dist i

abbrev pub Beyond : (ℕ → ℕ) → ℕ → List Node → Type 0
Beyond dist bound ns = (i : ℕ) → waits ns i ≡ true → bound ≤ dist i

Beyond-cons :
    (dist : ℕ → ℕ) (bound : ℕ) (n : Node) (ns : List Node)
    → bound ≤ dist n.id
    → Beyond dist bound ns
    → Beyond dist bound (n ∷ ns)
Beyond-cons dist bound n ns h b = λ i w. elim (Bool-cases (n.id == i)) [
  | inl e ↦ rw (sym (==→eq n.id i e)) h
  | inr e ↦ b i (ground (arith, w, e))
]

select_from-cases :
    (dist : ℕ → ℕ) (best : Option Node) (bound : ℕ) (ns : List Node)
    → ((select_from dist best bound ns ≡ best) × Beyond dist bound ns)
      ⊎ ((u : Node) × (select_from dist best bound ns ≡ some u) × IsNearest dist bound ns u)
unfolding select_from
select_from-cases dist best bound [] = inl (refl, λ i w. absurd cc)
select_from-cases dist best bound (n ∷ ns) = elim (Bool-cases (ltb (dist n.id) bound)) [
  | inl e ↦ elim (select_from-cases dist (some n) (dist n.id) ns) [
    | inl (p, b) ↦ inr (
      n,
      rw (select_from, e) p,
      record {
        member = inl refl;
        below = ground (arith, e);
        least = Beyond-cons dist (dist n.id) n ns (omega arith) b;
      },
    )
    | inr (u, p, m) ↦ inr (
      u,
      rw (select_from, e) p,
      record {
        member = inr m.member;
        below = ground (arith, e, m.below);
        least = Beyond-cons dist (dist u.id) n ns (omega (arith, m.below)) m.least;
      },
    )
  ]
  | inr e ↦ elim (select_from-cases dist best bound ns) [
    | inl (p, b) ↦ inl (rw (select_from, e) p, Beyond-cons dist bound n ns (ground (arith, e)) b)
    | inr (u, p, m) ↦ inr (
      u,
      rw (select_from, e) p,
      record {
        member = inr m.member;
        below = m.below;
        least = Beyond-cons dist (dist u.id) n ns (ground (arith, e, m.below)) m.least;
      },
    )
  ]
]

pub select-cases :
    (dist : ℕ → ℕ) (ns : List Node)
    → ((select dist ns ≡ none) × Beyond dist max_metric ns)
      ⊎ ((u : Node) × (select dist ns ≡ some u) × IsNearest dist max_metric ns u)
select-cases dist ns = select_from-cases dist none max_metric ns
