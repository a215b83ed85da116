-- ===== src/Controller/Staged.antt =====
-- The state of the network that the handlers build: what each keeps.
use thesis_data.Common.{
  ℕ, suc, ◌-◌, ◌%◌, ◌^◌, ◌≤◌, ◌<◌, ◌≡◌, ◌⊎◌, inl, inr, refl, ap, sym, ◌∙◌, Bool, true, false, ◌||◌,
  Option, none, some, List, [], ◌∷◌, ◌++◌, ◌==◌, if◌then◌else◌, ok, Returns, arith, Bool-cases,
  Option-cases, ==_iff,
}
use thesis_data.HashMap.Keys.{str_ops, str_ops-IsKey}
use thesis_data.Misc.{strsplit}
use thesis_data.Lpm.{Addr, Tree, insert}
use thesis_data.Lpm.Below.{IsTree, Has}
use thesis_data.Lpm.Insert.{insert-Updated}
use thesis_data.Lpm.Updated.{Continues}
use thesis_data.Graph.{Node, Graph, inc_uint, add_node, exist_node}
use thesis_data.Graph.Minimal.{All, All-map, All-append}
use thesis_data.Graph.Tables.{Table, lookup, store}
use thesis_data.Graph.Lookups.{lookup-store}
use thesis_data.Graph.Dijkstra.Queue.{waits}
use thesis_data.Graph.Dijkstra.Plain.{IsPlain}
use thesis_data.Controller.{Router, Prefix, State, pref_pton, router_at, mark_graph_dirty}
use thesis_data.Controller.Netstate.{
  World, NodeState, add_prefixes, read_pbsid, add_router, nodestate_read,
}
use thesis_data.Controller.Growth.{add_node-IsPlain, above_waits, waits-snoc}

-- The nodes of the staging graph are numbered as they come and stand for the routers; the prefixes
-- are prefixes of routers.
pub record Staged (st : State) : Type 0 where
  pub plain : IsPlain st.graph_staging
  pub numbered : All (λ n. n.id ≤ st.graph_staging.last_node) st.graph_staging.nodes
  pub homes :
      (name : List ℕ) (rt : Router)
      → lookup str_ops name st.routers ≡ some rt
      → waits st.graph_staging.nodes rt.node_id ≡ true
  pub tree : IsTree st.prefixes
  pub owned :
      (q : Addr) (k x : ℕ)
      → Has st.prefixes q k x
      → (x ≡ 0) ⊎ ((rt : Router) × (router_at x st.routers ≡ some rt))

-- The prefixes can be put into the tree, one behind the other.
abbrev pub Fit : World → ℕ → List (List ℕ) → Tree → Type 0
Fit w rt [] t = Unit
Fit w rt ([] ∷ vargs) t = Fit w rt vargs t
Fit w rt ((c ∷ s) ∷ vargs) t =
    let p : Prefix = pref_pton w.inet_pton (c ∷ s) in
    (p.len % 2 ^ 8 ≤ 128)
    × Continues p.addr (p.len % 2 ^ 8) rt t
    × ((t' : Tree) → insert p.addr (p.len % 2 ^ 8) rt t ≡ ok t' → Fit w rt vargs t')

-- A tree has the entries of another, and those of a payload.
abbrev Grown : ℕ → Tree → Tree → Type 0
Grown rt t t' = (q : Addr) (k x : ℕ) → Has t' q k x → (x ≡ rt) ⊎ Has t q k x

add_prefixes-Grown :
    (w : World) (rt : ℕ) (vargs : List (List ℕ)) (listed : List Prefix) (t : Tree)
    → IsTree t
    → Fit w rt vargs t
    → Returns (add_prefixes w rt vargs listed t) λ (l, t'). IsTree t' × Grown rt t t'
unfolding add_prefixes
add_prefixes-Grown w rt [] listed t tree fit = ((listed, t), refl, (tree, λ q k x h. inr h))
add_prefixes-Grown w rt ([] ∷ vargs) listed t tree fit =
    add_prefixes-Grown w rt vargs listed t tree fit
add_prefixes-Grown w rt ((c ∷ s) ∷ vargs) listed t tree (short, continues, later) =
    let p : Prefix = pref_pton w.inet_pton (c ∷ s) in
    let (t', run, (tree', updated)) =
      insert-Updated p.addr (p.len % 2 ^ 8) rt t short tree continues in
    let ((l, t2), run', (tree2, grown)) =
      add_prefixes-Grown w rt vargs (listed ++ (p ∷ [])) t' tree' (later t' run) in
    (
      (l, t2),
      rw (add_prefixes, run) run',
      (
        tree2,
        λ q k x h. elim (grown q k x h) [
          | inl e ↦ inl e
          | inr h' ↦ elim (updated.only q k x h') [ inl (e, same) ↦ inl e | inr o ↦ inr o ]
        ],
      ),
    )

router_at-store :
    (x : ℕ) (name : List ℕ) (r : Router) (t : Table (List ℕ) Router)
    → lookup str_ops name t ≡ none
    → ((rt : Router) × (router_at x t ≡ some rt)) ⊎ (x ≡ r.ptr)
    → (rt : Router) × (router_at x (store str_ops name r t) ≡ some rt)
unfolding router_at store lookup
router_at-store x name r [] h (inl (rt, e)) = absurd cc
router_at-store x name r [] h (inr e) =
    let same : (r.ptr == x) ≡ true = (==_iff r.ptr x).1 (sym e) in (r, rw same refl)
router_at-store x name r ((l, o) ∷ t) h there = elim (Bool-cases (str_ops.equal l name)) [
  | inl e ↦ let found : some o ≡ none = rw e at h in absurd cc
  | inr e ↦
      let rest : lookup str_ops name t ≡ none = rw e at h in
      elim (Bool-cases (o.ptr == x)) [
        | inl q ↦ (o, rw (store, e) (rw (router_at, q) refl))
        | inr q ↦
            let later : ((rt : Router) × (router_at x t ≡ some rt)) ⊎ (x ≡ r.ptr) = elim there [
              | inl (rt, f) ↦ inl (rt, rw q at f)
              | inr f ↦ inr f
            ] in
            let (rt, found) = router_at-store x name r t rest later in
            (rt, rw (store, e) (rw (router_at, q) found))
      ]
]

-- What `nodestate_read` needs: places for the router and for its node, the prefixes of the router,
-- which fit into the tree, and an id that is left.
pub record NewRouter (w : World) (entry : NodeState) (st : State) (rt node_addr : ℕ) : Type 0 where
  pub vargs : List (List ℕ)
  pub split : strsplit entry.prefix 59 ≡ ok vargs
  pub fit : Fit w rt vargs st.prefixes
  pub apart : (n : Node) → n.addr ≡ node_addr → exist_node st.graph_staging.nodes n ≡ false
  pub left : st.graph_staging.last_node < 2 ^ 32 - 1

-- A handler leaves the published graph and the flows alone, and all that it refuses.
pub record Kept (st : State) (b : Bool) (st' : State) : Type 0 where
  pub staged : Staged st'
  pub graph : st'.graph ≡ st.graph
  pub finalized : st'.finalized ≡ st.finalized
  pub flows : st'.flows ≡ st.flows
  pub refused : b ≡ false → st' ≡ st

pub unchanged : (st : State) → Staged st → Kept st false st
unchanged st staged = record {
  staged = staged;
  graph = refl;
  finalized = refl;
  flows = refl;
  refused = λ e. refl;
}

module _ (w : World) (rt node_addr : ℕ) (entry : NodeState) (st : State) (staged : Staged st)
    (new : NewRouter w entry st rt node_addr)
    (unknown : lookup str_ops entry.name st.routers ≡ none) (listed : List Prefix) (t : Tree)
    (tree : IsTree t) (grown : Grown rt st.prefixes t) where
  abbrev marked : State
  marked = mark_graph_dirty w.now (record st { prefixes = t })

  abbrev id : ℕ
  id = inc_uint st.graph_staging.last_node

  next_id : id ≡ suc st.graph_staging.last_node
  next_id = omega (arith, new.left)

  abbrev rt_node : Node
  rt_node = record { addr = node_addr; id = id; payload = rt }

  abbrev router : Router
  router = record {
    ptr = rt;
    name = entry.name;
    addr = w.inet_pton entry.addr;
    pbsid = read_pbsid w entry.pbsid;
    prefixes = listed;
    node_id = id;
  }

  abbrev grown_graph : Graph
  grown_graph = record st.graph_staging {
    nodes = st.graph_staging.nodes ++ (rt_node ∷ []);
    last_node = id;
    dirty = true;
  }

  abbrev result : State
  result = record marked {
    graph_staging = grown_graph;
    routers = store str_ops entry.name router st.routers;
  }

  add_router-result :
      add_router w rt entry listed marked (add_node marked.graph_staging (some node_addr) rt)
      ≡ ok (true, result)
  unfolding add_router add_node mark_graph_dirty
  add_router-result = refl

  result_homes :
      (name : List ℕ) (r : Router)
      → lookup str_ops name (store str_ops entry.name router st.routers) ≡ some r
      → waits grown_graph.nodes r.node_id ≡ true
  result_homes name r h =
      let found : (if str_ops.equal entry.name name
            then some router
            else lookup str_ops name st.routers)
          ≡ some r =
        sym (lookup-store str_ops-IsKey entry.name name router st.routers) ∙ h in
      let here : waits grown_graph.nodes r.node_id
          ≡ (waits st.graph_staging.nodes r.node_id || id == r.node_id) =
        waits-snoc st.graph_staging.nodes rt_node r.node_id in
      elim (Bool-cases (str_ops.equal entry.name name)) [
        | inl e ↦
            let same : some router ≡ some r = rw e at found in
            let its : id ≡ r.node_id = ap (λ (o : Option Router). node_of o) same in
            ground (arith, here, its)
        | inr e ↦
            let before : lookup str_ops name st.routers ≡ some r = rw e at found in
            ground (arith, here, staged.homes name r before)
      ]
    where
      node_of : Option Router → ℕ
      node_of none = 0
      node_of (some o) = o.node_id

  result-Staged : Staged result
  unfolding mark_graph_dirty
  result-Staged = record {
    plain =
        add_node-IsPlain st.graph_staging rt_node id true staged.plain
          (above_waits st.graph_staging.nodes st.graph_staging.last_node id staged.numbered
            (omega (arith, next_id)))
          (new.apart rt_node refl);
    numbered =
        All-append _ st.graph_staging.nodes (rt_node ∷ [])
          (All-map st.graph_staging.nodes (λ n h. omega (arith, h, next_id)) staged.numbered)
          (omega arith, tt);
    homes = result_homes;
    tree = tree;
    owned = λ q k x h. elim (grown q k x h) [
      | inl e ↦ inr (router_at-store x entry.name router st.routers unknown (inr e))
      | inr o ↦ elim (staged.owned q k x o) [
        | inl z ↦ inl z
        | inr there ↦ inr (router_at-store x entry.name router st.routers unknown (inl there))
      ]
    ];
  }

  result-Kept : Kept st true result
  unfolding mark_graph_dirty
  result-Kept = record {
    staged = result-Staged;
    graph = refl;
    finalized = refl;
    flows = refl;
    refused = λ e. absurd cc;
  }

pub nodestate_read-Kept :
    (w : World) (rt_addr : Option ℕ) (rt node_addr : ℕ) (entry : NodeState) (st : State)
    → Staged st
    → (rt_addr ≡ none) ⊎ ((rt_addr ≡ some rt) × NewRouter w entry st rt node_addr)
    → Returns (nodestate_read w rt_addr (some node_addr) entry st) λ (b, st'). Kept st b st'
unfolding nodestate_read
nodestate_read-Kept w rt_addr rt node_addr entry st staged given =
    elim (Option-cases (lookup str_ops entry.name st.routers)) [
      | inr (r, e) ↦ ((false, st), rw (nodestate_read, e) refl, unchanged st staged)
      | inl e ↦ elim given [
        | inl p ↦ ((false, st), rw (nodestate_read, e, p) refl, unchanged st staged)
        | inr (p, new) ↦
            let ((listed, t), run, (tree, grown)) =
              add_prefixes-Grown w rt new.vargs [] st.prefixes staged.tree new.fit in
            (
              (true, result w rt node_addr entry st staged new e listed t tree grown),
              rw (nodestate_read, e, p, new.split, run)
                  (add_router-result w rt node_addr entry st staged new e listed t tree grown),
              result-Kept w rt node_addr entry st staged new e listed t tree grown,
            )
      ]
    ]
