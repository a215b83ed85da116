-- ===== src/Controller/Synced.antt =====
-- `netstate_graph_sync` publishes a copy of the staging graph that paths can be looked for in.
use thesis_data.Common.{
  ℕ, ◌≤◌, ◌≡◌, ◌≢◌, inl, inr, refl, ap, sym, ◌∙◌, Bool, true, false, not, ◌||◌, Option, none, some,
  List, [], ◌∷◌, map, ◌==◌, if◌then◌else◌, ok, Returns, arith, Bool-cases, ==→eq,
}
use thesis_data.Graph.{Node, Edge, Graph, exist_node, max_metric}
use thesis_data.Graph.Minimal.{All, All-map, All-both}
use thesis_data.Graph.Neighbors.{Distinct}
use thesis_data.Graph.Copies.{Copying, copy_node}
use thesis_data.Graph.Copies.Copied.{Copied, IsCopy, deepcopy-Copied}
use thesis_data.Graph.Dijkstra.{put}
use thesis_data.Graph.Dijkstra.Inv.{put_self, put_ne}
use thesis_data.Graph.Dijkstra.Queue.{waits, DistinctIds}
use thesis_data.Graph.Dijkstra.Plain.{IsPlain}
use thesis_data.Graph.Minseg.{finalize}
use thesis_data.Graph.Minseg.Cached.{finalize-IsSound, build_cache_from-Caches, All-self}
use thesis_data.Graph.Minseg.Total.{plain-Ends}
use thesis_data.Controller.{Link, State}
use thesis_data.Controller.Netstate.{
  copy_links, swap_graph, clear_dirty, publish, netstate_graph_sync,
}
use thesis_data.Controller.Decision.{Published}
use thesis_data.Controller.Staged.{Staged}

-- Nodes at different places have copies at different places, and so have links; no copy of a link
-- stands where a link of the edges stands.
pub record Places (ops : Copying) (edges : List Edge) : Type 0 where
  pub nodes : (n m : Node) → ops.node_addr n ≡ ops.node_addr m → n.addr ≡ m.addr
  pub links : (p q : ℕ) → ops.edge_data_copy p ≡ ops.edge_data_copy q → p ≡ q
  pub fresh : (p : ℕ) → All (λ (e : Edge). ops.edge_data_copy p ≢ e.payload) edges

module _ (ops : Copying) where
  abbrev Apart : Type 0
  Apart = (n m : Node) → ops.node_addr n ≡ ops.node_addr m → n.addr ≡ m.addr

  waits-copied : (ns : List Node) (i : ℕ) → waits (map (copy_node ops) ns) i ≡ waits ns i
  waits-copied [] i = refl
  waits-copied (n ∷ ns) i = ap (λ b. n.id == i || b) (waits-copied ns i)

  DistinctIds-copied : (ns : List Node) → DistinctIds ns → DistinctIds (map (copy_node ops) ns)
  DistinctIds-copied [] d = tt
  DistinctIds-copied (n ∷ ns) (f, d) = (waits-copied ns n.id ∙ f, DistinctIds-copied ns d)

  exist-copied :
      Apart
      → (ns : List Node) (n : Node) → exist_node ns n ≡ false
      → exist_node (map (copy_node ops) ns) (copy_node ops n) ≡ false
  unfolding exist_node
  exist-copied places [] n h = refl
  exist-copied places (m ∷ ns) n h = elim (Bool-cases (ops.node_addr m == ops.node_addr n)) [
    | inl e ↦ absurd (ground (arith, h, places m n (==→eq (ops.node_addr m) (ops.node_addr n) e)))
    | inr e ↦ ground (arith, e, exist-copied places ns n (ground (arith, h)))
  ]

  Distinct-copied : Apart → (ns : List Node) → Distinct ns → Distinct (map (copy_node ops) ns)
  Distinct-copied places [] d = tt
  Distinct-copied places (n ∷ ns) (f, d) = (exist-copied places ns n f, Distinct-copied places ns d)

  All-Copied :
      (P : Edge → Type 0) (Q : Edge → Type 0) (nodes : List Node)
      → ((e e2 : Edge) → IsCopy ops nodes e e2 → P e → Q e2)
      → (es es2 : List Edge) → Copied ops nodes es es2
      → All P es
      → All Q es2
  All-Copied P Q nodes f [] [] c a = tt
  All-Copied P Q nodes f [] (e2 ∷ es2) c a = absurd c
  All-Copied P Q nodes f (e ∷ es) [] c a = absurd c
  All-Copied P Q nodes f (e ∷ es) (e2 ∷ es2) (is, c) (p, a) =
      (f e e2 is p, All-Copied P Q nodes f es es2 c a)

  Copied-IsPlain :
      (g g2 : Graph)
      → Apart
      → g2.nodes ≡ map (copy_node ops) g.nodes
      → Copied ops g2.nodes g.edges g2.edges
      → IsPlain g
      → IsPlain g2
  Copied-IsPlain g g2 places nodes edges plain = record {
    ids = rw nodes (DistinctIds-copied g.nodes plain.ids);
    addrs = rw nodes (Distinct-copied places g.nodes plain.addrs);
    ends =
        All-Copied _ _ g2.nodes (λ e e2 is h. (is.from, is.to)) g.edges g2.edges edges plain.ends;
    metrics =
        All-Copied (λ e. e.metric ≤ max_metric) (λ e. e.metric ≤ max_metric) g2.nodes
          (λ e e2 is h. omega (arith, is.metric, h)) g.edges g2.edges edges plain.metrics;
  }

put-other : (i j : ℕ) (l : Link) (links : ℕ → Link) → i ≢ j → put i l links j ≡ links j
put-other i j l links ne = elim (Bool-cases (i == j)) [
  | inl e ↦ absurd (ne (==→eq i j e))
  | inr e ↦ put_ne i j l links e
]

module _ (copy : ℕ → ℕ) where
  -- What `copy_links` does not write over.
  copy_links-other :
      (es : List Edge) (links : ℕ → Link) (q : ℕ)
      → ((p : ℕ) → copy p ≢ q)
      → copy_links copy es links q ≡ links q
  unfolding copy_links
  copy_links-other [] links q ne = refl
  copy_links-other (e ∷ es) links q ne =
      copy_links-other es (put (copy e.payload) (links e.payload) links) q ne
      ∙ put-other (copy e.payload) q (links e.payload) links (ne e.payload)

  module _ (apart : (p q : ℕ) → copy p ≡ copy q → p ≡ q) where
    -- A copy that is there stays.
    copy_links-there :
        (es : List Edge) (links : ℕ → Link) (q : ℕ)
        → ((p : ℕ) → copy p ≢ q)
        → All (λ (e : Edge). (p : ℕ) → copy p ≢ e.payload) es
        → links (copy q) ≡ links q
        → copy_links copy es links (copy q) ≡ links q
    unfolding copy_links
    copy_links-there [] links q ne fresh h = h
    copy_links-there (e ∷ es) links q ne (f, fresh) h =
        let next : ℕ → Link = put (copy e.payload) (links e.payload) links in
        let same : next q ≡ links q =
          put-other (copy e.payload) q (links e.payload) links (ne e.payload) in
        let kept : next (copy q) ≡ links q = elim (Bool-cases (copy e.payload == copy q)) [
          | inl b ↦
              let one : e.payload ≡ q = apart e.payload q (==→eq (copy e.payload) (copy q) b) in
              rw b (ap links one)
          | inr b ↦ put_ne (copy e.payload) (copy q) (links e.payload) links b ∙ h
        ] in
        copy_links-there es next q ne fresh (kept ∙ sym same) ∙ same

    -- Each link has a copy with its contents.
    copy_links-copied :
        (es : List Edge) (links : ℕ → Link)
        → All (λ (e : Edge). (p : ℕ) → copy p ≢ e.payload) es
        → All (λ (e : Edge). copy_links copy es links (copy e.payload) ≡ links e.payload) es
    unfolding copy_links
    copy_links-copied [] links fresh = tt
    copy_links-copied (e ∷ es) links (f, fresh) =
        let next : ℕ → Link = put (copy e.payload) (links e.payload) links in
        let here : next (copy e.payload) ≡ links e.payload =
          put_self (copy e.payload) (links e.payload) links in
        let same : next e.payload ≡ links e.payload =
          put-other (copy e.payload) e.payload (links e.payload) links (f e.payload) in
        (
          copy_links-there es next e.payload f fresh (here ∙ sym same) ∙ same,
          All-both es
              (λ d h f'.
                h ∙ put-other (copy e.payload) d.payload (links e.payload) links (f' e.payload))
              (copy_links-copied es next fresh) fresh,
        )

All-each :
    (copy : ℕ → ℕ) (es : List Edge)
    → ((p : ℕ) → All (λ (e : Edge). copy p ≢ e.payload) es)
    → All (λ (e : Edge). (p : ℕ) → copy p ≢ e.payload) es
All-each copy [] f = tt
All-each copy (e ∷ es) f = ((λ p. (f p).0), All-each copy es (λ p. (f p).1))

-- The published graph is a copy of the staging graph, which is no longer dirty; the links of its
-- edges have the contents of those that they are copies of, which are as before.
pub record IsFresh (ops : Copying) (st st' : State) : Type 0 where
  pub nodes : st'.graph.nodes ≡ map (copy_node ops) st.graph_staging.nodes
  pub edges : Copied ops st'.graph.nodes st.graph_staging.edges st'.graph.edges
  pub clean : st'.graph_staging.dirty ≡ false
  pub links :
      All
        (λ (e : Edge). st'.links (ops.edge_data_copy e.payload) ≡ st.links e.payload)
        st.graph_staging.edges
  pub originals :
      All (λ (e : Edge). st'.links e.payload ≡ st.links e.payload) st.graph_staging.edges

-- What a call of `netstate_graph_sync` leaves.
pub record Syncs (granted : Option (Copying × (Node → Bool))) (st : State) (b : Bool) (st' : State)
    : Type 0 where
  pub staged : Staged st'
  pub published : Published st'
  pub flows : st'.flows ≡ st.flows
  pub fresh :
      (ops : Copying) (cached : Node → Bool)
      → st.graph_staging.dirty ≡ true
      → granted ≡ some (ops, cached)
      → (b ≡ true) × IsFresh ops st st'

publish-Syncs :
    (ops : Copying) (cached : Node → Bool) (st : State)
    → Staged st
    → Places ops st.graph_staging.edges
    → Returns (publish ops cached st) λ (b, st'). Syncs (some (ops, cached)) st b st'
unfolding publish swap_graph clear_dirty
publish-Syncs ops cached st staged places =
    let (g, run, (nodes, edges, last, last_edge)) =
      deepcopy-Copied ops st.graph_staging staged.plain.ends in
    let plain : IsPlain g =
      Copied-IsPlain ops st.graph_staging g places.nodes nodes edges staged.plain in
    let ((done, f), run', (cache, same, sound)) =
      build_cache_from-Caches cached g.nodes (finalize g) (All-self g.nodes (plain-Ends g [] plain))
        (finalize-IsSound g) in
    let each = All-each ops.edge_data_copy st.graph_staging.edges places.fresh in
    let st' : State = record st {
      graph = g;
      finalized = f;
      graph_staging = record st.graph_staging { dirty = false };
      links = copy_links ops.edge_data_copy st.graph_staging.edges st.links;
    } in
    (
      (true, st'),
      rw (publish, swap_graph, run, run') refl,
      record {
        staged = record {
          plain = record {
            ids = staged.plain.ids;
            addrs = staged.plain.addrs;
            ends = staged.plain.ends;
            metrics = staged.plain.metrics;
          };
          numbered = staged.numbered;
          homes = staged.homes;
          tree = staged.tree;
          owned = staged.owned;
        };
        published = record {
          plain = plain;
          cache = cache;
          computed = same;
          sound = rw same at sound;
        };
        flows = refl;
        fresh = λ ops' cached' d e.
            let first : ops ≡ ops' = cc in
            (
              refl,
              rw (sym first) (record {
                nodes = nodes;
                edges = edges;
                clean = refl;
                links =
                    copy_links-copied ops.edge_data_copy places.links st.graph_staging.edges
                      st.links each;
                originals =
                    All-map st.graph_staging.edges
                      (λ e f.
                        copy_links-other ops.edge_data_copy st.graph_staging.edges st.links
                          e.payload f)
                      each;
              }),
            );
      },
    )

-- From a state that the handlers leave, and with a published graph that paths can be looked for
-- in, and where the copies of nodes and links get places of their own, `netstate_graph_sync` ends
-- without a fault in such a state, whichever results of the cache `malloc` has no room for. Where
-- the staging graph is dirty and the copy does not fail, it returns 0; the published graph is a
-- copy of the staging graph, which is dirty no longer, and the link of each edge has the contents
-- of the link that it is a copy of, which stays as it was. The flows stay as they are.
pub netstate_graph_sync-Syncs :
    (granted : Option (Copying × (Node → Bool))) (st : State)
    → ((ops : Copying) (cached : Node → Bool)
        → granted ≡ some (ops, cached)
        → Places ops st.graph_staging.edges)
    → Staged st
    → Published st
    → Returns (netstate_graph_sync granted st) λ (b, st'). Syncs granted st b st'
unfolding netstate_graph_sync
netstate_graph_sync-Syncs none st places staged published = (
  (not st.graph_staging.dirty, st),
  refl,
  record {
    staged = staged;
    published = published;
    flows = refl;
    fresh = λ ops cached d q. absurd cc;
  },
)
netstate_graph_sync-Syncs (some (ops, cached)) st places staged published =
    elim (Bool-cases st.graph_staging.dirty) [
      | inr e ↦ (
        (true, st),
        ap (λ d. if d then publish ops cached st else ok (true, st)) e,
        record {
          staged = staged;
          published = published;
          flows = refl;
          fresh = λ ops cached d q. absurd cc;
        },
      )
      | inl e ↦
          let (o, run, syncs) = publish-Syncs ops cached st staged (places ops cached refl) in
          (o, ap (λ d. if d then publish ops cached st else ok (true, st)) e ∙ run, syncs)
    ]
