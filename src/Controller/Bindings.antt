-- ===== src/Controller/Bindings.antt =====
-- The bindings of flows: `generate_unique_bsid`, and the table of flows.
use thesis_data.Common.{
  ℕ, zero, suc, ◌-◌, ◌/◌, ◌≤◌, ◌<◌, ◌≡◌, inl, inr, refl, ap, sym, ◌∙◌, true, false, Option, none,
  some, List, [], ◌∷◌, ◌++◌, take, map, length, append-nil, append_assoc, Bool, leb, ◌==◌, ==→eq,
  arith, Bool-cases, Option-cases, Returns, Outcome, ok,
}
use thesis_data.HashMap.{KeyOps, IsKey}
use thesis_data.HashMap.Keys.{In6Addr, in6_ops, in6_ops-IsKey}
use thesis_data.Lpm.{Addr}
use thesis_data.Graph.{Edge}
use thesis_data.Graph.Minimal.{All}
use thesis_data.Graph.Tables.{Table, lookup, store}
use thesis_data.Graph.Segments.{Segment}
use thesis_data.Graph.Minseg.{copy_segments}
use thesis_data.Controller.{Prefix, Router, Flow, SrcPrefix, Config, in6}
use thesis_data.Controller.Requests.{
  erase, generate_bsid, generate_unique_bsid, fill_prefixes, unbind, select_providers,
  provider_prefix,
}

module _ {K V : Type 0} (ops : KeyOps K) (key : IsKey ops) where
  pub erase-absent : (k : K) (t : Table K V) → lookup ops k t ≡ none → erase ops k t ≡ t
  unfolding lookup erase
  erase-absent k [] h = refl
  erase-absent k ((l, v) ∷ t) h = elim (Bool-cases (ops.equal l k)) [
    | inl e ↦ let found : some v ≡ none = rw e at h in absurd cc
    | inr e ↦
        let rest : lookup ops k t ≡ none = rw e at h in
        rw (erase, e) (ap (λ r. (l, v) ∷ r) (erase-absent k t rest))
  ]

  -- What has been added at a new key is taken out again.
  pub erase-store :
      (k : K) (v : V) (t : Table K V) → lookup ops k t ≡ none → erase ops k (store ops k v t) ≡ t
  unfolding lookup erase store
  erase-store k v [] h = rw (key.equal_refl k) refl
  erase-store k v ((l, w) ∷ t) h = elim (Bool-cases (ops.equal l k)) [
    | inl e ↦ let found : some w ≡ none = rw e at h in absurd cc
    | inr e ↦
        let rest : lookup ops k t ≡ none = rw e at h in
        rw (store, e) (rw (erase, e) (ap (λ r. (l, w) ∷ r) (erase-store k v t rest)))
  ]

-- The prefixes of a flow are bound by one address.
abbrev pub BoundBy : Addr → List SrcPrefix → Type 0
BoundBy bsid ps = All (λ (p : SrcPrefix). p.bsid ≡ bsid) ps

-- Each flow of the table stands at the address that its prefixes are bound by.
abbrev pub AllBound : Table In6Addr Flow → Type 0
AllBound flows =
    All (λ (e : In6Addr × Flow). (b : Addr) × (e.0 ≡ in6 b) × BoundBy b e.1.src_prefixes) flows

pub unbind-absent :
    (bsid : Addr) (ps : List SrcPrefix) (flows : Table In6Addr Flow)
    → BoundBy bsid ps
    → lookup in6_ops (in6 bsid) flows ≡ none
    → unbind ps flows ≡ flows
unfolding unbind
unbind-absent bsid [] flows b h = refl
unbind-absent bsid (p ∷ ps) flows (e, b) h =
    let same : erase in6_ops (in6 p.bsid) flows ≡ flows =
      ap (λ a. erase in6_ops (in6 a) flows) e
      ∙ erase-absent in6_ops in6_ops-IsKey (in6 bsid) flows h in
    ap (unbind ps) same ∙ unbind-absent bsid ps flows b h

-- Where a commit fails, the table is what it was.
unbind-store :
    (bsid : Addr) (p : SrcPrefix) (ps : List SrcPrefix) (fl : Flow) (flows : Table In6Addr Flow)
    → BoundBy bsid (p ∷ ps)
    → lookup in6_ops (in6 bsid) flows ≡ none
    → unbind (p ∷ ps) (store in6_ops (in6 bsid) fl flows) ≡ flows
unfolding unbind
unbind-store bsid p ps fl flows (e, b) h =
    let same : erase in6_ops (in6 p.bsid) (store in6_ops (in6 bsid) fl flows) ≡ flows =
      ap (λ a. erase in6_ops (in6 a) (store in6_ops (in6 bsid) fl flows)) e
      ∙ erase-store in6_ops in6_ops-IsKey (in6 bsid) fl flows h in
    ap (unbind ps) same ∙ unbind-absent bsid ps flows b h

All-mapped :
    {A B : Type 0} (P : B → Type 0) (f : A → B) (xs : List A)
    → ((x : A) → P (f x))
    → All P (map f xs)
All-mapped P f [] h = tt
All-mapped P f (x ∷ xs) h = (h x, All-mapped P f xs h)

length-mapped : {A B : Type 0} (f : A → B) (xs : List A) → length (map f xs) ≡ length xs
length-mapped f [] = refl
length-mapped f (x ∷ xs) = ap suc (length-mapped f xs)

module _ (bsid : Addr) (segs : List Segment) (epath : Option (List Edge)) where
  pub fill_prefixes-BoundBy :
      (ps : List SrcPrefix) → BoundBy bsid (fill_prefixes bsid segs epath ps)
  unfolding fill_prefixes
  fill_prefixes-BoundBy [] = tt
  fill_prefixes-BoundBy (p ∷ ps) =
      (refl, All-mapped (λ (q : SrcPrefix). q.bsid ≡ bsid) _ ps (λ q. refl))

-- The address of an attempt: the prefix, and random bytes behind it.
abbrev pub candidate : (ℕ → List ℕ) → Prefix → Addr
candidate random pbsid =
    take (16 - (128 - pbsid.len) / 8) pbsid.addr ++ random ((128 - pbsid.len) / 8)

-- The router has a prefix for bindings, and an attempt that is left yields an address that no flow
-- is bound to.
pub record Binds (random : ℕ → ℕ → List ℕ) (attempts : ℕ) (rt : Router) (flows : Table In6Addr Flow)
    : Type 0 where
  pub pbsid : Prefix
  pub given : rt.pbsid ≡ some pbsid
  pub short : pbsid.len ≤ 128
  pub attempt : ℕ
  pub within : attempt < attempts
  pub free : lookup in6_ops (in6 (candidate (random attempt) pbsid)) flows ≡ none

generate_bsid-candidate :
    (random : ℕ → List ℕ) (rt : Router) (pbsid : Prefix)
    → rt.pbsid ≡ some pbsid
    → pbsid.len ≤ 128
    → generate_bsid random rt ≡ ok (candidate random pbsid)
unfolding generate_bsid
generate_bsid-candidate random rt pbsid given short =
    let fits : leb pbsid.len 128 ≡ true = ground (arith, short) in
    rw (generate_bsid, given, fits) refl

attempted :
    (random : ℕ → ℕ → List ℕ) (n : ℕ) (rt : Router) (flows : Table In6Addr Flow) (bsid : Addr)
    → generate_bsid (random n) rt ≡ ok bsid
    → generate_unique_bsid random (suc n) rt flows
      ≡ elim (lookup in6_ops (in6 bsid) flows) as (λ _. Outcome Addr) [
        | none ↦ ok bsid
        | some fl ↦ generate_unique_bsid random n rt flows
      ]
unfolding generate_unique_bsid
attempted random n rt flows bsid run = rw (generate_unique_bsid, run) refl

-- `generate_unique_bsid` ends, with an address that no flow is bound to.
pub generate_unique_bsid-free :
    (random : ℕ → ℕ → List ℕ) (attempts : ℕ) (rt : Router) (flows : Table In6Addr Flow)
    → Binds random attempts rt flows
    → Returns
        (generate_unique_bsid random attempts rt flows)
        λ bsid. lookup in6_ops (in6 bsid) flows ≡ none
unfolding generate_unique_bsid
generate_unique_bsid-free random zero rt flows b = absurd (omega (arith, b.within))
generate_unique_bsid-free random (suc n) rt flows b =
    let bsid : Addr = candidate (random n) b.pbsid in
    let run : generate_bsid (random n) rt ≡ ok bsid =
      generate_bsid-candidate (random n) rt b.pbsid b.given b.short in
    elim (Option-cases (lookup in6_ops (in6 bsid) flows)) [
      | inl e ↦ (bsid, attempted random n rt flows bsid run ∙ rw e refl, e)
      | inr (fl, e) ↦
          let later : b.attempt < n = elim (Bool-cases (b.attempt == n)) [
            | inl q ↦
                let same : b.attempt ≡ n = ==→eq b.attempt n q in
                let none_here : lookup in6_ops (in6 bsid) flows ≡ none = rw same at b.free in
                absurd cc
            | inr q ↦ ground (arith, q, b.within)
          ] in
          let (a, run', h) = generate_unique_bsid-free random n rt flows (record {
            pbsid = b.pbsid;
            given = b.given;
            short = b.short;
            attempt = b.attempt;
            within = later;
            free = b.free;
          }) in
          (a, attempted random n rt flows bsid run ∙ rw e run', h)
    ]

copy_segments-append : (copied ss : List Segment) → copy_segments copied ss ≡ copied ++ ss
unfolding copy_segments
copy_segments-append copied [] = sym (append-nil copied)
copy_segments-append copied (s ∷ ss) =
    copy_segments-append (copied ++ (s ∷ [])) ss ∙ append_assoc copied (s ∷ []) ss

-- Each prefix of a flow has the segments, there are as many as before.
pub fill_prefixes-segs :
    (bsid : Addr) (segs : List Segment) (epath : Option (List Edge)) (ps : List SrcPrefix)
    → All (λ (p : SrcPrefix). p.segs ≡ segs) (fill_prefixes bsid segs epath ps)
unfolding fill_prefixes
fill_prefixes-segs bsid segs epath [] = tt
fill_prefixes-segs bsid segs epath (p ∷ ps) =
    (refl, All-mapped (λ (q : SrcPrefix). q.segs ≡ segs) _ ps (λ q. copy_segments-append [] segs))

length-fill_prefixes :
    (bsid : Addr) (segs : List Segment) (epath : Option (List Edge)) (ps : List SrcPrefix)
    → length (fill_prefixes bsid segs epath ps) ≡ length ps
unfolding fill_prefixes
length-fill_prefixes bsid segs epath [] = refl
length-fill_prefixes bsid segs epath (p ∷ ps) = ap suc (length-mapped _ ps)

-- There is one for each provider.
pub length-filled :
    (bsid : Addr) (segs : List Segment) (epath : Option (List Edge)) (granted : Bool) (cfg : Config)
    (ps : List SrcPrefix)
    → select_providers granted cfg ≡ some ps
    → length (fill_prefixes bsid segs epath ps) ≡ length cfg.providers
unfolding select_providers
length-filled bsid segs epath true cfg ps e =
    let same : map provider_prefix cfg.providers ≡ ps = cc in
    length-fill_prefixes bsid segs epath ps
    ∙ (sym (ap (λ qs. length qs) same) ∙ length-mapped provider_prefix cfg.providers)
length-filled bsid segs epath false cfg ps e = absurd cc

pub unbind-filled :
    (bsid : Addr) (segs : List Segment) (epath : Option (List Edge)) (p : SrcPrefix)
    (ps : List SrcPrefix) (fl : Flow) (flows : Table In6Addr Flow)
    → lookup in6_ops (in6 bsid) flows ≡ none
    → unbind (fill_prefixes bsid segs epath (p ∷ ps)) (store in6_ops (in6 bsid) fl flows) ≡ flows
unfolding fill_prefixes
unbind-filled bsid segs epath p ps fl flows free =
    unbind-store bsid _ _ fl flows (fill_prefixes-BoundBy bsid segs epath (p ∷ ps)) free
