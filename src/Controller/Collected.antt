-- ===== src/Controller/Collected.antt =====
-- What `gc_flows` takes out of the table of flows.
use thesis_data.Common.{
  ℕ, ◌+◌, ◌<◌, ◌≡◌, ◌≢◌, ◌⊎◌, arith, inl, inr, refl, ap, sym, ◌∙◌, true, false, List, [], ◌∷◌, ◌++◌,
  map, if◌then◌else◌, Bool-cases, append_assoc, append-nil,
}
use thesis_data.HashMap.Keys.{In6Addr, in6_ops, in6_ops-IsKey}
use thesis_data.Graph.Minimal.{All, All-both, All-append}
use thesis_data.Graph.Tables.{Table}
use thesis_data.Controller.{Flow, FlowStatus, active, running, expired, orphan}
use thesis_data.Controller.Requests.{erase}
use thesis_data.Controller.Flows.{is_orphan, is_over, set_flow_status, collect, gc_flows}

-- The flow has a time to live, which has run out, or it is orphaned.
abbrev pub IsOver : ℕ → Flow → Type 0
IsOver now fl = ((fl.ttl ≢ 0) × (fl.timestamp + fl.ttl < now)) ⊎ (fl.status ≡ orphan)

-- The flows of a table that are over, and the entries of the others, in their order.
pub data Parted (now : ℕ) : Table In6Addr Flow → List Flow → Table In6Addr Flow → Type 0 where
  no_flows : Parted now [] [] []
  goes :
      {k : In6Addr} {fl : Flow} {t kept : Table In6Addr Flow} {gone : List Flow}
      → IsOver now fl
      → Parted now t gone kept
      → Parted now ((k, fl) ∷ t) (fl ∷ gone) kept
  remains :
      {k : In6Addr} {fl : Flow} {t kept : Table In6Addr Flow} {gone : List Flow}
      → ¬ IsOver now fl
      → Parted now t gone kept
      → Parted now ((k, fl) ∷ t) gone ((k, fl) ∷ kept)

-- No entry of the table has the key.
abbrev pub NotKey : In6Addr → Table In6Addr Flow → Type 0
NotKey k t = All (λ (e : In6Addr × Flow). in6_ops.equal e.0 k ≡ false) t

abbrev pub DistinctKeys : Table In6Addr Flow → Type 0
DistinctKeys [] = Unit
DistinctKeys ((k, fl) ∷ t) = NotKey k t × DistinctKeys t

-- The flows that are over, and the entries of the others.
abbrev pub overs : ℕ → Table In6Addr Flow → List Flow
overs now [] = []
overs now ((k, fl) ∷ t) = let rest = overs now t in if is_over now fl then fl ∷ rest else rest

abbrev pub stays : ℕ → Table In6Addr Flow → Table In6Addr Flow
stays now [] = []
stays now ((k, fl) ∷ t) = let rest = stays now t in if is_over now fl then rest else (k, fl) ∷ rest

erase-append :
    (k : In6Addr) (fl : Flow) (kept t : Table In6Addr Flow)
    → NotKey k kept
    → erase in6_ops k (kept ++ ((k, fl) ∷ t)) ≡ kept ++ t
unfolding erase
erase-append k fl [] t a = rw (in6_ops-IsKey.equal_refl k) refl
erase-append k fl ((l, w) ∷ kept) t (h, a) =
    rw (erase, h) (ap (λ r. (l, w) ∷ r) (erase-append k fl kept t a))

-- Each entry to come has another key than those that stay.
abbrev Apart : Table In6Addr Flow → Table In6Addr Flow → Type 0
Apart kept t = All (λ (e : In6Addr × Flow). NotKey e.0 kept) t

Apart-snoc :
    (k : In6Addr) (fl : Flow) (kept t : Table In6Addr Flow)
    → Apart kept t
    → NotKey k t
    → Apart (kept ++ ((k, fl) ∷ [])) t
Apart-snoc k fl kept t a n =
    All-both t
      (λ e h d. All-append _ kept ((k, fl) ∷ []) h (in6_ops-IsKey.equal_symm k e.0 ∙ d, tt)) a n

collect-parts :
    (now : ℕ) (listed : List Flow) (kept t : Table In6Addr Flow)
    → Apart kept t
    → DistinctKeys t
    → collect now t listed (kept ++ t) ≡ (listed ++ overs now t, kept ++ stays now t)
unfolding collect
collect-parts now listed kept [] a d = ap (λ l. (l, kept ++ [])) (sym (append-nil listed))
collect-parts now listed kept ((k, fl) ∷ t) (h, a) (n, d) = elim (Bool-cases (is_over now fl)) [
  | inl e ↦
      rw (collect, e, erase-append k fl kept t h)
        (collect-parts now (listed ++ (fl ∷ [])) kept t a d
          ∙ ap (λ l. (l, kept ++ stays now t)) (append_assoc listed (fl ∷ []) (overs now t)))
  | inr e ↦
      rw (collect, e)
        (ap (λ r. collect now t listed r) (sym (append_assoc kept ((k, fl) ∷ []) t))
          ∙ (collect-parts now listed (kept ++ ((k, fl) ∷ [])) t (Apart-snoc k fl kept t a n) d
              ∙ ap (λ r. (listed ++ overs now t, r))
                  (append_assoc kept ((k, fl) ∷ []) (stays now t))))
]

Apart-nil : (t : Table In6Addr Flow) → Apart [] t
Apart-nil [] = tt
Apart-nil (e ∷ t) = (tt, Apart-nil t)

pub gc_flows-parts :
    (now : ℕ) (flows : Table In6Addr Flow)
    → DistinctKeys flows
    → gc_flows true now flows ≡ (map (set_flow_status expired) (overs now flows), stays now flows)
unfolding gc_flows
gc_flows-parts now flows d =
    ap (λ r. (map (set_flow_status expired) r.0, r.1))
      (collect-parts now [] [] flows (Apart-nil flows) d)

orphan_status : (s : FlowStatus) → is_orphan s ≡ true → s ≡ orphan
orphan_status active h = absurd cc
orphan_status running h = absurd cc
orphan_status expired h = absurd cc
orphan_status orphan h = refl

is_over-IsOver : (now : ℕ) (fl : Flow) → is_over now fl ≡ true → IsOver now fl
unfolding is_over
is_over-IsOver now fl h = elim (Bool-cases (is_orphan fl.status)) [
  | inl o ↦ inr (orphan_status fl.status o)
  | inr o ↦ inl (ground (arith, h, o), ground (arith, h, o))
]

is_over-stays : (now : ℕ) (fl : Flow) → is_over now fl ≡ false → ¬ IsOver now fl
unfolding is_over
is_over-stays now fl h (inl (ttl, late)) = absurd (ground (arith, h, ttl, late))
is_over-stays now fl h (inr o) = absurd (ground (arith, h, ap is_orphan o))

parts-Parted : (now : ℕ) (t : Table In6Addr Flow) → Parted now t (overs now t) (stays now t)
parts-Parted now [] = no_flows
parts-Parted now ((k, fl) ∷ t) = elim (Bool-cases (is_over now fl)) [
  | inl e ↦ rw e (goes (is_over-IsOver now fl e) (parts-Parted now t))
  | inr e ↦ rw e (remains (is_over-stays now fl e) (parts-Parted now t))
]

-- On a table with distinct keys `gc_flows` that has memory for its list takes out exactly the
-- flows that have a time to live, which has run out, or are orphaned, keeps all others in their
-- order, and tells the database that each that it has taken out has expired.
pub gc_flows-stays :
    (now : ℕ) (flows : Table In6Addr Flow)
    → DistinctKeys flows
    → (gone : List Flow) × (kept : Table In6Addr Flow) × Parted now flows gone kept
      × (gc_flows true now flows ≡ (map (set_flow_status expired) gone, kept))
gc_flows-stays now flows d =
    (overs now flows, stays now flows, parts-Parted now flows, gc_flows-parts now flows d)
