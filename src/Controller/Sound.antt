-- ===== src/Controller/Sound.antt =====
-- The invariant of the controller, and what keeps it.
use thesis_data.Common.{
  ℕ, ◌≡◌, inl, inr, refl, ◌∙◌, Bool, false, Option, none, some, [], ◌∷◌, Bool-cases,
}
use thesis_data.HashMap.Keys.{In6Addr, in6_ops, in6_ops-IsKey}
use thesis_data.Lpm.{Addr}
use thesis_data.Rules.{Rule}
use thesis_data.Graph.Minimal.{All}
use thesis_data.Graph.Tables.{Table, lookup, store}
use thesis_data.Controller.{Flow, Config, State, RequestStatus, in6}
use thesis_data.Controller.Requests.{Request, Answers}
use thesis_data.Controller.Flows.{is_over}
use thesis_data.Controller.Decision.{
  Published, Decision, skipped, forbidden, no_memory, unknown, uncovered, unreachable, no_prefixes,
  not_recorded, admitted,
}
use thesis_data.Controller.Bindings.{AllBound}
use thesis_data.Controller.Collected.{NotKey, DistinctKeys, stays}
use thesis_data.Controller.Staged.{Staged, Kept}

-- The staging graph is as the handlers build it, paths can be looked for in the published graph,
-- the keys of the flows are distinct, and each is the address that the flow's prefixes are bound
-- by.
pub record IsSound (st : State) : Type 0 where
  pub staged : Staged st
  pub published : Published st
  pub distinct : DistinctKeys st.flows
  pub bound : AllBound st.flows

NotKey-store :
    (l k : In6Addr) (fl : Flow) (t : Table In6Addr Flow)
    → NotKey l t
    → in6_ops.equal k l ≡ false
    → NotKey l (store in6_ops k fl t)
unfolding store
NotKey-store l k fl [] n h = (h, tt)
NotKey-store l k fl ((m, w) ∷ t) (d, n) h = elim (Bool-cases (in6_ops.equal m k)) [
  | inl e ↦ rw (store, e) (d, n)
  | inr e ↦ rw (store, e) (d, NotKey-store l k fl t n h)
]

DistinctKeys-store :
    (k : In6Addr) (fl : Flow) (t : Table In6Addr Flow)
    → DistinctKeys t
    → lookup in6_ops k t ≡ none
    → DistinctKeys (store in6_ops k fl t)
unfolding store lookup
DistinctKeys-store k fl [] d h = (tt, tt)
DistinctKeys-store k fl ((l, w) ∷ t) (n, d) h = elim (Bool-cases (in6_ops.equal l k)) [
  | inl e ↦ let found : some w ≡ none = rw e at h in absurd cc
  | inr e ↦
      let rest : lookup in6_ops k t ≡ none = rw e at h in
      rw (store, e)
        (
          NotKey-store l k fl t n (in6_ops-IsKey.equal_symm k l ∙ e),
          DistinctKeys-store k fl t d rest,
        )
]

All-store :
    (P : In6Addr × Flow → Type 0) (k : In6Addr) (fl : Flow) (t : Table In6Addr Flow)
    → lookup in6_ops k t ≡ none
    → P (k, fl)
    → All P t
    → All P (store in6_ops k fl t)
unfolding store lookup
All-store P k fl [] h p a = (p, tt)
All-store P k fl ((l, w) ∷ t) h p (q, a) = elim (Bool-cases (in6_ops.equal l k)) [
  | inl e ↦ let found : some w ≡ none = rw e at h in absurd cc
  | inr e ↦
      let rest : lookup in6_ops k t ≡ none = rw e at h in
      rw (store, e) (q, All-store P k fl t rest p a)
]

NotKey-stays :
    (now : ℕ) (k : In6Addr) (t : Table In6Addr Flow) → NotKey k t → NotKey k (stays now t)
NotKey-stays now k [] n = tt
NotKey-stays now k ((l, fl) ∷ t) (d, n) = elim (Bool-cases (is_over now fl)) [
  | inl e ↦ rw e (NotKey-stays now k t n)
  | inr e ↦ rw e (d, NotKey-stays now k t n)
]

pub DistinctKeys-stays :
    (now : ℕ) (t : Table In6Addr Flow) → DistinctKeys t → DistinctKeys (stays now t)
DistinctKeys-stays now [] d = tt
DistinctKeys-stays now ((l, fl) ∷ t) (n, d) = elim (Bool-cases (is_over now fl)) [
  | inl e ↦ rw e (DistinctKeys-stays now t d)
  | inr e ↦ rw e (NotKey-stays now l t n, DistinctKeys-stays now t d)
]

pub with_flows :
    (st : State) (flows : Table In6Addr Flow)
    → IsSound st
    → DistinctKeys flows
    → AllBound flows
    → IsSound (record st { flows = flows })
with_flows st flows sound distinct bound = record {
  staged = record {
    plain = sound.staged.plain;
    numbered = sound.staged.numbered;
    homes = sound.staged.homes;
    tree = sound.staged.tree;
    owned = sound.staged.owned;
  };
  published = record {
    plain = sound.published.plain;
    cache = sound.published.cache;
    computed = sound.published.computed;
    sound = sound.published.sound;
  };
  distinct = distinct;
  bound = bound;
}

pub Kept-IsSound : (st : State) (b : Bool) (st' : State) → IsSound st → Kept st b st' → IsSound st'
Kept-IsSound st b st' sound kept = record {
  staged = kept.staged;
  published = record {
    plain = rw kept.graph sound.published.plain;
    cache = sound.published.cache;
    computed = rw (kept.finalized, kept.graph) sound.published.computed;
    sound = rw kept.graph sound.published.sound;
  };
  distinct = rw kept.flows sound.distinct;
  bound = rw kept.flows sound.bound;
}

pub Decision-IsSound :
    (cfg : Config) (ans : Answers) (req : Request) (rule : Rule) (address : Addr) (st : State)
    (status : Option RequestStatus) (st' : State)
    → IsSound st
    → Decision cfg ans req rule address st status st'
    → IsSound st'
Decision-IsSound cfg ans req rule address st status st' sound (skipped h) = sound
Decision-IsSound cfg ans req rule address st status st' sound (forbidden w h) = sound
Decision-IsSound cfg ans req rule address st status st' sound (no_memory a h) = sound
Decision-IsSound cfg ans req rule address st status st' sound (unknown a g h) = sound
Decision-IsSound cfg ans req rule address st status st' sound (uncovered rt a g s h) = sound
Decision-IsSound cfg ans req rule address st status st' sound (unreachable rt dstrt g h) = sound
Decision-IsSound cfg ans req rule address st status st' sound (no_prefixes rt dstrt n m g p q h) =
    sound
Decision-IsSound cfg ans req rule address st status st' sound (not_recorded rt dstrt ss g r h) =
    sound
Decision-IsSound cfg ans req rule address st status st' sound (admitted bsid fl g a admits) =
    with_flows st _ sound (DistinctKeys-store _ fl st.flows sound.distinct admits.free)
      (All-store _ (in6 bsid) fl st.flows admits.free (bsid, refl, admits.bound) sound.bound)

pub All-stays :
    (P : In6Addr × Flow → Type 0) (now : ℕ) (t : Table In6Addr Flow) → All P t → All P (stays now t)
All-stays P now [] a = tt
All-stays P now ((l, fl) ∷ t) (p, a) = elim (Bool-cases (is_over now fl)) [
  | inl e ↦ rw e (All-stays P now t a)
  | inr e ↦ rw e (p, All-stays P now t a)
]
