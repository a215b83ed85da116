-- ===== src/Sbuf/Runs.antt =====
-- Runs of any number of threads: the order of what comes out, the mutex, and progress.
use thesis_data.Common.{
  ℕ, zero, suc, ◌≡◌, inl, inr, refl, ap, sym, ◌∙◌, Option, none, some, List, [], ◌∷◌, ◌++◌,
  get_elem?, get_or, ok, fault, Returns, Option-cases, append_assoc, append-nil,
}
use thesis_data.Sbuf.{Pc, Call, State, idle, step, run}
use thesis_data.Sbuf.Inv.{Inv}
use thesis_data.Sbuf.Steps.{stored, taken, Follows, step-Follows}

-- The values that a run stores, and those that it takes out, each in the order of the steps.
unfoldable pub history : State → List (ℕ × Call) → List ℕ × List ℕ
history s [] = ([], [])
history s ((i, call) ∷ turns) = elim (step s i call) [
  | fault e ↦ ([], [])
  | ok none ↦ history s turns
  | ok (some t) ↦
      let pc = get_or s.threads i idle in
      let rest = history t turns in
      (stored pc ++ rest.0, taken pc (get_elem? t.threads i) ++ rest.1)
]

-- What the buffer held and what was stored is what was taken out and what it holds.
abbrev pub Fifo : List ℕ → List ℕ × List ℕ → State → Type 0
Fifo xs (ins, outs) t = (r : ℕ) × (xs' : List ℕ) × Inv t r xs' × (xs ++ ins ≡ outs ++ xs')

get_or-some : (pcs : List Pc) (i : ℕ) (pc : Pc) → get_elem? pcs i ≡ some pc → get_or pcs i idle ≡ pc
get_or-some [] i pc h = cc
get_or-some (x ∷ pcs) zero pc h = cc
get_or-some (x ∷ pcs) (suc i) pc h = get_or-some pcs i pc h

absent-step :
    (s : State) (i : ℕ) (call : Call) → get_elem? s.threads i ≡ none → step s i call ≡ ok none
unfolding step
absent-step s i call h = rw (step, h) refl

-- The pieces of the order, put together.
splice :
    {A : Type 0} (xs a b c d ys zs : List A)
    → xs ++ a ≡ b ++ ys
    → ys ++ c ≡ d ++ zs
    → xs ++ (a ++ c) ≡ (b ++ d) ++ zs
splice xs a b c d ys zs e f =
    sym (append_assoc xs a c)
    ∙ ap (λ t. t ++ c) e
    ∙ append_assoc b ys c
    ∙ ap (λ t. b ++ t) f
    ∙ sym (append_assoc b d zs)

-- What a run leaves of its first turn's outcome to the other turns.
resume :
    (turns : List (ℕ × Call)) (s : State) (i : ℕ) (call : Call) (pc : Pc) (xs : List ℕ)
    → ((t : State) (r : ℕ) (ys : List ℕ)
        → Inv t r ys
        → Returns (run t turns) λ u. Fifo ys (history t turns) u)
    → (r : ℕ) → Inv s r xs
    → get_elem? s.threads i ≡ some pc
    → (o : Option State) → step s i call ≡ ok o
    → Follows i pc xs o
    → Returns (run s ((i, call) ∷ turns)) λ u. Fifo xs (history s ((i, call) ∷ turns)) u
unfolding run history
resume turns s i call pc xs ih r inv h none e f = rw (run, history, e) (ih s r xs inv)
resume turns s i call pc xs ih r inv h (some t) e (r', xs', inv', p) =
    let (u, q, (r'', xs'', inv'', p')) = ih t r' xs' inv' in
    rw (run, history, e)
      (
        u,
        q,
        (
          r'',
          xs'',
          inv'',
          rw (get_or-some s.threads i pc h)
              (splice xs (stored pc) (taken pc (get_elem? t.threads i)) _ _ xs' xs'' p p'),
        ),
      )

-- From a state that satisfies the invariant, for a buffer that holds `xs`, a run of any schedule
-- ends without a fault, in a state that satisfies the invariant for a buffer that holds some
-- `xs'`; and `xs`, then the values stored in their order, is the values taken out in their order,
-- then `xs'`: no value is lost, made up, doubled or overtaken.
pub run-Fifo :
    (turns : List (ℕ × Call)) (s : State) (r : ℕ) (xs : List ℕ)
    → Inv s r xs
    → Returns (run s turns) λ t. Fifo xs (history s turns) t
unfolding run history
run-Fifo [] s r xs inv = (s, refl, (r, xs, inv, append-nil xs))
run-Fifo ((i, call) ∷ turns) s r xs inv = elim (Option-cases (get_elem? s.threads i)) [
  | inl h ↦ rw (run, history, absent-step s i call h) (run-Fifo turns s r xs inv)
  | inr (pc, h) ↦
      let (o, e, f) = step-Follows s i call pc r xs inv h in
      resume turns s i call pc xs (run-Fifo turns) r inv h o e f
]
