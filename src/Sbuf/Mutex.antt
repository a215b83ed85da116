-- ===== src/Sbuf/Mutex.antt =====
-- What the mutex gives: one thread at a time, and progress of the threads that are past a wait.
use thesis_data.Common.{
  ℕ, zero, suc, ◌+◌, ◌^◌, ◌≤◌, ◌<◌, ◌≡◌, ◌≢◌, inl, inr, refl, ap, ◌∙◌, Bool, true, false, some,
  List, [], ◌∷◌, get_elem?, arith, ok, Bool-cases, ℕ_discrete,
}
use thesis_data.Sbuf.{
  Pc, Call, State, idle, push_got, push_locked, push_stored, push_unlocked, pop_got, pop_locked,
  pop_read, pop_unlocked, moved, lock, store, advance, step, run, new,
}
use thesis_data.Sbuf.Inv.{owner, total, le-total, held, Inv, new-fresh, new-Inv}
use thesis_data.Sbuf.Steps.{take_out-Follows}
use thesis_data.Sbuf.Runs.{run-Fifo}

both-le-total :
    (w : Pc → ℕ) (pcs : List Pc) (i j : ℕ) (a b : Pc)
    → i ≢ j
    → get_elem? pcs i ≡ some a
    → get_elem? pcs j ≡ some b
    → w a + w b ≤ total w pcs
both-le-total w [] i j a b ne h k = cc
both-le-total w (p ∷ pcs) zero zero a b ne h k = absurd (ne refl)
both-le-total w (p ∷ pcs) zero (suc j) a b ne h k = ground (arith, h, le-total w pcs j b k)
both-le-total w (p ∷ pcs) (suc i) zero a b ne h k = ground (arith, k, le-total w pcs i a h)
both-le-total w (p ∷ pcs) (suc i) (suc j) a b ne h k =
    omega (arith, both-le-total w pcs i j a b (λ e. ne (ap suc e)) h k)

-- In the state that a run of any schedule reaches from a buffer of `2 ^ bits` slots, `bits` below
-- 31, that `sbuf_new` has returned, at most one thread stands in the code between the lock and the
-- unlock.
pub run-exclusive :
    (header body : Bool) (bits n : ℕ) (s : State) (turns : List (ℕ × Call)) (t : State) (i j : ℕ)
    (a b : Pc)
    → bits < 31
    → new header body (2 ^ bits) n ≡ ok (some s)
    → run s turns ≡ ok t
    → get_elem? t.threads i ≡ some a
    → get_elem? t.threads j ≡ some b
    → owner a ≡ 1
    → owner b ≡ 1
    → i ≡ j
run-exclusive header body bits n s turns t i j a b h made e at_i at_j own_a own_b =
    let start : Inv s 0 [] =
      rw (new-fresh header body bits n s h made) (new-Inv bits n (omega (arith, h))) in
    let (u, q, (r, xs, inv, p)) = run-Fifo turns s 0 [] start in
    let same : u ≡ t = cc in
    elim (ℕ_discrete i j) [
      | yes p ↦ p
      | no ne ↦
          absurd
            (ground (arith, same, inv.owners, both-le-total owner t.threads i j a b ne at_i at_j))
    ]

find_owner :
    (pcs : List Pc)
    → total owner pcs ≡ 1
    → (j : ℕ) × (pc : Pc) × (get_elem? pcs j ≡ some pc) × (owner pc ≡ 1)
find_owner [] h = absurd (omega arith)
find_owner (p ∷ pcs) h = elim (ℕ_discrete (owner p) 0) [
  | yes e ↦ let (j, pc, at, own) = find_owner pcs (omega arith) in (suc j, pc, at, own)
  | no ne ↦ (0, p, refl, omega arith)
]

abbrev pub CanMove : State → Type 0
CanMove s = (j : ℕ) × (t : State) × ((call : Call) → step s j call ≡ ok (some t))

owner-moves :
    (s : State) (j r : ℕ) (xs : List ℕ) (pc : Pc)
    → Inv s r xs
    → get_elem? s.threads j ≡ some pc
    → owner pc ≡ 1
    → CanMove s
unfolding step advance
owner-moves s j r xs idle inv h own = absurd (omega arith)
owner-moves s j r xs (push_got v) inv h own = absurd (omega arith)
owner-moves s j r xs (push_locked v) inv h own = (j, store s j v, λ call. rw (step, h) refl)
owner-moves s j r xs push_stored inv h own =
    (j, record s { locked = false; threads = moved s j push_unlocked }, λ call. rw (step, h) refl)
owner-moves s j r xs push_unlocked inv h own = absurd (omega arith)
owner-moves s j r xs pop_got inv h own = absurd (omega arith)
owner-moves s j r xs pop_locked inv h own =
    let (t, e, f) = take_out-Follows s j r xs inv h in (j, t, λ call. rw (step, h, e) refl)
owner-moves s j r xs (pop_read v) inv h own = (
  j,
  record s { locked = false; threads = moved s j (pop_unlocked v) },
  λ call. rw (step, h) refl,
)
owner-moves s j r xs (pop_unlocked v) inv h own = absurd (omega arith)

free-moves :
    (s : State) (j : ℕ) (pc : Pc)
    → s.locked ≡ false
    → get_elem? s.threads j ≡ some pc
    → pc ≢ idle
    → owner pc ≡ 0
    → CanMove s
unfolding step advance lock
free-moves s j idle free h ne own = absurd (ne refl)
free-moves s j (push_got v) free h ne own = (
  j,
  record s { locked = true; threads = moved s j (push_locked v) },
  λ call. rw (step, h, free) refl,
)
free-moves s j (push_locked v) free h ne own = absurd (omega arith)
free-moves s j push_stored free h ne own = absurd (omega arith)
free-moves s j push_unlocked free h ne own =
    (j, record s { full = s.full + 1; threads = moved s j idle }, λ call. rw (step, h) refl)
free-moves s j pop_got free h ne own =
    (j, record s { locked = true; threads = moved s j pop_locked }, λ call. rw (step, h, free) refl)
free-moves s j pop_locked free h ne own = absurd (omega arith)
free-moves s j (pop_read v) free h ne own = absurd (omega arith)
free-moves s j (pop_unlocked v) free h ne own =
    (j, record s { empty = s.empty + 1; threads = moved s j idle }, λ call. rw (step, h) refl)

-- In a state that satisfies the invariant, where some thread has passed the wait on a semaphore and
-- has not yet posted the other, there is a thread whose next turn takes effect: the mutex never
-- blocks all such threads. Of threads that wait on a semaphore nothing is said.
pub progress :
    (s : State) (i r : ℕ) (xs : List ℕ) (pc : Pc)
    → Inv s r xs
    → get_elem? s.threads i ≡ some pc
    → pc ≢ idle
    → CanMove s
progress s i r xs pc inv h ne = elim (Bool-cases s.locked) [
  | inl l ↦
      let owned : total owner s.threads ≡ 1 = inv.owners ∙ ap held l in
      let (j, pc', at, own) = find_owner s.threads owned in owner-moves s j r xs pc' inv at own
  | inr l ↦
      free-moves s i pc l h ne
        (ground (arith, inv.owners, ap held l, le-total owner s.threads i pc h))
]
