-- ===== src/Sbuf/Steps.antt =====
-- Each step of a thread keeps the invariant, and takes out what was stored first.
use thesis_data.Common.{
  ℕ, zero, suc, ◌+◌, ◌-◌, ◌%◌, ◌^◌, ◌<◌, ◌≡◌, inl, inr, refl, ap, ◌∙◌, true, false, Option, none,
  some, List, [], ◌∷◌, ◌++◌, length, get_elem?, set, arith, length-set, ◌==◌, Returns, Bool-cases,
  append-nil, length-append,
}
use native.Mathlib.Nat.{mod-lt, mod-add-mod, one-le-pow}
use thesis_data.HashMap.Models.{get_elem?-set}
use thesis_data.Sbuf.{
  Pc, Call, push, trypush, pop, trypop, State, idle, push_got, push_locked, push_stored,
  push_unlocked, pop_got, pop_locked, pop_read, pop_unlocked, ulong_mod, moved, mask, start, lock,
  store, take_out, advance, step,
}
use thesis_data.Sbuf.Ring.{Window, Window-set, Window-snoc, mask-mod}
use thesis_data.Sbuf.Inv.{space, item, owner, total-set, le-total, held, Inv, moved-Inv}

-- The value that a step of a thread that stands at `pc` stores.
abbrev pub stored : Pc → List ℕ
stored (push_locked v) = v ∷ []
stored _ = []

-- The value that a step from `pc` takes out, which the thread stands with in `pcs` afterwards.
abbrev pub taken : Pc → Option Pc → List ℕ
taken pop_locked (some (pop_read v)) = v ∷ []
taken _ _ = []

-- The buffer holds something after a step from `pc`, and what came out came from its front.
abbrev pub Follows : ℕ → Pc → List ℕ → Option State → Type 0
Follows i pc xs none = Unit
Follows i pc xs (some t) =
    (r : ℕ) × (xs' : List ℕ) × Inv t r xs'
    × (xs ++ stored pc ≡ taken pc (get_elem? t.threads i) ++ xs')

-- A step that neither stores nor takes out leaves what the buffer holds.
kept :
    {t : State} (i : ℕ) (pc : Pc) (r : ℕ) (xs : List ℕ)
    → stored pc ≡ []
    → ((after : Option Pc) → taken pc after ≡ [])
    → Inv t r xs
    → Follows i pc xs (some t)
kept {t} i pc r xs e f inv = (r, xs, inv, rw (e, f (get_elem? t.threads i)) (append-nil xs))

-- A step with other semaphores only.
waited :
    {s : State} {r : ℕ} {xs : List ℕ} (i : ℕ) (pc' : Pc) (empty full : ℕ)
    → Inv s r xs
    → get_elem? s.threads i ≡ some idle
    → empty + space pc' ≡ s.empty
    → full + item pc' ≡ s.full
    → owner pc' ≡ 0
    → Follows i idle xs (some (record s { empty = empty; full = full; threads = moved s i pc' }))
waited {s} {r} {xs} i pc' empty full inv here e f l =
    kept i idle r xs refl (λ after. refl)
      (moved-Inv i idle pc' empty full s.locked inv here (omega (arith, e)) (omega (arith, f))
        (omega (arith, l)))

start-Follows :
    (s : State) (i : ℕ) (call : Call) (r : ℕ) (xs : List ℕ)
    → Inv s r xs
    → get_elem? s.threads i ≡ some idle
    → Follows i idle xs (start s i call)
unfolding start
start-Follows s i (push v) r xs inv here = elim (Bool-cases (s.empty == 0)) [
  | inl e ↦ rw e tt
  | inr e ↦
      rw e
        (waited i (push_got v) (s.empty - 1) s.full inv here (ground (arith, e)) (omega arith) refl)
]
start-Follows s i (trypush v) r xs inv here = elim (Bool-cases (s.empty == 0)) [
  | inl e ↦ rw e (kept i idle r xs refl (λ after. refl) inv)
  | inr e ↦
      rw e
        (waited i (push_got v) (s.empty - 1) s.full inv here (ground (arith, e)) (omega arith) refl)
]
start-Follows s i pop r xs inv here = elim (Bool-cases (s.full == 0)) [
  | inl e ↦ rw e tt
  | inr e ↦
      rw e (waited i pop_got s.empty (s.full - 1) inv here (omega arith) (ground (arith, e)) refl)
]
start-Follows s i trypop r xs inv here = elim (Bool-cases (s.full == 0)) [
  | inl e ↦ rw e (kept i idle r xs refl (λ after. refl) inv)
  | inr e ↦
      rw e (waited i pop_got s.empty (s.full - 1) inv here (omega arith) (ground (arith, e)) refl)
]

lock-Follows :
    (s : State) (i : ℕ) (pc pc' : Pc) (r : ℕ) (xs : List ℕ)
    → Inv s r xs
    → get_elem? s.threads i ≡ some pc
    → stored pc ≡ []
    → ((after : Option Pc) → taken pc after ≡ [])
    → space pc' ≡ space pc
    → item pc' ≡ item pc
    → owner pc' ≡ suc (owner pc)
    → Follows i pc xs (lock s i pc')
unfolding lock
lock-Follows s i pc pc' r xs inv here e f sp it ow = elim (Bool-cases s.locked) [
  | inl l ↦ rw l tt
  | inr l ↦ rw l (
      kept i pc r xs e f (
        moved-Inv i pc pc' s.empty s.full true inv here (omega (arith, sp)) (omega (arith, it))
          (rw l (omega (arith, ow)))))
]

set_self {ℓ} :
    {A : Type ℓ} (xs : List A) (i : ℕ) (a b : A)
    → get_elem? xs i ≡ some a
    → get_elem? (set xs i b) i ≡ some b
set_self [] i a b h = cc
set_self (x ∷ xs) zero a b h = refl
set_self (x ∷ xs) (suc i) a b h = set_self xs i a b h

-- A counter plus one is the next position.
next_at : (count p : ℕ) → count ≡ p % ulong_mod → (count + 1) % ulong_mod ≡ suc p % ulong_mod
next_at count p e =
    let next : p + 1 ≡ suc p = omega arith in
    rw e (mod-add-mod p ulong_mod 1 ∙ ap (λ t. t % ulong_mod) next)

module _ {s : State} {r : ℕ} {xs : List ℕ} (inv : Inv s r xs) where
  -- The masked counters are the positions modulo the capacity.
  mask_at : (count p : ℕ) → count ≡ p % ulong_mod → mask s count ≡ p % s.capacity
  mask_at count p e = rw (inv.power, e) (mask-mod inv.bits p (omega (arith, inv.narrow)))

  inside : (p : ℕ) → p % s.capacity < length s.slots
  inside p =
      let pos : 0 < 2 ^ inv.bits = one-le-pow inv.bits 2 (omega arith) in
      rw inv.width (rw inv.power (mod-lt p pos))

  -- A thread that stores has a free slot.
  store-Window :
      (i v : ℕ)
      → get_elem? s.threads i ≡ some (push_locked v)
      → Window (set s.slots (mask s s.write) (some v)) s.capacity r (xs ++ (v ∷ []))
  store-Window i v here =
      let p : ℕ = r + length xs in
      let room : length xs < s.capacity =
        omega (arith, inv.spaces, le-total space s.threads i (push_locked v) here) in
      let slots : List (Option ℕ) = set s.slots (p % s.capacity) (some v) in
      let written : get_elem? slots (p % s.capacity) ≡ some (some v) =
        ground
          (arith, get_elem?-set s.slots (p % s.capacity) (p % s.capacity) (some v) (inside p)) in
      rw (mask_at s.write p inv.write_at) (
        Window-snoc slots s.capacity r xs v
          (Window-set s.slots s.capacity p r xs (some v) (inside p) (omega arith)
            (omega (arith, room)) inv.window)
          written)

store-Follows :
    (s : State) (i v : ℕ) (r : ℕ) (xs : List ℕ)
    → Inv s r xs
    → get_elem? s.threads i ≡ some (push_locked v)
    → Follows i (push_locked v) xs (some (store s i v))
unfolding store
store-Follows s i v r xs inv here = (
  r,
  xs ++ (v ∷ []),
  record {
    bits = inv.bits;
    power = inv.power;
    narrow = inv.narrow;
    width = length-set s.slots (mask s s.write) (some v) ∙ inv.width;
    read_at = inv.read_at;
    write_at = next_at s.write (r + length xs) inv.write_at ∙ ap (λ t. t % ulong_mod) longer;
    window = store-Window inv i v here;
    spaces = omega (
      arith,
      inv.spaces,
      total-set space s.threads i (push_locked v) push_stored here,
      length-append xs (v ∷ []),
    );
    items = omega (
      arith,
      inv.items,
      total-set item s.threads i (push_locked v) push_stored here,
      length-append xs (v ∷ []),
    );
    owners =
        omega (arith, inv.owners, total-set owner s.threads i (push_locked v) push_stored here);
  },
  refl,
)
  where
    longer : suc (r + length xs) ≡ r + length (xs ++ (v ∷ []))
    longer = omega (arith, length-append xs (v ∷ []))

pub take_out-Follows :
    (s : State) (i : ℕ) (r : ℕ) (xs : List ℕ)
    → Inv s r xs
    → get_elem? s.threads i ≡ some pop_locked
    → Returns (take_out s i) λ t. Follows i pop_locked xs (some t)
unfolding take_out Window
take_out-Follows s i r [] inv here =
    absurd (omega (arith, inv.items, le-total item s.threads i pop_locked here))
take_out-Follows s i r (x ∷ xs) inv here = (
  record s { read = (s.read + 1) % ulong_mod; threads = moved s i (pop_read x) },
  rw (take_out, mask_at inv s.read r inv.read_at, inv.window.0) refl,
  (
    suc r,
    xs,
    record {
      bits = inv.bits;
      power = inv.power;
      narrow = inv.narrow;
      width = inv.width;
      read_at = next_at s.read r inv.read_at;
      write_at = inv.write_at ∙ ap (λ t. t % ulong_mod) same;
      window = inv.window.1;
      spaces = omega (arith, inv.spaces, total-set space s.threads i pop_locked (pop_read x) here);
      items = omega (arith, inv.items, total-set item s.threads i pop_locked (pop_read x) here);
      owners = omega (arith, inv.owners, total-set owner s.threads i pop_locked (pop_read x) here);
    },
    rw (set_self s.threads i pop_locked (pop_read x) here) (append-nil (x ∷ xs)),
  ),
)
  where
    same : r + length (x ∷ xs) ≡ suc r + length xs
    same = omega arith

-- A thread that has the mutex may give it back.
unlocked :
    {s : State} {r : ℕ} {xs : List ℕ}
    → Inv s r xs
    → (pc : Pc) (i : ℕ) → get_elem? s.threads i ≡ some pc
    → owner pc ≡ 1
    → held false + owner pc ≡ held s.locked + 0
unlocked {s} inv pc i here e = elim (Bool-cases s.locked) [
  | inl l ↦ rw (l, e) refl
  | inr l ↦
      let none_held : held s.locked ≡ 0 = rw l refl in
      absurd (omega (arith, inv.owners, none_held, e, le-total owner s.threads i pc here))
]

-- A step of a thread that stands at `pc`.
advance-Follows :
    (s : State) (i : ℕ) (call : Call) (pc : Pc) (r : ℕ) (xs : List ℕ)
    → Inv s r xs
    → get_elem? s.threads i ≡ some pc
    → Returns (advance s i call pc) λ o. Follows i pc xs o
unfolding advance
advance-Follows s i call idle r xs inv here =
    (start s i call, refl, start-Follows s i call r xs inv here)
advance-Follows s i call (push_got v) r xs inv here = (
  lock s i (push_locked v),
  refl,
  lock-Follows s i (push_got v) (push_locked v) r xs inv here refl (λ after. refl) refl refl refl,
)
advance-Follows s i call (push_locked v) r xs inv here =
    (some (store s i v), refl, store-Follows s i v r xs inv here)
advance-Follows s i call push_stored r xs inv here = (
  _,
  refl,
  kept i push_stored r xs refl (λ after. refl)
      (moved-Inv i push_stored push_unlocked s.empty s.full false inv here (omega arith)
        (omega arith) (unlocked inv push_stored i here refl)),
)
advance-Follows s i call push_unlocked r xs inv here = (
  _,
  refl,
  kept i push_unlocked r xs refl (λ after. refl)
      (moved-Inv i push_unlocked idle s.empty (s.full + 1) s.locked inv here (omega arith)
        (omega arith) (omega arith)),
)
advance-Follows s i call pop_got r xs inv here = (
  lock s i pop_locked,
  refl,
  lock-Follows s i pop_got pop_locked r xs inv here refl (λ after. refl) refl refl refl,
)
advance-Follows s i call pop_locked r xs inv here =
    let (t, e, f) = take_out-Follows s i r xs inv here in (some t, rw e refl, f)
advance-Follows s i call (pop_read v) r xs inv here = (
  _,
  refl,
  kept i (pop_read v) r xs refl (λ after. refl)
      (moved-Inv i (pop_read v) (pop_unlocked v) s.empty s.full false inv here (omega arith)
        (omega arith) (unlocked inv (pop_read v) i here refl)),
)
advance-Follows s i call (pop_unlocked v) r xs inv here = (
  _,
  refl,
  kept i (pop_unlocked v) r xs refl (λ after. refl)
      (moved-Inv i (pop_unlocked v) idle (s.empty + 1) s.full s.locked inv here (omega arith)
        (omega arith) (omega arith)),
)

-- In a state that satisfies the invariant, for a buffer that holds `xs`, a turn of a thread that
-- stands at `pc` ends without a fault: either the thread blocks, or the state that follows
-- satisfies the invariant for a buffer that holds `xs` with the value stored, if the turn stores
-- one, behind it, and the value taken out, if the turn takes one out, gone from its front.
pub step-Follows :
    (s : State) (i : ℕ) (call : Call) (pc : Pc) (r : ℕ) (xs : List ℕ)
    → Inv s r xs
    → get_elem? s.threads i ≡ some pc
    → Returns (step s i call) λ o. Follows i pc xs o
unfolding step
step-Follows s i call pc r xs inv here = rw (step, here) (advance-Follows s i call pc r xs inv here)
