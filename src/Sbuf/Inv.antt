-- ===== src/Sbuf/Inv.antt =====
-- The invariant of the ring buffer, over every point between two steps of any of its threads.
use native.Mathlib.Nat.{pow-le-pow_right}
use thesis_data.Common.{
  ℕ, zero, suc, ◌+◌, ◌%◌, ◌^◌, ◌≤◌, ◌<◌, ◌≡◌, refl, Bool, none, some, List, [], ◌∷◌, length,
  get_elem?, set, replicate, arith, length-replicate, if◌then◌else◌, true, false, sym, ◌∙◌, ok,
}
use thesis_data.Sbuf.{
  sem_value, Pc, State, idle, push_got, push_locked, push_stored, push_unlocked, pop_got,
  pop_locked, pop_read, pop_unlocked, ulong_mod, moved, new,
}
use thesis_data.Sbuf.Ring.{Window}

-- What a thread has taken from `empty` and not yet stored in, or taken out and not yet returned.
abbrev pub space : Pc → ℕ
space (push_got v) = 1
space (push_locked v) = 1
space (pop_read v) = 1
space (pop_unlocked v) = 1
space _ = 0

-- What a thread has taken from `full` and not yet taken out, or stored and not yet announced.
abbrev pub item : Pc → ℕ
item pop_got = 1
item pop_locked = 1
item push_stored = 1
item push_unlocked = 1
item _ = 0

-- Whether a thread has the mutex.
abbrev pub owner : Pc → ℕ
owner (push_locked v) = 1
owner push_stored = 1
owner pop_locked = 1
owner (pop_read v) = 1
owner _ = 0

abbrev pub total : (Pc → ℕ) → List Pc → ℕ
total w [] = 0
total w (pc ∷ pcs) = w pc + total w pcs

pub total-set :
    (w : Pc → ℕ) (pcs : List Pc) (i : ℕ) (pc pc' : Pc)
    → get_elem? pcs i ≡ some pc
    → total w (set pcs i pc') + w pc ≡ total w pcs + w pc'
total-set w [] i pc pc' h = cc
total-set w (p ∷ pcs) zero pc pc' h = ground (arith, h)
total-set w (p ∷ pcs) (suc i) pc pc' h = omega (arith, total-set w pcs i pc pc' h)

pub le-total :
    (w : Pc → ℕ) (pcs : List Pc) (i : ℕ) (pc : Pc) → get_elem? pcs i ≡ some pc → w pc ≤ total w pcs
le-total w [] i pc h = cc
le-total w (p ∷ pcs) zero pc h = ground (arith, h)
le-total w (p ∷ pcs) (suc i) pc h = omega (arith, le-total w pcs i pc h)

total-replicate : (w : Pc → ℕ) (n : ℕ) → w idle ≡ 0 → total w (replicate n idle) ≡ 0
total-replicate w zero h = refl
total-replicate w (suc n) h = omega (arith, total-replicate w n h)

abbrev pub held : Bool → ℕ
held b = if b then 1 else 0

-- The buffer holds `xs`, from the position `r` on, which the counters give modulo 2 ^ 64.
pub record Inv (s : State) (r : ℕ) (xs : List ℕ) : Type 0 where
  pub bits : ℕ
  pub power : s.capacity ≡ 2 ^ bits
  pub narrow : bits < 64
  pub width : length s.slots ≡ s.capacity
  pub read_at : s.read ≡ r % ulong_mod
  pub write_at : s.write ≡ (r + length xs) % ulong_mod
  pub window : Window s.slots s.capacity r xs
  pub spaces : s.empty + total space s.threads + length xs ≡ s.capacity
  pub items : s.full + total item s.threads ≡ length xs
  pub owners : total owner s.threads ≡ held s.locked

-- The buffer of `sbuf_new`, where the semaphore takes its size.
abbrev pub fresh : ℕ → ℕ → State
fresh bits n = record {
  slots = replicate (2 ^ bits) none;
  capacity = 2 ^ bits;
  read = 0;
  write = 0;
  empty = 2 ^ bits;
  full = 0;
  locked = false;
  threads = replicate n idle;
}

pub new-fresh :
    (header body : Bool) (bits n : ℕ) (s : State)
    → bits < 31
    → new header body (2 ^ bits) n ≡ ok (some s)
    → s ≡ fresh bits n
unfolding new sem_value
new-fresh false body bits n s h e = absurd cc
new-fresh true false bits n s h e = absurd cc
new-fresh true true bits n s h e =
    let below : 2 ^ bits ≤ 2 ^ 30 =
      pow-le-pow_right (omega arith) {i = bits} {j = 30} (omega (arith, h)) in
    let low : 2 ^ bits < 2 ^ 31 = omega (arith, below) in
    let within : 2 ^ bits % 2 ^ 32 ≡ 2 ^ bits = omega (arith, low) in
    let value : sem_value (2 ^ bits) ≡ 2 ^ bits = ground (arith, within, low) in
    let made : new true true (2 ^ bits) n ≡ ok (some (fresh bits n)) = rw (new, value) refl in
    let same : ok (some s) ≡ ok (some (fresh bits n)) = sym e ∙ made in cc

-- A buffer of `sbuf_new` is empty, where its size is a power of two.
pub new-Inv : (bits n : ℕ) → bits < 64 → Inv (fresh bits n) 0 []
unfolding Window
new-Inv bits n h = record {
  bits = bits;
  power = refl;
  narrow = h;
  width = length-replicate (2 ^ bits) none;
  read_at = refl;
  write_at = refl;
  window = tt;
  spaces = omega (arith, total-replicate space n refl);
  items = omega (arith, total-replicate item n refl);
  owners = total-replicate owner n refl;
}

-- A step that leaves the slots and the counters alone keeps the invariant where its tokens add up.
pub moved-Inv :
    {s : State} {r : ℕ} {xs : List ℕ} (i : ℕ) (pc pc' : Pc) (empty full : ℕ) (locked : Bool)
    → Inv s r xs
    → get_elem? s.threads i ≡ some pc
    → empty + space pc' ≡ s.empty + space pc
    → full + item pc' ≡ s.full + item pc
    → held locked + owner pc ≡ held s.locked + owner pc'
    → Inv (record s { empty = empty; full = full; locked = locked; threads = moved s i pc' }) r xs
moved-Inv {s} {r} {xs} i pc pc' empty full locked inv here e f l = record {
  bits = inv.bits;
  power = inv.power;
  narrow = inv.narrow;
  width = inv.width;
  read_at = inv.read_at;
  write_at = inv.write_at;
  window = inv.window;
  spaces = omega (arith, inv.spaces, e, total-set space s.threads i pc pc' here);
  items = omega (arith, inv.items, f, total-set item s.threads i pc pc' here);
  owners = omega (arith, inv.owners, l, total-set owner s.threads i pc pc' here);
}
