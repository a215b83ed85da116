-- ===== src/Sbuf.antt =====
-- sdnres-src/lib/sbuf.c and sbuf.h: a bounded buffer that any number of threads fill and empty.
-- A state is the buffer with its two semaphores and its mutex, and where each thread stands in
-- the function that it runs. Each call of a semaphore or of the mutex, and each of the macros
-- `__sbuf_push` and `__sbuf_pop`, is one atomic step; a schedule says which thread steps next, and
-- what a thread that runs no function calls. `unsigned long` counters wrap at 2 ^ 64. A slot that
-- was never written is `none`.
pub mod Ring
pub mod Inv
pub mod Steps
pub mod Runs
pub mod Mutex
pub mod Tests
use Prim.Native.Nat.{bit_and}
use thesis_data.Common.{
  ℕ, zero, suc, ◌+◌, ◌-◌, ◌*◌, ◌%◌, ◌^◌, ◌≡◌, Bool, true, false, Option, none, some, List, [], ◌∷◌,
  length, get_elem?, set, replicate, ltb, ◌==◌, if◌then◌else◌, Outcome, ok, fault, out_of_bounds,
  null_pointer, indeterminate, ◌>>=◌,
}

abbrev pub ulong_mod : ℕ
ulong_mod = 2 ^ 64

-- Where a thread stands: before or after which call of the function.
pub data Pc : Type 0 where
  idle : Pc
  -- `sbuf_push`, `sbuf_trypush`: past the wait, with the mutex, past the store, past the unlock
  push_got : ℕ → Pc
  push_locked : ℕ → Pc
  push_stored : Pc
  push_unlocked : Pc
  -- `sbuf_pop`, `sbuf_trypop`: past the wait, with the mutex, past the read, past the unlock
  pop_got : Pc
  pop_locked : Pc
  pop_read : ℕ → Pc
  pop_unlocked : ℕ → Pc

-- What a thread calls.
pub data Call : Type 0 where
  push : ℕ → Call
  trypush : ℕ → Call
  pop : Call
  trypop : Call

-- `struct sbuf` and the threads.
pub record State : Type 0 where
  pub slots : List (Option ℕ)
  pub capacity : ℕ
  pub read : ℕ
  pub write : ℕ
  pub empty : ℕ
  pub full : ℕ
  pub locked : Bool
  pub threads : List Pc

-- `__sbuf_mask`
abbrev pub mask : State → ℕ → ℕ
mask s v = bit_and v (s.capacity - 1)

-- What `sem_init` leaves of a size, which becomes an `unsigned int`: a value above INT_MAX, which
-- is SEM_VALUE_MAX, is refused, and the semaphore stays as `calloc` has made it.
unfoldable pub sem_value : ℕ → ℕ
sem_value v = if ltb (v % 2 ^ 32) (2 ^ 31) then v % 2 ^ 32 else 0

-- `sbuf_new`, with the threads that will use it: `none` is NULL, where `calloc` fails. The answer
-- of `malloc` for the slots is not looked at; where it fails, the null pointer that a call of the
-- buffer would follow is a fault here.
unfoldable pub new : Bool → Bool → ℕ → ℕ → Outcome (Option State)
new header body bufsize n =
    if header
    then if body
      then ok (
          some (record {
            slots = replicate bufsize none;
            capacity = bufsize;
            read = 0;
            write = 0;
            empty = sem_value bufsize;
            full = 0;
            locked = false;
            threads = replicate n idle;
          }))
      else fault null_pointer
    else ok none

abbrev pub moved : State → ℕ → Pc → List Pc
moved s i pc = set s.threads i pc

-- `sem_wait` or `sem_trywait` on `empty` and on `full`; `none` is a thread that blocks.
unfoldable pub start : State → ℕ → Call → Option State
start s i (push v) =
    if s.empty == 0
    then none
    else some (record s { empty = s.empty - 1; threads = moved s i (push_got v) })
start s i (trypush v) =
    if s.empty == 0
    then some s
    else some (record s { empty = s.empty - 1; threads = moved s i (push_got v) })
start s i pop =
    if s.full == 0 then none else some (record s { full = s.full - 1; threads = moved s i pop_got })
start s i trypop =
    if s.full == 0
    then some s
    else some (record s { full = s.full - 1; threads = moved s i pop_got })

-- `pthread_mutex_lock`
unfoldable pub lock : State → ℕ → Pc → Option State
lock s i pc = if s.locked then none else some (record s { locked = true; threads = moved s i pc })

-- `__sbuf_push`
unfoldable pub store : State → ℕ → ℕ → State
store s i v = record s {
  slots = set s.slots (mask s s.write) (some v);
  write = (s.write + 1) % ulong_mod;
  threads = moved s i push_stored;
}

-- `__sbuf_pop`
unfoldable pub take_out : State → ℕ → Outcome State
take_out s i = elim (get_elem? s.slots (mask s s.read)) [
  | none ↦ fault out_of_bounds
  | some none ↦ fault indeterminate
  | some (some v) ↦
      ok (record s { read = (s.read + 1) % ulong_mod; threads = moved s i (pop_read v) })
]

-- The next step of thread `i`; `ok none` is a thread that blocks.
unfoldable pub advance : State → ℕ → Call → Pc → Outcome (Option State)
advance s i call idle = ok (start s i call)
advance s i call (push_got v) = ok (lock s i (push_locked v))
advance s i call (push_locked v) = ok (some (store s i v))
advance s i call push_stored =
    ok (some (record s { locked = false; threads = moved s i push_unlocked }))
advance s i call push_unlocked =
    ok (some (record s { full = s.full + 1; threads = moved s i idle }))
advance s i call pop_got = ok (lock s i pop_locked)
advance s i call pop_locked = take_out s i >>= λ t. ok (some t)
advance s i call (pop_read v) =
    ok (some (record s { locked = false; threads = moved s i (pop_unlocked v) }))
advance s i call (pop_unlocked v) =
    ok (some (record s { empty = s.empty + 1; threads = moved s i idle }))

-- A turn of thread `i`. There is no step of a thread that does not exist.
unfoldable pub step : State → ℕ → Call → Outcome (Option State)
step s i call = elim (get_elem? s.threads i) [ none ↦ ok none | some pc ↦ advance s i call pc ]

-- The turns of a schedule; a thread that blocks loses its turn.
unfoldable pub run : State → List (ℕ × Call) → Outcome State
run s [] = ok s
run s ((i, call) ∷ turns) =
    step s i call >>= λ r. elim r [ none ↦ run s turns | some t ↦ run t turns ]
