-- ===== src/Sbuf/Tests.antt =====
-- The theorems of the ring buffer at a buffer of two slots and three threads, and some runs.
use thesis_data.Common.{ℕ, ◌^◌, ◌≡◌, refl, true, none, some, List, [], ◌∷◌, arith, ok, Returns}
use thesis_data.Sbuf.{
  Call, push, pop, State, idle, push_got, push_locked, start, lock, store, take_out, advance, step,
  run, new, sem_value,
}
use thesis_data.Sbuf.Inv.{Inv, fresh, new-Inv}
use thesis_data.Sbuf.Ring.{Window}
use thesis_data.Sbuf.Runs.{Fifo, history, run-Fifo}
use thesis_data.Sbuf.Mutex.{CanMove, run-exclusive, progress}

abbrev small : State
small = fresh 1 3

small-Inv : Inv small 0 []
small-Inv = new-Inv 1 3 (omega arith)

small_made : new true true (2 ^ 1) 3 ≡ ok (some small)
unfolding new sem_value
small_made = refl

-- The threads 0 and 1 push 7 and 8, and the thread 2 pops.
abbrev turns : List (ℕ × Call)
turns =
    (0, push 7)
    ∷ (1, push 8)
    ∷ (0, push 7)
    ∷ (1, push 8)
    ∷ (0, push 7)
    ∷ (0, push 7)
    ∷ (1, push 8)
    ∷ (0, push 7)
    ∷ (1, push 8)
    ∷ (2, pop)
    ∷ (2, pop)
    ∷ (1, push 8)
    ∷ (1, push 8)
    ∷ (2, pop)
    ∷ (2, pop)
    ∷ []

history_run : history small turns ≡ (7 ∷ 8 ∷ [], 7 ∷ [])
unfolding history step advance start lock store take_out
history_run = refl

abbrev locked_state : State
locked_state = record {
  slots = none ∷ none ∷ [];
  capacity = 2;
  read = 0;
  write = 0;
  empty = 0;
  full = 0;
  locked = true;
  threads = push_locked 7 ∷ push_got 8 ∷ idle ∷ [];
}

locked_turns :
    run small ((0, push 7) ∷ (1, push 8) ∷ (0, push 7) ∷ (1, push 8) ∷ []) ≡ ok locked_state
unfolding run step advance start lock
locked_turns = refl

run-Fifo_example : Returns (run small turns) λ t. Fifo [] (history small turns) t
run-Fifo_example = run-Fifo turns small 0 [] small-Inv

abbrev first : ℕ
first = 0

run-exclusive_example : first ≡ first
run-exclusive_example =
    run-exclusive true true 1 3 small _ locked_state first first (push_locked 7) (push_locked 7)
      (omega arith) small_made locked_turns refl refl refl refl

locked_Inv : Inv locked_state 0 []
unfolding Window
locked_Inv = record {
  bits = 1;
  power = refl;
  narrow = omega arith;
  width = refl;
  read_at = refl;
  write_at = refl;
  window = tt;
  spaces = refl;
  items = refl;
  owners = refl;
}

progress_example : CanMove locked_state
progress_example = progress locked_state 1 0 [] (push_got 8) locked_Inv refl (λ e. cc)
