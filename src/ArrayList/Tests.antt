-- ===== src/ArrayList/Tests.antt =====
-- The theorems of the array list at two lists of numbers, and some runs.
use thesis_data.Common.{
  ℕ, ◌≡◌, refl, Bool, true, none, some, List, [], ◌∷◌, arith, Returns, fault, assertion,
  out_of_bounds,
}
use thesis_data.ArrayList.{ArrayList, insert_at, grow, place, memmove, remove}
use thesis_data.ArrayList.Holds.{Holds}
use thesis_data.ArrayList.Insert.{insert_at-Holds}
use thesis_data.ArrayList.Remove.{remove-Holds}

abbrev sample : ArrayList ℕ
sample = record { slots = some 5 ∷ some 7 ∷ some 9 ∷ none ∷ []; elem_count = 3; buffer_size = 4 }

abbrev sample_items : List ℕ
sample_items = 5 ∷ 7 ∷ 9 ∷ []

sample-Holds : Holds sample sample_items
sample-Holds = record {
  junk = none ∷ [];
  layout = refl;
  counted = refl;
  sized = refl;
  roomy = omega arith;
  small = omega arith;
}

abbrev full : ArrayList ℕ
full = record { slots = some 1 ∷ some 2 ∷ []; elem_count = 2; buffer_size = 2 }

full-Holds : Holds full (1 ∷ 2 ∷ [])
full-Holds = record {
  junk = [];
  layout = refl;
  counted = refl;
  sized = refl;
  roomy = omega arith;
  small = omega arith;
}

abbrev always : ℕ → Bool
always _ = true

insert_at-Holds_example :
    Returns (insert_at always full 8 1) λ (r, al'). (r ≡ some 1) × Holds al' (1 ∷ 8 ∷ 2 ∷ [])
insert_at-Holds_example = insert_at-Holds always 8 1 full-Holds (omega arith) (omega arith) refl

insert_beyond : insert_at always sample 8 4 ≡ fault out_of_bounds
unfolding insert_at grow place memmove
insert_beyond = refl

remove-Holds_example : Returns (remove sample 1) λ al'. Holds al' (5 ∷ 9 ∷ [])
remove-Holds_example = remove-Holds 1 sample-Holds (omega arith)

remove_beyond : remove sample 3 ≡ fault assertion
unfolding remove
remove_beyond = refl
