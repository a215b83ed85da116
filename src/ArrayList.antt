-- ===== src/ArrayList.antt =====
-- sdnres-src/lib/arraylist.c: a growable array of elements of one size. The buffer is a list of
-- slots of `elem_size` bytes, where `none` is a slot that was never written. `unsigned int`
-- arithmetic wraps at 2 ^ 32. The allocator is an argument of the operations that call it: whether
-- it grants a buffer of that many slots. Lists passed as two arguments are distinct objects.
pub mod Slots
pub mod Holds
pub mod Insert
pub mod Remove
pub mod Copies
mod Tests
use thesis_data.Common.{
  ℕ, zero, suc, ◌+◌, ◌-◌, ◌*◌, ◌%◌, ◌^◌, Bool, true, false, Option, none, some, List, ◌++◌, length,
  get_elem?, set, take, drop, replicate, ltb, leb, ◌==◌, if◌then◌else◌, Outcome, ok, fault,
  out_of_bounds, indeterminate, assertion, out_of_fuel, ◌>>=◌, ◌>>◌, require,
}

abbrev pub init_buf : ℕ
init_buf = 32

-- `unsigned int` arithmetic
abbrev pub uint_mod : ℕ
uint_mod = 2 ^ 32

abbrev pub add_uint : ℕ → ℕ → ℕ
add_uint a b = (a + b) % uint_mod

abbrev pub sub_uint : ℕ → ℕ → ℕ
sub_uint a b = (a + uint_mod - b) % uint_mod

pub record ArrayList {ℓ} (A : Type ℓ) : Type ℓ where
  pub slots : List (Option A)
  pub elem_count : ℕ
  pub buffer_size : ℕ

module _ {ℓ} {A : Type ℓ} where
  -- `alist_new`: `header` is the answer to the first `malloc`; `none` is NULL.
  unfoldable pub new : Bool → (ℕ → Bool) → Option (ArrayList A)
  new header memory =
      if header
      then if memory init_buf
        then some
            (record { slots = replicate init_buf none; elem_count = 0; buffer_size = init_buf })
        else none
      else none

  -- `memmove` of `n` slots inside one buffer, from slot `src` to slot `dst`
  unfoldable pub memmove : ℕ → ℕ → ℕ → List (Option A) → Outcome (List (Option A))
  memmove dst src n xs =
      if leb (dst + n) (length xs)
      then if leb (src + n) (length xs)
        then ok (take dst xs ++ (take n (drop src xs) ++ drop (dst + n) xs))
        else fault out_of_bounds
      else fault out_of_bounds

  -- `memcpy` of one element into slot `i`
  unfoldable pub write_slot : ℕ → A → List (Option A) → Outcome (List (Option A))
  write_slot i x xs = if ltb i (length xs) then ok (set xs i (some x)) else fault out_of_bounds

  -- The growth at the start of `alist_insert_at`; `none` is a `realloc` that fails. The new half
  -- of the buffer is indeterminate.
  unfoldable pub grow : (ℕ → Bool) → ArrayList A → Option (ArrayList A)
  grow memory al =
      if al.elem_count == al.buffer_size
      then if memory (al.buffer_size * 2)
        then some (record al {
          slots = al.slots ++ replicate al.buffer_size none;
          buffer_size = al.buffer_size * 2 % uint_mod;
        })
        else none
      else some al

  -- The rest of `alist_insert_at`.
  unfoldable pub place : ArrayList A → A → ℕ → Outcome (ArrayList A)
  place al x idx = do
    moved ← memmove (add_uint idx 1) idx (sub_uint al.elem_count idx) al.slots
    written ← write_slot idx x moved
    ok (record al { slots = written; elem_count = add_uint al.elem_count 1 })

  -- `alist_insert_at`: the index, or `none` for -1, and the list.
  unfoldable pub insert_at : (ℕ → Bool) → ArrayList A → A → ℕ → Outcome (Option ℕ × ArrayList A)
  insert_at memory al x idx = elim (grow memory al) [
    | none ↦ ok (none, al)
    | some grown ↦ place grown x idx >>= λ al'. ok (some idx, al')
  ]

  -- `alist_insert`
  unfoldable pub insert : (ℕ → Bool) → ArrayList A → A → Outcome (Option ℕ × ArrayList A)
  insert memory al x = insert_at memory al x al.elem_count

  -- `alist_remove`
  unfoldable pub remove : ArrayList A → ℕ → Outcome (ArrayList A)
  remove al idx = do
    require (ltb idx al.elem_count) assertion
    moved ← memmove idx (add_uint idx 1) (sub_uint (sub_uint al.elem_count idx) 1) al.slots
    ok (record al { slots = moved; elem_count = sub_uint al.elem_count 1 })

  -- `alist_elem`: NULL, or a pointer to the slot, which stands for its index.
  unfoldable pub elem : ArrayList A → ℕ → Option ℕ
  elem al idx = if leb al.elem_count idx then none else some idx

  -- A read of a whole slot.
  unfoldable pub read_slot : List (Option A) → ℕ → Outcome A
  read_slot xs i = elim (get_elem? xs i) [
    | none ↦ fault out_of_bounds
    | some none ↦ fault indeterminate
    | some (some x) ↦ ok x
  ]

  -- `alist_get`: `none` for -1, or what is copied to `buf`.
  unfoldable pub get : ArrayList A → ℕ → Outcome (Option A)
  get al idx =
      if leb al.elem_count idx then ok none else (read_slot al.slots idx >>= λ x. ok (some x))

  -- The read of `*alist_elem(al, i)`, a fault where the pointer is NULL.
  unfoldable pub fetch : ArrayList A → ℕ → Outcome A
  fetch al idx = elim (elem al idx) [ none ↦ fault out_of_bounds | some i ↦ read_slot al.slots i ]

  -- The loop of `alist_append`, for `n` more rounds from index `i`. The result of each
  -- `alist_insert` is dropped, as in the source.
  unfoldable pub append_from :
      (ℕ → Bool) → ℕ → ℕ → ArrayList A → ArrayList A → Outcome (ArrayList A)
  append_from memory zero i dst src = ok dst
  append_from memory (suc n) i dst src = do
    x ← fetch src i
    (_, dst') ← insert memory dst x
    append_from memory n (suc i) dst' src

  -- `alist_append`
  unfoldable pub append : (ℕ → Bool) → ArrayList A → ArrayList A → Outcome (ArrayList A)
  append memory dst src = append_from memory src.elem_count 0 dst src

  -- `alist_copy`
  unfoldable pub copy : Bool → (ℕ → Bool) → ArrayList A → Outcome (Option (ArrayList A))
  copy header memory al = elim (new header memory) [
    | none ↦ ok none
    | some acopy ↦ append memory acopy al >>= λ r. ok (some r)
  ]

  -- The loop of `alist_copy_reverse`, for `n` more rounds from round `i`.
  unfoldable pub reverse_from :
      (ℕ → Bool) → ℕ → ℕ → ArrayList A → ArrayList A → Outcome (ArrayList A)
  reverse_from memory zero i acopy al = ok acopy
  reverse_from memory (suc n) i acopy al = do
    x ← fetch al (sub_uint (sub_uint al.elem_count 1) i)
    (_, acopy') ← insert memory acopy x
    reverse_from memory n (suc i) acopy' al

  -- `alist_copy_reverse`
  unfoldable pub copy_reverse : Bool → (ℕ → Bool) → ArrayList A → Outcome (Option (ArrayList A))
  copy_reverse header memory al = elim (new header memory) [
    | none ↦ ok none
    | some acopy ↦ reverse_from memory al.elem_count 0 acopy al >>= λ r. ok (some r)
  ]

  -- The loop of `alist_exist`, for `n` more rounds from index `i`; `same` is `memcmp(..) == 0`.
  unfoldable pub exist_from : (A → A → Bool) → ℕ → ℕ → ArrayList A → A → Outcome Bool
  exist_from same zero i al x = ok false
  exist_from same (suc n) i al x =
      let rest = exist_from same n (suc i) al x in
      fetch al i >>= λ y. (if same y x then ok true else rest)

  -- `alist_exist`
  unfoldable pub exist : (A → A → Bool) → ArrayList A → A → Outcome Bool
  exist same al x = exist_from same al.elem_count 0 al x

  -- The loop of `alist_flush`; each round removes one element, so the fuel is the count and one.
  unfoldable pub flush_from : ℕ → ArrayList A → Outcome (ArrayList A)
  flush_from zero al = fault out_of_fuel
  flush_from (suc fuel) al =
      if al.elem_count == 0
      then ok al
      else (remove al (sub_uint al.elem_count 1) >>= λ al'. flush_from fuel al')

  -- `alist_flush`
  unfoldable pub flush : ArrayList A → Outcome (ArrayList A)
  flush al = flush_from (al.elem_count + 1) al
