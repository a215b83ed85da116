-- ===== src/ArrayList/Holds.antt =====
-- What it means for an array list to hold a sequence of elements.
use thesis_data.Common.{
  ℕ, zero, suc, ◌+◌, ◌≤◌, ◌<◌, ◌≡◌, refl, ap, Bool, true, Option, none, some, List, [], ◌∷◌, ◌++◌,
  map, length, get_elem?, replicate, arith, length-append, length-map, ok, dec_lt,
}
use thesis_data.ArrayList.{ArrayList, init_buf, uint_mod, new, read_slot, get, elem, fetch}

module _ {ℓ} {A : Type ℓ} where
  -- The slots are the elements, then slots that were never read; the counters say how many.
  pub record Holds (al : ArrayList A) (xs : List A) : Type ℓ where
    pub junk : List (Option A)
    pub layout : al.slots ≡ map some xs ++ junk
    pub counted : al.elem_count ≡ length xs
    pub sized : length xs + length junk ≡ al.buffer_size
    pub roomy : 0 < al.buffer_size
    pub small : al.buffer_size < uint_mod

  pub length-slots :
      {al : ArrayList A} {xs : List A} → Holds al xs → length al.slots ≡ al.buffer_size
  length-slots {al} {xs} h = omega (
    arith,
    ap length h.layout,
    length-append (map some xs) h.junk,
    length-map {A = A} {B = Option A} some xs,
    h.sized,
  )

  -- `alist_new` yields an empty list where both allocations succeed.
  pub new-Holds :
      (memory : ℕ → Bool)
      → memory init_buf ≡ true
      → (al : ArrayList A) × (new true memory ≡ some al) × Holds al []
  unfolding new
  new-Holds memory granted = (
    record { slots = replicate init_buf none; elem_count = 0; buffer_size = init_buf },
    rw granted,
    record {
      junk = replicate init_buf none;
      layout = refl;
      counted = refl;
      sized = refl;
      roomy = omega arith;
      small = omega arith;
    },
  )

  get_elem?-append :
      (xs : List A) (ys : List (Option A)) (i : ℕ) (x : A)
      → get_elem? xs i ≡ some x
      → read_slot (map some xs ++ ys) i ≡ ok x
  unfolding read_slot
  get_elem?-append [] ys i x h = cc
  get_elem?-append (y ∷ xs) ys zero x h = cc
  get_elem?-append (y ∷ xs) ys (suc i) x h = get_elem?-append xs ys i x h

  pub get_elem?-some : (xs : List A) (i : ℕ) → i < length xs → (x : A) × (get_elem? xs i ≡ some x)
  get_elem?-some [] i h = absurd (omega arith)
  get_elem?-some (x ∷ xs) zero h = (x, refl)
  get_elem?-some (x ∷ xs) (suc i) h = get_elem?-some xs i (omega arith)

  get_elem?-lt : (xs : List A) (i : ℕ) (x : A) → get_elem? xs i ≡ some x → i < length xs
  get_elem?-lt [] i x h = cc
  get_elem?-lt (y ∷ xs) zero x h = omega arith
  get_elem?-lt (y ∷ xs) (suc i) x h = omega (arith, get_elem?-lt xs i x h)

  get_elem?-none : (xs : List A) (i : ℕ) → length xs ≤ i → get_elem? xs i ≡ none
  get_elem?-none [] i h = refl
  get_elem?-none (x ∷ xs) zero h = absurd (omega arith)
  get_elem?-none (x ∷ xs) (suc i) h = get_elem?-none xs i (omega arith)

  pub get-get_elem? :
      {al : ArrayList A} {xs : List A} (i : ℕ) → Holds al xs → get al i ≡ ok (get_elem? xs i)
  unfolding get
  get-get_elem? {al} {xs} i h = elim (dec_lt i (length xs)) [
    | yes p ↦
        let (x, e) = get_elem?-some xs i p in
        ground (arith, h.layout, h.counted, e, get_elem?-append xs h.junk i x e)
    | no p ↦ ground (arith, h.counted, get_elem?-none xs i (omega arith))
  ]

  pub fetch-get_elem? :
      {al : ArrayList A} {xs : List A} (i : ℕ) (x : A)
      → Holds al xs
      → get_elem? xs i ≡ some x
      → fetch al i ≡ ok x
  unfolding fetch elem
  fetch-get_elem? {al} {xs} i x h e =
      ground (arith, h.layout, h.counted, get_elem?-lt xs i x e, get_elem?-append xs h.junk i x e)
