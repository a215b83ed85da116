-- ===== src/ArrayList/Remove.antt =====
-- `alist_remove` and `alist_flush` on an array list that holds a sequence.
use thesis_data.Common.{
  ℕ, zero, suc, ◌+◌, ◌-◌, ◌≤◌, ◌<◌, ◌≡◌, ◌≢◌, inl, inr, refl, ap, ◌∙◌, Option, some, List, [], ◌∷◌,
  ◌++◌, map, length, take, drop, arith, length-append, length-map, Returns, ok, fault, assertion,
  ◌==◌, append_assoc, map-append, Bool-cases, le→leb, lt→ltb, ==→eq, length-take_of_le, length-drop,
  le→ltb,
}
use thesis_data.ArrayList.{ArrayList, add_uint, sub_uint, memmove, remove, flush_from, flush}
use thesis_data.ArrayList.Holds.{Holds}
use thesis_data.ArrayList.Slots.{close_gap}

-- The list without its element at index `i`.
abbrev pub erase_idx {ℓ} : {A : Type ℓ} → ℕ → List A → List A
erase_idx i xs = take i xs ++ drop (suc i) xs

module _ {ℓ} {A : Type ℓ} where
  cut_at :
      (i : ℕ) (xs : List A) (js : List (Option A))
      → i < length xs
      → (x : A) × (map some xs ++ js
          ≡ map some (take i xs) ++ (some x ∷ (map some (drop (suc i) xs) ++ js)))
  cut_at i [] js h = absurd (omega arith)
  cut_at zero (x ∷ xs) js h = (x, refl)
  cut_at (suc i) (x ∷ xs) js h =
      let (y, e) = cut_at i xs js (omega arith) in (y, ap (λ t. some x ∷ t) e)

  remove_slots :
      (ps bs js : List (Option A)) (x : Option A) (i n : ℕ)
      → i ≡ length ps
      → n ≡ length bs
      → memmove i (suc i) n (ps ++ (x ∷ (bs ++ js)))
        ≡ ok (ps ++ (bs ++ (drop (length bs) (x ∷ bs) ++ js)))
  unfolding memmove
  remove_slots ps bs js x i n ei en =
      let s : List (Option A) = ps ++ (x ∷ (bs ++ js)) in
      let size : length s ≡ length ps + suc (length bs + length js) =
        omega (arith, length-append ps (x ∷ (bs ++ js)), length-append bs js) in
      rw
        (
          ei,
          en,
          le→leb (length ps + length bs) (length s) (omega arith),
          le→leb (suc (length ps) + length bs) (length s) (omega arith),
        )
        (ap ok (close_gap ps bs js x))

  pub length-erase_idx :
      (i : ℕ) (xs : List A) → i < length xs → suc (length (erase_idx i xs)) ≡ length xs
  length-erase_idx i [] h = absurd (omega arith)
  length-erase_idx zero (x ∷ xs) h = refl
  length-erase_idx (suc i) (x ∷ xs) h = ap suc (length-erase_idx i xs (omega arith))

  -- At an index below the number of elements, `alist_remove` does not fault: it takes out exactly
  -- the element at that index.
  pub remove-Holds :
      {al : ArrayList A} {xs : List A} (i : ℕ)
      → Holds al xs
      → i < length xs
      → Returns (remove al i) λ al'. Holds al' (erase_idx i xs)
  unfolding remove
  remove-Holds {al} {xs} i h inside =
      let (x, cut) = cut_at i xs h.junk inside in
      let ps : List (Option A) = map some (take i xs) in
      let bs : List (Option A) = map some (drop (suc i) xs) in
      let len_ps : i ≡ length ps = omega (
        arith,
        length-map {A = A} {B = Option A} some (take i xs),
        length-take_of_le i xs (omega arith),
      ) in
      let len_bs : length xs - i - 1 ≡ length bs =
        omega (
          arith,
          length-map {A = A} {B = Option A} some (drop (suc i) xs),
          length-drop (suc i) xs,
        ) in
      let shifted : add_uint i 1 ≡ suc i = omega (arith, h.small, h.sized) in
      let rest : sub_uint (sub_uint al.elem_count i) 1 ≡ length xs - i - 1 =
        omega (arith, h.small, h.counted, h.sized) in
      let fewer : sub_uint al.elem_count 1 ≡ length xs - 1 =
        omega (arith, h.small, h.counted, h.sized) in
      let moved = remove_slots ps bs h.junk (some x) i (length xs - i - 1) len_ps len_bs in
      (
        record al {
          slots = ps ++ (bs ++ (drop (length bs) (some x ∷ bs) ++ h.junk));
          elem_count = length xs - 1;
        },
        rw (
          lt→ltb i al.elem_count (omega (arith, h.counted)),
          shifted,
          rest,
          h.layout ∙ cut,
          moved,
          fewer,
        ),
        record {
          junk = drop (length bs) (some x ∷ bs) ++ h.junk;
          layout = simp (map-append, append_assoc);
          counted = omega (arith, length-erase_idx i xs inside);
          sized = omega (
            arith,
            h.sized,
            length-erase_idx i xs inside,
            length-append (drop (length bs) (some x ∷ bs)) h.junk,
            length-drop (length bs) (some x ∷ bs),
          );
          roomy = h.roomy;
          small = h.small;
        },
      )

  -- At any other index its assertion fails.
  pub remove_assertion :
      (al : ArrayList A) (i : ℕ) → al.elem_count ≤ i → remove al i ≡ fault assertion
  unfolding remove
  remove_assertion al i h = rw (le→ltb _ _ h)

  empty_of_length : (xs : List A) → length xs ≡ 0 → xs ≡ []
  empty_of_length [] h = refl
  empty_of_length (x ∷ xs) h = absurd (omega arith)

  flush_from-Holds :
      (fuel : ℕ) {al : ArrayList A} {xs : List A}
      → Holds al xs
      → length xs < fuel
      → Returns (flush_from fuel al) λ al'. Holds al' []
  unfolding flush_from
  flush_from-Holds zero h few = absurd (omega arith)
  flush_from-Holds (suc fuel) {al} {xs} h few = elim (Bool-cases (al.elem_count == 0)) [
    | inl done ↦
        let none_left : xs ≡ [] = empty_of_length xs (omega (arith, h.counted, ==→eq _ _ done)) in
        (al, rw done, rw none_left at h)
    | inr more ↦
        let i : ℕ = sub_uint al.elem_count 1 in
        let filled : al.elem_count ≢ 0 = ground arith in
        let inside : i < length xs = omega (arith, h.counted, h.sized, h.small) in
        let (al1, run, held) = remove-Holds i h inside in
        let (al', run', held') =
          flush_from-Holds fuel held (omega (arith, length-erase_idx i xs inside)) in
        (al', rw (more, run) run', held')
  ]

  -- `alist_flush` ends within its fuel, without a fault and with an empty list.
  pub flush-Holds :
      {al : ArrayList A} {xs : List A} → Holds al xs → Returns (flush al) λ al'. Holds al' []
  unfolding flush
  flush-Holds {al} h = flush_from-Holds (al.elem_count + 1) h (omega (arith, h.counted))
