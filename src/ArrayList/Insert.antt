-- ===== src/ArrayList/Insert.antt =====
-- `alist_insert_at` and `alist_insert` on an array list that holds a sequence.
use thesis_data.Common.{
  ℕ, zero, suc, ◌+◌, ◌*◌, ◌%◌, ◌^◌, ◌≤◌, ◌<◌, ◌≡◌, inl, inr, not, ◌||◌, refl, ap, sym, ◌∙◌, Bool,
  true, false, Option, none, some, List, [], ◌∷◌, ◌++◌, map, length, take, drop, replicate, arith,
  length-append, length-map, length-replicate, Returns, ok, ◌==◌, append_assoc, bind_assoc,
  map-append, ◌>>=◌, Bool-cases, length-set, le→leb, lt→ltb, ==→eq, length-take_of_le, length-drop,
}
use thesis_data.ArrayList.{
  ArrayList, uint_mod, add_uint, sub_uint, memmove, write_slot, grow, place, insert_at,
}
use thesis_data.ArrayList.Holds.{Holds}
use thesis_data.ArrayList.Slots.{open_gap}

-- The list with a new element before index `i`.
abbrev pub insert_nth {ℓ} : {A : Type ℓ} → ℕ → A → List A → List A
insert_nth i x xs = take i xs ++ (x ∷ drop i xs)

-- The allocator lets one more element in.
abbrev pub has_room {ℓ} : {A : Type ℓ} → (ℕ → Bool) → ArrayList A → Bool
has_room memory al = not (al.elem_count == al.buffer_size) || memory (al.buffer_size * 2)

module _ {ℓ} {A : Type ℓ} where
  -- Growth makes room and keeps the elements.
  grow-Holds :
      (memory : ℕ → Bool) {al : ArrayList A} {xs : List A}
      → Holds al xs
      → length xs < 2 ^ 31
      → has_room memory al ≡ true
      → (al' : ArrayList A) × (grow memory al ≡ some al')
        × Holds al' xs
        × (length xs < al'.buffer_size)
  unfolding grow
  grow-Holds memory {al} {xs} h few room = elim (Bool-cases (al.elem_count == al.buffer_size)) [
    | inl full ↦
        let same : al.elem_count ≡ al.buffer_size = ==→eq _ _ full in
        let granted : memory (al.buffer_size * 2) ≡ true = ground arith in
        let fresh = length-replicate {A = Option A} al.buffer_size none in
        (
          record al {
            slots = al.slots ++ replicate al.buffer_size none;
            buffer_size = al.buffer_size * 2 % uint_mod;
          },
          rw (full, granted),
          record {
            junk = h.junk ++ replicate al.buffer_size none;
            layout = rw h.layout (append_assoc (map some xs) h.junk _);
            counted = h.counted;
            sized = omega (
              arith,
              h.sized,
              h.counted,
              length-append h.junk (replicate al.buffer_size none),
              fresh,
            );
            roomy = omega (arith, h.roomy, h.counted, h.small);
            small = omega arith;
          },
          omega (arith, h.counted, h.roomy),
        )
    | inr free ↦ (al, rw free, h, ground (arith, h.sized, h.counted))
  ]

  grow-none :
      (memory : ℕ → Bool) (al : ArrayList A) → has_room memory al ≡ false → grow memory al ≡ none
  unfolding grow
  grow-none memory al tight = ground arith

  pub cut_layout :
      (i : ℕ) (xs : List A) (js : List (Option A))
      → map some xs ++ js ≡ map some (take i xs) ++ (map some (drop i xs) ++ js)
  cut_layout zero xs js = refl
  cut_layout (suc i) [] js = refl
  cut_layout (suc i) (x ∷ xs) js = ap (λ t. some x ∷ t) (cut_layout i xs js)

  -- The move and the write, on a buffer that is cut where the element goes.
  place_slots :
      (ps bs js : List (Option A)) (j : Option A) (x : A) (i n : ℕ)
      → i ≡ length ps
      → n ≡ length bs
      → (memmove (suc i) i n (ps ++ (bs ++ (j ∷ js))) >>= write_slot i x)
        ≡ ok (ps ++ (some x ∷ (bs ++ js)))
  unfolding memmove write_slot
  place_slots ps bs js j x i n ei en =
      let opened = open_gap ps bs js j (some x) in
      let s : List (Option A) = ps ++ (bs ++ (j ∷ js)) in
      let m : List (Option A) =
        take (suc (length ps)) s
        ++ (take (length bs) (drop (length ps) s) ++ drop (suc (length ps) + length bs) s) in
      let size : length s ≡ length ps + (length bs + suc (length js)) =
        omega (arith, length-append ps (bs ++ (j ∷ js)), length-append bs (j ∷ js)) in
      let kept : length m ≡ length ps + suc (length bs + length js) = omega (
        arith,
        length-set m (length ps) (some x),
        ap length opened,
        length-append ps (some x ∷ (bs ++ js)),
        length-append bs js,
      ) in
      rw
        (
          ei,
          en,
          le→leb (suc (length ps) + length bs) (length s) (omega arith),
          le→leb (length ps + length bs) (length s) (omega arith),
          lt→ltb (length ps) (length m) (omega arith),
        )
        (ap ok opened)

  place_lem :
      (al : ArrayList A) (x : A) (i : ℕ)
      → place al x i
        ≡ (memmove (add_uint i 1) i (sub_uint al.elem_count i) al.slots >>= write_slot i x)
          >>= (λ w. ok (record al { slots = w; elem_count = add_uint al.elem_count 1 }))
  unfolding place
  place_lem al x i = sym (bind_assoc (memmove _ _ _ al.slots) (write_slot i x) _)

  place-Holds :
      {al : ArrayList A} {xs : List A} (x : A) (i : ℕ)
      → Holds al xs
      → i ≤ length xs
      → length xs < al.buffer_size
      → Returns (place al x i) λ al'. Holds al' (insert_nth i x xs)
  place-Holds {al} {xs} x i h inside space = go h.junk h.layout h.sized
    where
      shifted : add_uint i 1 ≡ suc i
      shifted = omega (arith, h.small, h.sized)

      rest : sub_uint al.elem_count i ≡ length (drop i xs)
      rest = omega (arith, h.small, h.counted, length-drop i xs)

      bumped : add_uint al.elem_count 1 ≡ length (insert_nth i x xs)
      bumped = omega (
        arith,
        h.small,
        h.counted,
        length-append (take i xs) (x ∷ drop i xs),
        length-take_of_le i xs inside,
        length-drop i xs,
      )

      go :
          (junk : List (Option A))
          → al.slots ≡ map some xs ++ junk
          → length xs + length junk ≡ al.buffer_size
          → Returns (place al x i) λ al'. Holds al' (insert_nth i x xs)
      go [] layout sized = absurd (omega arith)
      go (j ∷ js) layout sized =
          let cut : al.slots ≡ map some (take i xs) ++ (map some (drop i xs) ++ (j ∷ js)) =
            layout ∙ cut_layout i xs (j ∷ js) in
          let placed =
            place_slots (map some (take i xs)) (map some (drop i xs)) js j x i (length (drop i xs))
              (omega (
                arith,
                length-map {A = A} {B = Option A} some (take i xs),
                length-take_of_le i xs inside,
              ))
              (omega (arith, length-map {A = A} {B = Option A} some (drop i xs))) in
          (
            record al {
              slots = map some (take i xs) ++ (some x ∷ (map some (drop i xs) ++ js));
              elem_count = add_uint al.elem_count 1;
            },
            rw (place_lem, shifted, rest, cut, placed),
            record {
              junk = js;
              layout = simp (map-append, append_assoc);
              counted = bumped;
              sized = omega (arith, h.small, h.counted, bumped);
              roomy = h.roomy;
              small = h.small;
            },
          )

  -- On a list of fewer than 2 ^ 31 elements, at an index up to their number, and where there is
  -- room or the allocator grants the doubled buffer, `alist_insert_at` does not fault: it returns
  -- the index and puts the element before that index.
  pub insert_at-Holds :
      (memory : ℕ → Bool) {al : ArrayList A} {xs : List A} (x : A) (i : ℕ)
      → Holds al xs
      → i ≤ length xs
      → length xs < 2 ^ 31
      → has_room memory al ≡ true
      → Returns (insert_at memory al x i) λ (r, al'). (r ≡ some i) × Holds al' (insert_nth i x xs)
  unfolding insert_at
  insert_at-Holds memory x i h inside few room =
      let (grown, run, held, space) = grow-Holds memory h few room in
      let (al', run', held') = place-Holds x i held inside space in
      ((some i, al'), rw (run, insert_at) (rw run'), (refl, held'))

  -- Where it does not, the call returns -1 and the list is unchanged.
  pub insert_at_full :
      (memory : ℕ → Bool) (al : ArrayList A) (x : A) (i : ℕ)
      → has_room memory al ≡ false
      → insert_at memory al x i ≡ ok (none, al)
  unfolding insert_at
  insert_at_full memory al x i tight = rw (grow-none memory al tight, insert_at)
