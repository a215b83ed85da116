-- ===== src/ArrayList/Copies.antt =====
-- `alist_append`, `alist_copy`, `alist_copy_reverse` and `alist_exist`, whose loops call the
-- operations on one element.
use mathlib.Core.List.{reverse-cons, reverse_aux}
use thesis_data.Common.{
  ℕ, zero, suc, ◌+◌, ◌*◌, ◌^◌, ◌≤◌, ◌<◌, ◌≡◌, ◌||◌, refl, ap, ◌∙◌, Bool, true, false, Option, some,
  List, [], ◌∷◌, ◌++◌, length, reverse, get_elem?, drop, arith, length-append, Returns, ok,
  append_assoc, append-nil, length-drop,
}
use thesis_data.ArrayList.{
  ArrayList, sub_uint, init_buf, insert_at, insert, fetch, append_from, append, copy, reverse_from,
  copy_reverse, exist_from, exist,
}
use thesis_data.ArrayList.Holds.{Holds, new-Holds, fetch-get_elem?, get_elem?-some}
use thesis_data.ArrayList.Insert.{insert_nth, has_room, insert_at-Holds}

abbrev pub any {ℓ} : {A : Type ℓ} → (A → Bool) → List A → Bool
any p [] = false
any p (x ∷ xs) = p x || any p xs

module _ {ℓ} {A : Type ℓ} where
  insert_nth-length : (x : A) (xs : List A) → insert_nth (length xs) x xs ≡ xs ++ (x ∷ [])
  insert_nth-length x [] = refl
  insert_nth-length x (y ∷ ys) = ap (λ t. y ∷ t) (insert_nth-length x ys)

  get_elem?-middle : (ps qs : List A) (y : A) → get_elem? (ps ++ (y ∷ qs)) (length ps) ≡ some y
  get_elem?-middle [] qs y = refl
  get_elem?-middle (p ∷ ps) qs y = get_elem?-middle ps qs y

  length-reverse_aux : (xs ys : List A) → length (reverse_aux xs ys) ≡ length xs + length ys
  length-reverse_aux [] ys = omega arith
  length-reverse_aux (x ∷ xs) ys = omega (arith, length-reverse_aux xs (x ∷ ys))

  length-reverse : (xs : List A) → length (reverse xs) ≡ length xs
  length-reverse xs = omega (arith, length-reverse_aux xs [])

  drop-get :
      (n : ℕ) (ys : List A) (y : A) → get_elem? ys n ≡ some y → drop n ys ≡ y ∷ drop (suc n) ys
  drop-get n [] y e = cc
  drop-get zero (x ∷ ys) y e = cc
  drop-get (suc n) (x ∷ ys) y e = drop-get n ys y e

  drop_end : (n : ℕ) (ys : List A) → length ys ≤ n → drop n ys ≡ []
  drop_end zero [] h = refl
  drop_end zero (y ∷ ys) h = absurd (omega arith)
  drop_end (suc n) [] h = refl
  drop_end (suc n) (y ∷ ys) h = drop_end n ys (omega arith)

module _ {ℓ} {A : Type ℓ} (memory : ℕ → Bool) (granted : (n : ℕ) → memory n ≡ true) where
  -- `alist_insert` puts the element last.
  pub insert-Holds :
      {al : ArrayList A} {xs : List A} (x : A)
      → Holds al xs
      → length xs < 2 ^ 31
      → Returns (insert memory al x) λ (r, al'). (r ≡ some (length xs)) × Holds al' (xs ++ (x ∷ []))
  unfolding insert
  insert-Holds {al} {xs} x h few =
      let room : has_room memory al ≡ true = ground (arith, granted (al.buffer_size * 2)) in
      let (out, run, (placed, held)) =
        insert_at-Holds memory x (length xs) h (omega arith) few room in
      (out, ap (insert_at memory al x) h.counted ∙ run, (placed, rw insert_nth-length at held))

  append_from-Holds :
      (qs : List A) (n i : ℕ) (xs ps : List A) (dst src : ArrayList A)
      → Holds dst (xs ++ ps)
      → Holds src (ps ++ qs)
      → i ≡ length ps
      → n ≡ length qs
      → length xs + length (ps ++ qs) ≤ 2 ^ 31
      → Returns (append_from memory n i dst src) λ dst'. Holds dst' (xs ++ (ps ++ qs))
  unfolding append_from
  append_from-Holds [] zero i xs ps dst src d s ei en few = (dst, refl, rw append-nil d)
  append_from-Holds [] (suc n) i xs ps dst src d s ei en few = absurd (omega arith)
  append_from-Holds (q ∷ qs) zero i xs ps dst src d s ei en few = absurd (omega arith)
  append_from-Holds (q ∷ qs) (suc n) i xs ps dst src d s ei en few =
      let read = fetch-get_elem? i q s (rw ei (get_elem?-middle ps qs q)) in
      let (out, run, (placed, held)) =
        insert-Holds q d (omega (arith, length-append xs ps, length-append ps (q ∷ qs))) in
      let (dst', run', held') =
        append_from-Holds qs n (suc i) xs (ps ++ (q ∷ [])) out.1 src (rw (append_assoc) at held)
          (rw append_assoc s) (omega (arith, length-append ps (q ∷ []))) (omega arith)
          (rw append_assoc few) in
      (dst', rw (read, run) run', rw (append_assoc ps (q ∷ []) qs) at held')

  -- Where every allocation is granted and the two lists have at most 2 ^ 31 elements together,
  -- `alist_append` does not fault: it adds the elements of the second list, in order, behind those
  -- of the first.
  pub append-Holds :
      {dst src : ArrayList A} {xs ys : List A}
      → Holds dst xs
      → Holds src ys
      → length xs + length ys ≤ 2 ^ 31
      → Returns (append memory dst src) λ dst'. Holds dst' (xs ++ ys)
  unfolding append
  append-Holds {dst} {src} {xs} {ys} d s few =
      append_from-Holds ys src.elem_count 0 xs [] dst src (rw append-nil d) s refl s.counted few

  -- `alist_copy` makes a list of the same elements.
  pub copy-Holds :
      {al : ArrayList A} {xs : List A}
      → Holds al xs
      → length xs ≤ 2 ^ 31
      → Returns (copy true memory al) λ r. (al' : ArrayList A) × (r ≡ some al') × Holds al' xs
  unfolding copy
  copy-Holds {al} h few =
      let (fresh, made, empty) = new-Holds memory (granted init_buf) in
      let (al', run, held) = append-Holds empty h (omega arith) in
      (some al', rw (made, copy) (rw run), (al', refl, held))

  reverse_step :
      (n i : ℕ) (acopy al : ArrayList A) {j : ℕ} {y : A} {out : Option ℕ × ArrayList A}
      → sub_uint (sub_uint al.elem_count 1) i ≡ j
      → fetch al j ≡ ok y
      → insert memory acopy y ≡ ok out
      → reverse_from memory (suc n) i acopy al ≡ reverse_from memory n (suc i) out.1 al
  unfolding reverse_from
  reverse_step n i acopy al index read run = rw (index, read, run)

  reverse_from-Holds :
      (n i : ℕ) (acopy al : ArrayList A) {ys : List A}
      → Holds acopy (reverse (drop n ys))
      → Holds al ys
      → n + i ≡ length ys
      → length ys ≤ 2 ^ 31
      → Returns (reverse_from memory n i acopy al) λ acopy'. Holds acopy' (reverse ys)
  unfolding reverse_from
  reverse_from-Holds zero i acopy al c h e few = (acopy, refl, c)
  reverse_from-Holds (suc n) i acopy al {ys} c h e few =
      let (y, here) = get_elem?-some ys n (omega arith) in
      let index : sub_uint (sub_uint al.elem_count 1) i ≡ n =
        omega (arith, h.counted, h.sized, h.small) in
      let read = fetch-get_elem? n y h here in
      let (out, run, (placed, held)) =
        insert-Holds y c
          (omega (arith, length-reverse (drop (suc n) ys), length-drop (suc n) ys)) in
      let (r, run', held') =
        reverse_from-Holds n (suc i) out.1 al (rw (drop-get n ys y here, reverse-cons) held) h
          (omega arith) few in
      (r, reverse_step n i acopy al index read run ∙ run', held')

  -- Where every allocation is granted and the list has at most 2 ^ 31 elements,
  -- `alist_copy_reverse` does not fault: it makes a list of the same elements in reverse order.
  pub copy_reverse-Holds :
      {al : ArrayList A} {xs : List A}
      → Holds al xs
      → length xs ≤ 2 ^ 31
      → Returns
          (copy_reverse true memory al)
          λ r. (al' : ArrayList A) × (r ≡ some al') × Holds al' (reverse xs)
  unfolding copy_reverse
  copy_reverse-Holds {al} {xs} h few =
      let (fresh, made, empty) = new-Holds memory (granted init_buf) in
      let (al', run, held) =
        reverse_from-Holds al.elem_count 0 fresh al
          (rw (drop_end al.elem_count xs (omega (arith, h.counted))) empty) h
          (omega (arith, h.counted)) few in
      (some al', rw (made, copy_reverse) (rw run), (al', refl, held))

module _ {ℓ} {A : Type ℓ} (same : A → A → Bool) where
  exist_from-any :
      (n i : ℕ) {al : ArrayList A} {xs : List A} (x : A)
      → Holds al xs
      → i + n ≡ length xs
      → exist_from same n i al x ≡ ok (any (λ y. same y x) (drop i xs))
  unfolding exist_from
  exist_from-any zero i {xs} x h e = rw (drop_end i xs (omega arith))
  exist_from-any (suc n) i {al} {xs} x h e =
      let (y, here) = get_elem?-some xs i (omega arith) in
      let rest = exist_from-any n (suc i) x h (omega arith) in
      rw (fetch-get_elem? i y h here, drop-get i xs y here) (ground (arith, rest))

  -- `alist_exist` does not fault, and answers whether some element of the list compares equal.
  pub exist-any :
      {al : ArrayList A} {xs : List A} (x : A)
      → Holds al xs
      → exist same al x ≡ ok (any (λ y. same y x) xs)
  unfolding exist
  exist-any {al} x h = exist_from-any al.elem_count 0 x h (omega (arith, h.counted))
