-- ===== src/ArrayList/Slots.antt =====
-- What a move of slots does to a buffer that is cut where the move starts and ends.
use native.Mathlib.Nat.{suc-add, zero-add}
use thesis_data.Common.{
  ℕ, zero, suc, ◌+◌, ◌≤◌, ◌≡◌, refl, ap, List, [], ◌∷◌, ◌++◌, length, set, take, drop, arith,
  take-append_length,
}

module _ {ℓ} {S : Type ℓ} where
  drop-suc_append : (bs js : List S) (j : S) → drop (suc (length bs)) (bs ++ (j ∷ js)) ≡ js
  drop-suc_append [] js j = refl
  drop-suc_append (b ∷ bs) js j = drop-suc_append bs js j

  drop-append_of_le : (n : ℕ) (xs ys : List S) → n ≤ length xs → drop n (xs ++ ys) ≡ drop n xs ++ ys
  drop-append_of_le zero xs ys h = refl
  drop-append_of_le (suc n) [] ys h = absurd (omega arith)
  drop-append_of_le (suc n) (x ∷ xs) ys h = drop-append_of_le n xs ys (omega arith)

  -- Opening a gap at the end of `ps` and writing into it.
  pub open_gap :
      (ps bs js : List S) (j v : S)
      → let s : List S = ps ++ (bs ++ (j ∷ js)) in
        set
          (take (suc (length ps)) s
            ++ (take (length bs) (drop (length ps) s) ++ drop (suc (length ps) + length bs) s))
          (length ps)
          v
        ≡ ps ++ (v ∷ (bs ++ js))
  open_gap [] [] js j v = refl
  open_gap [] (b ∷ bs) js j v =
      let e : 1 + suc (length bs) ≡ suc (suc (length bs)) = omega arith in
      rw (e, take-append_length) (ap (λ t. v ∷ b ∷ (bs ++ t)) (drop-suc_append bs js j))
  open_gap (a ∷ ps) bs js j v = rw suc-add (ap (λ t. a ∷ t) (open_gap ps bs js j v))

  -- Closing the gap that the element behind `ps` leaves.
  pub close_gap :
      (ps bs js : List S) (x : S)
      → let s : List S = ps ++ (x ∷ (bs ++ js)) in
        take (length ps) s
          ++ (take (length bs) (drop (suc (length ps)) s) ++ drop (length ps + length bs) s)
        ≡ ps ++ (bs ++ (drop (length bs) (x ∷ bs) ++ js))
  close_gap [] bs js x =
      rw (zero-add, take-append_length, drop-append_of_le (length bs) (x ∷ bs) js (omega arith))
  close_gap (a ∷ ps) bs js x = rw suc-add (ap (λ t. a ∷ t) (close_gap ps bs js x))
