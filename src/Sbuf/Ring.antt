-- ===== src/Sbuf/Ring.antt =====
-- The window of the ring between the two counters.
use native.Mathlib.Nat.{
  div-add-mod, mul-le-mul_left, mod-mod_of_dvd, dvd-mul_right_of_dvd, dvd_refl, pow-suc,
}
use Prim.Native.Nat.{◌∣◌}
use thesis_data.Common.Bits.{bit_and_mask}
use thesis_data.Common.{
  ℕ, zero, suc, ◌+◌, ◌-◌, ◌/◌, ◌%◌, ◌^◌, ◌≤◌, ◌<◌, ◌≡◌, ◌≢◌, refl, ap, sym, ◌∙◌, Option, some, List,
  [], ◌∷◌, ◌++◌, length, get_elem?, set, arith, dec_lt,
}
use thesis_data.HashMap.Models.{get_elem?-set}
use Prim.Native.Nat.{bit_and}
use thesis_data.Sbuf.{ulong_mod}

-- Positions of a window of at most `c` slots lie at distinct indices.
pub mod_ne : (c i j : ℕ) → i < j → j < i + c → i % c ≢ j % c
mod_ne c i j lo hi e = elim (dec_lt (i / c) (j / c)) [
  | yes p ↦ omega (arith, mul-le-mul_left c p, div-add-mod i c, div-add-mod j c, e)
  | no p ↦
      let q : j / c ≤ i / c = omega arith in
      omega (arith, mul-le-mul_left c q, div-add-mod i c, div-add-mod j c, e)
]

pow-dvd_add : (d bits n : ℕ) → n ≡ d + bits → 2 ^ bits ∣ 2 ^ n
pow-dvd_add zero bits n e = let same : n ≡ bits = omega arith in rw same (dvd_refl (2 ^ bits))
pow-dvd_add (suc d) bits n e =
    let next : n ≡ suc (d + bits) = omega arith in
    rw (next, pow-suc) (dvd-mul_right_of_dvd (2 ^ bits) (pow-dvd_add d bits (d + bits) refl) 2)

-- A counter modulo 2 ^ 64, masked, is the unbounded position modulo the capacity.
pub mask-mod : (bits r : ℕ) → bits ≤ 64 → bit_and (r % ulong_mod) (2 ^ bits - 1) ≡ r % 2 ^ bits
mask-mod bits r h =
    bit_and_mask bits (r % ulong_mod)
    ∙ mod-mod_of_dvd (2 ^ bits) r (pow-dvd_add (64 - bits) bits 64 (omega arith))

module _ {A : Type 0} where
  -- The slots at the positions from `r` on hold the elements.
  unfoldable pub Window : List (Option A) → ℕ → ℕ → List A → Type 0
  Window slots c r [] = Unit
  Window slots c r (x ∷ xs) = (get_elem? slots (r % c) ≡ some (some x)) × Window slots c (suc r) xs

  -- A write at a position behind the window.
  pub Window-set :
      (slots : List (Option A)) (c : ℕ) (p r : ℕ) (xs : List A) (v : Option A)
      → p % c < length slots
      → r + length xs ≤ p
      → p < r + c
      → Window slots c r xs
      → Window (set slots (p % c) v) c r xs
  unfolding Window
  Window-set slots c p r [] v inside behind near w = tt
  Window-set slots c p r (x ∷ xs) v inside behind near (e, w) =
      let ne : p % c ≢ r % c = λ q. mod_ne c r p (omega arith) near (sym q) in
      (
        ground (arith, get_elem?-set slots (p % c) (r % c) v inside, e, ne),
        Window-set slots c p (suc r) xs v inside (omega arith) (omega arith) w,
      )

  pub Window-snoc :
      (slots : List (Option A)) (c : ℕ) (r : ℕ) (xs : List A) (v : A)
      → Window slots c r xs
      → get_elem? slots ((r + length xs) % c) ≡ some (some v)
      → Window slots c r (xs ++ (v ∷ []))
  unfolding Window
  Window-snoc slots c r [] v w e =
      let next : r ≡ r + 0 = omega arith in (ap (λ t. get_elem? slots (t % c)) next ∙ e, tt)
  Window-snoc slots c r (x ∷ xs) v (h, w) e =
      let next : suc r + length xs ≡ r + suc (length xs) = omega arith in
      (h, Window-snoc slots c (suc r) xs v w (ap (λ t. get_elem? slots (t % c)) next ∙ e))
