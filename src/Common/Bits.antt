-- ===== src/Common/Bits.antt =====
-- `x & (size - 1)` at a size that is a power of two.
use Prim.Native.Nat.{
  ℕ, zero, suc, ◌+◌, ◌-◌, ◌*◌, ◌/◌, ◌%◌, ◌^◌, ◌≤◌, ◌<◌, min, bit_and, digits, bit_and-bitwise,
}
use mathlib.Core.Path.{◌≡◌, sym, ap, ◌∙◌}
use native.Mathlib.Nat.{
  pow-suc, pow-zero, zero-mod, mod-lt, mod-eq_of_lt, div-add-mod, mul-add-mod_self_right,
  one-le-pow, le_refl,
}
use native.Mathlib.Omega.{arith}

double-mod : (p x : ℕ) → 0 < p → x % (p * 2) ≡ x / 2 % p * 2 + x % 2
double-mod p x h =
    ap (λ t. t % (p * 2)) split
    ∙ mul-add-mod_self_right (x / 2 / p) (p * 2) (x / 2 % p * 2 + x % 2)
    ∙ mod-eq_of_lt (omega (arith, mod-lt (x / 2) h))
  where
    split : x ≡ x / 2 / p * (p * 2) + (x / 2 % p * 2 + x % 2)
    split = omega (arith, div-add-mod (x / 2) p)

-- The digits in common with a mask of `k` ones, for any count of digits that is large enough. The
-- mask is given by its successor.
mask_digits :
    (rounds k x ones : ℕ)
    → x ≤ rounds
    → suc ones ≡ 2 ^ k
    → digits (λ y. zero) min rounds x ones ≡ x % 2 ^ k
mask_digits zero k zero ones bound e = sym (zero-mod (2 ^ k))
mask_digits zero k (suc x) ones bound e = absurd (omega arith)
mask_digits (suc rounds) k zero ones bound e = sym (zero-mod (2 ^ k))
mask_digits (suc rounds) zero (suc x) ones bound e =
    let half : suc (ones / 2) ≡ 2 ^ 0 = omega (arith, pow-zero 2) in
    omega (arith, pow-zero 2, mask_digits rounds 0 (suc x / 2) (ones / 2) (omega arith) half)
mask_digits (suc rounds) (suc k) (suc x) ones bound e =
    let half : suc (ones / 2) ≡ 2 ^ k = omega (arith, pow-suc 2 k) in
    rw pow-suc (
      omega (
        arith,
        pow-suc 2 k,
        mask_digits rounds k (suc x / 2) (ones / 2) (omega arith) half,
        double-mod (2 ^ k) (suc x) (one-le-pow k 2 (omega arith)),
      ))

-- Masking with one less than a power of two is the remainder.
pub bit_and_mask : (k x : ℕ) → bit_and x (2 ^ k - 1) ≡ x % 2 ^ k
bit_and_mask k x =
    bit_and-bitwise x (2 ^ k - 1)
    ∙ mask_digits x k x (2 ^ k - 1) (le_refl x) (omega (arith, one-le-pow k 2 (omega arith)))
