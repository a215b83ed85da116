-- ===== src/Lpm/Parting.antt =====
-- `common_prefix_len`: where two addresses part.
use thesis_data.Common.{
  ℕ, zero, suc, ◌+◌, ◌≤◌, ◌<◌, ◌≡◌, inl, inr, refl, sym, Bool, true, false, not, ◌==◌, arith,
  Bool-cases, ==→eq,
}
use thesis_data.Lpm.{Addr, bit, same_char, common_from, common_prefix_len}
use thesis_data.Lpm.Below.{Agree}

same_char-true : (a b : Bool) → same_char a b ≡ true → a ≡ b
same_char-true true b h = sym h
same_char-true false true h = absurd cc
same_char-true false false h = refl

same_char-false : (a b : Bool) → same_char a b ≡ false → a ≡ not b
same_char-false true true h = absurd cc
same_char-false true false h = refl
same_char-false false true h = refl
same_char-false false false h = absurd cc

pub Agree-at : (p a : ℕ → Bool) (m k : ℕ) → Agree p a m → p m ≡ a m → k ≤ m → p k ≡ a k
Agree-at p a m k agree at le = elim (Bool-cases (k == m)) [
  | inl e ↦ rw (==→eq k m e) at
  | inr e ↦ agree k (ground (arith, le, e))
]

-- Where two addresses stop agreeing.
abbrev pub Common : (ℕ → Bool) → (ℕ → Bool) → ℕ → ℕ → Type 0
Common p1 p2 maxplen n = (n ≤ maxplen) × Agree p1 p2 n × (n < maxplen → p1 n ≡ not (p2 n))

common_from-Common :
    (p1 p2 : ℕ → Bool) (i n : ℕ) → Agree p1 p2 i → Common p1 p2 (i + n) (common_from p1 p2 i n)
unfolding common_from
common_from-Common p1 p2 i zero agree = (omega arith, agree, λ h. absurd (omega (arith, h)))
common_from-Common p1 p2 i (suc n) agree = elim (Bool-cases (same_char (p1 i) (p2 i))) [
  | inr e ↦ rw (common_from, e) (omega arith, agree, λ h. same_char-false (p1 i) (p2 i) e)
  | inl e ↦
      let more : Agree p1 p2 (suc i) = λ k v. elim (Bool-cases (k == i)) [
        | inl q ↦ rw (==→eq k i q) (same_char-true (p1 i) (p2 i) e)
        | inr q ↦ agree k (ground (arith, v, q))
      ] in
      let (le, a, differs) = common_from-Common p1 p2 (suc i) n more in
      rw (common_from, e) (omega (arith, le), a, λ h. differs (omega (arith, h)))
]

pub common_prefix_len-Common :
    (p1 p2 : Addr) (maxplen : ℕ)
    → Common (bit p1) (bit p2) maxplen (common_prefix_len p1 p2 maxplen)
unfolding common_prefix_len
common_prefix_len-Common p1 p2 maxplen =
    let (le, a, differs) =
      common_from-Common (bit p1) (bit p2) 0 maxplen (λ k v. absurd (omega (arith, v))) in
    (omega (arith, le), a, λ h. differs (omega (arith, h)))
