-- ===== src/Lpm/Below.antt =====
-- When a trie of prefixes is well formed, and what `match_node` then says.
use thesis_data.Common.{
  ℕ, zero, suc, ◌+◌, ◌-◌, ◌≤◌, ◌<◌, ◌≡◌, ◌⊎◌, inl, inr, refl, ap, sym, ◌∙◌, Bool, true, false, not,
  some, leb, ◌==◌, arith, Bool-cases, Returns,
}
use thesis_data.Lpm.{Addr, bit, Tree, empty, node, same_char, same_bits, match_node}

-- Two addresses have the same first bits.
abbrev pub Agree : (ℕ → Bool) → (ℕ → Bool) → ℕ → Type 0
Agree p a n = (k : ℕ) → k < n → p k ≡ a k

-- A child of a node with a prefix of a given length, on the side of a bit: prefixes get longer,
-- and go on from those above them.
abbrev pub IsBelow : (ℕ → Bool) → ℕ → Bool → Tree → Type 0
IsBelow above m side empty = Unit
IsBelow above m side (node d p n l r) =
    (m < n)
    × (n ≤ 128)
    × Agree above (bit p) m
    × (bit p m ≡ side)
    × IsBelow (bit p) n false l
    × IsBelow (bit p) n true r

-- The whole tree: its head has the empty prefix.
abbrev pub IsTree : Tree → Type 0
IsTree empty = ⊥
IsTree (node d p n l r) = (n ≡ 0) × IsBelow (bit p) 0 false l × IsBelow (bit p) 0 true r

-- The tree has an entry: a prefix, its length and its payload.
abbrev pub Has : Tree → Addr → ℕ → ℕ → Type 0
Has empty q k x = ⊥
Has (node d p n l r) q k x = ((d ≡ some x) × (p ≡ q) × (n ≡ k)) ⊎ Has l q k x ⊎ Has r q k x

same_char_iff : (a b : Bool) → (same_char a b ≡ true → a ≡ b) × (same_char a b ≡ false → a ≡ not b)
same_char_iff true true = (λ h. refl, λ h. absurd cc)
same_char_iff true false = (λ h. absurd cc, λ h. refl)
same_char_iff false true = (λ h. absurd cc, λ h. refl)
same_char_iff false false = (λ h. refl, λ h. absurd cc)

pub not_fixed : (b : Bool) → b ≡ not b → ⊥
not_fixed true h = cc
not_fixed false h = cc

same_bits-true :
    (p a : ℕ → Bool) (k n : ℕ) → same_bits p a k n ≡ true → (j : ℕ) → k ≤ j → j < k + n → p j ≡ a j
unfolding same_bits
same_bits-true p a k zero h j u v = absurd (omega arith)
same_bits-true p a k (suc n) h j u v = elim (Bool-cases (same_char (p k) (a k))) [
  | inr e ↦ let no : same_bits p a k (suc n) ≡ false = rw (same_bits, e) refl in absurd cc
  | inl e ↦
      let rest : same_bits p a (suc k) n ≡ true = rw (same_bits, e) at h in
      elim (Bool-cases (k == j)) [
        | inl q ↦
            let same : k ≡ j = ground (arith, q) in rw (sym same) ((same_char_iff (p k) (a k)).0 e)
        | inr q ↦ same_bits-true p a (suc k) n rest j (ground (arith, u, q)) (omega (arith, v))
      ]
]

-- Where the characters differ, one of them does.
same_bits-false :
    (p a : ℕ → Bool) (k n : ℕ)
    → same_bits p a k n ≡ false
    → (j : ℕ) × (j < k + n) × (p j ≡ not (a j))
unfolding same_bits
same_bits-false p a k zero h = absurd cc
same_bits-false p a k (suc n) h = elim (Bool-cases (same_char (p k) (a k))) [
  | inr e ↦ (k, omega arith, (same_char_iff (p k) (a k)).1 e)
  | inl e ↦
      let rest : same_bits p a (suc k) n ≡ false = rw (same_bits, e) at h in
      let (j, v, d) = same_bits-false p a (suc k) n rest in (j, omega (arith, v), d)
]

-- `match_node` from where the bits are known to agree: it answers whether they agree up to the
-- length of the prefix.
abbrev pub Decides : (ℕ → Bool) → (ℕ → Bool) → ℕ → Bool → Type 0
Decides p a n b = (b ≡ true → Agree p a n) × (b ≡ false → Agree p a n → ⊥)

pub match_node-Decides :
    (p : Addr) (n : ℕ) (a : Addr) (m : ℕ)
    → m ≤ n
    → n ≤ 128
    → Agree (bit p) (bit a) m
    → Returns (match_node p n a m) (Decides (bit p) (bit a) n)
unfolding match_node
match_node-Decides p n a m le short agree = elim (Bool-cases (n == 0)) [
  | inl e ↦
      (true, rw (match_node, e) refl, (λ h k v. absurd (ground (arith, v, e)), λ h. absurd cc))
  | inr e ↦
      let b : Bool = same_bits (bit p) (bit a) m (n - m) in
      let fits : leb m n ≡ true = ground (arith, le) in
      let fits' : leb n 129 ≡ true = ground (arith, short) in
      (
        b,
        rw (match_node, e, fits, fits') refl,
        (
          λ h k v. elim (Bool-cases (leb m k)) [
            | inl u ↦
                same_bits-true (bit p) (bit a) m (n - m) h k (ground (arith, u))
                  (omega (arith, le, v))
            | inr u ↦ agree k (ground (arith, u))
          ],
          λ h all.
              let (j, v, d) = same_bits-false (bit p) (bit a) m (n - m) h in
              not_fixed (bit a j) (sym (all j (omega (arith, le, v))) ∙ d),
        ),
      )
]

-- What the entries below a node have in common.
pub Has-below :
    (above : ℕ → Bool) (m : ℕ) (side : Bool) (t : Tree) (q : Addr) (k x : ℕ)
    → IsBelow above m side t
    → Has t q k x
    → (m < k) × Agree above (bit q) m × (bit q m ≡ side)
Has-below above m side empty q k x b h = absurd h
Has-below above m side (node d p n l r) q k x (lt, short, agree, at, bl, br) (inl (e, same, len)) =
    (
      omega (arith, lt, len),
      λ j v. agree j v ∙ ap (λ s. bit s j) same,
      ap (λ s. bit s m) (sym same) ∙ at,
    )
Has-below above m side (node d p n l r) q k x (lt, short, agree, at, bl, br) (inr (inl h)) =
    let (lt', agree', at') = Has-below (bit p) n false l q k x bl h in
    (
      omega (arith, lt, lt'),
      λ j v. agree j v ∙ agree' j (omega (arith, v, lt)),
      sym (agree' m lt) ∙ at,
    )
Has-below above m side (node d p n l r) q k x (lt, short, agree, at, bl, br) (inr (inr h)) =
    let (lt', agree', at') = Has-below (bit p) n true r q k x br h in
    (
      omega (arith, lt, lt'),
      λ j v. agree j v ∙ agree' j (omega (arith, v, lt)),
      sym (agree' m lt) ∙ at,
    )
