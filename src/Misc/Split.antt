-- ===== src/Misc/Split.antt =====
-- What `remove_trail` and `strsplit` return, and where they fault.
use mathlib.Core.List.{reverse-append, reverse-cons, reverse-reverse}
use thesis_data.Common.{
  ℕ, zero, suc, ◌≡◌, ◌≢◌, ◌⊎◌, inl, inr, refl, ap, sym, ◌∙◌, some, List, [], ◌∷◌, ◌++◌, reverse,
  length, replicate, arith, ◌==◌, ok, fault, out_of_bounds, Returns, Bool-cases, ==→eq,
}
use thesis_data.Misc.{space, before, behind, trim_from, remove_trail, count, pieces, strsplit}

-- The pieces with the separator between them.
unfoldable pub join : ℕ → List (List ℕ) → List ℕ
join c [] = []
join c (p ∷ []) = p
join c (p ∷ q ∷ ps) = p ++ (c ∷ join c (q ∷ ps))

abbrev pub Free : ℕ → List ℕ → Type 0
Free c s = count c s ≡ 0

abbrev pub AllFree : ℕ → List (List ℕ) → Type 0
AllFree c [] = Unit
AllFree c (p ∷ ps) = Free c p × AllFree c ps

before-Free : (c : ℕ) (s : List ℕ) → Free c (before c s)
unfolding before count
before-Free c [] = refl
before-Free c (b ∷ s) = ground (arith, before-Free c s)

uncut : (c : ℕ) (s : List ℕ) → count c s ≡ 0 → before c s ≡ s
unfolding before count
uncut c [] h = refl
uncut c (b ∷ s) h = ground (arith, uncut c s)

cut :
    (c n : ℕ) (s : List ℕ)
    → count c s ≡ suc n
    → (t : List ℕ) × (behind c s ≡ some t) × (count c t ≡ n) × (s ≡ before c s ++ (c ∷ t))
unfolding before behind count
cut c n [] h = absurd (omega arith)
cut c n (b ∷ s) h = elim (Bool-cases (b == c)) [
  | inl e ↦ let same : b ≡ c = ==→eq b c e in (s, rw e refl, ground (arith, e), rw (e, same) refl)
  | inr e ↦
      let (t, p, q, r) = cut c n s (ground (arith, e)) in (t, rw e p, q, rw e (ap (λ u. b ∷ u) r))
]

join_step :
    (c n : ℕ) (p : List ℕ) (ps : List (List ℕ))
    → length ps ≡ suc n
    → join c (p ∷ ps) ≡ p ++ (c ∷ join c ps)
unfolding join
join_step c n p [] h = absurd (omega arith)
join_step c n p (q ∷ ps) h = refl

-- As many turns as there are pieces.
pub pieces-join :
    (n c : ℕ) (s : List ℕ)
    → count c s ≡ n
    → Returns (pieces (suc n) c (some s)) λ ps. (length ps ≡ suc n) × AllFree c ps × (join c ps ≡ s)
unfolding pieces join
pieces-join zero c s h = (before c s ∷ [], refl, (refl, (before-Free c s, tt), uncut c s h))
pieces-join (suc n) c s h =
    let (t, p, q, r) = cut c n s h in
    let (ps, e, (len, free, joined)) = pieces-join n c t q in
    (
      before c s ∷ ps,
      rw (p, e) refl,
      (ap suc len, (before-Free c s, free), join_step c n (before c s) ps len ∙ rw joined (sym r)),
    )

reverse-replicate : (n b : ℕ) → reverse (replicate n b) ≡ replicate n b
reverse-replicate zero b = refl
reverse-replicate (suc n) b =
    reverse-cons b (replicate n b) ∙ rw (reverse-replicate n b) (snoc-replicate n b)
  where
    snoc-replicate : (n b : ℕ) → replicate n b ++ (b ∷ []) ≡ b ∷ replicate n b
    snoc-replicate zero b = refl
    snoc-replicate (suc n) b = ap (λ t. b ∷ t) (snoc-replicate n b)

trim_from-cases :
    (l : List ℕ)
    → ((trim_from l ≡ fault out_of_bounds) × (l ≡ replicate (length l) space))
      ⊎ ((n x : ℕ) × (t : List ℕ) × (trim_from l ≡ ok (reverse (x ∷ t)))
          × (x ≢ space)
          × (l ≡ replicate n space ++ (x ∷ t)))
unfolding trim_from
trim_from-cases [] = inl (refl, refl)
trim_from-cases (b ∷ l) = elim (Bool-cases (b == space)) [
  | inl e ↦
      let same : b ≡ space = ==→eq b space e in
      elim (trim_from-cases l) [
        | inl (p, q) ↦ inl (rw e p, rw same (ap (λ u. space ∷ u) q))
        | inr (n, x, t, p, q, r) ↦ inr (suc n, x, t, rw e p, q, rw same (ap (λ u. space ∷ u) r))
      ]
  | inr e ↦ inr (0, b, l, rw e refl, ground (arith, e), refl)
]

-- `remove_trail` of a line that is not empty reads out of bounds, and then the line has spaces
-- only, or it returns the line without the spaces at its end: the line is the result and spaces,
-- and the result ends in a byte that is not a space.
pub remove_trail-cases :
    (b : ℕ) (s : List ℕ)
    → ((remove_trail (b ∷ s) ≡ fault out_of_bounds) × (n : ℕ) × (b ∷ s ≡ replicate n space))
      ⊎ ((n x : ℕ) × (t : List ℕ) × (remove_trail (b ∷ s) ≡ ok (t ++ (x ∷ [])))
          × (x ≢ space)
          × (b ∷ s ≡ (t ++ (x ∷ [])) ++ replicate n space))
unfolding remove_trail
remove_trail-cases b s = elim (trim_from-cases (reverse (b ∷ s))) [
  | inl (p, q) ↦ inl (
    p,
    length (reverse (b ∷ s)),
    sym (reverse-reverse (b ∷ s))
        ∙ ap reverse q
        ∙ reverse-replicate (length (reverse (b ∷ s))) space,
  )
  | inr (n, x, t, p, q, r) ↦ inr (
    n,
    x,
    reverse t,
    p ∙ ap ok (reverse-cons x t),
    q,
    sym (reverse-reverse (b ∷ s))
        ∙ ap reverse r
        ∙ reverse-append (replicate n space) (x ∷ t)
        ∙ rw (reverse-replicate n space, reverse-cons x t) refl,
  )
]

-- `strsplit` of a line whose spaces at the end are removed without a fault returns pieces that
-- have no separator in them, one more than the line has separators; joined by the separator they
-- are the line without those spaces.
pub strsplit-join :
    (line t : List ℕ) (c : ℕ)
    → remove_trail line ≡ ok t
    → Returns (strsplit line c) λ ps. (length ps ≡ suc (count c t)) × AllFree c ps × (join c ps ≡ t)
unfolding strsplit
strsplit-join line t c e = rw (strsplit, e) (pieces-join (count c t) c t refl)
