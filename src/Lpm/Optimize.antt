-- ===== src/Lpm/Optimize.antt =====
-- `optimize_virtual` keeps the entries of a well-formed tree.
use thesis_data.Common.{
  ℕ, ◌<◌, ◌≡◌, inl, inr, refl, sym, ◌∙◌, Bool, true, false, none, some, ltb, leb, ◌==◌,
  if◌then◌else◌, arith, Bool-cases, ok, Returns,
}
use thesis_data.Lpm.{Addr, bit, Tree, empty, node, common_prefix_len, optimize_plen, optimize}
use thesis_data.Lpm.Below.{Agree, IsBelow, Has, not_fixed}
use thesis_data.Lpm.Longest.{Proper, below-Proper}
use thesis_data.Lpm.Parting.{common_prefix_len-Common}

abbrev pub IsReal : Tree → Type 0
IsReal empty = ⊥
IsReal (node none p n l r) = ⊥
IsReal (node (some x) p n l r) = Unit

-- A tree with the same entries, that can stand in the place of the other.
pub record Settles (t t2 : Tree) : Type 0 where
  pub only : (q : Addr) (k x : ℕ) → Has t2 q k x → Has t q k x
  pub kept : (q : Addr) (k x : ℕ) → Has t q k x → Has t2 q k x
  pub below :
      (above : ℕ → Bool) (m : ℕ) (side : Bool) → IsBelow above m side t → IsBelow above m side t2
  pub same : IsReal t → t2 ≡ t

pub Settles-refl : (t : Tree) → Settles t t
Settles-refl t = record {
  only = λ q k x h. h;
  kept = λ q k x h. h;
  below = λ above m side b. b;
  same = λ h. refl;
}

-- A child in the place of its parent.
child-IsBelow :
    (above : ℕ → Bool) (m n : ℕ) (side side2 : Bool) (p : Addr) (t : Tree)
    → m < n
    → Agree above (bit p) m
    → bit p m ≡ side
    → IsBelow (bit p) n side2 t
    → IsBelow above m side t
child-IsBelow above m n side side2 p empty lt agree at b = tt
child-IsBelow above m n side side2 p (node d q k l r) lt agree at (lt2, fits, from, at2, bl, br) = (
  omega (arith, lt, lt2),
  fits,
  (λ j v. agree j v ∙ from j (omega (arith, v, lt))),
  sym (from m lt) ∙ at,
  bl,
  br,
)

-- The prefixes of two children agree up to the bit where they part.
optimize_plen-same :
    (p : Addr) (n : ℕ) (l r : Tree)
    → IsBelow (bit p) n false l
    → IsBelow (bit p) n true r
    → optimize_plen p n l r ≡ ok (node none p n l r)
unfolding optimize_plen
optimize_plen-same p n empty r bl br = refl
optimize_plen-same p n (node d q k ll lr) empty bl br = refl
optimize_plen-same p n (node d q k ll lr) (node e s j rl rr) (lt, fits, from, at, bll, blr)
      (lt2, fits2, from2, at2, brl, brr) =
    let minplen : ℕ = if ltb k j then k else j in
    let cplen : ℕ = common_prefix_len q s minplen in
    let (le, agree, differs) = common_prefix_len-Common q s minplen in
    let room : n < minplen = elim (Bool-cases (ltb k j)) [ inl h ↦ rw h lt | inr h ↦ rw h lt2 ] in
    let equal : cplen ≡ n = elim (Bool-cases (leb cplen n)) [
      | inr h ↦
          let past : n < cplen = ground (arith, h) in
          absurd (not_fixed false (sym at ∙ agree n past ∙ at2))
      | inl h ↦ elim (Bool-cases (ltb cplen n)) [
        | inr h2 ↦ ground (arith, h, h2)
        | inl h2 ↦
            let before : cplen < n = ground (arith, h2) in
            absurd (
              not_fixed (bit s cplen) (
                sym (sym (from cplen before) ∙ from2 cplen before)
                ∙ differs (omega (arith, before, room))))
      ]
    ] in
    let a : leb n cplen ≡ true = ground (arith, equal) in
    let b : (cplen == n) ≡ true = ground (arith, equal) in rw (optimize_plen, a, b) refl

pub optimize-Settles : (t : Tree) → Proper t → Returns (optimize t) (Settles t)
unfolding optimize
optimize-Settles empty b = (empty, refl, Settles-refl empty)
optimize-Settles (node (some x) p n l r) b =
    (node (some x) p n l r, refl, Settles-refl (node (some x) p n l r))
optimize-Settles (node none p n empty empty) b = (
  empty,
  refl,
  record {
    only = λ q k x h. absurd h;
    kept = λ q k x h. elim h [
      | inl (e, same, len) ↦ absurd cc
      | inr (inl h') ↦ absurd h'
      | inr (inr h') ↦ absurd h'
    ];
    below = λ above m side b. tt;
    same = λ h. absurd h;
  },
)
optimize-Settles (node none p n empty (node e q m rl rr)) (bl, br) =
    let (t2, run, s) =
      optimize-Settles (node e q m rl rr) (below-Proper (bit p) n true (node e q m rl rr) br) in
    (
      t2,
      run,
      record {
        only = λ q k x h. inr (inr (s.only q k x h));
        kept = λ q k x h. elim h [
          | inl (e, same, len) ↦ absurd cc
          | inr (inl h') ↦ absurd h'
          | inr (inr h') ↦ s.kept q k x h'
        ];
        below = λ above m2 side (lt, fits, from, at, bl, br).
            s.below above m2 side
              (child-IsBelow above m2 n side true p (node e q m rl rr) lt from at br);
        same = λ h. absurd h;
      },
    )
optimize-Settles (node none p n (node d q m ll lr) empty) (bl, br) =
    let (t2, run, s) =
      optimize-Settles (node d q m ll lr) (below-Proper (bit p) n false (node d q m ll lr) bl) in
    (
      t2,
      run,
      record {
        only = λ q k x h. inr (inl (s.only q k x h));
        kept = λ q k x h. elim h [
          | inl (e, same, len) ↦ absurd cc
          | inr (inl h') ↦ s.kept q k x h'
          | inr (inr h') ↦ absurd h'
        ];
        below = λ above m2 side (lt, fits, from, at, bl, br).
            s.below above m2 side
              (child-IsBelow above m2 n side false p (node d q m ll lr) lt from at bl);
        same = λ h. absurd h;
      },
    )
optimize-Settles (node none p n (node d q m ll lr) (node e s k rl rr)) (bl, br) = (
  node none p n (node d q m ll lr) (node e s k rl rr),
  optimize_plen-same p n (node d q m ll lr) (node e s k rl rr) bl br,
  Settles-refl (node none p n (node d q m ll lr) (node e s k rl rr)),
)
