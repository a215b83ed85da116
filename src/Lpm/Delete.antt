-- ===== src/Lpm/Delete.antt =====
-- `lpm_delete` takes one entry out of a well-formed tree.
use thesis_data.Common.{
  ℕ, ◌≤◌, ◌<◌, ◌≡◌, inl, inr, refl, ap, ◌∙◌, Bool, true, false, Option, none, some, arith,
  Bool-cases, ok, Returns,
}
use thesis_data.Lpm.{Addr, bit, Tree, empty, node, rejoin, delete_from, delete}
use thesis_data.Lpm.Below.{Agree, IsBelow, IsTree, Has, Has-below}
use thesis_data.Lpm.Longest.{Inside, Inside-bit, Proper, below-Proper}
use thesis_data.Lpm.Insert.{Outside, Entered, enters-cases, is_exact-cases}
use thesis_data.Lpm.Optimize.{IsReal, Settles, optimize-Settles}
use thesis_data.Lpm.Deleted.{
  NoneMatches, Deleted, Deleted-none, Deleted-Settles, Deleted-left, Deleted-right,
  side-NoneMatches, Deleted-here, self_no,
}

-- The head of a tree that was never virtual, and what is below it.
abbrev pub IsHead : Tree → Type 0
IsHead t = IsReal t × IsTree t

module _ (prefix : Addr) (plen : ℕ) (short : plen ≤ 128) where
  Outside-NoneMatches :
      (above : ℕ → Bool) (m : ℕ) (side : Bool) (t : Tree)
      → IsBelow above m side t
      → Outside prefix plen 0 short t
      → NoneMatches prefix plen t
  Outside-NoneMatches above m side empty b out = λ q k x h s. h
  Outside-NoneMatches above m side (node d p n l r) (lt, fits, from, at, bl, br) out =
      λ q k x h (same, a).
        let (le, agree) = shared q k x h in
        elim out [
          | inl long ↦ omega (arith, long, le, same)
          | inr no_ ↦ no_ (λ j v. agree j v ∙ a j (omega (arith, v, le, same)))
        ]
    where
      shared : (q : Addr) (k x : ℕ) → Has (node d p n l r) q k x → (n ≤ k) × Agree (bit p) (bit q) n
      shared q k x (inl (e, same, len)) = (omega (arith, len), λ j v. ap (λ a. bit a j) same)
      shared q k x (inr (inl h)) =
          let (deeper, agree, at2) = Has-below (bit p) n false l q k x bl h in
          (omega (arith, deeper), agree)
      shared q k x (inr (inr h)) =
          let (deeper, agree, at2) = Has-below (bit p) n true r q k x br h in
          (omega (arith, deeper), agree)

  -- A tree that can stand in the place of another, and stays the head where that is the head.
  pub record Stays (t t2 : Tree) : Type 0 where
    pub below :
        (above : ℕ → Bool) (m : ℕ) (side : Bool) → IsBelow above m side t → IsBelow above m side t2
    pub head : 0 < plen → IsHead t → IsHead t2

  Stays-children :
      (d : Option ℕ) (p : Addr) (n : ℕ) (l r l2 r2 : Tree)
      → IsBelow (bit p) n false l2
      → IsBelow (bit p) n true r2
      → Stays (node d p n l r) (node d p n l2 r2)
  Stays-children none p n l r l2 r2 bl br = record {
    below = λ above m side (lt, fits, from, at, ol, or). (lt, fits, from, at, bl, br);
    head = λ lt (real, tree). absurd real;
  }
  Stays-children (some x) p n l r l2 r2 bl br = record {
    below = λ above m side (lt, fits, from, at, ol, or). (lt, fits, from, at, bl, br);
    head = λ lt (real, (zero_, ol, or)). (tt, (zero_, rw zero_ at bl, rw zero_ at br));
  }

  Stays-Settles : (t t2 t3 : Tree) → Stays t t2 → Settles t2 t3 → Stays t t3
  Stays-Settles t t2 t3 u s = record {
    below = λ above m side b. s.below above m side (u.below above m side b);
    head = λ lt h. let (real, tree) = u.head lt h in rw (s.same real) (real, tree);
  }

  abbrev Fits : Tree → Type 0
  Fits empty = Unit
  Fits (node d p n l r) = n ≤ 128

  below-Fits : (above : ℕ → Bool) (m : ℕ) (side : Bool) (t : Tree) → IsBelow above m side t → Fits t
  below-Fits above m side empty b = tt
  below-Fits above m side (node d p n l r) (lt, fits, from, at, bl, br) = fits

  -- A node with new children, after `rejoin` of one of them.
  rejoined :
      (d : Option ℕ) (p : Addr) (n : ℕ) (l r l2 r2 c : Tree) (o : Option ℕ)
      → IsBelow (bit p) n false l2
      → IsBelow (bit p) n true r2
      → Deleted prefix plen (node d p n l r) o (node d p n l2 r2)
      → Returns
          (rejoin c (node d p n l2 r2))
          λ t2. Deleted prefix plen (node d p n l r) o t2 × Stays (node d p n l r) t2
  unfolding rejoin
  rejoined d p n l r l2 r2 (node e q m cl cr) o bl br u =
      (node d p n l2 r2, refl, (u, Stays-children d p n l r l2 r2 bl br))
  rejoined d p n l r l2 r2 empty o bl br u =
      let (t2, run, s) = optimize-Settles (node d p n l2 r2) (bl, br) in
      (
        t2,
        run,
        (
          Deleted-Settles prefix plen (node d p n l r) (node d p n l2 r2) t2 o u s,
          Stays-Settles (node d p n l r) (node d p n l2 r2) t2
              (Stays-children d p n l r l2 r2 bl br) s,
        ),
      )

  here_Stays :
      (d : Option ℕ) (p : Addr) (n : ℕ) (l r t2 : Tree)
      → n ≡ plen
      → Settles (node none p n l r) t2
      → Stays (node d p n l r) t2
  here_Stays d p n l r t2 e s = record {
    below = λ above m side b. s.below above m side b;
    head = λ lt (real, (zero_, ol, or)). absurd (omega (arith, lt, e, zero_));
  }

  delete_from-Deleted :
      (t : Tree)
      → Proper t
      → Fits t
      → Inside t prefix
      → Returns (delete_from prefix plen t) λ (o, t2). Deleted prefix plen t o t2 × Stays t t2
  unfolding delete_from
  delete_from-Deleted empty proper fits inside = absurd inside
  delete_from-Deleted (node d p n l r) (bl, br) fits agree =
      let t : Tree = node d p n l r in
      let (b, run, (exact, virtual)) = is_exact-cases prefix plen 0 short d p n fits agree in
      let (in_l, run_l, (entered_l, outside_l)) =
        enters-cases prefix plen 0 short (bit p) n false l bl agree in
      let (in_r, run_r, (entered_r, outside_r)) =
        enters-cases prefix plen 0 short (bit p) n true r br agree in
      elim (Bool-cases b) [
        | inl e ↦
            let (t2, run2, s) = optimize-Settles (node none p n l r) (bl, br) in
            (
              (d, t2),
              rw (delete_from, run, e, run2) refl,
              (
                Deleted-Settles prefix plen t (node none p n l r) t2 d
                    (Deleted-here prefix plen d p n l r (exact e) agree bl br) s,
                here_Stays d p n l r t2 (exact e) s,
              ),
            )
        | inr e ↦ elim (Bool-cases in_l) [
          | inl f ↦
              let inside : Inside l prefix = Entered-Inside l (entered_l f) in
              let ((o, l2), run2, (u, stays)) =
                delete_from-Deleted l (below-Proper (bit p) n false l bl)
                  (below-Fits (bit p) n false l bl) inside in
              let no_r : NoneMatches prefix plen r =
                side-NoneMatches prefix plen (bit p) true r n br
                  (Inside-bit (bit p) n false l prefix bl inside) in
              let (t2, run3, result) =
                rejoined d p n l r l2 r l2 o (stays.below (bit p) n false bl) br
                  (Deleted-left prefix plen d p n (virtual e) l l2 r o u no_r) in
              ((o, t2), rw (delete_from, run, e, run_l, f, run2, run3) refl, result)
          | inr f ↦
              let no_l : NoneMatches prefix plen l =
                Outside-NoneMatches (bit p) n false l bl (outside_l f) in
              elim (Bool-cases in_r) [
                | inl g ↦
                    let inside : Inside r prefix = Entered-Inside r (entered_r g) in
                    let ((o, r2), run2, (u, stays)) =
                      delete_from-Deleted r (below-Proper (bit p) n true r br)
                        (below-Fits (bit p) n true r br) inside in
                    let (t2, run3, result) =
                      rejoined d p n l r l r2 r2 o bl (stays.below (bit p) n true br)
                        (Deleted-right prefix plen d p n (virtual e) l r r2 o u no_l) in
                    ((o, t2), rw (delete_from, run, e, run_l, f, run_r, g, run2, run3) refl, result)
                | inr g ↦
                    let no_r : NoneMatches prefix plen r =
                      Outside-NoneMatches (bit p) n true r br (outside_r g) in
                    (
                      (none, t),
                      rw (delete_from, run, e, run_l, f, run_r, g) refl,
                      (
                        Deleted-none prefix plen t
                            (node_NoneMatches d p n l r (virtual e) no_l no_r),
                        Stays-children d p n l r l r bl br,
                      ),
                    )
              ]
        ]
      ]
    where
      Entered-Inside : (c : Tree) → Entered prefix plen 0 short c → Inside c prefix
      Entered-Inside empty h = h
      Entered-Inside (node d p n l r) (le, agree) = agree

      node_NoneMatches :
          (d : Option ℕ) (p : Addr) (n : ℕ) (l r : Tree)
          → (n ≡ plen → d ≡ none)
          → NoneMatches prefix plen l
          → NoneMatches prefix plen r
          → NoneMatches prefix plen (node d p n l r)
      node_NoneMatches d p n l r virtual no_l no_r = λ q k x h m. elim h [
        | inl (e, same, len) ↦ self_no prefix plen d p n virtual q k x e len m
        | inr (inl h') ↦ no_l q k x h' m
        | inr (inr h') ↦ no_r q k x h' m
      ]

-- The pointer that is returned: a null pointer is 0.
abbrev pub or_null : Option ℕ → ℕ
or_null none = 0
or_null (some x) = x

-- On a well-formed tree whose head is not virtual, and for a prefix of 1 to 128 bits, `lpm_delete`
-- ends without a fault. The tree is again well formed, with a head that is not virtual. It has no
-- entry of the prefix, and exactly the other entries of before. What is returned is the payload of
-- the entry of the prefix, and a null pointer where there was none.
pub delete-Deleted :
    (prefix : Addr) (plen : ℕ) (t : Tree)
    → plen ≤ 128
    → 0 < plen
    → IsHead t
    → Returns
        (delete prefix plen t)
        λ (y, t2). IsHead t2 × ((o : Option ℕ) × (y ≡ or_null o) × Deleted prefix plen t o t2)
unfolding delete
delete-Deleted prefix plen empty short long (real, tree) = absurd real
delete-Deleted prefix plen (node d p n l r) short long (real, (zero_, bl, br)) =
    let t : Tree = node d p n l r in
    let covers : Inside t prefix = λ k v. absurd (omega (arith, v, zero_)) in
    let ((o, t2), run, (u, stays)) =
      delete_from-Deleted prefix plen short t (rw zero_ (bl, br)) (omega (arith, zero_)) covers in
    finish o t2 run u (stays.head long (real, (zero_, bl, br)))
  where
    finish :
        (o : Option ℕ) (t2 : Tree)
        → delete_from prefix plen (node d p n l r) ≡ ok (o, t2)
        → Deleted prefix plen (node d p n l r) o t2
        → IsHead t2
        → Returns (delete prefix plen (node d p n l r)) λ (y, t3).
          IsHead t3 × ((o : Option ℕ) × (y ≡ or_null o) × Deleted prefix plen (node d p n l r) o t3)
    finish o empty run u (r2, h) = absurd r2
    finish none (node e q m cl cr) run u h =
        ((0, node e q m cl cr), rw (delete, run) refl, (h, (none, refl, u)))
    finish (some y) (node e q m cl cr) run u h =
        ((y, node e q m cl cr), rw (delete, run) refl, (h, (some y, refl, u)))
