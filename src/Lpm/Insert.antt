-- ===== src/Lpm/Insert.antt =====
-- `lpm_insert` keeps a trie well formed, and adds or replaces one entry.
use thesis_data.Common.{
  ℕ, ◌≤◌, ◌<◌, ◌≡◌, ◌⊎◌, inl, inr, refl, ap, sym, ◌∙◌, Bool, true, false, not, Option, none, some,
  ltb, leb, ◌==◌, arith, Bool-cases, Option-cases, ==→eq, Returns,
}
use thesis_data.Lpm.{
  Addr, bit, Tree, empty, node, match_child, common_prefix_len, with_children, replace_child,
  is_within, enters, insert_at, is_exact, insert,
}
use thesis_data.Lpm.Below.{Agree, IsBelow, IsTree, match_node-Decides, not_fixed}
use thesis_data.Lpm.Updated.{
  Continues, Updated, leaf, Updated-left, Updated-right, Updated-here, Updated-leaf,
  Updated-in_place, Updated-virtual, leaf-IsBelow, in_place-IsBelow, virtual-IsBelow,
}
use thesis_data.Lpm.Parting.{Agree-at, common_prefix_len-Common}

module _ (prefix : Addr) (plen payload : ℕ) (short : plen ≤ 128) where
  -- The child is not gone down to: its prefix is too long, or not a prefix of the address.
  abbrev pub Outside : Tree → Type 0
  Outside empty = Unit
  Outside (node d p n l r) = (plen < n) ⊎ (Agree (bit p) (bit prefix) n → ⊥)

  -- The child is gone down to.
  abbrev pub Entered : Tree → Type 0
  Entered empty = ⊥
  Entered (node d p n l r) = (n ≤ plen) × Agree (bit p) (bit prefix) n

  -- What stands in place of the child is in its place, and has one entry more.
  replace_child-IsBelow :
      (above : ℕ → Bool) (m : ℕ) (c : Tree)
      → m < plen
      → Agree above (bit prefix) m
      → IsBelow above m (bit prefix m) c
      → Outside c
      → Continues prefix plen payload c
      → Returns
          (replace_child prefix plen payload c)
          λ c2. IsBelow above m (bit prefix m) c2 × Updated prefix plen payload c c2
  unfolding replace_child
  replace_child-IsBelow above m empty long agree b out go = (
    leaf prefix plen payload,
    refl,
    (leaf-IsBelow prefix plen payload above m long short agree, Updated-leaf prefix plen payload),
  )
  replace_child-IsBelow above m (node d p n l r) long agree (lt, fits, from, at, bl, br) out go =
      let c : Tree = node d p n l r in
      let cplen : ℕ = common_prefix_len p prefix plen in
      let (le, same, differs) = common_prefix_len-Common p prefix plen in
      let past : m < cplen = elim (Bool-cases (leb cplen m)) [
        | inr e ↦ ground (arith, e)
        | inl e ↦
            let low : cplen ≤ m = ground (arith, e) in
            let d' : bit p cplen ≡ not (bit prefix cplen) = differs (omega (arith, low, long)) in
            absurd (
              not_fixed (bit prefix cplen) (
                sym
                  (Agree-at (bit p) (bit prefix) m cplen (λ k v. sym (from k v) ∙ agree k v) at low)
                ∙ d'))
      ] in
      let shorter : cplen < n = elim (Bool-cases (ltb cplen n)) [
        | inl e ↦ ground (arith, e)
        | inr e ↦
            let low : n ≤ cplen = ground (arith, e) in
            absurd (elim out [
              | inl h ↦ omega (arith, h, low, le)
              | inr h ↦ h (λ k v. same k (omega (arith, v, low)))
            ])
      ] in
      let some_ : ltb 0 cplen ≡ true = ground (arith, past) in
      elim (Bool-cases (cplen == plen)) [
        | inl e ↦
            let whole : cplen ≡ plen = ==→eq cplen plen e in
            let below : IsBelow (bit prefix) plen (bit prefix cplen) c = (
              omega (arith, shorter, whole),
              fits,
              (λ k v. sym (same k (omega (arith, v, whole)))),
              go p n (inl (refl, refl)) (λ k v. same k (omega (arith, v, whole)))
                    (omega (arith, shorter, whole))
                  ∙ ap (bit prefix) (sym whole),
              bl,
              br,
            ) in
            (
              with_children (some payload) prefix plen (bit prefix cplen) c empty,
              rw (replace_child, some_, e) refl,
              (
                in_place-IsBelow prefix plen payload above m long short agree (bit prefix cplen) c
                    below,
                Updated-in_place prefix plen payload (bit prefix cplen) c,
              ),
            )
        | inr e ↦
            let part : cplen < plen = ground (arith, e, le) in
            let part_ : ltb cplen plen ≡ true = ground (arith, part) in
            (
              with_children none prefix cplen (bit prefix cplen) (leaf prefix plen payload) c,
              rw (replace_child, some_, e, part_) refl,
              (
                virtual-IsBelow prefix plen payload above m cplen (bit prefix cplen) c past part
                    short agree refl (shorter, fits, (λ k v. sym (same k v)), differs part, bl, br),
                Updated-virtual prefix plen payload cplen (bit prefix cplen) c,
              ),
            )
      ]

  -- The tests on a child: where it is gone down to, its prefix is one of the address.
  pub enters-cases :
      (above : ℕ → Bool) (m : ℕ) (side : Bool) (c : Tree)
      → IsBelow above m side c
      → Agree above (bit prefix) m
      → Returns (enters c prefix plen m) λ b. (b ≡ true → Entered c) × (b ≡ false → Outside c)
  unfolding enters is_within match_child
  enters-cases above m side empty b agree = (false, refl, (λ h. absurd cc, λ h. tt))
  enters-cases above m side (node d p n l r) (lt, fits, from, at, bl, br) agree =
      elim (Bool-cases (leb n plen)) [
        | inr e ↦
            (false, rw (enters, is_within, e) refl, (λ h. absurd cc, λ h. inl (ground (arith, e))))
        | inl e ↦
            let (b, run, (yes_, no_)) =
              match_node-Decides p n prefix m (omega (arith, lt)) fits
                (λ k v. sym (from k v) ∙ agree k v) in
            (
              b,
              rw (enters, is_within, match_child, e) run,
              (λ h. (ground (arith, e), yes_ h), λ h. inr (no_ h)),
            )
      ]

  -- The tests on a node whose prefix is one of the address.
  pub is_exact-cases :
      (d : Option ℕ) (p : Addr) (n : ℕ)
      → n ≤ 128
      → Agree (bit p) (bit prefix) n
      → Returns
          (is_exact prefix plen d p n)
          λ b. (b ≡ true → n ≡ plen) × (b ≡ false → n ≡ plen → d ≡ none)
  unfolding is_exact
  is_exact-cases d p n fits agree =
      let (b, run, (yes_, no_)) =
        match_node-Decides p n prefix 0 (omega arith) fits (λ k v. absurd (omega (arith, v))) in
      elim (Bool-cases b) [
        | inr e ↦ absurd (no_ e agree)
        | inl e ↦ elim (Bool-cases (n == plen)) [
          | inr f ↦ (
            false,
            rw (is_exact, run, e, f) refl,
            (λ h. absurd cc, λ h q. absurd (ground (arith, f, q))),
          )
          | inl f ↦ elim (Option-cases d) [
            | inl q ↦ (false, rw (is_exact, run, e, f, q) refl, (λ h. absurd cc, λ h k. q))
            | inr (x, q) ↦
                (true, rw (is_exact, run, e, f, q) refl, (λ h. ==→eq n plen f, λ h. absurd cc))
          ]
        ]
      ]

  -- What is below the top of a tree is in its place.
  abbrev Proper : Tree → Type 0
  Proper empty = Unit
  Proper (node d p n l r) = (n ≤ 128) × IsBelow (bit p) n false l × IsBelow (bit p) n true r

  below-Proper :
      (above : ℕ → Bool) (m : ℕ) (side : Bool) (t : Tree) → IsBelow above m side t → Proper t
  below-Proper above m side empty b = tt
  below-Proper above m side (node d p n l r) (lt, fits, from, at, bl, br) = (fits, bl, br)

  -- A tree that is as well formed, and has the same prefix at the top.
  abbrev Keeps : Tree → Tree → Type 0
  Keeps empty t2 = ⊥
  Keeps (node d p n l r) empty = ⊥
  Keeps (node d p n l r) (node d2 p2 n2 l2 r2) =
      (p2 ≡ p) × (n2 ≡ n) × IsBelow (bit p) n false l2 × IsBelow (bit p) n true r2

  Keeps-IsBelow :
      (above : ℕ → Bool) (m : ℕ) (side : Bool) (t t2 : Tree)
      → IsBelow above m side t
      → Keeps t t2
      → IsBelow above m side t2
  Keeps-IsBelow above m side empty t2 b k = absurd k
  Keeps-IsBelow above m side (node d p n l r) empty b k = absurd k
  Keeps-IsBelow above m side (node d p n l r) (node d2 p2 n2 l2 r2) (lt, fits, from, at, bl, br)
        (same, len, bl2, br2) =
      rw (same, len) (lt, fits, from, at, bl2, br2)

  insert_at-Keeps :
      (d : Option ℕ) (p : Addr) (n : ℕ) (l r : Tree)
      → Proper (node d p n l r)
      → Entered (node d p n l r)
      → Continues prefix plen payload (node d p n l r)
      → (n ≡ plen → d ≡ none)
      → Outside l
      → Outside r
      → Returns
          (insert_at prefix plen payload d p n l r)
          λ t2. Keeps (node d p n l r) t2 × Updated prefix plen payload (node d p n l r) t2
  unfolding insert_at
  insert_at-Keeps d p n l r (fits, bl, br) (le, agree) go virtual out_l out_r =
      elim (Bool-cases (n == plen)) [
        | inl e ↦
            let same : n ≡ plen = ==→eq n plen e in
            (
              node (some payload) p n l r,
              rw (insert_at, e, virtual same) refl,
              ((refl, refl, bl, br), Updated-here prefix plen payload d p n l r same agree),
            )
        | inr e ↦
            let long : n < plen = ground (arith, le, e) in
            elim (Bool-cases (bit prefix n)) [
              | inl h ↦
                  let (r2, run, (b2, u)) =
                    replace_child-IsBelow (bit p) n r long agree (rw h br) out_r
                      (λ q k a. go q k (inr (inr a))) in
                  (
                    node d p n l r2,
                    rw (insert_at, e, h, run) refl,
                    (
                      (refl, refl, bl, rw h at b2),
                      Updated-right prefix plen payload d p n l r r2 u,
                    ),
                  )
              | inr h ↦
                  let (l2, run, (b2, u)) =
                    replace_child-IsBelow (bit p) n l long agree (rw h bl) out_l
                      (λ q k a. go q k (inr (inl a))) in
                  (
                    node d p n l2 r,
                    rw (insert_at, e, h, run) refl,
                    ((refl, refl, rw h at b2, br), Updated-left prefix plen payload d p n l l2 r u),
                  )
            ]
      ]

  insert-Keeps :
      (t : Tree)
      → Proper t
      → Entered t
      → Continues prefix plen payload t
      → Returns (insert prefix plen payload t) λ t2. Keeps t t2 × Updated prefix plen payload t t2
  unfolding insert
  insert-Keeps empty proper entered go = absurd entered
  insert-Keeps (node d p n l r) (fits, bl, br) (le, agree) go =
      let (b, run, (exact, virtual)) = is_exact-cases d p n fits agree in
      let (in_l, run_l, (entered_l, outside_l)) = enters-cases (bit p) n false l bl agree in
      let (in_r, run_r, (entered_r, outside_r)) = enters-cases (bit p) n true r br agree in
      elim (Bool-cases b) [
        | inl e ↦ (
          node (some payload) p n l r,
          rw (insert, run, e) refl,
          ((refl, refl, bl, br), Updated-here prefix plen payload d p n l r (exact e) agree),
        )
        | inr e ↦ elim (Bool-cases in_l) [
          | inl f ↦
              let (l2, run2, (k, u)) =
                insert-Keeps l (below-Proper (bit p) n false l bl) (entered_l f)
                  (λ q k a. go q k (inr (inl a))) in
              (
                node d p n l2 r,
                rw (insert, run, e, run_l, f, run2) refl,
                (
                  (refl, refl, Keeps-IsBelow (bit p) n false l l2 bl k, br),
                  Updated-left prefix plen payload d p n l l2 r u,
                ),
              )
          | inr f ↦ elim (Bool-cases in_r) [
            | inl g ↦
                let (r2, run2, (k, u)) =
                  insert-Keeps r (below-Proper (bit p) n true r br) (entered_r g)
                    (λ q k a. go q k (inr (inr a))) in
                (
                  node d p n l r2,
                  rw (insert, run, e, run_l, f, run_r, g, run2) refl,
                  (
                    (refl, refl, bl, Keeps-IsBelow (bit p) n true r r2 br k),
                    Updated-right prefix plen payload d p n l r r2 u,
                  ),
                )
            | inr g ↦
                let (t2, run2, kept) =
                  insert_at-Keeps d p n l r (fits, bl, br) (le, agree) go (virtual e) (outside_l f)
                    (outside_r g) in
                (t2, rw (insert, run, e, run_l, f, run_r, g) run2, kept)
          ]
        ]
      ]

-- On a well-formed tree, and for a prefix of at most 128 bits where each node that extends it goes
-- on with the bit that the address given has behind the prefix, `lpm_insert` ends without a fault.
-- The tree is well formed again. It has an entry of the prefix with the payload; each other entry
-- was there before, and each entry that was there is still there, but for one of the prefix.
pub insert-Updated :
    (prefix : Addr) (plen payload : ℕ) (t : Tree)
    → plen ≤ 128
    → IsTree t
    → Continues prefix plen payload t
    → Returns (insert prefix plen payload t) λ t2. IsTree t2 × Updated prefix plen payload t t2
insert-Updated prefix plen payload empty short h go = absurd h
insert-Updated prefix plen payload (node d p n l r) short (zero_, bl, br) go =
    let proper : Proper prefix plen payload short (node d p n l r) =
      (omega (arith, zero_), rw zero_ bl, rw zero_ br) in
    let entered : Entered prefix plen payload short (node d p n l r) =
      (omega (arith, zero_), λ k v. absurd (omega (arith, v, zero_))) in
    let (t2, run, (keeps, u)) =
      insert-Keeps prefix plen payload short (node d p n l r) proper entered go in
    (t2, run, (Keeps-IsTree t2 keeps, u))
  where
    Keeps-IsTree : (t2 : Tree) → Keeps prefix plen payload short (node d p n l r) t2 → IsTree t2
    Keeps-IsTree empty k = absurd k
    Keeps-IsTree (node d2 p2 n2 l2 r2) (same, len, bl2, br2) =
        let zero2 : n2 ≡ 0 = len ∙ zero_ in
        (zero2, rw same (rw zero_ at bl2), rw same (rw zero_ at br2))
