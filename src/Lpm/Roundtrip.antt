-- ===== src/Lpm/Roundtrip.antt =====
-- `lpm_lookup` after `lpm_insert`.
use thesis_data.Common.{ℕ, ◌≤◌, ◌≡◌, inl, inr, ap, sym, ◌∙◌, true, false, arith, ok, ◌>>=◌}
use thesis_data.Lpm.{Addr, bit, Tree, empty, node, lookup, insert}
use thesis_data.Lpm.Below.{Agree, IsTree, Has, Has-below}
use thesis_data.Lpm.Longest.{Covers, Proper, below-Proper, lookup-IsLongest}
use thesis_data.Lpm.Updated.{Continues}
use thesis_data.Lpm.Insert.{insert-Updated}

-- A well-formed tree has one entry of a prefix at most.
unique_entry :
    (t : Tree) (q q2 : Addr) (k x x2 : ℕ)
    → Proper t
    → Has t q k x
    → Has t q2 k x2
    → Agree (bit q) (bit q2) k
    → x ≡ x2
unique_entry empty q q2 k x x2 b h h2 agree = absurd h
unique_entry (node d p n l r) q q2 k x x2 (bl, br) (inl (e, same, len)) (inl (e2, same2, len2))
      agree =
    cc
unique_entry (node d p n l r) q q2 k x x2 (bl, br) (inl (e, same, len)) (inr (inl h2)) agree =
    let (deeper, a, at) = Has-below (bit p) n false l q2 k x2 bl h2 in
    absurd (omega (arith, len, deeper))
unique_entry (node d p n l r) q q2 k x x2 (bl, br) (inl (e, same, len)) (inr (inr h2)) agree =
    let (deeper, a, at) = Has-below (bit p) n true r q2 k x2 br h2 in
    absurd (omega (arith, len, deeper))
unique_entry (node d p n l r) q q2 k x x2 (bl, br) (inr (inl h)) (inl (e, same, len)) agree =
    let (deeper, a, at) = Has-below (bit p) n false l q k x bl h in
    absurd (omega (arith, len, deeper))
unique_entry (node d p n l r) q q2 k x x2 (bl, br) (inr (inr h)) (inl (e, same, len)) agree =
    let (deeper, a, at) = Has-below (bit p) n true r q k x br h in
    absurd (omega (arith, len, deeper))
unique_entry (node d p n l r) q q2 k x x2 (bl, br) (inr (inl h)) (inr (inl h2)) agree =
    unique_entry l q q2 k x x2 (below-Proper (bit p) n false l bl) h h2 agree
unique_entry (node d p n l r) q q2 k x x2 (bl, br) (inr (inr h)) (inr (inr h2)) agree =
    unique_entry r q q2 k x x2 (below-Proper (bit p) n true r br) h h2 agree
unique_entry (node d p n l r) q q2 k x x2 (bl, br) (inr (inl h)) (inr (inr h2)) agree =
    let (deeper, a, at) = Has-below (bit p) n false l q k x bl h in
    let (deeper2, a2, at2) = Has-below (bit p) n true r q2 k x2 br h2 in
    let same : bit q n ≡ bit q2 n = agree n deeper in absurd cc
unique_entry (node d p n l r) q q2 k x x2 (bl, br) (inr (inr h)) (inr (inl h2)) agree =
    let (deeper, a, at) = Has-below (bit p) n true r q k x br h in
    let (deeper2, a2, at2) = Has-below (bit p) n false l q2 k x2 bl h2 in
    let same : bit q n ≡ bit q2 n = agree n deeper in absurd cc

IsTree-Proper : (t : Tree) → IsTree t → Proper t
IsTree-Proper empty h = absurd h
IsTree-Proper (node d p n l r) (zero_, bl, br) = rw zero_ (bl, br)

-- Under the conditions of `insert-Updated`, and where no entry that covers an address is longer
-- than the prefix inserted, which covers it too, `lpm_lookup` of the address after `lpm_insert`
-- returns the payload inserted.
pub lookup-insert :
    (prefix : Addr) (plen payload : ℕ) (t : Tree) (addr : Addr)
    → plen ≤ 128
    → IsTree t
    → Continues prefix plen payload t
    → Covers prefix plen addr
    → ((q : Addr) (k x : ℕ) → Has t q k x → Covers q k addr → k ≤ plen)
    → insert prefix plen payload t >>= (λ t2. lookup t2 addr) ≡ ok payload
lookup-insert prefix plen payload t addr short tree go covers longest =
    let (t2, run, (tree2, u)) = insert-Updated prefix plen payload t short tree go in
    let (q, has, same) = u.added in
    let here : Covers q plen addr = λ k v. same k v ∙ covers k v in
    let (x, run2, found) = lookup-IsLongest t2 addr tree2 in
    let result : x ≡ payload = elim found [
      | inr (e, no_) ↦ absurd (no_ q plen payload has here)
      | inl f ↦
          let least : plen ≤ f.plen = f.longest q plen payload has here in
          elim (u.only f.prefix f.plen x f.entry) [
            | inl (e, s) ↦ e
            | inr old ↦
                let most : f.plen ≤ plen = longest f.prefix f.plen x old f.covers in
                let equal : f.plen ≡ plen = omega (arith, least, most) in
                unique_entry t2 f.prefix q plen x payload (IsTree-Proper t2 tree2)
                  (rw equal at f.entry) has
                  (λ k v. f.covers k (omega (arith, v, equal)) ∙ sym (here k v))
          ]
    ] in
    rw run (run2 ∙ ap (λ y. ok y) result)
