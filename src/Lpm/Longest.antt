-- ===== src/Lpm/Longest.antt =====
-- `lpm_lookup` finds the longest prefix.
use thesis_data.Common.{
  ℕ, ◌≤◌, ◌<◌, ◌≡◌, ◌⊎◌, inl, inr, refl, ap, sym, ◌∙◌, Bool, true, false, Option, none, some, arith,
  Bool-cases, Returns,
}
use thesis_data.Lpm.{Addr, bit, Tree, empty, node, match_child, last_of, lookup_from, lookup}
use thesis_data.Lpm.Below.{Agree, IsBelow, IsTree, Has, match_node-Decides, Has-below}

-- The prefix covers the address.
abbrev pub Covers : Addr → ℕ → Addr → Type 0
Covers q k addr = Agree (bit q) (bit addr) k

-- No entry of the tree covers the address.
abbrev pub NoneCovers : Tree → Addr → Type 0
NoneCovers t addr = (q : Addr) (k x : ℕ) → Has t q k x → Covers q k addr → ⊥

-- An entry of the tree that covers the address, and no other that does is longer.
pub record IsLongest (t : Tree) (addr : Addr) (x : ℕ) : Type 0 where
  pub prefix : Addr
  pub plen : ℕ
  pub entry : Has t prefix plen x
  pub covers : Covers prefix plen addr
  pub longest : (q : Addr) (k y : ℕ) → Has t q k y → Covers q k addr → k ≤ plen

abbrev Result : Option ℕ → Tree → Addr → Option ℕ → Type 0
Result last t addr o =
    ((x : ℕ) × (o ≡ some x) × IsLongest t addr x) ⊎ ((o ≡ last) × NoneCovers t addr)

-- The prefix of the node at the top covers the address.
abbrev pub Inside : Tree → Addr → Type 0
Inside empty addr = ⊥
Inside (node d p n l r) addr = Covers p n addr

pub Inside-bit :
    (above : ℕ → Bool) (m : ℕ) (side : Bool) (t : Tree) (addr : Addr)
    → IsBelow above m side t
    → Inside t addr
    → bit addr m ≡ side
Inside-bit above m side empty addr b i = absurd i
Inside-bit above m side (node d p n l r) addr (lt, short, agree, at, bl, br) i = sym (i m lt) ∙ at

-- Where the address goes to the other side, nothing of a child covers it.
other_side :
    (above : ℕ → Bool) (m : ℕ) (t : Tree) (addr : Addr)
    → IsBelow above m true t
    → bit addr m ≡ false
    → NoneCovers t addr
other_side above m t addr b h = λ q k x has covers.
    let (lt, agree, at) = Has-below above m true t q k x b has in
    let there : bit q m ≡ bit addr m = covers m lt in absurd cc

match_child-cases :
    (above : ℕ → Bool) (m : ℕ) (side : Bool) (t : Tree) (addr : Addr)
    → IsBelow above m side t
    → Agree above (bit addr) m
    → Returns
        (match_child t addr m)
        λ b. (b ≡ true → Inside t addr) × (b ≡ false → NoneCovers t addr)
unfolding match_child
match_child-cases above m side empty addr b agree =
    (false, refl, (λ h. absurd cc, λ h q k x has. absurd has))
match_child-cases above m side (node d p n l r) addr (lt, short, from, at, bl, br) agree =
    let (b, run, (yes_, no_)) =
      match_node-Decides p n addr m (omega (arith, lt)) short (λ k v. sym (from k v) ∙ agree k v) in
    (
      b,
      run,
      (
        yes_,
        λ h q k x has covers. no_ h λ j v. elim has [
          | inl (e, same, len) ↦ ap (λ s. bit s j) same ∙ covers j (omega (arith, v, len))
          | inr (inl in_l) ↦
              let (deeper, below, side_) = Has-below (bit p) n false l q k x bl in_l in
              below j v ∙ covers j (omega (arith, v, deeper))
          | inr (inr in_r) ↦
              let (deeper, below, side_) = Has-below (bit p) n true r q k x br in_r in
              below j v ∙ covers j (omega (arith, v, deeper))
        ],
      ),
    )

-- The result below a node, where all that covers the address is the node and what is below.
combine :
    (t c : Tree) (d last : Option ℕ) (p : Addr) (n : ℕ) (addr : Addr) (o : Option ℕ)
    → ((q : Addr) (k x : ℕ) → Has c q k x → Has t q k x)
    → ((x : ℕ) → d ≡ some x → Has t p n x)
    → ((q : Addr) (k x : ℕ)
        → Has t q k x
        → Covers q k addr
        → ((d ≡ some x) × (n ≡ k)) ⊎ Has c q k x)
    → ((q : Addr) (k x : ℕ) → Has c q k x → n < k)
    → Covers p n addr
    → Result (last_of last d) c addr o
    → Result last t addr o
combine t c d last p n addr o into self split deeper covers (inl (x, e, found)) = inl (
  x,
  e,
  record {
    prefix = found.prefix;
    plen = found.plen;
    entry = into found.prefix found.plen x found.entry;
    covers = found.covers;
    longest = λ q k y has c'. elim (split q k y has c') [
      | inl (s, len) ↦ omega (arith, len, deeper found.prefix found.plen x found.entry)
      | inr h ↦ found.longest q k y h c'
    ];
  },
)
combine t c none last p n addr o into self split deeper covers (inr (e, no_)) = inr (
  e,
  λ q k x has c'. elim (split q k x has c') [ inl (s, len) ↦ absurd cc | inr h ↦ no_ q k x h c' ],
)
combine t c (some x) last p n addr o into self split deeper covers (inr (e, no_)) = inl (
  x,
  e,
  record {
    prefix = p;
    plen = n;
    entry = self x refl;
    covers = covers;
    longest = λ q k y has c'. elim (split q k y has c') [
      | inl (s, len) ↦ omega (arith, len)
      | inr h ↦ absurd (no_ q k y h c')
    ];
  },
)

-- What is below the top of a tree is in its place.
abbrev pub Proper : Tree → Type 0
Proper empty = Unit
Proper (node d p n l r) = IsBelow (bit p) n false l × IsBelow (bit p) n true r

pub below-Proper :
    (above : ℕ → Bool) (m : ℕ) (side : Bool) (t : Tree) → IsBelow above m side t → Proper t
below-Proper above m side empty b = tt
below-Proper above m side (node d p n l r) (lt, short, agree, at, bl, br) = (bl, br)

lookup_from-Result :
    (addr : Addr) (last : Option ℕ) (t : Tree)
    → Proper t
    → Inside t addr
    → Returns (lookup_from addr last t) (Result last t addr)
unfolding lookup_from
lookup_from-Result addr last empty b i = absurd i
lookup_from-Result addr last (node d p n l r) (bl, br) covers =
    let t : Tree = node d p n l r in
    let last' : Option ℕ = last_of last d in
    let (in_l, run_l, (inside_l, outside_l)) = match_child-cases (bit p) n false l addr bl covers in
    let (in_r, run_r, (inside_r, outside_r)) = match_child-cases (bit p) n true r addr br covers in
    elim (Bool-cases in_l) [
      | inl e ↦
          let inside : Inside l addr = inside_l e in
          let (o, run, found) =
            lookup_from-Result addr last' l (below-Proper (bit p) n false l bl) inside in
          let no_r : NoneCovers r addr =
            other_side (bit p) n r addr br (Inside-bit (bit p) n false l addr bl inside) in
          (
            o,
            rw (lookup_from, run_l, e) run,
            combine t l d last p n addr o (λ q k x h. inr (inl h)) (λ x h. inl (h, refl, refl))
                (λ q k x h c. elim h [
                  | inl (s, same, len) ↦ inl (s, len)
                  | inr (inl h') ↦ inr h'
                  | inr (inr h') ↦ absurd (no_r q k x h' c)
                ])
                (λ q k x h. (Has-below (bit p) n false l q k x bl h).0) covers found,
          )
      | inr e ↦
          let no_l : NoneCovers l addr = outside_l e in
          elim (Bool-cases in_r) [
            | inl f ↦
                let (o, run, found) =
                  lookup_from-Result addr last' r (below-Proper (bit p) n true r br) (inside_r f) in
                (
                  o,
                  rw (lookup_from, run_l, e, run_r, f) run,
                  combine t r d last p n addr o (λ q k x h. inr (inr h))
                      (λ x h. inl (h, refl, refl))
                      (λ q k x h c. elim h [
                        | inl (s, same, len) ↦ inl (s, len)
                        | inr (inl h') ↦ absurd (no_l q k x h' c)
                        | inr (inr h') ↦ inr h'
                      ])
                      (λ q k x h. (Has-below (bit p) n true r q k x br h).0) covers found,
                )
            | inr f ↦
                let no_r : NoneCovers r addr = outside_r f in
                (
                  last',
                  rw (lookup_from, run_l, e, run_r, f) refl,
                  combine t empty d last p n addr last' (λ q k x h. absurd h)
                      (λ x h. inl (h, refl, refl))
                      (λ q k x h c. elim h [
                        | inl (s, same, len) ↦ inl (s, len)
                        | inr (inl h') ↦ absurd (no_l q k x h' c)
                        | inr (inr h') ↦ absurd (no_r q k x h' c)
                      ])
                      (λ q k x h. absurd h) covers (inr (refl, λ q k x h c. h)),
                )
          ]
    ]

-- On a well-formed tree `lpm_lookup` ends without a fault: it returns the payload of an entry whose
-- prefix covers the address, and no entry that covers it has a longer prefix; or it returns a null
-- pointer, and no entry covers the address.
pub lookup-IsLongest :
    (t : Tree) (addr : Addr)
    → IsTree t
    → Returns (lookup t addr) λ x. IsLongest t addr x ⊎ ((x ≡ 0) × NoneCovers t addr)
unfolding lookup
lookup-IsLongest empty addr h = absurd h
lookup-IsLongest (node d p n l r) addr (zero_, bl, br) =
    let proper : Proper (node d p n l r) = rw zero_ (bl, br) in
    let covers : Covers p n addr = λ k v. absurd (omega (arith, v, zero_)) in
    let (o, run, found) = lookup_from-Result addr none (node d p n l r) proper covers in
    elim found [
      | inl (x, e, longest) ↦ (x, rw (lookup, run, e) refl, inl longest)
      | inr (e, no_) ↦ (0, rw (lookup, run, e) refl, inr (refl, no_))
    ]
