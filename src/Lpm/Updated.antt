-- ===== src/Lpm/Updated.antt =====
-- A trie with one entry more, and the nodes that `lpm_insert` makes for it.
use thesis_data.Common.{
  ℕ, ◌≤◌, ◌<◌, ◌≡◌, ◌⊎◌, inl, inr, refl, ap, sym, ◌∙◌, Bool, true, false, not, Option, none, some,
  arith,
}
use thesis_data.Lpm.{Addr, bit, Tree, empty, node, with_children}
use thesis_data.Lpm.Below.{Agree, IsBelow, Has}

-- The tree has a node, an entry or not.
abbrev pub At : Tree → Addr → ℕ → Type 0
At empty q k = ⊥
At (node d p n l r) q k = ((p ≡ q) × (n ≡ k)) ⊎ At l q k ⊎ At r q k

module _ (prefix : Addr) (plen payload : ℕ) where
  -- Each node that extends the prefix goes on with the bit that the address has there.
  abbrev pub Continues : Tree → Type 0
  Continues t =
      (q : Addr) (k : ℕ)
      → At t q k
      → Agree (bit q) (bit prefix) plen
      → plen < k
      → bit q plen ≡ bit prefix plen

  -- The prefix of an entry is the one that is inserted.
  abbrev pub Same : Addr → ℕ → Type 0
  Same q k = (k ≡ plen) × Agree (bit q) (bit prefix) plen

  -- One tree has the entries of another and a new one, which may replace an old one.
  pub record Updated (t t2 : Tree) : Type 0 where
    pub added : (q : Addr) × Has t2 q plen payload × Agree (bit q) (bit prefix) plen
    pub only : (q : Addr) (k x : ℕ) → Has t2 q k x → ((x ≡ payload) × Same q k) ⊎ Has t q k x
    pub kept : (q : Addr) (k x : ℕ) → Has t q k x → Has t2 q k x ⊎ Same q k

  pub Updated-left :
      (d : Option ℕ) (p : Addr) (n : ℕ) (l l2 r : Tree)
      → Updated l l2
      → Updated (node d p n l r) (node d p n l2 r)
  Updated-left d p n l l2 r u = record {
    added = let (q, h, a) = u.added in (q, inr (inl h), a);
    only = λ q k x h. elim h [
      | inl s ↦ inr (inl s)
      | inr (inl h') ↦ elim (u.only q k x h') [ inl s ↦ inl s | inr o ↦ inr (inr (inl o)) ]
      | inr (inr h') ↦ inr (inr (inr h'))
    ];
    kept = λ q k x h. elim h [
      | inl s ↦ inl (inl s)
      | inr (inl h') ↦ elim (u.kept q k x h') [ inl o ↦ inl (inr (inl o)) | inr s ↦ inr s ]
      | inr (inr h') ↦ inl (inr (inr h'))
    ];
  }

  pub Updated-right :
      (d : Option ℕ) (p : Addr) (n : ℕ) (l r r2 : Tree)
      → Updated r r2
      → Updated (node d p n l r) (node d p n l r2)
  Updated-right d p n l r r2 u = record {
    added = let (q, h, a) = u.added in (q, inr (inr h), a);
    only = λ q k x h. elim h [
      | inl s ↦ inr (inl s)
      | inr (inl h') ↦ inr (inr (inl h'))
      | inr (inr h') ↦ elim (u.only q k x h') [ inl s ↦ inl s | inr o ↦ inr (inr (inr o)) ]
    ];
    kept = λ q k x h. elim h [
      | inl s ↦ inl (inl s)
      | inr (inl h') ↦ inl (inr (inl h'))
      | inr (inr h') ↦ elim (u.kept q k x h') [ inl o ↦ inl (inr (inr o)) | inr s ↦ inr s ]
    ];
  }

  -- The payload of the node of the prefix is set.
  pub Updated-here :
      (d : Option ℕ) (p : Addr) (n : ℕ) (l r : Tree)
      → n ≡ plen
      → Agree (bit p) (bit prefix) n
      → Updated (node d p n l r) (node (some payload) p n l r)
  Updated-here d p n l r e agree' = record {
    added = (p, inl (refl, refl, e), agree);
    only = λ q k x h. elim h [
      | inl (s, same, len) ↦
          inl (cc, (sym len ∙ e, λ j v. sym (ap (λ a. bit a j) same) ∙ agree j v))
      | inr h' ↦ inr (inr h')
    ];
    kept = λ q k x h. elim h [
      | inl (s, same, len) ↦ inr (sym len ∙ e, λ j v. sym (ap (λ a. bit a j) same) ∙ agree j v)
      | inr h' ↦ inl (inr h')
    ];
  }
    where
      agree : Agree (bit p) (bit prefix) plen
      agree = λ k v. agree' k (omega (arith, v, e))

  -- A new node for the prefix.
  abbrev pub leaf : Tree
  leaf = node (some payload) prefix plen empty empty

  pub Updated-leaf : Updated empty leaf
  Updated-leaf = record {
    added = (prefix, inl (refl, refl, refl), λ j v. refl);
    only = λ q k x h. elim h [
      | inl (s, same, len) ↦ inl (cc, (sym len, λ j v. sym (ap (λ a. bit a j) same)))
      | inr (inl h') ↦ absurd h'
      | inr (inr h') ↦ absurd h'
    ];
    kept = λ q k x h. absurd h;
  }

  pub Updated-in_place :
      (b : Bool) (c : Tree) → Updated c (with_children (some payload) prefix plen b c empty)
  unfolding with_children
  Updated-in_place true c = record {
    added = (prefix, inl (refl, refl, refl), λ j v. refl);
    only = λ q k x h. elim h [
      | inl (s, same, len) ↦ inl (cc, (sym len, λ j v. sym (ap (λ a. bit a j) same)))
      | inr (inl h') ↦ absurd h'
      | inr (inr h') ↦ inr h'
    ];
    kept = λ q k x h. inl (inr (inr h));
  }
  Updated-in_place false c = record {
    added = (prefix, inl (refl, refl, refl), λ j v. refl);
    only = λ q k x h. elim h [
      | inl (s, same, len) ↦ inl (cc, (sym len, λ j v. sym (ap (λ a. bit a j) same)))
      | inr (inl h') ↦ inr h'
      | inr (inr h') ↦ absurd h'
    ];
    kept = λ q k x h. inl (inr (inl h));
  }

  pub Updated-virtual :
      (n : ℕ) (b : Bool) (c : Tree) → Updated c (with_children none prefix n b leaf c)
  unfolding with_children
  Updated-virtual n true c = record {
    added = (prefix, inr (inr (inl (refl, refl, refl))), λ j v. refl);
    only = λ q k x h. elim h [
      | inl (s, same, len) ↦ absurd cc
      | inr (inl h') ↦ inr h'
      | inr (inr h') ↦ elim (Updated-leaf.only q k x h') [ inl s ↦ inl s | inr e ↦ absurd e ]
    ];
    kept = λ q k x h. inl (inr (inl h));
  }
  Updated-virtual n false c = record {
    added = (prefix, inr (inl (inl (refl, refl, refl))), λ j v. refl);
    only = λ q k x h. elim h [
      | inl (s, same, len) ↦ absurd cc
      | inr (inl h') ↦ elim (Updated-leaf.only q k x h') [ inl s ↦ inl s | inr e ↦ absurd e ]
      | inr (inr h') ↦ inr h'
    ];
    kept = λ q k x h. inl (inr (inr h));
  }

  module _ (above : ℕ → Bool) (m : ℕ) (long : m < plen) (short : plen ≤ 128)
      (agree : Agree above (bit prefix) m) where
    pub leaf-IsBelow : IsBelow above m (bit prefix m) leaf
    leaf-IsBelow = (long, short, agree, refl, tt, tt)

    pub in_place-IsBelow :
        (b : Bool) (c : Tree)
        → IsBelow (bit prefix) plen b c
        → IsBelow above m (bit prefix m) (with_children (some payload) prefix plen b c empty)
    unfolding with_children
    in_place-IsBelow true c h = (long, short, agree, refl, tt, h)
    in_place-IsBelow false c h = (long, short, agree, refl, h, tt)

  pub virtual-IsBelow :
      (above : ℕ → Bool) (m n : ℕ) (b : Bool) (c : Tree)
      → m < n
      → n < plen
      → plen ≤ 128
      → Agree above (bit prefix) m
      → b ≡ bit prefix n
      → IsBelow (bit prefix) n (not b) c
      → IsBelow above m (bit prefix m) (with_children none prefix n b leaf c)
  unfolding with_children
  virtual-IsBelow above m n true c lt long short agree e h =
      (lt, omega (arith, long, short), agree, refl, h, (long, short, (λ j v. refl), sym e, tt, tt))
  virtual-IsBelow above m n false c lt long short agree e h =
      (lt, omega (arith, long, short), agree, refl, (long, short, (λ j v. refl), sym e, tt, tt), h)
