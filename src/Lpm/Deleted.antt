-- ===== src/Lpm/Deleted.antt =====
-- A trie with the entries of one prefix taken out.
use thesis_data.Common.{
  ℕ, ◌≡◌, ◌⊎◌, inl, inr, refl, ap, sym, ◌∙◌, Bool, true, false, not, Option, none, some, arith,
}
use thesis_data.Lpm.{Addr, bit, Tree, node}
use thesis_data.Lpm.Below.{Agree, IsBelow, Has, Has-below, not_fixed}
use thesis_data.Lpm.Optimize.{Settles}

module _ (prefix : Addr) (plen : ℕ) where
  -- The prefix of an entry is the one that is deleted.
  abbrev pub Matches : Addr → ℕ → Type 0
  Matches q k = (k ≡ plen) × Agree (bit q) (bit prefix) plen

  abbrev pub NoneMatches : Tree → Type 0
  NoneMatches t = (q : Addr) (k x : ℕ) → Has t q k x → Matches q k → ⊥

  -- The entries of the prefix are gone, and others are not; the payload is that of the entry.
  pub record Deleted (t : Tree) (o : Option ℕ) (t2 : Tree) : Type 0 where
    pub only : (q : Addr) (k x : ℕ) → Has t2 q k x → Has t q k x
    pub kept : (q : Addr) (k x : ℕ) → Has t q k x → Has t2 q k x ⊎ Matches q k
    pub gone : NoneMatches t2
    pub found : (q : Addr) (k x : ℕ) → Has t q k x → Matches q k → o ≡ some x
    pub from : (x : ℕ) → o ≡ some x → (q : Addr) × Has t q plen x × Agree (bit q) (bit prefix) plen

  pub Deleted-none : (t : Tree) → NoneMatches t → Deleted t none t
  Deleted-none t no_ = record {
    only = λ q k x h. h;
    kept = λ q k x h. inl h;
    gone = no_;
    found = λ q k x h m. absurd (no_ q k x h m);
    from = λ x e. absurd cc;
  }

  pub Deleted-Settles :
      (t t2 t3 : Tree) (o : Option ℕ) → Deleted t o t2 → Settles t2 t3 → Deleted t o t3
  Deleted-Settles t t2 t3 o u s = record {
    only = λ q k x h. u.only q k x (s.only q k x h);
    kept = λ q k x h. elim (u.kept q k x h) [ inl h' ↦ inl (s.kept q k x h') | inr m ↦ inr m ];
    gone = λ q k x h m. u.gone q k x (s.only q k x h) m;
    found = u.found;
    from = u.from;
  }

  module _ (d : Option ℕ) (p : Addr) (n : ℕ) (no_self : n ≡ plen → d ≡ none) where
    pub self_no : (q : Addr) (k x : ℕ) → d ≡ some x → n ≡ k → Matches q k → ⊥
    self_no q k x e len (m, a) = let nothing : d ≡ none = no_self (len ∙ m) in cc

    pub Deleted-left :
        (l l2 r : Tree) (o : Option ℕ)
        → Deleted l o l2
        → NoneMatches r
        → Deleted (node d p n l r) o (node d p n l2 r)
    Deleted-left l l2 r o u no_r = record {
      only = λ q k x h. elim h [
        | inl s ↦ inl s
        | inr (inl h') ↦ inr (inl (u.only q k x h'))
        | inr (inr h') ↦ inr (inr h')
      ];
      kept = λ q k x h. elim h [
        | inl s ↦ inl (inl s)
        | inr (inl h') ↦ elim (u.kept q k x h') [ inl i ↦ inl (inr (inl i)) | inr m ↦ inr m ]
        | inr (inr h') ↦ inl (inr (inr h'))
      ];
      gone = λ q k x h m. elim h [
        | inl (e, same, len) ↦ self_no q k x e len m
        | inr (inl h') ↦ u.gone q k x h' m
        | inr (inr h') ↦ no_r q k x h' m
      ];
      found = λ q k x h m. elim h [
        | inl (e, same, len) ↦ absurd (self_no q k x e len m)
        | inr (inl h') ↦ u.found q k x h' m
        | inr (inr h') ↦ absurd (no_r q k x h' m)
      ];
      from = λ x e. let (q, h, a) = u.from x e in (q, inr (inl h), a);
    }

    pub Deleted-right :
        (l r r2 : Tree) (o : Option ℕ)
        → Deleted r o r2
        → NoneMatches l
        → Deleted (node d p n l r) o (node d p n l r2)
    Deleted-right l r r2 o u no_l = record {
      only = λ q k x h. elim h [
        | inl s ↦ inl s
        | inr (inl h') ↦ inr (inl h')
        | inr (inr h') ↦ inr (inr (u.only q k x h'))
      ];
      kept = λ q k x h. elim h [
        | inl s ↦ inl (inl s)
        | inr (inl h') ↦ inl (inr (inl h'))
        | inr (inr h') ↦ elim (u.kept q k x h') [ inl i ↦ inl (inr (inr i)) | inr m ↦ inr m ]
      ];
      gone = λ q k x h m. elim h [
        | inl (e, same, len) ↦ self_no q k x e len m
        | inr (inl h') ↦ no_l q k x h' m
        | inr (inr h') ↦ u.gone q k x h' m
      ];
      found = λ q k x h m. elim h [
        | inl (e, same, len) ↦ absurd (self_no q k x e len m)
        | inr (inl h') ↦ absurd (no_l q k x h' m)
        | inr (inr h') ↦ u.found q k x h' m
      ];
      from = λ x e. let (q, h, a) = u.from x e in (q, inr (inr h), a);
    }

  -- Below a node of the same length there is no entry of the prefix.
  below-NoneMatches :
      (above : ℕ → Bool) (side : Bool) (t : Tree) (m : ℕ)
      → IsBelow above m side t
      → m ≡ plen
      → NoneMatches t
  below-NoneMatches above side t m b e = λ q k x h (same, a).
      let (deeper, agree, at) = Has-below above m side t q k x b h in omega (arith, deeper, e, same)

  -- Nor on the side where the prefix does not go.
  pub side-NoneMatches :
      (above : ℕ → Bool) (side : Bool) (t : Tree) (m : ℕ)
      → IsBelow above m side t
      → bit prefix m ≡ not side
      → NoneMatches t
  side-NoneMatches above side t m b e = λ q k x h (same, a).
      let (deeper, agree, at) = Has-below above m side t q k x b h in
      not_fixed side (sym at ∙ a m (omega (arith, deeper, same)) ∙ e)

  pub Deleted-here :
      (d : Option ℕ) (p : Addr) (n : ℕ) (l r : Tree)
      → n ≡ plen
      → Agree (bit p) (bit prefix) n
      → IsBelow (bit p) n false l
      → IsBelow (bit p) n true r
      → Deleted (node d p n l r) d (node none p n l r)
  Deleted-here d p n l r e agree bl br = record {
    only = λ q k x h. elim h [ inl (s, same, len) ↦ absurd cc | inr h' ↦ inr h' ];
    kept = λ q k x h. elim h [
      | inl (s, same, len) ↦
          inr (sym len ∙ e, λ j v. sym (ap (λ a. bit a j) same) ∙ agree j (omega (arith, v, e)))
      | inr h' ↦ inl (inr h')
    ];
    gone = λ q k x h m. elim h [
      | inl (s, same, len) ↦ absurd cc
      | inr (inl h') ↦ below-NoneMatches (bit p) false l n bl e q k x h' m
      | inr (inr h') ↦ below-NoneMatches (bit p) true r n br e q k x h' m
    ];
    found = λ q k x h m. elim h [
      | inl (s, same, len) ↦ s
      | inr (inl h') ↦ absurd (below-NoneMatches (bit p) false l n bl e q k x h' m)
      | inr (inr h') ↦ absurd (below-NoneMatches (bit p) true r n br e q k x h' m)
    ];
    from = λ x s. (p, inl (s, refl, e), λ j v. agree j (omega (arith, v, e)));
  }
