-- ===== src/HashMap/Edits.antt =====
-- What the edits of one entry do to the buckets, the keys and the heap.
use mathlib.Core.Path.{subst}
use thesis_data.Common.{
  ℕ, suc, ◌≡◌, inl, inr, refl, false, none, some, List, [], ◌∷◌, length, arith, ◌==◌, Bool-cases,
  ==_iff,
}
use thesis_data.HashMap.{KeyOps, IsKey, Heap, write_at, unlink, home}
use thesis_data.HashMap.Cells.{
  Cell, addrs, Stored, Stored-write, Unused, find_cell, assign, erase, bucket_of, Absent, Apart,
  home_congr,
}

module _ {ℓ} {K V : Type ℓ} (ops : KeyOps K) where
  found-Unused :
      (p : ℕ) (k : K) (cs : List (Cell K V)) (c : Cell K V)
      → Unused p cs
      → find_cell ops k cs ≡ some c
      → (c.addr == p) ≡ false
  unfolding find_cell
  found-Unused p k [] c u e = cc
  found-Unused p k (d ∷ cs) c u e = ground (arith, u.0, found-Unused p k cs c u.1)

  pub Unused-bucket_of :
      (p size i : ℕ) (cs : List (Cell K V)) → Unused p cs → Unused p (bucket_of ops size i cs)
  unfolding bucket_of
  Unused-bucket_of p size i [] u = tt
  Unused-bucket_of p size i (c ∷ cs) u = elim (Bool-cases (home ops size c.key == i)) [
    | inl here ↦ rw here (u.0, Unused-bucket_of p size i cs u.1)
    | inr there ↦ rw there (Unused-bucket_of p size i cs u.1)
  ]

  Absent-bucket_of :
      (k : K) (size i : ℕ) (cs : List (Cell K V))
      → Absent ops k cs
      → Absent ops k (bucket_of ops size i cs)
  unfolding bucket_of
  Absent-bucket_of k size i [] u = tt
  Absent-bucket_of k size i (c ∷ cs) u = elim (Bool-cases (home ops size c.key == i)) [
    | inl here ↦ rw here (u.0, Absent-bucket_of k size i cs u.1)
    | inr there ↦ rw there (Absent-bucket_of k size i cs u.1)
  ]

  pub Apart-bucket_of :
      (size i : ℕ) (cs : List (Cell K V)) → Apart ops cs → Apart ops (bucket_of ops size i cs)
  unfolding bucket_of
  Apart-bucket_of size i [] a = tt
  Apart-bucket_of size i (c ∷ cs) a = elim (Bool-cases (home ops size c.key == i)) [
    | inl here ↦ rw here (
      Unused-bucket_of c.addr size i cs a.0,
      Absent-bucket_of c.key size i cs a.1,
      Apart-bucket_of size i cs a.2,
    )
    | inr there ↦ rw there (Apart-bucket_of size i cs a.2)
  ]

  -- The value of one entry is replaced.
  pub addrs-assign : (k : K) (v : V) (cs : List (Cell K V)) → addrs (assign ops k v cs) ≡ addrs cs
  unfolding assign
  addrs-assign k v [] = refl
  addrs-assign k v (c ∷ cs) = ground (arith, addrs-assign k v cs)

  pub length-assign :
      (k : K) (v : V) (cs : List (Cell K V)) → length (assign ops k v cs) ≡ length cs
  unfolding assign
  length-assign k v [] = refl
  length-assign k v (c ∷ cs) = ground (arith, length-assign k v cs)

  pub bucket_of-assign :
      (k : K) (v : V) (size i : ℕ) (cs : List (Cell K V))
      → addrs (bucket_of ops size i (assign ops k v cs)) ≡ addrs (bucket_of ops size i cs)
  unfolding assign bucket_of
  bucket_of-assign k v size i [] = refl
  bucket_of-assign k v size i (c ∷ cs) = ground (arith, bucket_of-assign k v size i cs)

  Unused-assign :
      (p : ℕ) (k : K) (v : V) (cs : List (Cell K V)) → Unused p cs → Unused p (assign ops k v cs)
  unfolding assign
  Unused-assign p k v [] u = tt
  Unused-assign p k v (c ∷ cs) u = elim (Bool-cases (ops.equal c.key k)) [
    | inl hit ↦ rw hit u
    | inr miss ↦ rw miss (u.0, Unused-assign p k v cs u.1)
  ]

  Absent-assign :
      (q k : K) (v : V) (cs : List (Cell K V)) → Absent ops q cs → Absent ops q (assign ops k v cs)
  unfolding assign
  Absent-assign q k v [] u = tt
  Absent-assign q k v (c ∷ cs) u = elim (Bool-cases (ops.equal c.key k)) [
    | inl hit ↦ rw hit u
    | inr miss ↦ rw miss (u.0, Absent-assign q k v cs u.1)
  ]

  pub Apart-assign :
      (k : K) (v : V) (cs : List (Cell K V)) → Apart ops cs → Apart ops (assign ops k v cs)
  unfolding assign
  Apart-assign k v [] a = tt
  Apart-assign k v (c ∷ cs) a = elim (Bool-cases (ops.equal c.key k)) [
    | inl hit ↦ rw hit a
    | inr miss ↦
        rw miss
          (Unused-assign c.addr k v cs a.0, Absent-assign c.key k v cs a.1, Apart-assign k v cs a.2)
  ]

  pub Stored-assign :
      (h : Heap K V) (k : K) (v : V) (cs : List (Cell K V)) (c : Cell K V)
      → Stored h cs
      → Apart ops cs
      → find_cell ops k cs ≡ some c
      → Stored (write_at h c.addr (some (record { key = c.key; elem = v }))) (assign ops k v cs)
  unfolding assign find_cell
  Stored-assign h k v [] c s a e = cc
  Stored-assign h k v (d ∷ cs) c s a e = elim (Bool-cases (ops.equal d.key k)) [
    | inl hit ↦
        let e' : some d ≡ some c = rw hit at e in
        let same : d ≡ c = cc in
        let here : Stored (write_at h d.addr (some (record { key = d.key; elem = v })))
            (record d { val = v } ∷ cs) =
          (
            ground arith,
            Stored-write h d.addr (some (record { key = d.key; elem = v })) cs s.1 a.0,
          ) in
        rw hit (
          subst
            (λ (x : Cell K V).
              Stored (write_at h x.addr (some (record { key = x.key; elem = v })))
                (record d { val = v } ∷ cs))
            same here)
    | inr miss ↦
        let e' : find_cell ops k cs ≡ some c = rw miss at e in
        rw (miss) (rw (found-Unused d.addr k cs c a.0 e') s.0, Stored-assign h k v cs c s.1 a.2 e')
  ]

  -- One entry is taken out.
  pub unlink-erase :
      (k : K) (cs : List (Cell K V)) (c : Cell K V)
      → Apart ops cs
      → find_cell ops k cs ≡ some c
      → unlink c.addr (addrs cs) ≡ addrs (erase ops k cs)
  unfolding unlink erase find_cell
  unlink-erase k [] c a e = cc
  unlink-erase k (d ∷ cs) c a e =
      ground (arith, unlink-erase k cs c a.2, found-Unused d.addr k cs c a.0)

  pub length-erase :
      (k : K) (cs : List (Cell K V)) (c : Cell K V)
      → find_cell ops k cs ≡ some c
      → suc (length (erase ops k cs)) ≡ length cs
  unfolding erase find_cell
  length-erase k [] c e = cc
  length-erase k (d ∷ cs) c e = ground (arith, length-erase k cs c)

  Unused-erase : (p : ℕ) (k : K) (cs : List (Cell K V)) → Unused p cs → Unused p (erase ops k cs)
  unfolding erase
  Unused-erase p k [] u = tt
  Unused-erase p k (c ∷ cs) u = elim (Bool-cases (ops.equal c.key k)) [
    | inl hit ↦ rw hit u.1
    | inr miss ↦ rw miss (u.0, Unused-erase p k cs u.1)
  ]

  Absent-erase : (q k : K) (cs : List (Cell K V)) → Absent ops q cs → Absent ops q (erase ops k cs)
  unfolding erase
  Absent-erase q k [] u = tt
  Absent-erase q k (c ∷ cs) u = elim (Bool-cases (ops.equal c.key k)) [
    | inl hit ↦ rw hit u.1
    | inr miss ↦ rw miss (u.0, Absent-erase q k cs u.1)
  ]

  pub Apart-erase : (k : K) (cs : List (Cell K V)) → Apart ops cs → Apart ops (erase ops k cs)
  unfolding erase
  Apart-erase k [] a = tt
  Apart-erase k (c ∷ cs) a = elim (Bool-cases (ops.equal c.key k)) [
    | inl hit ↦ rw hit a.2
    | inr miss ↦
        rw miss (Unused-erase c.addr k cs a.0, Absent-erase c.key k cs a.1, Apart-erase k cs a.2)
  ]

  pub Stored-erase :
      (h : Heap K V) (k : K) (cs : List (Cell K V)) (c : Cell K V)
      → Stored h cs
      → Apart ops cs
      → find_cell ops k cs ≡ some c
      → Stored (write_at h c.addr none) (erase ops k cs)
  unfolding erase find_cell
  Stored-erase h k [] c s a e = cc
  Stored-erase h k (d ∷ cs) c s a e = elim (Bool-cases (ops.equal d.key k)) [
    | inl hit ↦
        let e' : some d ≡ some c = rw hit at e in
        let same : d ≡ c = cc in rw (hit, ← same) (Stored-write h d.addr none cs s.1 a.0)
    | inr miss ↦
        let e' : find_cell ops k cs ≡ some c = rw miss at e in
        rw (miss) (rw (found-Unused d.addr k cs c a.0 e') s.0, Stored-erase h k cs c s.1 a.2 e')
  ]

module _ {ℓ} {K V : Type ℓ} {ops : KeyOps K} (laws : IsKey ops) where
  pub bucket_of-erase :
      (k : K) (size : ℕ) (cs : List (Cell K V))
      → bucket_of ops size (home ops size k) (erase ops k cs)
        ≡ erase ops k (bucket_of ops size (home ops size k) cs)
  unfolding erase bucket_of
  bucket_of-erase k size [] = refl
  bucket_of-erase k size (c ∷ cs) = ground (
    arith,
    bucket_of-erase k size cs,
    home_congr laws size c.key k,
    ==_iff (home ops size c.key) (home ops size k),
  )

  pub bucket_of-erase_ne :
      (k : K) (size i : ℕ) (cs : List (Cell K V))
      → (home ops size k == i) ≡ false
      → bucket_of ops size i (erase ops k cs) ≡ bucket_of ops size i cs
  unfolding erase bucket_of
  bucket_of-erase_ne k size i [] away = refl
  bucket_of-erase_ne k size i (c ∷ cs) away =
      ground (arith, bucket_of-erase_ne k size i cs away, home_congr laws size c.key k)
