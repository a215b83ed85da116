-- ===== src/HashMap/Cells.antt =====
-- The abstract view of a hash table: its entries in the order of insertion, each with its address.
use thesis_data.Common.{
  ℕ, ◌≡◌, inl, inr, refl, ap, true, false, Option, none, some, List, [], ◌∷◌, ◌++◌, arith, ok, ◌==◌,
  if◌then◌else◌, Bool-cases, ==_iff,
}
use thesis_data.HashMap.{KeyOps, IsKey, Entry, Heap, write_at, unlink, load, home, find_in}

pub record Cell {ℓ} (K V : Type ℓ) : Type ℓ where
  pub addr : ℕ
  pub key : K
  pub val : V

module _ {ℓ} {K V : Type ℓ} where
  abbrev pub addrs : List (Cell K V) → List ℕ
  addrs [] = []
  addrs (c ∷ cs) = c.addr ∷ addrs cs

  abbrev pub content : Cell K V → Entry K V
  content c = record { key = c.key; elem = c.val }

  -- The heap holds each cell at its address.
  abbrev pub Stored : Heap K V → List (Cell K V) → Type ℓ
  Stored h [] = Unit
  Stored h (c ∷ cs) = (h c.addr ≡ some (content c)) × Stored h cs

  -- No cell stands at the address.
  abbrev pub Unused : ℕ → List (Cell K V) → Type 0
  Unused p [] = Unit
  Unused p (c ∷ cs) = ((p == c.addr) ≡ false) × Unused p cs

  pub Stored-write :
      (h : Heap K V) (p : ℕ) (e : Option (Entry K V)) (cs : List (Cell K V))
      → Stored h cs
      → Unused p cs
      → Stored (write_at h p e) cs
  Stored-write h p e [] s u = tt
  Stored-write h p e (c ∷ cs) s u = (rw u.0 s.0, Stored-write h p e cs s.1 u.1)

  pub Unused-of_free :
      (h : Heap K V) (p : ℕ) (cs : List (Cell K V)) → Stored h cs → h p ≡ none → Unused p cs
  Unused-of_free h p [] s free = tt
  Unused-of_free h p (c ∷ cs) s free = (ground (arith, s.0, free), Unused-of_free h p cs s.1 free)

  pub unlink-Unused : (p : ℕ) (cs : List (Cell K V)) → Unused p cs → unlink p (addrs cs) ≡ addrs cs
  unfolding unlink
  unlink-Unused p [] u = refl
  unlink-Unused p (c ∷ cs) u = rw u.0 (ap (λ t. c.addr ∷ t) (unlink-Unused p cs u.1))

  pub addrs-append : (cs ds : List (Cell K V)) → addrs (cs ++ ds) ≡ addrs cs ++ addrs ds
  addrs-append [] ds = refl
  addrs-append (c ∷ cs) ds = ap (λ t. c.addr ∷ t) (addrs-append cs ds)

  pub Stored-append :
      (h : Heap K V) (cs ds : List (Cell K V)) → Stored h cs → Stored h ds → Stored h (cs ++ ds)
  Stored-append h [] ds s t = t
  Stored-append h (c ∷ cs) ds s t = (s.0, Stored-append h cs ds s.1 t)

  pub Unused-append :
      (p : ℕ) (cs ds : List (Cell K V)) → Unused p cs → Unused p ds → Unused p (cs ++ ds)
  Unused-append p [] ds s t = t
  Unused-append p (c ∷ cs) ds s t = (s.0, Unused-append p cs ds s.1 t)

  abbrev pub cell_addr : Option (Cell K V) → Option ℕ
  cell_addr none = none
  cell_addr (some c) = some c.addr

  abbrev pub cell_val : Option (Cell K V) → Option V
  cell_val none = none
  cell_val (some c) = some c.val

module _ {ℓ} {K V : Type ℓ} (ops : KeyOps K) where
  -- The entry under a key.
  unfoldable pub find_cell : K → List (Cell K V) → Option (Cell K V)
  find_cell k [] = none
  find_cell k (c ∷ cs) = if ops.equal c.key k then some c else find_cell k cs

  -- The entries with the value under a key replaced, and without the entry under a key.
  unfoldable pub assign : K → V → List (Cell K V) → List (Cell K V)
  assign k v [] = []
  assign k v (c ∷ cs) = if ops.equal c.key k then record c { val = v } ∷ cs else c ∷ assign k v cs

  unfoldable pub erase : K → List (Cell K V) → List (Cell K V)
  erase k [] = []
  erase k (c ∷ cs) = if ops.equal c.key k then cs else c ∷ erase k cs

  -- The entries whose home is bucket `i`, in order.
  unfoldable pub bucket_of : ℕ → ℕ → List (Cell K V) → List (Cell K V)
  bucket_of size i [] = []
  bucket_of size i (c ∷ cs) =
      if home ops size c.key == i then c ∷ bucket_of size i cs else bucket_of size i cs

  -- No entry has a key equal to this one.
  abbrev pub Absent : K → List (Cell K V) → Type 0
  Absent k [] = Unit
  Absent k (c ∷ cs) = (ops.equal c.key k ≡ false) × Absent k cs

  -- Addresses and keys are distinct.
  abbrev pub Apart : List (Cell K V) → Type 0
  Apart [] = Unit
  Apart (c ∷ cs) = Unused c.addr cs × Absent c.key cs × Apart cs

  pub find_in-find_cell :
      (h : Heap K V) (k : K) (cs : List (Cell K V))
      → Stored h cs
      → find_in ops h (addrs cs) k ≡ ok (cell_addr (find_cell k cs))
  unfolding find_in find_cell load
  find_in-find_cell h k [] s = refl
  find_in-find_cell h k (c ∷ cs) s = ground (arith, s.0, find_in-find_cell h k cs s.1)

  pub Absent-of_none : (k : K) (cs : List (Cell K V)) → find_cell k cs ≡ none → Absent k cs
  unfolding find_cell
  Absent-of_none k [] e = tt
  Absent-of_none k (c ∷ cs) e = elim (Bool-cases (ops.equal c.key k)) [
    | inl hit ↦ absurd (ground arith)
    | inr miss ↦ (miss, Absent-of_none k cs (rw miss at e))
  ]

  pub bucket_of-append :
      (size i : ℕ) (cs ds : List (Cell K V))
      → bucket_of size i (cs ++ ds) ≡ bucket_of size i cs ++ bucket_of size i ds
  unfolding bucket_of
  bucket_of-append size i [] ds = refl
  bucket_of-append size i (c ∷ cs) ds = ground (arith, bucket_of-append size i cs ds)

  pub Stored-bucket_of :
      (h : Heap K V) (size i : ℕ) (cs : List (Cell K V))
      → Stored h cs
      → Stored h (bucket_of size i cs)
  unfolding bucket_of
  Stored-bucket_of h size i [] s = tt
  Stored-bucket_of h size i (c ∷ cs) s = elim (Bool-cases (home ops size c.key == i)) [
    | inl here ↦ rw here (s.0, Stored-bucket_of h size i cs s.1)
    | inr there ↦ rw there (Stored-bucket_of h size i cs s.1)
  ]

module _ {ℓ} {K : Type ℓ} {ops : KeyOps K} (laws : IsKey ops) where
  open laws use {equal_symm, equal_trans, hash-equal}

  equal_congr : (a b c : K) → ops.equal b c ≡ true → ops.equal a b ≡ ops.equal a c
  equal_congr a b c e = ground (arith, equal_trans a b c, equal_trans a c b, equal_symm b c)

  equal_congr_left : (a b c : K) → ops.equal a b ≡ true → ops.equal a c ≡ ops.equal b c
  equal_congr_left a b c e = ground (arith, equal_trans a b c, equal_trans b a c, equal_symm a b)

  pub home_congr : (size : ℕ) (a b : K) → ops.equal a b ≡ true → home ops size a ≡ home ops size b
  home_congr size a b e = rw (hash-equal a b e)

module _ {ℓ} {K V : Type ℓ} {ops : KeyOps K} (laws : IsKey ops) where
  open laws use {equal_symm}

  -- An entry is found in the bucket of its key as it is among all of them.
  pub find_cell-bucket_of :
      (size : ℕ) (k : K) (cs : List (Cell K V))
      → find_cell ops k (bucket_of ops size (home ops size k) cs) ≡ find_cell ops k cs
  unfolding find_cell bucket_of
  find_cell-bucket_of size k [] = refl
  find_cell-bucket_of size k (c ∷ cs) = ground (
    arith,
    find_cell-bucket_of size k cs,
    home_congr laws size c.key k,
    ==_iff (home ops size c.key) (home ops size k),
  )

  pub find_cell-assign :
      (k q : K) (v : V) (cs : List (Cell K V)) (c : Cell K V)
      → find_cell ops k cs ≡ some c
      → cell_val (find_cell ops q (assign ops k v cs))
        ≡ (if ops.equal q k then some v else cell_val (find_cell ops q cs))
  unfolding find_cell assign
  find_cell-assign k q v [] c e = cc
  find_cell-assign k q v (d ∷ cs) c e = ground (
    arith,
    find_cell-assign k q v cs c,
    equal_congr_left laws d.key q k,
    equal_congr_left laws d.key k q,
    equal_congr laws d.key k q,
    equal_congr laws d.key q k,
    equal_symm k q,
  )

  pub find_cell-append_new :
      (k q : K) (v : V) (p : ℕ) (cs : List (Cell K V))
      → find_cell ops k cs ≡ none
      → cell_val (find_cell ops q (cs ++ (record { addr = p; key = k; val = v } ∷ [])))
        ≡ (if ops.equal q k then some v else cell_val (find_cell ops q cs))
  unfolding find_cell
  find_cell-append_new k q v p [] e = ground (arith, equal_symm k q)
  find_cell-append_new k q v p (d ∷ cs) e = ground (
    arith,
    find_cell-append_new k q v p cs,
    equal_congr laws d.key k q,
    equal_congr laws d.key q k,
    equal_symm k q,
  )

  Absent-find_cell :
      (k q : K) (cs : List (Cell K V))
      → Absent ops k cs
      → ops.equal q k ≡ true
      → find_cell ops q cs ≡ none
  unfolding find_cell
  Absent-find_cell k q [] u e = refl
  Absent-find_cell k q (d ∷ cs) u e =
      ground (arith, Absent-find_cell k q cs u.1 e, equal_congr laws d.key q k, u.0)

  pub find_cell-erase :
      (k q : K) (cs : List (Cell K V))
      → Apart ops cs
      → cell_val (find_cell ops q (erase ops k cs))
        ≡ (if ops.equal q k then none else cell_val (find_cell ops q cs))
  unfolding find_cell erase
  find_cell-erase k q [] a = ground arith
  find_cell-erase k q (d ∷ cs) a = ground (
    arith,
    find_cell-erase k q cs a.2,
    equal_congr laws d.key k q,
    equal_congr laws d.key q k,
    equal_symm k q,
    equal_congr_left laws d.key q k,
    equal_congr_left laws d.key k q,
    equal_symm q d.key,
    Absent-find_cell d.key q cs a.1,
    equal_symm d.key q,
  )
