-- ===== src/HashMap/Models.antt =====
-- When a hash table holds a sequence of entries, and what a search in it then returns.
use native.Mathlib.Nat.{mod-lt, one-le-pow}
use thesis_data.Common.Bits.{bit_and_mask}
use thesis_data.Common.{
  ℕ, zero, suc, ◌^◌, ◌<◌, ◌≡◌, inl, inr, refl, ap, ◌∙◌, true, some, List, [], ◌∷◌, ◌++◌, length,
  get_elem?, set, replicate, arith, Returns, ok, ◌==◌, if◌then◌else◌, Bool-cases, ==→eq,
  Option-cases, length-replicate, length-set, append_assoc, append-nil,
}
use thesis_data.HashMap.{
  KeyOps, IsKey, Heap, HashMap, size_mod, default_size, load, home, bucket_at, find_in, new, rehash,
  get,
}
use thesis_data.HashMap.Cells.{
  Cell, addrs, content, Stored, cell_addr, cell_val, find_cell, bucket_of, Apart, find_in-find_cell,
  Stored-bucket_of, find_cell-bucket_of, bucket_of-append, addrs-append,
}

module _ {ℓ} {A : Type ℓ} where
  pub get_elem?-set :
      (xs : List A) (i j : ℕ) (v : A)
      → i < length xs
      → get_elem? (set xs i v) j ≡ (if i == j then some v else get_elem? xs j)
  get_elem?-set [] i j v h = absurd (omega arith)
  get_elem?-set (x ∷ xs) zero zero v h = ground arith
  get_elem?-set (x ∷ xs) zero (suc j) v h = ground arith
  get_elem?-set (x ∷ xs) (suc i) zero v h = ground arith
  get_elem?-set (x ∷ xs) (suc i) (suc j) v h = ground (arith, get_elem?-set xs i j v)

  pub get_elem?-replicate : (n i : ℕ) (a : A) → i < n → get_elem? (replicate n a) i ≡ some a
  get_elem?-replicate zero i a h = absurd (omega arith)
  get_elem?-replicate (suc n) zero a h = refl
  get_elem?-replicate (suc n) (suc i) a h = get_elem?-replicate n i a (omega arith)

abbrev pub IsPow2 : ℕ → Type 0
IsPow2 n = (bits : ℕ) × (n ≡ 2 ^ bits)

pub home-lt {ℓ} :
    {K : Type ℓ} (ops : KeyOps K) (size : ℕ) (k : K) → IsPow2 size → home ops size k < size
home-lt ops size k (bits, e) =
    let pos : 0 < 2 ^ bits = one-le-pow bits 2 (omega arith) in
    rw (e, bit_and_mask) (mod-lt (ops.hash k) pos)

module _ {ℓ} {K V : Type ℓ} (ops : KeyOps K) where
  -- Bucket `i` links the entries whose home it is, in order.
  pub record Placed (buckets : List (List ℕ)) (size : ℕ) (cs : List (Cell K V)) : Type ℓ where
    pub width : length buckets ≡ size
    pub links : (i : ℕ) → i < size → get_elem? buckets i ≡ some (addrs (bucket_of ops size i cs))

  pub record Models (hm : HashMap K V) (cs : List (Cell K V)) : Type ℓ where
    pub sized : IsPow2 hm.size
    pub placed : Placed hm.buckets hm.size cs
    pub counted : hm.elems ≡ length cs
    pub few : length cs < size_mod
    pub linked : hm.keys ≡ addrs cs
    pub stored : Stored hm.heap cs
    pub apart : Apart ops cs

  -- Every key of the table lies in the bucket array, so no access is out of range.
  pub bucket_at-Placed :
      {buckets : List (List ℕ)} {size : ℕ} {cs : List (Cell K V)} (i : ℕ)
      → Placed buckets size cs
      → i < size
      → bucket_at buckets i ≡ ok (addrs (bucket_of ops size i cs))
  unfolding bucket_at
  bucket_at-Placed i p h = rw (p.links i h, bucket_at)

  -- An entry linked behind the others, in its home bucket.
  pub Placed-append :
      {buckets : List (List ℕ)} {size : ℕ} {cs : List (Cell K V)} (c : Cell K V)
      → Placed buckets size cs
      → home ops size c.key < size
      → Placed
          (set buckets
            (home ops size c.key)
            (addrs (bucket_of ops size (home ops size c.key) cs) ++ (c.addr ∷ [])))
          size
          (cs ++ (c ∷ []))
  unfolding bucket_of
  Placed-append {buckets} {size} {cs} c p inside = record {
    width = rw length-set p.width;
    links = λ i h.
        rw
          (
            get_elem?-set buckets (home ops size c.key) i _ (omega (arith, p.width)),
            bucket_of-append ops size i cs (c ∷ []),
            addrs-append,
          )
          (elim (Bool-cases (home ops size c.key == i)) [
            | inl here ↦
                rw (here) (
                  ap (λ j. some (addrs (bucket_of ops size j cs) ++ (c.addr ∷ [])))
                    (==→eq _ _ here))
            | inr there ↦ rw (there, append-nil) (p.links i h)
          ]);
  }

  -- The new array of `hmap_grow`.
  pub rehash-Placed :
      (h : Heap K V) (size : ℕ) (cs ds : List (Cell K V)) (buckets : List (List ℕ))
      → IsPow2 size
      → Stored h cs
      → Placed buckets size ds
      → Returns (rehash ops h size (addrs cs) buckets) λ bs. Placed bs size (ds ++ cs)
  unfolding rehash load
  rehash-Placed h size [] ds buckets pow s p = (buckets, refl, rw append-nil p)
  rehash-Placed h size (c ∷ cs) ds buckets pow s p =
      let inside = home-lt ops size c.key pow in
      let (bs, run, done) =
        rehash-Placed h size cs (ds ++ (c ∷ [])) _ pow s.1 (Placed-append c p inside) in
      (
        bs,
        rw (s.0, load, bucket_at-Placed (home ops size c.key) p inside) run,
        rw append_assoc at done,
      )

  pub replicate-Placed : (size : ℕ) → Placed (replicate size []) size []
  unfolding bucket_of
  replicate-Placed size = record {
    width = length-replicate size [];
    links = λ i h. get_elem?-replicate size i [] h;
  }

  -- `hmap_new` makes an empty table.
  pub new-Models : (hm : HashMap K V) × (new true true ≡ some hm) × Models hm []
  unfolding new
  new-Models = (
    _,
    refl,
    record {
      sized = (4, refl);
      placed = replicate-Placed default_size;
      counted = refl;
      few = omega arith;
      linked = refl;
      stored = tt;
      apart = tt;
    },
  )

  pub find_cell-stored :
      (h : Heap K V) (k : K) (cs : List (Cell K V)) (c : Cell K V)
      → Stored h cs
      → find_cell ops k cs ≡ some c
      → h c.addr ≡ some (content c)
  unfolding find_cell
  find_cell-stored h k [] c s e = cc
  find_cell-stored h k (d ∷ cs) c s e = ground (arith, s.0, find_cell-stored h k cs c s.1)

module _ {ℓ} {K V : Type ℓ} {ops : KeyOps K} (laws : IsKey ops) where
  -- The search in the home bucket finds what a search among all entries finds.
  pub find_in-Models :
      {hm : HashMap K V} {cs : List (Cell K V)} (key : K)
      → Models ops hm cs
      → find_in ops hm.heap (addrs (bucket_of ops hm.size (home ops hm.size key) cs)) key
        ≡ ok (cell_addr (find_cell ops key cs))
  find_in-Models {hm} {cs} key m =
      find_in-find_cell ops hm.heap key _ (Stored-bucket_of ops hm.heap hm.size _ cs m.stored)
      ∙ ap (λ o. ok (cell_addr o)) (find_cell-bucket_of laws hm.size key cs)

  -- On a table that holds the entries `cs`, `hmap_get` does not fault: it returns the value of
  -- the entry under the key, and NULL where there is none.
  pub get-find_cell :
      {hm : HashMap K V} {cs : List (Cell K V)} (key : K)
      → Models ops hm cs
      → get ops hm key ≡ ok (cell_val (find_cell ops key cs))
  unfolding get load
  get-find_cell {hm} {cs} key m =
      rw
        (
          bucket_at-Placed ops (home ops hm.size key) m.placed (home-lt ops hm.size key m.sized),
          find_in-Models key m,
        )
        (elim (Option-cases (find_cell ops key cs)) [
          | inl missing ↦ rw missing
          | inr (c, found) ↦
              rw found (rw (find_cell-stored ops hm.heap key cs c m.stored found, load))
        ])
