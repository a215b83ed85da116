-- ===== src/HashMap.antt =====
-- sdnres-src/lib/hashmap.c and hashmap.h: a chained hash table that grows, with a list of its
-- entries in the order of insertion.
-- `struct hmap_entry` lives in a heap, since the chain of its bucket and the list of keys both
-- link it. The intrusive lists of llist.h are lists of addresses. A read of an entry that is not
-- allocated is a fault. What `malloc` answers is an argument of the operations that call it.
-- The lock, which the callers take, is not part of the table.
pub mod Cells
pub mod Models
pub mod Edits
pub mod Keys
pub mod Writes
pub mod Deletes
mod Tests
use Prim.Native.Nat.{bit_and}
use thesis_data.Common.{
  ℕ, zero, suc, ◌+◌, ◌-◌, ◌*◌, ◌/◌, ◌%◌, ◌^◌, ◌≡◌, Bool, true, false, Option, none, some, List, [],
  ◌∷◌, ◌++◌, map, length, get_elem?, set, replicate, ltb, leb, ◌==◌, if◌then◌else◌, Outcome, ok,
  fault, out_of_bounds, null_pointer, out_of_fuel, ◌>>=◌,
}

abbrev pub default_size : ℕ
default_size = 16

-- `size_t` arithmetic
abbrev pub size_mod : ℕ
size_mod = 2 ^ 64

abbrev pub inc_size : ℕ → ℕ
inc_size n = (n + 1) % size_mod

abbrev pub dec_size : ℕ → ℕ
dec_size n = (n + size_mod - 1) % size_mod

-- The two function pointers of the table: `equal a b` is `compare(a, b) == 0`.
pub record KeyOps {ℓ} (K : Type ℓ) : Type ℓ where
  pub hash : K → ℕ
  pub equal : K → K → Bool

-- What the table asks of them.
pub record IsKey {ℓ} {K : Type ℓ} (ops : KeyOps K) : Type ℓ where
  pub equal_refl : (a : K) → ops.equal a a ≡ true
  pub equal_symm : (a b : K) → ops.equal a b ≡ ops.equal b a
  pub equal_trans : (a b c : K) → ops.equal a b ≡ true → ops.equal b c ≡ true → ops.equal a c ≡ true
  pub hash-equal : (a b : K) → ops.equal a b ≡ true → ops.hash a ≡ ops.hash b

pub record Entry {ℓ} (K V : Type ℓ) : Type ℓ where
  pub key : K
  pub elem : V

abbrev pub Heap {ℓ} : Type ℓ → Type ℓ → Type ℓ
Heap K V = ℕ → Option (Entry K V)

-- The bucket array `map` is the field `buckets`.
pub record HashMap {ℓ} (K V : Type ℓ) : Type ℓ where
  pub size : ℕ
  pub elems : ℕ
  pub buckets : List (List ℕ)
  pub keys : List ℕ
  pub heap : Heap K V

abbrev pub write_at {ℓ} : {A : Type ℓ} → (ℕ → A) → ℕ → A → ℕ → A
write_at h p a q = if p == q then a else h q

-- `llist_remove` of the node at `p`, seen in the list that links it.
unfoldable pub unlink : ℕ → List ℕ → List ℕ
unlink p [] = []
unlink p (q ∷ qs) = if p == q then qs else q ∷ unlink p qs

unfoldable pub load {ℓ} : {A : Type ℓ} → (ℕ → Option A) → ℕ → Outcome A
load h p = elim (h p) [ none ↦ fault null_pointer | some e ↦ ok e ]

unfoldable pub bucket_at : List (List ℕ) → ℕ → Outcome (List ℕ)
bucket_at bs i = elim (get_elem? bs i) [ none ↦ fault out_of_bounds | some b ↦ ok b ]

module _ {ℓ} {K V : Type ℓ} where
  -- `hmap_new`: the answers of its two calls of `malloc`.
  unfoldable pub new : Bool → Bool → Option (HashMap K V)
  new header body =
      if header
      then if body
        then some (record {
          size = default_size;
          elems = 0;
          buckets = replicate default_size [];
          keys = [];
          heap = λ _. none;
        })
        else none
      else none

  -- `hmap_must_grow`
  unfoldable pub must_grow : HashMap K V → Bool
  must_grow hm = ltb (hm.size / 4 * 3) hm.elems

-- `hmap_hash`
abbrev pub home {ℓ} : {K : Type ℓ} → KeyOps K → ℕ → K → ℕ
home ops size key = bit_and (ops.hash key) (size - 1)

module _ {ℓ} {K V : Type ℓ} (ops : KeyOps K) where
  -- The loop over one bucket: the first entry whose key compares equal.
  unfoldable pub find_in : Heap K V → List ℕ → K → Outcome (Option ℕ)
  find_in h [] key = ok none
  find_in h (p ∷ ps) key =
      let rest = find_in h ps key in
      load h p >>= λ he. (if ops.equal he.key key then ok (some p) else rest)

  -- The loop of `hmap_grow` over the keys, into the new array.
  unfoldable pub rehash : Heap K V → ℕ → List ℕ → List (List ℕ) → Outcome (List (List ℕ))
  rehash h size [] new_map = ok new_map
  rehash h size (p ∷ ps) new_map = do
    he ← load h p
    bucket ← bucket_at new_map (home ops size he.key)
    rehash h size ps (set new_map (home ops size he.key) (bucket ++ (p ∷ [])))

  -- `hmap_grow`: `none` is -1. The old array is freed. The counter of the first loop is an
  -- `unsigned int`: it never reaches a size of 2 ^ 32 or more, and the loop does not end.
  unfoldable pub grow : Bool → HashMap K V → ℕ → Outcome (Option (HashMap K V))
  grow granted hm nsize =
      if granted
      then if ltb nsize (2 ^ 32)
        then (rehash hm.heap nsize hm.keys (replicate nsize []) >>= λ new_map.
            ok (some (record hm { size = nsize; buckets = new_map })))
        else fault out_of_fuel
      else ok none

  -- The end of `hmap_set`, on a table that has the room.
  unfoldable pub link_entry : Option ℕ → HashMap K V → K → V → Outcome (Bool × HashMap K V)
  link_entry none hm key elem = ok (false, hm)
  link_entry (some p) hm key elem = do
    bucket ← bucket_at hm.buckets (home ops hm.size key)
    ok (
      true,
      record hm {
        elems = inc_size hm.elems;
        buckets = set hm.buckets (home ops hm.size key) (bucket ++ (p ∷ []));
        keys = hm.keys ++ (p ∷ []);
        heap = write_at hm.heap p (some (record { key = key; elem = elem }));
      },
    )

  -- The part of `hmap_set` behind the search.
  unfoldable pub add_entry : Bool → Option ℕ → HashMap K V → K → V → Outcome (Bool × HashMap K V)
  add_entry granted fresh hm key elem =
      if must_grow hm
      then (grow granted hm (hm.size * 2 % size_mod) >>= λ r. elim r [
        | none ↦ ok (false, hm)
        | some grown ↦ link_entry fresh grown key elem
      ])
      else link_entry fresh hm key elem

  -- `hmap_set`: `granted` answers the `malloc` of `hmap_grow`, `fresh` that of the entry. The
  -- Boolean is true for 0 and false for -1.
  unfoldable pub set_key : Bool → Option ℕ → HashMap K V → K → V → Outcome (Bool × HashMap K V)
  set_key granted fresh hm key elem = do
    bucket ← bucket_at hm.buckets (home ops hm.size key)
    found ← find_in hm.heap bucket key
    elim found [
      | some p ↦ load hm.heap p >>= λ he.
          ok (true, record hm { heap = write_at hm.heap p (some (record he { elem = elem })) })
      | none ↦ add_entry granted fresh hm key elem
    ]

  -- `hmap_get`; `none` is NULL.
  unfoldable pub get : HashMap K V → K → Outcome (Option V)
  get hm key = do
    bucket ← bucket_at hm.buckets (home ops hm.size key)
    found ← find_in hm.heap bucket key
    elim found [ some p ↦ load hm.heap p >>= λ he. ok (some he.elem) | none ↦ ok none ]

  -- `hmap_delete`
  unfoldable pub delete : HashMap K V → K → Outcome (HashMap K V)
  delete hm key = do
    bucket ← bucket_at hm.buckets (home ops hm.size key)
    found ← find_in hm.heap bucket key
    elim found [
      | some p ↦ ok (record hm {
        elems = dec_size hm.elems;
        buckets = set hm.buckets (home ops hm.size key) (unlink p bucket);
        keys = unlink p hm.keys;
        heap = write_at hm.heap p none;
      })
      | none ↦ ok hm
    ]

module _ {ℓ} {K V : Type ℓ} where
  -- The loop of `hmap_flush`; an entry is taken out of whichever bucket links it. Each round takes
  -- a key, so the fuel is their number and one.
  unfoldable pub flush_from : ℕ → HashMap K V → Outcome (HashMap K V)
  flush_from zero hm = fault out_of_fuel
  flush_from (suc fuel) hm = elim hm.keys [
    | [] ↦ ok hm
    | p ∷ _ ↦ load hm.heap p >>= λ he. flush_from fuel (record hm {
      elems = dec_size hm.elems;
      buckets = map (unlink p) hm.buckets;
      keys = unlink p hm.keys;
      heap = write_at hm.heap p none;
    })
  ]

  -- `hmap_flush`
  unfoldable pub flush : HashMap K V → Outcome (HashMap K V)
  flush hm = flush_from (length hm.keys + 1) hm
