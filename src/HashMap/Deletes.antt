-- ===== src/HashMap/Deletes.antt =====
-- `hmap_delete` and `hmap_flush` on a table that holds a sequence of entries.
use thesis_data.Common.{
  ℕ, zero, suc, ◌<◌, ◌≡◌, inl, inr, refl, ap, ◌∙◌, none, some, List, [], ◌∷◌, map, length,
  get_elem?, set, arith, Returns, ok, ◌==◌, if◌then◌else◌, ◌>>=◌, Bool-cases, ==→eq, Option-cases,
  length-set, length-map,
}
use thesis_data.HashMap.{
  KeyOps, IsKey, HashMap, dec_size, write_at, unlink, load, home, get, delete, flush_from, flush,
}
use thesis_data.HashMap.Cells.{
  Cell, addrs, Stored-write, Unused, find_cell, erase, bucket_of, find_cell-bucket_of,
  unlink-Unused, find_cell-erase,
}
use thesis_data.HashMap.Models.{
  get_elem?-set, home-lt, Placed, Models, bucket_at-Placed, find_in-Models, get-find_cell,
}
use thesis_data.HashMap.Edits.{
  unlink-erase, length-erase, Apart-erase, Stored-erase, Apart-bucket_of, Unused-bucket_of,
  bucket_of-erase, bucket_of-erase_ne,
}

module _ {ℓ} {K V : Type ℓ} {ops : KeyOps K} (laws : IsKey ops) where
  erase_missing :
      (key : K) (cs : List (Cell K V)) → find_cell ops key cs ≡ none → erase ops key cs ≡ cs
  unfolding erase find_cell
  erase_missing key [] e = refl
  erase_missing key (c ∷ cs) e = ground (arith, erase_missing key cs)

  -- The table without the entry that was found at a cell.
  abbrev without : HashMap K V → K → List (Cell K V) → Cell K V → HashMap K V
  without hm key cs c =
      let i : ℕ = home ops hm.size key in
      record hm {
        elems = dec_size hm.elems;
        buckets = set hm.buckets i (unlink c.addr (addrs (bucket_of ops hm.size i cs)));
        keys = unlink c.addr hm.keys;
        heap = write_at hm.heap c.addr none;
      }

  without-Placed :
      {hm : HashMap K V} {cs : List (Cell K V)} (key : K) (c : Cell K V)
      → Models ops hm cs
      → find_cell ops key cs ≡ some c
      → Placed ops (without hm key cs c).buckets hm.size (erase ops key cs)
  without-Placed {hm} {cs} key c m found =
      let i : ℕ = home ops hm.size key in
      let inside = home-lt ops hm.size key m.sized in
      let unlinked =
        unlink-erase ops key (bucket_of ops hm.size i cs) c
          (Apart-bucket_of ops hm.size i cs m.apart)
          (find_cell-bucket_of laws hm.size key cs ∙ found) in
      record {
        width = rw length-set m.placed.width;
        links = λ j h.
            rw (get_elem?-set hm.buckets i j _ (omega (arith, m.placed.width)))
              (elim (Bool-cases (i == j)) [
                | inl here ↦
                    rw (here, ← ==→eq _ _ here, bucket_of-erase laws key hm.size cs)
                      (ap some unlinked)
                | inr there ↦
                    rw (there, bucket_of-erase_ne laws key hm.size j cs there) (m.placed.links j h)
              ]);
      }

  without-Models :
      {hm : HashMap K V} {cs : List (Cell K V)} (key : K) (c : Cell K V)
      → Models ops hm cs
      → find_cell ops key cs ≡ some c
      → Models ops (without hm key cs c) (erase ops key cs)
  without-Models {hm} {cs} key c m found = record {
    sized = m.sized;
    placed = without-Placed key c m found;
    counted = omega (arith, m.counted, m.few, length-erase ops key cs c found);
    few = omega (arith, m.few, length-erase ops key cs c found);
    linked = ap (unlink c.addr) m.linked ∙ unlink-erase ops key cs c m.apart found;
    stored = Stored-erase ops hm.heap key cs c m.stored m.apart found;
    apart = Apart-erase ops key cs m.apart;
  }

  -- On a table that holds the entries `cs`, `hmap_delete` does not fault: it takes out the entry
  -- under the key, if there is one, leaves the others in order, and the result is a valid table.
  pub delete-Models :
      {hm : HashMap K V} {cs : List (Cell K V)} (key : K)
      → Models ops hm cs
      → Returns (delete ops hm key) λ hm'. Models ops hm' (erase ops key cs)
  unfolding delete
  delete-Models {hm} {cs} key m =
      rw
        (
          bucket_at-Placed ops (home ops hm.size key) m.placed (home-lt ops hm.size key m.sized),
          find_in-Models laws key m,
        )
        (elim (Option-cases (find_cell ops key cs)) [
          | inl missing ↦ rw missing (hm, refl, rw (erase_missing key cs missing) m)
          | inr (c, found) ↦ rw found (without hm key cs c, refl, without-Models key c m found)
        ])

  -- On a valid table, a `hmap_get` after a `hmap_delete` returns NULL for a key that is equal to
  -- the one deleted, and for any other key what it returned before.
  pub get-delete :
      {hm : HashMap K V} {cs : List (Cell K V)} (key q : K)
      → Models ops hm cs
      → (delete ops hm key >>= λ hm'. get ops hm' q)
        ≡ (if ops.equal q key then ok none else get ops hm q)
  get-delete {cs} key q m =
      let (hm', run, m') = delete-Models key m in
      rw (run, get-find_cell laws q m', get-find_cell laws q m)
        (ground (arith, find_cell-erase laws key q cs m.apart))

get_elem?-map :
    (p : ℕ) (bs : List (List ℕ)) (i : ℕ) {b : List ℕ}
    → get_elem? bs i ≡ some b
    → get_elem? (map (unlink p) bs) i ≡ some (unlink p b)
get_elem?-map p [] i e = cc
get_elem?-map p (c ∷ bs) zero e = cc
get_elem?-map p (c ∷ bs) (suc i) e = get_elem?-map p bs i e

length-addrs {ℓ} : {K V : Type ℓ} (cs : List (Cell K V)) → length (addrs cs) ≡ length cs
length-addrs [] = refl
length-addrs (c ∷ cs) = ap suc (length-addrs cs)

module _ {ℓ} {K V : Type ℓ} (ops : KeyOps K) where
  unlink_first :
      (c : Cell K V) (cs : List (Cell K V)) (size i : ℕ)
      → Unused c.addr cs
      → unlink c.addr (addrs (bucket_of ops size i (c ∷ cs))) ≡ addrs (bucket_of ops size i cs)
  unfolding unlink bucket_of
  unlink_first c cs size i u = ground (
    arith,
    unlink-Unused c.addr (bucket_of ops size i cs) (Unused-bucket_of ops c.addr size i cs u),
  )

  abbrev round : HashMap K V → ℕ → HashMap K V
  round hm p = record hm {
    elems = dec_size hm.elems;
    buckets = map (unlink p) hm.buckets;
    keys = unlink p hm.keys;
    heap = write_at hm.heap p none;
  }

  round-Models :
      (hm : HashMap K V) (c : Cell K V) (cs : List (Cell K V))
      → Models ops hm (c ∷ cs)
      → Models ops (round hm c.addr) cs
  unfolding unlink
  round-Models hm c cs m = record {
    sized = m.sized;
    placed = record {
      width = length-map (unlink c.addr) hm.buckets ∙ m.placed.width;
      links = λ i h.
          get_elem?-map c.addr hm.buckets i (m.placed.links i h)
          ∙ ap some (unlink_first c cs hm.size i m.apart.0);
    };
    counted = omega (arith, m.counted, m.few);
    few = omega (arith, m.few);
    linked = rw m.linked (ground arith);
    stored = Stored-write hm.heap c.addr none cs m.stored.1 m.apart.0;
    apart = m.apart.2;
  }

  flush_step :
      (fuel : ℕ) (hm : HashMap K V) (c : Cell K V) (cs : List (Cell K V))
      → Models ops hm (c ∷ cs)
      → flush_from (suc fuel) hm ≡ flush_from fuel (round hm c.addr)
  unfolding flush_from load
  flush_step fuel hm c cs m = ground (arith, m.linked, m.stored.0)

  flush_from-Models :
      (fuel : ℕ) (hm : HashMap K V) (cs : List (Cell K V))
      → Models ops hm cs
      → length cs < fuel
      → Returns (flush_from fuel hm) λ hm'. Models ops hm' [] × (hm'.elems ≡ 0)
  unfolding flush_from load
  flush_from-Models zero hm cs m few = absurd (omega arith)
  flush_from-Models (suc fuel) hm [] m few = (hm, ground (arith, m.linked), (m, m.counted))
  flush_from-Models (suc fuel) hm (c ∷ cs) m few =
      let (hm', run, done) =
        flush_from-Models fuel (round hm c.addr) cs (round-Models hm c cs m) (omega arith) in
      (hm', flush_step fuel hm c cs m ∙ run, done)

  -- `hmap_flush` of a valid table ends within its fuel and without a fault: the result is a valid
  -- table with no entries, and its counter is 0.
  pub flush-Models :
      {hm : HashMap K V} {cs : List (Cell K V)}
      → Models ops hm cs
      → Returns (flush hm) λ hm'. Models ops hm' [] × (hm'.elems ≡ 0)
  unfolding flush
  flush-Models {hm} {cs} m =
      flush_from-Models _ hm cs m (omega (arith, ap length m.linked, length-addrs cs))
