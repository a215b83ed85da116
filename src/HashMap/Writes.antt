-- ===== src/HashMap/Writes.antt =====
-- `hmap_set`, `hmap_delete` and `hmap_flush` on a table that holds a sequence of entries.
use thesis_data.Common.{
  ℕ, suc, ◌*◌, ◌%◌, ◌^◌, ◌≤◌, ◌<◌, ltb, ◌≡◌, inl, inr, refl, sym, true, Option, none, some, List,
  [], ◌∷◌, ◌++◌, length, set, replicate, arith, Returns, ok, if◌then◌else◌, ◌>>=◌, Bool-cases,
  Option-cases, length-append, ltb→lt,
}
use native.Mathlib.Nat.{pow-suc}
use thesis_data.HashMap.{
  KeyOps, IsKey, Heap, HashMap, size_mod, inc_size, write_at, load, home, get, must_grow, grow,
  link_entry, add_entry, set_key,
}
use thesis_data.HashMap.Cells.{
  Cell, addrs, content, Stored-write, Unused, Unused-of_free, Unused-append, Stored-append,
  find_cell, assign, bucket_of, Absent, Absent-of_none, Apart, addrs-append, find_cell-assign,
  find_cell-append_new,
}
use thesis_data.HashMap.Models.{
  home-lt, IsPow2, Models, bucket_at-Placed, Placed-append, rehash-Placed, replicate-Placed,
  find_cell-stored, find_in-Models, get-find_cell,
}
use thesis_data.HashMap.Edits

-- More entries make a table of 2 ^ 31 buckets grow.
abbrev pub most : ℕ
most = 3 * 2 ^ 29

must_grow-lt {ℓ} :
    {K V : Type ℓ} (hm : HashMap K V) → must_grow hm ≡ true → hm.elems ≤ most → hm.size < 2 ^ 31
unfolding must_grow
must_grow-lt hm full few = omega (arith, ltb→lt _ _ full)

module _ {ℓ} {K V : Type ℓ} (ops : KeyOps K) where
  -- The entries after `hmap_set`: a replaced value, or one more entry at the end.
  put_found : Option (Cell K V) → ℕ → K → V → List (Cell K V) → List (Cell K V)
  put_found (some c) p key elem cs = assign ops key elem cs
  put_found none p key elem cs = cs ++ (record { addr = p; key = key; val = elem } ∷ [])

  unfoldable pub put : ℕ → K → V → List (Cell K V) → List (Cell K V)
  unfolding put_found
  put p key elem cs = put_found (find_cell ops key cs) p key elem cs

module _ {ℓ} {K V : Type ℓ} {ops : KeyOps K} (laws : IsKey ops) where
  open laws use {equal_symm}

  -- `hmap_grow` keeps the entries.
  grow-Models :
      {hm : HashMap K V} {cs : List (Cell K V)}
      → Models ops hm cs
      → hm.size < 2 ^ 31
      → Returns
          (grow ops true hm (hm.size * 2 % size_mod))
          λ r. (hm' : HashMap K V) × (r ≡ some hm') × Models ops hm' cs × (hm'.heap ≡ hm.heap)
  unfolding grow
  grow-Models {hm} {cs} m small =
      let doubled : hm.size * 2 % size_mod ≡ hm.size * 2 = omega arith in
      let fits : ltb (hm.size * 2) (2 ^ 32) ≡ true = ground (arith, small) in
      let (bits, pow) = m.sized in
      let bigger : IsPow2 (hm.size * 2) = (suc bits, rw (pow, pow-suc)) in
      let (bs, run, placed) =
        rehash-Placed ops hm.heap (hm.size * 2) cs [] (replicate (hm.size * 2) []) bigger m.stored
          (replicate-Placed ops (hm.size * 2)) in
      (
        some (record hm { size = hm.size * 2; buckets = bs }),
        rw (grow, doubled, fits, m.linked, run) refl,
        (
          record hm { size = hm.size * 2; buckets = bs },
          refl,
          record {
            sized = bigger;
            placed = placed;
            counted = m.counted;
            few = m.few;
            linked = m.linked;
            stored = m.stored;
            apart = m.apart;
          },
          refl,
        ),
      )

  Apart-append :
      (cs : List (Cell K V)) (c : Cell K V)
      → Apart ops cs
      → Unused c.addr cs
      → Absent ops c.key cs
      → Apart ops (cs ++ (c ∷ []))
  Apart-append [] c a u v = (tt, tt, tt)
  Apart-append (d ∷ cs) c a u v = (
    Unused-append d.addr cs (c ∷ []) a.0 (ground (arith, u.0), tt),
    Absent-append d.key cs (c ∷ []) a.1 (ground (arith, v.0, equal_symm c.key d.key), tt),
    Apart-append cs c a.2 u.1 v.1,
  )
    where
      Absent-append :
          (k : K) (xs ys : List (Cell K V))
          → Absent ops k xs
          → Absent ops k ys
          → Absent ops k (xs ++ ys)
      Absent-append k [] ys s t = t
      Absent-append k (x ∷ xs) ys s t = (s.0, Absent-append k xs ys s.1 t)

  -- The new entry goes behind the others.
  link_entry-Models :
      {hm : HashMap K V} {cs : List (Cell K V)} (p : ℕ) (key : K) (elem : V)
      → Models ops hm cs
      → hm.heap p ≡ none
      → find_cell ops key cs ≡ none
      → suc (length cs) < size_mod
      → Returns (link_entry ops (some p) hm key elem) λ (done, hm').
        (done ≡ true) × Models ops hm' (cs ++ (record { addr = p; key = key; val = elem } ∷ []))
  unfolding link_entry
  link_entry-Models {hm} {cs} p key elem m free missing few =
      let c : Cell K V = record { addr = p; key = key; val = elem } in
      let inside = home-lt ops hm.size key m.sized in
      let unused : Unused p cs = Unused-of_free hm.heap p cs m.stored free in
      let i : ℕ = home ops hm.size key in
      let h' : Heap K V = write_at hm.heap p (some (content c)) in
      (
        (
          true,
          record hm {
            elems = inc_size hm.elems;
            buckets = set hm.buckets i (addrs (bucket_of ops hm.size i cs) ++ (p ∷ []));
            keys = hm.keys ++ (p ∷ []);
            heap = h';
          },
        ),
        rw (bucket_at-Placed ops (home ops hm.size key) m.placed inside),
        (
          refl,
          record {
            sized = m.sized;
            placed = Placed-append ops c m.placed inside;
            counted = omega (arith, m.counted, length-append cs (c ∷ []));
            few = omega (arith, length-append cs (c ∷ []));
            linked = rw (m.linked) (sym (addrs-append cs (c ∷ [])));
            stored =
                Stored-append _ cs (c ∷ []) (Stored-write hm.heap p _ cs m.stored unused)
                  (ground arith, tt);
            apart = Apart-append cs c m.apart unused (Absent-of_none ops key cs missing);
          },
        ),
      )

  add_entry-Models :
      {hm : HashMap K V} {cs : List (Cell K V)} (p : ℕ) (key : K) (elem : V)
      → Models ops hm cs
      → hm.heap p ≡ none
      → find_cell ops key cs ≡ none
      → length cs ≤ most
      → Returns (add_entry ops true (some p) hm key elem) λ (done, hm').
        (done ≡ true) × Models ops hm' (cs ++ (record { addr = p; key = key; val = elem } ∷ []))
  unfolding add_entry
  add_entry-Models {hm} {cs} p key elem m free missing few = elim (Bool-cases (must_grow hm)) [
    | inr room ↦ rw room (link_entry-Models p key elem m free missing (omega arith))
    | inl full ↦
        let (r, run, (grown, e, m', kept)) =
          grow-Models m (must_grow-lt hm full (omega (arith, m.counted))) in
        let linked = link_entry-Models p key elem m' (rw kept free) missing (omega arith) in
        rw (full, run, e) linked
  ]

  assign-Models :
      {hm : HashMap K V} {cs : List (Cell K V)} (key : K) (elem : V) (c : Cell K V)
      → Models ops hm cs
      → find_cell ops key cs ≡ some c
      → Models ops
          (record hm {
            heap = write_at hm.heap c.addr (some (record { key = c.key; elem = elem }));
          })
          (assign ops key elem cs)
  assign-Models {hm} {cs} key elem c m found = record {
    sized = m.sized;
    placed = record {
      width = m.placed.width;
      links = λ i h. rw (Edits.bucket_of-assign ops key elem hm.size i cs) (m.placed.links i h);
    };
    counted = rw (Edits.length-assign ops key elem cs) m.counted;
    few = rw (Edits.length-assign ops key elem cs) m.few;
    linked = rw (Edits.addrs-assign ops key elem cs) m.linked;
    stored = Edits.Stored-assign ops hm.heap key elem cs c m.stored m.apart found;
    apart = Edits.Apart-assign ops key elem cs m.apart;
  }

  -- On a table of at most 3 * 2 ^ 29 entries, so that it has fewer than 2 ^ 31 buckets where it
  -- grows, and where both allocations succeed and the new entry gets an address that is not in use,
  -- `hmap_set` does not fault and returns 0: it replaces the value under the key, or puts a new
  -- entry behind the others, and the result is again a valid table, also when it has grown.
  pub set_key-Models :
      {hm : HashMap K V} {cs : List (Cell K V)} (p : ℕ) (key : K) (elem : V)
      → Models ops hm cs
      → hm.heap p ≡ none
      → length cs ≤ most
      → Returns
          (set_key ops true (some p) hm key elem)
          λ (done, hm'). (done ≡ true) × Models ops hm' (put ops p key elem cs)
  unfolding set_key load put put_found
  set_key-Models {hm} {cs} p key elem m free few =
      rw
        (
          bucket_at-Placed ops (home ops hm.size key) m.placed (home-lt ops hm.size key m.sized),
          find_in-Models laws key m,
        )
        (elim (Option-cases (find_cell ops key cs)) [
          | inl missing ↦ rw missing (add_entry-Models p key elem m free missing few)
          | inr (c, found) ↦ rw (found) (
            (
              true,
              record hm {
                heap = write_at hm.heap c.addr (some (record { key = c.key; elem = elem }));
              },
            ),
            rw (find_cell-stored ops hm.heap key cs c m.stored found, load),
            (refl, assign-Models key elem c m found),
          )
        ])

  -- A `hmap_get` after a `hmap_set`, under the conditions of `set_key-Models`, returns the new
  -- value for a key that is equal to the one set, and for any other key what it returned before.
  pub get-set_key :
      {hm : HashMap K V} {cs : List (Cell K V)} (p : ℕ) (key q : K) (elem : V)
      → Models ops hm cs
      → hm.heap p ≡ none
      → length cs ≤ most
      → (set_key ops true (some p) hm key elem >>= λ r. get ops r.1 q)
        ≡ (if ops.equal q key then ok (some elem) else get ops hm q)
  unfolding put put_found
  get-set_key {cs} p key q elem m free few =
      let (r, run, (done, m')) = set_key-Models p key elem m free few in
      rw (run, get-find_cell laws q m', get-find_cell laws q m)
        (elim (Option-cases (find_cell ops key cs)) [
          | inl missing ↦
              rw missing (ground (arith, find_cell-append_new laws key q elem p cs missing))
          | inr (c, found) ↦ rw found (ground (arith, find_cell-assign laws key q elem cs c found))
        ])
