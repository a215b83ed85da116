-- ===== src/HashMap/Tests.antt =====
-- The theorems of the hash table at tables with integer keys, and some runs.
use thesis_data.Common.{
  Outcome, ℕ, ◌≡◌, refl, true, Option, none, some, List, [], ◌∷◌, arith, Returns, ok, ◌==◌,
  if◌then◌else◌, ◌>>=◌, replicate,
}
use thesis_data.HashMap.{
  HashMap, default_size, set_key, get, delete, flush, bucket_at, find_in, load, add_entry,
  must_grow, link_entry, unlink,
}
use thesis_data.HashMap.Cells.{Cell, find_cell, cell_val, erase}
use thesis_data.HashMap.Keys.{int_ops, int_ops-IsKey, hashint, hash_str, hash_str_from}
use thesis_data.HashMap.Models.{Models, replicate-Placed, get-find_cell}
use thesis_data.HashMap.Writes.{put, set_key-Models, get-set_key}
use thesis_data.HashMap.Deletes.{delete-Models, get-delete, flush-Models}

abbrev empty : HashMap ℕ ℕ
empty = record {
  size = default_size;
  elems = 0;
  buckets = replicate default_size [];
  keys = [];
  heap = λ _. none;
}

empty-Models : Models int_ops empty []
empty-Models = record {
  sized = (4, refl);
  placed = replicate-Placed int_ops default_size;
  counted = refl;
  few = omega arith;
  linked = refl;
  stored = tt;
  apart = tt;
}

-- One entry, for the key 3, at the address 100.
one_entry :
    Returns
      (set_key int_ops true (some 100) empty 3 30)
      λ (done, hm). (done ≡ true) × Models int_ops hm (put int_ops 100 3 30 [])
one_entry = set_key-Models int_ops-IsKey 100 3 30 empty-Models refl (omega arith)

abbrev one : HashMap ℕ ℕ
one = one_entry.0.1

abbrev one_cells : List (Cell ℕ ℕ)
one_cells = put int_ops 100 3 30 []

get-find_cell_example : get int_ops one 3 ≡ ok (cell_val (find_cell int_ops 3 one_cells))
get-find_cell_example = get-find_cell int_ops-IsKey 3 one_entry.2.1

set_key-Models_example :
    Returns
      (set_key int_ops true (some 100) empty 3 30)
      λ (done, hm). (done ≡ true) × Models int_ops hm (put int_ops 100 3 30 [])
set_key-Models_example = set_key-Models int_ops-IsKey 100 3 30 empty-Models refl (omega arith)

get-set_key_example :
    (set_key int_ops true (some 100) empty 3 30 >>= λ r. get int_ops r.1 19)
    ≡ (if 19 == 3 then ok (some 30) else get int_ops empty 19)
get-set_key_example = get-set_key int_ops-IsKey 100 3 19 30 empty-Models refl (omega arith)

delete-Models_example :
    Returns (delete int_ops one 3) λ hm'. Models int_ops hm' (erase int_ops 3 one_cells)
delete-Models_example = delete-Models int_ops-IsKey 3 one_entry.2.1

get-delete_example :
    (delete int_ops one 3 >>= λ hm'. get int_ops hm' 4)
    ≡ (if 4 == 3 then ok none else get int_ops one 4)
get-delete_example = get-delete int_ops-IsKey 3 4 one_entry.2.1

flush-Models_example : Returns (flush one) λ hm'. Models int_ops hm' [] × (hm'.elems ≡ 0)
flush-Models_example = flush-Models int_ops one_entry.2.1

-- A run: two entries, one of them replaced, one deleted.
script : Outcome (Option ℕ × Option ℕ)
script = do
  (_, a) ← set_key int_ops true (some 100) empty 3 30
  (_, b) ← set_key int_ops true (some 101) a 4 40
  (_, c) ← set_key int_ops true (some 102) b 3 31
  d ← delete int_ops c 4
  v ← get int_ops d 3
  w ← get int_ops d 4
  ok (v, w)

script_runs : script ≡ ok (some 31, none)
unfolding script set_key get delete bucket_at find_in load add_entry must_grow link_entry unlink
    hashint
script_runs = refl

hash_str_runs : hash_str (0x61 ∷ 0x62 ∷ []) ≡ 5863208
unfolding hash_str hash_str_from
hash_str_runs = refl
