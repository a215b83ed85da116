-- ===== src/Lpm/Tests.antt =====
-- A trie of prefixes, and look-ups in it.
use thesis_data.Common.{
  ℕ, zero, suc, ◌≡◌, ◌≤◌, ◌⊎◌, inl, inr, refl, arith, Returns, some, Outcome, ok, [], ◌∷◌, ◌>>=◌,
}
use thesis_data.Lpm.{
  Addr, byte_at, bit, Tree, empty, node, new, same_bits, match_node, match_child, lookup_from,
  lookup, is_within, enters, common_from, common_prefix_len, with_children, replace_child,
  insert_at, is_exact, insert,
}
use thesis_data.Lpm.{optimize_plen, optimize, rejoin, delete_from, delete}
use thesis_data.Lpm.Deleted.{Deleted}
use thesis_data.Lpm.Delete.{IsHead, or_null, delete-Deleted}
use thesis_data.Common.{Option, fault, null_pointer}
use thesis_data.Lpm.Below.{IsTree, Has}
use thesis_data.Lpm.Longest.{Covers, IsLongest, NoneCovers, lookup-IsLongest}
use thesis_data.Lpm.Updated.{Continues, Updated}
use thesis_data.Lpm.Insert.{insert-Updated}
use thesis_data.Lpm.Roundtrip.{lookup-insert}

abbrev start : ℕ → Addr
start b = b ∷ []

abbrev two : Outcome Tree
two = insert (start 240) 4 1 new >>= λ t. insert (start 128) 1 2 t

abbrev three : Outcome Tree
three = two >>= λ t. insert (start 192) 4 3 t

abbrev four : Outcome Tree
four = three >>= λ t. insert (start 128) 4 4 t

-- After f000::/4, 8000::/1 and c000::/4, the entry for c000::/4 is found.
found_before : three >>= (λ t. lookup t (start 192)) ≡ ok 3
unfolding byte_at bit same_bits match_node match_child lookup_from lookup is_within enters
    common_from common_prefix_len with_children replace_child insert_at is_exact insert
found_before = refl

-- After 8000::/4 it is not: the entry for 8000::/1 is.
lost_after : four >>= (λ t. lookup t (start 192)) ≡ ok 2
unfolding byte_at bit same_bits match_node match_child lookup_from lookup is_within enters
    common_from common_prefix_len with_children replace_child insert_at is_exact insert
lost_after = refl

abbrev small : Tree
small = node (some 0) [] 0 empty (node (some 1) (start 240) 4 empty empty)

small-IsTree : IsTree small
unfolding byte_at bit
small-IsTree =
    (refl, tt, (omega arith, omega arith, (λ k v. absurd (omega (arith, v))), refl, tt, tt))

small_lengths : (q : Addr) (k x : ℕ) → Has small q k x → k ≤ 4
small_lengths q k x (inl (e, same, len)) = omega (arith, len)
small_lengths q k x (inr (inl h)) = absurd h
small_lengths q k x (inr (inr (inl (e, same, len)))) = omega (arith, len)
small_lengths q k x (inr (inr (inr (inl h)))) = absurd h
small_lengths q k x (inr (inr (inr (inr h)))) = absurd h

small-Continues : Continues (start 192) 4 2 small
small-Continues q k (inl (same, len)) agree lt = absurd (omega (arith, len, lt))
small-Continues q k (inr (inl h)) agree lt = absurd h
small-Continues q k (inr (inr (inl (same, len)))) agree lt = absurd (omega (arith, len, lt))
small-Continues q k (inr (inr (inr (inl h)))) agree lt = absurd h
small-Continues q k (inr (inr (inr (inr h)))) agree lt = absurd h

covered : Covers (start 192) 4 (start 199)
unfolding byte_at bit
covered zero v = refl
covered (suc zero) v = refl
covered (suc (suc zero)) v = refl
covered (suc (suc (suc zero))) v = refl
covered (suc (suc (suc (suc k)))) v = absurd (omega (arith, v))

lookup-IsLongest_example :
    Returns
      (lookup small (start 241))
      λ x. IsLongest small (start 241) x ⊎ ((x ≡ 0) × NoneCovers small (start 241))
lookup-IsLongest_example = lookup-IsLongest small (start 241) small-IsTree

insert-Updated_example :
    Returns (insert (start 192) 4 2 small) λ t2. IsTree t2 × Updated (start 192) 4 2 small t2
insert-Updated_example =
    insert-Updated (start 192) 4 2 small (omega arith) small-IsTree small-Continues

lookup-insert_example : insert (start 192) 4 2 small >>= (λ t2. lookup t2 (start 199)) ≡ ok 2
lookup-insert_example =
    lookup-insert (start 192) 4 2 small (start 199) (omega arith) small-IsTree small-Continues
      covered (λ q k x h c. small_lengths q k x h)

delete-Deleted_example :
    Returns
      (delete (start 240) 4 small)
      λ (y, t2). IsHead t2 × ((o : Option ℕ) × (y ≡ or_null o) × Deleted (start 240) 4 small o t2)
delete-Deleted_example =
    delete-Deleted (start 240) 4 small (omega arith) (omega arith) (tt, small-IsTree)

-- After `::/0` has been deleted, the head has the prefix f000::/4, and each address is in it.
all_after : delete (start 0) 0 small >>= (λ (y, t). lookup t (start 16)) ≡ ok 1
unfolding byte_at bit same_bits match_node match_child lookup_from lookup is_within enters is_exact
    optimize_plen optimize rejoin delete_from delete
all_after = refl

-- After it has been deleted from a tree with no other entry, there is a fault.
none_left : delete (start 0) 0 new ≡ fault null_pointer
unfolding byte_at bit same_bits match_node match_child is_within enters is_exact optimize_plen
    optimize rejoin delete_from delete
none_left = refl
