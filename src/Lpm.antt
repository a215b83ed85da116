-- ===== src/Lpm.antt =====
-- sdnres-src/lib/lpm.c and lpm.h: the trie of prefixes. A tree is a node with its two children, a
-- null pointer is `empty`; the pointers to parents are not part of the model. The payload `none`
-- is the pointer -1 of a virtual node, and 0 is the null pointer. An address is its 16 bytes.
-- Allocations succeed.
pub mod Below
pub mod Longest
pub mod Updated
pub mod Parting
pub mod Insert
pub mod Roundtrip
pub mod Optimize
pub mod Deleted
pub mod Delete
pub mod Tests
use thesis_data.Common.{
  ℕ, zero, suc, ◌+◌, ◌-◌, ◌*◌, ◌/◌, ◌%◌, ◌^◌, Bool, true, false, not, ◌&&◌, Option, none, some,
  List, [], ◌∷◌, ltb, leb, ◌==◌, if◌then◌else◌, Outcome, ok, fault, out_of_bounds, assertion,
  null_pointer, ◌>>=◌, require,
}

-- `struct in6_addr`
abbrev pub Addr : Type 0
Addr = List ℕ

unfoldable pub byte_at : Addr → ℕ → ℕ
byte_at [] i = 0
byte_at (b ∷ bs) zero = b
byte_at (b ∷ bs) (suc i) = byte_at bs i

-- What `addr_to_binary` writes at an index.
unfoldable pub bit : Addr → ℕ → Bool
bit addr k = byte_at addr (k / 8) / 2 ^ (7 - k % 8) % 2 == 1

-- `struct lpm_node`
pub data Tree : Type 0 where
  empty : Tree
  node : Option ℕ → Addr → ℕ → Tree → Tree → Tree

-- The tree of `lpm_new`.
abbrev pub new : Tree
new = node (some 0) [] 0 empty empty

abbrev pub same_char : Bool → Bool → Bool
same_char true b = b
same_char false b = not b

-- `memcmp` of a number of characters from an index on, where they are the same.
unfoldable pub same_bits : (ℕ → Bool) → (ℕ → Bool) → ℕ → ℕ → Bool
same_bits p a k zero = true
same_bits p a k (suc n) =
    let rest = same_bits p a (suc k) n in if same_char (p k) (a k) then rest else false

-- `match_node`; the buffers have 129 characters.
unfoldable pub match_node : Addr → ℕ → Addr → ℕ → Outcome Bool
match_node prefix plen addr cur_plen =
    if plen == 0
    then ok true
    else if leb cur_plen plen && leb plen 129
    then ok (same_bits (bit prefix) (bit addr) cur_plen (plen - cur_plen))
    else fault out_of_bounds

-- The tests on a child of a node of a given prefix length.
unfoldable pub match_child : Tree → Addr → ℕ → Outcome Bool
match_child empty addr cur_plen = ok false
match_child (node d prefix plen l r) addr cur_plen = match_node prefix plen addr cur_plen

-- The payload of `last_match` after a node.
abbrev pub last_of : Option ℕ → Option ℕ → Option ℕ
last_of last_match none = last_match
last_of last_match (some x) = some x

-- The loop of `__lpm_lookup`, for the payload of `last_match`.
unfoldable pub lookup_from : Addr → Option ℕ → Tree → Outcome (Option ℕ)
lookup_from addr last_match empty = ok last_match
lookup_from addr last_match (node d prefix plen l r) =
    let last' = last_of last_match d in
    let below_l = lookup_from addr last' l in
    let below_r = lookup_from addr last' r in
    match_child l addr plen >>= λ in_l.
    if in_l
    then below_l
    else (match_child r addr plen >>= λ in_r. if in_r then below_r else ok last')

-- `lpm_lookup`; a null pointer is 0.
unfoldable pub lookup : Tree → Addr → Outcome ℕ
lookup t addr = lookup_from addr none t >>= λ d. elim d [ none ↦ ok 0 | some x ↦ ok x ]

-- The bound on the prefix length of a child that is gone down to.
unfoldable pub is_within : Tree → ℕ → Bool
is_within empty plen = false
is_within (node d prefix cplen l r) plen = leb cplen plen

-- The tests on a child in `__lpm_lookup_exact`.
unfoldable pub enters : Tree → Addr → ℕ → ℕ → Outcome Bool
enters t prefix plen cur_plen = if is_within t plen then match_child t prefix cur_plen else ok false

-- The loop of `common_prefix_len`.
unfoldable pub common_from : (ℕ → Bool) → (ℕ → Bool) → ℕ → ℕ → ℕ
common_from p1 p2 i zero = i
common_from p1 p2 i (suc n) =
    let rest = common_from p1 p2 (suc i) n in if same_char (p1 i) (p2 i) then rest else i

-- `common_prefix_len`
unfoldable pub common_prefix_len : Addr → Addr → ℕ → ℕ
common_prefix_len p1 p2 maxplen = common_from (bit p1) (bit p2) 0 maxplen

-- A node with a given child on the side of a bit, and the other on the other side.
unfoldable pub with_children : Option ℕ → Addr → ℕ → Bool → Tree → Tree → Tree
with_children d prefix plen true child other = node d prefix plen other child
with_children d prefix plen false child other = node d prefix plen child other

-- What `lpm_insert` puts in place of the child it finds.
unfoldable pub replace_child : Addr → ℕ → ℕ → Tree → Outcome Tree
replace_child prefix plen payload empty = ok (node (some payload) prefix plen empty empty)
replace_child prefix plen payload (node d cprefix cplen' l r) =
    let child_node : Tree = node d cprefix cplen' l r in
    let new_node : Tree = node (some payload) prefix plen empty empty in
    let cplen : ℕ = common_prefix_len cprefix prefix plen in
    require (ltb 0 cplen) assertion >>= λ _.
    if cplen == plen
    then ok (with_children (some payload) prefix plen (bit prefix cplen) child_node empty)
    else (require (ltb cplen plen) assertion >>= λ _.
        ok (with_children none prefix cplen (bit prefix cplen) new_node child_node))

-- The rest of `lpm_insert`, where `save` is the node with the two children.
unfoldable pub insert_at : Addr → ℕ → ℕ → Option ℕ → Addr → ℕ → Tree → Tree → Outcome Tree
insert_at prefix plen payload d sprefix splen l r =
    let in_l = replace_child prefix plen payload l in
    let in_r = replace_child prefix plen payload r in
    if splen == plen
    then elim d [ none ↦ ok (node (some payload) sprefix splen l r) | some x ↦ fault assertion ]
    else if bit prefix splen
    then (in_r >>= λ r'. ok (node d sprefix splen l r'))
    else (in_l >>= λ l'. ok (node d sprefix splen l' r))

-- The test of `__lpm_lookup_exact` on a node: it is the entry of the prefix.
unfoldable pub is_exact : Addr → ℕ → Option ℕ → Addr → ℕ → Outcome Bool
is_exact prefix plen d sprefix splen = match_node sprefix splen prefix 0 >>= λ m.
    ok (m && splen == plen && elim d [ none ↦ false | some x ↦ true ])

-- `lpm_insert`, with the loop of `__lpm_lookup_exact`.
unfoldable pub insert : Addr → ℕ → ℕ → Tree → Outcome Tree
insert prefix plen payload empty = ok empty
insert prefix plen payload (node d sprefix splen l r) =
    let below_l = insert prefix plen payload l in
    let below_r = insert prefix plen payload r in
    is_exact prefix plen d sprefix splen >>= λ found.
    if found
    then ok (node (some payload) sprefix splen l r)
    else (enters l prefix plen splen >>= λ in_l.
        if in_l
        then (below_l >>= λ l'. ok (node d sprefix splen l' r))
        else (enters r prefix plen splen >>= λ in_r.
            if in_r
            then (below_r >>= λ r'. ok (node d sprefix splen l r'))
            else insert_at prefix plen payload d sprefix splen l r))

-- The loop of `__lpm_lookup_exact`: the payload of `match`, `none` for a null pointer.
unfoldable pub lookup_exact : Addr → ℕ → Tree → Outcome (Option ℕ)
lookup_exact prefix plen empty = ok none
lookup_exact prefix plen (node d sprefix splen l r) =
    let below_l = lookup_exact prefix plen l in
    let below_r = lookup_exact prefix plen r in
    is_exact prefix plen d sprefix splen >>= λ found.
    if found
    then ok d
    else (enters l prefix plen splen >>= λ in_l.
        if in_l
        then below_l
        else (enters r prefix plen splen >>= λ in_r. if in_r then below_r else ok none))

-- `optimize_virtual_plen`, for a virtual node with two children.
unfoldable pub optimize_plen : Addr → ℕ → Tree → Tree → Outcome Tree
optimize_plen prefix plen empty r = ok (node none prefix plen empty r)
optimize_plen prefix plen (node d p n ll lr) empty =
    ok (node none prefix plen (node d p n ll lr) empty)
optimize_plen prefix plen (node d p n ll lr) (node e q m rl rr) =
    let l : Tree = node d p n ll lr in
    let r : Tree = node e q m rl rr in
    let minplen : ℕ = if ltb n m then n else m in
    let cplen : ℕ = common_prefix_len p q minplen in
    require (leb plen cplen) assertion >>= λ _.
    if cplen == plen then ok (node none prefix plen l r) else ok (node none p cplen l r)

-- `optimize_virtual`, with `merge_child` and `optimize_virtual_empty`; the tree is `empty` where
-- the node has been taken out, and its parent is next.
unfoldable pub optimize : Tree → Outcome Tree
optimize empty = ok empty
optimize (node (some x) p n l r) = ok (node (some x) p n l r)
optimize (node none p n empty empty) = ok empty
optimize (node none p n empty (node e q m rl rr)) = optimize (node e q m rl rr)
optimize (node none p n (node d q m ll lr) empty) = optimize (node d q m ll lr)
optimize (node none p n (node d q m ll lr) (node e s k rl rr)) =
    optimize_plen p n (node d q m ll lr) (node e s k rl rr)

-- A node whose child has been through `lpm_delete`: it is optimized if the child has been taken
-- out.
unfoldable pub rejoin : Tree → Tree → Outcome Tree
rejoin empty t = optimize t
rejoin (node d p n l r) t = ok t

-- `lpm_delete_node` where `__lpm_lookup_exact` finds it: the payload of the entry, `none` for no
-- entry, and the tree.
unfoldable pub delete_from : Addr → ℕ → Tree → Outcome (Option ℕ × Tree)
delete_from prefix plen empty = ok (none, empty)
delete_from prefix plen (node d sprefix splen l r) =
    let below_l = delete_from prefix plen l in
    let below_r = delete_from prefix plen r in
    is_exact prefix plen d sprefix splen >>= λ found.
    if found
    then (optimize (node none sprefix splen l r) >>= λ t. ok (d, t))
    else (enters l prefix plen splen >>= λ in_l.
        if in_l
        then (below_l >>= λ (x, l'). rejoin l' (node d sprefix splen l' r) >>= λ t. ok (x, t))
        else (enters r prefix plen splen >>= λ in_r.
            if in_r
            then (below_r >>= λ (x, r'). rejoin r' (node d sprefix splen l r') >>= λ t. ok (x, t))
            else ok (none, node d sprefix splen l r)))

-- `lpm_delete`; the head has no parent that it can be taken out of. A null pointer is 0.
unfoldable pub delete : Addr → ℕ → Tree → Outcome (ℕ × Tree)
delete prefix plen t = delete_from prefix plen t >>= λ (x, t2). elim t2 [
  | empty ↦ fault null_pointer
  | node d p n l r ↦ elim x [ none ↦ ok (0, node d p n l r) | some y ↦ ok (y, node d p n l r) ]
]
