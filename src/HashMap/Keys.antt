-- ===== src/HashMap/Keys.antt =====
-- The keys that the program hashes: the inline functions of sdnres-src/lib/hashmap.h, `hashint` of
-- sdnres-src/lib/misc.h, the node keys of sdnres-src/sr-ctrl/graph.h and the pairs of graph.c.
-- A string is the list of its bytes before the terminator, an IPv6 address its four words.
use Prim.Native.Nat.{bit_xor, bit_or}
use thesis_data.Common.{
  ℕ, ◌+◌, ◌*◌, ◌/◌, ◌%◌, ◌^◌, ◌≡◌, ◌↔◌, refl, ap, sym, ◌∙◌, Bool, true, false, ◌&&◌, List, [], ◌∷◌,
  arith, ◌==◌, ==_iff, Bool-cases, inl, inr,
}
use thesis_data.HashMap.{KeyOps, IsKey}

-- `hashint`, on 32-bit words
unfoldable pub hashint : ℕ → ℕ
hashint x =
    let a : ℕ = bit_xor (x / 2 ^ 16) x * 0x45d9f3b % 2 ^ 32 in
    let b : ℕ = bit_xor (a / 2 ^ 16) a * 0x45d9f3b % 2 ^ 32 in bit_xor (b / 2 ^ 16) b

-- The loop of `hash_str`, from a hash on.
unfoldable pub hash_str_from : ℕ → List ℕ → ℕ
hash_str_from hash [] = hash
hash_str_from hash (c ∷ str) = hash_str_from ((hash * 2 ^ 5 + hash + c) % 2 ^ 32) str

-- `hash_str`
unfoldable pub hash_str : List ℕ → ℕ
hash_str str = hash_str_from 5381 str

-- `strcmp(a, b) == 0`
unfoldable pub str_equal : List ℕ → List ℕ → Bool
str_equal [] [] = true
str_equal [] (d ∷ t) = false
str_equal (c ∷ s) [] = false
str_equal (c ∷ s) (d ∷ t) = c == d && str_equal s t

-- `struct in6_addr`, by `s6_addr32`
pub record In6Addr : Type 0 where
  pub word_0 : ℕ
  pub word_1 : ℕ
  pub word_2 : ℕ
  pub word_3 : ℕ

-- `hash_in6`
unfoldable pub hash_in6 : In6Addr → ℕ
hash_in6 a = hashint (
    bit_xor (bit_xor (bit_xor (hashint a.word_0) (hashint a.word_1)) (hashint a.word_2))
      (hashint a.word_3))

-- `compare_in6(a, b) == 0`
unfoldable pub in6_equal : In6Addr → In6Addr → Bool
in6_equal a b =
    a.word_0 == b.word_0 && (a.word_1 == b.word_1 && (a.word_2 == b.word_2 && a.word_3 == b.word_3))

-- A pair of nodes as a key, by their identifiers.
pub record NodePair : Type 0 where
  pub local_id : ℕ
  pub remote_id : ℕ

-- `hash_nodepair`: `unsigned int` shifts drop the high bits.
unfoldable pub hash_nodepair : NodePair → ℕ
hash_nodepair p = hashint (bit_or (p.local_id * 2 ^ 16 % 2 ^ 32) p.remote_id)

-- `compare_nodepair(a, b) == 0`
unfoldable pub nodepair_equal : NodePair → NodePair → Bool
nodepair_equal a b = a.local_id == b.local_id && a.remote_id == b.remote_id

abbrev pub str_ops : KeyOps (List ℕ)
str_ops = record { hash = hash_str; equal = str_equal }

abbrev pub in6_ops : KeyOps In6Addr
in6_ops = record { hash = hash_in6; equal = in6_equal }

-- `hash_int` and `compare_int`. The integer is truncated to 32 bits when it is hashed.
abbrev pub int_ops : KeyOps ℕ
int_ops = record { hash = λ k. hashint (k % 2 ^ 32); equal = ◌==◌ }

-- `hash_node` and `compare_node`, on the identifier of the node.
abbrev pub node_ops : KeyOps ℕ
node_ops = record { hash = hashint; equal = ◌==◌ }

abbrev pub nodepair_ops : KeyOps NodePair
nodepair_ops = record { hash = hash_nodepair; equal = nodepair_equal }

-- A comparison that decides equality serves with any hash.
IsKey-of_iff {ℓ} :
    {K : Type ℓ} (ops : KeyOps K) → ((a b : K) → (ops.equal a b ≡ true) ↔ (a ≡ b)) → IsKey ops
IsKey-of_iff ops decides = record {
  equal_refl = λ a. (decides a a).1 refl;
  equal_symm = λ a b. elim (Bool-cases (ops.equal a b)) [
    | inl e ↦ e ∙ sym ((decides b a).1 (sym ((decides a b).0 e)))
    | inr e ↦ elim (Bool-cases (ops.equal b a)) [
      | inl e' ↦ (decides a b).1 (sym ((decides b a).0 e')) ∙ sym e'
      | inr e' ↦ e ∙ sym e'
    ]
  ];
  equal_trans = λ a b c p q. (decides a c).1 ((decides a b).0 p ∙ (decides b c).0 q);
  hash-equal = λ a b p. ap ops.hash ((decides a b).0 p);
}

pub str_equal_iff : (s t : List ℕ) → (str_equal s t ≡ true) ↔ (s ≡ t)
unfolding str_equal
str_equal_iff [] [] = (λ _. refl, λ _. refl)
str_equal_iff [] (d ∷ t) = (λ h. cc, λ h. cc)
str_equal_iff (c ∷ s) [] = (λ h. cc, λ h. cc)
str_equal_iff (c ∷ s) (d ∷ t) =
    (λ h. ground (arith, str_equal_iff s t), λ h. ground (arith, str_equal_iff s t))

in6_equal_iff : (a b : In6Addr) → (in6_equal a b ≡ true) ↔ (a ≡ b)
unfolding in6_equal
in6_equal_iff a b = (λ h. ground arith, λ h. ground arith)

pub nodepair_equal_iff : (a b : NodePair) → (nodepair_equal a b ≡ true) ↔ (a ≡ b)
unfolding nodepair_equal
nodepair_equal_iff a b = (λ h. ground arith, λ h. ground arith)

pub str_ops-IsKey : IsKey str_ops
str_ops-IsKey = IsKey-of_iff str_ops str_equal_iff

pub in6_ops-IsKey : IsKey in6_ops
in6_ops-IsKey = IsKey-of_iff in6_ops in6_equal_iff

pub int_ops-IsKey : IsKey int_ops
int_ops-IsKey = IsKey-of_iff int_ops ==_iff

pub node_ops-IsKey : IsKey node_ops
node_ops-IsKey = IsKey-of_iff node_ops ==_iff

pub nodepair_ops-IsKey : IsKey nodepair_ops
nodepair_ops-IsKey = IsKey-of_iff nodepair_ops nodepair_equal_iff
