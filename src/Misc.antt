-- ===== src/Misc.antt =====
-- sdnres-src/lib/misc.c: the text helpers. A C string is the list of its bytes in front of the
-- terminating zero. The allocations of `strsplit` succeed.
pub mod Split
pub mod Tests
use thesis_data.Common.{
  ℕ, zero, suc, ◌+◌, ◌≡◌, Option, none, some, List, [], ◌∷◌, reverse, ◌==◌, if◌then◌else◌, Outcome,
  ok, fault, out_of_bounds, null_pointer, ◌>>=◌,
}

abbrev pub space : ℕ
space = 32

-- The string up to the first `c`, which is overwritten with a zero.
unfoldable pub before : ℕ → List ℕ → List ℕ
before c [] = []
before c (b ∷ s) = let rest = before c s in if b == c then [] else b ∷ rest

-- What `strchr` finds, past its first byte; `none` is the null pointer.
unfoldable pub behind : ℕ → List ℕ → Option (List ℕ)
behind c [] = none
behind c (b ∷ s) = let rest = behind c s in if b == c then some s else rest

-- `strip_crlf`
unfoldable pub strip_crlf : List ℕ → List ℕ
strip_crlf line = before 13 (before 10 line)

-- The last loop of `remove_trail`, on the bytes up to `s`, the last of them first. In front of the
-- line it reads out of bounds.
unfoldable pub trim_from : List ℕ → Outcome (List ℕ)
trim_from [] = fault out_of_bounds
trim_from (b ∷ front) =
    let rest = trim_from front in if b == space then rest else ok (reverse (b ∷ front))

-- `remove_trail`
unfoldable pub remove_trail : List ℕ → Outcome (List ℕ)
remove_trail [] = ok []
remove_trail (b ∷ s) = trim_from (reverse (b ∷ s))

-- The loop of `strsplit` that counts the separators.
unfoldable pub count : ℕ → List ℕ → ℕ
count c [] = 0
count c (b ∷ s) = let rest = count c s in if b == c then suc rest else rest

-- The loop of `strsplit` that fills `vargs`, for the turns that are left.
unfoldable pub pieces : ℕ → ℕ → Option (List ℕ) → Outcome (List (List ℕ))
pieces zero c s = ok []
pieces (suc n) c none = fault null_pointer
pieces (suc n) c (some s) = pieces n c (behind c s) >>= λ rest. ok (before c s ∷ rest)

-- `strsplit`
unfoldable pub strsplit : List ℕ → ℕ → Outcome (List (List ℕ))
strsplit line c = remove_trail line >>= λ s. pieces (suc (count c s)) c (some s)

-- `strreplace`
unfoldable pub strreplace : List ℕ → ℕ → ℕ → List ℕ
strreplace [] from to = []
strreplace (b ∷ s) from to = (if b == from then to else b) ∷ strreplace s from to
