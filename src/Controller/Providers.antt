-- ===== src/Controller/Providers.antt =====
-- The branch of `load_config` of sdnres-src/sr-ctrl/sr-ctrl.c for a line of providers, which has
-- come in whole: it has at most 127 bytes, so that its words fit into the fields.
pub mod Tests
use thesis_data.Common.{
  ℕ, zero, suc, ◌+◌, ◌*◌, ◌/◌, ◌%◌, ◌^◌, ◌≤◌, ◌<◌, ◌≡◌, inl, inr, refl, ap, ap₂, sym, ◌∙◌, Bool,
  true, false, ◌||◌, List, [], ◌∷◌, ◌++◌, map, length, drop, ltb, ◌==◌, if◌then◌else◌, Outcome, ok,
  fault, out_of_bounds, ◌>>=◌, arith, Bool-cases,
}
use thesis_data.Rules.{to_int}
use thesis_data.Graph.Minimal.{All}
use thesis_data.Controller.{Provider}

-- The bytes that the first loop replaces.
abbrev pub is_separator : ℕ → Bool
is_separator c = c == 32 || c == 47

-- The first loop: how many there are.
unfoldable pub separators : List ℕ → ℕ
separators [] = 0
separators (c ∷ s) = let rest = separators s in if is_separator c then suc rest else rest

-- A byte in front of the first string.
unfoldable pub in_front : ℕ → List (List ℕ) → List (List ℕ)
in_front c [] = (c ∷ []) ∷ []
in_front c (w ∷ ws) = (c ∷ w) ∷ ws

-- The strings that the first loop leaves, one behind the other.
unfoldable pub strings : List ℕ → List (List ℕ)
strings [] = [] ∷ []
strings (c ∷ s) = let rest = strings s in if is_separator c then [] ∷ rest else in_front c rest

-- The loop over the providers: the pointer goes on by five strings in each turn, and a string
-- behind the last one is out of bounds.
unfoldable pub read_providers : ℕ → List (List ℕ) → Outcome (List Provider)
read_providers zero ws = ok []
read_providers (suc n) [] = fault out_of_bounds
read_providers (suc n) (name ∷ []) = fault out_of_bounds
read_providers (suc n) (name ∷ addr ∷ []) = fault out_of_bounds
read_providers (suc n) (name ∷ addr ∷ len ∷ []) = fault out_of_bounds
read_providers (suc n) (name ∷ addr ∷ len ∷ via ∷ []) = fault out_of_bounds
read_providers (suc n) (name ∷ addr ∷ len ∷ via ∷ router ∷ ws) = read_providers n ws >>= λ ps.
    ok (record { router = router; name = name; addr = addr; prefix_len = to_int len % 2 ^ 8 } ∷ ps)

-- The branch, for a line that begins with `providers` and a space. `fgets` leaves at most 127 bytes
-- in the buffer of 128, and one more has no place in it.
unfoldable pub parse_providers : List ℕ → Outcome (List Provider)
parse_providers buf =
    if ltb (length buf) 128
    then read_providers (separators buf / 4) (strings (drop 10 buf))
    else fault out_of_bounds

-- What stands in a line for a provider: `name addr/len via router`.
pub record Entry : Type 0 where
  pub name : List ℕ
  pub addr : List ℕ
  pub len : List ℕ
  pub via : List ℕ
  pub router : List ℕ

abbrev pub provider_of : Entry → Provider
provider_of e = record {
  router = e.router;
  name = e.name;
  addr = e.addr;
  prefix_len = to_int e.len % 2 ^ 8;
}

abbrev pub IsWord : List ℕ → Type 0
IsWord w = All (λ c. is_separator c ≡ false) w

abbrev pub AreWords : Entry → Type 0
AreWords e = IsWord e.name × IsWord e.addr × IsWord e.len × IsWord e.via × IsWord e.router

-- Strings, each behind its separator.
abbrev Behind : Type 0
Behind = List (ℕ × List ℕ)

abbrev text : Behind → List ℕ
text [] = []
text ((c, w) ∷ t) = c ∷ w ++ text t

abbrev rest_of : Entry → Behind → Behind
rest_of e t = (32, e.addr) ∷ (47, e.len) ∷ (32, e.via) ∷ (32, e.router) ∷ t

abbrev behind : List Entry → Behind
behind [] = []
behind (e ∷ es) = (32, e.name) ∷ rest_of e (behind es)

-- The line `providers`, with a provider or more.
abbrev pub line : Entry → List Entry → List ℕ
line e es =
    112 ∷ 114 ∷ 111 ∷ 118 ∷ 105 ∷ 100 ∷ 101 ∷ 114 ∷ 115 ∷ 32 ∷ e.name
    ++ text (rest_of e (behind es))

abbrev Separated : Behind → Type 0
Separated t = All (λ (p : ℕ × List ℕ). (is_separator p.0 ≡ true) × IsWord p.1) t

abbrev words : Behind → List (List ℕ)
words t = map (λ (p : ℕ × List ℕ). p.1) t

strings-text :
    (w : List ℕ) (t : Behind) → IsWord w → Separated t → strings (w ++ text t) ≡ w ∷ words t
unfolding strings in_front
strings-text [] [] a s = refl
strings-text [] ((c, w) ∷ t) a ((e, b), s) =
    rw (strings, e) (ap (λ ws. [] ∷ ws) (strings-text w t b s))
strings-text (c ∷ w) t (e, a) s = rw (strings, e, strings-text w t a s) refl

separators-text :
    (w : List ℕ) (t : Behind) → IsWord w → Separated t → separators (w ++ text t) ≡ length t
unfolding separators
separators-text [] [] a s = refl
separators-text [] ((c, w) ∷ t) a ((e, b), s) =
    rw (separators, e) (ap suc (separators-text w t b s))
separators-text (c ∷ w) t (e, a) s = rw (separators, e) (separators-text w t a s)

rest_of-Separated : (e : Entry) (t : Behind) → AreWords e → Separated t → Separated (rest_of e t)
rest_of-Separated e t (n, a, l, v, r) s = ((refl, a), ((refl, l), ((refl, v), ((refl, r), s))))

behind-Separated : (es : List Entry) → All AreWords es → Separated (behind es)
behind-Separated [] a = tt
behind-Separated (e ∷ es) ((n, a, l, v, r), more) =
    ((refl, n), rest_of-Separated e (behind es) (n, a, l, v, r) (behind-Separated es more))

length-behind : (es : List Entry) → length (behind es) ≡ 5 * length es
length-behind [] = refl
length-behind (e ∷ es) = omega (arith, length-behind es)

-- As many turns as there are entries read them all, one turn more reads behind the last.
read_providers-behind :
    (es : List Entry) (n : ℕ)
    → n ≡ length es
    → read_providers n (words (behind es)) ≡ ok (map provider_of es)
unfolding read_providers
read_providers-behind [] zero h = refl
read_providers-behind [] (suc n) h = absurd (omega (arith, h))
read_providers-behind (e ∷ es) zero h = absurd (omega (arith, h))
read_providers-behind (e ∷ es) (suc n) h =
    rw (read_providers, read_providers-behind es n (omega (arith, h))) refl

read_providers-beyond :
    (es : List Entry) (n : ℕ)
    → length es < n
    → read_providers n (words (behind es)) ≡ fault out_of_bounds
unfolding read_providers
read_providers-beyond es zero h = absurd (omega (arith, h))
read_providers-beyond [] (suc n) h = refl
read_providers-beyond (e ∷ es) (suc n) h =
    rw (read_providers, read_providers-beyond es n (omega (arith, h))) refl

counted : (n : ℕ) → ltb n 4 ≡ true → 5 * n / 4 ≡ n
counted n h = let few : n < 4 = ground (arith, h) in omega (arith, few)

overcounted : (n : ℕ) → ltb n 4 ≡ false → n < 5 * n / 4
overcounted n h = let many : 4 ≤ n = ground (arith, h) in omega (arith, many)

-- The number of the separators of a line, and its strings.
module _ (e : Entry) (es : List Entry) (a : All AreWords (e ∷ es)) where
  tail_Separated : Separated (rest_of e (behind es))
  tail_Separated = rest_of-Separated e (behind es) a.0 (behind-Separated es a.1)

  separators-line : separators (line e es) ≡ 5 * length (e ∷ es)
  unfolding separators
  separators-line =
      let tail : separators (e.name ++ text (rest_of e (behind es)))
          ≡ length (rest_of e (behind es)) =
        separators-text e.name (rest_of e (behind es)) a.0.0 tail_Separated in
      omega (arith, tail, length-behind es)

  strings-line : strings (drop 10 (line e es)) ≡ words (behind (e ∷ es))
  strings-line = strings-text e.name (rest_of e (behind es)) a.0.0 tail_Separated

-- A line of at most 126 bytes, so that `fgets` reads it whole with its line end, of one to three
-- providers, of words without a space or a slash, is read back as these providers. On such a line
-- of four or more `load_config` counts more providers than there are, and reads
-- behind the end of the line.
pub parse_providers-line :
    (e : Entry) (es : List Entry)
    → All AreWords (e ∷ es)
    → length (line e es) ≤ 126
    → parse_providers (line e es)
      ≡ (if ltb (length (e ∷ es)) 4 then ok (map provider_of (e ∷ es)) else fault out_of_bounds)
unfolding parse_providers
parse_providers-line e es a whole =
    let fits : ltb (length (line e es)) 128 ≡ true = ground (arith, whole) in
    let read : parse_providers (line e es)
        ≡ read_providers (5 * length (e ∷ es) / 4) (words (behind (e ∷ es))) =
      rw (parse_providers, fits)
        (ap₂ (λ n ws. read_providers (n / 4) ws) (separators-line e es a) (strings-line e es a)) in
    elim (Bool-cases (ltb (length (e ∷ es)) 4)) [
      | inl h ↦
          read
          ∙ read_providers-behind (e ∷ es) (5 * length (e ∷ es) / 4) (counted (length (e ∷ es)) h)
          ∙ rw h refl
      | inr h ↦
          read
          ∙ read_providers-beyond (e ∷ es) (5 * length (e ∷ es) / 4)
              (overcounted (length (e ∷ es)) h)
          ∙ rw h refl
    ]
