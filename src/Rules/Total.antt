-- ===== src/Rules/Total.antt =====
-- Where `load_rules` returns, and which rule `match_rules` returns.
use thesis_data.Common.{
  ℕ, zero, suc, ◌≡◌, ◌≢◌, ◌⊎◌, inl, inr, refl, ap, sym, ◌∙◌, Bool, true, false, Option, none, some,
  List, [], ◌∷◌, ◌++◌, replicate, arith, if◌then◌else◌, Outcome, ok, Returns, ◌>>=◌, Bool-cases,
  Option-cases,
}
use thesis_data.HashMap.Keys.{str_equal_iff}
use thesis_data.Misc.{space, count, remove_trail, strip_crlf}
use thesis_data.Misc.Split.{AllFree, Free, strsplit-join, remove_trail-cases}
use thesis_data.Rules.{
  Rule, zero_rule, parse_path, argument, flag, parse_words, accept, parse_rule, skipped, Loaded,
  load_parsed, load_from, finish, load_rules, match_rule, match_from, match_rules, is,
}
use thesis_data.Rules.Word

count-replicate : (n : ℕ) → count space (replicate n space) ≡ n
unfolding count
count-replicate zero = refl
count-replicate (suc n) = ap suc (count-replicate n)

-- A text without spaces, or with another byte, is trimmed without a fault.
remove_trail-Free : (s : List ℕ) → Free space s → Returns (remove_trail s) λ t. Unit {0}
unfolding remove_trail count
remove_trail-Free [] h = ([], refl, tt)
remove_trail-Free (b ∷ s) h = elim (remove_trail-cases b s) [
  | inl (p, n, q) ↦
      let empty : n ≡ 0 = sym (count-replicate n) ∙ ap (count space) (sym q) ∙ h in
      absurd (ground (arith, q, empty))
  | inr (n, x, t, p, q, r) ↦ (_, p, tt)
]

if-Returns {ℓ} :
    {A : Type ℓ} (b : Bool) (x y : Outcome A)
    → Returns x (λ a. Unit {0})
    → Returns y (λ a. Unit {0})
    → Returns (if b then x else y) λ a. Unit {0}
if-Returns true x y p q = p
if-Returns false x y p q = q

returned {ℓ} : {A : Type ℓ} (a : A) → Returns (ok a) λ a. Unit {0}
returned a = (a, refl, tt)

via-Returns :
    (rule : Rule) (arg : List ℕ)
    → Free space arg
    → Returns (parse_path rule arg >>= λ r. ok (some r)) λ o. Unit {0}
unfolding parse_path
via-Returns rule arg h =
    let (t, e, u) = remove_trail-Free arg h in
    let (ps, e', u') = strsplit-join arg t 44 e in
    (some (record rule { path = some ps }), rw (parse_path, e') refl, tt)

argument-Returns :
    (rule : Rule) (word arg : List ℕ)
    → Free space arg
    → Returns (argument rule word arg) λ o. Unit {0}
unfolding argument
argument-Returns rule word arg h = if-Returns (is word Word.from) _ _ (returned _) (
    if-Returns (is word Word.to) _ _ (returned _) (
      if-Returns (is word Word.via) _ _ (via-Returns rule arg h) (
        if-Returns (is word Word.last) _ _ (returned _) (
          if-Returns (is word Word.bw) _ _ (returned _) (
            if-Returns (is word Word.delay) _ _ (returned _) (
              if-Returns (is word Word.ttl) _ _ (returned _)
                (if-Returns (is word Word.idle) _ _ (returned _) (returned none))))))))

parse_words-Returns :
    (vargs : List (List ℕ)) (rule : Rule)
    → AllFree space vargs
    → Returns (parse_words rule vargs) λ o. Unit {0}
unfolding parse_words
parse_words-Returns [] rule f = (some rule, refl, tt)
parse_words-Returns (word ∷ []) rule f = elim (Option-cases (flag rule word)) [
  | inl e ↦ (none, rw (parse_words, e) refl, tt)
  | inr (r, e) ↦ (some r, rw (parse_words, e) refl, tt)
]
parse_words-Returns (word ∷ arg ∷ vargs) rule (f, (f', f'')) =
    let (o, p, u) = argument-Returns rule word arg f' in
    elim (Option-cases (flag rule word)) [
      | inl e ↦ elim (Option-cases o) [
        | inl q ↦ (none, rw (parse_words, e, p, q) refl, tt)
        | inr (r, q) ↦ rw (parse_words, e, p, q) (parse_words-Returns vargs r f'')
      ]
      | inr (r, e) ↦ rw (parse_words, e) (parse_words-Returns (arg ∷ vargs) r (f', f''))
    ]

-- The line without its line end is a comment, is empty, or has a byte that is not a space.
abbrev pub NotBlank : List ℕ → Type 0
NotBlank line = (skipped (strip_crlf line) ≡ true) ⊎ ((n : ℕ) → strip_crlf line ≢ replicate n space)

abbrev pub AllNotBlank : List (List ℕ) → Type 0
AllNotBlank [] = Unit
AllNotBlank (line ∷ lines) = NotBlank line × AllNotBlank lines

remove_trail-Returns :
    (s : List ℕ) → ((n : ℕ) → s ≢ replicate n space) → Returns (remove_trail s) λ t. Unit {0}
unfolding remove_trail
remove_trail-Returns [] h = ([], refl, tt)
remove_trail-Returns (b ∷ s) h = elim (remove_trail-cases b s) [
  | inl (p, n, q) ↦ absurd (h n q)
  | inr (n, x, t, p, q, r) ↦ (t ++ (x ∷ []), p, tt)
]

parse_rule-Returns :
    (line : List ℕ) → ((n : ℕ) → line ≢ replicate n space) → Returns (parse_rule line) λ o. Unit {0}
unfolding parse_rule
parse_rule-Returns line h =
    let (t, e, u) = remove_trail-Returns line h in
    let (ps, e', (len, free, joined)) = strsplit-join line t 32 e in
    let (o, p, u') = parse_words-Returns ps zero_rule free in
    elim (Option-cases o) [
      | inl q ↦ (none, rw (parse_rule, e', p, q) refl, tt)
      | inr (r, q) ↦ (accept r, rw (parse_rule, e', p, q) refl, tt)
    ]

load_parsed-Returns :
    (rules : List Rule) (def o : Option Rule) (next : List Rule → Option Rule → Loaded)
    → ((rs : List Rule) (d : Option Rule) → Returns (next rs d) λ x. Unit {0})
    → Returns (load_parsed rules def o next) λ x. Unit {0}
unfolding load_parsed
load_parsed-Returns rules def none next h = returned none
load_parsed-Returns rules none (some r) next h =
    if-Returns r.is_default _ _ (h rules (some r)) (h (rules ++ (r ∷ [])) none)
load_parsed-Returns rules (some d) (some r) next h =
    if-Returns r.is_default _ _ (returned none) (h (rules ++ (r ∷ [])) (some d))

load_from-Returns :
    (lines : List (List ℕ)) (rules : List Rule) (defrule : Option Rule)
    → AllNotBlank lines
    → Returns (load_from rules defrule lines) λ o. Unit {0}
unfolding load_from
load_from-Returns [] rules defrule h = (some (rules, defrule), refl, tt)
load_from-Returns (line ∷ lines) rules defrule (h, hs) =
    elim (Bool-cases (skipped (strip_crlf line))) [
      | inl e ↦ rw (load_from, e) (load_from-Returns lines rules defrule hs)
      | inr e ↦
          let bytes : (n : ℕ) → strip_crlf line ≢ replicate n space = elim h [
            | inl k ↦ absurd cc
            | inr k ↦ k
          ] in
          let (o, p, u) = parse_rule-Returns (strip_crlf line) bytes in
          rw (load_from, e, p)
            (load_parsed-Returns rules defrule o _ (λ rs d. load_from-Returns lines rs d hs))
    ]

-- `load_rules` ends without a fault on a file none of whose lines is blank, that is, has spaces
-- only, one at least, in front of its line end.
pub load_rules-Returns :
    (lines : List (List ℕ)) → AllNotBlank lines → Returns (load_rules (some lines)) λ o. Unit {0}
unfolding load_rules
load_rules-Returns lines h =
    let (o, p, u) = load_from-Returns lines [] none h in (finish o, rw (load_rules, p) refl, tt)

-- The source and the destination of a rule are those given, as texts.
abbrev pub Matches : Rule → List ℕ → List ℕ → Type 0
Matches rule from to = (rule.from ≡ from) × (rule.to ≡ to)

abbrev pub NoMatch : List Rule → List ℕ → List ℕ → Type 0
NoMatch [] from to = Unit
NoMatch (r ∷ rules) from to = (¬ Matches r from to) × NoMatch rules from to

match_rule-Matches : (r : Rule) (from to : List ℕ) → match_rule r from to ≡ true → Matches r from to
match_rule-Matches r from to h = (
  (str_equal_iff r.from from).0 (ground (arith, h)),
  (str_equal_iff r.to to).0 (ground (arith, h)),
)

match_rule-fails :
    (r : Rule) (from to : List ℕ) → match_rule r from to ≡ false → ¬ Matches r from to
match_rule-fails r from to h (p, q) =
    absurd (ground (arith, h, (str_equal_iff r.from from).1 p, (str_equal_iff r.to to).1 q))

match_from-cases :
    (rules : List Rule) (found : Option Rule) (from to : List ℕ)
    → (NoMatch rules from to × (match_from found rules from to ≡ found))
      ⊎ ((earlier : List Rule) × (r : Rule) × (later : List Rule) × (rules ≡ earlier ++ (r ∷ later))
          × Matches r from to
          × NoMatch later from to
          × (match_from found rules from to ≡ some r))
unfolding match_from
match_from-cases [] found from to = inl (tt, refl)
match_from-cases (r ∷ rules) found from to =
    let next : Option Rule = if match_rule r from to then some r else found in
    elim (match_from-cases rules next from to) [
      | inr (earlier, q, later, e, m, f, v) ↦
          inr (r ∷ earlier, q, later, ap (λ t. r ∷ t) e, m, f, v)
      | inl (f, v) ↦ elim (Bool-cases (match_rule r from to)) [
        | inl m ↦ inr ([], r, rules, refl, match_rule-Matches r from to m, f, v ∙ rw m refl)
        | inr m ↦ inl ((match_rule-fails r from to m, f), v ∙ rw m refl)
      ]
    ]

-- A rule matches where its source and its destination are the two texts given. `match_rules`
-- returns a null pointer, and no rule matches, or it returns a rule of the list that matches, and
-- no later rule matches: the last match wins.
pub match_rules-cases :
    (rules : List Rule) (from to : List ℕ)
    → (NoMatch rules from to × (match_rules rules from to ≡ none))
      ⊎ ((earlier : List Rule) × (r : Rule) × (later : List Rule) × (rules ≡ earlier ++ (r ∷ later))
          × Matches r from to
          × NoMatch later from to
          × (match_rules rules from to ≡ some r))
match_rules-cases rules from to = match_from-cases rules none from to
