-- ===== src/Rules/Checks.antt =====
-- What the rules that `load_rules` returns satisfy, and where it returns.
use thesis_data.Common.{
  ℕ, ◌≡◌, ◌≢◌, ◌⊎◌, inl, inr, refl, ap, ◌∙◌, true, false, Option, none, some, List, [], ◌∷◌, ◌++◌,
  arith, Outcome, ok, fault, ◌>>=◌, Bool-cases,
}
use thesis_data.Misc.{strsplit, strip_crlf}
use thesis_data.Rules.{
  rule_none, rule_deny, Rule, zero_rule, Parsed, empty_text, parse_words, accept, parse_rule,
  skipped, Loaded, load_parsed, load_from, finish, load_rules,
}

-- A rule that allows or denies: the default rule names no end, another names one at least.
pub record IsRule (rule : Rule) : Type 0 where
  pub decided : rule.type ≢ rule_none
  pub ends :
      ((rule.is_default ≡ true) × (rule.from ≡ []) × (rule.to ≡ []))
      ⊎ ((rule.is_default ≡ false) × ((rule.from ≢ []) ⊎ (rule.to ≢ [])))

abbrev pub AllNamed : List Rule → Type 0
AllNamed [] = Unit
AllNamed (r ∷ rules) = IsRule r × (r.is_default ≡ false) × AllNamed rules

abbrev pub IsDefault : Option Rule → Type 0
IsDefault none = Unit
IsDefault (some r) = IsRule r × (r.is_default ≡ true)

accept-same : (rule r : Rule) → accept rule ≡ some r → r ≡ rule
unfolding accept
accept-same rule r h = ground arith

accept-decided : (rule r : Rule) → accept rule ≡ some r → rule.type ≢ rule_none
unfolding accept
accept-decided rule r h = λ e. ground (arith, e)

text-cases : (s : List ℕ) → (s ≡ []) ⊎ ((s ≢ []) × (empty_text s ≡ false))
text-cases [] = inl refl
text-cases (b ∷ s) = inr (λ e. cc, refl)

abbrev Ends : Rule → Type 0
Ends rule =
    ((rule.is_default ≡ true) × (rule.from ≡ []) × (rule.to ≡ []))
    ⊎ ((rule.is_default ≡ false) × ((rule.from ≢ []) ⊎ (rule.to ≢ [])))

accept-Ends :
    (rule r : Rule)
    → accept rule ≡ some r
    → (rule.is_default ≡ true) ⊎ (rule.is_default ≡ false)
    → (rule.from ≡ []) ⊎ ((rule.from ≢ []) × (empty_text rule.from ≡ false))
    → (rule.to ≡ []) ⊎ ((rule.to ≢ []) × (empty_text rule.to ≡ false))
    → Ends rule
unfolding accept
accept-Ends rule r h (inl d) (inl f) (inl o) = inl (d, f, o)
accept-Ends rule r h (inl d) (inr (f, f')) o = absurd (ground (arith, d, f'))
accept-Ends rule r h (inl d) (inl f) (inr (o, o')) = absurd (ground (arith, d, f, o'))
accept-Ends rule r h (inr d) (inl f) (inl o) = absurd (ground (arith, d, f, o))
accept-Ends rule r h (inr d) (inr (f, f')) o = inr (d, inl f)
accept-Ends rule r h (inr d) (inl f) (inr (o, o')) = inr (d, inr o)

accept-IsRule : (rule r : Rule) → accept rule ≡ some r → IsRule r
accept-IsRule rule r h = rw (accept-same rule r h) (record {
  decided = accept-decided rule r h;
  ends =
      accept-Ends rule r h (Bool-cases rule.is_default) (text-cases rule.from) (text-cases rule.to);
})

bind-ok {ℓ κ} :
    {A : Type ℓ} {B : Type κ} (m : Outcome A) (f : A → Outcome B) (c : B)
    → (m >>= f) ≡ ok c
    → (a : A) × (m ≡ ok a) × (f a ≡ ok c)
bind-ok (ok a) f c h = (a, refl, h)
bind-ok (fault e) f c h = absurd cc

pub parse_rule-IsRule : (line : List ℕ) (r : Rule) → parse_rule line ≡ ok (some r) → IsRule r
unfolding parse_rule
parse_rule-IsRule line r h =
    let (vargs, p, q) = bind-ok (strsplit line 32) _ _ h in
    let (o, p', q') = bind-ok (parse_words zero_rule vargs) _ _ q in accepted o q'
  where
    accepted :
        (o : Option Rule)
        → elim o as (λ _. Parsed) [ none ↦ ok none | some rule ↦ ok (accept rule) ] ≡ ok (some r)
        → IsRule r
    accepted none e = absurd cc
    accepted (some rule) e = accept-IsRule rule r cc

AllNamed-append :
    (rules : List Rule) (r : Rule)
    → AllNamed rules
    → IsRule r
    → r.is_default ≡ false
    → AllNamed (rules ++ (r ∷ []))
AllNamed-append [] r a v d = (v, d, tt)
AllNamed-append (x ∷ rules) r (p, q, a) v d = (p, q, AllNamed-append rules r a v d)

load_parsed-some :
    (rules : List Rule) (defrule o : Option Rule) (next : List Rule → Option Rule → Loaded)
    (x : List Rule × Option Rule)
    → load_parsed rules defrule o next ≡ ok (some x)
    → (r : Rule) × (o ≡ some r)
      × (((r.is_default ≡ true) × (defrule ≡ none) × (next rules (some r) ≡ ok (some x)))
          ⊎ ((r.is_default ≡ false) × (next (rules ++ (r ∷ [])) defrule ≡ ok (some x))))
unfolding load_parsed
load_parsed-some rules defrule none next x h = absurd cc
load_parsed-some rules none (some r) next x h = elim (Bool-cases r.is_default) [
  | inl d ↦ (r, refl, inl (d, refl, ground (arith, h, d)))
  | inr d ↦ (r, refl, inr (d, ground (arith, h, d)))
]
load_parsed-some rules (some def) (some r) next x h = elim (Bool-cases r.is_default) [
  | inl d ↦ absurd (ground (arith, h, d))
  | inr d ↦ (r, refl, inr (d, ground (arith, h, d)))
]

load_from-AllNamed :
    (lines : List (List ℕ)) (rules rs : List Rule) (defrule d : Option Rule)
    → AllNamed rules
    → IsDefault defrule
    → load_from rules defrule lines ≡ ok (some (rs, d))
    → AllNamed rs × IsDefault d
unfolding load_from
load_from-AllNamed [] rules rs defrule d a v h =
    let same_rules : rs ≡ rules = cc in
    let same_default : d ≡ defrule = cc in (rw same_rules a, rw same_default v)
load_from-AllNamed (line ∷ lines) rules rs defrule d a v h =
    elim (Bool-cases (skipped (strip_crlf line))) [
      | inl e ↦ load_from-AllNamed lines rules rs defrule d a v (rw e at h)
      | inr e ↦
          let (o, p, q) = bind-ok (parse_rule (strip_crlf line)) _ _ (rw e at h) in
          let (r, p', q') = load_parsed-some rules defrule o _ _ q in
          let valid : IsRule r = parse_rule-IsRule (strip_crlf line) r (p ∙ ap ok p') in
          elim q' [
            | inl (def, fresh, k) ↦ load_from-AllNamed lines rules rs (some r) d a (valid, def) k
            | inr (named, k) ↦
                load_from-AllNamed lines (rules ++ (r ∷ [])) rs defrule d
                  (AllNamed-append rules r a valid named) v k
          ]
    ]

finish-AllNamed :
    (o : Option (List Rule × Option Rule)) (rs : List Rule) (d : Rule)
    → ((rules : List Rule) (def : Option Rule)
        → o ≡ some (rules, def)
        → AllNamed rules × IsDefault def)
    → finish o ≡ some (rs, d)
    → AllNamed rs × IsRule d × (d.is_default ≡ true)
unfolding finish
finish-AllNamed none rs d a h = absurd cc
finish-AllNamed (some (rules, some rule)) rs d a h =
    let (named, valid) = a rules (some rule) refl in
    let same_rules : rs ≡ rules = cc in
    let same_default : d ≡ rule = cc in
    (rw same_rules named, rw same_default valid.0, rw same_default valid.1)
finish-AllNamed (some (rules, none)) rs d a h =
    let same_rules : rs ≡ rules = cc in
    let same_default : d ≡ record zero_rule { is_default = true; type = rule_deny } = cc in
    (
      rw same_rules (a rules none refl).0,
      rw same_default (record { decided = λ e. cc; ends = inl (refl, refl, refl) }),
      rw same_default refl,
    )

-- Where `load_rules` returns rules, each of them is well formed and not a default rule, in the
-- sense that it allows or denies and names a source or a destination, and the default rule that
-- it gives is one: it allows or denies, and names neither.
pub load_rules-AllNamed :
    (file : Option (List (List ℕ))) (rs : List Rule) (d : Rule)
    → load_rules file ≡ ok (some (rs, d))
    → AllNamed rs × IsRule d × (d.is_default ≡ true)
unfolding load_rules
load_rules-AllNamed none rs d h = absurd cc
load_rules-AllNamed (some lines) rs d h =
    let (o, p, q) = bind-ok (load_from [] none lines) _ _ h in
    finish-AllNamed o rs d
      (λ rules def e. load_from-AllNamed lines [] rules none def tt tt (p ∙ ap ok e)) cc
