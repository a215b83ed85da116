-- ===== src/Rules/Tests.antt =====
-- The theorems of the rules at a file of three lines.
use thesis_data.Common.{
  ℕ, zero, suc, ◌≡◌, ◌≢◌, ◌⊎◌, inl, inr, refl, true, none, some, List, [], ◌∷◌, ◌++◌, replicate, ok,
  Returns, arith,
}
use thesis_data.HashMap.Keys.{str_equal}
use thesis_data.Misc.{
  space, before, behind, count, pieces, trim_from, remove_trail, strsplit, strip_crlf,
}
use thesis_data.Rules.{
  Rule, zero_rule, rule_allow, rule_deny, load_rules, load_from, load_parsed, finish, parse_rule,
  parse_words, flag, argument, accept, match_rules, to_int, signed, digits_from,
}
use thesis_data.Rules.Word
use thesis_data.Rules.Checks.{AllNamed, IsRule, load_rules-AllNamed}
use thesis_data.Rules.Total.{AllNotBlank, Matches, NoMatch, load_rules-Returns, match_rules-cases}

-- "allow from a to b bw 12", a comment, and "default deny"
abbrev lines : List (List ℕ)
lines =
    (Word.allow
      ++ (32 ∷ Word.from)
      ++ (32 ∷ 97 ∷ 32 ∷ Word.to)
      ++ (32 ∷ 98 ∷ 32 ∷ Word.bw)
      ++ (32 ∷ 49 ∷ 50 ∷ 10 ∷ []))
    ∷ (35 ∷ 97 ∷ [])
    ∷ (Word.default ++ (32 ∷ Word.deny))
    ∷ []

abbrev named_rule : Rule
named_rule = record zero_rule { type = rule_allow; from = 97 ∷ []; to = 98 ∷ []; bw = 12 }

abbrev default_rule : Rule
default_rule = record zero_rule { is_default = true; type = rule_deny }

loaded_run : load_rules (some lines) ≡ ok (some (named_rule ∷ [], default_rule))
unfolding load_rules load_from load_parsed finish parse_rule parse_words flag argument accept
    str_equal strip_crlf before behind count pieces trim_from remove_trail strsplit to_int signed
    digits_from
loaded_run = refl

load_rules-AllNamed_example :
    AllNamed (named_rule ∷ []) × IsRule default_rule × (default_rule.is_default ≡ true)
load_rules-AllNamed_example =
    load_rules-AllNamed (some lines) (named_rule ∷ []) default_rule loaded_run

starts : (b : ℕ) (s : List ℕ) → b ≢ space → (n : ℕ) → b ∷ s ≢ replicate n space
starts b s ne zero e = cc
starts b s ne (suc n) e = absurd (ne cc)

lines-AllNotBlank : AllNotBlank lines
unfolding strip_crlf before
lines-AllNotBlank = (
  inr (starts 97 _ (λ e. omega (arith, e))),
  (inl refl, (inr (starts 100 _ (λ e. omega (arith, e))), tt)),
)

load_rules-Returns_example : Returns (load_rules (some lines)) λ o. Unit {0}
load_rules-Returns_example = load_rules-Returns lines lines-AllNotBlank

match_rules-cases_example :
    (NoMatch (named_rule ∷ []) (97 ∷ []) (98 ∷ [])
      × (match_rules (named_rule ∷ []) (97 ∷ []) (98 ∷ []) ≡ none))
    ⊎ ((earlier : List Rule) × (r : Rule) × (later : List Rule) × (named_rule ∷ []
          ≡ earlier ++ (r ∷ later))
        × Matches r (97 ∷ []) (98 ∷ [])
        × NoMatch later (97 ∷ []) (98 ∷ [])
        × (match_rules (named_rule ∷ []) (97 ∷ []) (98 ∷ []) ≡ some r))
match_rules-cases_example = match_rules-cases (named_rule ∷ []) (97 ∷ []) (98 ∷ [])
