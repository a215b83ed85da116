-- ===== src/Rules.antt =====
-- sdnres-src/sr-ctrl/rules.c and rules.h: the rules of the controller, one in a line of a file.
-- Allocations succeed. What `fgets` reads is the list of the lines that it returns; `none` is a
-- file that cannot be opened. An `int` is its bit pattern, below 2 ^ 32.
pub mod Word
pub mod Checks
pub mod Total
pub mod Tests
use thesis_data.Common.{
  ℕ, zero, suc, ◌+◌, ◌-◌, ◌*◌, ◌%◌, ◌^◌, Bool, true, false, not, ◌&&◌, ◌||◌, Option, none, some,
  List, [], ◌∷◌, ◌++◌, ltb, leb, min, take, ◌==◌, if◌then◌else◌, Outcome, ok, fault, ◌>>=◌,
}
use thesis_data.HashMap.Keys.{str_equal}
use thesis_data.Rules.Word
use thesis_data.Misc.{strip_crlf, strsplit}

-- `SLEN`
abbrev pub slen : ℕ
slen = 127

pub data RuleType : Type 0 where
  rule_none rule_allow rule_deny : RuleType

-- `struct rule`; `none` is a path that is the null pointer.
pub record Rule : Type 0 where
  pub is_default : Bool
  pub type : RuleType
  pub from : List ℕ
  pub to : List ℕ
  pub path : Option (List (List ℕ))
  pub last : List ℕ
  pub bw : ℕ
  pub delay : ℕ
  pub ttl : ℕ
  pub idle : ℕ

-- `calloc` of a rule.
abbrev pub zero_rule : Rule
zero_rule = record {
  is_default = false;
  type = rule_none;
  from = [];
  to = [];
  path = none;
  last = [];
  bw = 0;
  delay = 0;
  ttl = 0;
  idle = 0;
}

-- The digits in front of the string, read on from a value.
unfoldable pub digits_from : ℕ → List ℕ → ℕ
digits_from value [] = value
digits_from value (b ∷ s) =
    let rest = digits_from (value * 10 + (b - 48)) s in if leb 48 b && leb b 57 then rest else value

-- `strtol(s, NULL, 10)` past its white space, cut to `int`: the largest and the smallest `long`
-- stand for what is out of range.
unfoldable pub signed : List ℕ → ℕ
signed [] = 0
signed (b ∷ s) =
    if b == 45
    then (2 ^ 64 - min (digits_from 0 s) (2 ^ 63)) % 2 ^ 32
    else if b == 43
    then min (digits_from 0 s) (2 ^ 63 - 1) % 2 ^ 32
    else min (digits_from 0 (b ∷ s)) (2 ^ 63 - 1) % 2 ^ 32

abbrev pub is_white : ℕ → Bool
is_white b = b == 32 || (leb 9 b && leb b 13)

-- `strtol(s, NULL, 10)`, cut to `int`
unfoldable pub to_int : List ℕ → ℕ
to_int [] = 0
to_int (b ∷ s) = let rest = to_int s in if is_white b then rest else signed (b ∷ s)

-- What a line is parsed to: `none` is `out_err`.
abbrev pub Parsed : Type 0
Parsed = Outcome (Option Rule)

-- `parse_path`
unfoldable pub parse_path : Rule → List ℕ → Outcome Rule
parse_path rule buf = strsplit buf 44 >>= λ vargs. ok (record rule { path = some vargs })

abbrev pub is : List ℕ → List ℕ → Bool
is = str_equal

-- The branch of `parse_rule` for a keyword and its argument; `none` is an unknown keyword.
unfoldable pub argument : Rule → List ℕ → List ℕ → Parsed
argument rule word arg =
    if is word Word.from
    then ok (some (record rule { from = take slen arg }))
    else if is word Word.to
    then ok (some (record rule { to = take slen arg }))
    else if is word Word.via
    then (parse_path rule arg >>= λ r. ok (some r))
    else if is word Word.last
    then ok (some (record rule { last = take slen arg }))
    else if is word Word.bw
    then ok (some (record rule { bw = to_int arg }))
    else if is word Word.delay
    then ok (some (record rule { delay = to_int arg }))
    else if is word Word.ttl
    then ok (some (record rule { ttl = to_int arg }))
    else if is word Word.idle
    then ok (some (record rule { idle = to_int arg }))
    else ok none

-- The branch of `parse_rule` for a keyword that stands alone; `none` is any other word.
unfoldable pub flag : Rule → List ℕ → Option Rule
flag rule word =
    if is word Word.default
    then some (record rule { is_default = true })
    else if is word Word.allow
    then some (record rule { type = rule_allow })
    else if is word Word.deny
    then some (record rule { type = rule_deny })
    else none

-- The loop of `parse_rule`. A keyword with an argument as the last word is an error, as an
-- unknown word is.
unfoldable pub parse_words : Rule → List (List ℕ) → Parsed
parse_words rule [] = ok (some rule)
parse_words rule (word ∷ []) = elim (flag rule word) [ some r ↦ ok (some r) | none ↦ ok none ]
parse_words rule (word ∷ arg ∷ vargs) = elim (flag rule word) [
  | some r ↦ parse_words r (arg ∷ vargs)
  | none ↦ argument rule word arg >>= λ o. elim o [ none ↦ ok none | some r ↦ parse_words r vargs ]
]

abbrev pub empty_text : List ℕ → Bool
empty_text [] = true
empty_text (b ∷ s) = false

-- The checks of `parse_rule` behind its loop.
unfoldable pub accept : Rule → Option Rule
accept rule = elim rule.type [
  | rule_none ↦ none
  | _ ↦
      if rule.is_default && (not (empty_text rule.from) || not (empty_text rule.to))
      then none
      else if not rule.is_default && (empty_text rule.from && empty_text rule.to)
      then none
      else some rule
]

-- `parse_rule`
unfoldable pub parse_rule : List ℕ → Parsed
parse_rule line = strsplit line 32 >>= λ vargs.
    parse_words zero_rule vargs >>= λ o. elim o [ none ↦ ok none | some rule ↦ ok (accept rule) ]

-- A comment, or nothing.
abbrev pub skipped : List ℕ → Bool
skipped [] = true
skipped (b ∷ s) = b == 35

-- What `load_rules` has read: the rules, and the default rule.
abbrev pub Loaded : Type 0
Loaded = Outcome (Option (List Rule × Option Rule))

-- The branches of the loop of `load_rules` for what a line is parsed to, before the lines left.
unfoldable pub load_parsed :
    List Rule → Option Rule → Option Rule → (List Rule → Option Rule → Loaded) → Loaded
load_parsed rules defrule none next = ok none
load_parsed rules defrule (some rule) next =
    if rule.is_default
    then (elim defrule [ none ↦ next rules (some rule) | some r ↦ ok none ])
    else next (rules ++ (rule ∷ [])) defrule

-- The loop of `load_rules`.
unfoldable pub load_from : List Rule → Option Rule → List (List ℕ) → Loaded
load_from rules defrule [] = ok (some (rules, defrule))
load_from rules defrule (line ∷ lines) =
    if skipped (strip_crlf line)
    then load_from rules defrule lines
    else (parse_rule (strip_crlf line) >>= λ o.
        load_parsed rules defrule o (λ rs d. load_from rs d lines))

-- The end of `load_rules`: without a default rule, what no rule names is denied.
unfoldable pub finish : Option (List Rule × Option Rule) → Option (List Rule × Rule)
finish none = none
finish (some (rules, some rule)) = some (rules, rule)
finish (some (rules, none)) = some (rules, record zero_rule { is_default = true; type = rule_deny })

-- `load_rules`: the rules, and what `*defrule` is then; `none` is a null pointer returned.
unfoldable pub load_rules : Option (List (List ℕ)) → Outcome (Option (List Rule × Rule))
load_rules none = ok none
load_rules (some lines) = load_from [] none lines >>= λ o. ok (finish o)

-- `match_rule`
abbrev pub match_rule : Rule → List ℕ → List ℕ → Bool
match_rule rule from to = is rule.from from && is rule.to to

-- The loop of `match_rules`, from a match so far on.
unfoldable pub match_from : Option Rule → List Rule → List ℕ → List ℕ → Option Rule
match_from found [] from to = found
match_from found (r ∷ rules) from to =
    match_from (if match_rule r from to then some r else found) rules from to

-- `match_rules`
abbrev pub match_rules : List Rule → List ℕ → List ℕ → Option Rule
match_rules rules from to = match_from none rules from to
