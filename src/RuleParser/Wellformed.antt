-- ===== src/RuleParser/Wellformed.antt =====
-- What every parsed rule satisfies, and which lines give a rule.
use mathlib.Core.Option
use thorium_frugal.Base.{
  Bool, if◌then◌else◌, List, ◌∷◌, All, ℕ, ◌+◌, ◌≡◌, refl, inl, inr, ◌⊎◌, true, false, not, [], ◌++◌,
  arith, Bytes, codes, ◌==◌, Bool-cases, Option-cases, take, drop,
}
use thorium_frugal.Text.{getlines, to_lower, find, find_if, is_empty, starts_with, begins_with_byte}
use thorium_frugal.Text.Find.{Free, before-Free, find_if-none, find_if-some}
use thorium_frugal.Text.Lower.{to_lower_idem, tolower-==, to_lower-Free}
use thorium_frugal.Text.Decimal.{to_string}
use thorium_frugal.RuleParser.{
  parse_lines, parse_text, ParsedRule, initial_rule, trim, set_options, finish_rule, set_pattern,
  strip_anchors, parse_pattern, is_skipped, parse_line, allow,
}

-- A rule is valid exactly when it has a domain; the domain is in lower case and has no slash, the
-- path is empty or begins with one, and the rule covers subdomains.
pub record IsWellFormed (prefix : Bytes) (r : ParsedRule) : Type 0 where
  pub valid : r.is_valid ≡ not (is_empty r.domain_pattern)
  pub lower : to_lower r.domain_pattern ≡ r.domain_pattern
  pub no_slash : Free (λ b. b == b'/') r.domain_pattern
  pub path : (r.path_pattern ≡ []) ⊎ (begins_with_byte r.path_pattern b'/' ≡ true)
  pub subdomains : r.match_subdomains ≡ true
  pub named : r.is_valid ≡ true → r.rule_id ≡ prefix ++ r.domain_pattern

-- What the steps before the last leave alone.
abbrev IsPending : ParsedRule → Type 0
IsPending r = (r.is_valid ≡ false) × (r.match_subdomains ≡ true)

finish-IsWellFormed :
    (prefix domain path : Bytes) (r : ParsedRule)
    → IsPending r
    → to_lower domain ≡ domain
    → Free (λ b. b == b'/') domain
    → (path ≡ []) ⊎ (begins_with_byte path b'/' ≡ true)
    → IsWellFormed prefix (finish_rule prefix domain path r)
unfolding finish_rule
finish-IsWellFormed prefix domain path r (invalid, sub) low free p =
    elim (Bool-cases (is_empty domain)) [
      | inl e ↦ rw e (record {
        valid = rw e invalid;
        lower = low;
        no_slash = free;
        path = p;
        subdomains = sub;
        named = λ v. cc;
      })
      | inr e ↦ rw e (record {
        valid = rw e;
        lower = low;
        no_slash = free;
        path = p;
        subdomains = sub;
        named = λ v. refl;
      })
    ]

lower_part :
    (s : Bytes)
    → Free (λ b. b == b'/') s
    → (to_lower (to_lower s) ≡ to_lower s) × Free (λ b. b == b'/') (to_lower s)
lower_part s h =
    (to_lower_idem s, to_lower-Free (λ b. b == b'/') (λ c. tolower-== c b'/' (omega arith)) s h)

find_zero :
    (line : Bytes) (c : ℕ) → find line c 0 ≡ Option.map (λ i. 0 + i) (find_if (λ b. b == c) line)
unfolding find
find_zero line c = refl

set_pattern-IsWellFormed :
    (prefix line : Bytes) (r : ParsedRule)
    → IsPending r
    → IsWellFormed prefix (set_pattern prefix line r)
unfolding set_pattern
set_pattern-IsWellFormed prefix line r h = elim (Option-cases (find_if (λ b. b == b'/') line)) [
  | inl n ↦
      let (low, free) = lower_part line (find_if-none _ line n).2 in
      rw (find_zero line b'/', n, set_pattern)
        (finish-IsWellFormed prefix (to_lower line) [] r h low free (inl refl))
  | inr (i, n) ↦
      let (t, d, l, (c, rest, a, p)) = find_if-some _ line n in
      let (low, free) = lower_part (take i line) (rw t (before-Free _ line)) in
      let z : 0 + i ≡ i = omega arith in
      rw (find_zero line b'/', n, set_pattern, z)
        (finish-IsWellFormed prefix (to_lower (take i line)) (drop i line) r h low free
          (inr (rw (d, a) (unfold begins_with_byte in p))))
]

set_options-IsPending :
    (options : Bytes) (r : ParsedRule) → IsPending r → IsPending (set_options options r)
unfolding set_options
set_options-IsPending options r h = elim (Bool-cases (is_empty options)) [
  | inl e ↦ rw e h
  | inr e ↦ rw e h
]

parse_pattern-IsWellFormed :
    (prefix line : Bytes) (r : ParsedRule)
    → IsPending r
    → IsWellFormed prefix (parse_pattern prefix line r)
unfolding parse_pattern
parse_pattern-IsWellFormed prefix line r h = elim (Option-cases (find line b'$' 0)) [
  | inl n ↦
      rw (n, parse_pattern)
        (set_pattern-IsWellFormed prefix (strip_anchors line) _ (set_options-IsPending [] r h))
  | inr (i, n) ↦
      rw (n, parse_pattern)
        (set_pattern-IsWellFormed prefix (strip_anchors (take i line)) _
          (set_options-IsPending (drop (i + 1) line) r h))
]

initial-IsWellFormed : (prefix line : Bytes) → IsWellFormed prefix (initial_rule line)
unfolding is_empty to_lower
initial-IsWellFormed prefix line = record {
  valid = refl;
  lower = refl;
  no_slash = tt;
  path = inl refl;
  subdomains = refl;
  named = λ v. cc;
}

parse_line_cases :
    (P : ParsedRule → Type 0) (raw prefix : Bytes)
    → P (initial_rule (trim raw))
    → P (
        parse_pattern prefix
          (drop 2 (trim raw))
          (record (initial_rule (trim raw)) { rule_type = allow }))
    → P (parse_pattern prefix (trim raw) (initial_rule (trim raw)))
    → P (parse_line raw prefix)
unfolding parse_line
parse_line_cases P raw prefix skipped allowed blocked = elim (Bool-cases (is_skipped (trim raw))) [
  | inl e ↦ rw e skipped
  | inr e ↦ elim (Bool-cases (starts_with (trim raw) (codes "@@"))) [
    | inl a ↦ rw (e, a) allowed
    | inr a ↦ rw (e, a) blocked
  ]
]

-- Every line, comment or not, gives a well-formed rule.
pub parse_line-IsWellFormed : (raw prefix : Bytes) → IsWellFormed prefix (parse_line raw prefix)
parse_line-IsWellFormed raw prefix =
    parse_line_cases (IsWellFormed prefix) raw prefix (initial-IsWellFormed prefix (trim raw))
      (parse_pattern-IsWellFormed prefix (drop 2 (trim raw)) _ (refl, refl))
      (parse_pattern-IsWellFormed prefix (trim raw) _ (refl, refl))

-- A rule that the database may take: valid and well formed under some prefix.
abbrev pub IsLoadable : ParsedRule → Type 0
IsLoadable r = (r.is_valid ≡ true) × ((prefix : Bytes) × IsWellFormed prefix r)

keep_if :
    (b : Bool) (r : ParsedRule) (rest : List ParsedRule)
    → (b ≡ true → IsLoadable r)
    → All IsLoadable rest
    → All IsLoadable (if b then r ∷ rest else rest)
keep_if true r rest h hs = (h refl, hs)
keep_if false r rest h hs = hs

parse_lines-IsLoadable : (lines : List Bytes) (count : ℕ) → All IsLoadable (parse_lines count lines)
unfolding parse_lines
parse_lines-IsLoadable [] count = tt
parse_lines-IsLoadable (line ∷ lines) count =
    let prefix = codes "rule_" ++ (to_string (count + 1) ++ codes "_") in
    let r = parse_line line prefix in
    keep_if r.is_valid r (parse_lines (count + 1) lines)
      (λ v. (v, (prefix, parse_line-IsWellFormed line prefix)))
      (parse_lines-IsLoadable lines (count + 1))

-- All rules of a text are valid and well formed.
pub parse_text-IsLoadable : (text : Bytes) → All IsLoadable (parse_text text)
unfolding parse_text
parse_text-IsLoadable text = parse_lines-IsLoadable (getlines 10 text) 0
