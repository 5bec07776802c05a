-- ===== src/RuleParser/DomainRule.antt =====
-- The rules `||d^` and `@@||d^` for a domain, as they are printed and as they are parsed.
use thorium_frugal.Base.{
  ◌+◌, ◌≤◌, ◌≡◌, refl, inl, Bool, true, false, ◌==◌, [], ◌∷◌, ◌++◌, arith, Bytes, codes, length,
  length-append, append-nil, All-append, if◌then◌else◌,
}
use thorium_frugal.Text.{to_lower, is_empty}
use thorium_frugal.Text.Decimal.{to_string}
use thorium_frugal.Text.Find.{Free}
use thorium_frugal.Text.Getlines.{getlines_whole}
use thorium_frugal.RuleParser.{ParsedRule, allow, block, match_all, parse_text}
use thorium_frugal.RuleParser.Render.{render, stem}
use thorium_frugal.RuleParser.RoundTrip.{parse_line-render}

-- A domain in lower case, as it can stand in a rule.
pub record IsDomain (d : Bytes) : Type 0 where
  pub named : is_empty d ≡ false
  pub low : to_lower d ≡ d
  pub no_slash : Free (λ b. b == b'/') d
  pub no_dollar : Free (λ b. b == b'$') d
  pub no_newline : Free (λ b. b == b'\n') d
  pub short : length d ≤ 1000

-- `||d^`, and `@@||d^`.
abbrev pub rule_text : Bool → Bytes → Bytes
rule_text allowed d = render allowed d [] false

rule_text-Free :
    (allowed : Bool) (d : Bytes) → IsDomain d → Free (λ b. b == b'\n') (rule_text allowed d)
unfolding render stem
rule_text-Free true d h = (
  refl,
  (
    refl,
    (
      refl,
      (
        refl,
        All-append _ ((d ++ []) ++ codes "^") []
            (All-append _ (d ++ []) (codes "^") (All-append _ d [] h.no_newline tt) (refl, tt)) tt,
      ),
    ),
  ),
)
rule_text-Free false d h = (
  refl,
  (
    refl,
    All-append _ ((d ++ []) ++ codes "^") []
        (All-append _ (d ++ []) (codes "^") (All-append _ d [] h.no_newline tt) (refl, tt)) tt,
  ),
)

rule_text-filled : (allowed : Bool) (d : Bytes) → is_empty (rule_text allowed d) ≡ false
unfolding render stem is_empty
rule_text-filled true d = refl
rule_text-filled false d = refl

rule_text-length : (allowed : Bool) (d : Bytes) → IsDomain d → length (rule_text allowed d) ≤ 1024
unfolding render stem
rule_text-length true d h =
    rw (append-nil d, append-nil (d ++ codes "^"))
      (omega (arith, h.short, length-append d (codes "^")))
rule_text-length false d h =
    rw (append-nil d, append-nil (d ++ codes "^"))
      (omega (arith, h.short, length-append d (codes "^")))

-- The rule that is parsed from it.
abbrev pub domain_rule : Bool → Bytes → ParsedRule
domain_rule allowed d = record {
  rule_id = (codes "rule_" ++ (to_string (0 + 1) ++ codes "_")) ++ d;
  rule_type = if allowed then allow else block;
  domain_pattern = d;
  path_pattern = [];
  match_subdomains = true;
  require_third_party = false;
  require_first_party = false;
  resource_type_mask = match_all;
  original_rule_text = rule_text allowed d;
  is_valid = true;
}

pub parse_text-rule :
    (allowed : Bool) (d : Bytes)
    → IsDomain d
    → parse_text (rule_text allowed d) ≡ domain_rule allowed d ∷ []
unfolding parse_text
parse_text-rule allowed d h =
    rw
      (
        getlines_whole b'\n' (rule_text allowed d) (rule_text-Free allowed d h)
            (rule_text-filled allowed d),
        parse_line-render (codes "rule_" ++ (to_string (0 + 1) ++ codes "_")) allowed d [] false
            h.named h.low h.no_slash h.no_dollar (inl refl) tt (rule_text-length allowed d h),
      )
      refl
