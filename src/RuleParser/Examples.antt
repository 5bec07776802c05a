-- ===== src/RuleParser/Examples.antt =====
-- Runs of the parser.
use thorium_frugal.Base.{◌≡◌, refl, true, false, codes, [], ◌∷◌, map, str_eq, any}
use thorium_frugal.Text.{
  to_lower, tolower, find, find_if, find_last_if, is_empty, ends_with_byte, pop_back, starts_with,
  begins_with_byte, getlines,
}
use thorium_frugal.Text.Pieces.{split}
use thorium_frugal.Text.Decimal.{to_string}
use thorium_frugal.Types.{resource_index}
use thorium_frugal.RuleParser.{
  ParsedRule, allow, trim, is_text_byte, option_type, parse_line, parse_text,
  parse_resource_type_mask,
}

line_runs :
    parse_line (codes " @@||CDN.Example.com/ads^$third-party,script,IMG ") (codes "r_") ≡ record {
      rule_id = codes "r_cdn.example.com";
      rule_type = allow;
      domain_pattern = codes "cdn.example.com";
      path_pattern = codes "/ads";
      match_subdomains = true;
      require_third_party = true;
      require_first_party = false;
      resource_type_mask = 12;
      original_rule_text = codes "@@||CDN.Example.com/ads^$third-party,script,IMG";
      is_valid = true;
    }
unfolding parse_line trim is_text_byte find_if find_last_if is_empty begins_with_byte starts_with
    find ends_with_byte pop_back to_lower tolower split str_eq any parse_resource_type_mask
    option_type resource_index
line_runs = refl

text_runs :
    map (λ (r : ParsedRule). r.rule_id) (parse_text (codes "! x\n||a.com^\n\n||b.com^"))
    ≡ codes "rule_2_a.com" ∷ codes "rule_4_b.com" ∷ []
unfolding parse_text getlines to_string parse_line trim is_text_byte find_if find_last_if is_empty
    begins_with_byte starts_with find ends_with_byte pop_back to_lower tolower split str_eq any
    parse_resource_type_mask option_type resource_index
text_runs = refl
