-- ===== src/Tests/Rules.antt =====
-- The theorems on rules, the database and the blocker at given texts.
use thorium_frugal.Base.{
  ◌≡◌, refl, inr, true, false, not, ◌&&◌, [], ◌∷◌, ◌++◌, some, arith, codes, if◌then◌else◌, any,
}
use thorium_frugal.Text.{to_lower, tolower, is_empty}
use thorium_frugal.Types.{script, is_block}
use thorium_frugal.Classifier.{normalize_host, extract_hostname, classify}
use thorium_frugal.RuleParser.{ParsedRule, block, allow, match_all, parse_line}
use thorium_frugal.RuleParser.RoundTrip.{parse_line-render}
use thorium_frugal.RuleParser.Render.{stem, render}
use thorium_frugal.RuleDatabase.{
  empty_database, generate_candidate_domains, find_matching_allow_rules, find_matching_block_rules,
  add_rule,
}
use thorium_frugal.RuleDatabase.Candidates.{parents, generate_candidate_domains_lem}
use thorium_frugal.RuleDatabase.Index.{Represents}
use thorium_frugal.RuleDatabase.Capacity.{accept, accepts, clear-Represents, add_rule-Represents}
use thorium_frugal.RuleDatabase.Lookup.{applies, find_matching-any}
use thorium_frugal.TrackerBlocker.{evaluate_request, extract_path, is_applicable}
use thorium_frugal.TrackerBlocker.Decision.{evaluate_request-decision}
use thorium_frugal.Tests.{lacks, tracker_url, page, database, rules, database-Represents}

parse_line-render_example :
    parse_line (render true (codes "ads.com") (codes "/p") true) (codes "r_") ≡ record {
      rule_id = codes "r_" ++ codes "ads.com";
      rule_type = if true then allow else block;
      domain_pattern = codes "ads.com";
      path_pattern = codes "/p";
      match_subdomains = true;
      require_third_party = true;
      require_first_party = false;
      resource_type_mask = match_all;
      original_rule_text = render true (codes "ads.com") (codes "/p") true;
      is_valid = true;
    }
unfolding is_empty to_lower tolower any render stem
parse_line-render_example =
    parse_line-render (codes "r_") true (codes "ads.com") (codes "/p") true refl refl
      (lacks b'/' (codes "ads.com") refl) (lacks b'$' (codes "ads.com") refl)
      (inr (codes "p", refl)) (lacks b'$' (codes "/p") refl) (omega arith)

candidates_example : generate_candidate_domains (codes "A.b.com.") ≡ (
    if is_empty (to_lower (codes "A.b.com."))
    then []
    else normalize_host (codes "A.b.com.") ∷ parents (normalize_host (codes "A.b.com.")))
candidates_example = generate_candidate_domains_lem (codes "A.b.com.")

add_rule_example :
    Represents
      (add_rule empty_database (parse_line (codes "||ads.com^") [])).0
      (accept [] (parse_line (codes "||ads.com^") []))
    × ((add_rule empty_database (parse_line (codes "||ads.com^") [])).1
        ≡ accepts [] (parse_line (codes "||ads.com^") []))
add_rule_example =
    add_rule-Represents empty_database [] (parse_line (codes "||ads.com^") [])
      (clear-Represents empty_database).0

find_matching_example :
    (any (λ r. r.is_valid) (find_matching_allow_rules database (codes "t.ads.com") (codes "/p"))
      ≡ any (λ r. applies allow (codes "t.ads.com") (codes "/p") r && r.is_valid) rules)
    × (any (λ r. r.is_valid) (find_matching_block_rules database (codes "t.ads.com") (codes "/p"))
        ≡ any (λ r. applies block (codes "t.ads.com") (codes "/p") r && r.is_valid) rules)
find_matching_example =
    find_matching-any database rules (codes "t.ads.com") (codes "/p")
      (λ (r : ParsedRule). r.is_valid) database-Represents

decision_example : is_block (evaluate_request (some database) tracker_url page script).decision ≡ (
    not (is_empty (extract_hostname tracker_url))
    && (not (
          any
            (λ r.
              applies allow (extract_hostname tracker_url) (extract_path tracker_url) r
              && is_applicable script (classify tracker_url page) r)
            rules)
        && any
            (λ r.
              applies block (extract_hostname tracker_url) (extract_path tracker_url) r
              && is_applicable script (classify tracker_url page) r)
            rules))
decision_example =
    evaluate_request-decision database rules tracker_url page script database-Represents
