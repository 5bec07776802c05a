-- ===== src/Tests/UnitRules.antt =====
-- The unit tests of the repository on classifier, rules and blocker (privacy/tests), run on the definitions.
use thorium_frugal.Base.{
  ◌≡◌, refl, true, false, List, [], ◌∷◌, ◌++◌, map, Option, none, some, Bytes, codes, str_eq, any,
  select,
}
use thorium_frugal.Text.{
  to_lower, tolower, find, find_if, find_first_of, find_last_if, find_str, is_empty, ends_with_byte,
  pop_back, starts_with, begins_with_byte, getlines,
}
use thorium_frugal.Text.Pieces.{split}
use thorium_frugal.Text.Decimal.{to_string, zeros}
use thorium_frugal.Types.{
  PrivacyDecision, block, first_party, same_site, third_party, known_tracker, not_tracker,
  resource_index, script, image, main_frame, ResourceType, PrivacyEvaluationResult,
}
use thorium_frugal.Types
use thorium_frugal.Classifier.{
  extract_hostname, authority_start, get_domain, normalize_host, classify, is_local, two_part_tlds,
}
use thorium_frugal.RuleParser
use thorium_frugal.RuleParser.{
  ParsedRule, trim, is_text_byte, option_type, parse_line, parse_text, parse_resource_type_mask,
  matches_resource_type,
}
use thorium_frugal.RuleDatabase.{
  RuleDatabase, empty_database, generate_candidate_domains, add_rule, load_from_text,
  matches_path_and_options, find_matching_allow_rules, find_matching_block_rules,
  is_known_tracker_host, rule_count,
}
use thorium_frugal.TrackerBlocker.{evaluate_request, extract_path, is_applicable, tracker_blocker}

classifier_unittest :
    (classify (codes "https://example.com/api") (codes "https://example.com") ≡ first_party)
    × (classify (codes "https://api.example.com/v1") (codes "https://example.com") ≡ same_site)
    × (classify (codes "https://cdn.example.co.uk/style.css") (codes "https://example.co.uk")
        ≡ same_site)
    × (classify (codes "https://google-analytics.com/ga.js") (codes "https://news.example.com")
        ≡ third_party)
    × (classify (codes "https://doubleclick.net/ad") (codes "https://news.co.uk") ≡ third_party)
    × (get_domain (codes "sub.portal.gov.au") ≡ codes "portal.gov.au")
    × (get_domain (codes "api.tokyo.co.jp") ≡ codes "tokyo.co.jp")
    × (get_domain (codes "127.0.0.1") ≡ codes "127.0.0.1")
    × (get_domain (codes "localhost") ≡ codes "localhost")
unfolding classify extract_hostname authority_start to_lower tolower find_str find_first_of find_if
    is_empty starts_with any get_domain normalize_host ends_with_byte pop_back str_eq split find
    is_local two_part_tlds
classifier_unittest = (refl, refl, refl, refl, refl, refl, refl, refl, refl)

abbrev database_text : Bytes
database_text =
    codes
      "||doubleclick.net^$third-party\n||google-analytics.com/ga.js^$third-party\n@@||cdnjs.cloudflare.com^\n"

abbrev loaded : RuleDatabase
loaded = (load_from_text empty_database database_text).0

abbrev domains : List ParsedRule → List Bytes
domains rules = map (λ (r : ParsedRule). r.domain_pattern) rules

database_unittest :
    (generate_candidate_domains (codes "ads.sub.doubleclick.net")
      ≡ codes "ads.sub.doubleclick.net"
        ∷ codes "sub.doubleclick.net"
        ∷ codes "doubleclick.net"
        ∷ codes "net"
        ∷ [])
    × (rule_count loaded ≡ 3)
    × (is_known_tracker_host loaded (codes "ad.doubleclick.net") ≡ true)
    × (is_known_tracker_host loaded (codes "doubleclick.net") ≡ true)
    × (is_known_tracker_host loaded (codes "example.com") ≡ false)
    × (domains (find_matching_block_rules loaded (codes "ad.doubleclick.net") (codes "/pixel"))
        ≡ codes "doubleclick.net" ∷ [])
    × (domains (find_matching_allow_rules loaded (codes "cdnjs.cloudflare.com") (codes "/react.js"))
        ≡ codes "cdnjs.cloudflare.com" ∷ [])
unfolding any str_eq is_empty to_lower tolower find find_first_of find_str find_if find_last_if
    starts_with begins_with_byte ends_with_byte pop_back trim is_text_byte parse_line parse_text
    getlines to_string parse_resource_type_mask option_type resource_index split
    generate_candidate_domains empty_database add_rule load_from_text matches_path_and_options
    find_matching_allow_rules find_matching_block_rules is_known_tracker_host rule_count
    normalize_host select
database_unittest = (refl, refl, refl, refl, refl, refl, refl)

abbrev parsed : Bytes → ParsedRule
parsed line = parse_line line []

parser_unittest :
    let r1 = parsed (codes "||google-analytics.com^$third-party,script") in
    let r2 = parsed (codes "@@||cdnjs.cloudflare.com^") in
    let r3 = parsed (codes "||facebook.com/tr^$third-party") in
    (r1.is_valid ≡ true)
    × (r1.rule_type ≡ RuleParser.block)
    × (r1.domain_pattern ≡ codes "google-analytics.com")
    × (r1.match_subdomains ≡ true)
    × (r1.require_third_party ≡ true)
    × (matches_resource_type script r1.resource_type_mask ≡ true)
    × (matches_resource_type image r1.resource_type_mask ≡ false)
    × (r2.is_valid ≡ true)
    × (r2.rule_type ≡ RuleParser.allow)
    × (r2.domain_pattern ≡ codes "cdnjs.cloudflare.com")
    × (r3.is_valid ≡ true)
    × (r3.domain_pattern ≡ codes "facebook.com")
    × (r3.path_pattern ≡ codes "/tr")
    × ((parsed (codes "! Just a comment")).is_valid ≡ false)
    × ((parsed (codes "   ")).is_valid ≡ false)
    × ((parsed (codes "||" ++ (zeros 2000 ++ codes "^"))).is_valid ≡ false)
unfolding any str_eq is_empty to_lower tolower find find_first_of find_str find_if find_last_if
    starts_with begins_with_byte ends_with_byte pop_back trim is_text_byte parse_line parse_text
    parse_resource_type_mask option_type resource_index split getlines to_string
    matches_resource_type zeros
parser_unittest =
    (refl, refl, refl, refl, refl, refl, refl, refl, refl, refl, refl, refl, refl, refl, refl, refl)

-- `SetUp` fills the database that the constructor makes.
abbrev set_up : Option RuleDatabase
set_up = elim (tracker_blocker none) [
  | none ↦ none
  | some db ↦
      some
        (load_from_text db (
          codes
            "||google-analytics.com^$third-party\n||doubleclick.net^$third-party\n||facebook.com/tr^$third-party\n@@||cdnjs.cloudflare.com^\n||tracker.example.com^$script\n")).0
]

-- The test of the allow rule reads a member `matched_rule_id`, which the result does not have; the
-- identifier is in its `matched_rule`.
blocker_unittest :
    let known =
      evaluate_request set_up
        (codes "https://www.google-analytics.com/analytics.js")
        (codes "https://news.example.com")
        script in
    let own =
      evaluate_request set_up
        (codes "https://google-analytics.com/dashboard")
        (codes "https://google-analytics.com")
        main_frame in
    let unknown =
      evaluate_request set_up
        (codes "https://images.unsplash.com/photo.jpg")
        (codes "https://news.example.com")
        image in
    let excepted =
      evaluate_request set_up
        (codes "https://cdnjs.cloudflare.com/ajax/libs/react/18.0.0/react.min.js")
        (codes "https://app.example.com")
        script in
    let subdomain =
      evaluate_request set_up
        (codes "https://ad.doubleclick.net/pixel")
        (codes "https://shopping.example.com")
        image in
    (known.decision ≡ block)
    × (known.classification ≡ known_tracker)
    × (known.party_context ≡ third_party)
    × (own.decision ≡ Types.allow)
    × (unknown.decision ≡ Types.allow)
    × (unknown.classification ≡ not_tracker)
    × (excepted.decision ≡ Types.allow)
    × (is_empty excepted.matched_rule.rule_id ≡ false)
    × (subdomain.decision ≡ block)
    × (subdomain.classification ≡ known_tracker)
unfolding any str_eq is_empty to_lower tolower find find_first_of find_str find_if find_last_if
    starts_with begins_with_byte ends_with_byte pop_back trim is_text_byte parse_line parse_text
    parse_resource_type_mask option_type resource_index split getlines to_string
    matches_resource_type add_rule load_from_text empty_database tracker_blocker select
    normalize_host generate_candidate_domains find_matching_allow_rules find_matching_block_rules
    is_known_tracker_host matches_path_and_options evaluate_request extract_path is_applicable
    extract_hostname authority_start classify get_domain is_local two_part_tlds
blocker_unittest = (refl, refl, refl, refl, refl, refl, refl, refl, refl, refl)
