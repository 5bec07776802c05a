-- ===== src/TrackerBlocker.antt =====
-- tracker_blocker/tracker_blocker.cc: the decision about one request.
pub mod Decision
pub mod Interrupted
use thorium_frugal.Base.{
  ℕ, ◌-◌, Bool, true, false, not, ◌&&◌, ◌||◌, List, [], ◌∷◌, ◌++◌, Option, none, some, Bytes, codes,
  if◌then◌else◌, drop,
}
use thorium_frugal.Text.{find, find_first_of, substr, is_empty}
use thorium_frugal.Types.{
  PrivacyEvaluationResult, PartyContext, first_party, same_site, third_party, ResourceType, allow,
  block, known_tracker, initial_result,
}
use thorium_frugal.Classifier.{authority_start, extract_hostname, classify}
use thorium_frugal.RuleParser.{ParsedRule, matches_resource_type}
use thorium_frugal.RuleDatabase.{
  RuleDatabase, empty_database, find_matching_allow_rules, find_matching_block_rules,
  is_known_tracker_host,
}

unfoldable pub extract_path : Bytes → Bytes
extract_path url = elim (find url b'/' (authority_start url)) [
  | none ↦ codes "/"
  | some slash ↦ elim (find_first_of url (codes "?#") slash) [
    | none ↦ drop slash url
    | some query ↦ substr url slash (query - slash)
  ]
]

abbrev pub is_third_party : PartyContext → Bool
is_third_party third_party = true
is_third_party _ = false

-- None of the three `continue`s of the loops is taken.
unfoldable pub is_applicable : ResourceType → PartyContext → ParsedRule → Bool
is_applicable type party rule =
    matches_resource_type type rule.resource_type_mask
    && (not (rule.require_third_party && not (is_third_party party))
        && not (rule.require_first_party && is_third_party party))

-- The first rule of the loop that is not passed over.
pub first_applicable : ResourceType → PartyContext → List ParsedRule → Option ParsedRule
first_applicable type party [] = none
first_applicable type party (r ∷ rs) =
    let rest = first_applicable type party rs in if is_applicable type party r then some r else rest

pub allowed_by : ParsedRule → PrivacyEvaluationResult → PrivacyEvaluationResult
allowed_by rule result = record result {
  decision = allow;
  matched_rule = record {
    matched = true;
    rule_id = rule.rule_id;
    pattern = rule.original_rule_text;
    is_allow_rule = true;
  };
  reason = codes "Matched allow rule: " ++ rule.original_rule_text;
}

-- What the loop over the block rules writes before its last test.
pub tracked_by : ParsedRule → PrivacyEvaluationResult → PrivacyEvaluationResult
tracked_by rule result = record result {
  matched_rule = record {
    matched = true;
    rule_id = rule.rule_id;
    pattern = rule.original_rule_text;
    is_allow_rule = false;
  };
  classification = known_tracker;
}

pub blocked_by : ParsedRule → PrivacyEvaluationResult → PrivacyEvaluationResult
unfolding tracked_by
blocked_by rule result =
    if is_third_party result.party_context || not rule.require_third_party
    then record (tracked_by rule result) {
      decision = block;
      reason = codes "Matched block rule: " ++ rule.original_rule_text;
    }
    else record (tracked_by rule result) {
      decision = allow;
      reason = codes "Matched tracker rule in first-party context (allowed by policy)";
    }

-- The rules of a database, for a host that is not empty.
evaluate_rules :
    RuleDatabase → Bytes → Bytes → PartyContext → ResourceType → PrivacyEvaluationResult
evaluate_rules db host path party type =
    let result =
      if is_known_tracker_host db host
      then record (initial_result party) { classification = known_tracker }
      else initial_result party in
    elim (first_applicable type party (find_matching_allow_rules db host path)) [
      | some rule ↦ allowed_by rule result
      | none ↦ elim (first_applicable type party (find_matching_block_rules db host path)) [
        | some rule ↦ blocked_by rule result
        | none ↦ result
      ]
    ]

-- `TrackerBlocker::EvaluateRequest`; the database is a pointer that may be null.
unfoldable pub evaluate_request :
    Option RuleDatabase → Bytes → Bytes → ResourceType → PrivacyEvaluationResult
unfolding evaluate_rules first_applicable allowed_by blocked_by
evaluate_request database target_url initiator_origin type =
    let party = classify target_url initiator_origin in
    let host = extract_hostname target_url in
    elim database [
      | none ↦ initial_result party
      | some db ↦
          if is_empty host
          then initial_result party
          else evaluate_rules db host (extract_path target_url) party type
    ]

-- The constructor: a null pointer gives a new database.
unfoldable pub tracker_blocker : Option RuleDatabase → Option RuleDatabase
tracker_blocker none = some empty_database
tracker_blocker (some db) = some db
