-- ===== src/Tests/Races.antt =====
-- The theorems on evaluations that other threads interrupt, at given writes.
use thorium_frugal.Base.{
  ◌≡◌, refl, not, ◌&&◌, true, false, [], ◌∷◌, List, All, codes, Bytes, ◌⊎◌, inl, some, any, str_eq,
}
use thorium_frugal.Text.{
  is_empty, to_lower, tolower, find, find_first_of, find_str, find_if, find_last_if, starts_with,
  begins_with_byte, ends_with_byte, pop_back,
}
use thorium_frugal.Text.Pieces.{split}
use thorium_frugal.Types.{script, resource_index, is_block, PrivacyEvaluationResult}
use thorium_frugal.Classifier.{
  extract_hostname, authority_start, normalize_host, classify, get_domain,
}
use thorium_frugal.RuleParser.{parse_line, trim, is_text_byte, matches_resource_type}
use thorium_frugal.RuleDatabase.{generate_candidate_domains, matches_path_and_options}
use thorium_frugal.RuleDatabase.Index.{in_bucket, in_generic}
use thorium_frugal.RuleDatabase.Lookup.{covers, applies}
use thorium_frugal.TrackerBlocker.{extract_path, is_applicable, evaluate_request}
use thorium_frugal.TrackerBlocker.Interrupted.{
  Write, adds, clears, after_writes, begun, returned, after_turns, schedule,
}
use thorium_frugal.TrackerBlocker.Interrupted.Decisions.{
  written, rules_allow, rules_block, interrupted-decision,
}
use thorium_frugal.TrackerBlocker.Interrupted.Atomic.{is_unnoticed, interrupted-atomic}
use thorium_frugal.SiteExceptions.{
  SitePolicyException, default, allow_all, set_site_exception, get_site_exception,
}
use thorium_frugal.PolicyManager.{
  PrivacyPolicyManager, set_exception, get_exception, resolve_policy, page_policy, new_manager,
}
use thorium_frugal.PolicyManager.Interrupted.{
  after_changes, interrupted_policy, interrupted_policy_lem,
}
use thorium_frugal.Tests.Manager.{manager}
use thorium_frugal.Tests.{tracker_url, page, database, rules, database-Represents}

-- An allow rule and a block rule for the host, as `LoadFromText` adds them.
abbrev loaded : List Write
loaded =
    adds (parse_line (codes "@@||t.ads.com^") (codes "a"))
    ∷ adds (parse_line (codes "||t.ads.com^") (codes "b"))
    ∷ []

interrupted_example :
    (r : PrivacyEvaluationResult) × (after_turns tracker_url page script
        (database, begun)
        (schedule (clears ∷ []) [] loaded)
      ≡ (after_writes (after_writes (after_writes database (clears ∷ [])) []) loaded, returned r))
    × (is_block r.decision ≡ (
        not (is_empty (extract_hostname tracker_url))
        && (not (rules_allow tracker_url page script (written (written rules (clears ∷ [])) []))
            && rules_block tracker_url page script
                (written (written (written rules (clears ∷ [])) []) loaded))))
interrupted_example =
    interrupted-decision tracker_url page script database rules (clears ∷ []) [] loaded
      database-Represents

-- The same rules before the second section of the evaluation, and one more block rule behind it.
abbrev more : List Write
more = adds (parse_line (codes "||more.net^") (codes "c")) ∷ []

more-unnoticed : All (λ w. is_unnoticed tracker_url page script w ≡ true) more
unfolding any str_eq is_empty to_lower tolower find find_first_of find_str find_if find_last_if
    starts_with begins_with_byte ends_with_byte pop_back trim is_text_byte parse_line
    authority_start extract_hostname normalize_host generate_candidate_domains in_bucket in_generic
    covers applies matches_path_and_options is_applicable matches_resource_type extract_path
    classify get_domain resource_index
more-unnoticed = (refl, tt)

atomic_example :
    (r : PrivacyEvaluationResult) × (after_turns tracker_url page script
        (database, begun)
        (schedule [] loaded more)
      ≡ (after_writes (after_writes (after_writes database []) loaded) more, returned r))
    × (is_block r.decision
        ≡ is_block
            (evaluate_request
              (some (after_writes (after_writes (after_writes database []) loaded) more))
              tracker_url
              page
              script).decision)
    × (after_turns tracker_url page script (database, begun) (schedule [] [] [])
        ≡ (database, returned (evaluate_request (some database) tracker_url page script)))
atomic_example =
    interrupted-atomic tracker_url page script database rules [] loaded more database-Represents
      more-unnoticed

-- Where the database is empty before the text is loaded, and the text comes between the two lookups, the
-- request is blocked, although neither the empty database nor the loaded one blocks it.
race :
    ((not (rules_allow tracker_url page script [])
        && rules_block tracker_url page script (written [] loaded))
      ≡ true)
    × (rules_block tracker_url page script [] ≡ false)
    × (rules_allow tracker_url page script (written [] loaded) ≡ true)
unfolding any str_eq is_empty to_lower tolower find find_first_of find_str find_if find_last_if
    starts_with begins_with_byte ends_with_byte pop_back trim is_text_byte parse_line
    authority_start extract_hostname normalize_host generate_candidate_domains in_bucket in_generic
    covers applies matches_path_and_options is_applicable matches_resource_type extract_path
    classify get_domain resource_index
race = (refl, refl, refl)

policy_example :
    (interrupted_policy manager page ((codes "other.net", allow_all) ∷ [])
      ≡ page_policy manager page)
    ⊎ (interrupted_policy manager page ((codes "other.net", allow_all) ∷ [])
        ≡ page_policy (after_changes manager ((codes "other.net", allow_all) ∷ [])) page)
unfolding any str_eq is_empty to_lower tolower find find_first_of find_str find_if starts_with
    ends_with_byte pop_back split authority_start extract_hostname normalize_host get_domain
policy_example =
    interrupted_policy_lem manager page ((codes "other.net", allow_all) ∷ []) (inl (λ h. cc, tt))

-- The exception is moved from the domain to the host between the two lookups: at each moment there is one,
-- and none is found.
abbrev excepted : PrivacyPolicyManager
excepted = set_exception manager (codes "example.org") allow_all

abbrev moving : List (Bytes × SitePolicyException)
moving = (codes "news.example.org", allow_all) ∷ (codes "example.org", default) ∷ []

moved_race :
    (interrupted_policy excepted page moving ≡ default)
    × (page_policy excepted page ≡ allow_all)
    × (page_policy (after_changes excepted ((codes "news.example.org", allow_all) ∷ [])) page
        ≡ allow_all)
    × (page_policy (after_changes excepted moving) page ≡ allow_all)
unfolding any str_eq is_empty to_lower tolower find find_first_of find_str find_if starts_with
    ends_with_byte pop_back split authority_start extract_hostname normalize_host get_domain
    interrupted_policy page_policy get_exception set_exception set_site_exception get_site_exception
    resolve_policy new_manager
moved_race = (refl, refl, refl, refl)
