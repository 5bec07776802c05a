-- ===== src/PolicyManager.antt =====
-- privacy_policy/privacy_policy_manager.cc: the manager that evaluates requests, cleans URLs and reports
-- events. A method is a function from the state to its result and the next state; the clock is an
-- argument, `now`, of the methods that read it.
pub mod Evaluation
pub mod Requests
pub mod Reports
pub mod Steps
pub mod EventIds
pub mod Threads
pub mod Interrupted
pub mod Told
use thorium_frugal.Base.{
  ℕ, ◌+◌, ◌%◌, ◌^◌, Bool, true, false, not, List, [], ◌++◌, Option, none, Bytes, codes,
  if◌then◌else◌,
}
use thorium_frugal.Text.{is_empty}
use thorium_frugal.Text.Decimal.{to_string, pad_zeros}
use thorium_frugal.Types.{
  is_block, PrivacyEvaluationResult, ResourceType, PrivacyDecision, PartyContext,
  TrackerClassification, allow, block, known_tracker, not_tracker, unclassified, initial_result,
  resource_to_string,
}
use thorium_frugal.Classifier.{extract_hostname, get_domain, classify}
use thorium_frugal.RuleDatabase.{RuleDatabase}
use thorium_frugal.TrackerBlocker
use thorium_frugal.ParameterFilter.{
  FilterResult, tracking_params, unchanged, strip_tracking_parameters,
}
use thorium_frugal.SiteExceptions.{
  SitePolicyException, default, allow_all, block_all, Exceptions, set_site_exception,
  get_site_exception,
}
use thorium_frugal.Events.{PrivacyEvent, new_event, PrivacyEventDispatcher, dispatch_event}
use thorium_frugal.Telemetry.{sanitize_url_for_telemetry}

pub record PrivacyPolicyManager : Type 0 where
  pub enabled : Bool
  pub event_counter : ℕ
  pub process_prefix : Bytes
  pub database : Option RuleDatabase
  pub parameters : List Bytes
  pub site_exceptions : Exceptions
  pub event_dispatcher : PrivacyEventDispatcher

-- The constructor, with the hexadecimal number that it draws.
unfoldable pub new_manager : Bytes → PrivacyPolicyManager
new_manager random_hex = record {
  enabled = true;
  event_counter = 1;
  process_prefix = codes "lt_priv_" ++ (random_hex ++ codes "_");
  database = TrackerBlocker.tracker_blocker none;
  parameters = tracking_params;
  site_exceptions = [];
  event_dispatcher = record { listeners = []; delivered = [] };
}

-- The identifier of an event number.
abbrev pub event_id_of : Bytes → ℕ → Bytes
event_id_of prefix count = prefix ++ pad_zeros 6 (to_string count)

-- `fetch_add` on an unsigned number of 64 bits.
unfoldable pub generate_event_id : PrivacyPolicyManager → Bytes × PrivacyPolicyManager
generate_event_id m = (
  event_id_of m.process_prefix m.event_counter,
  record m { event_counter = (m.event_counter + 1) % 2 ^ 64 },
)

unfoldable pub set_privacy_protection_enabled : PrivacyPolicyManager → Bool → PrivacyPolicyManager
set_privacy_protection_enabled m b = record m { enabled = b }

unfoldable pub is_privacy_protection_enabled : PrivacyPolicyManager → Bool
is_privacy_protection_enabled m = m.enabled

-- `SetDatabase` of the blocker.
unfoldable pub set_database : PrivacyPolicyManager → Option RuleDatabase → PrivacyPolicyManager
set_database m db = record m { database = db }

unfoldable pub set_exception :
    PrivacyPolicyManager → Bytes → SitePolicyException → PrivacyPolicyManager
set_exception m host e = record m { site_exceptions = set_site_exception m.site_exceptions host e }

unfoldable pub get_exception : PrivacyPolicyManager → Bytes → SitePolicyException
get_exception m host = get_site_exception m.site_exceptions host

-- An event is given the next identifier and dispatched.
unfoldable pub raise : PrivacyPolicyManager → (Bytes → PrivacyEvent) → PrivacyPolicyManager
raise m event =
    let (id, m1) = generate_event_id m in
    record m1 { event_dispatcher = dispatch_event m1.event_dispatcher (event id) }

-- The event of `SanitizeUrl`.
unfoldable pub removal_event : Bytes → FilterResult → Bytes → PrivacyEvent
removal_event now result id =
    record (new_event id (codes "privacy.tracking_parameter_removed") now) {
      host = extract_hostname result.cleaned_url;
      sanitized_url = sanitize_url_for_telemetry result.cleaned_url;
      stripped_parameters = result.removed_parameters;
    }

unfoldable pub sanitize_url :
    PrivacyPolicyManager → Bytes → Bytes → FilterResult × PrivacyPolicyManager
sanitize_url m now url =
    let result = strip_tracking_parameters m.parameters url in
    if not m.enabled
    then (unchanged url, m)
    else (result, if result.parameters_removed then raise m (removal_event now result) else m)

-- The policy for a page: that of its host, else that of its domain if it has one.
unfoldable pub resolve_policy :
    SitePolicyException → Bool → SitePolicyException → SitePolicyException
resolve_policy default has_domain of_domain = if has_domain then of_domain else default
resolve_policy allow_all has_domain of_domain = allow_all
resolve_policy block_all has_domain of_domain = block_all

unfoldable pub page_policy : PrivacyPolicyManager → Bytes → SitePolicyException
page_policy m initiator =
    let init_host = extract_hostname initiator in
    let init_domain = get_domain init_host in
    resolve_policy (get_exception m init_host) (not (is_empty init_domain))
      (get_exception m init_domain)

abbrev pub is_allow_all : SitePolicyException → Bool
is_allow_all allow_all = true
is_allow_all _ = false

-- What the events of `EvaluateRequest` have in common.
unfoldable pub request_event :
    Bytes → Bytes → Bytes → ResourceType → PartyContext → Bytes → Bytes → PrivacyEvent
request_event now target initiator type party event_type id = record (new_event id event_type now) {
  host = extract_hostname target;
  sanitized_url = sanitize_url_for_telemetry target;
  initiator_origin = initiator;
  party_context = party;
  resource_type = resource_to_string type;
}

-- The same with the classification and the rule of a result.
unfoldable pub rule_event :
    Bytes → Bytes → Bytes → ResourceType → PrivacyEvaluationResult → Bytes → Bytes → PrivacyEvent
rule_event now target initiator type result event_type id =
    record (request_event now target initiator type result.party_context event_type id) {
      classification = result.classification;
      rule_id = result.matched_rule.rule_id;
    }

abbrev pub is_known : TrackerClassification → Bool
is_known known_tracker = true
is_known not_tracker = false
is_known unclassified = false

-- The result of a request from a page with the policy `kAllowAll`.
abbrev pub excepted_result : PartyContext → PrivacyEvaluationResult
excepted_result party = record (initial_result party) {
  exception_applied = true;
  reason = codes "Site exception: allow all third-party requests";
}

unfoldable pub evaluate_request :
    PrivacyPolicyManager
    → Bytes
    → Bytes
    → Bytes
    → ResourceType
    → PrivacyEvaluationResult × PrivacyPolicyManager
evaluate_request m now target initiator type =
    let party = classify target initiator in
    let result = TrackerBlocker.evaluate_request m.database target initiator type in
    if not m.enabled
    then (initial_result party, m)
    else if is_allow_all (page_policy m initiator)
    then (
      excepted_result party,
      raise m (
          request_event now target initiator type party (codes "privacy.policy_exception_applied")),
    )
    else (
      result,
      if is_block result.decision
          then raise m
              (rule_event now target initiator type result (codes "privacy.request_blocked"))
          else if is_known result.classification
          then raise m
              (rule_event now target initiator type result (codes "privacy.tracker_detected"))
          else m,
    )
