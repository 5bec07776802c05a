-- ===== src/PolicyManager/Reports.antt =====
-- What the manager reports of a request.
use thorium_frugal.Base.{
  ◌+◌, ◌%◌, ◌^◌, ◌≡◌, refl, sym, Bool, true, false, ◌&&◌, ◌||◌, ◌++◌, map, Bytes, if◌then◌else◌,
  codes, subst,
}
use thorium_frugal.Types.{PrivacyEvaluationResult, PartyContext, ResourceType, is_block}
use thorium_frugal.Classifier.{classify}
use thorium_frugal.TrackerBlocker
use thorium_frugal.TrackerBlocker.{extract_path, is_applicable}
use thorium_frugal.Events.{PrivacyEvent, callable, dispatch_event_lem}
use thorium_frugal.Telemetry.{sanitize_url_for_telemetry}
use thorium_frugal.PolicyManager.{
  PrivacyPolicyManager, event_id_of, generate_event_id, raise, page_policy, is_allow_all, is_known,
  request_event, rule_event, evaluate_request,
}
use thorium_frugal.PolicyManager.Evaluation.{result_of, next_of, evaluated}

pub raise-delivered :
    (m : PrivacyPolicyManager) (event : Bytes → PrivacyEvent)
    → (raise m event).event_dispatcher.delivered
      ≡ m.event_dispatcher.delivered
        ++ map
            (λ l. (l, event (event_id_of m.process_prefix m.event_counter)))
            (callable m.event_dispatcher.listeners)
unfolding raise generate_event_id
raise-delivered m event =
    (dispatch_event_lem m.event_dispatcher (event (event_id_of m.process_prefix m.event_counter))).0

pub raise-counter :
    (m : PrivacyPolicyManager) (event : Bytes → PrivacyEvent)
    → (raise m event).event_counter ≡ (m.event_counter + 1) % 2 ^ 64
unfolding raise generate_event_id
raise-counter m event = refl

-- The move from `m` to `next` dispatches one event with these data if `reported`, and none otherwise.
abbrev pub IsReported :
    PrivacyPolicyManager → PrivacyPolicyManager → Bool → PartyContext → Bytes → Bytes → Type 0
IsReported m next reported party target init =
    (event : PrivacyEvent) × (event.event_id ≡ event_id_of m.process_prefix m.event_counter)
    × (event.sanitized_url ≡ sanitize_url_for_telemetry target)
    × (event.party_context ≡ party)
    × (event.initiator_origin ≡ init)
    × (next.event_dispatcher.delivered ≡ (
        if reported
        then m.event_dispatcher.delivered
          ++ map (λ l. (l, event)) (callable m.event_dispatcher.listeners)
        else m.event_dispatcher.delivered))
    × (next.event_counter ≡ (if reported then (m.event_counter + 1) % 2 ^ 64 else m.event_counter))

module _ (m : PrivacyPolicyManager) (now target init : Bytes) (type : ResourceType)
    (party : PartyContext) (r : PrivacyEvaluationResult) (name1 name2 name3 : Bytes) where
  report_cases :
      (on excepted blocked known : Bool)
      → IsReported m
          (next_of m on excepted blocked known
            (request_event now target init type party name1)
            (rule_event now target init type r name2)
            (rule_event now target init type r name3))
          (on && (excepted || (blocked || known)))
          (result_of on excepted party r).party_context
          target
          init
  unfolding next_of result_of request_event rule_event
  report_cases false x b k = (
    request_event now target init type party name1 (event_id_of m.process_prefix m.event_counter),
    refl,
    refl,
    refl,
    refl,
    refl,
    refl,
  )
  report_cases true true b k = (
    request_event now target init type party name1 (event_id_of m.process_prefix m.event_counter),
    refl,
    refl,
    refl,
    refl,
    raise-delivered m _,
    raise-counter m _,
  )
  report_cases true false true k = (
    rule_event now target init type r name2 (event_id_of m.process_prefix m.event_counter),
    refl,
    refl,
    refl,
    refl,
    raise-delivered m _,
    raise-counter m _,
  )
  report_cases true false false true = (
    rule_event now target init type r name3 (event_id_of m.process_prefix m.event_counter),
    refl,
    refl,
    refl,
    refl,
    raise-delivered m _,
    raise-counter m _,
  )
  report_cases true false false false = (
    rule_event now target init type r name3 (event_id_of m.process_prefix m.event_counter),
    refl,
    refl,
    refl,
    refl,
    refl,
    refl,
  )

  report_lem :
      (on excepted : Bool)
      → let result = result_of on excepted party r in
        IsReported m
          (next_of m on excepted
            (is_block r.decision)
            (is_known r.classification)
            (request_event now target init type party name1)
            (rule_event now target init type r name2)
            (rule_event now target init type r name3))
          (on && (excepted || (is_block result.decision || is_known result.classification)))
          result.party_context
          target
          init
  unfolding result_of
  report_lem false x = report_cases false x (is_block r.decision) (is_known r.classification)
  report_lem true true = report_cases true true (is_block r.decision) (is_known r.classification)
  report_lem true false = report_cases true false (is_block r.decision) (is_known r.classification)

-- At most one event: what is reported is a request of an enabled manager that a page policy allows, or
-- that is blocked, or whose classification is that of a known tracker. The event has the identifier of
-- the counter, goes once to each listener behind all earlier deliveries, and moves the counter by one;
-- it shows the sanitised target, the party of the result and the origin of the page. A request that is
-- not reported delivers nothing and keeps the counter.
pub evaluate_request-reports :
    (m : PrivacyPolicyManager) (now target init : Bytes) (type : ResourceType)
    → let (result, next) = evaluate_request m now target init type in
      let reported =
        m.enabled
        && (is_allow_all (page_policy m init)
            || (is_block result.decision || is_known result.classification)) in
      IsReported m next reported result.party_context target init
evaluate_request-reports m now target init type =
    let r = TrackerBlocker.evaluate_request m.database target init type in
    let x = is_allow_all (page_policy m init) in
    let P : (PrivacyEvaluationResult × PrivacyPolicyManager) → Type 0 = λ s.
      IsReported m s.1 (m.enabled && (x || (is_block s.0.decision || is_known s.0.classification)))
        s.0.party_context target init in
    subst P (sym (evaluated m now target init type)) (
      report_lem m now target init type (classify target init) r
        (codes "privacy.policy_exception_applied") (codes "privacy.request_blocked")
        (codes "privacy.tracker_detected") m.enabled x)
