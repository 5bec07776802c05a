-- ===== src/PolicyManager/Evaluation.antt =====
-- `EvaluateRequest` taken apart: its result and its next state, by the switches that decide on them.
use thorium_frugal.Base.{◌≡◌, refl, ap, Bool, true, false, not, ◌&&◌, Bytes, if◌then◌else◌, codes}
use thorium_frugal.Types.{
  PrivacyEvaluationResult, PartyContext, initial_result, ResourceType, is_block,
}
use thorium_frugal.Classifier.{classify}
use thorium_frugal.TrackerBlocker
use thorium_frugal.TrackerBlocker.{extract_path, is_applicable}
use thorium_frugal.Events.{PrivacyEvent}
use thorium_frugal.PolicyManager.{
  PrivacyPolicyManager, raise, page_policy, is_allow_all, is_known, request_event, rule_event,
  evaluate_request, excepted_result,
}

-- The result by its switches: protection is on, the page is excepted.
unfoldable pub result_of :
    Bool → Bool → PartyContext → PrivacyEvaluationResult → PrivacyEvaluationResult
result_of on excepted party result =
    if not on then initial_result party else if excepted then excepted_result party else result

-- The next state by the same switches and what the result says.
unfoldable pub next_of :
    PrivacyPolicyManager
    → Bool
    → Bool
    → Bool
    → Bool
    → (Bytes → PrivacyEvent)
    → (Bytes → PrivacyEvent)
    → (Bytes → PrivacyEvent)
    → PrivacyPolicyManager
next_of m on excepted blocked known e1 e2 e3 =
    if not on
    then m
    else if excepted
    then raise m e1
    else if blocked
    then raise m e2
    else if known
    then raise m e3
    else m

-- Two nested conditionals on pairs, by components.
split_ifs {ℓ κ} :
    {A : Type ℓ} {B : Type κ} (on x : Bool) (a b c : A) (u v w : B)
    → ◌≡◌ {A = A × B}
        (if not on then (a, u) else if x then (b, v) else (c, w))
        (if not on then a else if x then b else c, if not on then u else if x then v else w)
split_ifs false x a b c u v w = refl
split_ifs true true a b c u v w = refl
split_ifs true false a b c u v w = refl

module _ (m : PrivacyPolicyManager) (now target init : Bytes) (type : ResourceType) where
  abbrev own_party : PartyContext
  own_party = classify target init

  abbrev by_rules : PrivacyEvaluationResult
  by_rules = TrackerBlocker.evaluate_request m.database target init type

  pub evaluated : evaluate_request m now target init type ≡ (
    result_of m.enabled (is_allow_all (page_policy m init)) own_party by_rules,
    next_of m m.enabled
        (is_allow_all (page_policy m init))
        (is_block by_rules.decision)
        (is_known by_rules.classification)
        (request_event now target init type own_party (codes "privacy.policy_exception_applied"))
        (rule_event now target init type by_rules (codes "privacy.request_blocked"))
        (rule_event now target init type by_rules (codes "privacy.tracker_detected")),
  )
  unfolding evaluate_request result_of next_of
  evaluated = split_ifs m.enabled (is_allow_all (page_policy m init)) _ _ _ _ _ _

  pub next_lem :
      (evaluate_request m now target init type).1
      ≡ next_of m m.enabled
          (is_allow_all (page_policy m init))
          (is_block by_rules.decision)
          (is_known by_rules.classification)
          (request_event now target init type own_party (codes "privacy.policy_exception_applied"))
          (rule_event now target init type by_rules (codes "privacy.request_blocked"))
          (rule_event now target init type by_rules (codes "privacy.tracker_detected"))
  next_lem = ap (λ (r : PrivacyEvaluationResult × PrivacyPolicyManager). r.1) evaluated

  pub result_lem :
      (evaluate_request m now target init type).0
      ≡ result_of m.enabled (is_allow_all (page_policy m init)) own_party by_rules
  result_lem = ap (λ (r : PrivacyEvaluationResult × PrivacyPolicyManager). r.0) evaluated

pub result_of-blocks :
    (on excepted : Bool) (party : PartyContext) (r : PrivacyEvaluationResult)
    → is_block (result_of on excepted party r).decision
      ≡ (on && (not excepted && is_block r.decision))
unfolding result_of
result_of-blocks false x party r = refl
result_of-blocks true true party r = refl
result_of-blocks true false party r = refl
