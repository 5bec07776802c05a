-- ===== src/TrackerBlocker/Decision.antt =====
-- When a request is blocked, in terms of the accepted rules.
use thorium_frugal.Base.{
  ◌≡◌, ◌↔◌, refl, ap, ◌∙◌, sym, inl, inr, ◌⊎◌, Bool, true, false, not, ◌&&◌, ◌||◌, List, [], ◌∷◌,
  ◌++◌, Option, none, some, arith, Bytes, codes, if◌then◌else◌, Bool-cases, any, if_true, if_false,
  subst,
}
use thorium_frugal.Text.{is_empty}
use thorium_frugal.Types.{
  is_block, PrivacyEvaluationResult, PartyContext, ResourceType, allow, block, known_tracker,
  initial_result,
}
use thorium_frugal.Classifier.{extract_hostname, classify}
use thorium_frugal.RuleParser.{ParsedRule}
use thorium_frugal.RuleParser
use thorium_frugal.RuleDatabase.{
  RuleDatabase, find_matching_allow_rules, find_matching_block_rules, is_known_tracker_host,
}
use thorium_frugal.RuleDatabase.Index.{Represents}
use thorium_frugal.RuleDatabase.Lookup.{applies, find_matching-any}
use thorium_frugal.TrackerBlocker.{
  extract_path, is_third_party, is_applicable, first_applicable, allowed_by, tracked_by, blocked_by,
  evaluate_rules, evaluate_request,
}

module _ (type : ResourceType) (party : PartyContext) where
  pub first_applicable_cases :
      (rs : List ParsedRule)
      → ((first_applicable type party rs ≡ none) × (any (is_applicable type party) rs ≡ false))
        ⊎ ((r : ParsedRule) × (first_applicable type party rs ≡ some r)
            × (is_applicable type party r ≡ true)
            × (any (is_applicable type party) rs ≡ true))
  unfolding first_applicable any
  first_applicable_cases [] = inl (refl, refl)
  first_applicable_cases (r ∷ rs) = elim (Bool-cases (is_applicable type party r)) [
    | inl e ↦
        inr (r, if_true _ _ _ e, e, ap (λ (b : Bool). b || any (is_applicable type party) rs) e)
    | inr e ↦ elim (first_applicable_cases rs) [
      | inl (n, a) ↦ inl (if_false _ _ _ e ∙ n, rw (e, a))
      | inr (q, n, t, a) ↦ inr (q, if_false _ _ _ e ∙ n, t, rw (e, a))
    ]
  ]

  -- The last branch of the loop over the block rules is never taken: a rule for third parties has
  -- been passed over before it is reached.
  pub blocked_by-applicable :
      (r : ParsedRule) (result : PrivacyEvaluationResult)
      → result.party_context ≡ party
      → is_applicable type party r ≡ true
      → blocked_by r result ≡ record (tracked_by r result) {
        decision = block;
        reason = codes "Matched block rule: " ++ r.original_rule_text;
      }
  unfolding blocked_by
  blocked_by-applicable r result e h =
      if_true _ _ _
        (ap (λ (p : PartyContext). is_third_party p || not r.require_third_party) e ∙ covered h)
    where
      covered :
          is_applicable type party r ≡ true
          → (is_third_party party || not r.require_third_party) ≡ true
      covered h = unfold is_applicable in ground arith

-- What `evaluate_rules` can return: the allow rule's result, the block rule's, or the first one.
module _ (db : RuleDatabase) (host path : Bytes) (party : PartyContext) (type : ResourceType) where
  start : PrivacyEvaluationResult
  start =
      if is_known_tracker_host db host
      then record (initial_result party) { classification = known_tracker }
      else initial_result party

  start_lem :
      (start.decision ≡ allow)
      × (start.party_context ≡ party)
      × (start.matched_rule.matched ≡ false)
  unfolding start
  start_lem = elim (Bool-cases (is_known_tracker_host db host)) [
    | inl e ↦ rw e (refl, refl, refl)
    | inr e ↦ rw e (refl, refl, refl)
  ]

  allows : Bool
  allows = any (is_applicable type party) (find_matching_allow_rules db host path)

  blocks : Bool
  blocks = any (is_applicable type party) (find_matching_block_rules db host path)

  evaluate_rules_cases :
      (P : PrivacyEvaluationResult → Type 0)
      → ((r : ParsedRule)
          → is_applicable type party r ≡ true
          → allows ≡ true
          → P (allowed_by r start))
      → ((r : ParsedRule)
          → is_applicable type party r ≡ true
          → allows ≡ false
          → blocks ≡ true
          → P (record (tracked_by r start) {
            decision = block;
            reason = codes "Matched block rule: " ++ r.original_rule_text;
          }))
      → (allows ≡ false → blocks ≡ false → P start)
      → P (evaluate_rules db host path party type)
  unfolding evaluate_rules allows blocks start
  evaluate_rules_cases P on_allow on_block on_none =
      elim (first_applicable_cases type party (find_matching_allow_rules db host path)) [
        | inr (r, n, t, a) ↦ rw (n, evaluate_rules) (on_allow r t a)
        | inl (n, a) ↦
            elim (first_applicable_cases type party (find_matching_block_rules db host path)) [
              | inr (r, m, t, b) ↦
                  rw (n, evaluate_rules)
                    (rw (m, evaluate_rules)
                      (subst P (sym (blocked_by-applicable type party r start start_lem.1 t))
                        (on_block r t a b)))
              | inl (m, b) ↦ rw (n, evaluate_rules) (rw (m, evaluate_rules) (on_none a b))
            ]
      ]

  -- The decision of the rules.
  decision_lem : is_block (evaluate_rules db host path party type).decision ≡ (not allows && blocks)
  decision_lem =
      evaluate_rules_cases (λ e. is_block e.decision ≡ (not allows && blocks))
        (λ r t a. rw a (unfold allowed_by in refl)) (λ r t a b. rw (a, b))
        (λ a b. rw (a, b) (ap is_block start_lem.0))

  decision_of_rules :
      (rules : List ParsedRule)
      → Represents db rules
      → is_block (evaluate_rules db host path party type).decision ≡ (
          not (any (λ r. applies RuleParser.allow host path r && is_applicable type party r) rules)
          && any (λ r. applies RuleParser.block host path r && is_applicable type party r) rules)
  unfolding allows blocks
  decision_of_rules rules v =
      let (a, b) = find_matching-any db rules host path (is_applicable type party) v in
      decision_lem ∙ rw (a, b)

  -- What the result says of the rule agrees with the decision.
  abbrev IsExplained : PrivacyEvaluationResult → Type 0
  IsExplained e =
      (e.decision ≡ block)
      ↔ ((e.matched_rule.matched ≡ true) × (e.matched_rule.is_allow_rule ≡ false))

  explained_lem : IsExplained (evaluate_rules db host path party type)
  explained_lem =
      evaluate_rules_cases IsExplained (λ r t a. unfold allowed_by in (λ h. cc, λ h. cc (h.1)))
        (λ r t a b. unfold tracked_by in (λ h. (refl, refl), λ h. refl))
        (λ a b. (λ h. cc (start_lem.0), λ h. cc (start_lem.2, h.0)))

-- With a database that represents a list of accepted rules, a request is blocked exactly when its
-- host is not empty, no accepted allow rule applies to it and some accepted block rule does:
-- applies to the host and path, and to the type and the party.
pub evaluate_request-decision :
    (db : RuleDatabase) (rules : List ParsedRule) (target init : Bytes) (type : ResourceType)
    → Represents db rules
    → let host = extract_hostname target in
      let path = extract_path target in
      let party = classify target init in
      is_block (evaluate_request (some db) target init type).decision ≡ (
        not (is_empty host)
        && (not
              (any (λ r. applies RuleParser.allow host path r && is_applicable type party r) rules)
            && any (λ r. applies RuleParser.block host path r && is_applicable type party r) rules))
unfolding evaluate_request
evaluate_request-decision db rules target init type v =
    elim (Bool-cases (is_empty (extract_hostname target))) [
      | inl e ↦ rw e
      | inr e ↦ rw e (
          decision_of_rules db (extract_hostname target) (extract_path target)
            (classify target init) type rules v)
    ]

-- A result is a block exactly when it names a block rule as its match: no first-party request is let
-- through because its rule is one for trackers.
evaluate_request-blocks_on_match :
    (database : Option RuleDatabase) (target init : Bytes) (type : ResourceType)
    → let result = evaluate_request database target init type in
      (result.decision ≡ block)
      ↔ ((result.matched_rule.matched ≡ true) × (result.matched_rule.is_allow_rule ≡ false))
unfolding evaluate_request
evaluate_request-blocks_on_match none target init type = (λ h. cc, λ h. cc (h.0))
evaluate_request-blocks_on_match (some db) target init type =
    elim (Bool-cases (is_empty (extract_hostname target))) [
      | inl e ↦ rw e (λ h. cc, λ h. cc (h.0))
      | inr e ↦ rw e (
          explained_lem db (extract_hostname target) (extract_path target) (classify target init)
            type)
    ]
