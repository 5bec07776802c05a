-- ===== src/PolicyManager/Requests.antt =====
-- What the manager decides about a request.
use thorium_frugal.Base.{
  ◌≡◌, ◌≢◌, refl, ap, ◌∙◌, sym, inl, inr, Bool, false, not, ◌&&◌, List, Option, some, Bytes,
  Bool-cases, any, str_eq, str_eq_refl, if_true, if_false,
}
use thorium_frugal.Text.{is_empty}
use thorium_frugal.Types.{PrivacyEvaluationResult, ResourceType, is_block}
use thorium_frugal.Classifier.{extract_hostname, get_domain, classify}
use thorium_frugal.RuleParser
use thorium_frugal.RuleParser.{ParsedRule}
use thorium_frugal.RuleDatabase.{RuleDatabase}
use thorium_frugal.RuleDatabase.Index.{Represents}
use thorium_frugal.RuleDatabase.Lookup.{applies}
use thorium_frugal.TrackerBlocker
use thorium_frugal.TrackerBlocker.{extract_path, is_applicable}
use thorium_frugal.TrackerBlocker.Decision.{evaluate_request-decision}
use thorium_frugal.SiteExceptions.{SitePolicyException, default, allow_all, block_all}
use thorium_frugal.SiteExceptions.Laws.{get-set_site_exception}
use thorium_frugal.PolicyManager.{
  resolve_policy, PrivacyPolicyManager, set_exception, get_exception, page_policy, is_allow_all,
  evaluate_request,
}
use thorium_frugal.PolicyManager.Evaluation.{result_of, result_lem, result_of-blocks}

-- A manager whose database represents a list of accepted rules blocks a request exactly when
-- protection is on, the page has no `kAllowAll` policy, the host of the request is not empty, no
-- accepted allow rule applies, and some accepted block rule does.
pub evaluate_request-blocks :
    (m : PrivacyPolicyManager) (now target init : Bytes) (type : ResourceType) (db : RuleDatabase)
    (rules : List ParsedRule)
    → m.database ≡ some db
    → Represents db rules
    → let host = extract_hostname target in
      let path = extract_path target in
      let party = classify target init in
      is_block (evaluate_request m now target init type).0.decision ≡ (
        m.enabled
        && (not (is_allow_all (page_policy m init))
            && (not (is_empty host)
                && (not (
                      any
                        (λ r. applies RuleParser.allow host path r && is_applicable type party r)
                        rules)
                    && any
                        (λ r. applies RuleParser.block host path r && is_applicable type party r)
                        rules))))
evaluate_request-blocks m now target init type db rules e v =
    ap (λ (r : PrivacyEvaluationResult). is_block r.decision) (result_lem m now target init type)
    ∙ result_of-blocks m.enabled (is_allow_all (page_policy m init)) _ _
    ∙ ap (λ (b : Bool). m.enabled && (not (is_allow_all (page_policy m init)) && b))
        (ap
            (λ (d : Option RuleDatabase).
              is_block (TrackerBlocker.evaluate_request d target init type).decision)
            e
          ∙ evaluate_request-decision db rules target init type v)

-- The policy `kBlockAll` is not consulted: on equal switches and databases, a page with it and a page
-- with the default policy get the same result for every request.
block_all-as_default :
    (m n : PrivacyPolicyManager) (now target init : Bytes) (type : ResourceType)
    → page_policy m init ≡ block_all
    → page_policy n init ≡ default
    → m.enabled ≡ n.enabled
    → m.database ≡ n.database
    → (evaluate_request m now target init type).0 ≡ (evaluate_request n now target init type).0
block_all-as_default m n now target init type p q e d =
    result_lem m now target init type
    ∙ ap
        (λ (x : SitePolicyException).
          result_of m.enabled (is_allow_all x) (classify target init)
            (TrackerBlocker.evaluate_request m.database target init type))
        p
    ∙ rw (e, d)
        (ap
          (λ (x : SitePolicyException).
            result_of n.enabled (is_allow_all x) (classify target init)
              (TrackerBlocker.evaluate_request n.database target init type))
          (sym q))
    ∙ sym (result_lem n now target init type)

kept :
    (e p : SitePolicyException) (b : Bool) (q : SitePolicyException)
    → e ≢ default
    → p ≡ e
    → resolve_policy p b q ≡ e
unfolding resolve_policy
kept default p b q n h = absurd (n refl)
kept allow_all p b q n h = rw h
kept block_all p b q n h = rw h

passed_on :
    (p : SitePolicyException) (b : Bool) (q : SitePolicyException)
    → p ≡ default
    → b ≡ false
    → resolve_policy p (not b) q ≡ q
unfolding resolve_policy
passed_on p b q h e = rw (h, e)

-- For a page whose domain is not empty: a policy set for its host is its policy, unless it is the
-- default; one that is set for its domain is its policy where the host has the default.
page_policy-set_exception :
    (m : PrivacyPolicyManager) (init : Bytes) (e : SitePolicyException)
    → e ≢ default
    → is_empty (get_domain (extract_hostname init)) ≡ false
    → (page_policy (set_exception m (extract_hostname init) e) init ≡ e)
      × (get_exception m (extract_hostname init) ≡ default
          → page_policy (set_exception m (get_domain (extract_hostname init)) e) init ≡ e)
unfolding page_policy set_exception get_exception resolve_policy
page_policy-set_exception m init e h d =
    let host = extract_hostname init in
    let domain = get_domain host in
    let write = get-set_site_exception m.site_exceptions in
    (
      kept e _ _ _ h (write host host e ∙ if_true _ _ _ (str_eq_refl host)),
      λ n. elim (Bool-cases (str_eq domain host)) [
        | inl same ↦ kept e _ _ _ h (write domain host e ∙ if_true _ _ _ same)
        | inr differ ↦
            passed_on _ _ _ (write domain host e ∙ if_false _ _ _ differ ∙ n) d
            ∙ write domain domain e
            ∙ if_true _ _ _ (str_eq_refl domain)
      ],
    )
