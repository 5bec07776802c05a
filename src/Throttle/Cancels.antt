-- ===== src/Throttle/Cancels.antt =====
-- Which requests, redirects and navigations are cancelled.
use thorium_frugal.Base.{
  ◌≡◌, refl, ap, ◌∙◌, sym, subst, Bool, true, false, not, ◌&&◌, List, Option, some, Bytes, any,
  if◌then◌else◌,
}
use thorium_frugal.Text.{is_empty}
use thorium_frugal.Types.{ResourceType, other, main_frame, sub_frame}
use thorium_frugal.Classifier.{extract_hostname, classify}
use thorium_frugal.RuleParser
use thorium_frugal.RuleParser.{ParsedRule}
use thorium_frugal.RuleDatabase.{RuleDatabase}
use thorium_frugal.RuleDatabase.Index.{Represents}
use thorium_frugal.RuleDatabase.Lookup.{applies}
use thorium_frugal.TrackerBlocker.{extract_path, is_applicable}
use thorium_frugal.PolicyManager.{
  PrivacyPolicyManager, is_allow_all, page_policy, get_exception, raise, generate_event_id,
}
use thorium_frugal.PolicyManager.Evaluation.{next_of, next_lem}
use thorium_frugal.PolicyManager.Requests.{evaluate_request-blocks}
use thorium_frugal.PolicyManager.Steps.{clean_lem}
use thorium_frugal.Events.{PrivacyEvent}
use thorium_frugal.SiteExceptions.{SitePolicyException}
use thorium_frugal.Throttle.{
  convert_resource_type, initiator_text, ResourceRequest, RedirectInfo, NavigationHandle, sanitized,
  judged, will_start_request, will_redirect_request, check_privacy_policy,
}

-- The decision about a target, from the switch, the policy of the page and the accepted rules.
abbrev pub refuses :
    Bool → SitePolicyException → List ParsedRule → Bytes → Bytes → ResourceType → Bool
refuses on policy rules target init type =
    let host = extract_hostname target in
    let path = extract_path target in
    let party = classify target init in
    on
    && (not (is_allow_all policy)
        && (not (is_empty host)
            && (not (
                  any (λ r. applies RuleParser.allow host path r && is_applicable type party r)
                    rules)
                && any (λ r. applies RuleParser.block host path r && is_applicable type party r)
                    rules)))

abbrev pub is_refused : PrivacyPolicyManager → List ParsedRule → Bytes → Bytes → ResourceType → Bool
is_refused m rules target init type = refuses m.enabled (page_policy m init) rules target init type

-- What the handlers do not touch.
abbrev pub SamePolicy : PrivacyPolicyManager → PrivacyPolicyManager → Type 0
SamePolicy m n =
    (n.enabled ≡ m.enabled)
    × (n.database ≡ m.database)
    × (n.parameters ≡ m.parameters)
    × ((init : Bytes) → page_policy n init ≡ page_policy m init)

next_of-SamePolicy :
    (m : PrivacyPolicyManager) (on excepted blocked known : Bool) (e1 e2 e3 : Bytes → PrivacyEvent)
    → SamePolicy m (next_of m on excepted blocked known e1 e2 e3)
unfolding next_of raise generate_event_id page_policy get_exception
next_of-SamePolicy m false x b k e1 e2 e3 = (refl, refl, refl, λ init. refl)
next_of-SamePolicy m true true b k e1 e2 e3 = (refl, refl, refl, λ init. refl)
next_of-SamePolicy m true false true k e1 e2 e3 = (refl, refl, refl, λ init. refl)
next_of-SamePolicy m true false false true e1 e2 e3 = (refl, refl, refl, λ init. refl)
next_of-SamePolicy m true false false false e1 e2 e3 = (refl, refl, refl, λ init. refl)

module _ (GURL : Type 0) (gurl : Bytes → GURL) (spec : GURL → Bytes) (m : PrivacyPolicyManager)
    (now : Bytes) where
  pub sanitized-SamePolicy : (u : GURL) → SamePolicy m (sanitized GURL gurl spec m now u).1
  unfolding sanitized
  sanitized-SamePolicy u =
      subst (SamePolicy m) (sym (clean_lem m now (spec u))) (next_of-SamePolicy m _ _ _ _ _ _ _)

  pub judged-SamePolicy :
      (u : GURL) (i : Option Bytes) (type : ResourceType)
      → SamePolicy m (judged GURL gurl spec m now u i type).1
  unfolding judged
  judged-SamePolicy u i type =
      subst (SamePolicy m) (sym (next_lem m now (spec u) (initiator_text i) type))
        (next_of-SamePolicy m _ _ _ _ _ _ _)

module _ (GURL : Type 0) (gurl : Bytes → GURL) (spec : GURL → Bytes) (m : PrivacyPolicyManager)
    (now : Bytes) (db : RuleDatabase) (rules : List ParsedRule) (hd : m.database ≡ some db)
    (hr : Represents db rules) where
  pub judged-refused :
      (n : PrivacyPolicyManager) (u : GURL) (i : Option Bytes) (type : ResourceType)
      → SamePolicy m n
      → (judged GURL gurl spec n now u i type).0
        ≡ is_refused m rules (spec u) (initiator_text i) type
  unfolding judged
  judged-refused n u i type (e, d, _, p) =
      evaluate_request-blocks n now (spec u) (initiator_text i) type db rules (d ∙ hd) hr
      ∙ ap
          (λ (b : Bool).
            refuses b (page_policy n (initiator_text i)) rules (spec u) (initiator_text i) type)
          e
      ∙ ap (λ (x : SitePolicyException). refuses m.enabled x rules (spec u) (initiator_text i) type)
          (p (initiator_text i))

  -- Where the database of the manager represents a list of accepted rules: a request is cancelled
  -- exactly when the policies and these rules refuse its URL as it is after the cleaning, for its
  -- initiator and resource type, and the request goes on with that URL. A redirect likewise, as a
  -- request of the type `kOther`. A navigation is cancelled exactly when they refuse its URL as
  -- it is, as a main frame or a subframe.
  pub throttle-cancels :
      (r : ResourceRequest GURL gurl spec) (d : RedirectInfo GURL gurl spec)
      (h : NavigationHandle GURL gurl spec)
      → let (next, cancelled, _) = will_start_request GURL gurl spec m now (some r) in
        let (redirected, stopped, _) = will_redirect_request GURL gurl spec m now (some d) in
        let u = (sanitized GURL gurl spec m now r.url).0 in
        let v = (sanitized GURL gurl spec m now d.new_url).0 in
        (next ≡ some (record r { url = u }))
        × (cancelled
            ≡ is_refused m rules
                (spec u)
                (initiator_text r.request_initiator)
                (convert_resource_type r.resource_type))
        × (redirected ≡ some (record d { new_url = v }))
        × (stopped ≡ is_refused m rules (spec v) (initiator_text d.new_initiator) other)
        × ((check_privacy_policy GURL gurl spec m now (some h)).0
            ≡ is_refused m rules
                (spec h.handle_url)
                (initiator_text h.initiator_origin)
                (if h.is_in_main_frame then main_frame else sub_frame))
  unfolding will_start_request will_redirect_request check_privacy_policy
  throttle-cancels r d h = (
    refl,
    judged-refused _ _ r.request_initiator _ (sanitized-SamePolicy GURL gurl spec m now r.url),
    refl,
    judged-refused _ _ d.new_initiator _ (sanitized-SamePolicy GURL gurl spec m now d.new_url),
    judged-refused m h.handle_url h.initiator_origin _ (refl, refl, refl, λ i. refl),
  )
