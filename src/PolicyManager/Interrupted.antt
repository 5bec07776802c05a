-- ===== src/PolicyManager/Interrupted.antt =====
-- The lookups of the policy of a page in `EvaluateRequest`, while other threads change the exceptions: the
-- host and the domain are looked up in two critical sections of `SiteExceptionsManager`.
use thorium_frugal.Base.{
  ◌≡◌, ◌≢◌, refl, ◌∙◌, inl, inr, ◌⊎◌, not, List, [], ◌∷◌, Bytes, All, arith, str_eq_iff,
}
use thorium_frugal.Text.{is_empty}
use thorium_frugal.Classifier.{extract_hostname, get_domain}
use thorium_frugal.SiteExceptions.{SitePolicyException}
use thorium_frugal.SiteExceptions.Laws.{get-set_site_exception}
use thorium_frugal.PolicyManager.{
  PrivacyPolicyManager, set_exception, get_exception, resolve_policy, page_policy,
}

-- Calls of `SetSiteException`, in order.
pub after_changes : PrivacyPolicyManager → List (Bytes × SitePolicyException) → PrivacyPolicyManager
after_changes m [] = m
after_changes m ((key, e) ∷ cs) = after_changes (set_exception m key e) cs

-- The policy that is found when these calls come between the two lookups.
unfoldable pub interrupted_policy :
    PrivacyPolicyManager → Bytes → List (Bytes × SitePolicyException) → SitePolicyException
unfolding after_changes
interrupted_policy m initiator between =
    let init_host = extract_hostname initiator in
    let init_domain = get_domain init_host in
    resolve_policy (get_exception m init_host) (not (is_empty init_domain))
      (get_exception (after_changes m between) init_domain)

-- A call for another key changes nothing for this one.
unchanged :
    (cs : List (Bytes × SitePolicyException)) (m : PrivacyPolicyManager) (key : Bytes)
    → All (λ (c : Bytes × SitePolicyException). c.0 ≢ key) cs
    → get_exception (after_changes m cs) key ≡ get_exception m key
unfolding after_changes set_exception get_exception
unchanged [] m key h = refl
unchanged ((k, e) ∷ cs) m key (other, h) =
    unchanged cs (set_exception m k e) key h
    ∙ get-set_site_exception m.site_exceptions k key e
    ∙ ground (arith, str_eq_iff k key, other)

-- When the calls between the two lookups spare the host of the page, or all spare its domain, the policy
-- found is that of the page at one moment, before the calls or after them.
pub interrupted_policy_lem :
    (m : PrivacyPolicyManager) (initiator : Bytes) (between : List (Bytes × SitePolicyException))
    → All (λ (c : Bytes × SitePolicyException). c.0 ≢ extract_hostname initiator) between
      ⊎ All
          (λ (c : Bytes × SitePolicyException). c.0 ≢ get_domain (extract_hostname initiator))
          between
    → (interrupted_policy m initiator between ≡ page_policy m initiator)
      ⊎ (interrupted_policy m initiator between ≡ page_policy (after_changes m between) initiator)
unfolding interrupted_policy page_policy
interrupted_policy_lem m initiator between (inl h) = inr (rw (unchanged between m _ h) refl)
interrupted_policy_lem m initiator between (inr h) = inl (rw (unchanged between m _ h) refl)
