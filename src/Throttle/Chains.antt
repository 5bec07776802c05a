-- ===== src/Throttle/Chains.antt =====
-- Loads and navigations with their redirects, as Chromium runs them: a throttle is asked at the start and
-- at each redirect, until it cancels; where there was none at the start, nothing is asked.
use thorium_frugal.Base.{Bool, true, false, List, [], ◌∷◌, some, Bytes, if◌then◌else◌}
use thorium_frugal.PolicyManager.{PrivacyPolicyManager}
use thorium_frugal.Throttle.{
  ResourceRequest, RedirectInfo, NavigationHandle, maybe_create, maybe_create_throttle_for,
  will_start_request, will_redirect_request, will_start_navigation, will_redirect_navigation,
}

module _ (GURL : Type 0) (gurl : Bytes → GURL) (spec : GURL → Bytes) where
  -- Whether all redirects are followed; each has the time at which it comes.
  unfoldable pub follow_redirects :
      PrivacyPolicyManager
      → List (Bytes × RedirectInfo GURL gurl spec)
      → Bool × PrivacyPolicyManager
  follow_redirects m [] = (true, m)
  follow_redirects m ((now, d) ∷ rest) =
      let (_, cancelled, m1) = will_redirect_request GURL gurl spec m now (some d) in
      let followed = follow_redirects m1 rest in if cancelled then (false, m1) else followed

  unfoldable pub load :
      PrivacyPolicyManager
      → Bytes
      → ResourceRequest GURL gurl spec
      → List (Bytes × RedirectInfo GURL gurl spec)
      → Bool × PrivacyPolicyManager
  load m now r rest =
      let (_, cancelled, m1) = will_start_request GURL gurl spec m now (some r) in
      if maybe_create m
      then (if cancelled then (false, m1) else follow_redirects m1 rest)
      else (true, m)

  -- The same for a navigation, whose handle has the URL of the hop.
  unfoldable pub follow_hops :
      PrivacyPolicyManager
      → List (Bytes × NavigationHandle GURL gurl spec)
      → Bool × PrivacyPolicyManager
  follow_hops m [] = (true, m)
  follow_hops m ((now, h) ∷ rest) =
      let (cancelled, m1) = will_redirect_navigation GURL gurl spec m now (some h) in
      let followed = follow_hops m1 rest in if cancelled then (false, m1) else followed

  unfoldable pub navigate :
      PrivacyPolicyManager
      → Bytes
      → NavigationHandle GURL gurl spec
      → List (Bytes × NavigationHandle GURL gurl spec)
      → Bool × PrivacyPolicyManager
  navigate m now h rest =
      let (cancelled, m1) = will_start_navigation GURL gurl spec m now (some h) in
      if maybe_create_throttle_for m
      then (if cancelled then (false, m1) else follow_hops m1 rest)
      else (true, m)
