-- ===== src/Throttle.antt =====
-- throttle/lean_privacy_url_loader_throttle.cc and lean_privacy_navigation_throttle.cc: where Chromium
-- asks the manager. `GURL` is Chromium's: a type with its constructor from a text and its `spec()`. The
-- origin of an initiator is given by the spec of its URL, and a null pointer is `none`.
pub mod Cancels
pub mod Chains
pub mod Followed
pub mod Reported
pub mod FilterLists
pub mod DomainRules
use thorium_frugal.Base.{◌==◌, ℕ, Bool, true, false, [], Option, none, some, Bytes, if◌then◌else◌}
use thorium_frugal.Types.{
  ResourceType, main_frame, sub_frame, script, image, stylesheet, font, xhr_fetch, ping_beacon,
  web_socket, media, other, is_block,
}
use thorium_frugal.PolicyManager.{
  is_privacy_protection_enabled, PrivacyPolicyManager, sanitize_url, evaluate_request,
}

-- The integers are those of the enum, none of which is negative.
unfoldable pub convert_resource_type : ℕ → ResourceType
convert_resource_type n =
    if n == 0
    then main_frame
    else if n == 1
    then sub_frame
    else if n == 2
    then stylesheet
    else if n == 3
    then script
    else if n == 4
    then image
    else if n == 5
    then font
    else if n == 6
    then sub_frame
    else if n == 7
    then other
    else if n == 8
    then media
    else if n == 9
    then web_socket
    else if n == 10
    then ping_beacon
    else if n == 11
    then xhr_fetch
    else other

-- Whether there is a throttle.
unfoldable pub maybe_create : PrivacyPolicyManager → Bool
maybe_create m = is_privacy_protection_enabled m

unfoldable pub maybe_create_throttle_for : PrivacyPolicyManager → Bool
maybe_create_throttle_for m = is_privacy_protection_enabled m

abbrev pub initiator_text : Option Bytes → Bytes
initiator_text none = []
initiator_text (some origin) = origin

module _ (GURL : Type 0) (gurl : Bytes → GURL) (spec : GURL → Bytes) where
  pub record ResourceRequest : Type 0 where
    pub url : GURL
    pub request_initiator : Option Bytes
    pub resource_type : ℕ

  pub record RedirectInfo : Type 0 where
    pub new_url : GURL
    pub new_initiator : Option Bytes

  -- The first step of both handlers: the URL without its tracking parameters.
  unfoldable pub sanitized : PrivacyPolicyManager → Bytes → GURL → GURL × PrivacyPolicyManager
  sanitized m now u =
      let (filter_res, m1) = sanitize_url m now (spec u) in
      (if filter_res.parameters_removed then gurl filter_res.cleaned_url else u, m1)

  -- The second: whether the delegate is told to cancel.
  unfoldable pub judged :
      PrivacyPolicyManager
      → Bytes
      → GURL
      → Option Bytes
      → ResourceType
      → Bool × PrivacyPolicyManager
  judged m now u initiator type =
      let (result, m1) = evaluate_request m now (spec u) (initiator_text initiator) type in
      (is_block result.decision, m1)

  unfoldable pub will_start_request :
      PrivacyPolicyManager
      → Bytes
      → Option ResourceRequest
      → Option ResourceRequest × Bool × PrivacyPolicyManager
  will_start_request m now none = (none, false, m)
  will_start_request m now (some r) =
      let (u, m1) = sanitized m now r.url in
      let (cancelled, m2) =
        judged m1 now u r.request_initiator (convert_resource_type r.resource_type) in
      (some (record r { url = u }), cancelled, m2)

  unfoldable pub will_redirect_request :
      PrivacyPolicyManager
      → Bytes
      → Option RedirectInfo
      → Option RedirectInfo × Bool × PrivacyPolicyManager
  will_redirect_request m now none = (none, false, m)
  will_redirect_request m now (some r) =
      let (u, m1) = sanitized m now r.new_url in
      let (cancelled, m2) = judged m1 now u r.new_initiator other in
      (some (record r { new_url = u }), cancelled, m2)

  pub record NavigationHandle : Type 0 where
    pub handle_url : GURL
    pub initiator_origin : Option Bytes
    pub is_in_main_frame : Bool

  -- Whether the answer is `CANCEL`.
  unfoldable pub check_privacy_policy :
      PrivacyPolicyManager → Bytes → Option NavigationHandle → Bool × PrivacyPolicyManager
  check_privacy_policy m now none = (false, m)
  check_privacy_policy m now (some h) =
      judged m now h.handle_url h.initiator_origin
        (if h.is_in_main_frame then main_frame else sub_frame)

  unfoldable pub will_start_navigation :
      PrivacyPolicyManager → Bytes → Option NavigationHandle → Bool × PrivacyPolicyManager
  will_start_navigation m now h = check_privacy_policy m now h

  unfoldable pub will_redirect_navigation :
      PrivacyPolicyManager → Bytes → Option NavigationHandle → Bool × PrivacyPolicyManager
  will_redirect_navigation m now h = check_privacy_policy m now h
