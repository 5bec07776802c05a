-- ===== src/Throttle/Reported.antt =====
-- What the listeners are told of the loads and navigations that are cancelled.
use thorium_frugal.Base.{ap, Bool, true, false, List, [], ◌∷◌, Option, Bytes, if◌then◌else◌, subst}
use thorium_frugal.Types.{ResourceType, other, main_frame, sub_frame}
use thorium_frugal.Events.{callable}
use thorium_frugal.PolicyManager.{PrivacyPolicyManager, is_privacy_protection_enabled}
use thorium_frugal.PolicyManager.Told.{
  listening, IsTold, quiet, after_quiet, sanitize_url-IsTold, evaluate_request-IsTold,
}
use thorium_frugal.Throttle.{
  convert_resource_type, initiator_text, ResourceRequest, RedirectInfo, NavigationHandle, sanitized,
  judged, maybe_create, maybe_create_throttle_for, will_start_request, will_redirect_request,
  check_privacy_policy, will_start_navigation, will_redirect_navigation,
}
use thorium_frugal.Throttle.Chains.{follow_redirects, load, follow_hops, navigate}

-- One report to each listener, in order, if the chain was cancelled, and else none.
abbrev pub IsReported : PrivacyPolicyManager → Bool × PrivacyPolicyManager → Type 0
IsReported m (through, n) = IsTold m n (if through then [] else listening m)

-- The listeners at a later state are the same.
from_later :
    (m n o : PrivacyPolicyManager) (cancelled : Bool)
    → IsTold m n []
    → IsTold n o (if cancelled then listening n else [])
    → IsTold m o (if cancelled then listening m else [])
from_later m n o cancelled (e, c) h =
    after_quiet m n o _ (e, c)
      (subst (λ k. IsTold n o (if cancelled then k else [])) (ap callable e) h)

-- A chain that is cancelled stops with its one report.
stops :
    (m n : PrivacyPolicyManager) (cancelled : Bool) (rest : Bool × PrivacyPolicyManager)
    → IsTold m n (if cancelled then listening m else [])
    → IsReported n rest
    → IsReported m (if◌then◌else◌ {A = Bool × PrivacyPolicyManager} cancelled (false, n) rest)
stops m n true rest h k = h
stops m n false (true, o) h k = from_later m n o false h k
stops m n false (false, o) h k = from_later m n o true h k

-- Without a throttle nothing happens.
asks :
    (m : PrivacyPolicyManager) (on : Bool) (asked : Bool × PrivacyPolicyManager)
    → IsReported m asked
    → IsReported m (if◌then◌else◌ {A = Bool × PrivacyPolicyManager} on asked (true, m))
asks m true asked h = h
asks m false asked h = quiet m

module _ (GURL : Type 0) (gurl : Bytes → GURL) (spec : GURL → Bytes) where
  judged-IsTold :
      (m : PrivacyPolicyManager) (now : Bytes) (u : GURL) (i : Option Bytes) (type : ResourceType)
      → IsTold m
          (judged GURL gurl spec m now u i type).1
          (if (judged GURL gurl spec m now u i type).0 then listening m else [])
  unfolding judged
  judged-IsTold m now u i type = evaluate_request-IsTold m now (spec u) (initiator_text i) type

  -- The two steps of a handler.
  handled :
      (m : PrivacyPolicyManager) (now : Bytes) (u : GURL) (i : Option Bytes) (type : ResourceType)
      → let (v, n) = sanitized GURL gurl spec m now u in
        IsTold m
          (judged GURL gurl spec n now v i type).1
          (if (judged GURL gurl spec n now v i type).0 then listening m else [])
  unfolding sanitized
  handled m now u i type =
      let (v, n) = sanitized GURL gurl spec m now u in
      from_later m n (judged GURL gurl spec n now v i type).1 _ (sanitize_url-IsTold m now (spec u))
        (judged-IsTold n now v i type)

  follow_redirects-IsReported :
      (ds : List (Bytes × RedirectInfo GURL gurl spec)) (m : PrivacyPolicyManager)
      → IsReported m (follow_redirects GURL gurl spec m ds)
  unfolding follow_redirects will_redirect_request
  follow_redirects-IsReported [] m = quiet m
  follow_redirects-IsReported ((now, d) ∷ ds) m =
      stops m _ _ _ (handled m now d.new_url d.new_initiator other)
        (follow_redirects-IsReported ds _)

  follow_hops-IsReported :
      (hs : List (Bytes × NavigationHandle GURL gurl spec)) (m : PrivacyPolicyManager)
      → IsReported m (follow_hops GURL gurl spec m hs)
  unfolding follow_hops will_redirect_navigation check_privacy_policy
  follow_hops-IsReported [] m = quiet m
  follow_hops-IsReported ((now, k) ∷ hs) m =
      stops m _ _ _
        (judged-IsTold m now k.handle_url k.initiator_origin
          (if k.is_in_main_frame then main_frame else sub_frame))
        (follow_hops-IsReported hs _)

  -- A load that is cancelled, at its start or at one of its redirects, adds deliveries of an event
  -- `privacy.request_blocked` to the listeners that can be called, to each one as often as it is
  -- registered and in the order of registration, and no others of that type; a load that comes through
  -- adds none of that type. Whatever else is reported, the listeners stay. The same holds for a
  -- navigation.
  pub load-navigate-IsReported :
      (m : PrivacyPolicyManager) (now : Bytes) (r : ResourceRequest GURL gurl spec)
      (ds : List (Bytes × RedirectInfo GURL gurl spec)) (h : NavigationHandle GURL gurl spec)
      (hs : List (Bytes × NavigationHandle GURL gurl spec))
      → IsReported m (load GURL gurl spec m now r ds)
        × IsReported m (navigate GURL gurl spec m now h hs)
  unfolding load navigate will_start_request will_start_navigation check_privacy_policy maybe_create
      maybe_create_throttle_for is_privacy_protection_enabled
  load-navigate-IsReported m now r ds h hs = (
    asks m m.enabled _ (
        stops m _ _ _
          (handled m now r.url r.request_initiator (convert_resource_type r.resource_type))
          (follow_redirects-IsReported ds _)),
    asks m m.enabled _ (
        stops m _ _ _
          (judged-IsTold m now h.handle_url h.initiator_origin
            (if h.is_in_main_frame then main_frame else sub_frame))
          (follow_hops-IsReported hs _)),
  )
