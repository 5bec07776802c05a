-- ===== src/Throttle/Followed.antt =====
-- Which loads and navigations come through with all their redirects.
use thorium_frugal.Base.{
  ◌≡◌, refl, ap, ◌∙◌, sym, Bool, true, false, not, ◌||◌, List, [], ◌∷◌, Option, some, Bytes, any,
  any-false, if◌then◌else◌,
}
use thorium_frugal.Types.{ResourceType, other, main_frame, sub_frame}
use thorium_frugal.ParameterFilter.{FilterResult, unchanged, strip_tracking_parameters}
use thorium_frugal.RuleParser.{ParsedRule}
use thorium_frugal.RuleDatabase.{RuleDatabase}
use thorium_frugal.RuleDatabase.Index.{Represents}
use thorium_frugal.PolicyManager.{PrivacyPolicyManager, sanitize_url, is_privacy_protection_enabled}
use thorium_frugal.Throttle.{
  convert_resource_type, initiator_text, ResourceRequest, RedirectInfo, NavigationHandle, sanitized,
  judged, maybe_create, maybe_create_throttle_for, will_start_request, will_redirect_request,
  check_privacy_policy, will_start_navigation, will_redirect_navigation,
}
use thorium_frugal.Throttle.Cancels.{
  is_refused, SamePolicy, sanitized-SamePolicy, judged-SamePolicy, judged-refused,
}
use thorium_frugal.Throttle.Chains.{follow_redirects, load, follow_hops, navigate}

then_same : (m n o : PrivacyPolicyManager) → SamePolicy m n → SamePolicy n o → SamePolicy m o
then_same m n o (e, d, p, s) (e', d', p', s') = (e' ∙ e, d' ∙ d, p' ∙ p, λ init. s' init ∙ s init)

first_of_if {ℓ κ} :
    {A : Type ℓ} {B : Type κ} (b : Bool) (x y : A) (u v : B)
    → ◌≡◌ {A = A} (if◌then◌else◌ {A = A × B} b (x, u) (y, v)).0 (if b then x else y)
first_of_if true x y u v = refl
first_of_if false x y u v = refl

-- A chain stops where it is cancelled.
stops :
    (cancelled : Bool) (m : PrivacyPolicyManager) (rest : Bool × PrivacyPolicyManager)
    (refused after : Bool)
    → cancelled ≡ refused
    → rest.0 ≡ not after
    → (if◌then◌else◌ {A = Bool × PrivacyPolicyManager} cancelled (false, m) rest).0
      ≡ not (refused || after)
stops true m rest refused after c r = rw (← c) refl
stops false m rest refused after c r = rw (← c) r

-- Without a throttle nothing is asked, and then nothing is refused either.
asks :
    (on : Bool) (m : PrivacyPolicyManager) (asked : Bool × PrivacyPolicyManager) {refused : Bool}
    → (on ≡ true → asked.0 ≡ not refused)
    → (on ≡ false → refused ≡ false)
    → (if◌then◌else◌ {A = Bool × PrivacyPolicyManager} on asked (true, m)).0 ≡ not refused
asks true m asked h k = h refl
asks false m asked h k = rw (k refl) refl

module _ (GURL : Type 0) (gurl : Bytes → GURL) (spec : GURL → Bytes) where
  sanitized-same :
      (m n : PrivacyPolicyManager) (now : Bytes) (u : GURL)
      → SamePolicy m n
      → (sanitized GURL gurl spec n now u).0 ≡ (sanitized GURL gurl spec m now u).0
  unfolding sanitized sanitize_url
  sanitized-same m n now u (e, d, p, s) =
      ap (λ (f : FilterResult). if f.parameters_removed then gurl f.cleaned_url else u)
        (first_of_if (not n.enabled) _ _ _ _
          ∙ ap
              (λ (v : Bool × List Bytes).
                if not v.0 then unchanged (spec u) else strip_tracking_parameters v.1 (spec u))
              (pair e p)
          ∙ sym (first_of_if (not m.enabled) _ _ _ _))
    where
      pair :
          {a b : Bool} {x y : List Bytes}
          → a ≡ b
          → x ≡ y
          → ◌≡◌ {A = Bool × List Bytes} (a, x) (b, y)
      pair f g = rw (f, g) refl

  module _ (m : PrivacyPolicyManager) (rules : List ParsedRule) where
    -- The rules refuse a URL as it is after the cleaning.
    abbrev pub refused_load : Bytes → GURL → Option Bytes → ResourceType → Bool
    refused_load now u i type =
        is_refused m rules (spec (sanitized GURL gurl spec m now u).0) (initiator_text i) type

    abbrev pub refused_hop : NavigationHandle GURL gurl spec → Bool
    refused_hop h =
        is_refused m rules (spec h.handle_url) (initiator_text h.initiator_origin)
          (if h.is_in_main_frame then main_frame else sub_frame)

  module _ (m : PrivacyPolicyManager) (db : RuleDatabase) (rules : List ParsedRule)
      (hd : m.database ≡ some db) (hr : Represents db rules) where
    -- The two steps of a handler, in a state with the policies of `m`.
    handled :
        (n : PrivacyPolicyManager) (now : Bytes) (u : GURL) (i : Option Bytes) (type : ResourceType)
        → SamePolicy m n
        → let (v, n1) = sanitized GURL gurl spec n now u in
          ((judged GURL gurl spec n1 now v i type).0 ≡ refused_load m rules now u i type)
          × SamePolicy m (judged GURL gurl spec n1 now v i type).1
    handled n now u i type h =
        let (v, n1) = sanitized GURL gurl spec n now u in
        let h1 = then_same m n n1 h (sanitized-SamePolicy GURL gurl spec n now u) in
        (
          judged-refused GURL gurl spec m now db rules hd hr n1 v i type h1
              ∙ ap (λ (w : GURL). is_refused m rules (spec w) (initiator_text i) type)
                  (sanitized-same m n now u h),
          then_same m n1 _ h1 (judged-SamePolicy GURL gurl spec n1 now v i type),
        )

    follow_redirects_lem :
        (ds : List (Bytes × RedirectInfo GURL gurl spec)) (n : PrivacyPolicyManager)
        → SamePolicy m n
        → (follow_redirects GURL gurl spec n ds).0
          ≡ not (any (λ d. refused_load m rules d.0 d.1.new_url d.1.new_initiator other) ds)
    unfolding follow_redirects will_redirect_request any
    follow_redirects_lem [] n h = refl
    follow_redirects_lem ((now, d) ∷ ds) n h =
        let (c, h1) = handled n now d.new_url d.new_initiator other h in
        stops _ _ _ _ _ c (follow_redirects_lem ds _ h1)

    follow_hops_lem :
        (hs : List (Bytes × NavigationHandle GURL gurl spec)) (n : PrivacyPolicyManager)
        → SamePolicy m n
        → (follow_hops GURL gurl spec n hs).0 ≡ not (any (λ h. refused_hop m rules h.1) hs)
    unfolding follow_hops will_redirect_navigation check_privacy_policy any
    follow_hops_lem [] n h = refl
    follow_hops_lem ((now, k) ∷ hs) n h =
        let type = if k.is_in_main_frame then main_frame else sub_frame in
        let asked = judged GURL gurl spec n now k.handle_url k.initiator_origin type in
        let h1 = judged-SamePolicy GURL gurl spec n now k.handle_url k.initiator_origin type in
        stops _ _ _ _ _
          (judged-refused GURL gurl spec m now db rules hd hr n k.handle_url k.initiator_origin type
            h)
          (follow_hops_lem hs asked.1 (then_same m n asked.1 h h1))

    -- Where the database represents a list of accepted rules. A load comes through with all its
    -- redirects exactly when the policies and the rules, as they are at its start, refuse none of its
    -- URLs after their cleaning; and a navigation exactly when they refuse none of its URLs as they
    -- are. (They refuse nothing while protection is off.)
    pub chains_lem :
        (now : Bytes) (r : ResourceRequest GURL gurl spec)
        (ds : List (Bytes × RedirectInfo GURL gurl spec)) (h : NavigationHandle GURL gurl spec)
        (hs : List (Bytes × NavigationHandle GURL gurl spec))
        → ((load GURL gurl spec m now r ds).0
            ≡ not (
                refused_load m rules now r.url r.request_initiator
                  (convert_resource_type r.resource_type)
                || any (λ d. refused_load m rules d.0 d.1.new_url d.1.new_initiator other) ds))
          × ((navigate GURL gurl spec m now h hs).0
              ≡ not (refused_hop m rules h || any (λ k. refused_hop m rules k.1) hs))
    unfolding load navigate will_start_request will_start_navigation check_privacy_policy
        maybe_create maybe_create_throttle_for is_privacy_protection_enabled
    chains_lem now r ds h hs = (
      asks m.enabled m _
          (λ on.
            let (c, h1) =
              handled m now r.url r.request_initiator (convert_resource_type r.resource_type)
                same in
            stops _ _ _ _ _ c (follow_redirects_lem ds _ h1))
          (λ off. rw off (any-false ds)),
      asks m.enabled m _
          (λ on.
            let type = if h.is_in_main_frame then main_frame else sub_frame in
            let h1 = judged-SamePolicy GURL gurl spec m now h.handle_url h.initiator_origin type in
            stops _ _ _ _ _
              (judged-refused GURL gurl spec m now db rules hd hr m h.handle_url h.initiator_origin
                type same)
              (follow_hops_lem hs _ h1))
          (λ off. rw off (any-false hs)),
    )
      where
        same : SamePolicy m m
        same = (refl, refl, refl, λ i. refl)
