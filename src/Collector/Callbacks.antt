-- ===== src/Collector/Callbacks.antt =====
-- The callbacks that the browser makes on the collector, and what each of them should report.
use thorium_frugal.Base.{
  map-append, ◌≡◌, refl, ap, ◌∙◌, sym, Bool, true, false, List, [], ◌∷◌, ◌++◌, map, Option, none,
  some, Bytes, codes,
}
use thorium_frugal.Clock.{created_at_of}
use thorium_frugal.UrlSanitizer.{UrlExposurePolicy, UrlApi, sanitize}
use thorium_frugal.Envelope.{ℤ, pos, ValueApi}
use thorium_frugal.Envelope.Observation.{
  to_json, BrowserEventType, tab_created, tab_activated, tab_closed, navigation_started,
  navigation_committed, page_title_changed, ObservationEnvelope,
}
use thorium_frugal.Transport.{CognitiaTransport, send_all, send_all-append}
use thorium_frugal.Collector.{
  BrowserObservationCollector, ChangeType, inserted, removed, other_change, Stamp, emit_event,
  tab_change, on_tab_strip_model_changed, did_start_navigation, did_finish_navigation,
  title_was_set,
}

module _ {GURL : Type 0} (api : UrlApi GURL) (blank empty : GURL) {Value Dict : Type 0}
    (values : ValueApi Value Dict) where
  pub data Callback : Type 0 where
    tabs_changed : Stamp → Stamp → ChangeType → ℤ → ℤ → Bool → Callback
    navigation_starts : Stamp → Bool → GURL → Callback
    navigation_finishes : Stamp → Bool → Bool → GURL → Callback
    title_set : Stamp → Option (GURL × Bytes) → Callback

  -- The observation of a URL in the window 1, not incognito, with the URL as the policy shows it.
  abbrev seen :
      UrlExposurePolicy → Stamp → BrowserEventType → ℤ → Bool → GURL → Bytes → ObservationEnvelope
  seen policy (token, now) type tab active u title = record {
    id = token;
    created_at = created_at_of now;
    event_type = type;
    window_id = pos 1;
    tab_id = tab;
    is_active_tab = active;
    url = sanitize api u policy;
    origin = api.origin u;
    title = title;
    is_incognito = false;
  }

  -- What a callback should report: a tab that is inserted or removed, the tab that becomes active, a
  -- navigation in the primary main frame that starts or commits, and a title.
  abbrev pub observed : UrlExposurePolicy → Callback → List ObservationEnvelope
  observed policy (tabs_changed s1 s2 inserted old_tab new_tab false) =
      seen policy s1 tab_created new_tab true blank (codes "New Tab") ∷ []
  observed policy (tabs_changed s1 s2 inserted old_tab new_tab true) =
      seen policy s1 tab_created new_tab true blank (codes "New Tab")
      ∷ seen policy s2 tab_activated new_tab true empty []
      ∷ []
  observed policy (tabs_changed s1 s2 removed old_tab new_tab false) =
      seen policy s1 tab_closed old_tab false empty [] ∷ []
  observed policy (tabs_changed s1 s2 removed old_tab new_tab true) =
      seen policy s1 tab_closed old_tab false empty []
      ∷ seen policy s2 tab_activated new_tab true empty []
      ∷ []
  observed policy (tabs_changed s1 s2 other_change old_tab new_tab false) = []
  observed policy (tabs_changed s1 s2 other_change old_tab new_tab true) =
      seen policy s2 tab_activated new_tab true empty [] ∷ []
  observed policy (navigation_starts s true u) =
      seen policy s navigation_started (pos 0) true u [] ∷ []
  observed policy (navigation_starts s false u) = []
  observed policy (navigation_finishes s true true u) =
      seen policy s navigation_committed (pos 0) true u [] ∷ []
  observed policy (navigation_finishes s _ _ u) = []
  observed policy (title_set s none) = []
  observed policy (title_set s (some (u, title))) =
      seen policy s page_title_changed (pos 0) true u title ∷ []

  abbrev pub all_observed : UrlExposurePolicy → List Callback → List ObservationEnvelope
  all_observed policy [] = []
  all_observed policy (k ∷ ks) = observed policy k ++ all_observed policy ks

module _ {GURL : Type 0} (api : UrlApi GURL) (blank empty : GURL) {Value Dict : Type 0}
    (values : ValueApi Value Dict) {T : Type 0} (io : CognitiaTransport T) where
  unfoldable pub after_callback :
      BrowserObservationCollector T
      → Callback api blank empty values
      → BrowserObservationCollector T
  after_callback c (tabs_changed s1 s2 change old_tab new_tab active) =
      on_tab_strip_model_changed api blank empty values io c s1 s2 change old_tab new_tab active
  after_callback c (navigation_starts s primary u) =
      did_start_navigation api blank empty values io c s primary u
  after_callback c (navigation_finishes s primary committed u) =
      did_finish_navigation api blank empty values io c s primary committed u
  after_callback c (title_set s contents) = title_was_set api blank empty values io c s contents

  unfoldable pub after_callbacks :
      BrowserObservationCollector T
      → List (Callback api blank empty values)
      → BrowserObservationCollector T
  after_callbacks c [] = c
  after_callbacks c (k ∷ ks) = after_callbacks (after_callback c k) ks

  abbrev pub collecting : Bool → UrlExposurePolicy → T → BrowserObservationCollector T
  collecting enabled policy t = record {
    is_enabled = enabled;
    url_policy = policy;
    transport = some t;
  }

  -- One callback sends the JSON of what it should report.
  pub after_callback_lem :
      (policy : UrlExposurePolicy) (t : T) (k : Callback api blank empty values)
      → after_callback (collecting true policy t) k
        ≡ collecting true policy
            (send_all io t (map (to_json values) (observed api blank empty values policy k)))
  unfolding after_callback on_tab_strip_model_changed tab_change did_start_navigation
      did_finish_navigation title_was_set emit_event
  after_callback_lem policy t (tabs_changed s1 s2 inserted o n true) = refl
  after_callback_lem policy t (tabs_changed s1 s2 inserted o n false) = refl
  after_callback_lem policy t (tabs_changed s1 s2 removed o n true) = refl
  after_callback_lem policy t (tabs_changed s1 s2 removed o n false) = refl
  after_callback_lem policy t (tabs_changed s1 s2 other_change o n true) = refl
  after_callback_lem policy t (tabs_changed s1 s2 other_change o n false) = refl
  after_callback_lem policy t (navigation_starts s true u) = refl
  after_callback_lem policy t (navigation_starts s false u) = refl
  after_callback_lem policy t (navigation_finishes s true true u) = refl
  after_callback_lem policy t (navigation_finishes s true false u) = refl
  after_callback_lem policy t (navigation_finishes s false committed u) = refl
  after_callback_lem policy t (title_set s none) = refl
  after_callback_lem policy t (title_set s (some (u, title))) = refl

  -- And so do callbacks one after the other.
  pub all_observed_lem :
      (policy : UrlExposurePolicy) (t : T) (ks : List (Callback api blank empty values))
      → after_callbacks (collecting true policy t) ks
        ≡ collecting true policy
            (send_all io t (map (to_json values) (all_observed api blank empty values policy ks)))
  unfolding after_callbacks
  all_observed_lem policy t [] = refl
  all_observed_lem policy t (k ∷ ks) =
      let now = map (to_json values) (observed api blank empty values policy k) in
      let later = map (to_json values) (all_observed api blank empty values policy ks) in
      ap (λ (c : BrowserObservationCollector T). after_callbacks c ks)
        (after_callback_lem policy t k)
      ∙ all_observed_lem policy (send_all io t now) ks
      ∙ ap (collecting true policy) (sym (send_all-append io t now later))
      ∙ ap (λ ms. collecting true policy (send_all io t ms))
          (sym (map-append (to_json values) (observed api blank empty values policy k) _))

  pub callback-disabled :
      (policy : UrlExposurePolicy) (t : T) (k : Callback api blank empty values)
      → after_callback (collecting false policy t) k ≡ collecting false policy t
  unfolding after_callback on_tab_strip_model_changed did_start_navigation did_finish_navigation
      title_was_set
  callback-disabled policy t (tabs_changed s1 s2 change o n active) = refl
  callback-disabled policy t (navigation_starts s primary u) = refl
  callback-disabled policy t (navigation_finishes s primary committed u) = refl
  callback-disabled policy t (title_set s none) = refl
  callback-disabled policy t (title_set s (some (u, title))) = refl
