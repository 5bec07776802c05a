-- ===== src/Collector.antt =====
-- cognitia_adapter/observation/browser_observation_collector.cc. Titles are given in UTF-8, and each
-- event takes a stamp: the token and the time of its envelope.
pub mod Callbacks
pub mod Observations
pub mod Delivery
pub mod Interleaved
use thorium_frugal.Base.{
  ℕ, Bool, true, false, not, ◌&&◌, ◌||◌, List, [], ◌∷◌, ◌++◌, Option, none, some, Bytes, codes,
  if◌then◌else◌,
}
use thorium_frugal.Clock.{Exploded}
use thorium_frugal.Envelope.{ℤ, pos, ValueApi}
use thorium_frugal.Envelope.Observation.{
  to_json, BrowserEventType, tab_created, tab_activated, tab_closed, navigation_started,
  navigation_committed, page_title_changed, ObservationEnvelope, new_observation,
}
use thorium_frugal.Transport.{CognitiaTransport}
use thorium_frugal.UrlSanitizer.{UrlExposurePolicy, full_url_sanitized, UrlApi, sanitize}

-- The collector, with a transport of any kind, or a null pointer.
pub record BrowserObservationCollector (T : Type 0) : Type 0 where
  pub is_enabled : Bool
  pub url_policy : UrlExposurePolicy
  pub transport : Option T

unfoldable pub new_collector : {T : Type 0} → Option T → BrowserObservationCollector T
new_collector transport = record {
  is_enabled = false;
  url_policy = full_url_sanitized;
  transport = transport;
}

unfoldable pub set_url_exposure_policy :
    {T : Type 0} → BrowserObservationCollector T → UrlExposurePolicy → BrowserObservationCollector T
set_url_exposure_policy c policy = record c { url_policy = policy }

unfoldable pub set_enabled :
    {T : Type 0} → BrowserObservationCollector T → Bool → BrowserObservationCollector T
set_enabled c enabled = record c { is_enabled = enabled }

pub data ChangeType : Type 0 where
  inserted removed other_change : ChangeType

abbrev pub Stamp : Type 0
Stamp = Bytes × Exploded

-- `GURL("about:blank")` and `GURL()` are given.
module _ {GURL : Type 0} (api : UrlApi GURL) (blank empty : GURL) {Value Dict : Type 0}
    (values : ValueApi Value Dict) {T : Type 0} (io : CognitiaTransport T) where
  abbrev pub envelope_of :
      UrlExposurePolicy
      → Stamp
      → BrowserEventType
      → ℤ
      → ℤ
      → Bool
      → GURL
      → Bytes
      → Bool
      → ObservationEnvelope
  envelope_of policy (token, now) type window tab active u title incognito =
      new_observation token now type window tab active (sanitize api u policy) (api.origin u) title
        incognito

  unfoldable pub emit_event :
      BrowserObservationCollector T
      → Stamp
      → BrowserEventType
      → ℤ
      → ℤ
      → Bool
      → GURL
      → Bytes
      → Bool
      → BrowserObservationCollector T
  emit_event c stamp type window tab active u title incognito =
      if not c.is_enabled then c else elim c.transport [
        | none ↦ c
        | some t ↦ record c {
          transport = some (
              io.send_observation t (
                to_json values
                  (envelope_of c.url_policy stamp type window tab active u title incognito)));
        }
      ]

  -- The branches on the type of the change. The tab indices are the active ones of the old and the new
  -- selection.
  unfoldable pub tab_change :
      BrowserObservationCollector T → Stamp → ChangeType → ℤ → ℤ → BrowserObservationCollector T
  tab_change c stamp inserted old_tab new_tab =
      emit_event c stamp tab_created (pos 1) new_tab true blank (codes "New Tab") false
  tab_change c stamp removed old_tab new_tab =
      emit_event c stamp tab_closed (pos 1) old_tab false empty [] false
  tab_change c stamp other_change old_tab new_tab = c

  unfoldable pub on_tab_strip_model_changed :
      BrowserObservationCollector T
      → Stamp
      → Stamp
      → ChangeType
      → ℤ
      → ℤ
      → Bool
      → BrowserObservationCollector T
  on_tab_strip_model_changed c stamp1 stamp2 change old_tab new_tab active_changed =
      let changed = tab_change c stamp1 change old_tab new_tab in
      if not c.is_enabled
      then c
      else if active_changed
      then emit_event changed stamp2 tab_activated (pos 1) new_tab true empty [] false
      else changed

  unfoldable pub did_start_navigation :
      BrowserObservationCollector T → Stamp → Bool → GURL → BrowserObservationCollector T
  did_start_navigation c stamp in_primary_main_frame u =
      if not c.is_enabled || not in_primary_main_frame
      then c
      else emit_event c stamp navigation_started (pos 1) (pos 0) true u [] false

  unfoldable pub did_finish_navigation :
      BrowserObservationCollector T → Stamp → Bool → Bool → GURL → BrowserObservationCollector T
  did_finish_navigation c stamp in_primary_main_frame has_committed u =
      if not c.is_enabled || (not in_primary_main_frame || not has_committed)
      then c
      else emit_event c stamp navigation_committed (pos 1) (pos 0) true u [] false

  -- The visible URL and the title of the web contents, or none.
  unfoldable pub title_was_set :
      BrowserObservationCollector T → Stamp → Option (GURL × Bytes) → BrowserObservationCollector T
  title_was_set c stamp none = c
  title_was_set c stamp (some (u, title)) =
      if not c.is_enabled
      then c
      else emit_event c stamp page_title_changed (pos 1) (pos 0) true u title false
