-- ===== src/Collector/Observations.antt =====
-- What the collector sends over any sequence of callbacks.
use thorium_frugal.Base.{
  map-append, subst, ◌*◌, ◌≤◌, ◌≡◌, refl, ap, ◌∙◌, sym, true, false, List, [], ◌∷◌, map, none, some,
  arith, Bytes, All, All-append, length, length-append,
}
use thorium_frugal.UrlSanitizer.{UrlExposurePolicy, UrlApi, sanitize}
use thorium_frugal.Envelope.{pos, ValueApi}
use thorium_frugal.Envelope.Observation.{to_json, ObservationEnvelope}
use thorium_frugal.Transport.{CognitiaTransport, send_all}
use thorium_frugal.Collector.{BrowserObservationCollector, inserted, removed, other_change}
use thorium_frugal.Collector.Callbacks.{
  Callback, tabs_changed, navigation_starts, navigation_finishes, title_set, observed,
  after_callbacks, collecting, all_observed, all_observed_lem, callback-disabled,
}

module _ {GURL : Type 0} (api : UrlApi GURL) (blank empty : GURL) {Value Dict : Type 0}
    (values : ValueApi Value Dict) where
  -- A message is the JSON of an envelope for some URL: it shows the URL as the policy has it sanitised,
  -- and the origin of the URL, whatever the policy; the window is 1, and not incognito.
  abbrev pub IsObservation : UrlExposurePolicy → Bytes → Type 0
  IsObservation policy message =
      (e : ObservationEnvelope) × (u : GURL) × (message ≡ to_json values e)
      × (e.url ≡ sanitize api u policy)
      × (e.origin ≡ api.origin u)
      × (e.window_id ≡ pos 1)
      × (e.is_incognito ≡ false)

  -- A callback makes at most two observations.
  pub observed_lem :
      (policy : UrlExposurePolicy) (k : Callback api blank empty values)
      → (length (map (to_json values) (observed api blank empty values policy k)) ≤ 2)
        × All
            (IsObservation policy)
            (map (to_json values) (observed api blank empty values policy k))
  observed_lem policy (tabs_changed s1 s2 inserted o n true) = (
    omega arith,
    ((_, _, refl, refl, refl, refl, refl), ((_, _, refl, refl, refl, refl, refl), tt)),
  )
  observed_lem policy (tabs_changed s1 s2 inserted o n false) =
      (omega arith, ((_, _, refl, refl, refl, refl, refl), tt))
  observed_lem policy (tabs_changed s1 s2 removed o n true) = (
    omega arith,
    ((_, _, refl, refl, refl, refl, refl), ((_, _, refl, refl, refl, refl, refl), tt)),
  )
  observed_lem policy (tabs_changed s1 s2 removed o n false) =
      (omega arith, ((_, _, refl, refl, refl, refl, refl), tt))
  observed_lem policy (tabs_changed s1 s2 other_change o n true) =
      (omega arith, ((_, _, refl, refl, refl, refl, refl), tt))
  observed_lem policy (tabs_changed s1 s2 other_change o n false) = (omega arith, tt)
  observed_lem policy (navigation_starts s true u) =
      (omega arith, ((_, _, refl, refl, refl, refl, refl), tt))
  observed_lem policy (navigation_starts s false u) = (omega arith, tt)
  observed_lem policy (navigation_finishes s true true u) =
      (omega arith, ((_, _, refl, refl, refl, refl, refl), tt))
  observed_lem policy (navigation_finishes s true false u) = (omega arith, tt)
  observed_lem policy (navigation_finishes s false committed u) = (omega arith, tt)
  observed_lem policy (title_set s none) = (omega arith, tt)
  observed_lem policy (title_set s (some (u, title))) =
      (omega arith, ((_, _, refl, refl, refl, refl, refl), tt))

  -- And callbacks at most two each.
  pub all_observed-IsObservation :
      (policy : UrlExposurePolicy) (ks : List (Callback api blank empty values))
      → (length (map (to_json values) (all_observed api blank empty values policy ks))
          ≤ 2 * length ks)
        × All
            (IsObservation policy)
            (map (to_json values) (all_observed api blank empty values policy ks))
  all_observed-IsObservation policy [] = (omega arith, tt)
  all_observed-IsObservation policy (k ∷ ks) =
      let now = observed api blank empty values policy k in
      let later = all_observed api blank empty values policy ks in
      let (few, all) = observed_lem policy k in
      let (few', all') = all_observed-IsObservation policy ks in
      let split = map-append (to_json values) now later in
      (
        omega (
          arith,
          few,
          few',
          ap (length {A = Bytes}) split,
          length-append (map (to_json values) now) (map (to_json values) later),
        ),
        subst (All (IsObservation policy)) (sym split) (All-append _ _ _ all all'),
      )

module _ {GURL : Type 0} (api : UrlApi GURL) (blank empty : GURL) {Value Dict : Type 0}
    (values : ValueApi Value Dict) {T : Type 0} (io : CognitiaTransport T) where
  disabled :
      (policy : UrlExposurePolicy) (t : T) (ks : List (Callback api blank empty values))
      → after_callbacks api blank empty values io
          (collecting api blank empty values io false policy t)
          ks
        ≡ collecting api blank empty values io false policy t
  unfolding after_callbacks
  disabled policy t [] = refl
  disabled policy t (k ∷ ks) =
      ap (λ (c : BrowserObservationCollector T). after_callbacks api blank empty values io c ks)
        (callback-disabled api blank empty values io policy t k)
      ∙ disabled policy t ks

  -- While enabled and with a transport, each callback sends at most two messages, each an observation
  -- under the policy; they are given to the transport in order.
  pub after_callbacks_lem :
      (policy : UrlExposurePolicy) (t : T) (ks : List (Callback api blank empty values))
      → ((messages : List Bytes) × (after_callbacks api blank empty values io
              (collecting api blank empty values io true policy t)
              ks
            ≡ collecting api blank empty values io true policy (send_all io t messages))
          × (length messages ≤ 2 * length ks)
          × All (IsObservation api blank empty values policy) messages)
        × (after_callbacks api blank empty values io
              (collecting api blank empty values io false policy t)
              ks
            ≡ collecting api blank empty values io false policy t)
  after_callbacks_lem policy t ks =
      let (few, all) = all_observed-IsObservation api blank empty values policy ks in
      ((_, all_observed_lem api blank empty values io policy t ks, few, all), disabled policy t ks)
