-- ===== src/Envelope/RoundTrip.antt =====
-- The dictionaries of the envelopes are read back to the envelopes.
use thorium_frugal.Base.{◌≡◌, refl, List, [], ◌∷◌, Option, some, codes, str_eq}
use thorium_frugal.Envelope.{ValueApi, IsMap, dict_of, root_members}
use thorium_frugal.Envelope.Observation.{
  BrowserEventType, browser_started, tab_created, tab_activated, tab_closed, navigation_started,
  navigation_committed, navigation_finished, page_title_changed, page_load_completed,
  text_selection_changed, event_type_to_string, ObservationEnvelope, event_members, context_members,
  page_members, payload_members, to_value_dict,
}
use thorium_frugal.Envelope.Reading.{
  ◌>>=◌, ◌>>◌, require, named, last_of, get_string, get_int, get_boolean, get_dict,
  get_string-dict_of, get_int-dict_of, get_boolean-dict_of, get_dict-dict_of,
}

abbrev event_types : List BrowserEventType
event_types =
    browser_started ∷ tab_created ∷ tab_activated ∷ tab_closed ∷ navigation_started
    ∷ navigation_committed ∷ navigation_finished ∷ page_title_changed ∷ page_load_completed
    ∷ text_selection_changed ∷ []

named-event_type :
    (t : BrowserEventType)
    → named event_type_to_string event_types (event_type_to_string t) ≡ some t
unfolding event_type_to_string str_eq
named-event_type browser_started = refl
named-event_type tab_created = refl
named-event_type tab_activated = refl
named-event_type tab_closed = refl
named-event_type navigation_started = refl
named-event_type navigation_committed = refl
named-event_type navigation_finished = refl
named-event_type page_title_changed = refl
named-event_type page_load_completed = refl
named-event_type text_selection_changed = refl

module _ {Value Dict : Type 0} (api : ValueApi Value Dict) where
  unfoldable pub read_observation : Dict → Option ObservationEnvelope
  read_observation root = do
    id ← get_string api root (codes "id")
    version ← get_string api root (codes "schema_version")
    require (str_eq version (codes "1.0.0"))
    created_at ← get_string api root (codes "created_at")
    payload ← get_dict api root (codes "payload")
    event ← get_dict api payload (codes "event")
    type_name ← get_string api event (codes "type")
    type ← named event_type_to_string event_types type_name
    context ← get_dict api payload (codes "context")
    window_id ← get_int api context (codes "window_id")
    tab_id ← get_int api context (codes "tab_id")
    active ← get_boolean api context (codes "is_active_tab")
    incognito ← get_boolean api context (codes "is_incognito")
    page ← get_dict api payload (codes "page")
    url ← get_string api page (codes "url")
    origin ← get_string api page (codes "origin")
    title ← get_string api page (codes "title")
    some (record {
      id = id;
      created_at = created_at;
      event_type = type;
      window_id = window_id;
      tab_id = tab_id;
      is_active_tab = active;
      url = url;
      origin = origin;
      title = title;
      is_incognito = incognito;
    })

  module _ (laws : IsMap Value Dict api) where
    -- The dictionary of any observation is read back to it, with schema version 1.0.0: each field of the
    -- envelope stands at its path, whatever the texts hold.
    pub read_observation-to_value_dict :
        (e : ObservationEnvelope) → read_observation (to_value_dict api e) ≡ some e
    unfolding read_observation to_value_dict last_of str_eq
    read_observation-to_value_dict e =
        let text = get_string-dict_of api laws in
        let part = get_dict-dict_of api laws in
        let payload = payload_members api e in
        let root = root_members api e.id e.created_at (dict_of api payload) in
        let event = event_members api e in
        let context = context_members api e in
        let page = page_members api e in
        rw
          (
            text root (codes "id") e.id refl,
            text root (codes "schema_version") (codes "1.0.0") refl,
            text root (codes "created_at") e.created_at refl,
            part root (codes "payload") (dict_of api payload) refl,
            part payload (codes "event") (dict_of api event) refl,
            text event (codes "type") (event_type_to_string e.event_type) refl,
            named-event_type e.event_type,
            part payload (codes "context") (dict_of api context) refl,
            get_int-dict_of api laws context (codes "window_id") e.window_id refl,
            get_int-dict_of api laws context (codes "tab_id") e.tab_id refl,
            get_boolean-dict_of api laws context (codes "is_active_tab") e.is_active_tab refl,
            get_boolean-dict_of api laws context (codes "is_incognito") e.is_incognito refl,
            part payload (codes "page") (dict_of api page) refl,
            text page (codes "url") e.url refl,
            text page (codes "origin") e.origin refl,
            text page (codes "title") e.title refl,
          )
          refl
