-- ===== src/Envelope/Observation.antt =====
-- cognitia_adapter/protocol/observation_envelope.cc, with the event types of
-- observation/observation_types.h. Titles are given in UTF-8, as `UTF16ToUTF8` returns them; the token
-- and the time of an envelope are arguments.
use thorium_frugal.Base.{Bool, List, [], ◌∷◌, Bytes, codes}
use thorium_frugal.Clock.{Exploded, created_at_of}
use thorium_frugal.Envelope.{ℤ, ValueApi, dict_of, browser_members, root_members}

pub data BrowserEventType : Type 0 where
  browser_started tab_created tab_activated tab_closed navigation_started : BrowserEventType
  navigation_committed navigation_finished page_title_changed page_load_completed : BrowserEventType
  text_selection_changed : BrowserEventType

unfoldable pub event_type_to_string : BrowserEventType → Bytes
event_type_to_string browser_started = codes "browser_started"
event_type_to_string tab_created = codes "tab_created"
event_type_to_string tab_activated = codes "tab_activated"
event_type_to_string tab_closed = codes "tab_closed"
event_type_to_string navigation_started = codes "navigation_started"
event_type_to_string navigation_committed = codes "navigation_committed"
event_type_to_string navigation_finished = codes "navigation_finished"
event_type_to_string page_title_changed = codes "page_title_changed"
event_type_to_string page_load_completed = codes "page_load_completed"
event_type_to_string text_selection_changed = codes "text_selection_changed"

pub record ObservationEnvelope : Type 0 where
  pub id : Bytes
  pub created_at : Bytes
  pub event_type : BrowserEventType
  pub window_id : ℤ
  pub tab_id : ℤ
  pub is_active_tab : Bool
  pub url : Bytes
  pub origin : Bytes
  pub title : Bytes
  pub is_incognito : Bool

-- The constructor.
abbrev pub new_observation :
    Bytes
    → Exploded
    → BrowserEventType
    → ℤ
    → ℤ
    → Bool
    → Bytes
    → Bytes
    → Bytes
    → Bool
    → ObservationEnvelope
new_observation token now type window tab active sanitized_url origin title incognito = record {
  id = token;
  created_at = created_at_of now;
  event_type = type;
  window_id = window;
  tab_id = tab;
  is_active_tab = active;
  url = sanitized_url;
  origin = origin;
  title = title;
  is_incognito = incognito;
}

module _ {Value Dict : Type 0} (api : ValueApi Value Dict) where
  abbrev pub event_members : ObservationEnvelope → List (Bytes × Value)
  event_members e =
      (codes "type", api.string (event_type_to_string e.event_type))
      ∷ (codes "timestamp_utc", api.string e.created_at)
      ∷ []

  abbrev pub context_members : ObservationEnvelope → List (Bytes × Value)
  context_members e =
      (codes "window_id", api.int e.window_id)
      ∷ (codes "tab_id", api.int e.tab_id)
      ∷ (codes "is_active_tab", api.boolean e.is_active_tab)
      ∷ (codes "is_incognito", api.boolean e.is_incognito)
      ∷ []

  abbrev pub page_members : ObservationEnvelope → List (Bytes × Value)
  page_members e =
      (codes "url", api.string e.url)
      ∷ (codes "origin", api.string e.origin)
      ∷ (codes "title", api.string e.title)
      ∷ []

  abbrev pub provenance_members : List (Bytes × Value)
  provenance_members =
      (codes "source_type", api.string (codes "sensor"))
      ∷ (codes "producer_id", api.string (codes "thorium_browser_adapter"))
      ∷ (codes "capability_id", api.string (codes "browser_observation"))
      ∷ []

  -- The members of `payload`.
  abbrev pub payload_members : ObservationEnvelope → List (Bytes × Value)
  payload_members e =
      (codes "browser", api.dict (dict_of api (browser_members api)))
      ∷ (codes "event", api.dict (dict_of api (event_members e)))
      ∷ (codes "context", api.dict (dict_of api (context_members e)))
      ∷ (codes "page", api.dict (dict_of api (page_members e)))
      ∷ (codes "provenance", api.dict (dict_of api provenance_members))
      ∷ []

  unfoldable pub to_value_dict : ObservationEnvelope → Dict
  to_value_dict e =
      dict_of api (root_members api e.id e.created_at (dict_of api (payload_members e)))

  unfoldable pub to_json : ObservationEnvelope → Bytes
  to_json e = api.write_json (to_value_dict e)
