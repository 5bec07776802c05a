-- ===== src/Envelope/Content.antt =====
-- cognitia_adapter/protocol/content_envelope.cc, with the modes of content_extraction/content_types.h.
-- Titles are given in UTF-8; the token and the time of an envelope are arguments.
use thorium_frugal.Base.{Bool, true, List, [], ◌∷◌, Bytes, codes, length}
use thorium_frugal.Clock.{Exploded, created_at_of}
use thorium_frugal.Envelope.{ℤ, to_int, ValueApi, dict_of, browser_members, root_members}

pub data ContentExtractionMode : Type 0 where
  selected_text main_page_content metadata_only : ContentExtractionMode

unfoldable pub extraction_mode_to_string : ContentExtractionMode → Bytes
extraction_mode_to_string selected_text = codes "selected_text"
extraction_mode_to_string main_page_content = codes "main_page_content"
extraction_mode_to_string metadata_only = codes "metadata_only"

pub record ContentEnvelope : Type 0 where
  pub id : Bytes
  pub created_at : Bytes
  pub mode : ContentExtractionMode
  pub window_id : ℤ
  pub tab_id : ℤ
  pub url : Bytes
  pub origin : Bytes
  pub title : Bytes
  pub extracted_text : Bytes
  pub is_truncated : Bool

-- The constructor.
abbrev pub new_content :
    Bytes
    → Exploded
    → ContentExtractionMode
    → ℤ
    → ℤ
    → Bytes
    → Bytes
    → Bytes
    → Bytes
    → Bool
    → ContentEnvelope
new_content token now mode window tab sanitized_url origin title text cut = record {
  id = token;
  created_at = created_at_of now;
  mode = mode;
  window_id = window;
  tab_id = tab;
  url = sanitized_url;
  origin = origin;
  title = title;
  extracted_text = text;
  is_truncated = cut;
}

-- `mode_ == kSelectedText ? "selection" : "page"`.
abbrev pub scope_of : ContentExtractionMode → Bytes
scope_of selected_text = codes "selection"
scope_of main_page_content = codes "page"
scope_of metadata_only = codes "page"

module _ {Value Dict : Type 0} (api : ValueApi Value Dict) where
  abbrev pub authorization_members : ContentEnvelope → List (Bytes × Value)
  authorization_members e =
      (codes "mode", api.string (extraction_mode_to_string e.mode))
      ∷ (codes "user_initiated", api.boolean true)
      ∷ (codes "timestamp_utc", api.string e.created_at)
      ∷ (codes "scope", api.string (scope_of e.mode))
      ∷ []

  abbrev pub content_page_members : ContentEnvelope → List (Bytes × Value)
  content_page_members e =
      (codes "url", api.string e.url)
      ∷ (codes "origin", api.string e.origin)
      ∷ (codes "title", api.string e.title)
      ∷ (codes "window_id", api.int e.window_id)
      ∷ (codes "tab_id", api.int e.tab_id)
      ∷ []

  abbrev pub content_members : ContentEnvelope → List (Bytes × Value)
  content_members e =
      (codes "type", api.string (codes "untrusted_web_content"))
      ∷ (codes "text", api.string e.extracted_text)
      ∷ (codes "byte_length", api.int (to_int (length e.extracted_text)))
      ∷ (codes "is_truncated", api.boolean e.is_truncated)
      ∷ []

  abbrev pub extraction_provenance_members : List (Bytes × Value)
  extraction_provenance_members =
      (codes "source_type", api.string (codes "sensor"))
      ∷ (codes "producer_id", api.string (codes "thorium_browser_adapter"))
      ∷ (codes "capability_id", api.string (codes "authorized_content_extraction"))
      ∷ (codes "authorization_method", api.string (codes "explicit_user_action"))
      ∷ []

  -- The members of `payload`.
  abbrev pub content_payload_members : ContentEnvelope → List (Bytes × Value)
  content_payload_members e =
      (codes "content_authorization", api.dict (dict_of api (authorization_members e)))
      ∷ (codes "browser", api.dict (dict_of api (browser_members api)))
      ∷ (codes "page", api.dict (dict_of api (content_page_members e)))
      ∷ (codes "content", api.dict (dict_of api (content_members e)))
      ∷ (codes "provenance", api.dict (dict_of api extraction_provenance_members))
      ∷ []

  unfoldable pub content_to_value_dict : ContentEnvelope → Dict
  content_to_value_dict e =
      dict_of api (root_members api e.id e.created_at (dict_of api (content_payload_members e)))

  unfoldable pub content_to_json : ContentEnvelope → Bytes
  content_to_json e = api.write_json (content_to_value_dict e)
