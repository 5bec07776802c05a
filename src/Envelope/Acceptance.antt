-- ===== src/Envelope/Acceptance.antt =====
-- A receiver of content envelopes by the schema of COGNITIA_CONTENT_PROTOCOL.md, section 1.
use thorium_frugal.Base.{
  none, Bytes, ℕ, ◌<◌, ◌^◌, ◌≡◌, refl, ap, true, List, [], ◌∷◌, Option, some, arith, codes, str_eq,
  str_eq_refl, ◌==◌, length,
}
use thorium_frugal.Envelope.{
  ℤ, pos, to_int, ValueApi, IsMap, dict_of, root_members, browser_members,
}
use thorium_frugal.Envelope.Content.{
  ContentExtractionMode, selected_text, main_page_content, metadata_only, extraction_mode_to_string,
  ContentEnvelope, scope_of, authorization_members, content_page_members, content_members,
  extraction_provenance_members, content_payload_members, content_to_value_dict,
}
use thorium_frugal.Envelope.Reading.{
  ◌>>=◌, ◌>>◌, require, named, number_of, last_of, get_string, require_text, get_dict-none, get_int,
  get_boolean, get_dict, get_string-dict_of, get_int-dict_of, get_boolean-dict_of, get_dict-dict_of,
}

abbrev modes : List ContentExtractionMode
modes = selected_text ∷ main_page_content ∷ metadata_only ∷ []

named-mode :
    (m : ContentExtractionMode)
    → named extraction_mode_to_string modes (extraction_mode_to_string m) ≡ some m
unfolding extraction_mode_to_string str_eq
named-mode selected_text = refl
named-mode main_page_content = refl
named-mode metadata_only = refl

pub to_int-pos : (n : ℕ) → n < 2 ^ 31 → to_int n ≡ pos n
unfolding to_int
to_int-pos n h = ground arith

-- The dictionary that has `content_authorization` as its member: the root, as in the schema, or `payload`.
pub data Place : Type 0 where
  in_root in_payload : Place

abbrev holder : {Dict : Type 0} → Place → Dict → Dict → Dict
holder in_root root payload = root
holder in_payload root payload = payload

module _ {Value Dict : Type 0} (api : ValueApi Value Dict) where
  -- A reader that requires the members of the schema, with `content_authorization` at one place or the
  -- other, and refuses what is not marked as untrusted content that the user asked for, with the scope
  -- of its mode and the length of its text. Only `$schema` is not required: it is never set.
  unfoldable pub accept_content : Place → Dict → Option ContentEnvelope
  accept_content place root = do
    id ← get_string api root (codes "id")
    require_text api root (codes "schema_version") (codes "1.0.0")
    created_at ← get_string api root (codes "created_at")
    require_text api root (codes "source_id") (codes "thorium_browser_adapter")
    payload ← get_dict api root (codes "payload")
    authorization ← get_dict api (holder place root payload) (codes "content_authorization")
    mode_name ← get_string api authorization (codes "mode")
    mode ← named extraction_mode_to_string modes mode_name
    initiated ← get_boolean api authorization (codes "user_initiated")
    require initiated
    require_text api authorization (codes "timestamp_utc") created_at
    scope ← get_string api authorization (codes "scope")
    require (str_eq scope (scope_of mode))
    browser ← get_dict api payload (codes "browser")
    require_text api browser (codes "name") (codes "Lean Thorium")
    require_text api browser (codes "version") (codes "138.0.7204.306")
    page ← get_dict api payload (codes "page")
    url ← get_string api page (codes "url")
    origin ← get_string api page (codes "origin")
    title ← get_string api page (codes "title")
    window_id ← get_int api page (codes "window_id")
    tab_id ← get_int api page (codes "tab_id")
    content ← get_dict api payload (codes "content")
    require_text api content (codes "type") (codes "untrusted_web_content")
    text ← get_string api content (codes "text")
    size ← get_int api content (codes "byte_length")
    bytes ← number_of size
    require (bytes == length text)
    cut ← get_boolean api content (codes "is_truncated")
    provenance ← get_dict api payload (codes "provenance")
    require_text api provenance (codes "source_type") (codes "sensor")
    require_text api provenance (codes "producer_id") (codes "thorium_browser_adapter")
    require_text api provenance (codes "capability_id") (codes "authorized_content_extraction")
    require_text api provenance (codes "authorization_method") (codes "explicit_user_action")
    some (record {
      id = id;
      created_at = created_at;
      mode = mode;
      window_id = window_id;
      tab_id = tab_id;
      url = url;
      origin = origin;
      title = title;
      extracted_text = text;
      is_truncated = cut;
    })

  module _ (laws : IsMap Value Dict api) where
    -- The dictionary of a content envelope whose text has fewer than `2 ^ 31` bytes is accepted where
    -- `content_authorization` is looked for in `payload`, and read back to the envelope.
    pub accept_content-to_value_dict :
        (e : ContentEnvelope)
        → length e.extracted_text < 2 ^ 31
        → accept_content in_payload (content_to_value_dict api e) ≡ some e
    unfolding accept_content content_to_value_dict last_of str_eq
    accept_content-to_value_dict e h =
        let text = get_string-dict_of api laws in
        let part = get_dict-dict_of api laws in
        let number = get_int-dict_of api laws in
        let flag = get_boolean-dict_of api laws in
        let payload = content_payload_members api e in
        let root = root_members api e.id e.created_at (dict_of api payload) in
        let authorization = authorization_members api e in
        let browser = browser_members api in
        let provenance = extraction_provenance_members api in
        let page = content_page_members api e in
        let content = content_members api e in
        let size : (length e.extracted_text == length e.extracted_text) ≡ true = ground arith in
        rw
          (
            text root (codes "id") e.id refl,
            text root (codes "schema_version") (codes "1.0.0") refl,
            text root (codes "created_at") e.created_at refl,
            text root (codes "source_id") (codes "thorium_browser_adapter") refl,
            part root (codes "payload") (dict_of api payload) refl,
            part payload (codes "content_authorization") (dict_of api authorization) refl,
            text authorization (codes "mode") (extraction_mode_to_string e.mode) refl,
            named-mode e.mode,
            flag authorization (codes "user_initiated") true refl,
            text authorization (codes "timestamp_utc") e.created_at refl,
            str_eq_refl e.created_at,
            text authorization (codes "scope") (scope_of e.mode) refl,
            str_eq_refl (scope_of e.mode),
            part payload (codes "browser") (dict_of api browser) refl,
            text browser (codes "name") (codes "Lean Thorium") refl,
            text browser (codes "version") (codes "138.0.7204.306") refl,
            part payload (codes "page") (dict_of api page) refl,
            text page (codes "url") e.url refl,
            text page (codes "origin") e.origin refl,
            text page (codes "title") e.title refl,
            number page (codes "window_id") e.window_id refl,
            number page (codes "tab_id") e.tab_id refl,
            part payload (codes "content") (dict_of api content) refl,
            text content (codes "type") (codes "untrusted_web_content") refl,
            text content (codes "text") e.extracted_text refl,
            number content (codes "byte_length") (pos (length e.extracted_text))
                (ap (λ (n : ℤ). some (api.int n)) (to_int-pos (length e.extracted_text) h)),
            size,
            flag content (codes "is_truncated") e.is_truncated refl,
            part payload (codes "provenance") (dict_of api provenance) refl,
            text provenance (codes "source_type") (codes "sensor") refl,
            text provenance (codes "producer_id") (codes "thorium_browser_adapter") refl,
            text provenance (codes "capability_id") (codes "authorized_content_extraction") refl,
            text provenance (codes "authorization_method") (codes "explicit_user_action") refl,
          )
          refl

    -- Where the empty dictionary has no members, no content envelope is accepted by a receiver that
    -- looks for `content_authorization` in the root.
    pub accept_content-none :
        ((k : Bytes) → api.find api.empty k ≡ none)
        → (e : ContentEnvelope) → accept_content in_root (content_to_value_dict api e) ≡ none
    unfolding accept_content content_to_value_dict last_of str_eq
    accept_content-none nothing e =
        let text = get_string-dict_of api laws in
        let payload = content_payload_members api e in
        let root = root_members api e.id e.created_at (dict_of api payload) in
        rw
          (
            text root (codes "id") e.id refl,
            text root (codes "schema_version") (codes "1.0.0") refl,
            text root (codes "created_at") e.created_at refl,
            text root (codes "source_id") (codes "thorium_browser_adapter") refl,
            get_dict-dict_of api laws root (codes "payload") (dict_of api payload) refl,
            get_dict-none api laws root (codes "content_authorization") (nothing _),
          )
          refl
