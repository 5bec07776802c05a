-- ===== src/Tests/Adapter.antt =====
-- The theorems on the sanitizer, the extractor and the collector at given pages.
use thorium_frugal.Base.{
  map, not, drop, arith, ◌*◌, ◌↔◌, ◌++◌, ◌≤◌, ◌≡◌, refl, true, false, List, [], ◌∷◌, ◌++◌, none,
  some, Bytes, codes, length, All,
}
use thorium_frugal.Tests.Values.{tree_api, tree_api-IsMap}
use thorium_frugal.Tests.Envelopes.{noon}
use thorium_frugal.UrlSanitizer.{UrlApi, full_url_sanitized, omitted, sanitize}
use thorium_frugal.Envelope.{pos, negsuc}
use thorium_frugal.Envelope.Acceptance.{in_payload, in_root, accept_content}
use thorium_frugal.Envelope.Content.{
  metadata_only, ContentEnvelope, selected_text, content_to_value_dict,
}
use thorium_frugal.ContentExtractor.Accepted.{extract_authorized_content-accepted}
use thorium_frugal.ContentExtractor.{WebContents, extract_authorized_content}
use thorium_frugal.ContentExtractor.Budget.{
  budget, whole_text, IsCut, extract_authorized_content_lem,
}
use thorium_frugal.Collector.{inserted}
use thorium_frugal.ContentExtractor.Encoding.{
  is_utf8, begins_inside, continues_utf8, extract_authorized_content-utf8,
}
use thorium_frugal.Transport.{send_all, connected}
use thorium_frugal.PipeTransport.{new_transport}
use thorium_frugal.PipeTransport.Accounts.{Task, sends, after_tasks, Accounts, sends_of}
use thorium_frugal.Collector.Interleaved.{
  Event, calls_back, runs_task, after_events, after_events_lem,
}
use thorium_frugal.PipeTransport.Posting.{PostedTransport, new_posted, get_status}
use thorium_frugal.PipeTransport.Interface.{pipe_transport}
use thorium_frugal.Collector.Callbacks.{
  Callback, tabs_changed, navigation_starts, after_callbacks, collecting,
}
use thorium_frugal.Collector.Observations.{IsObservation, after_callbacks_lem}

-- A URL is its text without the query, and its pairs.
abbrev Url : Type 0
Url = Bytes × List (Bytes × Bytes)

abbrev url_api : UrlApi Url
url_api = record {
  is_valid = λ u. true;
  spec = λ u. u.0;
  origin = λ u. codes "https://a.com";
  get_without_ref = λ u. u;
  has_username = λ u. false;
  has_password = λ u. false;
  clear_userinfo = λ u. u;
  has_query = λ u. true;
  query_pairs = λ u. u.1;
  set_query = λ u q. (u.0 ++ (codes "?" ++ q), []);
}

abbrev visited : Url
visited = (codes "https://a.com/", (codes "token", codes "1") ∷ (codes "q", codes "2") ∷ [])

abbrev contents : WebContents url_api
contents = record { visible_url = visited; page_title = codes "A" }

extract_example :
    (extract_authorized_content url_api (codes "id") noon none selected_text (codes "text") ≡ none)
    × (e : ContentEnvelope) × (extract_authorized_content url_api
          (codes "id")
          (noon)
          (some contents)
          selected_text
          (codes "text")
        ≡ some e)
    × (e.mode ≡ selected_text)
    × (e.url ≡ sanitize url_api visited full_url_sanitized)
    × (e.origin ≡ codes "https://a.com")
    × (e.title ≡ codes "A")
    × IsCut
        (budget selected_text)
        (whole_text selected_text (codes "A") (codes "https://a.com") (codes "text"))
        e.extracted_text
        e.is_truncated
extract_example =
    extract_authorized_content_lem url_api (codes "id") (noon) contents selected_text (codes "text")

abbrev callbacks : List (Callback url_api visited visited tree_api)
callbacks =
    tabs_changed (codes "1", noon) (codes "2", noon) inserted (negsuc 0) (pos 3) true
    ∷ navigation_starts (codes "3", noon) true visited
    ∷ []

callbacks_example :
    ((messages : List Bytes) × (after_callbacks url_api visited visited tree_api pipe_transport
          (collecting url_api visited visited tree_api pipe_transport true omitted (new_posted []))
          callbacks
        ≡ collecting url_api visited visited tree_api pipe_transport true omitted
            (send_all pipe_transport (new_posted []) messages))
      × (length messages ≤ 2 * 2)
      × All (IsObservation url_api visited visited tree_api omitted) messages)
    × (after_callbacks url_api visited visited tree_api pipe_transport
          (collecting url_api visited visited tree_api pipe_transport false omitted (new_posted []))
          callbacks
        ≡ collecting url_api visited visited tree_api pipe_transport false omitted (new_posted []))
callbacks_example =
    after_callbacks_lem url_api visited visited tree_api pipe_transport omitted (new_posted [])
      callbacks

accepted_example :
    (e : ContentEnvelope) × (extract_authorized_content url_api
        (codes "id")
        noon
        (some contents)
        selected_text
        (codes "text")
      ≡ some e)
    × (accept_content tree_api in_payload (content_to_value_dict tree_api e) ≡ some e)
    × (accept_content tree_api in_root (content_to_value_dict tree_api e) ≡ none)
accepted_example =
    extract_authorized_content-accepted url_api tree_api (codes "id") noon contents selected_text
      (codes "text") tree_api-IsMap (λ k. refl)

-- The first callback is heard, one task runs, and the second callback is heard.
abbrev mixed : List (Event url_api visited visited tree_api)
mixed =
    calls_back (navigation_starts (codes "3", noon) true visited)
    ∷ runs_task
    ∷ calls_back (navigation_starts (codes "4", noon) true visited)
    ∷ []

mixed_example :
    (s : PostedTransport) × (messages : List Bytes) × (done : List Task) × (after_events url_api
        visited visited tree_api
        (collecting url_api visited visited tree_api pipe_transport true omitted
          (new_posted (true ∷ false ∷ [])))
        mixed
      ≡ some (collecting url_api visited visited tree_api pipe_transport true omitted s))
    × (length messages ≤ 2 * 2)
    × All (IsObservation url_api visited visited tree_api omitted) messages
    × (map sends messages ≡ done ++ s.pending)
    × (after_tasks (new_transport (true ∷ false ∷ [])) done ≡ some s.transport)
    × Accounts (sends_of done) s.transport
    × ((get_status s ≡ connected) ↔ (s.transport.is_open ≡ true))
mixed_example =
    after_events_lem url_api visited visited tree_api (true ∷ false ∷ []) omitted mixed
      (omega arith)

-- The title has a character of two bytes.
abbrev cafe : WebContents url_api
cafe = record { visible_url = visited; page_title = codes "Caf" ++ 195 ∷ 169 ∷ [] }

utf8_example :
    (e : ContentEnvelope) × (extract_authorized_content url_api
        (codes "id")
        noon
        (some cafe)
        metadata_only
        (codes "")
      ≡ some e)
    × (is_utf8 e.extracted_text
        ≡ not (
            begins_inside (
              drop
                (budget metadata_only)
                (whole_text metadata_only cafe.page_title (codes "https://a.com") (codes "")))))
unfolding continues_utf8
utf8_example =
    extract_authorized_content-utf8 url_api (codes "id") noon cafe metadata_only (codes "") refl
