-- ===== src/ContentExtractor/Accepted.antt =====
-- Whatever the page holds, which receivers accept what the extractor builds.
use thorium_frugal.Base.{◌≤◌, ◌≡◌, none, some, arith, Bytes}
use thorium_frugal.Clock.{Exploded}
use thorium_frugal.Envelope.{ValueApi, IsMap}
use thorium_frugal.Envelope.Acceptance.{
  in_payload, in_root, accept_content-none, accept_content, accept_content-to_value_dict,
}
use thorium_frugal.Envelope.Content.{
  ContentExtractionMode, selected_text, main_page_content, metadata_only, ContentEnvelope,
  content_to_value_dict,
}
use thorium_frugal.UrlSanitizer.{UrlApi}
use thorium_frugal.ContentExtractor.{WebContents, extract_authorized_content}
use thorium_frugal.ContentExtractor.Budget.{budget, extract_authorized_content_lem}

budget-le : (mode : ContentExtractionMode) → budget mode ≤ 262144
budget-le selected_text = omega arith
budget-le main_page_content = omega arith
budget-le metadata_only = omega arith

-- Where dictionaries keep what is set in them, and the empty one has no members: an extraction from any
-- page, in any mode and for any selection, gives an envelope. A receiver that requires the members of
-- the protocol's schema, all but `$schema`, and looks for `content_authorization` in `payload`, accepts
-- its dictionary and reads the envelope back; one that looks for it in the root, where the schema has
-- it, refuses the dictionary.
pub extract_authorized_content-accepted :
    {GURL Value Dict : Type 0} (urls : UrlApi GURL) (values : ValueApi Value Dict) (token : Bytes)
    (now : Exploded) (contents : WebContents urls) (mode : ContentExtractionMode)
    (selection : Bytes)
    → IsMap Value Dict values
    → ((k : Bytes) → values.find values.empty k ≡ none)
    → (e : ContentEnvelope) × (extract_authorized_content urls token now
          (some contents)
          mode
          selection
        ≡ some e)
      × (accept_content values in_payload (content_to_value_dict values e) ≡ some e)
      × (accept_content values in_root (content_to_value_dict values e) ≡ none)
extract_authorized_content-accepted urls values token now contents mode selection laws nothing =
    let (_, e, built, _, _, _, _, (_, fits, _)) =
      extract_authorized_content_lem urls token now contents mode selection in
    (
      e,
      built,
      accept_content-to_value_dict values laws e (omega (arith, fits, budget-le mode)),
      accept_content-none values laws nothing e,
    )
