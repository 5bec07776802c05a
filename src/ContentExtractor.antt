-- ===== src/ContentExtractor.antt =====
-- cognitia_adapter/content_extraction/content_extractor.cc, with the budgets of content_types.h. Titles are given in UTF-8, as `UTF16ToUTF8` returns them; the token and
-- the time of an envelope are arguments.
pub mod Budget
pub mod Accepted
pub mod Encoding
use thorium_frugal.Envelope.{pos}
use thorium_frugal.Base.{
  ℕ, ◌*◌, Bool, true, false, [], ◌++◌, Option, none, some, Bytes, codes, if◌then◌else◌, ltb, take,
  length,
}
use thorium_frugal.Text.{is_empty}
use thorium_frugal.Clock.{Exploded}
use thorium_frugal.Envelope.Content.{
  ContentExtractionMode, selected_text, main_page_content, metadata_only, ContentEnvelope,
  new_content,
}
use thorium_frugal.UrlSanitizer.{UrlApi, full_url_sanitized, sanitize}

abbrev pub max_selected_text_bytes : ℕ
max_selected_text_bytes = 64 * 1024

abbrev pub max_page_content_bytes : ℕ
max_page_content_bytes = 256 * 1024

abbrev pub max_metadata_bytes : ℕ
max_metadata_bytes = 16 * 1024

-- The text and whether it was cut.
unfoldable pub sanitize_raw_text : Bytes → ℕ → Bytes × Bool
sanitize_raw_text raw_input max_bytes =
    if is_empty raw_input
    then ([], false)
    else if ltb max_bytes (length raw_input)
    then (take max_bytes raw_input, true)
    else (raw_input, false)

module _ {GURL : Type 0} (api : UrlApi GURL) where
  -- What the extractor reads of `WebContents`.
  pub record WebContents : Type 0 where
    pub visible_url : GURL
    pub page_title : Bytes

  -- The three branches.
  unfoldable pub text_of : ContentExtractionMode → WebContents → Bytes → Bytes × Bool
  text_of selected_text contents selection = sanitize_raw_text selection max_selected_text_bytes
  text_of metadata_only contents selection =
      sanitize_raw_text
        (codes "Title: "
          ++ (contents.page_title ++ (codes "\nOrigin: " ++ api.origin contents.visible_url)))
        max_metadata_bytes
  text_of main_page_content contents selection = sanitize_raw_text selection max_page_content_bytes

  -- What the callback is run with.
  unfoldable pub extract_authorized_content :
      Bytes → Exploded → Option WebContents → ContentExtractionMode → Bytes → Option ContentEnvelope
  extract_authorized_content token now none mode selection = none
  extract_authorized_content token now (some contents) mode selection =
      let (text, cut) = text_of mode contents selection in
      some (
        new_content token now mode (pos 1) (pos 0)
          (sanitize api contents.visible_url full_url_sanitized) (api.origin contents.visible_url)
          contents.page_title text cut)
