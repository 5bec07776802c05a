-- ===== src/ContentExtractor/Budget.antt =====
-- The text of an envelope keeps to the budget of its mode.
use thorium_frugal.Base.{
  ℕ, ◌≤◌, ◌<◌, ◌≡◌, ◌↔◌, refl, sym, inl, inr, Bool, true, [], ◌∷◌, ◌++◌, none, some, arith, Bytes,
  codes, ltb, take, length, Bool-cases, length-take-le, take_all,
}
use thorium_frugal.Text.{is_empty}
use thorium_frugal.UrlSanitizer.{UrlApi, full_url_sanitized, sanitize}
use thorium_frugal.Clock.{Exploded}
use thorium_frugal.Envelope.Content.{
  ContentExtractionMode, selected_text, main_page_content, metadata_only, ContentEnvelope,
}
use thorium_frugal.ContentExtractor.{
  max_selected_text_bytes, max_page_content_bytes, max_metadata_bytes, sanitize_raw_text,
  WebContents, text_of, extract_authorized_content,
}

abbrev pub budget : ContentExtractionMode → ℕ
budget selected_text = max_selected_text_bytes
budget main_page_content = max_page_content_bytes
budget metadata_only = max_metadata_bytes

-- The text before it is cut.
abbrev pub whole_text : ContentExtractionMode → Bytes → Bytes → Bytes → Bytes
whole_text metadata_only title origin selection =
    codes "Title: " ++ (title ++ (codes "\nOrigin: " ++ origin))
whole_text selected_text title origin selection = selection
whole_text main_page_content title origin selection = selection

-- A text cut to a budget: its first bytes, marked exactly when some are missing.
abbrev pub IsCut : ℕ → Bytes → Bytes → Bool → Type 0
IsCut n whole text cut =
    (text ≡ take n whole) × (length text ≤ n) × ((cut ≡ true) ↔ (n < length whole))

sanitize_raw_text-IsCut :
    (n : ℕ) (s : Bytes) → IsCut n s (sanitize_raw_text s n).0 (sanitize_raw_text s n).1
unfolding sanitize_raw_text is_empty
sanitize_raw_text-IsCut n [] =
    (sym (take_all {A = ℕ} [] n (omega arith)), omega arith, (λ h. cc, λ h. absurd (omega arith)))
sanitize_raw_text-IsCut n (c ∷ s) = elim (Bool-cases (ltb n (length (c ∷ s)))) [
  | inl e ↦ rw e (refl, length-take-le n (c ∷ s), (λ h. ground arith, λ h. refl))
  | inr e ↦
      rw e (sym (take_all (c ∷ s) n (ground arith)), ground arith, (λ h. cc, λ h. ground arith))
]

-- Without a page nothing is extracted. An extraction from a page gives an envelope in the mode that was
-- asked for, with the sanitised URL, the origin and the title of the page. Its text is the first bytes
-- of the whole text, as many as the budget of the mode allows: 64 KiB of a selection, 256 KiB of a page,
-- 16 KiB of metadata. It is marked as truncated exactly when bytes are missing. The whole text of a
-- selection or a page is the text that the caller passes, from which nothing is removed, and that of
-- metadata is the title and the origin.
pub extract_authorized_content_lem :
    {GURL : Type 0} (api : UrlApi GURL) (token : Bytes) (now : Exploded)
    (contents : WebContents api) (mode : ContentExtractionMode) (selection : Bytes)
    → (extract_authorized_content api token now none mode selection ≡ none)
      × (e : ContentEnvelope) × (extract_authorized_content api token now
            (some contents)
            mode
            selection
          ≡ some e)
      × (e.mode ≡ mode)
      × (e.url ≡ sanitize api contents.visible_url full_url_sanitized)
      × (e.origin ≡ api.origin contents.visible_url)
      × (e.title ≡ contents.page_title)
      × IsCut
          (budget mode)
          (whole_text mode contents.page_title (api.origin contents.visible_url) selection)
          e.extracted_text
          e.is_truncated
unfolding extract_authorized_content text_of
extract_authorized_content_lem api token now contents selected_text selection =
    (refl, _, refl, refl, refl, refl, refl, sanitize_raw_text-IsCut _ _)
extract_authorized_content_lem api token now contents main_page_content selection =
    (refl, _, refl, refl, refl, refl, refl, sanitize_raw_text-IsCut _ _)
extract_authorized_content_lem api token now contents metadata_only selection =
    (refl, _, refl, refl, refl, refl, refl, sanitize_raw_text-IsCut _ _)
