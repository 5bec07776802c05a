-- ===== src/ContentExtractor/Encoding.antt =====
-- Where the budget of a text ends inside of a character: `resize` counts bytes, and the texts are in UTF-8.
use thorium_frugal.Base.{
  ℕ, zero, suc, ◌≤◌, ◌≡◌, refl, ap, ◌∙◌, sym, inl, inr, Bool, true, false, not, ◌&&◌, [], ◌∷◌,
  Option, none, some, arith, Bytes, ltb, leb, if◌then◌else◌, take, take_all, drop, length,
  Bool-cases,
}
use thorium_frugal.UrlSanitizer.{UrlApi}
use thorium_frugal.Clock.{Exploded}
use thorium_frugal.Envelope.Content.{ContentExtractionMode, ContentEnvelope}
use thorium_frugal.ContentExtractor.{WebContents, extract_authorized_content}
use thorium_frugal.ContentExtractor.Budget.{budget, whole_text, extract_authorized_content_lem}

-- The second and later bytes of a character.
abbrev pub is_continuation : ℕ → Bool
is_continuation b = leb 128 b && ltb b 192

-- How many of them a first byte announces.
abbrev pub announced : ℕ → Option ℕ
announced b =
    if ltb b 128
    then some 0
    else if ltb b 194
    then none
    else if ltb b 224
    then some 1
    else if ltb b 240
    then some 2
    else if ltb b 245
    then some 3
    else none

-- Whole characters, behind so many bytes of one that has begun.
unfoldable pub continues_utf8 : ℕ → Bytes → Bool
continues_utf8 zero [] = true
continues_utf8 (suc k) [] = false
continues_utf8 zero (b ∷ s) = elim (announced b) [ none ↦ false | some k ↦ continues_utf8 k s ]
continues_utf8 (suc k) (b ∷ s) = is_continuation b && continues_utf8 k s

-- Each first byte is followed by the bytes that it announces, and no others stand between characters.
abbrev pub is_utf8 : Bytes → Bool
is_utf8 s = continues_utf8 0 s

-- The rest of a text begins inside of a character.
abbrev pub begins_inside : Bytes → Bool
begins_inside [] = false
begins_inside (b ∷ s) = is_continuation b

first_byte : (b : ℕ) (s : Bytes) → continues_utf8 0 (b ∷ s) ≡ true → is_continuation b ≡ false
unfolding continues_utf8
first_byte b s h = elim (Bool-cases (ltb b 128)) [
  | inl small ↦ ground arith
  | inr large ↦ elim (Bool-cases (ltb b 194)) [
    | inl stray ↦ go (announced b) (rw (large, stray) refl) h
    | inr lead ↦ ground arith
  ]
]
  where
    go :
        (o : Option ℕ)
        → o ≡ none
        → elim o as (λ _. Bool) [ none ↦ false | some k ↦ continues_utf8 k s ] ≡ true
        → is_continuation b ≡ false
    go none e h = cc
    go (some k) e h = cc

-- The first bytes of whole characters are whole characters exactly when the rest does not begin inside.
continues_utf8-take :
    (s : Bytes) (k n : ℕ)
    → continues_utf8 k s ≡ true
    → n ≤ length s
    → continues_utf8 k (take n s) ≡ not (begins_inside (drop n s))
unfolding continues_utf8
continues_utf8-take [] k zero h le = h
continues_utf8-take [] k (suc n) h le = absurd (omega arith)
continues_utf8-take (b ∷ s) zero zero h le = ap not (sym (first_byte b s h))
continues_utf8-take (b ∷ s) (suc k) zero h le = ground arith
continues_utf8-take (b ∷ s) zero (suc n) h le =
    go (announced b) h (λ k h'. continues_utf8-take s k n h' (omega arith))
  where
    go :
        (o : Option ℕ)
        → elim o as (λ _. Bool) [ none ↦ false | some k ↦ continues_utf8 k s ] ≡ true
        → ((k : ℕ)
            → continues_utf8 k s ≡ true
            → continues_utf8 k (take n s) ≡ not (begins_inside (drop n s)))
        → elim o as (λ _. Bool) [ none ↦ false | some k ↦ continues_utf8 k (take n s) ]
          ≡ not (begins_inside (drop n s))
    go none h ih = cc
    go (some k) h ih = ih k h
continues_utf8-take (b ∷ s) (suc k) (suc n) h le = ground (arith, continues_utf8-take s k n)

drop_all : (s : Bytes) (n : ℕ) → length s ≤ n → begins_inside (drop n s) ≡ false
drop_all [] zero h = refl
drop_all [] (suc n) h = refl
drop_all (b ∷ s) zero h = absurd (omega arith)
drop_all (b ∷ s) (suc n) h = drop_all s n (omega arith)

cut-utf8 :
    (s : Bytes) (n : ℕ) → is_utf8 s ≡ true → is_utf8 (take n s) ≡ not (begins_inside (drop n s))
cut-utf8 s n h = elim (Bool-cases (leb n (length s))) [
  | inl short ↦ continues_utf8-take s 0 n h (ground arith)
  | inr long ↦ let le : length s ≤ n = ground arith in rw (take_all s n le, drop_all s n le) h
]

-- Where the whole text of an extraction is in UTF-8: the extracted text is as well exactly when the first
-- byte behind the budget, if there is one, does not continue a character.
pub extract_authorized_content-utf8 :
    {GURL : Type 0} (api : UrlApi GURL) (token : Bytes) (now : Exploded)
    (contents : WebContents api) (mode : ContentExtractionMode) (selection : Bytes)
    → is_utf8 (whole_text mode contents.page_title (api.origin contents.visible_url) selection)
      ≡ true
    → (e : ContentEnvelope) × (extract_authorized_content api token now
          (some contents)
          mode
          selection
        ≡ some e)
      × (is_utf8 e.extracted_text
          ≡ not (
              begins_inside (
                drop (budget mode) (
                  whole_text mode contents.page_title
                    (api.origin contents.visible_url)
                    selection))))
extract_authorized_content-utf8 api token now contents mode selection h =
    let (_, e, done, _, _, _, _, cut) =
      extract_authorized_content_lem api token now contents mode selection in
    (e, done, ap is_utf8 cut.0 ∙ cut-utf8 _ (budget mode) h)
