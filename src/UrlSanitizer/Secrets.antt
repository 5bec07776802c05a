-- ===== src/UrlSanitizer/Secrets.antt =====
-- What the sanitizer shows of a URL, and what it hides.
use thorium_frugal.Base.{Option, none, some, ◌≡◌, ◌⊎◌, true, List, [], ◌∷◌, map, Bytes, codes}
use mathlib.Core.Option
use thorium_frugal.Text.{join}
use thorium_frugal.UrlSanitizer.Parts.{UrlParts, HasParts}
use thorium_frugal.UrlSanitizer.{UrlApi, is_sensitive_query_param, shown_pair}

-- The same pairs but for the values of sensitive parameters.
abbrev pub SamePublicPairs : List (Bytes × Bytes) → List (Bytes × Bytes) → Type 0
SamePublicPairs [] [] = Unit
SamePublicPairs [] (q ∷ qs) = ⊥
SamePublicPairs (p ∷ ps) [] = ⊥
SamePublicPairs ((k, v) ∷ ps) ((l, w) ∷ qs) =
    (k ≡ l) × ((v ≡ w) ⊎ (is_sensitive_query_param l ≡ true)) × SamePublicPairs ps qs

-- A query is there in both or in neither, with the same pairs but for the values of sensitive parameters.
abbrev pub SamePublicQuery : (Bytes → List (Bytes × Bytes)) → Option Bytes → Option Bytes → Type 0
SamePublicQuery pairs_of none none = Unit
SamePublicQuery pairs_of none (some r) = ⊥
SamePublicQuery pairs_of (some q) none = ⊥
SamePublicQuery pairs_of (some q) (some r) = SamePublicPairs (pairs_of q) (pairs_of r)

-- What is shown of the components: neither userinfo nor fragment, and the query with its pairs redacted.
abbrev pub shown_parts : (Bytes → List (Bytes × Bytes)) → UrlParts → UrlParts
shown_parts pairs_of p = record {
  site = p.site;
  username = none;
  password = none;
  query = Option.map (λ q. join (codes "&") (map shown_pair (pairs_of q))) p.query;
  fragment = none;
}

module _ {GURL : Type 0} (api : UrlApi GURL) (url : HasParts api) where
  -- Userinfo and fragment may differ, and the values of sensitive parameters.
  abbrev pub SamePublic : GURL → GURL → Type 0
  SamePublic u v =
      let p = url.parts u in
      let q = url.parts v in
      (api.is_valid u ≡ api.is_valid v)
      × (p.site ≡ q.site)
      × SamePublicQuery url.pairs_of p.query q.query
