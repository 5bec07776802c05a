-- ===== src/Telemetry/Redaction.antt =====
-- What an event shows of a URL: no userinfo, and no value of a sensitive key.
use thorium_frugal.Base.{
  ◌≡◌, refl, ap, ◌∙◌, sym, inl, inr, ◌⊎◌, true, false, List, [], ◌∷◌, ◌++◌, Bytes, codes, ◌==◌,
  if_false, append_assoc, take-append, All-append,
}
use thorium_frugal.Text.{is_empty, getlines}
use thorium_frugal.Text.Find.{Free}
use thorium_frugal.ParameterFilter.{key_of, rebuild_url}
use thorium_frugal.ParameterFilter.Strip.{IsFragment, url_of, find_question, query_of, fragment_of}
use thorium_frugal.Telemetry.{
  is_sensitive_query_key, redact, sanitized_pairs, redact_at, redact_query,
  sanitize_url_for_telemetry,
}
use thorium_frugal.Telemetry.Userinfo.{strip_userinfo_lem}

pub redact_query_lem :
    (base query fragment : Bytes)
    → Free (λ b. b == b'?') base
    → Free (λ b. b == b'#') query
    → IsFragment fragment
    → redact_query (url_of base query fragment)
      ≡ rebuild_url base (sanitized_pairs (getlines b'&' query)) fragment
unfolding redact_query redact_at
redact_query_lem base query fragment hb hq hf =
    ap (redact_at (url_of base query fragment)) (find_question base query fragment hb hq hf)
    ∙ rw (
      query_of base query fragment hb hq hf,
      fragment_of base query fragment hb hq hf,
      take-append base (b'?' ∷ (query ++ fragment)),
    )

is_empty-prefix : (s t : Bytes) → is_empty (s ++ (codes "://" ++ t)) ≡ false
unfolding is_empty
is_empty-prefix [] t = refl
is_empty-prefix (c ∷ s) t = refl

-- `scheme://user@base?query#fragment` is shown without the user, with its pairs redacted one by one.
-- The scheme has no `:` or `?`, the user no `@` or `/`, the base no `?` and the query no `#`.
pub sanitize_lem :
    (scheme user base query fragment : Bytes)
    → Free (λ b. b == b':') scheme
    → Free (λ b. b == b'?') scheme
    → Free (λ b. b == b'@') user
    → Free (λ b. b == b'/') user
    → Free (λ b. b == b'?') base
    → Free (λ b. b == b'#') query
    → IsFragment fragment
    → sanitize_url_for_telemetry
        (scheme ++ (codes "://" ++ (user ++ b'@' ∷ url_of base query fragment)))
      ≡ rebuild_url
          (scheme ++ (codes "://" ++ base))
          (sanitized_pairs (getlines b'&' query))
          fragment
unfolding sanitize_url_for_telemetry
sanitize_lem scheme user base query fragment hs hsq ha hu hb hq hf =
    if_false _ _ _ (is_empty-prefix scheme (user ++ b'@' ∷ url_of base query fragment))
    ∙ ap redact_query (strip_userinfo_lem scheme user (url_of base query fragment) hs ha hu)
    ∙ ap redact_query (sym (append_assoc scheme (codes "://" ++ base) (b'?' ∷ (query ++ fragment))))
    ∙ redact_query_lem (scheme ++ (codes "://" ++ base)) query fragment
        (All-append _ scheme (codes "://" ++ base) hsq (refl, (refl, (refl, hb)))) hq hf

-- The same pairs but for the values of sensitive keys.
abbrev pub SameButSecrets : List Bytes → List Bytes → Type 0
SameButSecrets [] [] = Unit
SameButSecrets [] (q ∷ qs) = ⊥
SameButSecrets (p ∷ ps) [] = ⊥
SameButSecrets (p ∷ ps) (q ∷ qs) =
    ((p ≡ q)
      ⊎ ((is_empty p ≡ false)
          × (is_empty q ≡ false)
          × (key_of p ≡ key_of q)
          × (is_sensitive_query_key (key_of q) ≡ true)))
    × SameButSecrets ps qs

redact-secret :
    (p q : Bytes)
    → key_of p ≡ key_of q
    → is_sensitive_query_key (key_of q) ≡ true
    → redact p ≡ redact q
unfolding redact
redact-secret p q e s = rw (e, s)

sanitized_pairs-secret :
    (ps qs : List Bytes) → SameButSecrets ps qs → sanitized_pairs ps ≡ sanitized_pairs qs
unfolding sanitized_pairs
sanitized_pairs-secret [] [] h = refl
sanitized_pairs-secret [] (q ∷ qs) h = absurd h
sanitized_pairs-secret (p ∷ ps) [] h = absurd h
sanitized_pairs-secret (p ∷ ps) (q ∷ qs) (inl e, h) = rw (e, sanitized_pairs-secret ps qs h)
sanitized_pairs-secret (p ∷ ps) (q ∷ qs) (inr (a, b, e, s), h) =
    rw (a, b, redact-secret p q e s, sanitized_pairs-secret ps qs h)

-- Two URLs that differ in their userinfo and in the values of sensitive keys only are shown as the
-- same text, so that text tells nothing of them. The conditions are those on the parts of a URL with
-- a userinfo; the fragment is the same, since it is shown as it is.
pub sanitize_hides_secrets :
    (scheme user user' base query query' fragment : Bytes)
    → Free (λ b. b == b':') scheme
    → Free (λ b. b == b'?') scheme
    → Free (λ b. b == b'@') user
    → Free (λ b. b == b'/') user
    → Free (λ b. b == b'@') user'
    → Free (λ b. b == b'/') user'
    → Free (λ b. b == b'?') base
    → Free (λ b. b == b'#') query
    → Free (λ b. b == b'#') query'
    → IsFragment fragment
    → SameButSecrets (getlines b'&' query) (getlines b'&' query')
    → sanitize_url_for_telemetry
        (scheme ++ (codes "://" ++ (user ++ b'@' ∷ url_of base query fragment)))
      ≡ sanitize_url_for_telemetry
          (scheme ++ (codes "://" ++ (user' ++ b'@' ∷ url_of base query' fragment)))
sanitize_hides_secrets scheme user user' base query query' fragment hs hsq ha hu ha' hu' hb hq hq'
      hf h =
    sanitize_lem scheme user base query fragment hs hsq ha hu hb hq hf
    ∙ ap (λ ps. rebuild_url (scheme ++ (codes "://" ++ base)) ps fragment)
        (sanitized_pairs-secret (getlines b'&' query) (getlines b'&' query') h)
    ∙ sym (sanitize_lem scheme user' base query' fragment hs hsq ha' hu' hb hq' hf)
