-- ===== src/Telemetry.antt =====
-- `SanitizeUrlForTelemetry` of privacy_policy/privacy_policy_manager.cc: the URL that an event shows.
pub mod Userinfo
pub mod Redaction
use thorium_frugal.Base.{
  ℕ, Option, Bool, ◌+◌, not, List, [], ◌∷◌, ◌++◌, map, none, some, Bytes, codes, if◌then◌else◌,
  str_eq, any, ltb, take, drop, select,
}
use thorium_frugal.Text.{to_lower, find, is_empty, getlines}
use thorium_frugal.Text.Cut.{query_part, fragment_part}
use thorium_frugal.Classifier.{authority_start}
use thorium_frugal.ParameterFilter.{key_of, rebuild_url}

sensitive_keys : List Bytes
sensitive_keys =
    codes "token"
    ∷ codes "auth"
    ∷ codes "key"
    ∷ codes "secret"
    ∷ codes "password"
    ∷ codes "passwd"
    ∷ codes "access_token"
    ∷ codes "api_key"
    ∷ codes "apikey"
    ∷ codes "session"
    ∷ codes "session_id"
    ∷ []

unfoldable pub is_sensitive_query_key : Bytes → Bool
unfolding sensitive_keys
is_sensitive_query_key key = any (str_eq (to_lower key)) sensitive_keys

-- Step 1: what stands before an `@` that no `/` precedes is taken out of the authority.
unfoldable pub strip_userinfo : Bytes → Bytes
strip_userinfo url =
    let start = authority_start url in
    elim (find url b'@' start) [
      | none ↦ url
      | some at ↦
          let cut = take start url ++ drop (at + 1) url in
          elim (find url b'/' start) [ none ↦ cut | some slash ↦ if ltb at slash then cut else url ]
    ]

-- A pair with a sensitive key loses its value.
unfoldable pub redact : Bytes → Bytes
redact pair =
    if is_sensitive_query_key (key_of pair) then key_of pair ++ codes "=[REDACTED]" else pair

-- The loop over the pairs; it passes over empty ones.
unfoldable pub sanitized_pairs : List Bytes → List Bytes
sanitized_pairs [] = []
sanitized_pairs (pair ∷ pairs) =
    let rest = sanitized_pairs pairs in if is_empty pair then rest else redact pair ∷ rest

-- Step 2, where the first `?` is found.
unfoldable pub redact_at : Bytes → Option ℕ → Bytes
redact_at url none = url
redact_at url (some q) =
    let hash = find url b'#' q in
    rebuild_url (take q url) (sanitized_pairs (getlines b'&' (query_part url q hash)))
      (fragment_part url hash)

unfoldable pub redact_query : Bytes → Bytes
redact_query url = redact_at url (find url b'?' 0)

unfoldable pub sanitize_url_for_telemetry : Bytes → Bytes
sanitize_url_for_telemetry raw_url =
    if is_empty raw_url then [] else redact_query (strip_userinfo raw_url)
