-- ===== src/UrlSanitizer.antt =====
-- cognitia_adapter/protocol/url_sanitizer.cc, over Chromium's GURL and net::QueryIterator.
pub mod Parts
pub mod Pairs
pub mod Secrets
use thorium_frugal.Base.{
  Bool, true, false, ◌||◌, not, List, [], ◌∷◌, ◌++◌, Bytes, codes, if◌then◌else◌, str_eq, any,
}
use thorium_frugal.Text.{to_lower, is_empty}

-- `UrlExposurePolicy` of observation_types.h.
pub data UrlExposurePolicy : Type 0 where
  full_url_sanitized origin_only omitted : UrlExposurePolicy

-- What the sanitizer calls of a URL type. `origin` is the spec of the origin, `clear_userinfo` and
-- `set_query` are `ReplaceComponents`, and `query_pairs` what `QueryIterator` yields.
pub record UrlApi (GURL : Type 0) : Type 0 where
  pub is_valid : GURL → Bool
  pub spec : GURL → Bytes
  pub origin : GURL → Bytes
  pub get_without_ref : GURL → GURL
  pub has_username : GURL → Bool
  pub has_password : GURL → Bool
  pub clear_userinfo : GURL → GURL
  pub has_query : GURL → Bool
  pub query_pairs : GURL → List (Bytes × Bytes)
  pub set_query : GURL → Bytes → GURL

sensitive_query_params : List Bytes
sensitive_query_params =
    codes "token"
    ∷ codes "access_token"
    ∷ codes "auth"
    ∷ codes "authtoken"
    ∷ codes "auth_token"
    ∷ codes "password"
    ∷ codes "pass"
    ∷ codes "pwd"
    ∷ codes "secret"
    ∷ codes "session"
    ∷ codes "session_id"
    ∷ codes "apikey"
    ∷ codes "api_key"
    ∷ codes "key"
    ∷ codes "signature"
    ∷ codes "sig"
    ∷ codes "code"
    ∷ codes "refresh_token"
    ∷ []

unfoldable pub is_sensitive_query_param : Bytes → Bool
unfolding sensitive_query_params
is_sensitive_query_param key = any (str_eq (to_lower key)) sensitive_query_params

unfoldable pub shown_pair : Bytes × Bytes → Bytes
shown_pair (key, value) =
    if is_sensitive_query_param key then key ++ codes "=[REDACTED]" else key ++ (codes "=" ++ value)

-- The loop over the pairs.
unfoldable pub query_loop : List (Bytes × Bytes) → Bytes → Bytes
query_loop [] out = out
query_loop (pair ∷ pairs) out =
    query_loop pairs ((if not (is_empty out) then out ++ codes "&" else out) ++ shown_pair pair)

module _ {GURL : Type 0} (api : UrlApi GURL) where
  -- Step 1: no fragment and no userinfo.
  unfoldable pub scrubbed : GURL → GURL
  scrubbed raw =
      let u = api.get_without_ref raw in
      if api.has_username u || api.has_password u then api.clear_userinfo u else u

  -- Step 2, by whether there is a query.
  unfoldable pub with_query : GURL → Bool → GURL
  with_query u true = api.set_query u (query_loop (api.query_pairs u) [])
  with_query u false = u

  unfoldable pub full_url : GURL → Bytes
  full_url raw = let u = scrubbed raw in api.spec (with_query u (api.has_query u))

  unfoldable pub sanitize : GURL → UrlExposurePolicy → Bytes
  sanitize raw omitted = []
  sanitize raw origin_only = if not (api.is_valid raw) then [] else api.origin raw
  sanitize raw full_url_sanitized = if not (api.is_valid raw) then [] else full_url raw
