-- ===== src/UrlSanitizer/Parts.antt =====
-- What url/gurl.h and net/base/url_util.h document of the URL type that the sanitizer calls.
use thorium_frugal.Base.{◌≡◌, Bool, true, false, List, Option, none, some, Bytes}
use thorium_frugal.UrlSanitizer.{UrlApi}

-- The components of a URL; those that may be absent are `none`. `site` is the scheme, the host with its
-- port and the path.
pub record UrlParts : Type 0 where
  pub site : Bytes
  pub username : Option Bytes
  pub password : Option Bytes
  pub query : Option Bytes
  pub fragment : Option Bytes

abbrev pub is_present : Option Bytes → Bool
is_present none = false
is_present (some s) = true

-- A URL has components, which its spec prints; its origin is that of its site. `GetWithoutRef` and `ReplaceComponents` change those that
-- they name and no others, and `QueryIterator` reads the pairs of the query.
pub record HasParts {GURL : Type 0} (api : UrlApi GURL) : Type 0 where
  pub parts : GURL → UrlParts
  pub print : UrlParts → Bytes
  pub origin_of : Bytes → Bytes
  pub pairs_of : Bytes → List (Bytes × Bytes)
  pub print_parts : (u : GURL) → api.spec u ≡ print (parts u)
  pub origin_site : (u : GURL) → api.origin u ≡ origin_of (parts u).site
  pub without_ref :
      (u : GURL) → parts (api.get_without_ref u) ≡ record (parts u) { fragment = none }
  pub username_test : (u : GURL) → api.has_username u ≡ is_present (parts u).username
  pub password_test : (u : GURL) → api.has_password u ≡ is_present (parts u).password
  pub cleared :
      (u : GURL)
      → parts (api.clear_userinfo u) ≡ record (parts u) { username = none; password = none }
  pub query_test : (u : GURL) → api.has_query u ≡ is_present (parts u).query
  pub iterated : (u : GURL) (q : Bytes) → (parts u).query ≡ some q → api.query_pairs u ≡ pairs_of q
  pub query_set :
      (u : GURL) (q : Bytes) → parts (api.set_query u q) ≡ record (parts u) { query = some q }
