-- ===== src/Tests/Secrets.antt =====
-- The theorem on the URL sanitizer at two URLs that differ in userinfo, fragment and a token.
use thorium_frugal.Base.{
  [], ◌==◌, ap, refl, true, List, ◌++◌, map, Option, none, some, Bytes, codes, drop,
}
use thorium_frugal.Text.Find.{before, after}
use thorium_frugal.Text.Pieces.{fields}
use thorium_frugal.UrlSanitizer.{UrlApi}
use thorium_frugal.UrlSanitizer.Parts.{UrlParts, HasParts, is_present}

abbrev behind : Bytes → Option Bytes → Bytes
behind mark none = []
behind mark (some s) = mark ++ s

-- The userinfo is printed behind the site.
abbrev print_parts : UrlParts → Bytes
print_parts p =
    p.site
    ++ (behind (codes " user ") p.username
        ++ (behind (codes " password ") p.password
            ++ (behind (codes "?") p.query ++ behind (codes "#") p.fragment)))

-- The pairs of a query, between `&`, with the key before the first `=`.
abbrev query_pairs : Bytes → List (Bytes × Bytes)
query_pairs q =
    map (λ s. (before (λ c. c == b'=') s, drop 1 (after (λ c. c == b'=') s))) (fields b'&' q)

abbrev query_text : Option Bytes → Bytes
query_text none = []
query_text (some q) = q

abbrev parts_api : UrlApi UrlParts
parts_api = record {
  is_valid = λ u. true;
  spec = print_parts;
  origin = λ u. u.site;
  get_without_ref = λ u. record u { fragment = none };
  has_username = λ u. is_present u.username;
  has_password = λ u. is_present u.password;
  clear_userinfo = λ u. record u { username = none; password = none };
  has_query = λ u. is_present u.query;
  query_pairs = λ u. query_pairs (query_text u.query);
  set_query = λ u q. record u { query = some q };
}

abbrev documented_parts : HasParts parts_api
documented_parts = record {
  parts = λ u. u;
  print = print_parts;
  origin_of = λ site. site;
  pairs_of = query_pairs;
  print_parts = λ u. refl;
  origin_site = λ u. refl;
  without_ref = λ u. refl;
  username_test = λ u. refl;
  password_test = λ u. refl;
  cleared = λ u. refl;
  query_test = λ u. refl;
  iterated = λ u q h. ap (λ o. query_pairs (query_text o)) h;
  query_set = λ u q. refl;
}

abbrev logged_in : UrlParts
logged_in = record {
  site = codes "https://a.com/";
  username = some (codes "bob");
  password = some (codes "hunter2");
  query = some (codes "token=1&q=2");
  fragment = some (codes "top");
}

abbrev logged_out : UrlParts
logged_out = record {
  site = codes "https://a.com/";
  username = none;
  password = none;
  query = some (codes "token=9&q=2");
  fragment = none;
}
