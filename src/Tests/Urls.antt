-- ===== src/Tests/Urls.antt =====
-- The theorems on hosts, parties and URLs at given texts.
use thorium_frugal.Base.{
  ◌≡◌, ◌≢◌, ◌↔◌, arith, refl, inl, inr, true, [], ◌∷◌, ◌++◌, Bytes, codes, if◌then◌else◌, any, map,
  select, str_eq,
}
use thorium_frugal.Text.{
  to_lower, tolower, getlines, is_empty, find, find_if, ends_with_byte, pop_back,
}
use thorium_frugal.Types.{third_party, same_site}
use thorium_frugal.Classifier.Subdomain.{get_domain-subdomain}
use thorium_frugal.Text.Pieces.{split}
use thorium_frugal.Classifier.{
  get_domain, normalize_host, two_part_tlds, is_local, extract_hostname, classify,
}
use thorium_frugal.Classifier.Host.{ends_host, extract_hostname_of_parts}
use thorium_frugal.Classifier.Party.{classify_iff}
use thorium_frugal.ParameterFilter.{
  tracking_params, strip_tracking_parameters, rebuild_url, unchanged, is_removed, is_preserved,
  key_of,
}
use thorium_frugal.ParameterFilter.Strip.{url_of, strip_tracking_parameters_lem}
use thorium_frugal.ParameterFilter.Idempotent.{strip_idempotent}
use thorium_frugal.Telemetry.{sanitize_url_for_telemetry, sanitized_pairs, is_sensitive_query_key}
use thorium_frugal.Telemetry.Redaction.{sanitize_lem, sanitize_hides_secrets}
use thorium_frugal.Tests.{free, lacks, tracker_url, page}

extract_hostname_of_parts_example :
    extract_hostname (codes "https" ++ (codes "://" ++ (codes "Ads.com" ++ codes ":443/x")))
    ≡ to_lower (codes "Ads.com")
unfolding any
extract_hostname_of_parts_example =
    extract_hostname_of_parts (codes "https") (codes "Ads.com") (codes ":443/x")
      (lacks b':' (codes "https") refl) (free ends_host (codes "Ads.com") refl)
      (inr (b':', codes "443/x", refl, refl))

classify_iff_example :
    ((classify tracker_url page ≡ third_party) ↔ (
      (extract_hostname tracker_url ≢ [])
      × (extract_hostname page ≢ [])
      × (get_domain (extract_hostname tracker_url) ≢ get_domain (extract_hostname page))))
    × ((classify tracker_url page ≡ same_site) ↔ (
        (extract_hostname tracker_url ≢ [])
        × (extract_hostname page ≢ [])
        × (extract_hostname tracker_url ≢ extract_hostname page)
        × (get_domain (extract_hostname tracker_url) ≡ get_domain (extract_hostname page))))
classify_iff_example = classify_iff tracker_url page

abbrev base : Bytes
base = codes "https://t.ads.com/pixel"

abbrev query : Bytes
query = codes "utm_source=x&id=7"

abbrev fragment : Bytes
fragment = codes "#top"

strip_tracking_parameters_example :
    strip_tracking_parameters tracking_params (url_of base query fragment) ≡ (
      if any (is_removed tracking_params) (getlines b'&' query)
      then record {
        cleaned_url =
            rebuild_url base (select (is_preserved tracking_params) (getlines b'&' query)) fragment;
        parameters_removed = true;
        removed_parameters = map key_of (select (is_removed tracking_params) (getlines b'&' query));
      }
      else unchanged (url_of base query fragment))
unfolding any
strip_tracking_parameters_example =
    strip_tracking_parameters_lem tracking_params base query fragment (lacks b'?' base refl)
      (lacks b'#' query refl) (inr (codes "top", refl))

strip_idempotent_example :
    strip_tracking_parameters tracking_params
      (strip_tracking_parameters tracking_params (url_of base query fragment)).cleaned_url
    ≡ unchanged (strip_tracking_parameters tracking_params (url_of base query fragment)).cleaned_url
unfolding any
strip_idempotent_example =
    strip_idempotent tracking_params base query fragment (lacks b'?' base refl)
      (lacks b'#' query refl) (inr (codes "top", refl)) (lacks b'?' fragment refl)

sanitize_example :
    sanitize_url_for_telemetry (
      codes "https"
      ++ (codes "://"
          ++ (codes "bob:pw" ++ b'@' ∷ url_of (codes "a.com/") (codes "token=1&q=2") fragment)))
    ≡ rebuild_url
        (codes "https" ++ (codes "://" ++ codes "a.com/"))
        (sanitized_pairs (getlines b'&' (codes "token=1&q=2")))
        fragment
unfolding any
sanitize_example =
    sanitize_lem (codes "https") (codes "bob:pw") (codes "a.com/") (codes "token=1&q=2") fragment
      (lacks b':' (codes "https") refl) (lacks b'?' (codes "https") refl)
      (lacks b'@' (codes "bob:pw") refl) (lacks b'/' (codes "bob:pw") refl)
      (lacks b'?' (codes "a.com/") refl) (lacks b'#' (codes "token=1&q=2") refl)
      (inr (codes "top", refl))

sanitize_hides_example :
    sanitize_url_for_telemetry (
      codes "https"
      ++ (codes "://"
          ++ (codes "bob:pw" ++ b'@' ∷ url_of (codes "a.com/") (codes "token=1&q=2") fragment)))
    ≡ sanitize_url_for_telemetry (
        codes "https"
        ++ (codes "://"
            ++ (codes "eve" ++ b'@' ∷ url_of (codes "a.com/") (codes "token=99&q=2") fragment)))
unfolding any getlines is_empty key_of find find_if is_sensitive_query_key to_lower tolower str_eq
sanitize_hides_example =
    sanitize_hides_secrets (codes "https") (codes "bob:pw") (codes "eve") (codes "a.com/")
      (codes "token=1&q=2") (codes "token=99&q=2") fragment (lacks b':' (codes "https") refl)
      (lacks b'?' (codes "https") refl) (lacks b'@' (codes "bob:pw") refl)
      (lacks b'/' (codes "bob:pw") refl) (lacks b'@' (codes "eve") refl)
      (lacks b'/' (codes "eve") refl) (lacks b'?' (codes "a.com/") refl)
      (lacks b'#' (codes "token=1&q=2") refl) (lacks b'#' (codes "token=99&q=2") refl)
      (inr (codes "top", refl)) (inr (refl, refl, refl, refl), (inl refl, tt))

subdomain_example :
    get_domain (codes "CDN.shop.example.co.uk") ≡ get_domain (codes "shop.example.co.uk")
unfolding split find find_if normalize_host to_lower tolower ends_with_byte pop_back any str_eq
    two_part_tlds is_local
subdomain_example =
    get_domain-subdomain (codes "CDN") (codes "shop.example.co.uk") (refl, (refl, (refl, tt)))
      (omega arith) refl refl refl
