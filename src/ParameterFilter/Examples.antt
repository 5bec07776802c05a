-- ===== src/ParameterFilter/Examples.antt =====
-- Runs of the filter.
use thorium_frugal.Base.{◌≡◌, refl, true, [], ◌∷◌, codes, str_eq, any}
use thorium_frugal.Text.{to_lower, tolower, find, find_if, is_empty, getlines, join}
use thorium_frugal.Text.Cut.{query_part, fragment_part}
use thorium_frugal.ParameterFilter.{
  strip_tracking_parameters, tracking_params, is_tracking_parameter, key_of,
}

strip_runs :
    strip_tracking_parameters tracking_params (codes "https://a.com/p?utm_source=x&id=1&&GCLID#top")
    ≡ record {
      cleaned_url = codes "https://a.com/p?id=1#top";
      parameters_removed = true;
      removed_parameters = codes "utm_source" ∷ codes "GCLID" ∷ [];
    }
unfolding strip_tracking_parameters tracking_params is_tracking_parameter key_of to_lower tolower
    find find_if is_empty getlines join query_part fragment_part str_eq any
strip_runs = refl

-- The first `?` may stand in the fragment, whose text is then filtered.
strip_fragment_runs :
    (strip_tracking_parameters tracking_params (codes "https://a.com/#/v?utm_id=7")).cleaned_url
    ≡ codes "https://a.com/#/v"
unfolding strip_tracking_parameters tracking_params is_tracking_parameter key_of to_lower tolower
    find find_if is_empty getlines join query_part fragment_part str_eq any
strip_fragment_runs = refl
