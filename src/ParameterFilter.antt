-- ===== src/ParameterFilter.antt =====
-- tracking_parameter_filter/tracking_parameter_filter.cc: tracking parameters are stripped from the
-- query of a URL.
pub mod Strip
pub mod Idempotent
mod Examples
use thorium_frugal.Base.{
  ℕ, Bool, true, false, not, ◌&&◌, List, [], ◌∷◌, ◌++◌, none, some, Bytes, codes, if◌then◌else◌,
  str_eq, any, take,
}
use thorium_frugal.Text.{to_lower, find, is_empty, getlines, join}
use thorium_frugal.Text.Cut.{query_part, fragment_part}

pub record FilterResult : Type 0 where
  pub cleaned_url : Bytes
  pub parameters_removed : Bool
  pub removed_parameters : List Bytes

-- `tracking_params_` as the constructor fills it: an `unordered_set` of names.
unfoldable pub tracking_params : List Bytes
tracking_params =
    codes "utm_source"
    ∷ codes "utm_medium"
    ∷ codes "utm_campaign"
    ∷ codes "utm_term"
    ∷ codes "utm_content"
    ∷ codes "utm_id"
    ∷ codes "utm_source_platform"
    ∷ codes "utm_creative_format"
    ∷ codes "utm_marketing_tactic"
    ∷ codes "gclid"
    ∷ codes "gbraid"
    ∷ codes "wbraid"
    ∷ codes "dclid"
    ∷ codes "fbclid"
    ∷ codes "msclkid"
    ∷ codes "mc_eid"
    ∷ codes "mc_cid"
    ∷ codes "yclid"
    ∷ codes "_openstat"
    ∷ codes "igshid"
    ∷ codes "twclid"
    ∷ codes "mkt_tok"
    ∷ codes "_hsenc"
    ∷ codes "_hsmi"
    ∷ codes "elqtrackid"
    ∷ codes "elqaid"
    ∷ codes "elqat"
    ∷ []

-- Insertion into the set.
unfoldable pub add_tracking_parameter : List Bytes → Bytes → List Bytes
add_tracking_parameter params name =
    if any (str_eq (to_lower name)) params then params else to_lower name ∷ params

unfoldable pub is_tracking_parameter : List Bytes → Bytes → Bool
is_tracking_parameter params key = any (str_eq (to_lower key)) params

-- What stands before the first `=` of a pair.
unfoldable pub key_of : Bytes → Bytes
key_of item = elim (find item b'=' 0) [ none ↦ item | some eq ↦ take eq item ]

-- The two branches of the loop over the pairs; it passes over empty pairs.
unfoldable pub is_removed : List Bytes → Bytes → Bool
is_removed params item = not (is_empty item) && is_tracking_parameter params (key_of item)

unfoldable pub is_preserved : List Bytes → Bytes → Bool
is_preserved params item = not (is_empty item) && not (is_tracking_parameter params (key_of item))

-- The loop, with the keys removed and the pairs preserved so far.
strip_loop : List Bytes → List Bytes → List Bytes → List Bytes → List Bytes × List Bytes
strip_loop params [] removed preserved = (removed, preserved)
strip_loop params (item ∷ items) removed preserved =
    strip_loop params items
      (if is_removed params item then removed ++ key_of item ∷ [] else removed)
      (if is_preserved params item then preserved ++ item ∷ [] else preserved)

-- The new query between what stood before and behind the old one.
unfoldable pub rebuild_url : Bytes → List Bytes → Bytes → Bytes
rebuild_url base preserved fragment =
    let new_query = join (codes "&") preserved in
    if is_empty new_query then base ++ fragment else base ++ (codes "?" ++ (new_query ++ fragment))

abbrev pub unchanged : Bytes → FilterResult
unchanged url = record { cleaned_url = url; parameters_removed = false; removed_parameters = [] }

strip_query : List Bytes → Bytes → Bytes → Bytes → Bytes → FilterResult
strip_query params url base query fragment =
    let (removed, preserved) = strip_loop params (getlines b'&' query) [] [] in
    if is_empty removed then unchanged url else record {
      cleaned_url = rebuild_url base preserved fragment;
      parameters_removed = true;
      removed_parameters = removed;
    }

unfoldable pub strip_tracking_parameters : List Bytes → Bytes → FilterResult
unfolding strip_query strip_loop rebuild_url is_removed is_preserved
strip_tracking_parameters params url = elim (find url b'?' 0) [
  | none ↦ unchanged url
  | some q ↦
      let hash = find url b'#' q in
      let query = query_part url q hash in
      if is_empty query
      then unchanged url
      else strip_query params url (take q url) query (fragment_part url hash)
]
