-- ===== src/ParameterFilter/Strip.antt =====
-- `StripTrackingParameters` on a URL given by its parts.
use thorium_frugal.Base.{
  ℕ, ◌≡◌, refl, ap, ◌∙◌, sym, inl, inr, ◌⊎◌, true, false, not, List, [], ◌∷◌, ◌++◌, map, Option,
  some, arith, Bytes, ◌==◌, if◌then◌else◌, Bool-cases, any, select, append-nil, append_assoc, drop,
  length, take-append, drop-append,
}
use thorium_frugal.Text.{find, is_empty, getlines}
use thorium_frugal.Text.Find.{
  Free, before, after, find_if_at, before-append_left, after-append_left,
}
use thorium_frugal.Text.Lower.{is_empty_iff}
use thorium_frugal.Text.Cut.{query_part, fragment_part, query_part_lem, fragment_part_lem}
use thorium_frugal.ParameterFilter.{
  FilterResult, key_of, is_removed, is_preserved, strip_loop, rebuild_url, unchanged, strip_query,
  strip_tracking_parameters,
}

-- A fragment: nothing, or a `#` and more.
abbrev pub IsFragment : Bytes → Type 0
IsFragment f = (f ≡ []) ⊎ ((r : Bytes) × (f ≡ b'#' ∷ r))

-- The URL with this text before its first `?`, this query and this fragment.
abbrev pub url_of : Bytes → Bytes → Bytes → Bytes
url_of base query fragment = base ++ b'?' ∷ (query ++ fragment)

module _ (base query fragment : Bytes) (hb : Free (λ b. b == b'?') base)
    (hq : Free (λ b. b == b'#') query) (hf : IsFragment fragment) where
  pub find_question : find (url_of base query fragment) b'?' 0 ≡ some (length base)
  unfolding find
  find_question =
      rw (find_if_at (λ b. b == b'?') base b'?' (query ++ fragment) hb refl)
        (ap {B = Option ℕ} some (omega arith))

  at_question : drop (length base) (url_of base query fragment) ≡ b'?' ∷ (query ++ fragment)
  at_question = drop-append base (b'?' ∷ (query ++ fragment))

  pub query_of :
      query_part
        (url_of base query fragment)
        (length base)
        (find (url_of base query fragment) b'#' (length base))
      ≡ query
  query_of =
      query_part_lem (url_of base query fragment) (query ++ fragment) (length base) at_question
      ∙ before-append_left _ query fragment hq
      ∙ ap (◌++◌ query) (no_text hf)
      ∙ append-nil query
    where
      no_text : IsFragment fragment → before (λ b. b == b'#') fragment ≡ []
      no_text (inl e) = unfold before in rw e
      no_text (inr (r, e)) = unfold before in rw e

  pub fragment_of :
      fragment_part
        (url_of base query fragment)
        (find (url_of base query fragment) b'#' (length base))
      ≡ fragment
  fragment_of =
      fragment_part_lem (url_of base query fragment) (query ++ fragment) (length base) at_question
      ∙ after-append_left _ query fragment hq
      ∙ all_text hf
    where
      all_text : IsFragment fragment → after (λ b. b == b'#') fragment ≡ fragment
      all_text (inl e) = unfold after in rw e
      all_text (inr (r, e)) = unfold after in rw e

strip_loop_lem :
    (params items removed preserved : List Bytes)
    → strip_loop params items removed preserved ≡ (
      removed ++ map key_of (select (is_removed params) items),
      preserved ++ select (is_preserved params) items,
    )
unfolding strip_loop select
strip_loop_lem params [] removed preserved = rw (append-nil removed, append-nil preserved)
strip_loop_lem params (item ∷ items) removed preserved =
    strip_loop_lem params items _ _ ∙ elim (Bool-cases (is_removed params item)) [
      | inl e ↦
          let f : is_preserved params item ≡ false =
            unfold is_removed is_preserved in ground arith in
          rw (
            e,
            f,
            append_assoc removed (key_of item ∷ []) (map key_of (select (is_removed params) items)),
          )
      | inr e ↦ elim (Bool-cases (is_preserved params item)) [
        | inl f ↦ rw (e, f, append_assoc preserved (item ∷ []) (select (is_preserved params) items))
        | inr f ↦ rw (e, f)
      ]
    ]

is_empty-removed :
    (params items : List Bytes)
    → is_empty (map key_of (select (is_removed params) items)) ≡ not (any (is_removed params) items)
unfolding select any is_empty
is_empty-removed params [] = refl
is_empty-removed params (item ∷ items) = elim (Bool-cases (is_removed params item)) [
  | inl e ↦ rw e
  | inr e ↦ rw e (is_empty-removed params items)
]

-- The result for these pairs.
abbrev stripped : List Bytes → Bytes → Bytes → List Bytes → Bytes → FilterResult
stripped params url base items fragment =
    if any (is_removed params) items
    then record {
      cleaned_url = rebuild_url base (select (is_preserved params) items) fragment;
      parameters_removed = true;
      removed_parameters = map key_of (select (is_removed params) items);
    }
    else unchanged url

strip_query_lem :
    (params : List Bytes) (url base query fragment : Bytes)
    → strip_query params url base query fragment
      ≡ stripped params url base (getlines b'&' query) fragment
unfolding strip_query
strip_query_lem params url base query fragment =
    let items = getlines b'&' query in
    rw (strip_loop_lem params items [] [], is_empty-removed params items)
      (elim (Bool-cases (any (is_removed params) items)) [ inl e ↦ rw e | inr e ↦ rw e ])

no_query :
    (params : List Bytes) (url base query fragment : Bytes)
    → is_empty query ≡ true
    → stripped params url base (getlines b'&' query) fragment ≡ unchanged url
unfolding getlines any
no_query params url base query fragment h = rw ((is_empty_iff query).0 h)

-- For a URL with no `?` before its query and no `#` in it: the pairs of the query that have a
-- tracking key are taken out, and their keys are listed; the others, without empty ones, keep
-- their order, and the rest of the URL stays. A URL with no such pair is left as it is.
pub strip_tracking_parameters_lem :
    (params : List Bytes) (base query fragment : Bytes)
    → Free (λ b. b == b'?') base
    → Free (λ b. b == b'#') query
    → IsFragment fragment
    → let items = getlines b'&' query in
      strip_tracking_parameters params (url_of base query fragment) ≡ (
        if any (is_removed params) items
        then record {
          cleaned_url = rebuild_url base (select (is_preserved params) items) fragment;
          parameters_removed = true;
          removed_parameters = map key_of (select (is_removed params) items);
        }
        else unchanged (url_of base query fragment))
unfolding strip_tracking_parameters
strip_tracking_parameters_lem params base query fragment hb hq hf =
    let url = url_of base query fragment in
    rw (find_question base query fragment hb hq hf, strip_tracking_parameters)
      (rw
        (
          query_of base query fragment hb hq hf,
          fragment_of base query fragment hb hq hf,
          take-append base (b'?' ∷ (query ++ fragment)),
        )
        (elim (Bool-cases (is_empty query)) [
          | inl e ↦ rw e (sym (no_query params url base query fragment e))
          | inr e ↦ rw e (strip_query_lem params url base query fragment)
        ]))
