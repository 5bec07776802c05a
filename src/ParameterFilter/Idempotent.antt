-- ===== src/ParameterFilter/Idempotent.antt =====
-- A cleaned URL has nothing left to strip.
use thorium_frugal.Base.{
  ◌≡◌, refl, ap, ◌∙◌, inl, inr, true, false, List, [], ◌∷◌, ◌++◌, arith, Bytes, codes, ◌==◌,
  Bool-cases, if_true, if_false, any, select, All, All-append,
}
use thorium_frugal.Text.{find, is_empty, getlines, join}
use thorium_frugal.Text.Find.{Free, find_if_whole}
use thorium_frugal.Text.Getlines.{
  getlines-join, getlines-Free, getlines_keeps_Free, join-Free, select_keeps_All,
}
use thorium_frugal.ParameterFilter.{
  FilterResult, is_removed, is_preserved, rebuild_url, unchanged, strip_tracking_parameters,
}
use thorium_frugal.ParameterFilter.Strip.{IsFragment, url_of, strip_tracking_parameters_lem}

-- A URL with no `?` is left as it is.
strip_no_question :
    (params : List Bytes) (url : Bytes)
    → Free (λ b. b == b'?') url
    → strip_tracking_parameters params url ≡ unchanged url
unfolding strip_tracking_parameters find
strip_no_question params url h = rw (find_if_whole _ url h, strip_tracking_parameters)

-- Preserved pairs are not empty, and none is removed.
preserved-full :
    (params items : List Bytes) → All (λ p. is_empty p ≡ false) (select (is_preserved params) items)
unfolding select
preserved-full params [] = tt
preserved-full params (item ∷ items) = elim (Bool-cases (is_preserved params item)) [
  | inl e ↦ rw e (unfold is_preserved in ground arith, preserved-full params items)
  | inr e ↦ rw e (preserved-full params items)
]

none_removed :
    (params items : List Bytes)
    → any (is_removed params) (select (is_preserved params) items) ≡ false
unfolding select any
none_removed params [] = refl
none_removed params (item ∷ items) = elim (Bool-cases (is_preserved params item)) [
  | inl e ↦ let f : is_removed params item ≡ false = kept e in rw (e, f) (none_removed params items)
  | inr e ↦ rw e (none_removed params items)
]
  where
    kept : is_preserved params item ≡ true → is_removed params item ≡ false
    kept e = unfold is_preserved is_removed in ground arith

join_full :
    (ps : List Bytes)
    → All (λ p. is_empty p ≡ false) ps
    → is_empty (join (codes "&") ps) ≡ is_empty ps
unfolding join is_empty
join_full [] h = refl
join_full (p ∷ []) (hp, h) = hp
join_full ([] ∷ q ∷ ps) (hp, h) = refl
join_full ((c ∷ p) ∷ q ∷ ps) (hp, h) = refl

rebuilt-unchanged :
    (params : List Bytes) (base fragment : Bytes) (ps : List Bytes)
    → Free (λ b. b == b'?') base
    → IsFragment fragment
    → Free (λ b. b == b'?') fragment
    → All (Free (λ b. b == b'&')) ps
    → All (Free (λ b. b == b'#')) ps
    → All (λ p. is_empty p ≡ false) ps
    → any (is_removed params) ps ≡ false
    → strip_tracking_parameters params (rebuild_url base ps fragment)
      ≡ unchanged (rebuild_url base ps fragment)
unfolding rebuild_url
rebuilt-unchanged params base fragment ps hb hf hq amp hash full kept =
    elim (Bool-cases (is_empty (join (codes "&") ps))) [
      | inl e ↦
          rw e (strip_no_question params (base ++ fragment) (All-append _ base fragment hb hq))
      | inr e ↦ rw e (
          strip_tracking_parameters_lem params base (join (codes "&") ps) fragment hb
            (join-Free _ b'&' ps refl hash) hf
          ∙ if_false _ _ _ (ap (any (is_removed params)) (getlines-join b'&' ps amp full) ∙ kept))
    ]

-- Stripping a stripped URL changes nothing, where there is no `?` before the query or in the
-- fragment, and no `#` in the query.
pub strip_idempotent :
    (params : List Bytes) (base query fragment : Bytes)
    → Free (λ b. b == b'?') base
    → Free (λ b. b == b'#') query
    → IsFragment fragment
    → Free (λ b. b == b'?') fragment
    → let once = (strip_tracking_parameters params (url_of base query fragment)).cleaned_url in
      strip_tracking_parameters params once ≡ unchanged once
strip_idempotent params base query fragment hb hq hf hn =
    let items = getlines b'&' query in
    let first = strip_tracking_parameters_lem params base query fragment hb hq hf in
    elim (Bool-cases (any (is_removed params) items)) [
      | inl e ↦
          let c = ap (λ (r : FilterResult). r.cleaned_url) (first ∙ if_true _ _ _ e) in
          rw c (
            rebuilt-unchanged params base fragment (select (is_preserved params) items) hb hf hn
              (select_keeps_All _ _ items (getlines-Free b'&' query))
              (select_keeps_All _ _ items (getlines_keeps_Free b'&' _ query hq))
              (preserved-full params items) (none_removed params items))
      | inr e ↦
          let c = ap (λ (r : FilterResult). r.cleaned_url) (first ∙ if_false _ _ _ e) in
          rw c (first ∙ if_false _ _ _ e)
    ]
