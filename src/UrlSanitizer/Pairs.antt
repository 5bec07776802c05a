-- ===== src/UrlSanitizer/Pairs.antt =====
-- What the loop over the pairs of a query writes.
use thorium_frugal.Base.{
  ℕ, ◌≡◌, refl, ap, ◌∙◌, inl, inr, Bool, true, false, not, List, [], ◌∷◌, ◌++◌, map, Bytes, codes,
  Bool-cases, if◌then◌else◌, append_assoc,
}
use thorium_frugal.Text.{is_empty, join}
use thorium_frugal.UrlSanitizer.{is_sensitive_query_param, shown_pair, query_loop}

is_empty-append : (s t : Bytes) → is_empty s ≡ false → is_empty (s ++ t) ≡ false
unfolding is_empty
is_empty-append [] t h = cc
is_empty-append (c ∷ s) t h = refl

is_empty-tail : (s : Bytes) (c : ℕ) (t : Bytes) → is_empty (s ++ c ∷ t) ≡ false
unfolding is_empty
is_empty-tail [] c t = refl
is_empty-tail (b ∷ s) c t = refl

is_empty-shown : (p : Bytes × Bytes) → is_empty (shown_pair p) ≡ false
unfolding shown_pair
is_empty-shown (k, v) = elim (Bool-cases (is_sensitive_query_param k)) [
  | inl e ↦ rw e (is_empty-tail k b'=' _)
  | inr e ↦ rw e (is_empty-tail k b'=' _)
]

join-prefix :
    (sep a b : Bytes) (ps : List Bytes) → join sep ((a ++ b) ∷ ps) ≡ a ++ join sep (b ∷ ps)
unfolding join
join-prefix sep a b [] = refl
join-prefix sep a b (p ∷ ps) = append_assoc a b (sep ++ join sep (p ∷ ps))

query_loop-join :
    (ps : List (Bytes × Bytes)) (c : Bytes)
    → is_empty c ≡ false
    → query_loop ps c ≡ join (codes "&") (c ∷ map shown_pair ps)
unfolding query_loop
query_loop-join [] c h = unfold join in refl
query_loop-join (p ∷ ps) c h =
    ap (λ (b : Bool). query_loop ps ((if not b then c ++ codes "&" else c) ++ shown_pair p)) h
    ∙ query_loop-join ps ((c ++ codes "&") ++ shown_pair p)
        (is_empty-append (c ++ codes "&") (shown_pair p) (is_empty-append c (codes "&") h))
    ∙ join-prefix (codes "&") (c ++ codes "&") (shown_pair p) (map shown_pair ps)
    ∙ append_assoc c (codes "&") (join (codes "&") (shown_pair p ∷ map shown_pair ps))
    ∙ unfold join in refl

-- The loop writes the shown pairs with `&` between them.
pub query_loop_lem :
    (ps : List (Bytes × Bytes)) → query_loop ps [] ≡ join (codes "&") (map shown_pair ps)
unfolding query_loop
query_loop_lem [] = unfold join in refl
query_loop_lem (p ∷ ps) =
    ap (λ (b : Bool). query_loop ps ((if not b then [] ++ codes "&" else []) ++ shown_pair p))
      nothing
    ∙ query_loop-join ps (shown_pair p) (is_empty-shown p)
  where
    nothing : is_empty {A = ℕ} [] ≡ true
    nothing = unfold is_empty in refl
