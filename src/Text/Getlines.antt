-- ===== src/Text/Getlines.antt =====
-- What the loop over `std::getline` reads from a joined text, and what its pieces hold.
use thorium_frugal.Base.{
  ℕ, ◌≡◌, refl, ap, ◌∙◌, inl, inr, Bool, false, List, [], ◌∷◌, ◌++◌, arith, Bytes, ◌==◌, Bool-cases,
  All, All-append, select,
}
use thorium_frugal.Text.{push, getlines, join, is_empty}
use thorium_frugal.Text.Find.{Free}

module _ (d : ℕ) where
  pub getlines_sep :
      (s t : Bytes) → Free (λ b. b == d) s → getlines d (s ++ d ∷ t) ≡ s ∷ getlines d t
  unfolding getlines
  getlines_sep [] t h = ground arith
  getlines_sep (c ∷ s) t (hc, h) = rw (hc, getlines_sep s t h)

  pub getlines_whole :
      (s : Bytes) → Free (λ b. b == d) s → is_empty s ≡ false → getlines d s ≡ s ∷ []
  unfolding getlines is_empty
  getlines_whole [] h n = cc
  getlines_whole (c ∷ []) (hc, h) n = rw hc
  getlines_whole (c ∷ b ∷ s) (hc, h) n = rw (hc, getlines_whole (b ∷ s) h refl)

  -- Pieces that hold no delimiter, and are not empty, are read back from their join.
  pub getlines-join :
      (ps : List Bytes)
      → All (Free (λ b. b == d)) ps
      → All (λ p. is_empty p ≡ false) ps
      → getlines d (join (d ∷ []) ps) ≡ ps
  unfolding join
  getlines-join [] h n = unfold getlines in refl
  getlines-join (p ∷ []) (hp, h) (np, n) = getlines_whole p hp np
  getlines-join (p ∷ q ∷ ps) (hp, h) (np, n) =
      getlines_sep p _ hp ∙ ap (◌∷◌ p) (getlines-join (q ∷ ps) h n)

  push-Free :
      (p : ℕ → Bool) (c : ℕ) (ps : List Bytes)
      → p c ≡ false
      → All (Free p) ps
      → All (Free p) (push c ps)
  unfolding push
  push-Free p c [] e h = ((e, tt), tt)
  push-Free p c (q ∷ ps) e h = ((e, h.0), h.1)

  -- No piece holds the delimiter.
  pub getlines-Free : (s : Bytes) → All (Free (λ b. b == d)) (getlines d s)
  unfolding getlines
  getlines-Free [] = tt
  getlines-Free (c ∷ s) = elim (Bool-cases (c == d)) [
    | inl e ↦ rw e (tt, getlines-Free s)
    | inr e ↦ rw e (push-Free _ c _ e (getlines-Free s))
  ]

  -- A byte that the text does not hold is in no piece.
  pub getlines_keeps_Free : (p : ℕ → Bool) (s : Bytes) → Free p s → All (Free p) (getlines d s)
  unfolding getlines
  getlines_keeps_Free p [] h = tt
  getlines_keeps_Free p (c ∷ s) (e, h) = elim (Bool-cases (c == d)) [
    | inl w ↦ rw w (tt, getlines_keeps_Free p s h)
    | inr w ↦ rw w (push-Free p c _ e (getlines_keeps_Free p s h))
  ]

pub join-Free :
    (p : ℕ → Bool) (d : ℕ) (ps : List Bytes)
    → p d ≡ false
    → All (Free p) ps
    → Free p (join (d ∷ []) ps)
unfolding join
join-Free p d [] e h = tt
join-Free p d (q ∷ []) e h = h.0
join-Free p d (q ∷ r ∷ ps) e h = All-append _ q _ h.0 (e, join-Free p d (r ∷ ps) e h.1)

-- What holds of all holds of the selected.
pub select_keeps_All {ℓ} :
    {A : Type ℓ} (P : A → Type 0) (test : A → Bool) (xs : List A)
    → All P xs
    → All P (select test xs)
unfolding select
select_keeps_All P test [] h = tt
select_keeps_All P test (x ∷ xs) (hx, h) = elim (Bool-cases (test x)) [
  | inl e ↦ rw e (hx, select_keeps_All P test xs h)
  | inr e ↦ rw e (select_keeps_All P test xs h)
]
