-- ===== src/Text/Lower.antt =====
-- Laws of `ToLower`.
use thorium_frugal.Base.{
  ◌∙◌, ◌↔◌, true, ℕ, ◌<◌, ◌≡◌, refl, ap, Bool, [], ◌∷◌, ◌++◌, arith, Bytes, ◌==◌,
}
use thorium_frugal.Text.{tolower, to_lower, is_empty}
use thorium_frugal.Text.Find.{before, after, Free}

pub tolower_idem : (c : ℕ) → tolower (tolower c) ≡ tolower c
unfolding tolower
tolower_idem c = ground arith

pub to_lower_idem : (s : Bytes) → to_lower (to_lower s) ≡ to_lower s
unfolding to_lower
to_lower_idem [] = refl
to_lower_idem (c ∷ s) = cc (tolower_idem c, to_lower_idem s)

-- A byte that is no letter is what it was, and no other byte becomes it.
pub tolower-== : (c b : ℕ) → b < b'A' → (tolower c == b) ≡ (c == b)
unfolding tolower
tolower-== c b h = ground arith

pub to_lower-append : (s t : Bytes) → to_lower (s ++ t) ≡ to_lower s ++ to_lower t
unfolding to_lower
to_lower-append [] t = refl
to_lower-append (c ∷ s) t = ap (◌∷◌ (tolower c)) (to_lower-append s t)

pub is_empty_iff : (s : Bytes) → (is_empty s ≡ true) ↔ (s ≡ [])
unfolding is_empty
is_empty_iff [] = (λ h. refl, λ h. refl)
is_empty_iff (c ∷ s) = (λ h. cc, λ h. cc)

pub is_empty-to_lower : (s : Bytes) → is_empty (to_lower s) ≡ is_empty s
unfolding is_empty to_lower
is_empty-to_lower [] = refl
is_empty-to_lower (c ∷ s) = refl

-- A search for bytes that are no letters cuts a text in the same place when its case changes.
module _ (p : ℕ → Bool) (same : (c : ℕ) → p (tolower c) ≡ p c) where
  pub before-to_lower : (s : Bytes) → before p (to_lower s) ≡ to_lower (before p s)
  unfolding before to_lower
  before-to_lower [] = refl
  before-to_lower (c ∷ s) = ground (arith, same c, before-to_lower s)

  pub after-to_lower : (s : Bytes) → after p (to_lower s) ≡ to_lower (after p s)
  unfolding after to_lower
  after-to_lower [] = refl
  after-to_lower (c ∷ s) = ground (arith, same c, after-to_lower s)

pub to_lower-Free :
    (p : ℕ → Bool) → ((c : ℕ) → p (tolower c) ≡ p c) → (s : Bytes) → Free p s → Free p (to_lower s)
unfolding to_lower
to_lower-Free p same [] h = tt
to_lower-Free p same (c ∷ s) (e, h) = (same c ∙ e, to_lower-Free p same s h)
