-- ===== src/Text/Find.antt =====
-- Searches of `std::string` by position, and the prefix and the rest that the positions cut off.
use thorium_frugal.Base.{
  ℕ, suc, ◌≡◌, refl, ap, inl, inr, Bool, true, false, [], ◌∷◌, ◌++◌, none, some, arith, Bytes,
  if◌then◌else◌, Bool-cases, Option-cases, length, take, drop, All,
}
use thorium_frugal.Text.{find_if}

module _ (p : ℕ → Bool) where
  -- What stands before the first byte that passes the test, and what stands from it on.
  unfoldable pub before : Bytes → Bytes
  before [] = []
  before (c ∷ s) = if p c then [] else c ∷ before s

  unfoldable pub after : Bytes → Bytes
  after [] = []
  after (c ∷ s) = if p c then c ∷ s else after s

  -- No byte passes the test.
  abbrev pub Free : Bytes → Type 0
  Free = All (λ c. p c ≡ false)

  pub before-append-after : (s : Bytes) → before s ++ after s ≡ s
  unfolding before after
  before-append-after [] = refl
  before-append-after (c ∷ s) = ground (arith, before-append-after s)

  pub before-Free : (s : Bytes) → Free (before s)
  unfolding before
  before-Free [] = tt
  before-Free (c ∷ s) = ground (arith, before-Free s)

  pub before-append_left : (s t : Bytes) → Free s → before (s ++ t) ≡ s ++ before t
  unfolding before
  before-append_left [] t h = refl
  before-append_left (c ∷ s) t (hc, h) = rw hc (ap (◌∷◌ c) (before-append_left s t h))

  pub after-append_left : (s t : Bytes) → Free s → after (s ++ t) ≡ after t
  unfolding after
  after-append_left [] t h = refl
  after-append_left (c ∷ s) t (hc, h) = rw hc (after-append_left s t h)

  pub before_whole : (s : Bytes) → Free s → before s ≡ s
  unfolding before
  before_whole [] h = refl
  before_whole (c ∷ s) (hc, h) = rw hc (ap (◌∷◌ c) (before_whole s h))

  pub after_whole : (s : Bytes) → Free s → after s ≡ []
  unfolding after
  after_whole [] h = refl
  after_whole (c ∷ s) (hc, h) = rw hc (after_whole s h)

  -- A search that fails has read the whole string.
  pub find_if-none : (s : Bytes) → find_if p s ≡ none → (before s ≡ s) × (after s ≡ []) × Free s
  unfolding find_if before after
  find_if-none [] h = (refl, refl, tt)
  find_if-none (c ∷ s) h = elim (Bool-cases (p c)) [
    | inl e ↦ ground arith
    | inr e ↦ elim (Option-cases (find_if p s)) [
      | inl n ↦ let (b, a, f) = find_if-none s n in (rw (e, b), rw (e, a), (e, f))
      | inr (i, n) ↦ ground arith
    ]
  ]

  -- A search that succeeds cuts the string there.
  pub find_if-some :
      (s : Bytes) {i : ℕ}
      → find_if p s ≡ some i
      → (take i s ≡ before s)
        × (drop i s ≡ after s)
        × (i ≡ length (before s))
        × ((c : ℕ) × (r : Bytes) × (after s ≡ c ∷ r) × (p c ≡ true))
  unfolding find_if before after
  find_if-some [] h = cc
  find_if-some (c ∷ s) {i} h = elim (Bool-cases (p c)) [
    | inl e ↦ rw e (ground arith, ground arith, ground arith, (c, s, refl, e))
    | inr e ↦ elim (Option-cases (find_if p s)) [
      | inl n ↦ ground arith
      | inr (j, n) ↦
          let (t, d, l, rest) = find_if-some s n in
          let k : i ≡ suc j = ground arith in rw (k, e) (ap (◌∷◌ c) t, d, omega (arith, l), rest)
    ]
  ]

  -- A found position is where a given decomposition has its first hit.
  pub find_if_at :
      (s : Bytes) (c : ℕ) (r : Bytes)
      → Free s
      → p c ≡ true
      → find_if p (s ++ c ∷ r) ≡ some (length s)
  unfolding find_if
  find_if_at [] c r h e = rw e
  find_if_at (d ∷ s) c r (hd, h) e = rw (hd, find_if_at s c r h e)

  pub find_if_whole : (s : Bytes) → Free s → find_if p s ≡ none
  unfolding find_if
  find_if_whole [] h = refl
  find_if_whole (c ∷ s) (hc, h) = rw (hc, find_if_whole s h)
