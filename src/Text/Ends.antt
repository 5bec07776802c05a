-- ===== src/Text/Ends.antt =====
-- The ends of a string: trimming, `back`, `pop_back` and prefixes.
use thorium_frugal.Base.{
  ℕ, ◌≡◌, refl, ap, Bool, true, [], ◌∷◌, ◌++◌, some, arith, Bytes, ◌==◌, length,
}
use thorium_frugal.Text.{find_last_if, ends_with_byte, pop_back, starts_with}

pub ends_with_byte-append : (s : Bytes) (c b : ℕ) → ends_with_byte (s ++ c ∷ []) b ≡ (c == b)
unfolding ends_with_byte
ends_with_byte-append [] c b = refl
ends_with_byte-append (d ∷ []) c b = refl
ends_with_byte-append (d ∷ e ∷ s) c b = ends_with_byte-append (e ∷ s) c b

pub pop_back-append : (s : Bytes) (c : ℕ) → pop_back (s ++ c ∷ []) ≡ s
unfolding pop_back
pop_back-append [] c = refl
pop_back-append (d ∷ []) c = refl
pop_back-append (d ∷ e ∷ s) c = ap (◌∷◌ d) (pop_back-append (e ∷ s) c)

pub find_last_if_end :
    (p : ℕ → Bool) (s : Bytes) (c : ℕ) → p c ≡ true → find_last_if p (s ++ c ∷ []) ≡ some (length s)
unfolding find_last_if
find_last_if_end p [] c h = rw h
find_last_if_end p (d ∷ s) c h = rw (find_last_if_end p s c h, find_last_if)

pub starts_with-append : (p s : Bytes) → starts_with (p ++ s) p ≡ true
unfolding starts_with
starts_with-append [] s = refl
starts_with-append (c ∷ p) s = ground (arith, starts_with-append p s)
