-- ===== src/RuleDatabase/Under.antt =====
-- A domain is a candidate of a host exactly when the host is the domain or stands under it.
use thorium_frugal.Base.{
  ◌≡◌, refl, ap, sym, inl, inr, Bool, true, false, ◌||◌, ◌&&◌, ◌==◌, [], ◌∷◌, Bytes, any, str_eq,
  if◌then◌else◌, Bool-cases,
}
use thorium_frugal.Text.{is_empty, to_lower}
use thorium_frugal.Classifier.{normalize_host}
use thorium_frugal.Classifier.Domain.{normalize_nil}
use thorium_frugal.RuleDatabase.{generate_candidate_domains}
use thorium_frugal.RuleDatabase.Candidates.{parents, generate_candidate_domains_lem}

-- The domain stands behind one of the dots.
pub behind_dot : Bytes → Bytes → Bool
behind_dot d [] = false
behind_dot d (c ∷ s) = (c == b'.' && str_eq d s) || behind_dot d s

-- The host is the domain, or a subdomain of it.
abbrev pub is_under : Bytes → Bytes → Bool
is_under d host = str_eq d host || behind_dot d host

pub str_eq-nil : (d : Bytes) → is_empty d ≡ false → str_eq d [] ≡ false
unfolding is_empty str_eq
str_eq-nil [] h = cc
str_eq-nil (c ∷ d) h = refl

nothing_behind :
    (d s : Bytes) → is_empty d ≡ false → is_empty s ≡ true → false ≡ (str_eq d s || behind_dot d s)
unfolding is_empty behind_dot
nothing_behind d [] h e = sym (ap (λ (b : Bool). b || false) (str_eq-nil d h))
nothing_behind d (c ∷ s) h e = cc

parents-behind_dot :
    (d s : Bytes) → is_empty d ≡ false → any (str_eq d) (parents s) ≡ behind_dot d s
unfolding parents behind_dot any
parents-behind_dot d [] h = refl
parents-behind_dot d (c ∷ s) h = go (c == b'.') (is_empty s) refl (parents-behind_dot d s h)
  where
    go :
        (dot stop : Bool)
        → is_empty s ≡ stop
        → any (str_eq d) (parents s) ≡ behind_dot d s
        → any (str_eq d) (if dot then (if stop then [] else s ∷ parents s) else parents s)
          ≡ ((dot && str_eq d s) || behind_dot d s)
    go true true e ih = nothing_behind d s h e
    go true false e ih = ap (λ (b : Bool). str_eq d s || b) ih
    go false stop e ih = ih

-- What the candidates of a host are for: a domain is one of them exactly when the normalized host is
-- the domain or ends in a dot and the domain.
pub is_under_candidates :
    (d host : Bytes)
    → is_empty d ≡ false
    → any (str_eq d) (generate_candidate_domains host) ≡ is_under d (normalize_host host)
unfolding any behind_dot is_empty
is_under_candidates d host h = elim (Bool-cases (is_empty (to_lower host))) [
  | inl e ↦
      rw (generate_candidate_domains_lem host, e, normalize_nil host e) (nothing_behind d [] h refl)
  | inr e ↦
      rw (generate_candidate_domains_lem host, e)
        (ap (λ (b : Bool). str_eq d (normalize_host host) || b)
          (parents-behind_dot d (normalize_host host) h))
]
