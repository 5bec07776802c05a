-- ===== src/Classifier/Host.antt =====
-- `ExtractHostname` against a description of a URL by its parts.
use thorium_frugal.Base.{
  zero, suc, ◌+◌, sym, ℕ, ◌≡◌, refl, ap, ◌∙◌, ◌⊎◌, inl, inr, Bool, true, [], ◌∷◌, ◌++◌, some, arith,
  Bytes, codes, ◌==◌, length, drop, drop-append, drop_add, any, append-nil,
}
use thorium_frugal.Text.{to_lower, tolower, find_str, find_first_of, starts_with, is_empty}
use thorium_frugal.Text.Find.{before, Free, before-append_left, before_whole}
use thorium_frugal.Text.Cut.{substr_to}
use thorium_frugal.Text.Lower.{before-to_lower, to_lower_idem, tolower-==}
use thorium_frugal.Classifier.{extract_hostname, authority_start}

-- The bytes that end a host.
abbrev pub ends_host : ℕ → Bool
ends_host b = any (λ c. b == c) (codes "/?#:")

-- What stands behind `://`, or the whole text.
unfoldable pub authority : Bytes → Bytes
authority url = drop (authority_start url) url

-- The host is what stands before the first of `/?#:` behind `://`, in lower case.
pub extract_hostname-authority :
    (url : Bytes) → extract_hostname url ≡ to_lower (before ends_host (authority url))
unfolding extract_hostname authority authority_start find_first_of
extract_hostname-authority [] = unfold is_empty before find_str starts_with to_lower in refl
extract_hostname-authority (c ∷ url) =
    unfold is_empty in ap to_lower (substr_to ends_host (c ∷ url) (authority_start (c ∷ url)))

-- No colon, so no `://`.
pub find_str_scheme :
    (scheme rest : Bytes)
    → Free (λ b. b == b':') scheme
    → find_str (scheme ++ (codes "://" ++ rest)) (codes "://") ≡ some (length scheme)
unfolding find_str starts_with
find_str_scheme [] rest h = refl
find_str_scheme (c ∷ s) rest (hc, h) = rw (hc, find_str_scheme s rest h)

pub authority_start_scheme :
    (scheme rest : Bytes)
    → Free (λ b. b == b':') scheme
    → authority_start (scheme ++ (codes "://" ++ rest)) ≡ length scheme + 3
unfolding authority_start
authority_start_scheme scheme rest h = rw (find_str_scheme scheme rest h, authority_start)

pub authority_lem :
    (scheme rest : Bytes)
    → Free (λ b. b == b':') scheme
    → authority (scheme ++ (codes "://" ++ rest)) ≡ rest
unfolding authority
authority_lem scheme rest h = rw (authority_start_scheme scheme rest h) (
    drop_add (length scheme) 3 (scheme ++ (codes "://" ++ rest))
    ∙ ap (drop 3) (drop-append scheme (codes "://" ++ rest)))

before_ended :
    (host rest : Bytes)
    → Free ends_host host
    → (rest ≡ []) ⊎ ((c : ℕ) × (r : Bytes) × (rest ≡ c ∷ r) × (ends_host c ≡ true))
    → before ends_host (host ++ rest) ≡ host
before_ended host rest h (inl e) = rw (e, append-nil) (before_whole ends_host host h)
before_ended host rest h (inr (c, r, e, t)) =
    before-append_left ends_host host rest h ∙ rw e (unfold before in rw t (append-nil host))

-- The host of `scheme://host…`, where the scheme has no colon, the host none of `/?#:`, and what
-- follows is empty or begins with one of these, is that host in lower case. What follows a `:` may be
-- a port as well as a password: `user:password@host` has the host `user`.
pub extract_hostname_of_parts :
    (scheme host rest : Bytes)
    → Free (λ b. b == b':') scheme
    → Free ends_host host
    → (rest ≡ []) ⊎ ((c : ℕ) × (r : Bytes) × (rest ≡ c ∷ r) × (ends_host c ≡ true))
    → extract_hostname (scheme ++ (codes "://" ++ (host ++ rest))) ≡ to_lower host
extract_hostname_of_parts scheme host rest hs hh hr =
    extract_hostname-authority _
    ∙ ap (λ (u : Bytes). to_lower (before ends_host u)) (authority_lem scheme (host ++ rest) hs)
    ∙ ap to_lower (before_ended host rest hh hr)

starts_with-to_lower :
    (s : Bytes) → starts_with (to_lower s) (codes "://") ≡ starts_with s (codes "://")
unfolding starts_with to_lower
starts_with-to_lower [] = refl
starts_with-to_lower (a ∷ []) = rw (tolower-== a b':' (omega arith))
starts_with-to_lower (a ∷ b ∷ []) =
    rw (tolower-== a b':' (omega arith), tolower-== b b'/' (omega arith))
starts_with-to_lower (a ∷ b ∷ c ∷ s) = rw (
  tolower-== a b':' (omega arith),
  tolower-== b b'/' (omega arith),
  tolower-== c b'/' (omega arith),
)

to_lower_cons : (c : ℕ) (s : Bytes) → to_lower (c ∷ s) ≡ tolower c ∷ to_lower s
unfolding to_lower
to_lower_cons c s = refl

drop-to_lower : (n : ℕ) (s : Bytes) → drop n (to_lower s) ≡ to_lower (drop n s)
unfolding to_lower
drop-to_lower zero s = refl
drop-to_lower (suc n) [] = refl
drop-to_lower (suc n) (c ∷ s) = drop-to_lower n s

ends_host-tolower : (c : ℕ) → ends_host (tolower c) ≡ ends_host c
ends_host-tolower c =
    unfold any in
    rw (
      tolower-== c b'/' (omega arith),
      tolower-== c b'?' (omega arith),
      tolower-== c b'#' (omega arith),
      tolower-== c b':' (omega arith),
    )

find_str_cons :
    (c d : ℕ) (s t pat : Bytes)
    → starts_with (c ∷ s) pat ≡ starts_with (d ∷ t) pat
    → find_str s pat ≡ find_str t pat
    → find_str (c ∷ s) pat ≡ find_str (d ∷ t) pat
unfolding find_str
find_str_cons c d s t pat h e = rw (h, e)

find_str-to_lower : (s : Bytes) → find_str (to_lower s) (codes "://") ≡ find_str s (codes "://")
find_str-to_lower [] = unfold to_lower in refl
find_str-to_lower (c ∷ s) = rw (to_lower_cons c s) (
    find_str_cons (tolower c) c (to_lower s) s _
      (ap (λ (u : Bytes). starts_with u (codes "://")) (sym (to_lower_cons c s))
        ∙ starts_with-to_lower (c ∷ s))
      (find_str-to_lower s))

authority_start-to_lower : (url : Bytes) → authority_start (to_lower url) ≡ authority_start url
unfolding authority_start
authority_start-to_lower url = rw (find_str-to_lower url, authority_start)

-- Two texts that differ in case have the same host.
pub extract_hostname-to_lower :
    (url : Bytes) → extract_hostname (to_lower url) ≡ extract_hostname url
extract_hostname-to_lower url =
    extract_hostname-authority (to_lower url)
    ∙ ap (λ (u : Bytes). to_lower (before ends_host u)) authority-to_lower
    ∙ ap to_lower (before-to_lower ends_host ends_host-tolower (authority url))
    ∙ to_lower_idem _
    ∙ sym (extract_hostname-authority url)
  where
    authority-to_lower : authority (to_lower url) ≡ to_lower (authority url)
    authority-to_lower = unfold authority in rw (authority_start-to_lower url) (drop-to_lower _ url)
