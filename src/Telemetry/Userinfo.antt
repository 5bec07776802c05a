-- ===== src/Telemetry/Userinfo.antt =====
-- The userinfo of a URL is taken out.
use mathlib.Core.Option
use thorium_frugal.Base.{
  subst, if_false, ℕ, suc, ◌+◌, ◌≤◌, ◌≡◌, refl, ap, ◌∙◌, sym, inl, inr, Bool, true, false, [], ◌∷◌,
  ◌++◌, Option, some, arith, Bytes, codes, ◌==◌, ltb, Option-cases, length, take, drop, drop_add,
  drop-append, take-append, append_assoc, length-append, Bool-cases,
}
use thorium_frugal.Text.{find, find_if}
use thorium_frugal.Text.Find.{Free, before, find_if_at, find_if-none, find_if_whole}
use thorium_frugal.Classifier.{authority_start}
use thorium_frugal.Classifier.Host.{authority, authority_lem, authority_start_scheme}
use thorium_frugal.Telemetry.{strip_userinfo}

find_if-append_left :
    (p : ℕ → Bool) (s t : Bytes)
    → Free p s
    → find_if p (s ++ t) ≡ Option.map (λ i. length s + i) (find_if p t)
unfolding find_if
find_if-append_left p [] t h = elim (Option-cases (find_if p t)) [
  | inl n ↦ rw n
  | inr (i, n) ↦ rw n (ap {B = Option ℕ} some (omega arith))
]
find_if-append_left p (c ∷ s) t (hc, h) =
    rw (hc, find_if-append_left p s t h)
      (elim (Option-cases (find_if p t)) [
        | inl n ↦ rw n
        | inr (i, n) ↦ rw n (ap {B = Option ℕ} some (omega arith))
      ])

module _ (scheme user rest : Bytes) (hs : Free (λ b. b == b':') scheme)
    (ha : Free (λ b. b == b'@') user) (hu : Free (λ b. b == b'/') user) where
  abbrev url : Bytes
  url = scheme ++ (codes "://" ++ (user ++ b'@' ∷ rest))

  at_start : drop (authority_start url) url ≡ user ++ b'@' ∷ rest
  at_start = unfold authority in authority_lem scheme (user ++ b'@' ∷ rest) hs

  find_at : find url b'@' (authority_start url) ≡ some (authority_start url + length user)
  unfolding find
  find_at = rw (at_start, find_if_at (λ b. b == b'@') user b'@' rest ha refl)

  find_slash :
      find url b'/' (authority_start url)
      ≡ Option.map
          (λ i. authority_start url + (length user + suc i))
          (find_if (λ b. b == b'/') rest)
  unfolding find
  find_slash =
      rw (at_start, find_if-append_left (λ b. b == b'/') user (b'@' ∷ rest) hu)
        (unfold find_if in
          elim (Option-cases (find_if (λ b. b == b'/') rest)) [ inl n ↦ rw n | inr (i, n) ↦ rw n ])

  cut_lem :
      take (authority_start url) url ++ drop (authority_start url + length user + 1) url
      ≡ scheme ++ (codes "://" ++ rest)
  cut_lem =
      ap (λ u. take (authority_start url) url ++ u) tail
      ∙ ap (λ u. u ++ rest) head
      ∙ append_assoc scheme (codes "://") rest
    where
      tail : drop (authority_start url + length user + 1) url ≡ rest
      tail =
          drop_add (authority_start url + length user) 1 url
          ∙ ap (drop 1) (
              drop_add (authority_start url) (length user) url
              ∙ ap (drop (length user)) at_start
              ∙ drop-append user (b'@' ∷ rest))

      head : take (authority_start url) url ≡ scheme ++ codes "://"
      head =
          let e : authority_start url ≡ length (scheme ++ codes "://") = omega (
            arith,
            authority_start_scheme scheme (user ++ b'@' ∷ rest) hs,
            length-append scheme (codes "://"),
          ) in
          rw e (
            ap (take (length (scheme ++ codes "://")))
              (sym (append_assoc scheme (codes "://") (user ++ b'@' ∷ rest)))
            ∙ take-append (scheme ++ codes "://") (user ++ b'@' ∷ rest))

  -- The userinfo of `scheme://user@rest` goes, and the rest of the URL stays.
  pub strip_userinfo_lem : strip_userinfo url ≡ scheme ++ (codes "://" ++ rest)
  unfolding strip_userinfo
  strip_userinfo_lem =
      rw (find_at, find_slash, strip_userinfo)
        (elim (Option-cases (find_if (λ b. b == b'/') rest)) [
          | inl n ↦ rw n cut_lem
          | inr (i, n) ↦
              let e : ltb (authority_start url + length user)
                    (authority_start url + (length user + suc i))
                  ≡ true =
                ground arith in
              rw (n, e) cut_lem
        ])

first_hit :
    (p q : ℕ → Bool) (s : Bytes) (i j : ℕ)
    → Free p (before q s)
    → find_if p s ≡ some i
    → find_if q s ≡ some j
    → j ≤ i
unfolding find_if before
first_hit p q [] i j h a b = cc
first_hit p q (c ∷ s) i j h a b = elim (Bool-cases (q c)) [
  | inl e ↦ ground arith
  | inr e ↦
      let (ec, hs) = subst (λ (u : Bytes). Free p u) (if_false _ _ _ e) h in
      elim (Option-cases (find_if p s)) [
        | inl n ↦ ground arith
        | inr (k, n) ↦ elim (Option-cases (find_if q s)) [
          | inl m ↦ ground arith
          | inr (l, m) ↦ let r = first_hit p q s k l hs n m in ground arith
        ]
      ]
]

-- A URL whose authority has no `@` before its first `/` is left as it is.
pub strip_userinfo_none :
    (link : Bytes)
    → Free (λ b. b == b'@') (before (λ b. b == b'/') (authority link))
    → strip_userinfo link ≡ link
unfolding strip_userinfo find authority
strip_userinfo_none link h =
    elim (Option-cases (find_if (λ b. b == b'@') (drop (authority_start link) link))) [
      | inl n ↦ rw (n, strip_userinfo)
      | inr (i, n) ↦
          elim (Option-cases (find_if (λ b. b == b'/') (drop (authority_start link) link))) [
            | inl m ↦
                let f = subst (Free (λ b. b == b'@')) (find_if-none _ _ m).0 h in
                let g = find_if_whole (λ b. b == b'@') _ f in absurd (ground arith)
            | inr (j, m) ↦
                let le = first_hit (λ b. b == b'@') (λ b. b == b'/') _ i j h n m in
                let e : ltb (authority_start link + i) (authority_start link + j) ≡ false =
                  ground arith in
                rw (n, m, e, strip_userinfo)
          ]
    ]
