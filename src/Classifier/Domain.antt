-- ===== src/Classifier/Domain.antt =====
-- `GetDomain`: the domain is a tail of the host's labels.
use thorium_frugal.Base.{
  subst, ℕ, zero, suc, ◌+◌, ◌-◌, ◌≤◌, ◌<◌, ◌≡◌, refl, ap, ◌∙◌, sym, ◌⊎◌, inl, inr, true, List, [],
  ◌∷◌, ◌++◌, arith, Bytes, codes, Bool-cases, str_eq, leb, length, drop, any, append_assoc,
}
use thorium_frugal.Text.{is_empty, to_lower, join, ends_with_byte}
use thorium_frugal.Text.Pieces.{split, split-fields, join-fields}
use thorium_frugal.Text.Lower.{is_empty_iff}
use thorium_frugal.Classifier.{
  get_domain, normalize_host, domain_of_parts, nth, is_local, two_part_tlds,
}

-- `d` is `h`, or what stands behind a dot of `h`.
abbrev pub IsParentDomain : Bytes → Bytes → Type 0
IsParentDomain d h = (h ≡ d) ⊎ ((pre : Bytes) × (h ≡ pre ++ b'.' ∷ d))

drop-nth : (i : ℕ) (ps : List Bytes) → i < length ps → drop i ps ≡ nth ps i ∷ drop (i + 1) ps
unfolding nth
drop-nth zero [] h = absurd (omega arith)
drop-nth zero (p ∷ ps) h = refl
drop-nth (suc i) [] h = absurd (omega arith)
drop-nth (suc i) (p ∷ ps) h =
    let e : suc i + 1 ≡ suc (i + 1) = omega arith in rw e (drop-nth i ps (omega arith))

drop_end : (i : ℕ) (ps : List Bytes) → length ps ≤ i → drop i ps ≡ []
drop_end zero [] h = refl
drop_end zero (p ∷ ps) h = absurd (omega arith)
drop_end (suc i) [] h = refl
drop_end (suc i) (p ∷ ps) h = drop_end i ps (omega arith)

drop-nth_to :
    (i j : ℕ) (ps : List Bytes) → i + 1 ≡ j → i < length ps → drop i ps ≡ nth ps i ∷ drop j ps
drop-nth_to i j ps e h = rw (← e) (drop-nth i ps h)

-- The last two labels, and the last three.
drop_two :
    (ps : List Bytes)
    → 2 ≤ length ps
    → drop (length ps - 2) ps ≡ nth ps (length ps - 2) ∷ nth ps (length ps - 1) ∷ []
drop_two ps h = cc (
  drop-nth_to (length ps - 2) (length ps - 1) ps (omega arith) (omega arith),
  drop-nth_to (length ps - 1) (length ps) ps (omega arith) (omega arith),
  drop_end (length ps) ps (omega arith),
)

drop_three :
    (ps : List Bytes)
    → 3 ≤ length ps
    → drop (length ps - 3) ps
      ≡ nth ps (length ps - 3) ∷ nth ps (length ps - 2) ∷ nth ps (length ps - 1) ∷ []
drop_three ps h = cc (
  drop-nth_to (length ps - 3) (length ps - 2) ps (omega arith) (omega arith),
  drop_two ps (omega arith),
)

join-append :
    (p q : Bytes) (ps qs : List Bytes)
    → join (codes ".") ((p ∷ ps) ++ q ∷ qs)
      ≡ join (codes ".") (p ∷ ps) ++ b'.' ∷ join (codes ".") (q ∷ qs)
unfolding join
join-append p q [] qs = refl
join-append p q (r ∷ ps) qs =
    rw (join-append r q ps qs) (sym (append_assoc p (b'.' ∷ join (codes ".") (r ∷ ps)) _))

-- The join of a tail of the labels is a parent domain of their join.
join-tail :
    (i : ℕ) (ps : List Bytes)
    → i < length ps
    → IsParentDomain (join (codes ".") (drop i ps)) (join (codes ".") ps)
join-tail zero ps h = inl refl
join-tail (suc i) [] h = absurd (omega arith)
join-tail (suc i) (p ∷ []) h = absurd (omega arith)
join-tail (suc i) (p ∷ q ∷ ps) h = elim (join-tail i (q ∷ ps) (omega arith)) [
  | inl e ↦ inr (p, unfold join in ap (λ (u : Bytes). p ++ b'.' ∷ u) e)
  | inr (pre, e) ↦ inr (
    p ++ b'.' ∷ pre,
    unfold join in ap (λ (u : Bytes). p ++ b'.' ∷ u) e ∙ sym (append_assoc p (b'.' ∷ pre) _),
  )
]

two_labels :
    (ps : List Bytes)
    → 2 ≤ length ps
    → IsParentDomain
        (nth ps (length ps - 2) ++ (codes "." ++ nth ps (length ps - 1)))
        (join (codes ".") ps)
unfolding join
two_labels ps h =
    subst (λ d. IsParentDomain d (join (codes ".") ps)) (ap (join (codes ".")) (drop_two ps h))
      (join-tail (length ps - 2) ps (omega arith))

three_labels :
    (ps : List Bytes)
    → 3 ≤ length ps
    → IsParentDomain
        (nth ps (length ps - 3)
          ++ (codes "." ++ (nth ps (length ps - 2) ++ (codes "." ++ nth ps (length ps - 1)))))
        (join (codes ".") ps)
unfolding join
three_labels ps h =
    subst (λ d. IsParentDomain d (join (codes ".") ps)) (ap (join (codes ".")) (drop_three ps h))
      (join-tail (length ps - 3) ps (omega arith))

domain_of_parts-IsParentDomain :
    (ps : List Bytes)
    → IsParentDomain (domain_of_parts (join (codes ".") ps) ps) (join (codes ".") ps)
unfolding domain_of_parts
domain_of_parts-IsParentDomain ps = elim (Bool-cases (leb (length ps) 2)) [
  | inl small ↦ rw small (inl refl)
  | inr large ↦
      elim (Bool-cases (
        any (str_eq (nth ps (length ps - 2) ++ (codes "." ++ nth ps (length ps - 1))))
          two_part_tlds)) [
            | inl tld ↦
                let e : leb 3 (length ps) ≡ true = ground arith in
                rw (large, tld, e) (three_labels ps (ground arith))
            | inr no_tld ↦ rw (large, no_tld) (two_labels ps (ground arith))
          ]
]

domain_of_split : (h : Bytes) → IsParentDomain (domain_of_parts h (split h b'.')) h
domain_of_split h =
    let e : join (codes ".") (split h b'.') ≡ h =
      ap (join (codes ".")) (split-fields h b'.') ∙ join-fields b'.' h in
    subst (λ u. IsParentDomain (domain_of_parts u (split h b'.')) u) e
      (domain_of_parts-IsParentDomain (split h b'.'))

pub normalize_nil : (host : Bytes) → is_empty (to_lower host) ≡ true → normalize_host host ≡ []
unfolding normalize_host ends_with_byte
normalize_nil host h = rw ((is_empty_iff (to_lower host)).0 h)

get_domain_cases :
    (P : Bytes → Type 0) (host : Bytes)
    → (is_empty (to_lower host) ≡ true → P [])
    → P (normalize_host host)
    → P (domain_of_parts (normalize_host host) (split (normalize_host host) b'.'))
    → P (get_domain host)
unfolding get_domain
get_domain_cases P host none local labels = elim (Bool-cases (is_empty (to_lower host))) [
  | inl e ↦ rw e (none e)
  | inr e ↦ elim (Bool-cases (is_local (normalize_host host))) [
    | inl l ↦ rw (e, l) local
    | inr l ↦ rw (e, l) labels
  ]
]

-- The domain of a host is the host in lower case without a last dot, or what stands behind one of
-- its dots.
pub get_domain-IsParentDomain :
    (host : Bytes) → IsParentDomain (get_domain host) (normalize_host host)
get_domain-IsParentDomain host =
    get_domain_cases (λ d. IsParentDomain d (normalize_host host)) host
      (λ e. inl (normalize_nil host e)) (inl refl) (domain_of_split (normalize_host host))
