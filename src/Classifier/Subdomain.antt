-- ===== src/Classifier/Subdomain.antt =====
-- `GetDomain` of a subdomain is that of the domain above it.
use thorium_frugal.Base.{
  ℕ, suc, ◌-◌, ◌≤◌, ◌≡◌, refl, ap, ◌∙◌, inl, inr, Bool, true, false, List, [], ◌∷◌, ◌++◌, arith,
  Bytes, codes, ◌==◌, Bool-cases, str_eq, leb, length, any, append-nil, if◌then◌else◌,
}
use thorium_frugal.Text.{is_empty, to_lower, tolower, join, ends_with_byte, pop_back}
use thorium_frugal.Text.Find.{Free, before-append_left, after-append_left, before, after}
use thorium_frugal.Text.Lower.{to_lower-append, to_lower-Free, tolower-==}
use thorium_frugal.Text.Pieces.{split, fields, split-fields, join-fields, fields_cut}
use thorium_frugal.Classifier.{
  get_domain, normalize_host, domain_of_parts, nth, is_local, two_part_tlds,
}
use thorium_frugal.Classifier.Domain.{normalize_nil}

abbrev is_dot : ℕ → Bool
is_dot = λ b. b == b'.'

ends_with_byte-dot :
    (l : Bytes) (c : ℕ) (t : Bytes) (b : ℕ)
    → ends_with_byte (l ++ b'.' ∷ c ∷ t) b ≡ ends_with_byte (c ∷ t) b
unfolding ends_with_byte
ends_with_byte-dot [] c t b = refl
ends_with_byte-dot (d ∷ []) c t b = refl
ends_with_byte-dot (d ∷ e ∷ l) c t b = ends_with_byte-dot (e ∷ l) c t b

pop_back-dot :
    (l : Bytes) (c : ℕ) (t : Bytes) → pop_back (l ++ b'.' ∷ c ∷ t) ≡ l ++ b'.' ∷ pop_back (c ∷ t)
unfolding pop_back
pop_back-dot [] c t = refl
pop_back-dot (d ∷ []) c t = refl
pop_back-dot (d ∷ e ∷ l) c t = ap (◌∷◌ d) (pop_back-dot (e ∷ l) c t)

without_last_dot : Bytes → Bytes
without_last_dot s = if ends_with_byte s b'.' then pop_back s else s

without_last_dot-cons :
    (l t : Bytes)
    → is_empty t ≡ false
    → without_last_dot (l ++ b'.' ∷ t) ≡ l ++ b'.' ∷ without_last_dot t
unfolding without_last_dot is_empty
without_last_dot-cons l [] h = cc
without_last_dot-cons l (c ∷ t) h =
    rw (ends_with_byte-dot l c t b'.', pop_back-dot l c t) (go (ends_with_byte (c ∷ t) b'.'))
  where
    go :
        (b : Bool)
        → (if b then l ++ b'.' ∷ pop_back (c ∷ t) else l ++ b'.' ∷ c ∷ t)
          ≡ l ++ b'.' ∷ (if b then pop_back (c ∷ t) else c ∷ t)
    go true = refl
    go false = refl

normalize_host-cons :
    (label host : Bytes)
    → is_empty (to_lower host) ≡ false
    → normalize_host (label ++ b'.' ∷ host) ≡ to_lower label ++ b'.' ∷ normalize_host host
unfolding normalize_host without_last_dot to_lower tolower
normalize_host-cons label host h =
    ap without_last_dot (to_lower-append label (b'.' ∷ host))
    ∙ without_last_dot-cons (to_lower label) (to_lower host) h

fields-cons :
    (label rest : Bytes)
    → Free is_dot label
    → fields b'.' (label ++ b'.' ∷ rest) ≡ label ∷ fields b'.' rest
fields-cons label rest h =
    fields_cut b'.' (label ++ b'.' ∷ rest) b'.' rest
      (after-append_left is_dot label (b'.' ∷ rest) h ∙ unfold after in refl)
    ∙ ap (λ (v : Bytes). v ∷ fields b'.' rest)
        (before-append_left is_dot label (b'.' ∷ rest) h ∙ unfold before in append-nil label)

-- One label more in front, on the labels.
domain_of_parts-cons :
    (h p : Bytes) (ps : List Bytes)
    → 2 ≤ length ps
    → any (str_eq (join (codes ".") ps)) two_part_tlds ≡ false
    → domain_of_parts h (p ∷ ps) ≡ domain_of_parts (join (codes ".") ps) ps
unfolding domain_of_parts nth join
domain_of_parts-cons h p [] le no_tld = absurd (omega arith)
domain_of_parts-cons h p (a ∷ []) le no_tld = absurd (omega arith)
domain_of_parts-cons h p (a ∷ b ∷ []) le no_tld = rw no_tld refl
domain_of_parts-cons h p (a ∷ b ∷ c ∷ ps) le no_tld =
    let k = length ps in
    let m2 : suc (suc (suc (suc k))) - 2 ≡ suc (suc k) = omega arith in
    let m1 : suc (suc (suc (suc k))) - 1 ≡ suc (suc (suc k)) = omega arith in
    let m3 : suc (suc (suc (suc k))) - 3 ≡ suc k = omega arith in
    let n2 : suc (suc (suc k)) - 2 ≡ suc k = omega arith in
    let n1 : suc (suc (suc k)) - 1 ≡ suc (suc k) = omega arith in
    let n3 : suc (suc (suc k)) - 3 ≡ k = omega arith in
    let more : leb (suc (suc (suc (suc k)))) 2 ≡ false = ground arith in
    let three : leb (suc (suc (suc k))) 2 ≡ false = ground arith in
    let some_more : leb 3 (suc (suc (suc (suc k)))) ≡ true = ground arith in
    let enough : leb 3 (suc (suc (suc k))) ≡ true = ground arith in
    rw (more, three, some_more, enough, m1, m2, m3, n1, n2, n3) refl

dotted : (label host : Bytes) → is_empty (to_lower (label ++ b'.' ∷ host)) ≡ false
unfolding is_empty to_lower
dotted [] host = refl
dotted (c ∷ label) host = refl

no_labels : (h : Bytes) → h ≡ [] → 2 ≤ length (split h b'.') → ⊥
unfolding fields
no_labels h e two =
    let one : length (split h b'.') ≡ 1 = rw e (ap (length {A = Bytes}) (split-fields [] b'.')) in
    absurd (omega arith)

-- A label in front, without dots, of a host of at least two labels does not change the domain. Neither
-- host is one of the local names, and the one without the label is no two-part TLD.
pub get_domain-subdomain :
    (label host : Bytes)
    → Free is_dot label
    → 2 ≤ length (split (normalize_host host) b'.')
    → any (str_eq (normalize_host host)) two_part_tlds ≡ false
    → is_local (normalize_host host) ≡ false
    → is_local (normalize_host (label ++ b'.' ∷ host)) ≡ false
    → get_domain (label ++ b'.' ∷ host) ≡ get_domain host
unfolding get_domain
get_domain-subdomain label host free two no_tld own sub =
    elim (Bool-cases (is_empty (to_lower host))) [
      | inl e ↦ absurd (no_labels (normalize_host host) (normalize_nil host e) two)
      | inr e ↦
          rw (dotted label host, sub, e, own, split-fields (normalize_host host) b'.')
            (ap (λ (h : Bytes). domain_of_parts h (split h b'.')) (normalize_host-cons label host e)
              ∙ ap (domain_of_parts (to_lower label ++ b'.' ∷ normalize_host host)) (
                  split-fields (to_lower label ++ b'.' ∷ normalize_host host) b'.'
                  ∙ fields-cons (to_lower label) (normalize_host host) lower_free)
              ∙ domain_of_parts-cons _ (to_lower label) (fields b'.' (normalize_host host))
                  (rw (← split-fields (normalize_host host) b'.') two)
                  (rw (join-fields b'.' (normalize_host host)) no_tld)
              ∙ ap (λ (h : Bytes). domain_of_parts h (fields b'.' (normalize_host host)))
                  (join-fields b'.' (normalize_host host)))
    ]
  where
    lower_free : Free is_dot (to_lower label)
    lower_free = to_lower-Free is_dot (λ c. tolower-== c b'.' (omega arith)) label free
