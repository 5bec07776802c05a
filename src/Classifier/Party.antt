-- ===== src/Classifier/Party.antt =====
-- `Classify`: who is first party, same site and third party.
use thorium_frugal.Base.{
  ◌≡◌, ◌≢◌, ◌↔◌, refl, ap, ◌∙◌, sym, true, [], ◌∷◌, arith, Bytes, str_eq, str_eq_iff,
  Bool-eq_of_iff,
}
use thorium_frugal.Text.{is_empty, to_lower}
use thorium_frugal.Text.Lower.{is_empty_iff}
use thorium_frugal.Types.{same_site, third_party}
use thorium_frugal.Classifier.{extract_hostname, get_domain, classify_hosts, classify}
use thorium_frugal.Classifier.Host.{extract_hostname-to_lower}

str_eq_comm : (s t : Bytes) → str_eq s t ≡ str_eq t s
str_eq_comm s t = Bool-eq_of_iff (str_eq s t) (str_eq t s) (
  λ h. (str_eq_iff t s).1 (sym ((str_eq_iff s t).0 h)),
  λ h. (str_eq_iff s t).1 (sym ((str_eq_iff t s).0 h)),
)

extract_hostname-nil : (u : Bytes) → is_empty u ≡ true → is_empty (extract_hostname u) ≡ true
unfolding extract_hostname is_empty
extract_hostname-nil [] h = refl
extract_hostname-nil (c ∷ u) h = cc

-- An initiator with no text has no host, so the hosts alone decide.
classify-hosts :
    (target init : Bytes)
    → classify target init ≡ classify_hosts (extract_hostname target) (extract_hostname init)
unfolding classify classify_hosts
classify-hosts target init = ground (arith, extract_hostname-nil init)

-- The relation is symmetric: exchanging the request and the page changes nothing.
classify_symm : (target init : Bytes) → classify target init ≡ classify init target
classify_symm target init =
    classify-hosts target init
    ∙ hosts (extract_hostname target) (extract_hostname init)
    ∙ sym (classify-hosts init target)
  where
    hosts : (t i : Bytes) → classify_hosts t i ≡ classify_hosts i t
    hosts t i =
        unfold classify_hosts in
        ground (arith, str_eq_comm t i, str_eq_comm (get_domain t) (get_domain i))

-- A request is third party exactly when both hosts are there and their domains differ, and same site
-- exactly when both hosts are there and differ, and their domains are one. All else is first party.
pub classify_iff :
    (target init : Bytes)
    → let t = extract_hostname target in
      let i = extract_hostname init in
      ((classify target init ≡ third_party) ↔ ((t ≢ []) × (i ≢ []) × (get_domain t ≢ get_domain i)))
      × ((classify target init ≡ same_site)
          ↔ ((t ≢ []) × (i ≢ []) × (t ≢ i) × (get_domain t ≡ get_domain i)))
classify_iff target init =
    rw classify-hosts (hosts (extract_hostname target) (extract_hostname init))
  where
    hosts :
        (t i : Bytes)
        → ((classify_hosts t i ≡ third_party)
            ↔ ((t ≢ []) × (i ≢ []) × (get_domain t ≢ get_domain i)))
          × ((classify_hosts t i ≡ same_site)
              ↔ ((t ≢ []) × (i ≢ []) × (t ≢ i) × (get_domain t ≡ get_domain i)))
    hosts t i =
        unfold classify_hosts in
        ground (
          arith,
          is_empty_iff t,
          is_empty_iff i,
          str_eq_iff t i,
          str_eq_iff (get_domain t) (get_domain i),
          λ (e : t ≡ i). ap get_domain e,
        )

-- The case in which URLs are written does not matter.
pub classify-to_lower :
    (target init : Bytes) → classify (to_lower target) (to_lower init) ≡ classify target init
classify-to_lower target init =
    classify-hosts (to_lower target) (to_lower init)
    ∙ rw (extract_hostname-to_lower target, extract_hostname-to_lower init)
        (sym (classify-hosts target init))
