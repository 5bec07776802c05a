-- ===== src/Classifier.antt =====
-- third_party_classifier/third_party_classifier.cc: the host of a URL, the registrable domain of a
-- host, and the relation of a request to the page that makes it.
pub mod Host
pub mod Domain
pub mod Subdomain
pub mod Party
use mathlib.Core.Option
use thorium_frugal.Base.{
  ℕ, zero, suc, ◌+◌, ◌-◌, ◌≡◌, refl, Bool, true, ◌||◌, List, [], ◌∷◌, ◌++◌, map, none, some, Bytes,
  codes, if◌then◌else◌, str_eq, any, length, leb,
}
use thorium_frugal.Text.{
  to_lower, find_str, find_first_of, substr, is_empty, ends_with_byte, pop_back,
}
use thorium_frugal.Text.Pieces.{split}
use thorium_frugal.Types.{PartyContext, first_party, same_site, third_party}

-- `GetTwoPartTlds`.
unfoldable pub two_part_tlds : List Bytes
two_part_tlds =
    codes "co.uk"
    ∷ codes "org.uk"
    ∷ codes "gov.uk"
    ∷ codes "ac.uk"
    ∷ codes "me.uk"
    ∷ codes "net.uk"
    ∷ codes "com.au"
    ∷ codes "net.au"
    ∷ codes "org.au"
    ∷ codes "edu.au"
    ∷ codes "gov.au"
    ∷ codes "co.jp"
    ∷ codes "ne.jp"
    ∷ codes "ac.jp"
    ∷ codes "go.jp"
    ∷ codes "or.jp"
    ∷ codes "co.nz"
    ∷ codes "net.nz"
    ∷ codes "org.nz"
    ∷ codes "govt.nz"
    ∷ codes "co.za"
    ∷ codes "org.za"
    ∷ codes "net.za"
    ∷ codes "gov.za"
    ∷ codes "com.br"
    ∷ codes "org.br"
    ∷ codes "net.br"
    ∷ codes "gov.br"
    ∷ codes "com.cn"
    ∷ codes "net.cn"
    ∷ codes "org.cn"
    ∷ codes "gov.cn"
    ∷ codes "co.in"
    ∷ codes "net.in"
    ∷ codes "org.in"
    ∷ codes "gen.in"
    ∷ codes "firm.in"
    ∷ codes "ind.in"
    ∷ codes "co.kr"
    ∷ codes "ne.kr"
    ∷ codes "or.kr"
    ∷ codes "re.kr"
    ∷ codes "gc.ca"
    ∷ codes "on.ca"
    ∷ codes "qc.ca"
    ∷ []

-- The position behind `://`, or 0.
unfoldable pub authority_start : Bytes → ℕ
authority_start url = elim (find_str url (codes "://")) [ none ↦ 0 | some i ↦ i + 3 ]

unfoldable pub extract_hostname : Bytes → Bytes
extract_hostname url =
    if is_empty url
    then []
    else let start = authority_start url in
      let end = Option.get_or (find_first_of url (codes "/?#:") start) (length url) in
      to_lower (substr url start (end - start))

-- `parts[i]`.
nth : List Bytes → ℕ → Bytes
nth [] i = []
nth (p ∷ ps) zero = p
nth (p ∷ ps) (suc i) = nth ps i

-- The last lines of `GetDomain`, on the labels of the host.
domain_of_parts : Bytes → List Bytes → Bytes
domain_of_parts host parts =
    let n = length parts in
    let two_part = nth parts (n - 2) ++ (codes "." ++ nth parts (n - 1)) in
    if leb n 2
    then host
    else if any (str_eq two_part) two_part_tlds
    then (if leb 3 n then nth parts (n - 3) ++ (codes "." ++ two_part) else host)
    else two_part

-- A host in lower case, without one trailing dot.
unfoldable pub normalize_host : Bytes → Bytes
normalize_host host =
    let lower = to_lower host in if ends_with_byte lower b'.' then pop_back lower else lower

unfoldable pub is_local : Bytes → Bool
is_local host =
    str_eq host (codes "localhost") || str_eq host (codes "127.0.0.1") || str_eq host (codes "::1")

unfoldable pub get_domain : Bytes → Bytes
unfolding is_local domain_of_parts nth two_part_tlds
get_domain hostname =
    if is_empty (to_lower hostname)
    then []
    else let host = normalize_host hostname in
      if is_local host then host else domain_of_parts host (split host b'.')

classify_hosts : Bytes → Bytes → PartyContext
classify_hosts target_host init_host =
    if is_empty target_host || is_empty init_host
    then first_party
    else if str_eq target_host init_host
    then first_party
    else if str_eq (get_domain target_host) (get_domain init_host)
    then same_site
    else third_party

unfoldable pub classify : Bytes → Bytes → PartyContext
unfolding classify_hosts
classify target_url initiator_origin =
    if is_empty initiator_origin
    then first_party
    else classify_hosts (extract_hostname target_url) (extract_hostname initiator_origin)
