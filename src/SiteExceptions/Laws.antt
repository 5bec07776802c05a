-- ===== src/SiteExceptions/Laws.antt =====
-- Reads after writes, and what `HasException` says.
use thorium_frugal.Base.{
  ◌≡◌, ◌≢◌, ◌↔◌, refl, true, [], ◌∷◌, none, some, arith, Bytes, if◌then◌else◌, str_eq, str_eq_iff,
}
use thorium_frugal.SiteExceptions.{
  SitePolicyException, default, allow_all, block_all, Exceptions, erase, assign, find_exception,
  set_site_exception, get_site_exception, has_exception,
}

find-erase :
    (key k : Bytes) (m : Exceptions)
    → find_exception k (erase key m) ≡ (if str_eq key k then none else find_exception k m)
unfolding find_exception erase
find-erase key k [] = ground arith
find-erase key k ((j, e) ∷ m) =
    ground (arith, str_eq_iff key k, str_eq_iff j k, str_eq_iff j key, find-erase key k m)

find-assign :
    (key k : Bytes) (v : SitePolicyException) (m : Exceptions)
    → find_exception k (assign key v m) ≡ (if str_eq key k then some v else find_exception k m)
unfolding find_exception assign
find-assign key k v [] = refl
find-assign key k v ((j, e) ∷ m) =
    ground (arith, str_eq_iff key k, str_eq_iff j k, str_eq_iff j key, find-assign key k v m)

-- A read after a write: the value written for this host, the old one for any other. Writing the
-- default takes the entry out, and is read back as well.
pub get-set_site_exception :
    (m : Exceptions) (host k : Bytes) (e : SitePolicyException)
    → get_site_exception (set_site_exception m host e) k
      ≡ (if str_eq host k then e else get_site_exception m k)
unfolding set_site_exception get_site_exception
get-set_site_exception m host k default = ground (arith, find-erase host k m)
get-set_site_exception m host k allow_all = ground (arith, find-assign host k allow_all m)
get-set_site_exception m host k block_all = ground (arith, find-assign host k block_all m)

-- The table holds no default.
abbrev pub IsNormal : Exceptions → Type 0
IsNormal m = (k : Bytes) → find_exception k m ≢ some default

pub set_site_exception-IsNormal :
    (m : Exceptions) (host : Bytes) (e : SitePolicyException)
    → IsNormal m
    → IsNormal (set_site_exception m host e)
unfolding set_site_exception
set_site_exception-IsNormal m host default h k = ground (arith, find-erase host k m, h k)
set_site_exception-IsNormal m host allow_all h k =
    ground (arith, find-assign host k allow_all m, h k)
set_site_exception-IsNormal m host block_all h k =
    ground (arith, find-assign host k block_all m, h k)

-- After any write to a table with no defaults, a host has an exception exactly when the policy read
-- for it is not the default.
pub has-set_site_exception :
    (m : Exceptions) (host k : Bytes) (e : SitePolicyException)
    → IsNormal m
    → (has_exception (set_site_exception m host e) k ≡ true)
      ↔ (get_site_exception (set_site_exception m host e) k ≢ default)
unfolding has_exception get_site_exception
has-set_site_exception m host k e h = grind (arith, set_site_exception-IsNormal m host e h k)
