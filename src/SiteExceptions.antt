-- ===== src/SiteExceptions.antt =====
-- privacy_policy/site_exceptions.h: the per-site policies, a hash map from host or domain. The mutex
-- guards each method whole.
pub mod Laws
use thorium_frugal.Base.{
  Bool, true, false, List, [], ◌∷◌, Option, none, some, Bytes, if◌then◌else◌, str_eq,
}

pub data SitePolicyException : Type 0 where
  default allow_all block_all : SitePolicyException

abbrev pub Exceptions : Type 0
Exceptions = List (Bytes × SitePolicyException)

unfoldable pub erase : Bytes → Exceptions → Exceptions
erase key [] = []
erase key ((k, e) ∷ m) = if str_eq k key then erase key m else (k, e) ∷ erase key m

-- `exceptions_[key] = value`.
unfoldable pub assign : Bytes → SitePolicyException → Exceptions → Exceptions
assign key value [] = (key, value) ∷ []
assign key value ((k, e) ∷ m) = if str_eq k key then (k, value) ∷ m else (k, e) ∷ assign key value m

unfoldable pub find_exception : Bytes → Exceptions → Option SitePolicyException
find_exception key [] = none
find_exception key ((k, e) ∷ m) = if str_eq k key then some e else find_exception key m

unfoldable pub set_site_exception : Exceptions → Bytes → SitePolicyException → Exceptions
unfolding erase assign
set_site_exception m host default = erase host m
set_site_exception m host allow_all = assign host allow_all m
set_site_exception m host block_all = assign host block_all m

unfoldable pub get_site_exception : Exceptions → Bytes → SitePolicyException
unfolding find_exception
get_site_exception m host = elim (find_exception host m) [ some e ↦ e | none ↦ default ]

unfoldable pub has_exception : Exceptions → Bytes → Bool
unfolding find_exception
has_exception m host = elim (find_exception host m) [ some e ↦ true | none ↦ false ]

unfoldable pub clear_exceptions : Exceptions → Exceptions
clear_exceptions m = []
