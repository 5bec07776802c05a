-- ===== src/Tests.antt =====
-- Inputs at which the theorems are applied, and what the applications share.
mod Urls
mod Rules
mod Races
mod Manager
mod Transport
mod Adapter
mod Throttles
mod DomainRules
mod Interleaving
mod Values
mod Envelopes
mod Secrets
mod UnitRules
mod UnitManager
use thorium_frugal.Base.{
  ◌==◌, ℕ, ◌≡◌, refl, Bool, true, false, ◌||◌, List, [], ◌∷◌, Bytes, codes, any, Bool-cases, inl,
  inr, arith, All,
}
use thorium_frugal.Text.Find.{Free}
use thorium_frugal.RuleParser.{ParsedRule, parse_text}
use thorium_frugal.RuleDatabase.{RuleDatabase, empty_database, load_from_text}
use thorium_frugal.RuleDatabase.Index.{Represents}
use thorium_frugal.RuleDatabase.Capacity.{accept_all, clear-Represents, load_from_text-Represents}

-- A search that says that no byte passes the test.
pub free : (p : ℕ → Bool) (s : Bytes) → any p s ≡ false → Free p s
unfolding any
free p [] h = tt
free p (c ∷ s) h = elim (Bool-cases (p c)) [
  | inl e ↦ ground arith
  | inr e ↦ (e, free p s (ground arith))
]

pub lacks : (c : ℕ) (s : Bytes) → any (λ b. b == c) s ≡ false → Free (λ b. b == c) s
lacks c s h = free (λ b. b == c) s h

abbrev pub tracker_url : Bytes
tracker_url = codes "https://t.ads.com/pixel?utm_source=x&id=7#top"

abbrev pub page : Bytes
page = codes "https://news.example.org"

abbrev pub rules_text : Bytes
rules_text = codes "||ads.com^$third-party\n@@||ok.ads.com^"

abbrev pub database : RuleDatabase
database = (load_from_text empty_database rules_text).0

abbrev pub rules : List ParsedRule
rules = accept_all [] (parse_text rules_text)

pub database-Represents : Represents database rules
database-Represents =
    (load_from_text-Represents empty_database [] rules_text (clear-Represents empty_database).0).0
