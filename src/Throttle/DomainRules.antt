-- ===== src/Throttle/DomainRules.antt =====
-- What two printed rules do: a block rule for a domain, and an allow rule for another.
use thorium_frugal.Base.{
  ◌≤◌, ◌≡◌, refl, ap, ◌∙◌, sym, Bool, true, false, not, ◌&&◌, ◌||◌, List, [], ◌∷◌, none, arith,
  Bytes, length, any, any_congr, any-false, str_eq, if◌then◌else◌,
}
use thorium_frugal.Text.{to_lower, is_empty}
use thorium_frugal.Types.{ResourceType, PartyContext, is_block}
use thorium_frugal.Classifier.{extract_hostname, normalize_host, classify}
use thorium_frugal.RuleParser.{ParsedRule, RuleType, allow, block}
use thorium_frugal.RuleParser.DomainRule.{IsDomain, rule_text, domain_rule, parse_text-rule}
use thorium_frugal.RuleParser.Mask.{matches_all}
use thorium_frugal.RuleDatabase.{generate_candidate_domains, matches_path_and_options, max_rules}
use thorium_frugal.RuleDatabase.Index.{same_kind, in_bucket, in_generic}
use thorium_frugal.RuleDatabase.Under.{is_under, str_eq-nil, is_under_candidates}
use thorium_frugal.RuleDatabase.Lookup.{covers, applies}
use thorium_frugal.TrackerBlocker.{extract_path, is_applicable}
use thorium_frugal.PolicyManager.{PrivacyPolicyManager, is_allow_all, page_policy, evaluate_request}
use thorium_frugal.Throttle.{ResourceRequest}
use thorium_frugal.Throttle.Cancels.{refuses}
use thorium_frugal.Throttle.FilterLists.{rules_of, with_lists, filter_lists_lem}

abbrev among_candidates : Bytes → Bytes → Bool
among_candidates d host = any (str_eq d) (generate_candidate_domains host)

key_lem : (d c : Bytes) → is_empty d ≡ false → (not (is_empty c) && str_eq d c) ≡ str_eq d c
unfolding is_empty
key_lem d [] h = sym (str_eq-nil d h)
key_lem d (b ∷ c) h = refl

each :
    (d c first : Bytes)
    → is_empty d ≡ false
    → ((not (is_empty c) && str_eq d c) && (str_eq c first || true)) ≡ str_eq d c
each d c first h = ap (λ (b : Bool). b && (str_eq c first || true)) (key_lem d c h) ∙ ground arith

tail : (x y : Bool) → x ≡ y → ((x || false) && true) ≡ y
tail x y e = ground arith

-- What a rule for a domain applies to: its kind decides, and whether the host is under the domain.
rule-applies :
    (kind : RuleType) (allowed same : Bool) (d host path : Bytes)
    → IsDomain d
    → same_kind (if allowed then allow else block) kind ≡ same
    → applies kind host path (domain_rule allowed d) ≡ (same && among_candidates d host)
unfolding applies covers in_bucket in_generic matches_path_and_options is_empty
rule-applies kind allowed true d host path h e =
    rw (e, h.low, h.named)
      (tail _ _ (any_congr (λ c. each d c _ h.named) (generate_candidate_domains host)))
rule-applies kind allowed false d host path h e =
    rw e (tail _ _ (any-false (generate_candidate_domains host)))

rule-is_applicable :
    (allowed : Bool) (d : Bytes) (type : ResourceType) (party : PartyContext)
    → is_applicable type party (domain_rule allowed d) ≡ true
unfolding is_applicable
rule-is_applicable allowed d type party = rw (matches_all type) refl

-- The empty host is under no domain.
under_host :
    (d s host : Bytes)
    → (not (is_empty host) && (not (among_candidates s host) && among_candidates d host))
      ≡ (not (among_candidates s host) && among_candidates d host)
unfolding is_empty generate_candidate_domains to_lower any
under_host d s [] = refl
under_host d s (c ∷ host) = refl

bools : (x y : Bool) → (not ((x && true) || false) && ((y && true) || false)) ≡ (not x && y)
bools x y = ground arith

two_rules :
    (d s host path : Bytes) (type : ResourceType) (party : PartyContext)
    → IsDomain d
    → IsDomain s
    → (not (
          any
            (λ r. applies allow host path r && is_applicable type party r)
            (domain_rule false d ∷ domain_rule true s ∷ []))
        && any
            (λ r. applies block host path r && is_applicable type party r)
            (domain_rule false d ∷ domain_rule true s ∷ []))
      ≡ (not (among_candidates s host) && among_candidates d host)
unfolding any
two_rules d s host path type party hd hs =
    rw
      (
        rule-applies allow false false d host path hd refl,
        rule-applies allow true true s host path hs refl,
        rule-applies block false true d host path hd refl,
        rule-applies block true false s host path hs refl,
        rule-is_applicable false d type party,
        rule-is_applicable true s type party,
      )
      (bools (among_candidates s host) (among_candidates d host))

module _ (d s : Bytes) (hd : IsDomain d) (hs : IsDomain s) where
  abbrev pub two_texts : List Bytes
  two_texts = rule_text false d ∷ rule_text true s ∷ []

  two_texts-rules : rules_of two_texts ≡ domain_rule false d ∷ domain_rule true s ∷ []
  two_texts-rules = rw (parse_text-rule false d hd, parse_text-rule true s hs) refl

  -- With the two lists `||d^` and `@@||s^`, for domains in lower case of at most 1000 bytes without `/`,
  -- `$` and line ends: a request is blocked exactly when protection is on, the page has no `kAllowAll`
  -- policy, and the normalized host of the request is `d` or ends in a dot and `d`, but neither is `s`
  -- nor ends in a dot and `s`. The type of the request and its party play no part.
  pub domain_rules_lem :
      (m : PrivacyPolicyManager) (now target init : Bytes) (type : ResourceType)
      → is_block (evaluate_request (with_lists m two_texts) now target init type).0.decision ≡ (
          m.enabled
          && (not (is_allow_all (page_policy m init))
              && (not (is_under s (normalize_host (extract_hostname target)))
                  && is_under d (normalize_host (extract_hostname target)))))
  domain_rules_lem m now target init type =
      let any_request : ResourceRequest Bytes (λ u. u) (λ u. u) = record {
        url = target;
        request_initiator = none;
        resource_type = 0;
      } in
      let fits : length (rules_of two_texts) ≤ max_rules = rw two_texts-rules (omega arith) in
      let host = extract_hostname target in
      (filter_lists_lem m two_texts Bytes (λ u. u) (λ u. u) now target init type any_request fits).0
      ∙ ap (λ (rs : List ParsedRule). refuses m.enabled (page_policy m init) rs target init type)
          two_texts-rules
      ∙ ap (λ (b : Bool). m.enabled && (not (is_allow_all (page_policy m init)) && b))
          (ap (λ (b : Bool). not (is_empty host) && b)
              (two_rules d s host (extract_path target) type (classify target init) hd hs)
            ∙ under_host d s host
            ∙ rw (is_under_candidates d host hd.named, is_under_candidates s host hs.named) refl)
