-- ===== src/RuleDatabase/Lookup.antt =====
-- The indexed lookups find what a scan over all accepted rules would find.
use thorium_frugal.Base.{
  ◌≡◌, ap, ◌∙◌, sym, Bool, ◌&&◌, ◌||◌, List, [], ◌∷◌, arith, Bytes, str_eq, select, any, any-append,
  any-select, any-or, any_congr, any-false,
}
use thorium_frugal.RuleParser.{ParsedRule, RuleType, block, allow}
use thorium_frugal.RuleDatabase.{
  Buckets, RuleDatabase, bucket, bucket_matches, domain_matches, first_of, find_matching,
  generate_candidate_domains, find_matching_allow_rules, find_matching_block_rules,
  is_known_tracker_host, matches_path_and_options,
}
use thorium_frugal.RuleDatabase.Index.{Represents, in_bucket, in_generic}

-- The rule is for this domain: the host's own, or one above it that the rule's subdomains reach.
abbrev reaches : RuleType → Bytes → Bytes → ParsedRule → Bool
reaches kind first d r = in_bucket kind d r && (str_eq d first || r.match_subdomains)

-- The rule covers a host: its domain is one of the candidates.
unfoldable pub covers : RuleType → Bytes → ParsedRule → Bool
unfolding first_of
covers kind host r =
    let candidates = generate_candidate_domains host in
    any (λ d. reaches kind (first_of candidates) d r) candidates

-- The rule applies to a request: it covers the host, or has no domain, and the path has its pattern.
unfoldable pub applies : RuleType → Bytes → Bytes → ParsedRule → Bool
applies kind host path r =
    (covers kind host r || in_generic kind r) && matches_path_and_options r path

module _ (kind : RuleType) (m : Buckets) (rules : List ParsedRule)
    (index : (key : Bytes) → bucket key m ≡ select (in_bucket kind key) rules) (first path : Bytes)
    (p : ParsedRule → Bool) where
  bucket_lem :
      (d : Bytes)
      → any p (bucket_matches m first path d)
        ≡ any (λ r. reaches kind first d r && (matches_path_and_options r path && p r)) rules
  unfolding bucket_matches
  bucket_lem d =
      any-select p _ (bucket d m)
      ∙ rw (index d) (any-select _ (in_bucket kind d) rules ∙ any_congr (λ r. ground arith) rules)

  domains_lem :
      (ds : List Bytes)
      → any p (domain_matches m first path ds)
        ≡ any
            (λ r. any (λ d. reaches kind first d r) ds && (matches_path_and_options r path && p r))
            rules
  unfolding domain_matches
  domains_lem [] = unfold any in sym (any-false rules)
  domains_lem (d ∷ ds) =
      any-append p (bucket_matches m first path d) (domain_matches m first path ds)
      ∙ rw (bucket_lem d, domains_lem ds)
          (sym (any-or _ _ rules) ∙ any_congr (λ r. distribute d ds r) rules)
    where
      distribute :
          (d : Bytes) (ds : List Bytes) (r : ParsedRule)
          → ((reaches kind first d r && (matches_path_and_options r path && p r))
              || (any (λ d. reaches kind first d r) ds && (matches_path_and_options r path && p r)))
            ≡ (any (λ d. reaches kind first d r) (d ∷ ds)
                && (matches_path_and_options r path && p r))
      distribute d ds r = unfold any in ground arith

find_matching_lem :
    (kind : RuleType) (m : Buckets) (generic rules : List ParsedRule)
    → ((key : Bytes) → bucket key m ≡ select (in_bucket kind key) rules)
    → generic ≡ select (in_generic kind) rules
    → (host path : Bytes) (p : ParsedRule → Bool)
    → any p (find_matching m generic host path) ≡ any (λ r. applies kind host path r && p r) rules
unfolding find_matching applies covers
find_matching_lem kind m generic rules index gen host path p =
    let candidates = generate_candidate_domains host in
    any-append p (domain_matches m (first_of candidates) path candidates) _
    ∙ rw (domains_lem kind m rules index (first_of candidates) path p candidates, gen)
        (rw
          (
            any-select p (λ rule. matches_path_and_options rule path)
                (select (in_generic kind) rules),
            any-select (λ x. matches_path_and_options x path && p x) (in_generic kind) rules,
          )
          (sym (any-or _ _ rules) ∙ any_congr (λ r. ground arith) rules))

-- In a database that represents a list of accepted rules: for every test, some rule that
-- `FindMatchingAllowRules` returns passes it exactly when some accepted rule that applies to the
-- host and the path does; the same for block rules. So the index misses no rule and adds none.
pub find_matching-any :
    (db : RuleDatabase) (rules : List ParsedRule) (host path : Bytes) (p : ParsedRule → Bool)
    → Represents db rules
    → (any p (find_matching_allow_rules db host path)
        ≡ any (λ r. applies allow host path r && p r) rules)
      × (any p (find_matching_block_rules db host path)
          ≡ any (λ r. applies block host path r && p r) rules)
unfolding find_matching_allow_rules find_matching_block_rules
find_matching-any db rules host path p v = (
  find_matching_lem allow db.allow_rules_by_domain db.generic_allow_rules rules v.allow_index
      v.allow_generic host path p,
  find_matching_lem block db.block_rules_by_domain db.generic_block_rules rules v.block_index
      v.block_generic host path p,
)

-- The scan of the block index for one host.
known_in : Buckets → Bytes → List Bytes → Bool
known_in m first =
    any (λ domain. any (λ rule. str_eq domain first || rule.match_subdomains) (bucket domain m))

known_in_lem :
    (db : RuleDatabase) (rules : List ParsedRule)
    → Represents db rules
    → (first : Bytes) (ds : List Bytes)
    → known_in db.block_rules_by_domain first ds
      ≡ any (λ r. any (λ d. reaches block first d r) ds) rules
unfolding known_in any
known_in_lem db rules v first [] = sym (any-false rules)
known_in_lem db rules v first (d ∷ ds) =
    ap (λ (b : Bool). b || known_in db.block_rules_by_domain first ds) here
    ∙ ap (λ (b : Bool). any (λ r. reaches block first d r) rules || b)
        (known_in_lem db rules v first ds)
    ∙ sym (any-or (λ r. reaches block first d r) (λ r. any (λ d. reaches block first d r) ds) rules)
  where
    here :
        any (λ rule. str_eq d first || rule.match_subdomains) (bucket d db.block_rules_by_domain)
        ≡ any (λ r. reaches block first d r) rules
    here =
        ap (any (λ rule. str_eq d first || rule.match_subdomains)) (v.block_index d)
        ∙ any-select (λ rule. str_eq d first || rule.match_subdomains) (in_bucket block d) rules

-- In a database that represents a list of accepted rules, a host is a known tracker exactly when
-- some accepted block rule covers it, whatever its path and options.
is_known_tracker_host-any :
    (db : RuleDatabase) (rules : List ParsedRule) (host : Bytes)
    → Represents db rules
    → is_known_tracker_host db host ≡ any (covers block host) rules
unfolding is_known_tracker_host covers known_in
is_known_tracker_host-any db rules host v =
    let candidates = generate_candidate_domains host in
    known_in_lem db rules v (first_of candidates) candidates
