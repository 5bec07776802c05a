-- ===== src/RuleDatabase.antt =====
-- tracker_blocker/rule_database.h and rule_database.cc: rules indexed by domain. The mutex guards each
-- method whole, so a method is a function of the state.
pub mod Candidates
pub mod Under
pub mod Index
pub mod Capacity
pub mod Lookup
use thorium_frugal.Base.{
  ℕ, zero, suc, ◌+◌, Bool, true, false, not, ◌&&◌, ◌||◌, List, [], ◌∷◌, ◌++◌, Option, none, some,
  Bytes, ltb, leb, if◌then◌else◌, str_eq, select, any, length, drop,
}
use thorium_frugal.Text.{to_lower, find, find_str, is_empty}
use thorium_frugal.Classifier.{normalize_host}
use thorium_frugal.RuleParser.{ParsedRule, RuleType, block, allow, parse_text}

-- The loop `while (dot_pos != npos && dot_pos + 1 < length)`, on fuel.
candidates_loop : ℕ → Bytes → Option ℕ → List Bytes → List Bytes
candidates_loop zero host dot acc = acc
candidates_loop (suc fuel) host none acc = acc
candidates_loop (suc fuel) host (some dot) acc =
    let parent = drop (dot + 1) host in
    let rest =
      candidates_loop fuel host (find host b'.' (dot + 1))
        (if is_empty parent then acc else acc ++ parent ∷ []) in
    if ltb (dot + 1) (length host) then rest else acc

-- The host in lower case without a last dot (`Classifier.normalize_host` is the same code), and the
-- domains above it.
unfoldable pub generate_candidate_domains : Bytes → List Bytes
unfolding candidates_loop
generate_candidate_domains host =
    if is_empty (to_lower host)
    then []
    else let h = normalize_host host in candidates_loop (length h + 1) h (find h b'.' 0) (h ∷ [])

-- `unordered_map<string, vector<ParsedRule>>`. A key that is not there has no rules.
abbrev pub Buckets : Type 0
Buckets = List (Bytes × List ParsedRule)

pub bucket : Bytes → Buckets → List ParsedRule
bucket key [] = []
bucket key ((k, rules) ∷ m) = if str_eq k key then rules else bucket key m

-- `map[key].push_back(rule)`.
push_rule : Bytes → ParsedRule → Buckets → Buckets
push_rule key rule [] = (key, rule ∷ []) ∷ []
push_rule key rule ((k, rules) ∷ m) =
    if str_eq k key then (k, rules ++ rule ∷ []) ∷ m else (k, rules) ∷ push_rule key rule m

pub record RuleDatabase : Type 0 where
  pub allow_rules_by_domain : Buckets
  pub block_rules_by_domain : Buckets
  pub generic_allow_rules : List ParsedRule
  pub generic_block_rules : List ParsedRule
  pub total_rules : ℕ

unfoldable pub empty_database : RuleDatabase
empty_database = record {
  allow_rules_by_domain = [];
  block_rules_by_domain = [];
  generic_allow_rules = [];
  generic_block_rules = [];
  total_rules = 0;
}

abbrev pub max_rules : ℕ
max_rules = 50000

-- The rule's place: a bucket, or the generic rules when it has no domain.
pub store_rule : RuleType → RuleDatabase → Bytes → ParsedRule → RuleDatabase
store_rule allow db key rule =
    if is_empty key
    then record db { generic_allow_rules = db.generic_allow_rules ++ rule ∷ [] }
    else record db { allow_rules_by_domain = push_rule key rule db.allow_rules_by_domain }
store_rule block db key rule =
    if is_empty key
    then record db { generic_block_rules = db.generic_block_rules ++ rule ∷ [] }
    else record db { block_rules_by_domain = push_rule key rule db.block_rules_by_domain }

unfoldable pub add_rule : RuleDatabase → ParsedRule → RuleDatabase × Bool
unfolding store_rule push_rule
add_rule db rule =
    if not rule.is_valid
    then (db, false)
    else if leb max_rules db.total_rules
    then (db, false)
    else let stored = store_rule rule.rule_type db (to_lower rule.domain_pattern) rule in
      (record stored { total_rules = stored.total_rules + 1 }, true)

-- The loop of `LoadFromText`, with the number of rules loaded.
load_rules : List ParsedRule → RuleDatabase → ℕ → RuleDatabase × ℕ
load_rules [] db loaded = (db, loaded)
load_rules (r ∷ rs) db loaded =
    let (db', added) = add_rule db r in load_rules rs db' (if added then loaded + 1 else loaded)

unfoldable pub load_from_text : RuleDatabase → Bytes → RuleDatabase × ℕ
unfolding load_rules
load_from_text db text = load_rules (parse_text text) db 0

unfoldable pub matches_path_and_options : ParsedRule → Bytes → Bool
matches_path_and_options rule path =
    if is_empty rule.path_pattern
    then true
    else elim (find_str path rule.path_pattern) [ none ↦ false | some i ↦ true ]

-- `candidates[0]`.
first_of : List Bytes → Bytes
first_of [] = []
first_of (d ∷ ds) = d

-- The rules of one bucket that the loops push.
bucket_matches : Buckets → Bytes → Bytes → Bytes → List ParsedRule
bucket_matches m first path domain =
    select
      (λ rule.
        not (not (str_eq domain first) && not rule.match_subdomains)
        && matches_path_and_options rule path)
      (bucket domain m)

domain_matches : Buckets → Bytes → Bytes → List Bytes → List ParsedRule
domain_matches m first path [] = []
domain_matches m first path (d ∷ ds) =
    bucket_matches m first path d ++ domain_matches m first path ds

-- The body of both `FindMatching…Rules`, over one index and its generic rules.
find_matching : Buckets → List ParsedRule → Bytes → Bytes → List ParsedRule
find_matching m generic host path =
    let candidates = generate_candidate_domains host in
    domain_matches m (first_of candidates) path candidates
    ++ select (λ rule. matches_path_and_options rule path) generic

unfoldable pub find_matching_allow_rules : RuleDatabase → Bytes → Bytes → List ParsedRule
unfolding find_matching domain_matches bucket_matches first_of bucket
find_matching_allow_rules db host path =
    find_matching db.allow_rules_by_domain db.generic_allow_rules host path

unfoldable pub find_matching_block_rules : RuleDatabase → Bytes → Bytes → List ParsedRule
unfolding find_matching domain_matches bucket_matches first_of bucket
find_matching_block_rules db host path =
    find_matching db.block_rules_by_domain db.generic_block_rules host path

unfoldable pub is_known_tracker_host : RuleDatabase → Bytes → Bool
unfolding first_of bucket
is_known_tracker_host db host =
    let candidates = generate_candidate_domains host in
    any
      (λ domain.
        any (λ rule. str_eq domain (first_of candidates) || rule.match_subdomains)
          (bucket domain db.block_rules_by_domain))
      candidates

unfoldable pub rule_count : RuleDatabase → ℕ
rule_count db = db.total_rules

unfoldable pub clear : RuleDatabase → RuleDatabase
clear db = record db {
  allow_rules_by_domain = [];
  block_rules_by_domain = [];
  generic_allow_rules = [];
  generic_block_rules = [];
  total_rules = 0;
}
