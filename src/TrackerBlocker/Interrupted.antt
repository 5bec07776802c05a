-- ===== src/TrackerBlocker/Interrupted.antt =====
-- `EvaluateRequest` of the tracker blocker while other threads change the rule database. The database has
-- a mutex, which each of its methods takes for itself: the evaluation has three critical sections, and
-- `LoadFromText` has one for each rule, in `AddRule`.
pub mod Decisions
pub mod Atomic
use thorium_frugal.Base.{List, [], ◌∷◌, ◌++◌, map, none, some, Bytes, if◌then◌else◌}
use thorium_frugal.Text.{is_empty}
use thorium_frugal.Types.{
  PrivacyEvaluationResult, PartyContext, ResourceType, known_tracker, initial_result,
}
use thorium_frugal.Classifier.{extract_hostname, classify}
use thorium_frugal.RuleParser.{ParsedRule}
use thorium_frugal.RuleDatabase.{
  RuleDatabase, find_matching_allow_rules, find_matching_block_rules, is_known_tracker_host,
  add_rule, clear,
}
use thorium_frugal.TrackerBlocker.{extract_path, first_applicable, allowed_by, blocked_by}

-- What another thread does to the database in one critical section.
pub data Write : Type 0 where
  adds : ParsedRule → Write
  clears : Write

unfoldable pub after_write : RuleDatabase → Write → RuleDatabase
after_write db (adds r) = (add_rule db r).0
after_write db clears = clear db

pub after_writes : RuleDatabase → List Write → RuleDatabase
after_writes db [] = db
after_writes db (w ∷ ws) = after_writes (after_write db w) ws

-- Where the evaluation stands: before its first section, before the lookup of allow rules, before the
-- lookup of block rules, and at its end.
pub data Phase : Type 0 where
  begun : Phase
  classified : PrivacyEvaluationResult → Phase
  not_allowed : PrivacyEvaluationResult → Phase
  returned : PrivacyEvaluationResult → Phase

module _ (target init : Bytes) (type : ResourceType) where
  abbrev party : PartyContext
  party = classify target init

  abbrev host : Bytes
  host = extract_hostname target

  abbrev path : Bytes
  path = extract_path target

  -- Up to the end of the section of `IsKnownTrackerHost`.
  unfoldable pub check_known : RuleDatabase → Phase
  check_known db =
      if is_empty host
      then returned (initial_result party)
      else classified (
          if is_known_tracker_host db host
          then record (initial_result party) { classification = known_tracker }
          else initial_result party)

  -- The section of `FindMatchingAllowRules`, and the loop over the rules that it returns.
  unfoldable pub check_allow : RuleDatabase → PrivacyEvaluationResult → Phase
  unfolding first_applicable allowed_by
  check_allow db result =
      elim (first_applicable type party (find_matching_allow_rules db host path)) [
        | some rule ↦ returned (allowed_by rule result)
        | none ↦ not_allowed result
      ]

  -- The section of `FindMatchingBlockRules`, and the loop over the rules that it returns.
  unfoldable pub check_block : RuleDatabase → PrivacyEvaluationResult → PrivacyEvaluationResult
  unfolding first_applicable blocked_by
  check_block db result =
      elim (first_applicable type party (find_matching_block_rules db host path)) [
        | some rule ↦ blocked_by rule result
        | none ↦ result
      ]

  unfoldable pub advance : RuleDatabase → Phase → Phase
  advance db begun = check_known db
  advance db (classified result) = check_allow db result
  advance db (not_allowed result) = returned (check_block db result)
  advance db (returned result) = returned result

-- A turn of the evaluation, or one of another thread.
pub data Turn : Type 0 where
  evaluates : Turn
  writes : Write → Turn

module _ (target init : Bytes) (type : ResourceType) where
  unfoldable pub after_turn : RuleDatabase × Phase → Turn → RuleDatabase × Phase
  after_turn (db, phase) evaluates = (db, advance target init type db phase)
  after_turn (db, phase) (writes w) = (after_write db w, phase)

  unfoldable pub after_turns : RuleDatabase × Phase → List Turn → RuleDatabase × Phase
  after_turns s [] = s
  after_turns s (t ∷ ts) = after_turns (after_turn s t) ts

-- An evaluation with these writes before each of its three sections.
abbrev pub schedule : List Write → List Write → List Write → List Turn
schedule before_known before_allow before_block =
    map writes before_known
    ++ evaluates
      ∷ (map writes before_allow ++ evaluates ∷ (map writes before_block ++ evaluates ∷ []))
