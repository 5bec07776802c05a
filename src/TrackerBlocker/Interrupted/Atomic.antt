-- ===== src/TrackerBlocker/Interrupted/Atomic.antt =====
-- When an interrupted evaluation of the tracker blocker is as good as one at a single moment.
use thorium_frugal.Base.{
  ◌≡◌, refl, ap, ◌∙◌, sym, inl, inr, Bool, true, false, not, ◌&&◌, List, [], ◌∷◌, arith, Bytes,
  Bool-cases, any, any-append, All, some,
}
use thorium_frugal.Text.{is_empty}
use thorium_frugal.Types.{is_block, PrivacyEvaluationResult, ResourceType}
use thorium_frugal.Classifier.{extract_hostname, classify}
use thorium_frugal.RuleParser.{ParsedRule}
use thorium_frugal.RuleParser
use thorium_frugal.RuleDatabase.{RuleDatabase, find_matching_allow_rules, find_matching_block_rules}
use thorium_frugal.RuleDatabase.Index.{Represents}
use thorium_frugal.RuleDatabase.Capacity.{accept, accepts}
use thorium_frugal.RuleDatabase.Lookup.{applies}
use thorium_frugal.TrackerBlocker.{extract_path, is_applicable, evaluate_request, evaluate_rules}
use thorium_frugal.TrackerBlocker.Decision.{evaluate_request-decision, first_applicable_cases}
use thorium_frugal.TrackerBlocker.Interrupted.{
  Write, adds, clears, after_writes, check_known, check_allow, check_block, advance, begun, Phase,
  returned, after_turn, after_turns, schedule,
}
use thorium_frugal.TrackerBlocker.Interrupted.Decisions.{
  written, rules_allow, after_writes-Represents, interrupted-decision,
}

-- A write that the lookup of allow rules would not have noticed.
abbrev pub is_unnoticed : Bytes → Bytes → ResourceType → Write → Bool
is_unnoticed target init type (adds r) = not (
    applies RuleParser.allow (extract_hostname target) (extract_path target) r
    && is_applicable type (classify target init) r)
is_unnoticed target init type clears = false

module _ (target init : Bytes) (type : ResourceType) where
  one :
      (rules : List ParsedRule) (r : ParsedRule)
      → is_unnoticed target init type (adds r) ≡ true
      → rules_allow target init type (accept rules r) ≡ rules_allow target init type rules
  unfolding any
  one rules r e = elim (Bool-cases (accepts rules r)) [
    | inl a ↦ rw a (any-append _ rules (r ∷ []) ∙ ground arith)
    | inr a ↦ rw a refl
  ]

  same_allow :
      (ws : List Write) (rules : List ParsedRule)
      → All (λ w. is_unnoticed target init type w ≡ true) ws
      → rules_allow target init type (written rules ws) ≡ rules_allow target init type rules
  same_allow [] rules h = refl
  same_allow (adds r ∷ ws) rules (e, h) = same_allow ws (accept rules r) h ∙ one rules r e
  same_allow (clears ∷ ws) rules (e, h) = cc

  at_once :
      (db : RuleDatabase)
      → advance target init type db
          (advance target init type db (advance target init type db begun))
        ≡ returned (evaluate_request (some db) target init type)
  unfolding advance check_known check_allow check_block evaluate_request evaluate_rules
  at_once db = elim (Bool-cases (is_empty (extract_hostname target))) [
    | inl e ↦ rw e refl
    | inr e ↦
        elim (first_applicable_cases type (classify target init)
          (find_matching_allow_rules db (extract_hostname target) (extract_path target))) [
            | inr (r, n, _, _) ↦ rw (e, n, check_allow, evaluate_rules) refl
            | inl (n, _) ↦
                elim (first_applicable_cases type (classify target init)
                  (find_matching_block_rules db (extract_hostname target) (extract_path target))) [
                    | inr (q, m, _, _) ↦ rw (e, n, m, check_allow, check_block, evaluate_rules) refl
                    | inl (m, _) ↦ rw (e, n, m, check_allow, check_block, evaluate_rules) refl
                  ]
          ]
  ]

  uninterrupted :
      (db : RuleDatabase)
      → after_turns target init type (db, begun) (schedule [] [] [])
        ≡ (db, returned (evaluate_request (some db) target init type))
  unfolding after_turns after_turn
  uninterrupted db = ap (λ (p : Phase). (db, p)) (at_once db)

  -- An evaluation that other threads interrupt decides as one at the moment of its last section would,
  -- whatever they write before its second section, provided that between the second and the third
  -- nothing is cleared and no allow rule is added that applies to the request, its type and party. With
  -- no writes at all the result is that of `EvaluateRequest` as one step, in all its parts.
  pub interrupted-atomic :
      (db : RuleDatabase) (rules : List ParsedRule)
      (before_known before_allow before_block : List Write)
      → Represents db rules
      → All (λ w. is_unnoticed target init type w ≡ true) before_block
      → let last =
          after_writes (after_writes (after_writes db before_known) before_allow) before_block in
        (r : PrivacyEvaluationResult) × (after_turns target init type
            (db, begun)
            (schedule before_known before_allow before_block)
          ≡ (last, returned r))
        × (is_block r.decision ≡ is_block (evaluate_request (some last) target init type).decision)
        × (after_turns target init type (db, begun) (schedule [] [] [])
            ≡ (db, returned (evaluate_request (some db) target init type)))
  interrupted-atomic db rules ws1 ws2 ws3 v h =
      let (r, ran, b) = interrupted-decision target init type db rules ws1 ws2 ws3 v in
      let last = after_writes (after_writes (after_writes db ws1) ws2) ws3 in
      let v3 =
        after_writes-Represents ws3 _ _
          (after_writes-Represents ws2 _ _ (after_writes-Represents ws1 db rules v)) in
      (
        r,
        ran,
        b
            ∙ rw (sym (same_allow ws3 (written (written rules ws1) ws2) h))
                (sym (evaluate_request-decision last _ target init type v3)),
        uninterrupted db,
      )
