-- ===== src/TrackerBlocker/Interrupted/Decisions.antt =====
-- What an evaluation decides while other threads change the rule database.
use thorium_frugal.Base.{
  ◌≡◌, refl, ap, ◌∙◌, sym, inl, inr, ◌⊎◌, Bool, true, false, not, ◌&&◌, List, [], ◌∷◌, ◌++◌, map,
  Bytes, Bool-cases, any,
}
use thorium_frugal.Text.{is_empty}
use thorium_frugal.Types.{
  is_block, PrivacyEvaluationResult, ResourceType, allow, known_tracker, initial_result,
}
use thorium_frugal.Classifier.{extract_hostname, classify}
use thorium_frugal.RuleParser.{ParsedRule}
use thorium_frugal.RuleParser
use thorium_frugal.RuleDatabase.{
  RuleDatabase, find_matching_allow_rules, find_matching_block_rules, is_known_tracker_host,
}
use thorium_frugal.RuleDatabase.Index.{Represents}
use thorium_frugal.RuleDatabase.Capacity.{accept, clear-Represents, add_rule-Represents}
use thorium_frugal.RuleDatabase.Lookup.{applies, find_matching-any}
use thorium_frugal.TrackerBlocker.{extract_path, is_applicable, allowed_by}
use thorium_frugal.TrackerBlocker.Decision.{first_applicable_cases, blocked_by-applicable}
use thorium_frugal.TrackerBlocker.Interrupted.{
  Write, adds, clears, after_write, after_writes, Phase, begun, classified, not_allowed, returned,
  check_known, check_allow, check_block, advance, Turn, evaluates, writes, after_turn, after_turns,
  schedule,
}

-- The accepted rules after the writes.
abbrev pub written : List ParsedRule → List Write → List ParsedRule
written rules [] = rules
written rules (adds r ∷ ws) = written (accept rules r) ws
written rules (clears ∷ ws) = written [] ws

pub after_writes-Represents :
    (ws : List Write) (db : RuleDatabase) (rules : List ParsedRule)
    → Represents db rules
    → Represents (after_writes db ws) (written rules ws)
unfolding after_writes after_write
after_writes-Represents [] db rules v = v
after_writes-Represents (adds r ∷ ws) db rules v =
    let (w, _) = add_rule-Represents db rules r v in after_writes-Represents ws _ (accept rules r) w
after_writes-Represents (clears ∷ ws) db rules v =
    after_writes-Represents ws _ [] (clear-Represents db).1

module _ (target init : Bytes) (type : ResourceType) where
  abbrev pub applicable : ParsedRule → Bool
  applicable = is_applicable type (classify target init)

  abbrev pub rules_allow : List ParsedRule → Bool
  rules_allow rules =
      any
        (λ r.
          applies RuleParser.allow (extract_hostname target) (extract_path target) r
          && applicable r)
        rules

  abbrev pub rules_block : List ParsedRule → Bool
  rules_block rules =
      any
        (λ r.
          applies RuleParser.block (extract_hostname target) (extract_path target) r
          && applicable r)
        rules

  writes_lem :
      (ws : List Write) (db : RuleDatabase) (phase : Phase) (ts : List Turn)
      → after_turns target init type (db, phase) (map writes ws ++ ts)
        ≡ after_turns target init type (after_writes db ws, phase) ts
  unfolding after_turns after_turn after_writes
  writes_lem [] db phase ts = refl
  writes_lem (w ∷ ws) db phase ts = writes_lem ws (after_write db w) phase ts

  -- The evaluation has returned a result, which blocks or not.
  abbrev Returns : Bool → Phase → Type 0
  Returns blocked phase =
      (r : PrivacyEvaluationResult) × (phase ≡ returned r) × (is_block r.decision ≡ blocked)

  check_block_lem :
      (db : RuleDatabase) (rules : List ParsedRule) (result : PrivacyEvaluationResult)
      → Represents db rules
      → result.party_context ≡ classify target init
      → result.decision ≡ allow
      → is_block (check_block target init type db result).decision ≡ rules_block rules
  unfolding check_block
  check_block_lem db rules result v p d =
      let found =
        (find_matching-any db rules (extract_hostname target) (extract_path target) applicable
          v).1 in
      elim (first_applicable_cases type (classify target init)
        (find_matching_block_rules db (extract_hostname target) (extract_path target))) [
          | inl (n, b) ↦ rw (n, check_block) (ap is_block d ∙ sym b ∙ found)
          | inr (r, n, t, b) ↦
              rw (n, check_block)
                (rw (blocked_by-applicable type (classify target init) r result p t)
                  (sym b ∙ found))
        ]

  check_allow_cases :
      (db : RuleDatabase) (rules : List ParsedRule) (result : PrivacyEvaluationResult)
      → Represents db rules
      → ((rules_allow rules ≡ true) × Returns false (check_allow target init type db result))
        ⊎ ((rules_allow rules ≡ false)
            × (check_allow target init type db result ≡ not_allowed result))
  unfolding check_allow
  check_allow_cases db rules result v =
      let found =
        (find_matching-any db rules (extract_hostname target) (extract_path target) applicable
          v).0 in
      elim (first_applicable_cases type (classify target init)
        (find_matching_allow_rules db (extract_hostname target) (extract_path target))) [
          | inl (n, b) ↦ inr (sym found ∙ b, rw (n, check_allow) refl)
          | inr (r, n, t, b) ↦ inl (
            sym found ∙ b,
            (allowed_by r result, rw (n, check_allow) refl, unfold allowed_by in refl),
          )
        ]

  -- The first section leads to the same result in all databases, except for the classification.
  check_known_cases :
      (db : RuleDatabase)
      → ((is_empty (extract_hostname target) ≡ true)
          × Returns false (check_known target init type db))
        ⊎ ((is_empty (extract_hostname target) ≡ false)
            × ((r : PrivacyEvaluationResult) × (check_known target init type db ≡ classified r)
                × (r.party_context ≡ classify target init)
                × (r.decision ≡ allow)))
  unfolding check_known
  check_known_cases db = elim (Bool-cases (is_empty (extract_hostname target))) [
    | inl e ↦ inl (e, (initial_result (classify target init), rw e refl, refl))
    | inr e ↦ elim (Bool-cases (is_known_tracker_host db (extract_hostname target))) [
      | inl k ↦ inr (
        e,
        (
          record (initial_result (classify target init)) { classification = known_tracker },
          rw (e, k) refl,
          refl,
          refl,
        ),
      )
      | inr k ↦ inr (e, (initial_result (classify target init), rw (e, k) refl, refl, refl))
    ]
  ]

  -- The three sections, at three databases.
  sections_lem :
      (d1 d2 d3 : RuleDatabase) (rules2 rules3 : List ParsedRule)
      → Represents d2 rules2
      → Represents d3 rules3
      → Returns
          (not (is_empty (extract_hostname target))
            && (not (rules_allow rules2) && rules_block rules3))
          (advance target init type d3
            (advance target init type d2 (advance target init type d1 begun)))
  unfolding advance
  sections_lem d1 d2 d3 rules2 rules3 v2 v3 = elim (check_known_cases d1) [
    | inl (e, (r, s, b)) ↦ (r, rw s refl, rw e b)
    | inr (e, (r, s, p, d)) ↦ elim (check_allow_cases d2 rules2 r v2) [
      | inl (a, (q, s', b)) ↦ (q, rw (s, s') refl, rw (e, a) b)
      | inr (a, s') ↦ (
        check_block target init type d3 r,
        rw (s, s') refl,
        rw (e, a) (check_block_lem d3 rules3 r v3 p d),
      )
    ]
  ]

  ran :
      (db : RuleDatabase) (ws1 ws2 ws3 : List Write)
      → let d1 = after_writes db ws1 in
        let d2 = after_writes d1 ws2 in
        let d3 = after_writes d2 ws3 in
        after_turns target init type (db, begun) (schedule ws1 ws2 ws3) ≡ (
          d3,
          advance target init type d3
              (advance target init type d2 (advance target init type d1 begun)),
        )
  unfolding after_turns after_turn
  ran db ws1 ws2 ws3 =
      let d1 = after_writes db ws1 in
      let d2 = after_writes d1 ws2 in
      let tail : List Turn = evaluates ∷ (map writes ws3 ++ evaluates ∷ []) in
      writes_lem ws1 db begun (evaluates ∷ (map writes ws2 ++ tail))
      ∙ writes_lem ws2 d1 (advance target init type d1 begun) tail
      ∙ writes_lem ws3 d2 (advance target init type d2 (advance target init type d1 begun))
          (evaluates ∷ [])

  -- With a database that represents a list of accepted rules, and whatever other threads write to it
  -- before each of the three sections of an evaluation: the evaluation ends, and blocks exactly when the
  -- host of the request is not empty, no allow rule applies that is accepted at the second section, and
  -- some block rule does that is accepted at the third.
  pub interrupted-decision :
      (db : RuleDatabase) (rules : List ParsedRule)
      (before_known before_allow before_block : List Write)
      → Represents db rules
      → let at_allow = written (written rules before_known) before_allow in
        (r : PrivacyEvaluationResult) × (after_turns target init type
            (db, begun)
            (schedule before_known before_allow before_block)
          ≡ (
            after_writes (after_writes (after_writes db before_known) before_allow) before_block,
            returned r,
          ))
        × (is_block r.decision ≡ (
            not (is_empty (extract_hostname target))
            && (not (rules_allow at_allow) && rules_block (written at_allow before_block))))
  interrupted-decision db rules ws1 ws2 ws3 v =
      let d1 = after_writes db ws1 in
      let d2 = after_writes d1 ws2 in
      let v2 = after_writes-Represents ws2 d1 _ (after_writes-Represents ws1 db rules v) in
      let (r, s, b) =
        sections_lem d1 d2 (after_writes d2 ws3) _ _ v2 (after_writes-Represents ws3 d2 _ v2) in
      (r, ran db ws1 ws2 ws3 ∙ ap (λ (p : Phase). (after_writes d2 ws3, p)) s, b)
