-- ===== src/Throttle/FilterLists.antt =====
-- From the texts of filter lists to what is blocked and cancelled.
use thorium_frugal.Base.{
  ◌+◌, ◌≤◌, ◌≡◌, refl, sym, subst, List, [], ◌∷◌, ◌++◌, some, arith, Bytes, length, length-append,
  append_assoc, append-nil,
}
use thorium_frugal.Types.{ResourceType, is_block}
use thorium_frugal.RuleParser.{ParsedRule, parse_text}
use thorium_frugal.RuleDatabase.{RuleDatabase, empty_database, load_from_text, max_rules}
use thorium_frugal.RuleDatabase.Index.{Represents}
use thorium_frugal.RuleDatabase.Capacity.{clear-Represents, load_from_text_all}
use thorium_frugal.PolicyManager.{
  PrivacyPolicyManager, set_database, page_policy, get_exception, evaluate_request,
}
use thorium_frugal.PolicyManager.Requests.{evaluate_request-blocks}
use thorium_frugal.Throttle.{
  convert_resource_type, initiator_text, ResourceRequest, sanitized, will_start_request,
}
use thorium_frugal.Throttle.Cancels.{refuses, judged-refused, sanitized-SamePolicy}

-- The lists are loaded one after the other.
unfoldable pub load_texts : RuleDatabase → List Bytes → RuleDatabase
load_texts db [] = db
load_texts db (text ∷ texts) = load_texts (load_from_text db text).0 texts

-- The rules that the texts spell, in their order.
abbrev pub rules_of : List Bytes → List ParsedRule
rules_of [] = []
rules_of (text ∷ texts) = parse_text text ++ rules_of texts

load_texts-Represents :
    (db : RuleDatabase) (rules : List ParsedRule) (texts : List Bytes)
    → Represents db rules
    → length rules + length (rules_of texts) ≤ max_rules
    → Represents (load_texts db texts) (rules ++ rules_of texts)
unfolding load_texts
load_texts-Represents db rules [] v h = subst (Represents db) (sym (append-nil rules)) v
load_texts-Represents db rules (text ∷ texts) v h =
    let both = length-append (parse_text text) (rules_of texts) in
    let all = length-append rules (parse_text text) in
    let (w, _) = load_from_text_all db rules text v (omega (arith, both)) in
    subst (Represents (load_texts (load_from_text db text).0 texts))
      (append_assoc rules (parse_text text) (rules_of texts))
      (load_texts-Represents (load_from_text db text).0 (rules ++ parse_text text) texts w
        (omega (arith, both, all)))

module _ (m : PrivacyPolicyManager) (texts : List Bytes) where
  -- The manager once its blocker has the database of the texts.
  abbrev pub with_lists : PrivacyPolicyManager
  with_lists = set_database m (some (load_texts empty_database texts))

  -- While the rules of the texts are at most 50000: with a new database into which the texts were
  -- loaded one after the other, a request is blocked, and a load is cancelled at its start for its URL
  -- after the cleaning, exactly when protection is on, the page has no `kAllowAll` policy, the host is
  -- not empty, no allow rule that is spelled in any of the texts applies, and some block rule does.
  pub filter_lists_lem :
      (GURL : Type 0) (gurl : Bytes → GURL) (spec : GURL → Bytes) (now target init : Bytes)
      (type : ResourceType) (r : ResourceRequest GURL gurl spec)
      → length (rules_of texts) ≤ max_rules
      → (is_block (evaluate_request with_lists now target init type).0.decision
          ≡ refuses m.enabled (page_policy m init) (rules_of texts) target init type)
        × ((will_start_request GURL gurl spec with_lists now (some r)).1
            ≡ refuses m.enabled
                (page_policy m (initiator_text r.request_initiator))
                (rules_of texts)
                (spec (sanitized GURL gurl spec with_lists now r.url).0)
                (initiator_text r.request_initiator)
                (convert_resource_type r.resource_type))
  unfolding set_database page_policy get_exception will_start_request
  filter_lists_lem GURL gurl spec now target init type r fits =
      let v =
        load_texts-Represents empty_database [] texts (clear-Represents empty_database).0
          (omega (arith, fits)) in
      (
        evaluate_request-blocks with_lists now target init type _ (rules_of texts) refl v,
        judged-refused GURL gurl spec with_lists now (load_texts empty_database texts)
            (rules_of texts) refl v _ _ r.request_initiator (convert_resource_type r.resource_type)
            (sanitized-SamePolicy GURL gurl spec with_lists now r.url),
      )
