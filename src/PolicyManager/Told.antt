-- ===== src/PolicyManager/Told.antt =====
-- policy_manager: the deliveries of `privacy.request_blocked` that one call of the manager adds.
use thorium_frugal.Base.{
  ℕ, ◌≡◌, refl, ap, ◌∙◌, sym, subst, Bool, true, false, not, ◌&&◌, List, [], ◌∷◌, ◌++◌, append-nil,
  map, arith, Bytes, codes, str_eq, if◌then◌else◌,
}
use thorium_frugal.Types.{PrivacyEvaluationResult, PartyContext, ResourceType, is_block}
use thorium_frugal.Classifier.{classify}
use thorium_frugal.Events.{PrivacyEvent, Delivery, callable, dispatch_event_lem}
use thorium_frugal.PolicyManager.{
  PrivacyPolicyManager, raise, generate_event_id, event_id_of, request_event, rule_event,
  removal_event, is_allow_all, page_policy, evaluate_request, sanitize_url,
}
use thorium_frugal.TrackerBlocker
use thorium_frugal.ParameterFilter.{FilterResult, strip_tracking_parameters}
use thorium_frugal.PolicyManager.Evaluation.{next_of, next_lem, result_lem, result_of-blocks}
use thorium_frugal.PolicyManager.Reports.{raise-delivered}
use thorium_frugal.PolicyManager.Steps.{clean_lem}

abbrev pub is_block_event : PrivacyEvent → Bool
is_block_event e = str_eq e.event_type (codes "privacy.request_blocked")

-- To whom the deliveries that tell of a blocked request go, in their order.
abbrev pub told : List Delivery → List ℕ
told [] = []
told ((l, e) ∷ ds) = let rest = told ds in if is_block_event e then l ∷ rest else rest

-- The listeners that can be called, in the order of registration.
abbrev pub listening : PrivacyPolicyManager → List ℕ
listening m = callable m.event_dispatcher.listeners

-- The listeners stay, and further deliveries tell these, each once and in this order, of a blocked request.
abbrev pub IsTold : PrivacyPolicyManager → PrivacyPolicyManager → List ℕ → Type 0
IsTold m n ls =
    (n.event_dispatcher.listeners ≡ m.event_dispatcher.listeners)
    × (told n.event_dispatcher.delivered ≡ told m.event_dispatcher.delivered ++ ls)

told-append :
    (e : PrivacyEvent) (ls : List ℕ) (ds : List Delivery)
    → told (ds ++ map (λ l. (l, e)) ls) ≡ told ds ++ (if is_block_event e then ls else [])
told-append e [] [] = ground arith
told-append e (l ∷ ls) [] = ground (arith, told-append e ls [])
told-append e ls ((l, d) ∷ ds) = ground (arith, told-append e ls ds)

raise-IsTold :
    (m : PrivacyPolicyManager) (event : Bytes → PrivacyEvent) (blocks : Bool)
    → ((id : Bytes) → is_block_event (event id) ≡ blocks)
    → IsTold m (raise m event) (if blocks then listening m else [])
unfolding raise generate_event_id
raise-IsTold m event blocks h =
    let id = event_id_of m.process_prefix m.event_counter in
    (
      (dispatch_event_lem m.event_dispatcher (event id)).1,
      ap told (raise-delivered m event)
          ∙ told-append (event id) (callable m.event_dispatcher.listeners)
              m.event_dispatcher.delivered
          ∙ rw (h id) refl,
    )

pub quiet : (m : PrivacyPolicyManager) → IsTold m m []
quiet m = (refl, sym (append-nil (told m.event_dispatcher.delivered)))

next_of-IsTold :
    (m : PrivacyPolicyManager) (on excepted blocked known says : Bool)
    (e1 e2 e3 : Bytes → PrivacyEvent)
    → ((id : Bytes) → is_block_event (e1 id) ≡ false)
    → ((id : Bytes) → is_block_event (e2 id) ≡ says)
    → ((id : Bytes) → is_block_event (e3 id) ≡ false)
    → IsTold m
        (next_of m on excepted blocked known e1 e2 e3)
        (if on && (not excepted && (blocked && says)) then listening m else [])
unfolding next_of
next_of-IsTold m false x b k says e1 e2 e3 h1 h2 h3 = quiet m
next_of-IsTold m true true b k says e1 e2 e3 h1 h2 h3 = raise-IsTold m e1 false h1
next_of-IsTold m true false true k says e1 e2 e3 h1 h2 h3 = raise-IsTold m e2 says h2
next_of-IsTold m true false false true says e1 e2 e3 h1 h2 h3 = raise-IsTold m e3 false h3
next_of-IsTold m true false false false says e1 e2 e3 h1 h2 h3 = quiet m

pub after_quiet :
    (m n o : PrivacyPolicyManager) (ls : List ℕ) → IsTold m n [] → IsTold n o ls → IsTold m o ls
after_quiet m n o ls (e, c) (f, d) =
    (f ∙ e, d ∙ ap (λ ks. ks ++ ls) (c ∙ append-nil (told m.event_dispatcher.delivered)))

same_listeners :
    (m n : PrivacyPolicyManager) (ks ls : List ℕ) → ks ≡ ls → IsTold m n ks → IsTold m n ls
same_listeners m n ks ls h told_ks = subst (IsTold m n) h told_ks

nothing : (on b : Bool) (ls : List ℕ) → (if on && (true && (b && false)) then ls else []) ≡ []
nothing on b ls = ground arith

and_true : (x y z : Bool) → (x && (y && (z && true))) ≡ (x && (y && z))
and_true x y z = ground arith

-- The types of the four events.
removal-type :
    (now : Bytes) (r : FilterResult) (id : Bytes) → is_block_event (removal_event now r id) ≡ false
unfolding removal_event str_eq
removal-type now r id = refl

request-type :
    (now target init : Bytes) (type : ResourceType) (party : PartyContext) (id : Bytes)
    → is_block_event
        (request_event now target init type party (codes "privacy.policy_exception_applied") id)
      ≡ false
unfolding request_event str_eq
request-type now target init type party id = refl

rule-types :
    (now target init : Bytes) (type : ResourceType) (r : PrivacyEvaluationResult) (id : Bytes)
    → (is_block_event (rule_event now target init type r (codes "privacy.request_blocked") id)
        ≡ true)
      × (is_block_event (rule_event now target init type r (codes "privacy.tracker_detected") id)
          ≡ false)
unfolding rule_event request_event str_eq
rule-types now target init type r id = (refl, refl)

pub sanitize_url-IsTold :
    (m : PrivacyPolicyManager) (now url : Bytes) → IsTold m (sanitize_url m now url).1 []
sanitize_url-IsTold m now url =
    let r = strip_tracking_parameters m.parameters url in
    subst (λ n. IsTold m n []) (sym (clean_lem m now url))
      (same_listeners m
        (next_of m m.enabled false r.parameters_removed false (removal_event now r)
          (removal_event now r) (removal_event now r))
        _ [] (nothing m.enabled _ (listening m))
        (next_of-IsTold m m.enabled false _ false false _ _ _ (removal-type now r)
          (removal-type now r) (removal-type now r)))

pub evaluate_request-IsTold :
    (m : PrivacyPolicyManager) (now target init : Bytes) (type : ResourceType)
    → IsTold m
        (evaluate_request m now target init type).1
        (if is_block (evaluate_request m now target init type).0.decision then listening m else [])
evaluate_request-IsTold m now target init type =
    let r = TrackerBlocker.evaluate_request m.database target init type in
    let x = is_allow_all (page_policy m init) in
    let decision : is_block (evaluate_request m now target init type).0.decision
        ≡ (m.enabled && (not x && is_block r.decision)) =
      ap (λ (e : PrivacyEvaluationResult). is_block e.decision) (result_lem m now target init type)
      ∙ result_of-blocks m.enabled x (classify target init) r in
    same_listeners m (evaluate_request m now target init type).1 _ _
      (ap (λ (b : Bool). if b then listening m else [])
        (and_true m.enabled (not x) (is_block r.decision) ∙ sym decision))
      (subst
        (λ n.
          IsTold m n
            (if m.enabled && (not x && (is_block r.decision && true)) then listening m else []))
        (sym (next_lem m now target init type))
        (next_of-IsTold m m.enabled x _ _ true _ _ _ (request-type now target init type _)
          (λ id. (rule-types now target init type r id).0)
          (λ id. (rule-types now target init type r id).1)))
