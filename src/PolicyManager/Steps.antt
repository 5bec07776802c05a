-- ===== src/PolicyManager/Steps.antt =====
-- Runs of the manager: the steps are its methods, in any order.
use thorium_frugal.Base.{
  not, append-nil, if◌then◌else◌, ℕ, suc, ◌+◌, ◌%◌, ◌^◌, ◌≡◌, refl, sym, subst, inl, inr, ◌⊎◌, Bool,
  true, false, List, [], ◌∷◌, ◌++◌, map, Option, Bytes,
}
use thorium_frugal.Types.{ResourceType}
use thorium_frugal.ParameterFilter.{add_tracking_parameter, FilterResult, strip_tracking_parameters}
use thorium_frugal.RuleDatabase.{RuleDatabase}
use thorium_frugal.SiteExceptions.{SitePolicyException}
use thorium_frugal.Events.{PrivacyEvent, callable, new_event, add_listener, clear_listeners}
use thorium_frugal.PolicyManager.{
  set_database, PrivacyPolicyManager, event_id_of, new_manager, generate_event_id, raise,
  set_privacy_protection_enabled, set_exception, sanitize_url, removal_event, evaluate_request,
  request_event, rule_event,
}
use thorium_frugal.PolicyManager.Evaluation.{next_of, next_lem}
use thorium_frugal.PolicyManager.Reports.{raise-delivered, raise-counter}

pub data Step : PrivacyPolicyManager → PrivacyPolicyManager → Type 0 where
  toggle : (m : PrivacyPolicyManager) (b : Bool) → Step m (set_privacy_protection_enabled m b)
  except :
      (m : PrivacyPolicyManager) (host : Bytes) (e : SitePolicyException)
      → Step m (set_exception m host e)
  clean : (m : PrivacyPolicyManager) (now url : Bytes) → Step m (sanitize_url m now url).1
  request :
      (m : PrivacyPolicyManager) (now target init : Bytes) (type : ResourceType)
      → Step m (evaluate_request m now target init type).1
  number : (m : PrivacyPolicyManager) → Step m (generate_event_id m).1
  listen :
      (m : PrivacyPolicyManager) (l : Option ℕ)
      → Step m (record m { event_dispatcher = add_listener m.event_dispatcher l })
  silence :
      (m : PrivacyPolicyManager)
      → Step m (record m { event_dispatcher = clear_listeners m.event_dispatcher })
  reload : (m : PrivacyPolicyManager) (db : Option RuleDatabase) → Step m (set_database m db)
  extend :
      (m : PrivacyPolicyManager) (name : Bytes)
      → Step m (record m { parameters = add_tracking_parameter m.parameters name })

-- Runs from a new manager, by their number of steps.
pub data Run (random_hex : Bytes) : ℕ → PrivacyPolicyManager → Type 0 where
  start : Run random_hex 0 (new_manager random_hex)
  later :
      (n : ℕ) (m m' : PrivacyPolicyManager)
      → Run random_hex n m
      → Step m m'
      → Run random_hex (suc n) m'

pub append_cancel {ℓ} : {A : Type ℓ} (xs ys zs : List A) → xs ++ ys ≡ xs ++ zs → ys ≡ zs
append_cancel [] ys zs h = h
append_cancel (x ∷ xs) ys zs h = append_cancel xs ys zs (cc)

-- What a step may do to the numbers: nothing, or take the next one for one event.
abbrev pub Moves : PrivacyPolicyManager → PrivacyPolicyManager → Type 0
Moves m m' =
    (m'.process_prefix ≡ m.process_prefix)
    × (((m'.event_counter ≡ m.event_counter)
          × (m'.event_dispatcher.delivered ≡ m.event_dispatcher.delivered))
        ⊎ ((m'.event_counter ≡ (m.event_counter + 1) % 2 ^ 64)
            × ((ls : List ℕ) × (event : PrivacyEvent) × (event.event_id
                  ≡ event_id_of m.process_prefix m.event_counter)
                × (m'.event_dispatcher.delivered
                    ≡ m.event_dispatcher.delivered ++ map (λ l. (l, event)) ls))))

raise-prefix :
    (m : PrivacyPolicyManager) (event : Bytes → PrivacyEvent)
    → (raise m event).process_prefix ≡ m.process_prefix
unfolding raise generate_event_id
raise-prefix m event = refl

raise-Moves :
    (m : PrivacyPolicyManager) (event : Bytes → PrivacyEvent)
    → ((id : Bytes) → (event id).event_id ≡ id)
    → Moves m (raise m event)
raise-Moves m event h = (
  raise-prefix m event,
  inr (
    raise-counter m event,
    (
      callable m.event_dispatcher.listeners,
      event (event_id_of m.process_prefix m.event_counter),
      h _,
      raise-delivered m event,
    ),
  ),
)

next_of-Moves :
    (m : PrivacyPolicyManager) (on excepted blocked known : Bool) (e1 e2 e3 : Bytes → PrivacyEvent)
    → ((id : Bytes) → (e1 id).event_id ≡ id)
    → ((id : Bytes) → (e2 id).event_id ≡ id)
    → ((id : Bytes) → (e3 id).event_id ≡ id)
    → Moves m (next_of m on excepted blocked known e1 e2 e3)
unfolding next_of
next_of-Moves m false x b k e1 e2 e3 h1 h2 h3 = (refl, inl (refl, refl))
next_of-Moves m true true b k e1 e2 e3 h1 h2 h3 = raise-Moves m e1 h1
next_of-Moves m true false true k e1 e2 e3 h1 h2 h3 = raise-Moves m e2 h2
next_of-Moves m true false false true e1 e2 e3 h1 h2 h3 = raise-Moves m e3 h3
next_of-Moves m true false false false e1 e2 e3 h1 h2 h3 = (refl, inl (refl, refl))

removal-id : (now : Bytes) (r : FilterResult) (id : Bytes) → (removal_event now r id).event_id ≡ id
unfolding removal_event
removal-id now r id = refl

second_of_if {ℓ κ} :
    {A : Type ℓ} {B : Type κ} (b : Bool) (x y : A) (u v : B)
    → ◌≡◌ {A = B} (if◌then◌else◌ {A = A × B} b (x, u) (y, v)).1 (if b then u else v)
second_of_if true x y u v = refl
second_of_if false x y u v = refl

module _ (m : PrivacyPolicyManager) (now url : Bytes) where
  abbrev cleaned : FilterResult
  cleaned = strip_tracking_parameters m.parameters url

  pub clean_lem :
      (sanitize_url m now url).1
      ≡ next_of m m.enabled false cleaned.parameters_removed false
          (removal_event now cleaned)
          (removal_event now cleaned)
          (removal_event now cleaned)
  unfolding sanitize_url next_of
  clean_lem = second_of_if (not m.enabled) _ _ _ _

pub Step-Moves : (m m' : PrivacyPolicyManager) → Step m m' → Moves m m'
unfolding set_database set_privacy_protection_enabled set_exception generate_event_id add_listener
    clear_listeners
Step-Moves _ _ (toggle m b) = (refl, inl (refl, refl))
Step-Moves _ _ (except m host e) = (refl, inl (refl, refl))
Step-Moves _ _ (clean m now url) = subst (Moves m) (sym (clean_lem m now url)) (
    next_of-Moves m m.enabled false _ false _ _ _ (λ id. removal-id now _ id)
      (λ id. removal-id now _ id) (λ id. removal-id now _ id))
Step-Moves _ _ (request m now target init type) =
    subst (Moves m) (sym (next_lem m now target init type)) (
      next_of-Moves m _ _ _ _ _ _ _ (λ id. unfold request_event in refl)
        (λ id. unfold rule_event request_event in refl)
        (λ id. unfold rule_event request_event in refl))
Step-Moves _ _ (number m) = (
  refl,
  inr (
    refl,
    ([], new_event (event_id_of m.process_prefix m.event_counter) [] [], refl, sym (append-nil _)),
  ),
)
Step-Moves _ _ (listen m l) = (refl, inl (refl, refl))
Step-Moves _ _ (silence m) = (refl, inl (refl, refl))
Step-Moves _ _ (reload m db) = (refl, inl (refl, refl))
Step-Moves _ _ (extend m name) = (refl, inl (refl, refl))
