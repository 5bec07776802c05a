-- ===== src/Events.antt =====
-- privacy_events/privacy_event.h and privacy_event_dispatcher.cc. A listener is a callback of the
-- embedder: it is known by a number, and what reaches it is a delivery. A null `std::function` is
-- `none`. The listeners are copied under the mutex before any is called.
use thorium_frugal.Base.{
  ℕ, ◌≡◌, refl, ◌∙◌, sym, List, [], ◌∷◌, ◌++◌, Option, none, some, Bytes, append-nil, append_assoc,
  map,
}
use thorium_frugal.Types.{PartyContext, TrackerClassification, first_party, not_tracker}

pub record PrivacyEvent : Type 0 where
  pub event_id : Bytes
  pub event_type : Bytes
  pub host : Bytes
  pub sanitized_url : Bytes
  pub initiator_origin : Bytes
  pub party_context : PartyContext
  pub resource_type : Bytes
  pub classification : TrackerClassification
  pub rule_id : Bytes
  pub stripped_parameters : List Bytes
  pub timestamp : Bytes

-- An event with this identifier, type and time, and the member initialisers.
abbrev pub new_event : Bytes → Bytes → Bytes → PrivacyEvent
new_event id type now = record {
  event_id = id;
  event_type = type;
  host = [];
  sanitized_url = [];
  initiator_origin = [];
  party_context = first_party;
  resource_type = [];
  classification = not_tracker;
  rule_id = [];
  stripped_parameters = [];
  timestamp = now;
}

abbrev pub Delivery : Type 0
Delivery = ℕ × PrivacyEvent

-- The listeners, and the deliveries made so far, oldest first.
pub record PrivacyEventDispatcher : Type 0 where
  pub listeners : List (Option ℕ)
  pub delivered : List Delivery

unfoldable pub add_listener : PrivacyEventDispatcher → Option ℕ → PrivacyEventDispatcher
add_listener d l = record d { listeners = d.listeners ++ l ∷ [] }

unfoldable pub clear_listeners : PrivacyEventDispatcher → PrivacyEventDispatcher
clear_listeners d = record d { listeners = [] }

dispatch_loop : List (Option ℕ) → PrivacyEvent → List Delivery → List Delivery
dispatch_loop [] event out = out
dispatch_loop (none ∷ ls) event out = dispatch_loop ls event out
dispatch_loop (some l ∷ ls) event out = dispatch_loop ls event (out ++ (l, event) ∷ [])

unfoldable pub dispatch_event : PrivacyEventDispatcher → PrivacyEvent → PrivacyEventDispatcher
unfolding dispatch_loop
dispatch_event d event = record d { delivered = dispatch_loop d.listeners event d.delivered }

-- The listeners that can be called.
abbrev pub callable : List (Option ℕ) → List ℕ
callable [] = []
callable (none ∷ ls) = callable ls
callable (some l ∷ ls) = l ∷ callable ls

loop_lem :
    (ls : List (Option ℕ)) (event : PrivacyEvent) (out : List Delivery)
    → dispatch_loop ls event out ≡ out ++ map (λ l. (l, event)) (callable ls)
unfolding dispatch_loop
loop_lem [] event out = sym (append-nil out)
loop_lem (none ∷ ls) event out = loop_lem ls event out
loop_lem (some l ∷ ls) event out =
    loop_lem ls event (out ++ (l, event) ∷ []) ∙ append_assoc out ((l, event) ∷ []) _

-- An event reaches each listener that is not null once, in the order of registration, after all that
-- was delivered before; the listeners stay.
pub dispatch_event_lem :
    (d : PrivacyEventDispatcher) (event : PrivacyEvent)
    → ((dispatch_event d event).delivered
        ≡ d.delivered ++ map (λ l. (l, event)) (callable d.listeners))
      × ((dispatch_event d event).listeners ≡ d.listeners)
unfolding dispatch_event
dispatch_event_lem d event = (loop_lem d.listeners event d.delivered, refl)
