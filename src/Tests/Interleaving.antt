-- ===== src/Tests/Interleaving.antt =====
-- The theorem on event numbers at two threads that report at the same time, and the one on a thread that
-- is not interrupted at two events.
use thorium_frugal.Base.{◌≡◌, ◌≢◌, ◌↔◌, refl, [], ◌∷◌, none, some, arith, Bytes, codes, All, ℕ}
use thorium_frugal.Types.{script, third_party}
use thorium_frugal.Events.{PrivacyEvent}
use thorium_frugal.PolicyManager.{PrivacyPolicyManager, event_id_of, new_manager, request_event}
use thorium_frugal.PolicyManager.Threads.{
  Threads, idle, new_threads, moved, fetch_add, copy_listeners, call_listener, takes, copies, calls,
  adds, Reach, start, later,
}
use thorium_frugal.PolicyManager.Threads.Numbers.{thread_ids_distinct}
use thorium_frugal.PolicyManager.Threads.Whole.{
  Steps, IsStateOf, IsMarked, raise_all, raise_all-Steps,
}
use thorium_frugal.Tests.{tracker_url, page}

abbrev heard : Threads
heard = record new_threads { listeners = some 7 ∷ [] }

abbrev both : Threads
both = fetch_add (fetch_add heard 0) 1

-- The second thread is the first to call the listener.
abbrev second_called : Threads
second_called = call_listener (copy_listeners both 1 2) 1 2 (some 7) []

second_called-Reach : Reach 5 second_called
unfolding fetch_add copy_listeners call_listener moved
second_called-Reach =
    later 4 _ _
      (later 3 _ _
        (later 2 _ _
          (later 1 _ _ (later 0 _ _ start (adds new_threads (some 7))) (takes heard 0 refl))
          (takes (fetch_add heard 0) 1 refl))
        (copies both 1 2 refl))
      (calls (copy_listeners both 1 2) 1 2 (some 7) [] refl)

interleaving_example :
    All
      (λ d. event_id_of (codes "p_") d.1 ≢ event_id_of (codes "p_") second_called.event_counter)
      second_called.delivered
    × (event_id_of (codes "p_") 1 ≢ event_id_of (codes "p_") second_called.event_counter)
    × ((event_id_of (codes "p_") 1 ≡ event_id_of (codes "p_") 2) ↔ (◌≡◌ {A = ℕ} 0 1))
unfolding fetch_add copy_listeners call_listener moved
interleaving_example =
    thread_ids_distinct (codes "p_") 5 second_called 0 1 1 2 second_called-Reach (omega arith) refl
      refl

abbrev listened : PrivacyPolicyManager
listened = record (new_manager (codes "00ff")) {
  event_dispatcher = record { listeners = some 7 ∷ none ∷ []; delivered = [] };
}

abbrev heard_by_one : Threads
heard_by_one = record new_threads { listeners = some 7 ∷ none ∷ [] }

abbrev blocked : Bytes → PrivacyEvent
blocked =
    request_event (codes "now") tracker_url page script third_party
      (codes "privacy.request_blocked")

listened-IsStateOf : IsStateOf heard_by_one listened
unfolding new_manager
listened-IsStateOf = record { same_counter = refl; same_listeners = refl; same_deliveries = refl }

blocked-IsMarked : IsMarked blocked
unfolding request_event
blocked-IsMarked id = refl

whole_example :
    (t : Threads) × Steps heard_by_one t
    × (t.phase 0 ≡ idle)
    × IsStateOf t (raise_all listened (blocked ∷ blocked ∷ []))
whole_example =
    raise_all-Steps (blocked ∷ blocked ∷ []) listened heard_by_one 0
      (blocked-IsMarked, (blocked-IsMarked, tt)) refl listened-IsStateOf
