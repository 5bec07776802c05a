-- ===== src/Tests/Manager.antt =====
-- The theorems on the policies, the manager, its events and the throttles at given states.
use thorium_frugal.Base.{
  ◌≡◌, ◌≢◌, refl, true, ◌&&◌, ◌||◌, [], ◌∷◌, some, none, arith, Bytes, codes, All,
}
use thorium_frugal.Types.{script, other, main_frame, is_block}
use thorium_frugal.Events.{PrivacyEventDispatcher}
use thorium_frugal.PolicyManager.{
  PrivacyPolicyManager, new_manager, generate_event_id, page_policy, is_allow_all, is_known,
  evaluate_request,
}
use thorium_frugal.PolicyManager.Requests.{evaluate_request-blocks}
use thorium_frugal.PolicyManager.Reports.{IsReported, evaluate_request-reports}
use thorium_frugal.PolicyManager.Steps.{start, later, request}
use thorium_frugal.PolicyManager.EventIds.{event_ids_fresh}
use thorium_frugal.Throttle.{
  ResourceRequest, RedirectInfo, NavigationHandle, convert_resource_type, sanitized,
  will_start_request, will_redirect_request, check_privacy_policy,
}
use thorium_frugal.Throttle.Cancels.{is_refused, throttle-cancels}
use thorium_frugal.Tests.{tracker_url, page, database, rules, database-Represents}

abbrev site : Bytes
site = codes "news.example.org"

abbrev listeners : PrivacyEventDispatcher
listeners = record { listeners = some 1 ∷ none ∷ some 2 ∷ []; delivered = [] }

abbrev pub manager : PrivacyPolicyManager
manager = record (new_manager (codes "1000")) {
  database = some database;
  event_dispatcher = listeners;
}

blocks_example :
    is_block (evaluate_request manager (codes "now") tracker_url page script).0.decision
    ≡ is_refused manager rules tracker_url page script
blocks_example =
    evaluate_request-blocks manager (codes "now") tracker_url page script database rules refl
      database-Represents

reports_example :
    IsReported manager
      (evaluate_request manager (codes "now") tracker_url page script).1
      (manager.enabled
        && (is_allow_all (page_policy manager page)
            || (is_block (evaluate_request manager (codes "now") tracker_url page script).0.decision
                || is_known
                    (evaluate_request manager
                      (codes "now")
                      tracker_url
                      page
                      script).0.classification)))
      (evaluate_request manager (codes "now") tracker_url page script).0.party_context
      tracker_url
      page
reports_example = evaluate_request-reports manager (codes "now") tracker_url page script

abbrev fresh : PrivacyPolicyManager
fresh = new_manager (codes "1000")

fresh_example :
    All
      (λ d.
        d.1.event_id
        ≢ (generate_event_id (evaluate_request fresh (codes "now") tracker_url page script).1).0)
      (evaluate_request fresh (codes "now") tracker_url page script).1.event_dispatcher.delivered
fresh_example =
    event_ids_fresh (codes "1000") 1
      (evaluate_request fresh (codes "now") tracker_url page script).1
      (later 0 fresh _ start (request fresh (codes "now") tracker_url page script)) (omega arith)

abbrev pub spec_of : Bytes → Bytes
spec_of u = u

abbrev pub resource : ResourceRequest Bytes spec_of spec_of
resource = record { url = tracker_url; request_initiator = some page; resource_type = 3 }

abbrev pub redirect : RedirectInfo Bytes spec_of spec_of
redirect = record { new_url = tracker_url; new_initiator = some page }

abbrev pub navigation : NavigationHandle Bytes spec_of spec_of
navigation = record { handle_url = tracker_url; initiator_origin = none; is_in_main_frame = true }

throttle_example :
    ((will_start_request Bytes spec_of spec_of manager (codes "now") (some resource)).0
      ≡ some (record resource {
        url = (sanitized Bytes spec_of spec_of manager (codes "now") tracker_url).0;
      }))
    × ((will_start_request Bytes spec_of spec_of manager (codes "now") (some resource)).1
        ≡ is_refused manager rules
            (sanitized Bytes spec_of spec_of manager (codes "now") tracker_url).0
            page
            (convert_resource_type 3))
    × ((will_redirect_request Bytes spec_of spec_of manager (codes "now") (some redirect)).0
        ≡ some (record redirect {
          new_url = (sanitized Bytes spec_of spec_of manager (codes "now") tracker_url).0;
        }))
    × ((will_redirect_request Bytes spec_of spec_of manager (codes "now") (some redirect)).1
        ≡ is_refused manager rules
            (sanitized Bytes spec_of spec_of manager (codes "now") tracker_url).0
            page
            other)
    × ((check_privacy_policy Bytes spec_of spec_of manager (codes "now") (some navigation)).0
        ≡ is_refused manager rules tracker_url [] main_frame)
throttle_example =
    throttle-cancels Bytes spec_of spec_of manager (codes "now") database rules refl
      database-Represents resource redirect navigation
