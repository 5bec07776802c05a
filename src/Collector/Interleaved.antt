-- ===== src/Collector/Interleaved.antt =====
-- Callbacks of the browser and turns of the task runner of the pipe, in any order. The collector owns the
-- transport: nobody else calls it.
use mathlib.Core.Option
use thorium_frugal.Base.{
  ℕ, suc, ◌+◌, ◌*◌, ◌≤◌, ◌<◌, ◌^◌, ◌≡◌, ◌↔◌, refl, ap, ◌∙◌, sym, Bool, true, List, [], ◌∷◌, ◌++◌,
  Option, none, some, arith, Bytes, map, All, All-append, length, length-append,
}
use thorium_frugal.Transport.{send_all, connected}
use thorium_frugal.UrlSanitizer.{UrlExposurePolicy, UrlApi}
use thorium_frugal.Envelope.{ValueApi}
use thorium_frugal.PipeTransport.{new_transport}
use thorium_frugal.PipeTransport.Accounts.{Task, sends, after_tasks, Accounts, sends_of}
use thorium_frugal.PipeTransport.Posting.{
  PostedTransport, new_posted, send_observation, get_status, run_next, Turn, calls_send, runs,
  after_turn, after_turns, posted, after_turns_lem,
}
use thorium_frugal.PipeTransport.Interface.{pipe_transport}
use thorium_frugal.Envelope.Observation.{to_json}
use thorium_frugal.Collector.{BrowserObservationCollector}
use thorium_frugal.Collector.Callbacks.{
  Callback, observed, after_callback, collecting, after_callback_lem,
}
use thorium_frugal.Collector.Observations.{IsObservation, observed_lem}

module _ {GURL : Type 0} (api : UrlApi GURL) (blank empty : GURL) {Value Dict : Type 0}
    (values : ValueApi Value Dict) where
  pub data Event : Type 0 where
    calls_back : Callback api blank empty values → Event
    runs_task : Event

  -- A turn of the runner, where there is a transport.
  pub after_run :
      BrowserObservationCollector PostedTransport
      → Option PostedTransport
      → Option (BrowserObservationCollector PostedTransport)
  after_run c none = some c
  after_run c (some s) = Option.map (λ u. record c { transport = some u }) (run_next s)

  unfoldable pub after_event :
      BrowserObservationCollector PostedTransport
      → Event
      → Option (BrowserObservationCollector PostedTransport)
  unfolding after_run
  after_event c (calls_back k) = some (after_callback api blank empty values pipe_transport c k)
  after_event c runs_task = after_run c c.transport

  unfoldable pub after_events :
      BrowserObservationCollector PostedTransport
      → List Event
      → Option (BrowserObservationCollector PostedTransport)
  after_events c [] = some c
  after_events c (e ∷ es) = Option.bind (after_event c e) (λ d. after_events d es)

  abbrev pub callbacks_in : List Event → ℕ
  callbacks_in [] = 0
  callbacks_in (calls_back k ∷ es) = suc (callbacks_in es)
  callbacks_in (runs_task ∷ es) = callbacks_in es

  calls_lem :
      (ms : List Bytes) (s : PostedTransport) (turns : List Turn)
      → after_turns s (map calls_send ms ++ turns)
        ≡ after_turns (send_all pipe_transport s ms) turns
  unfolding after_turns after_turn Option.bind
  calls_lem [] s turns = refl
  calls_lem (m ∷ ms) s turns = calls_lem ms (send_observation s m) turns

  posted_calls :
      (ms qs : List Bytes) (turns : List Turn)
      → posted turns ≡ map sends qs
      → posted (map calls_send ms ++ turns) ≡ map sends (ms ++ qs)
  posted_calls [] qs turns h = h
  posted_calls (m ∷ ms) qs turns h = ap (◌∷◌ (sends m)) (posted_calls ms qs turns h)

  -- The events amount to turns, which post observations.
  abbrev IsTurns : UrlExposurePolicy → PostedTransport → List Event → Type 0
  IsTurns policy s es =
      (turns : List Turn) × (messages : List Bytes) × (posted turns ≡ map sends messages)
      × (length messages ≤ 2 * callbacks_in es)
      × All (IsObservation api blank empty values policy) messages
      × ((u : PostedTransport)
          → after_turns s turns ≡ some u
          → after_events (collecting api blank empty values pipe_transport true policy s) es
            ≡ some (collecting api blank empty values pipe_transport true policy u))

  sends_of_sends : (ms : List Bytes) → sends_of (map sends ms) ≡ length ms
  sends_of_sends [] = refl
  sends_of_sends (m ∷ ms) = ap suc (sends_of_sends ms)

  -- The same for the events behind a turn of the runner, which may be undefined.
  abbrev IsRun : UrlExposurePolicy → List Event → Option PostedTransport → Type 0
  IsRun policy es o =
      (turns : List Turn) × (messages : List Bytes) × (posted turns ≡ map sends messages)
      × (length messages ≤ 2 * callbacks_in es)
      × All (IsObservation api blank empty values policy) messages
      × ((u : PostedTransport)
          → Option.bind o (λ s. after_turns s turns) ≡ some u
          → Option.bind
              (Option.map (λ s. collecting api blank empty values pipe_transport true policy s) o)
              (λ d. after_events d es)
            ≡ some (collecting api blank empty values pipe_transport true policy u))

  turn-IsRun :
      (policy : UrlExposurePolicy) (es : List Event) (o : Option PostedTransport)
      → ((s : PostedTransport) → IsTurns policy s es)
      → IsRun policy es o
  unfolding Option.bind
  turn-IsRun policy es none h = ([], [], refl, omega arith, tt, λ u e. cc)
  turn-IsRun policy es (some s) h = h s

  events-IsTurns :
      (policy : UrlExposurePolicy) (es : List Event) (s : PostedTransport) → IsTurns policy s es
  unfolding after_events after_event after_run after_turns after_turn Option.bind
  events-IsTurns policy [] s = (
    [],
    [],
    refl,
    omega arith,
    tt,
    λ u h. ap (Option.map (collecting api blank empty values pipe_transport true policy)) h,
  )
  events-IsTurns policy (calls_back k ∷ es) s =
      let m = map (to_json values) (observed api blank empty values policy k) in
      let e = after_callback_lem api blank empty values pipe_transport policy s k in
      let (le, all) = observed_lem api blank empty values policy k in
      let (turns, ms, p, le', all', run) = events-IsTurns policy es (send_all pipe_transport s m) in
      (
        map calls_send m ++ turns,
        m ++ ms,
        posted_calls m ms turns p,
        omega (arith, le, le', length-append m ms),
        All-append _ m ms all all',
        λ u h. ap (λ c. after_events c es) e ∙ run u (sym (calls_lem m s turns) ∙ h),
      )
  events-IsTurns policy (runs_task ∷ es) s =
      let (turns, ms, p, le, all, run) =
        turn-IsRun policy es (run_next s) (λ u. events-IsTurns policy es u) in
      (runs ∷ turns, ms, p, le, all, run)

  -- However callbacks and turns of the task runner interleave, whatever Windows answers, for fewer than
  -- `2 ^ 63` callbacks: nothing undefined is met; the collector stays enabled, with its policy; what
  -- it has sent are observations under the policy, at most two for each callback; the first of them are
  -- what the pipe has taken, in order, and the others are pending, in order, so none is lost between the
  -- two; for those that the pipe has taken the accounts hold, and `GetStatus` says connected exactly while
  -- the handle is open.
  pub after_events_lem :
      (answers : List Bool) (policy : UrlExposurePolicy) (es : List Event)
      → 2 * callbacks_in es + 1 < 2 ^ 64
      → (s : PostedTransport) × (messages : List Bytes) × (done : List Task) × (after_events
            (collecting api blank empty values pipe_transport true policy (new_posted answers))
            es
          ≡ some (collecting api blank empty values pipe_transport true policy s))
        × (length messages ≤ 2 * callbacks_in es)
        × All (IsObservation api blank empty values policy) messages
        × (map sends messages ≡ done ++ s.pending)
        × (after_tasks (new_transport answers) done ≡ some s.transport)
        × Accounts (sends_of done) s.transport
        × ((get_status s ≡ connected) ↔ (s.transport.is_open ≡ true))
  after_events_lem answers policy es small =
      let (turns, ms, p, few, all, run) = events-IsTurns policy es (new_posted answers) in
      let count : sends_of (posted turns) ≡ length ms = ap sends_of p ∙ sends_of_sends ms in
      let (s, done, e, split, ran, acc, status) =
        after_turns_lem answers turns (omega (arith, count, few)) in
      (s, ms, done, run s e, few, all, sym p ∙ split, ran, acc, status)
