-- ===== src/Tests/Transport.antt =====
-- The theorems on the queue and the pipe at given calls and answers.
use thorium_frugal.Base.{
  ◌-◌, ◌%◌, ◌^◌, ◌≤◌, ◌≡◌, ◌↔◌, refl, true, false, List, [], ◌∷◌, ◌++◌, map, some, arith, Bytes,
  codes, length, All, none, if◌then◌else◌, ◌==◌,
}
use thorium_frugal.EventQueue.{BoundedEventQueue, new_queue}
use thorium_frugal.EventQueue.Overflow.{keep_last, enqueue_all, enqueue_all-newest}
use thorium_frugal.EventQueue.Runs.{
  Call, enqueues, enqueues_content, dequeues, after_calls, after_calls-bounded,
}
use thorium_frugal.PipeTransport.{
  NamedPipeTransportWin, connected, disconnected, new_transport, framed, flush_queue,
}
use thorium_frugal.PipeTransport.Flush.{pipe, successes, flush_queue_lem}
use thorium_frugal.PipeTransport.Recovery.{payloads, outage_answers, after_outage_lem}
use thorium_frugal.PipeTransport.Posting.{
  PostedTransport, new_posted, get_status, Turn, calls_send, calls_reconnect, runs, after_turns,
  posted, after_turns_lem,
}
use thorium_frugal.PipeTransport.Lifetime.{
  alive, gone, takes, destroys, after_life, waiting, turns_of_runner, after_life_lem,
}
use thorium_frugal.PipeTransport.Accounts.{Task, sends, reconnects, after_tasks, Accounts, sends_of}

abbrev events : List Bytes
events = codes "a" ∷ codes "b" ∷ codes "c" ∷ []

newest_example :
    enqueue_all (new_queue 2) events
    ≡ some (record {
      max_capacity = 2;
      queue = keep_last 2 events;
      dropped_count = (length events - 2) % 2 ^ 64;
    })
newest_example = enqueue_all-newest 2 events (omega arith)

abbrev calls : List Call
calls =
    enqueues (codes "a")
    ∷ enqueues_content (codes "secret") false
    ∷ enqueues_content (codes "a") true
    ∷ dequeues
    ∷ []

bounded_example :
    (q : BoundedEventQueue) × (after_calls (new_queue 1) calls ≡ some q)
    × (length q.queue ≤ 1)
    × All (λ p. p ≡ codes "a") q.queue
bounded_example =
    after_calls-bounded (λ p. p ≡ codes "a") 1 calls (omega arith) (refl, (tt, (refl, (tt, tt))))

flush_example :
    (flush_queue (pipe true connected 100 0 (codes "a" ∷ []) [] (successes (codes "a" ∷ []) ++ []))
      ≡ some (pipe true connected 100 0 [] ([] ++ map framed (codes "a" ∷ [])) []))
    × (flush_queue (
          pipe true connected 100 0
            ((codes "a" ∷ []) ++ codes "b" ∷ codes "c" ∷ [])
            []
            (successes (codes "a" ∷ []) ++ false ∷ []))
        ≡ some (
            pipe false disconnected 100 0
              ((codes "c" ∷ []) ++ codes "b" ∷ [])
              ([] ++ map framed (codes "a" ∷ []))
              []))
flush_example =
    flush_queue_lem connected 100 0 (codes "a" ∷ []) (codes "c" ∷ []) [] (codes "b") []
      (omega arith)

abbrev missed : List Task
missed = sends (codes "a") ∷ reconnects ∷ sends (codes "b") ∷ []

outage_example :
    after_tasks
      (new_transport (outage_answers missed (reconnects ∷ sends (codes "c") ∷ []) []))
      (missed ++ reconnects ∷ sends (codes "c") ∷ [])
    ≡ some (
        pipe true connected 100
          ((length (payloads missed) - 100) % 2 ^ 64)
          []
          (map framed (keep_last 100 (payloads missed)) ++ map framed (codes "c" ∷ []))
          [])
outage_example = after_outage_lem missed reconnects (sends (codes "c") ∷ []) []

abbrev turns : List Turn
turns = calls_send (codes "a") ∷ calls_reconnect ∷ runs ∷ calls_send (codes "b") ∷ runs ∷ []

turns_example :
    (s : PostedTransport) × (done : List Task) × (after_turns (new_posted (true ∷ false ∷ [])) turns
      ≡ some s)
    × (posted turns ≡ done ++ s.pending)
    × (after_tasks (new_transport (true ∷ false ∷ [])) done ≡ some s.transport)
    × Accounts (sends_of done) s.transport
    × ((get_status s ≡ connected) ↔ (s.transport.is_open ≡ true))
turns_example = after_turns_lem (true ∷ false ∷ []) turns (omega arith)

abbrev served : List Turn
served = calls_send (codes "a") ∷ calls_reconnect ∷ runs ∷ runs ∷ []

lifetime_example :
    (t : NamedPipeTransportWin) × (t.is_open ≡ false)
    × (after_life
          (alive (new_posted (true ∷ false ∷ [])))
          (map takes served ++ destroys ∷ turns_of_runner 3)
        ≡ (if waiting 0 served == 0 then some (gone t []) else none))
lifetime_example = after_life_lem (true ∷ false ∷ []) served 2 (omega arith)
