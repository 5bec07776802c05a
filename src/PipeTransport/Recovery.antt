-- ===== src/PipeTransport/Recovery.antt =====
-- An outage, and what is sent once Windows answers again.
use mathlib.Core.Option
use thorium_frugal.Base.{
  ℕ, suc, ◌<◌, ◌-◌, ◌%◌, ◌^◌, ◌≡◌, refl, ap, ◌∙◌, sym, Bool, true, false, List, [], ◌∷◌, ◌++◌, map,
  Option, none, some, arith, Bytes, length, append_assoc, append-nil,
}
use thorium_frugal.EventQueue.Overflow.{keep_last, seen, new_queue-seen, enqueue-seen}
use thorium_frugal.PipeTransport.{
  NamedPipeTransportWin, connected, disconnected, new_transport, framed, write_file, buffer,
  flush_queue, create_file, connect, send_or_buffer, send_payload,
}
use thorium_frugal.PipeTransport.Accounts.{Task, sends, reconnects, after_task, after_tasks}
use thorium_frugal.PipeTransport.Flush.{pipe, successes, flush_sends}

-- The payloads of the tasks, in their order.
abbrev pub payloads : List Task → List Bytes
payloads [] = []
payloads (sends p ∷ ks) = p ∷ payloads ks
payloads (reconnects ∷ ks) = payloads ks

-- One answer of failure for each task: each tries to connect once.
abbrev pub failures : List Task → List Bool
failures ks = map (λ _. false) ks

-- A closed pipe that was given these events.
abbrev down : ℕ → List Bytes → List Bytes → List Bool → NamedPipeTransportWin
down c ps sent answers = record {
  is_open = false;
  status = disconnected;
  event_queue = seen c ps;
  sent = sent;
  answers = answers;
}

module _ (c : ℕ) (sent : List Bytes) where
  buffer-down :
      (ps : List Bytes) (p : Bytes) (answers : List Bool)
      → 0 < c
      → buffer (down c ps sent answers) p ≡ some (down c (ps ++ p ∷ []) sent answers)
  unfolding buffer
  buffer-down ps p answers pos = rw (enqueue-seen c ps p pos) refl

  outage :
      (ps : List Bytes) (ks : List Task) (rest : List Bool)
      → 0 < c
      → after_tasks (down c ps sent (failures ks ++ rest)) ks
        ≡ some (down c (ps ++ payloads ks) sent rest)
  unfolding after_tasks after_task send_payload connect create_file send_or_buffer Option.bind
  outage ps [] rest pos = ap (λ (v : List Bytes). some (down c v sent rest)) (sym (append-nil ps))
  outage ps (sends p ∷ ks) rest pos = rw (buffer-down ps p (failures ks ++ rest) pos) (
      outage (ps ++ p ∷ []) ks rest pos
      ∙ ap (λ (v : List Bytes). some (down c v sent rest)) (append_assoc ps (p ∷ []) (payloads ks)))
  outage ps (reconnects ∷ ks) rest pos = outage ps ks rest pos

open_run :
    (c n : ℕ) (sent : List Bytes) (ks : List Task) (rest : List Bool)
    → after_tasks (pipe true connected c n [] sent (successes (payloads ks) ++ rest)) ks
      ≡ some (pipe true connected c n [] (sent ++ map framed (payloads ks)) rest)
unfolding after_tasks after_task send_payload connect send_or_buffer write_file Option.bind
open_run c n sent [] rest =
    ap (λ (v : List Bytes). some (pipe true connected c n [] v rest)) (sym (append-nil sent))
open_run c n sent (sends p ∷ ks) rest =
    open_run c n (sent ++ framed p ∷ []) ks rest
    ∙ ap (λ (v : List Bytes). some (pipe true connected c n [] v rest))
        (append_assoc sent (framed p ∷ []) (map framed (payloads ks)))
open_run c n sent (reconnects ∷ ks) rest = open_run c n sent ks rest

-- A connection that succeeds, and the flush behind it.
connect-down :
    (c n : ℕ) (ws sent : List Bytes) (rest : List Bool)
    → connect (pipe false disconnected c n ws sent (true ∷ successes ws ++ rest))
      ≡ some (pipe true connected c n [] (sent ++ map framed ws) rest)
unfolding connect create_file flush_queue
connect-down c n ws sent rest =
    flush_sends connected c n (suc (length ws)) ws sent rest (omega arith)

-- The first task that finds Windows ready opens the pipe; then all is sent.
recovery :
    (c n : ℕ) (ws sent : List Bytes) (k : Task) (ks : List Task) (rest : List Bool)
    → after_tasks
        (pipe false disconnected c n ws sent
          (true ∷ successes ws ++ (successes (payloads (k ∷ ks)) ++ rest)))
        (k ∷ ks)
      ≡ some (
          pipe true connected c n []
            ((sent ++ map framed ws) ++ map framed (payloads (k ∷ ks)))
            rest)
unfolding after_tasks after_task send_payload Option.bind
recovery c n ws sent (sends p) ks rest =
    rw (connect-down c n ws sent (true ∷ successes (payloads ks) ++ rest))
      (open_run c n (sent ++ map framed ws) (sends p ∷ ks) rest)
recovery c n ws sent reconnects ks rest =
    rw (connect-down c n ws sent (successes (payloads ks) ++ rest))
      (open_run c n (sent ++ map framed ws) ks rest)

pub after_tasks-append :
    (t : NamedPipeTransportWin) (ks js : List Task)
    → after_tasks t (ks ++ js) ≡ Option.bind (after_tasks t ks) (λ r. after_tasks r js)
unfolding after_tasks Option.bind
after_tasks-append t [] js = refl
after_tasks-append t (k ∷ ks) js = go (after_task t k) (λ u. after_tasks-append u ks js)
  where
    go :
        (r : Option NamedPipeTransportWin)
        → ((u : NamedPipeTransportWin)
            → after_tasks u (ks ++ js) ≡ Option.bind (after_tasks u ks) (λ v. after_tasks v js))
        → Option.bind r (λ u. after_tasks u (ks ++ js))
          ≡ Option.bind (Option.bind r (λ u. after_tasks u ks)) (λ u. after_tasks u js)
    go none ih = refl
    go (some u) ih = ih u

-- What Windows answers: it refuses each task of an outage, then the connection and all writes succeed.
abbrev pub outage_answers : List Task → List Task → List Bool → List Bool
outage_answers missed ks rest =
    failures missed
    ++ (true ∷ successes (keep_last 100 (payloads missed)) ++ (successes (payloads ks) ++ rest))

-- Windows refuses each task of an outage and then answers by success, to at least one task `k` more.
-- At the end the pipe is connected and nothing waits; what is sent are the newest 100 payloads of the
-- outage and then those that came after it, each once, with its line end, in their order; and the
-- other payloads of the outage are counted as lost, modulo `2 ^ 64`.
pub after_outage_lem :
    (missed : List Task) (k : Task) (ks : List Task) (rest : List Bool)
    → after_tasks (new_transport (outage_answers missed (k ∷ ks) rest)) (missed ++ k ∷ ks)
      ≡ some (
          pipe true connected 100
            ((length (payloads missed) - 100) % 2 ^ 64)
            []
            (map framed (keep_last 100 (payloads missed)) ++ map framed (payloads (k ∷ ks)))
            rest)
unfolding new_transport Option.bind
after_outage_lem missed k ks rest =
    let answers =
      true ∷ successes (keep_last 100 (payloads missed))
      ++ (successes (payloads (k ∷ ks)) ++ rest) in
    rw (after_tasks-append, new_queue-seen 100, outage 100 [] [] missed answers (omega arith))
      (recovery 100 ((length (payloads missed) - 100) % 2 ^ 64) (keep_last 100 (payloads missed)) []
        k ks rest)
