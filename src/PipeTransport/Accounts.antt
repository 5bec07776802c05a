-- ===== src/PipeTransport/Accounts.antt =====
-- The transport over any sequence of its tasks, whatever Windows answers.
use mathlib.Core.Option
use thorium_frugal.Base.{
  ℕ, zero, suc, ◌+◌, ◌^◌, ◌≤◌, ◌<◌, ◌≡◌, refl, ap, ◌∙◌, Bool, true, false, List, [], ◌∷◌, ◌++◌,
  Option, some, arith, Bytes, if◌then◌else◌, length, length-append,
}
use thorium_frugal.EventQueue.{BoundedEventQueue, new_queue, dequeue}
use thorium_frugal.EventQueue.Overflow.{
  IsBounded, enqueued, enqueue_lem, enqueued-IsBounded, enqueued-count,
}
use thorium_frugal.PipeTransport.{
  NamedPipeTransportWin, TransportStatus, connected, disconnected, new_transport, framed,
  write_file, close, buffer, flush_loop, flush_queue, create_file, connect, send_or_buffer,
  send_payload,
}
use thorium_frugal.PipeTransport.Flush.{pipe, buffer_room}

pub data Task : Type 0 where
  sends : Bytes → Task
  reconnects : Task

unfoldable pub after_task : NamedPipeTransportWin → Task → Option NamedPipeTransportWin
after_task t (sends payload) = send_payload t payload
after_task t reconnects = connect t

unfoldable pub after_tasks : NamedPipeTransportWin → List Task → Option NamedPipeTransportWin
after_tasks t [] = some t
after_tasks t (k ∷ ks) = Option.bind (after_task t k) (λ r. after_tasks r ks)

abbrev pub sends_of : List Task → ℕ
sends_of [] = 0
sends_of (sends payload ∷ ks) = suc (sends_of ks)
sends_of (reconnects ∷ ks) = sends_of ks

pub sends_of-cons :
    (k : Task) (ks : List Task) → sends_of (k ∷ ks) ≡ sends_of (k ∷ []) + sends_of ks
sends_of-cons (sends payload) ks = omega arith
sends_of-cons reconnects ks = omega arith

-- Between two tasks: an open pipe is connected and nothing waits, a closed one is disconnected.
abbrev pub IsSettled : Bool → TransportStatus → List Bytes → Type 0
IsSettled true status waiting = (status ≡ connected) × (waiting ≡ [])
IsSettled false status waiting = status ≡ disconnected

-- A settled transport within its capacity of 100, with `total` for what is sent, waits or is lost.
abbrev pub Accounts : ℕ → NamedPipeTransportWin → Type 0
Accounts total t =
    (t.event_queue.max_capacity ≡ 100)
    × (length t.event_queue.queue ≤ t.event_queue.max_capacity)
    × IsSettled t.is_open t.status t.event_queue.queue
    × (length t.sent + (length t.event_queue.queue + t.event_queue.dropped_count) ≡ total)

flush_loop-Accounts :
    (c n fuel : ℕ) (ps sent : List Bytes) (answers : List Bool)
    → c ≡ 100
    → length ps < fuel
    → length ps ≤ c
    → (t : NamedPipeTransportWin) × (flush_loop fuel (pipe true connected c n ps sent answers)
        ≡ some t)
      × Accounts (length sent + (length ps + n)) t
unfolding flush_loop dequeue write_file close
flush_loop-Accounts c n zero ps sent answers pos h le = absurd (omega arith)
flush_loop-Accounts c n (suc fuel) [] sent answers pos h le =
    (pipe true connected c n [] sent answers, refl, (pos, le, (refl, refl), refl))
flush_loop-Accounts c n (suc fuel) (p ∷ ps) sent [] pos h le = (
  pipe false disconnected c n (ps ++ p ∷ []) sent [],
  buffer_room false disconnected c n ps sent [] p (omega arith),
  (pos, omega (arith, length-append ps (p ∷ [])), refl, omega (arith, length-append ps (p ∷ []))),
)
flush_loop-Accounts c n (suc fuel) (p ∷ ps) sent (false ∷ rest) pos h le = (
  pipe false disconnected c n (ps ++ p ∷ []) sent rest,
  buffer_room false disconnected c n ps sent rest p (omega arith),
  (pos, omega (arith, length-append ps (p ∷ [])), refl, omega (arith, length-append ps (p ∷ []))),
)
flush_loop-Accounts c n (suc fuel) (p ∷ ps) sent (true ∷ rest) pos h le =
    let (t, e, (a, b, s, k)) =
      flush_loop-Accounts c n fuel ps (sent ++ framed p ∷ []) rest pos (omega arith)
        (omega arith) in
    (t, e, (a, b, s, omega (arith, k, length-append sent (framed p ∷ []))))

connect-Accounts :
    (o : Bool) (s : TransportStatus) (c n : ℕ) (ps sent : List Bytes) (answers : List Bool)
    (total : ℕ)
    → Accounts total (pipe o s c n ps sent answers)
    → (t : NamedPipeTransportWin) × (connect (pipe o s c n ps sent answers) ≡ some t)
      × Accounts total t
unfolding connect create_file flush_queue
connect-Accounts true s c n ps sent answers total h = (_, refl, h)
connect-Accounts false s c n ps sent [] total (pos, le, st, k) = (_, refl, (pos, le, refl, k))
connect-Accounts false s c n ps sent (false ∷ rest) total (pos, le, st, k) =
    (_, refl, (pos, le, refl, k))
connect-Accounts false s c n ps sent (true ∷ rest) total (pos, le, st, k) =
    let (t, e, (a, b, s', k')) =
      flush_loop-Accounts c n (suc (length ps)) ps sent rest pos (omega arith) le in
    (t, e, (a, b, s', omega (arith, k, k')))

send_or_buffer-Accounts :
    (o : Bool) (s : TransportStatus) (c n : ℕ) (ps sent : List Bytes) (answers : List Bool)
    (total : ℕ) (payload : Bytes)
    → Accounts total (pipe o s c n ps sent answers)
    → total + 1 < 2 ^ 64
    → (t : NamedPipeTransportWin) × (send_or_buffer (pipe o s c n ps sent answers) payload ≡ some t)
      × Accounts (total + 1) t
unfolding send_or_buffer write_file close buffer
send_or_buffer-Accounts false s c n ps sent answers total payload (pos, le, st, k) h =
    let q : BoundedEventQueue = record { max_capacity = c; queue = ps; dropped_count = n } in
    let b : IsBounded q = (omega arith, le) in
    (
      record (pipe false s c n ps sent answers) { event_queue = enqueued q payload },
      rw (enqueue_lem q payload b),
      (
        pos,
        (enqueued-IsBounded q payload b).1,
        st,
        omega (arith, k, enqueued-count q payload b (omega arith)),
      ),
    )
send_or_buffer-Accounts true s c n (p ∷ ps) sent answers total payload (pos, le, st, k) h =
    absurd (cc)
send_or_buffer-Accounts true s c n [] sent [] total payload (pos, le, st, k) h = (
  pipe false disconnected c n (payload ∷ []) sent [],
  buffer_room false disconnected c n [] sent [] payload (omega arith),
  (pos, omega arith, refl, omega arith),
)
send_or_buffer-Accounts true s c n [] sent (false ∷ rest) total payload (pos, le, st, k) h = (
  pipe false disconnected c n (payload ∷ []) sent rest,
  buffer_room false disconnected c n [] sent rest payload (omega arith),
  (pos, omega arith, refl, omega arith),
)
send_or_buffer-Accounts true s c n [] sent (true ∷ rest) total payload (pos, le, st, k) h =
    (_, refl, (pos, le, st, omega (arith, k, length-append sent (framed payload ∷ []))))

lazy : (t : NamedPipeTransportWin) → (if t.is_open then some t else connect t) ≡ connect t
unfolding connect
lazy t = go t.is_open _
  where
    go :
        (b : Bool) (x : Option NamedPipeTransportWin)
        → (if b then some t else (if b then some t else x)) ≡ (if b then some t else x)
    go true x = refl
    go false x = refl

pub task-Accounts :
    (t : NamedPipeTransportWin) (k : Task) (total : ℕ)
    → Accounts total t
    → total + 1 < 2 ^ 64
    → (r : NamedPipeTransportWin) × (after_task t k ≡ some r)
      × Accounts (total + sends_of (k ∷ [])) r
unfolding after_task send_payload Option.bind
task-Accounts t (sends payload) total a h =
    let (r, e, ar) =
      connect-Accounts t.is_open t.status t.event_queue.max_capacity t.event_queue.dropped_count
        t.event_queue.queue t.sent t.answers total a in
    let (u, f, au) =
      send_or_buffer-Accounts r.is_open r.status r.event_queue.max_capacity
        r.event_queue.dropped_count r.event_queue.queue r.sent r.answers total payload ar h in
    (
      u,
      ap (λ (x : Option NamedPipeTransportWin). Option.bind x (λ v. send_or_buffer v payload))
            (lazy t ∙ e)
          ∙ f,
      au,
    )
task-Accounts t reconnects total a h =
    let (r, e, (c, l, st, k)) =
      connect-Accounts t.is_open t.status t.event_queue.max_capacity t.event_queue.dropped_count
        t.event_queue.queue t.sent t.answers total a in
    (r, e, (c, l, st, omega (arith, k)))

tasks-Accounts :
    (t : NamedPipeTransportWin) (ks : List Task) (total : ℕ)
    → Accounts total t
    → total + sends_of ks + 1 < 2 ^ 64
    → (r : NamedPipeTransportWin) × (after_tasks t ks ≡ some r) × Accounts (total + sends_of ks) r
unfolding after_tasks Option.bind
tasks-Accounts t [] total (c, l, st, k) h = (t, refl, (c, l, st, omega (arith, k)))
tasks-Accounts t (j ∷ ks) total a h =
    let (r, e, ar) = task-Accounts t j total a (omega arith) in
    let split = sends_of-cons j ks in
    let (u, f, (c, l, st, k)) =
      tasks-Accounts r ks (total + sends_of (j ∷ [])) ar (omega (arith, split)) in
    (u, rw e f, (c, l, st, omega (arith, k, split)))

pub new_transport-Accounts : (answers : List Bool) → Accounts 0 (new_transport answers)
unfolding new_transport new_queue
new_transport-Accounts answers = (refl, omega arith, refl, refl)

-- Whatever Windows answers to fewer than `2 ^ 64 - 1` sends, in any order with reconnects: every
-- task is defined; between two tasks the status is connected exactly when the handle is open, and
-- then nothing waits, and disconnected otherwise; at most 100 events wait; and the messages sent,
-- the events that wait and those counted as lost are together as many as the sends.
after_tasks-Accounts :
    (answers : List Bool) (tasks : List Task)
    → sends_of tasks + 1 < 2 ^ 64
    → (t : NamedPipeTransportWin) × (after_tasks (new_transport answers) tasks ≡ some t)
      × Accounts (sends_of tasks) t
after_tasks-Accounts answers tasks h =
    let start = new_transport-Accounts answers in
    let (t, e, (c, l, st, k)) =
      tasks-Accounts (new_transport answers) tasks 0 start (omega arith) in
    (t, e, (c, l, st, omega (arith, k)))
