-- ===== src/PipeTransport/Posting.antt =====
-- The calls of the other threads: they post tasks to a sequenced task runner, which runs them one after
-- the other, in the order of their posting. `pending` holds the tasks that have not run.
use mathlib.Core.Option
use thorium_frugal.Base.{
  ℕ, ◌+◌, ◌<◌, ◌^◌, arith, ◌≡◌, refl, ap, ◌∙◌, sym, List, [], ◌∷◌, ◌++◌, Option, some, Bytes,
  append_assoc, append-nil, Bool, false, true, ◌↔◌, if◌then◌else◌,
}
use thorium_frugal.PipeTransport.{connected, new_transport, NamedPipeTransportWin, TransportStatus}
use thorium_frugal.PipeTransport.Accounts.{
  new_transport-Accounts, IsSettled, Accounts, sends_of, sends_of-cons, task-Accounts, Task, sends,
  reconnects, after_task, after_tasks,
}

pub record PostedTransport : Type 0 where
  pub transport : NamedPipeTransportWin
  pub pending : List Task

-- `PostTask`.
abbrev post_task : PostedTransport → Task → PostedTransport
post_task s k = record s { pending = s.pending ++ k ∷ [] }

unfoldable pub send_observation : PostedTransport → Bytes → PostedTransport
send_observation s payload = post_task s (sends payload)

unfoldable pub try_reconnect : PostedTransport → PostedTransport
try_reconnect s = post_task s reconnects

-- What another thread reads, without waiting for the tasks.
unfoldable pub get_status : PostedTransport → TransportStatus
get_status s = s.transport.status

-- The destructor closes an open handle; it does not wait for the tasks, nor touch the status.
unfoldable pub destroyed : NamedPipeTransportWin → NamedPipeTransportWin
destroyed t = if t.is_open then record t { is_open = false } else t

-- The runner takes the next task, if there is one.
unfoldable pub run_next : PostedTransport → Option PostedTransport
run_next s = elim s.pending [
  | [] ↦ some s
  | k ∷ ks ↦ Option.map (λ t. record { transport = t; pending = ks }) (after_task s.transport k)
]

-- The constructor.
abbrev pub new_posted : List Bool → PostedTransport
new_posted answers = record { transport = new_transport answers; pending = [] }

-- What happens, in any order: calls of the other threads, and turns of the runner.
pub data Turn : Type 0 where
  calls_send : Bytes → Turn
  calls_reconnect : Turn
  runs : Turn

unfoldable pub after_turn : PostedTransport → Turn → Option PostedTransport
after_turn s (calls_send payload) = some (send_observation s payload)
after_turn s calls_reconnect = some (try_reconnect s)
after_turn s runs = run_next s

unfoldable pub after_turns : PostedTransport → List Turn → Option PostedTransport
after_turns s [] = some s
after_turns s (a ∷ rest) = Option.bind (after_turn s a) (λ u. after_turns u rest)

-- The tasks that the turns post, in their order.
abbrev pub posted : List Turn → List Task
posted [] = []
posted (calls_send payload ∷ rest) = sends payload ∷ posted rest
posted (calls_reconnect ∷ rest) = reconnects ∷ posted rest
posted (runs ∷ rest) = posted rest

IsOpen-status :
    (total : ℕ) (t : NamedPipeTransportWin)
    → Accounts total t
    → (t.status ≡ connected) ↔ (t.is_open ≡ true)
IsOpen-status total t (_, _, settled, _) = go t.is_open t.status t.event_queue.queue settled
  where
    go :
        (open_now : Bool) (s : TransportStatus) (waiting : List Bytes)
        → IsSettled open_now s waiting
        → (s ≡ connected) ↔ (open_now ≡ true)
    go true s waiting (e, _) = (λ _. refl, λ _. e)
    go false s waiting e = (λ c. cc, λ c. cc)

-- After the turns, some tasks have run, and the others are pending, in the order of their posting.
abbrev Ran : NamedPipeTransportWin → List Task → ℕ → Option PostedTransport → Type 0
Ran t all total result =
    (s : PostedTransport) × (done : List Task) × (result ≡ some s)
    × (all ≡ done ++ s.pending)
    × (after_tasks t done ≡ some s.transport)
    × Accounts (total + sends_of done) s.transport

turns-Ran :
    (t : NamedPipeTransportWin) (ks : List Task) (turns : List Turn) (total : ℕ)
    → Accounts total t
    → total + sends_of (ks ++ posted turns) + 1 < 2 ^ 64
    → Ran t (ks ++ posted turns) total (after_turns (record { transport = t; pending = ks }) turns)
unfolding after_turns after_turn run_next send_observation try_reconnect after_tasks Option.bind
turns-Ran t ks [] total (c, l, st, k) h = (
  record { transport = t; pending = ks },
  [],
  refl,
  append-nil ks,
  refl,
  (c, l, st, omega (arith, k)),
)
turns-Ran t ks (calls_send p ∷ rest) total a h =
    let order = append_assoc ks (sends p ∷ []) (posted rest) in
    let (s, done, e, split, ran, acc) =
      turns-Ran t (ks ++ sends p ∷ []) rest total a (rw order h) in
    (s, done, e, sym order ∙ split, ran, acc)
turns-Ran t ks (calls_reconnect ∷ rest) total a h =
    let order = append_assoc ks (reconnects ∷ []) (posted rest) in
    let (s, done, e, split, ran, acc) =
      turns-Ran t (ks ++ reconnects ∷ []) rest total a (rw order h) in
    (s, done, e, sym order ∙ split, ran, acc)
turns-Ran t [] (runs ∷ rest) total a h = turns-Ran t [] rest total a h
turns-Ran t (k ∷ ks) (runs ∷ rest) total a h =
    let (r, e, ar) = task-Accounts t k total a (omega arith) in
    let cons = sends_of-cons k (ks ++ posted rest) in
    let (s, done, f, split, ran, (c, l, st, n)) =
      turns-Ran r ks rest (total + sends_of (k ∷ [])) ar (omega (arith, cons)) in
    (
      s,
      k ∷ done,
      rw e f,
      ap (◌∷◌ k) split,
      rw e ran,
      (c, l, st, omega (arith, n, sends_of-cons k done)),
    )

-- Calls of `SendObservation` and `TryReconnect` and turns of the task runner, in any order, whatever
-- Windows answers, with fewer than `2 ^ 64 - 1` payloads: no call is lost or overtakes another, so the
-- transport is what the first of the posted tasks make of a new one, in their order, and the others are
-- pending. For the tasks that have run the accounts hold, and `GetStatus` says connected exactly
-- while the handle is open.
pub after_turns_lem :
    (answers : List Bool) (turns : List Turn)
    → sends_of (posted turns) + 1 < 2 ^ 64
    → (s : PostedTransport) × (done : List Task) × (after_turns (new_posted answers) turns ≡ some s)
      × (posted turns ≡ done ++ s.pending)
      × (after_tasks (new_transport answers) done ≡ some s.transport)
      × Accounts (sends_of done) s.transport
      × ((get_status s ≡ connected) ↔ (s.transport.is_open ≡ true))
unfolding get_status
after_turns_lem answers turns h =
    let start = new_transport-Accounts answers in
    let (s, done, e, split, ran, (c, l, st, n)) =
      turns-Ran (new_transport answers) [] turns 0 start (omega arith) in
    let acc : Accounts (sends_of done) s.transport = (c, l, st, omega (arith, n)) in
    (s, done, e, split, ran, acc, IsOpen-status (sends_of done) s.transport acc)
