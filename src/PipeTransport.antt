-- ===== src/PipeTransport.antt =====
-- cognitia_adapter/transport/named_pipe_transport_win.cc. Its methods run one after the other, as tasks
-- of a sequenced task runner. What Windows answers to `CreateFileW` and `WriteFile` is a list of
-- Booleans, read from its front, and false from its end on; `sent` holds the messages of the writes that
-- were answered by success, oldest first.
pub mod Flush
pub mod Accounts
pub mod Recovery
pub mod Posting
pub mod Lifetime
pub mod Interface
use mathlib.Core.Option
pub use thorium_frugal.Transport.{TransportStatus, disconnected, connecting, connected, error}
use thorium_frugal.Base.{
  ℕ, zero, suc, ◌+◌, ◌≡◌, refl, Bool, true, false, List, [], ◌∷◌, ◌++◌, Option, none, some, Bytes,
  codes, if◌then◌else◌, length,
}
use thorium_frugal.EventQueue.{BoundedEventQueue, new_queue, enqueue, dequeue}

-- `is_open`: the handle is not `INVALID_HANDLE_VALUE`.
pub record NamedPipeTransportWin : Type 0 where
  pub is_open : Bool
  pub status : TransportStatus
  pub event_queue : BoundedEventQueue
  pub sent : List Bytes
  pub answers : List Bool

-- The constructor, with the answers to come.
unfoldable pub new_transport : List Bool → NamedPipeTransportWin
new_transport answers = record {
  is_open = false;
  status = disconnected;
  event_queue = new_queue 100;
  sent = [];
  answers = answers;
}

abbrev pub framed : Bytes → Bytes
framed item = item ++ codes "\n"

-- The next answer.
abbrev pub next_answer : List Bool → Bool
next_answer [] = false
next_answer (a ∷ rest) = a

abbrev pub other_answers : List Bool → List Bool
other_answers [] = []
other_answers (a ∷ rest) = rest

-- The state after `WriteFile`; its answer is `next_answer`.
unfoldable pub write_file : NamedPipeTransportWin → Bytes → NamedPipeTransportWin
write_file t message = record t {
  answers = other_answers t.answers;
  sent = if next_answer t.answers then t.sent ++ message ∷ [] else t.sent;
}

-- `CloseHandle`, and the two assignments behind it.
unfoldable pub close : NamedPipeTransportWin → NamedPipeTransportWin
close t = record t { is_open = false; status = disconnected }

unfoldable pub buffer : NamedPipeTransportWin → Bytes → Option NamedPipeTransportWin
buffer t item = Option.map (λ q. record t { event_queue = q }) (enqueue t.event_queue item)

-- The loop of the flush, on fuel.
unfoldable pub flush_loop : ℕ → NamedPipeTransportWin → Option NamedPipeTransportWin
flush_loop zero t = some t
flush_loop (suc fuel) t = elim (dequeue t.event_queue).0 [
  | none ↦ some t
  | some item ↦
      let popped = record t { event_queue = (dequeue t.event_queue).1 } in
      let written = write_file popped (framed item) in
      elim (next_answer t.answers) [
        | true ↦ flush_loop fuel written
        | false ↦ buffer (close written) item
      ]
]

unfoldable pub flush_queue : NamedPipeTransportWin → Option NamedPipeTransportWin
flush_queue t = if t.is_open then flush_loop (suc (length t.event_queue.queue)) t else some t

-- The state after `CreateFileW`; `connecting` is what another thread may read during the call.
unfoldable pub create_file : NamedPipeTransportWin → NamedPipeTransportWin
create_file t =
    let trying = record t { status = connecting } in
    record trying { is_open = next_answer t.answers; answers = other_answers t.answers }

unfoldable pub connect : NamedPipeTransportWin → Option NamedPipeTransportWin
connect t =
    let created = create_file t in
    if t.is_open
    then some t
    else if created.is_open
    then flush_queue (record created { status = connected })
    else some (record created { status = disconnected })

-- What `SendPayloadOnBackgroundThread` does behind the lazy connect.
unfoldable pub send_or_buffer : NamedPipeTransportWin → Bytes → Option NamedPipeTransportWin
send_or_buffer t payload =
    let written = write_file t (framed payload) in
    if t.is_open
    then (if next_answer t.answers then some written else buffer (close written) payload)
    else buffer t payload

unfoldable pub send_payload : NamedPipeTransportWin → Bytes → Option NamedPipeTransportWin
send_payload t payload =
    Option.bind (if t.is_open then some t else connect t) (λ r. send_or_buffer r payload)
