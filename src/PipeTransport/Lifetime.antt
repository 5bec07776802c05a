-- ===== src/PipeTransport/Lifetime.antt =====
-- The end of the transport: tasks are posted with `base::Unretained(this)`, and the destructor does not
-- wait for them. What uses a destroyed object is undefined, `none`.
use mathlib.Core.Option
use thorium_frugal.Base.{
  ℕ, zero, suc, ◌+◌, ◌<◌, ◌-◌, ◌^◌, arith, ◌≡◌, refl, ap, ◌∙◌, List, [], ◌∷◌, ◌++◌, Option, none,
  some, append_assoc, Bool, false, ◌==◌, if◌then◌else◌, map, length, length-append, inl, inr,
  Bool-cases,
}
use thorium_frugal.PipeTransport.{new_transport, NamedPipeTransportWin}
use thorium_frugal.PipeTransport.Accounts.{
  new_transport-Accounts, Accounts, sends_of, sends_of-cons, task-Accounts, Task, sends, reconnects,
}
use thorium_frugal.PipeTransport.Posting.{
  PostedTransport, new_posted, send_observation, try_reconnect, run_next, destroyed, Turn,
  calls_send, calls_reconnect, runs, after_turn, posted,
}

-- The object, or what its destructor leaves, with the tasks that are still pending at the runner.
pub data Life : Type 0 where
  alive : PostedTransport → Life
  gone : NamedPipeTransportWin → List Task → Life

pub data LifeTurn : Type 0 where
  takes : Turn → LifeTurn
  destroys : LifeTurn

-- After the end, the runner can have a turn without a task, and nothing else is defined.
after_life_turn : Life → LifeTurn → Option Life
after_life_turn (alive s) (takes a) = Option.map alive (after_turn s a)
after_life_turn (alive s) destroys = some (gone (destroyed s.transport) s.pending)
after_life_turn (gone t []) (takes runs) = some (gone t [])
after_life_turn (gone t (k ∷ ks)) (takes runs) = none
after_life_turn (gone t ks) (takes (calls_send p)) = none
after_life_turn (gone t ks) (takes calls_reconnect) = none
after_life_turn (gone t ks) destroys = none

pub after_life : Life → List LifeTurn → Option Life
after_life l [] = some l
after_life l (a ∷ rest) = Option.bind (after_life_turn l a) (λ u. after_life u rest)

-- How many tasks wait after the turns, where `w` wait before: a call adds one, a turn of the runner
-- takes one if there is one.
abbrev pub waiting : ℕ → List Turn → ℕ
waiting w [] = w
waiting w (calls_send p ∷ rest) = waiting (w + 1) rest
waiting w (calls_reconnect ∷ rest) = waiting (w + 1) rest
waiting w (runs ∷ rest) = waiting (w - 1) rest

abbrev pub turns_of_runner : ℕ → List LifeTurn
turns_of_runner zero = []
turns_of_runner (suc n) = takes runs ∷ turns_of_runner n

-- While the object lives, all turns are defined.
abbrev Lives : Life → List Turn → ℕ → Type 0
Lives l before w =
    (u : PostedTransport) × (length u.pending ≡ waiting w before)
    × ((rest : List LifeTurn) → after_life l (map takes before ++ rest) ≡ after_life (alive u) rest)

before_lem :
    (t : NamedPipeTransportWin) (ks : List Task) (before : List Turn) (total : ℕ)
    → Accounts total t
    → total + sends_of (ks ++ posted before) + 1 < 2 ^ 64
    → Lives (alive (record { transport = t; pending = ks })) before (length ks)
unfolding after_life after_life_turn after_turn run_next send_observation try_reconnect Option.bind
before_lem t ks [] total a h = (record { transport = t; pending = ks }, refl, λ rest. refl)
before_lem t ks (calls_send p ∷ before) total a h =
    let (u, n, e) =
      before_lem t (ks ++ sends p ∷ []) before total a
        (rw (append_assoc ks (sends p ∷ []) (posted before)) h) in
    (u, n ∙ ap (λ w. waiting w before) (length-append ks (sends p ∷ [])), e)
before_lem t ks (calls_reconnect ∷ before) total a h =
    let (u, n, e) =
      before_lem t (ks ++ reconnects ∷ []) before total a
        (rw (append_assoc ks (reconnects ∷ []) (posted before)) h) in
    (u, n ∙ ap (λ w. waiting w before) (length-append ks (reconnects ∷ [])), e)
before_lem t [] (runs ∷ before) total a h = before_lem t [] before total a h
before_lem t (k ∷ ks) (runs ∷ before) total a h =
    let (r, ran, ar) = task-Accounts t k total a (omega arith) in
    let (u, n, e) =
      before_lem r ks before (total + sends_of (k ∷ [])) ar
        (omega (arith, sends_of-cons k (ks ++ posted before))) in
    (u, n ∙ ap (λ w. waiting w before) (omega arith), λ rest. rw ran (e rest))

destroyed-closed : (t : NamedPipeTransportWin) → (destroyed t).is_open ≡ false
unfolding destroyed
destroyed-closed t = elim (Bool-cases t.is_open) [ inl e ↦ rw e refl | inr e ↦ rw e refl ]

idle_turns :
    (n : ℕ) (t : NamedPipeTransportWin)
    → after_life (gone t []) (turns_of_runner n) ≡ some (gone t [])
unfolding after_life after_life_turn Option.bind
idle_turns zero t = refl
idle_turns (suc n) t = idle_turns n t

after_end :
    (n w : ℕ) (t : NamedPipeTransportWin) (ks : List Task)
    → length ks ≡ w
    → after_life (gone t ks) (turns_of_runner (suc n)) ≡ (if w == 0 then some (gone t []) else none)
unfolding after_life after_life_turn Option.bind
after_end n zero t [] h = idle_turns n t
after_end n (suc w) t [] h = absurd (omega arith)
after_end n zero t (k ∷ ks) h = absurd (omega arith)
after_end n (suc w) t (k ∷ ks) h = let no : (suc w == 0) ≡ false = ground arith in rw no refl

-- Calls and turns of the task runner in any order, whatever Windows answers, with fewer than
-- `2 ^ 64 - 1` payloads, then the destructor, and then at least one turn of the runner: all of this is
-- defined exactly when no task waits as the destructor runs, that is, when each call has been
-- followed by its turn of the runner. In that case the handle is closed in the end.
pub after_life_lem :
    (answers : List Bool) (before : List Turn) (n : ℕ)
    → sends_of (posted before) + 1 < 2 ^ 64
    → (t : NamedPipeTransportWin) × (t.is_open ≡ false)
      × (after_life
            (alive (new_posted answers))
            (map takes before ++ destroys ∷ turns_of_runner (suc n))
          ≡ (if waiting 0 before == 0 then some (gone t []) else none))
unfolding after_life after_life_turn Option.bind
after_life_lem answers before n h =
    let (u, w, e) =
      before_lem (new_transport answers) [] before 0 (new_transport-Accounts answers)
        (omega arith) in
    (
      destroyed u.transport,
      destroyed-closed u.transport,
      e (destroys ∷ turns_of_runner (suc n))
          ∙ after_end n (waiting 0 before) (destroyed u.transport) u.pending w,
    )
