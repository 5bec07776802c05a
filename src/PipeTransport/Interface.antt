-- ===== src/PipeTransport/Interface.antt =====
-- The pipe as a `CognitiaTransport`, and what its task runner makes of what clients have sent.
use mathlib.Core.Option
use thorium_frugal.Base.{
  ℕ, zero, suc, ◌≡◌, refl, ap, ◌∙◌, sym, List, [], ◌∷◌, ◌++◌, Option, none, some, Bytes, map,
  length, append_assoc, append-nil,
}
use thorium_frugal.Transport.{CognitiaTransport, send_all}
use thorium_frugal.PipeTransport.{NamedPipeTransportWin}
use thorium_frugal.PipeTransport.Accounts.{Task, sends, after_task, after_tasks}
use thorium_frugal.PipeTransport.Posting.{
  PostedTransport, send_observation, try_reconnect, get_status, run_next, Turn, runs, after_turn,
  after_turns,
}

-- The overrides of `NamedPipeTransportWin`.
abbrev pub pipe_transport : CognitiaTransport PostedTransport
pipe_transport = record {
  send_observation = send_observation;
  get_status = get_status;
  try_reconnect = try_reconnect;
}

-- Sending posts one task for each payload, behind those that are pending.
pub send_all-posted :
    (ps : List Bytes) (t : NamedPipeTransportWin) (ks : List Task)
    → send_all pipe_transport (record { transport = t; pending = ks }) ps
      ≡ record { transport = t; pending = ks ++ map sends ps }
unfolding send_observation
send_all-posted [] t ks =
    ap (λ (l : List Task). record { transport = t; pending = l }) (sym (append-nil ks))
send_all-posted (p ∷ ps) t ks =
    send_all-posted ps t (ks ++ sends p ∷ [])
    ∙ ap (λ (l : List Task). record { transport = t; pending = l })
        (append_assoc ks (sends p ∷ []) (map sends ps))

-- As many turns of the runner.
abbrev pub runner_turns : ℕ → List Turn
runner_turns zero = []
runner_turns (suc n) = runs ∷ runner_turns n

abbrev pub idle : NamedPipeTransportWin → PostedTransport
idle t = record { transport = t; pending = [] }

-- With a turn for each pending task, the runner has run them all, in order.
pub after_turns-pending :
    (ks : List Task) (t : NamedPipeTransportWin)
    → after_turns (record { transport = t; pending = ks }) (runner_turns (length ks))
      ≡ Option.map idle (after_tasks t ks)
unfolding after_turns after_turn run_next after_tasks Option.bind
after_turns-pending [] t = refl
after_turns-pending (k ∷ ks) t = go (after_task t k) (λ u. after_turns-pending ks u)
  where
    go :
        (o : Option NamedPipeTransportWin)
        → ((u : NamedPipeTransportWin)
            → after_turns (record { transport = u; pending = ks }) (runner_turns (length ks))
              ≡ Option.map idle (after_tasks u ks))
        → Option.bind
            (Option.map (λ x. record { transport = x; pending = ks }) o)
            (λ s. after_turns s (runner_turns (length ks)))
          ≡ Option.map idle (Option.bind o (λ u. after_tasks u ks))
    go none ih = refl
    go (some u) ih = ih u
