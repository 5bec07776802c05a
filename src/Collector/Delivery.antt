-- ===== src/Collector/Delivery.antt =====
-- From the callbacks of the browser to a reader at the other end of the pipe.
use mathlib.Core.Option
use thorium_frugal.Base.{ℕ, zero, suc, ◌≡◌, Bool, true, List, [], ◌∷◌, ◌++◌, some, Bytes, ◌==◌}
use thorium_frugal.Envelope.{ValueApi}
use thorium_frugal.Envelope.Observation.{ObservationEnvelope, to_value_dict}
use thorium_frugal.Envelope.RoundTrip.{read_observation}
use thorium_frugal.PipeTransport.Posting.{PostedTransport, new_posted, try_reconnect}

-- The bytes on the pipe.
abbrev pub stream : List Bytes → Bytes
stream [] = []
stream (m ∷ ms) = m ++ stream ms

abbrev pub is_newline : ℕ → Bool
is_newline = λ b. b == b'\n'

-- As many answers of success.
abbrev pub trues : ℕ → List Bool
trues zero = []
trues (suc n) = true ∷ trues n

-- A connection is asked for; its answer and the next `n` are of success.
abbrev pub connecting_posted : ℕ → PostedTransport
connecting_posted n = try_reconnect (new_posted (trues (suc n)))

module _ {Value Dict : Type 0} (values : ValueApi Value Dict) where
  -- A receiver reads an observation back from its dictionary.
  abbrev pub IsReadable : ObservationEnvelope → Type 0
  IsReadable e = read_observation values (to_value_dict values e) ≡ some e
