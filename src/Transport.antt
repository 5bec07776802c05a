-- ===== src/Transport.antt =====
-- cognitia_adapter/transport/cognitia_transport.h: what the collector knows of a transport.
use thorium_frugal.Base.{List, [], ◌∷◌, ◌++◌, ◌≡◌, refl, Bytes}

-- `TransportStatus`.
pub data TransportStatus : Type 0 where
  disconnected connecting connected error : TransportStatus

-- The virtual methods of `CognitiaTransport`, on the states of an implementation.
pub record CognitiaTransport (T : Type 0) : Type 0 where
  pub send_observation : T → Bytes → T
  pub get_status : T → TransportStatus
  pub try_reconnect : T → T

-- Payloads sent one after the other.
module _ {T : Type 0} (io : CognitiaTransport T) where
  abbrev pub send_all : T → List Bytes → T
  send_all t [] = t
  send_all t (p ∷ ps) = send_all (io.send_observation t p) ps

  pub send_all-append :
      (t : T) (ps qs : List Bytes) → send_all t (ps ++ qs) ≡ send_all (send_all t ps) qs
  send_all-append t [] qs = refl
  send_all-append t (p ∷ ps) qs = send_all-append (io.send_observation t p) ps qs
