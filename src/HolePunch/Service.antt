-- ===== src/HolePunch/Service.antt =====
-- gday_hole_punch/src/server.rs as a whole: the accept loop, the TLS handshake of each stream that is
-- served, and the connections behind it, which share one state. How a handshake ends is an argument.
pub mod Grows
pub mod Promises
mod Tests
use gday_old.Base.{
  ℕ, zero, suc, ◌-◌, Bool, Option, none, some, List, [], ◌∷◌, ◌++◌, map, length, take, get_elem?,
}
use gday_old.Base.Outcome.{Result}
use gday_old.HolePunch.Contact.{SocketAddr, ClientMessage, SerializationError}
use gday_old.HolePunch.Throttle
use gday_old.HolePunch.Throttle.{Stream, Served, Throttle, new_throttle}
use gday_old.HolePunch.Handler.Server
use gday_old.HolePunch.Handler.Server.{Server, accept, new_server}

-- `handshakes` are the tasks that `tls_acceptor.accept` has not come back to.
pub record Service : Type 0 where
  pub throttle : Throttle
  pub handshakes : List Stream
  pub server : Server

-- What a handshake that succeeds gives: how the writes on the stream will end, and its peer's address.
pub record TlsStream : Type 0 where
  pub writes : List (Option SerializationError)
  pub peer_addr : Result ℕ SocketAddr

pub data Event : Type 0 where
  accepts : Option Stream → Bool → Event
  enters : ℕ → Event
  unblocks : ℕ → Bool → Event
  handshaken : ℕ → Option TlsStream → Event
  receives : ℕ → Result SerializationError ClientMessage → List ℕ → Event
  polls : ℕ → Event
  wakes : ℕ → Event
  elapses : ℕ → Event

-- The streams that have been served in a step begin their handshake.
abbrev pub newly : List Served → List Served → List Stream
newly before after = map (λ (s : Served). s.stream) (take (length after - length before) after)

abbrev pub throttled : Throttle → Service → Service
throttled throttle s = record s {
  throttle = throttle;
  handshakes = newly s.throttle.served throttle.served ++ s.handshakes;
}

abbrev pub without : ℕ → List Stream → List Stream
without i [] = []
without zero (stream ∷ streams) = streams
without (suc i) (stream ∷ streams) = stream ∷ without i streams

-- The match on `tls_acceptor.accept`; the handler is started where it succeeds.
abbrev pub shaken : Option TlsStream → Stream → Service → Service
shaken none stream s = s
shaken (some tls) stream s = record s {
  server = accept stream.id tls.writes tls.peer_addr s.server;
}

unfoldable pub on_handshake : ℕ → Option TlsStream → Service → Service
on_handshake i tls s = elim (get_elem? s.handshakes i) [
  | none ↦ s
  | some stream ↦ shaken tls stream (record s { handshakes = without i s.handshakes })
]

unfoldable pub on_event : Event → Service → Service
on_event (accepts stream peer_ok) s =
    throttled (Throttle.on_event (Throttle.accepts stream peer_ok) s.throttle) s
on_event (enters i) s = throttled (Throttle.on_event (Throttle.enters i) s.throttle) s
on_event (unblocks i peer_ok) s =
    throttled (Throttle.on_event (Throttle.wakes i peer_ok) s.throttle) s
on_event (handshaken i tls) s = on_handshake i tls s
on_event (receives i msg draws) s = record s {
  server = Server.on_event (Server.receives i msg draws) s.server;
}
on_event (polls i) s = record s { server = Server.on_event (Server.polls i) s.server }
on_event (wakes i) s = record s { server = Server.on_event (Server.wakes i) s.server }
on_event (elapses seconds) s = record s {
  throttle = Throttle.on_event (Throttle.elapses seconds) s.throttle;
  server = Server.on_event (Server.elapses seconds) s.server;
}

-- `run`, with everything that goes on beside its loop.
unfoldable pub run : List Event → Service → Service
run [] s = s
run (e ∷ es) s = run es (on_event e s)

unfoldable pub new_service : Service
new_service = record { throttle = new_throttle; handshakes = []; server = new_server }
