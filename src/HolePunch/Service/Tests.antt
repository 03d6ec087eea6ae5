-- ===== src/HolePunch/Service/Tests.antt =====
-- The server of gday_hole_punch/src/server.rs at a concrete sequence of events.
use gday_old.Base.{true, some, List, [], ◌∷◌, map, ◌≡◌, refl}
use gday_old.Base.Assoc.{lookup, insert}
use gday_old.Base.Outcome.{ok}
use gday_old.HolePunch.Contact.{V4, create_room}
use gday_old.HolePunch.Service.{
  Event, accepts, enters, unblocks, handshaken, receives, elapses, TlsStream, run, new_service,
  on_event, on_handshake,
}
use gday_old.HolePunch.Throttle
use gday_old.HolePunch.Throttle.{
  Served, on_accept, on_wake, on_enter, block_and_serve, serve_client, new_throttle,
}
use gday_old.HolePunch.Handler.Server.{accept, at_connection}

abbrev shaken_hands : TlsStream
shaken_hands = record { writes = []; peer_addr = ok (V4 (record { ip = 9; port = 1 })) }

-- Two streams of one address: the first creates a room, and the second is served six seconds later.
abbrev again : List Event
again =
    accepts (some (record { id = 1; ip = 9 })) true
    ∷ enters 0
    ∷ handshaken 0 (some shaken_hands)
    ∷ receives 1 (ok create_room) (7 ∷ [])
    ∷ accepts (some (record { id = 2; ip = 9 })) true
    ∷ elapses 6
    ∷ unblocks 0 true
    ∷ enters 0
    ∷ handshaken 0 (some shaken_hands)
    ∷ []

served_streams :
    map (λ (s : Served). s.stream.id) (run again new_service).throttle.served ≡ 2 ∷ 1 ∷ []
unfolding run on_event on_handshake new_service new_throttle Throttle.on_event on_accept on_wake
    on_enter block_and_serve serve_client accept at_connection lookup insert
served_streams = refl
