-- ===== src/Gday/Tests.antt =====
-- The passwords of gday/src/main.rs at concrete inputs.
use gday_old.Base.{◌≡◌, refl, true, false, none, some, List, [], ◌∷◌, map, arith}
use gday_old.Base.Outcome.{debug, release, ok}
use gday_old.Base.Text.{Bytes, lower}
use gday_old.HolePunch.Contact.{
  V6, create_room, join_room, ServerMessage, ClientMessage, room_created, room_joined,
  share_peer_contacts, SerializationError,
}
use gday_old.Base.Outcome.{Result}
use gday_old.HolePunch.Client.{
  Line, ServerConnection, gives, new_connection, create, join, on_any, write_msg, next_msg,
}
use gday_old.HolePunch.Client.Tests.{home_v6}
use gday_old.HolePunch.Peer.{code_sent, key_of, outbound_msg, Attempt}
use gday_old.HolePunch.Peer.Tests.{plain, everywhere}
use gday_old.HolePunch.Peer.Race.{Network, connect_to_peer}
use gday_old.HolePunch.Peer.Race
use gday_old.HolePunch.Peer.Race.Tests.{in_turn, net, peer}
use gday_old.Gday.{connect_to_server, World, goes_on, invite, start_room, establish_peer_connection}
use gday_old.Gday
use gday_old.Gday.ServerConnector.{Route, get_tls_connector, connect}
use gday_old.Gday.Password.{Connects, join_room-start_room}

abbrev pub line : List ClientMessage → List (Result SerializationError ServerMessage) → Line
line written replies = record {
  written = written;
  writes = [];
  replies = replies;
  local_addr = ok (V6 home_v6);
}

abbrev pub one_line :
    List ClientMessage → List (Result SerializationError ServerMessage) → ServerConnection
one_line written replies = record { v6 = some (line written replies); v4 = none }

abbrev pub contacts : List (Result SerializationError ServerMessage)
contacts = ok (share_peer_contacts everywhere everywhere) ∷ []

-- The creator is at the other end of the guest's connection.
abbrev pub creator_end : Attempt → Network
creator_end attempt =
    let received = code_sent plain true (key_of plain 5 2 (outbound_msg plain 5 1)) in
    record (net attempt) { accepts = ok (record peer { received = Race.gives received }) ∷ [] }

-- The server is reached by IPv6 only.
abbrev pub by_v6 : List (Result SerializationError ServerMessage) → Route
by_v6 replies = record {
  new_v6 = none;
  new_v4 = some 1;
  tcp_connect = λ _. none;
  tls_connect = λ _. ok (line [] replies);
}

abbrev pub host : World
host = record {
  profile = debug;
  cert_added = none;
  valid_name = true;
  route = by_v6 (ok (room_created 77) ∷ contacts);
  random_peer_secret = 5;
  connect_to_peer = connect_to_peer plain in_turn net;
  write_nonce = none;
  read_nonce = ok [];
}

abbrev pub guest : World
guest = record host {
  profile = release;
  route = by_v6 (ok room_joined ∷ contacts);
  connect_to_peer = connect_to_peer plain in_turn creator_end;
}

pub host-Connects : Connects host (one_line [] (ok (room_created 77) ∷ contacts))
unfolding new_connection connect_to_server connect get_tls_connector
host-Connects = record { v6 = _; v4 = _; reached = refl; connected = refl }

pub guest-Connects : Connects guest (one_line [] (ok room_joined ∷ contacts))
unfolding new_connection connect_to_server connect get_tls_connector
guest-Connects = record { v6 = _; v4 = _; reached = refl; connected = refl }

pub room_is_created :
    create (one_line [] (ok (room_created 77) ∷ contacts))
    ≡ (gives 77, one_line (create_room ∷ []) contacts)
unfolding create on_any write_msg next_msg
room_is_created = refl

pub room_is_joined :
    join 77 (one_line [] (ok room_joined ∷ contacts))
    ≡ (gives tt, one_line (join_room 77 ∷ []) contacts)
unfolding join on_any write_msg next_msg
room_is_joined = refl

join_room-start_room_example :
    (password : Bytes) × (invite host
      ≡ goes_on (record {
        room_id = 77;
        peer_secret = 5;
        password = password;
        sharer = one_line (create_room ∷ []) contacts;
      }))
    × (start_room host
        ≡ establish_peer_connection host true (one_line (create_room ∷ []) contacts) 5)
    × (Gday.join_room guest password
        ≡ establish_peer_connection guest false (one_line (join_room 77 ∷ []) contacts) 5)
    × (Gday.join_room guest (map lower password)
        ≡ establish_peer_connection guest false (one_line (join_room 77 ∷ []) contacts) 5)
join_room-start_room_example =
    join_room-start_room host guest (one_line [] (ok (room_created 77) ∷ contacts))
      (one_line [] (ok room_joined ∷ contacts)) (one_line (create_room ∷ []) contacts)
      (one_line (join_room 77 ∷ []) contacts) 77 host-Connects guest-Connects room_is_created
      room_is_joined (omega arith) (omega arith)
