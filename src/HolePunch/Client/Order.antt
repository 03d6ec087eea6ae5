-- ===== src/HolePunch/Client/Order.antt =====
-- The order in which the client of gday_hole_punch/src/client writes its messages, against what the
-- server of gday_hole_punch/src/server takes.
use gday_old.Base.{ℕ, ◌≡◌, refl, sym, subst, Bool, true, Option, none, some, List, [], ◌∷◌}
use gday_old.Base.Outcome.{Result, ok, err}
use gday_old.HolePunch.Contact.{
  SocketAddrV4, SocketAddrV6, V4, V6, ClientMessage, create_room, send_private_addr, done_sending,
  ServerMessage, room_created, room_joined, share_peer_contacts, syntax_error, SerializationError,
}
use gday_old.HolePunch.Handler.{Conn, failed, received_incorrect_message, start}
use gday_old.HolePunch.Handler.Replies.{CanWrite, Replies, start_later}
use gday_old.HolePunch.Client.{
  Line, ServerConnection, M, ◌>>=◌, write_msg, next_msg, on_any, on_v6, on_v4, create, send_private,
  shared, PeerConnector, get_peer_connector,
}

-- Both lines of a client, before anything is written. On the first the server will reply that the
-- room is created; what else it will reply is open.
abbrev pub two_lines :
    ℕ
    → SocketAddrV6
    → SocketAddrV4
    → List (Result SerializationError ServerMessage)
    → List (Result SerializationError ServerMessage)
    → ServerConnection
two_lines room_id addr_v6 addr_v4 replies_v6 replies_v4 = record {
  v6 = some (record {
    written = [];
    writes = [];
    replies = ok (room_created room_id) ∷ replies_v6;
    local_addr = ok (V6 addr_v6);
  });
  v4 =
      some
        (record { written = []; writes = []; replies = replies_v4; local_addr = ok (V4 addr_v4) });
}

abbrev pub written_on : Option Line → List ClientMessage
written_on none = []
written_on (some line) = line.written

-- A client that creates a room and goes on to the peer's contacts.
abbrev pub session : M PeerConnector
session = create >>= λ room_id. get_peer_connector true

shared-keeps : (b : Bool) (msg : ServerMessage) (c : ServerConnection) → (shared b msg c).1 ≡ c
shared-keeps b (room_created room_id) c = refl
shared-keeps b room_joined c = refl
shared-keeps b (share_peer_contacts client peer) c = refl
shared-keeps b syntax_error c = refl
shared-keeps b ServerMessage.error_no_such_room_id c = refl

-- What both lines have in the end.
abbrev pub InOrder : SocketAddrV6 → SocketAddrV4 → ServerConnection → Type 0
InOrder addr_v6 addr_v4 c =
    (written_on c.v6 ≡ create_room ∷ send_private_addr (some (V6 addr_v6)) ∷ done_sending ∷ [])
    × (written_on c.v4 ≡ send_private_addr (some (V4 addr_v4)) ∷ [])

session-InOrder :
    (room_id : ℕ) (addr_v6 : SocketAddrV6) (addr_v4 : SocketAddrV4)
    (replies_v6 replies_v4 : List (Result SerializationError ServerMessage))
    → InOrder addr_v6 addr_v4 (session (two_lines room_id addr_v6 addr_v4 replies_v6 replies_v4)).1
unfolding create get_peer_connector on_any on_v6 on_v4 write_msg next_msg send_private
session-InOrder room_id addr_v6 addr_v4 [] replies_v4 = (refl, refl)
session-InOrder room_id addr_v6 addr_v4 (err e ∷ replies_v6) replies_v4 = (refl, refl)
session-InOrder room_id addr_v6 addr_v4 (ok msg ∷ replies_v6) replies_v4 =
    subst (InOrder addr_v6 addr_v4) (sym (shared-keeps true msg _)) (refl, refl)

-- A client with a line of each family, whose room is created: on the first line it writes
-- CreateRoom, its address and DoneSending, and on the second its address only, whatever else the
-- server replies. A connection of the server that is sent this address first answers it with
-- SyntaxError and ends.
pub second_line_refused :
    (room_id : ℕ) (addr_v6 : SocketAddrV6) (addr_v4 : SocketAddrV4)
    (replies_v6 replies_v4 : List (Result SerializationError ServerMessage)) (draws : List ℕ)
    (conn : Conn)
    → CanWrite conn.messenger.writes
    → InOrder addr_v6 addr_v4 (session (two_lines room_id addr_v6 addr_v4 replies_v6 replies_v4)).1
      × Replies
          (failed received_incorrect_message)
          syntax_error
          conn
          (start (ok (send_private_addr (some (V4 addr_v4)))) draws conn)
second_line_refused room_id addr_v6 addr_v4 replies_v6 replies_v4 draws conn can = (
  session-InOrder room_id addr_v6 addr_v4 replies_v6 replies_v4,
  start_later (send_private_addr (some (V4 addr_v4))) draws conn tt can,
)
