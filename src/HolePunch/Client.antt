-- ===== src/HolePunch/Client.antt =====
-- The client of gday_hole_punch/src: client.rs, client/contact_sharer.rs and
-- client/contact_sharer/server_connection.rs. A line to the server is what has been written on it and
-- what the server will reply; how its writes end and its local address are arguments.
pub mod Order
pub mod Connection
pub mod Plain
pub mod Tests
use gday_old.Base.{ℕ, Bool, true, false, Option, none, some, List, [], ◌∷◌, ◌++◌}
use gday_old.Base.Outcome.{Result, ok, err}
use gday_old.HolePunch.Contact.{
  SocketAddr, V4, V6, FullContact, ClientMessage, create_room, join_room, send_private_addr,
  done_sending, ServerMessage, room_created, room_joined, share_peer_contacts, SerializationError,
}

pub data ClientError : Type 0 where
  no_address_provided : ClientError
  expected_ipv6 : ClientError
  expected_ipv4 : ClientError
  serialization : SerializationError → ClientError
  io : ℕ → ClientError
  cryptographical : ClientError
  invalid_server_reply : ClientError
  peer_connect_failed : ClientError
  spake_failed : ℕ → ClientError
  peer_authentication_failed : ClientError
  rustls : ℕ → ClientError
  invalid_utf8 : ClientError

-- A Messenger to the server. Its writes succeed behind the list `writes`.
pub record Line : Type 0 where
  pub written : List ClientMessage
  pub writes : List (Option SerializationError)
  pub replies : List (Result SerializationError ServerMessage)
  pub local_addr : Result ℕ SocketAddr

pub record ServerConnection : Type 0 where
  pub v6 : Option Line
  pub v4 : Option Line

-- `waits`: a reply that does not come.
pub data Ran {ℓ} (A : Type ℓ) : Type ℓ where
  gives : A → Ran A
  fails : ClientError → Ran A
  panicked : Ran A
  waits : Ran A

abbrev pub M : Type 0 → Type 0
M A = ServerConnection → Ran A × ServerConnection

abbrev pub continue_in :
    {A B : Type 0} → (A → M B) → Ran A × ServerConnection → Ran B × ServerConnection
continue_in f (gives a, c) = f a c
continue_in f (fails e, c) = (fails e, c)
continue_in f (panicked, c) = (panicked, c)
continue_in f (waits, c) = (waits, c)

infixl 5 ◌>>=◌ ◌>>◌
abbrev pub ◌>>=◌ : {A B : Type 0} → M A → (A → M B) → M B
◌>>=◌ m f c = continue_in f (m c)

abbrev pub ◌>>◌ : {B : Type 0} → M (Unit {0}) → M B → M B
m >> k = m >>= λ _. k

abbrev pub pure : {A : Type 0} → A → M A
pure a c = (gives a, c)

abbrev pub fail : {A : Type 0} → ClientError → M A
fail e c = (fails e, c)

-- `matches!(tcp.local_addr()?, V6(_))`, and the same for V4.
unfoldable pub expect_v6 : Option Line → Option ClientError
expect_v6 none = none
expect_v6 (some line) = elim line.local_addr [
  | err e ↦ some (io e)
  | ok (V6 addr) ↦ none
  | ok (V4 addr) ↦ some expected_ipv6
]

unfoldable pub expect_v4 : Option Line → Option ClientError
expect_v4 none = none
expect_v4 (some line) = elim line.local_addr [
  | err e ↦ some (io e)
  | ok (V6 addr) ↦ some expected_ipv4
  | ok (V4 addr) ↦ none
]

abbrev pub unless_failed :
    Option ClientError → Option ClientError → ServerConnection → Result ClientError ServerConnection
unless_failed (some e) e' c = err e
unless_failed none (some e') c = err e'
unless_failed none none c = ok c

-- `ServerConnection::new`.
unfoldable pub new_connection : Option Line → Option Line → Result ClientError ServerConnection
unfolding expect_v6 expect_v4
new_connection none none = err no_address_provided
new_connection v6 v4 = unless_failed (expect_v6 v6) (expect_v4 v4) (record { v6 = v6; v4 = v4 })

-- The next message on a line, and the next reply.
abbrev pub write_as :
    ClientMessage → Line → List (Option SerializationError) → Ran (Unit {0}) × Line
write_as msg line [] = (gives tt, record line { written = line.written ++ msg ∷ [] })
write_as msg line (none ∷ rest) =
    (gives tt, record line { written = line.written ++ msg ∷ []; writes = rest })
write_as msg line (some e ∷ rest) = (fails (serialization e), record line { writes = rest })

unfoldable pub write_msg : ClientMessage → Line → Ran (Unit {0}) × Line
write_msg msg line = write_as msg line line.writes

abbrev pub reply_of :
    Line → List (Result SerializationError ServerMessage) → Ran ServerMessage × Line
reply_of line [] = (waits, line)
reply_of line (ok msg ∷ rest) = (gives msg, record line { replies = rest })
reply_of line (err e ∷ rest) = (fails (serialization e), record line { replies = rest })

unfoldable pub next_msg : Line → Ran ServerMessage × Line
next_msg line = reply_of line line.replies

-- An operation on one line, if there is one.
abbrev pub back_v6 : {A : Type 0} → ServerConnection → Ran A × Line → Ran A × ServerConnection
back_v6 c (r, line) = (r, record c { v6 = some line })

abbrev pub back_v4 : {A : Type 0} → ServerConnection → Ran A × Line → Ran A × ServerConnection
back_v4 c (r, line) = (r, record c { v4 = some line })

-- `get_any_messenger`, and the first of `get_all_messengers`: IPv6 where there is one.
unfoldable pub on_any : {A : Type 0} → (Line → Ran A × Line) → M A
on_any f c = elim c.v6 [
  | some line ↦ back_v6 c (f line)
  | none ↦ elim c.v4 [ some line ↦ back_v4 c (f line) | none ↦ (panicked, c) ]
]

unfoldable pub on_v6 : (Line → Ran (Unit {0}) × Line) → M (Unit {0})
on_v6 f c = elim c.v6 [ some line ↦ back_v6 c (f line) | none ↦ (gives tt, c) ]

unfoldable pub on_v4 : (Line → Ran (Unit {0}) × Line) → M (Unit {0})
on_v4 f c = elim c.v4 [ some line ↦ back_v4 c (f line) | none ↦ (gives tt, c) ]

abbrev pub created : ServerMessage → M ℕ
created (room_created room_id) = pure room_id
created room_joined = fail invalid_server_reply
created (share_peer_contacts client peer) = fail invalid_server_reply
created ServerMessage.syntax_error = fail invalid_server_reply
created ServerMessage.error_no_such_room_id = fail invalid_server_reply

-- `ContactSharer::create_room` behind `new`.
unfoldable pub create : M ℕ
create = do on_any (write_msg create_room); response ← on_any next_msg; created response

abbrev pub joined : ServerMessage → M (Unit {0})
joined room_joined = pure tt
joined (room_created room_id) = fail invalid_server_reply
joined (share_peer_contacts client peer) = fail invalid_server_reply
joined ServerMessage.syntax_error = fail invalid_server_reply
joined ServerMessage.error_no_such_room_id = fail invalid_server_reply

-- `ContactSharer::join_room` behind `new`.
unfoldable pub join : ℕ → M (Unit {0})
join room_id = do
  on_any (write_msg (join_room room_id))
  response ← on_any next_msg
  joined response

-- A round of the loop of `get_peer_connector`.
unfoldable pub send_private : Line → Ran (Unit {0}) × Line
send_private line = elim line.local_addr [
  | err e ↦ (fails (io e), line)
  | ok addr ↦ write_msg (send_private_addr (some addr)) line
]

pub record PeerConnector : Type 0 where
  pub local : FullContact
  pub peer : FullContact
  pub is_creator : Bool

abbrev pub shared : Bool → ServerMessage → M PeerConnector
shared is_creator (share_peer_contacts client peer) =
    pure (record { local = client; peer = peer; is_creator = is_creator })
shared is_creator (room_created room_id) = fail invalid_server_reply
shared is_creator room_joined = fail invalid_server_reply
shared is_creator ServerMessage.syntax_error = fail invalid_server_reply
shared is_creator ServerMessage.error_no_such_room_id = fail invalid_server_reply

unfoldable pub get_peer_connector : Bool → M PeerConnector
get_peer_connector is_creator = do
  on_v6 send_private
  on_v4 send_private
  on_any (write_msg done_sending)
  response ← on_any next_msg
  shared is_creator response
