-- ===== src/HolePunch/Client/Connection.antt =====
-- gday_hole_punch/src/client/contact_sharer/server_connection.rs: the local addresses of a connection.
pub mod Calm
use gday_old.Base.{
  ℕ, ◌≡◌, refl, sym, ap, subst, Bool, true, false, Option, none, some, List, [], ◌∷◌, ◌⊎◌, inl, inr,
}
use gday_old.Base.Outcome.{Outcome, returns, exits, panics, Result, ok, err}
use gday_old.HolePunch.Contact.{
  SocketAddr, SocketAddrV4, SocketAddrV6, V4, V6, Contact, ServerMessage, SerializationError,
  room_created, room_joined, share_peer_contacts, ClientMessage, send_private_addr, done_sending,
}
use gday_old.HolePunch.Client.{
  ClientError, Line, ServerConnection, Ran, gives, fails, panicked, waits, M, continue_in, ◌>>=◌,
  expect_v6, expect_v4, unless_failed, new_connection, write_as, write_msg, reply_of, next_msg,
  back_v6, back_v4, on_any, on_v6, on_v4, created, create, joined, join, send_private, shared,
  get_peer_connector, PeerConnector,
}

-- `let V6(v6) = … else { unreachable!() }`, and the same for V4.
abbrev pub as_v6 : Result ℕ SocketAddr → Outcome (Result ℕ (Option SocketAddrV6))
as_v6 (err e) = returns (err e)
as_v6 (ok (V6 addr)) = returns (ok (some addr))
as_v6 (ok (V4 addr)) = panics

abbrev pub as_v4 : Result ℕ SocketAddr → Outcome (Result ℕ (Option SocketAddrV4))
as_v4 (err e) = returns (err e)
as_v4 (ok (V6 addr)) = panics
as_v4 (ok (V4 addr)) = returns (ok (some addr))

unfoldable pub local_addr_v6 : Option Line → Outcome (Result ℕ (Option SocketAddrV6))
local_addr_v6 none = returns (ok none)
local_addr_v6 (some line) = as_v6 line.local_addr

unfoldable pub local_addr_v4 : Option Line → Outcome (Result ℕ (Option SocketAddrV4))
local_addr_v4 none = returns (ok none)
local_addr_v4 (some line) = as_v4 line.local_addr

abbrev pub contact_of :
    Outcome (Result ℕ (Option SocketAddrV6))
    → Outcome (Result ℕ (Option SocketAddrV4))
    → Outcome (Result ℕ Contact)
contact_of (returns (ok v6)) (returns (ok v4)) = returns (ok (record { v6 = v6; v4 = v4 }))
contact_of (returns (ok v6)) (returns (err e)) = returns (err e)
contact_of (returns (ok v6)) (exits n) = exits n
contact_of (returns (ok v6)) panics = panics
contact_of (returns (err e)) v4 = returns (err e)
contact_of (exits n) v4 = exits n
contact_of panics v4 = panics

unfoldable pub get_local_contact : ServerConnection → Outcome (Result ℕ Contact)
get_local_contact c = contact_of (local_addr_v6 c.v6) (local_addr_v4 c.v4)
