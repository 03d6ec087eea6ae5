-- ===== src/HolePunch/Contact.antt =====
-- The data of gday_hole_punch/src/lib.rs: contacts, the messages of both sides and their errors.
use gday_old.Base.{ℕ, Option, none}

-- std's socket addresses: an address, a port, and for IPv6 the flow label and the scope.
pub record SocketAddrV4 : Type 0 where
  pub ip : ℕ
  pub port : ℕ

pub record SocketAddrV6 : Type 0 where
  pub ip : ℕ
  pub port : ℕ
  pub flowinfo : ℕ
  pub scope_id : ℕ

pub data SocketAddr : Type 0 where
  V4 : SocketAddrV4 → SocketAddr
  V6 : SocketAddrV6 → SocketAddr

pub record Contact : Type 0 where
  pub v6 : Option SocketAddrV6
  pub v4 : Option SocketAddrV4

pub record FullContact : Type 0 where
  pub private : Contact
  pub public : Contact

-- `Default::default()`.
abbrev pub no_contact : Contact
no_contact = record { v6 = none; v4 = none }

abbrev pub no_full_contact : FullContact
no_full_contact = record { private = no_contact; public = no_contact }

pub data ClientMessage : Type 0 where
  create_room : ClientMessage
  join_room : ℕ → ClientMessage
  send_private_addr : Option SocketAddr → ClientMessage
  done_sending : ClientMessage

pub data ServerMessage : Type 0 where
  room_created : ℕ → ServerMessage
  room_joined : ServerMessage
  share_peer_contacts : FullContact → FullContact → ServerMessage
  syntax_error : ServerMessage
  error_no_such_room_id : ServerMessage

-- The errors of the libraries below are numbers.
pub data SerializationError : Type 0 where
  postcard : ℕ → SerializationError
  io : ℕ → SerializationError
  tmp_buf_too_small : SerializationError
  message_too_long : SerializationError
