-- ===== src/HolePunch/Handler.antt =====
-- gday_hole_punch/src/server/connection_handler.rs: one client's connection to the server. What a
-- client sends is an argument of the handler, whose effects on the shared state and on the
-- messenger are a state monad; each `.await` on input or on a receiver ends a step.
pub mod Keeps
pub mod Replies
pub mod Server
use mathlib.Core.Bool.{not}
use gday_old.Base.{
  ℕ, ◌≡◌, Bool, true, false, Option, none, some, List, [], ◌∷◌, ◌++◌, if◌then◌else◌,
}
use gday_old.Base.Assoc.{lookup}
use gday_old.Base.Outcome.{Result, ok, err}
use gday_old.HolePunch.Contact.{
  SocketAddr, ClientMessage, create_room, join_room, send_private_addr, done_sending, ServerMessage,
  room_created, room_joined, share_peer_contacts, syntax_error, error_no_such_room_id,
  SerializationError,
}
use gday_old.HolePunch.State
use gday_old.HolePunch.State.{State, pending, sent, closed, room_exists, set_client_done}

pub data ServerError : Type 0 where
  io : ℕ → ServerError
  serialization : SerializationError → ServerError
  room_timed_out : ServerError
  no_such_room_id : ServerError
  received_incorrect_message : ServerError

-- The stream to the client: the messages written so far, how the next writes will end (all succeed
-- behind the list), and what `peer_addr` returns.
pub record Messenger : Type 0 where
  pub written : List ServerMessage
  pub writes : List (Option SerializationError)
  pub peer_addr : Result ℕ SocketAddr

-- What a step of a handler sees: the shared state and its own messenger.
pub record Conn : Type 0 where
  pub state : State
  pub messenger : Messenger

-- `running`: the loop of `create_room` has used up the given draws.
pub data Reply {ℓ} (A : Type ℓ) : Type ℓ where
  done : A → Reply A
  failed : ServerError → Reply A
  running : Reply A

abbrev pub M : Type 0 → Type 0
M A = Conn → Reply A × Conn

abbrev pub continue_in : {A B : Type 0} → (A → M B) → Reply A × Conn → Reply B × Conn
continue_in f (done a, c) = f a c
continue_in f (failed e, c) = (failed e, c)
continue_in f (running, c) = (running, c)

infixl 5 ◌>>=◌ ◌>>◌
abbrev pub ◌>>=◌ : {A B : Type 0} → M A → (A → M B) → M B
◌>>=◌ m f c = continue_in f (m c)

abbrev pub ◌>>◌ : {B : Type 0} → M (Unit {0}) → M B → M B
m >> k = m >>= λ _. k

abbrev pub pure : {A : Type 0} → A → M A
pure a c = (done a, c)

abbrev pub fail : {A : Type 0} → ServerError → M A
fail e c = (failed e, c)

-- The outcome of the next write, and the messenger behind it.
abbrev pub write_as :
    ServerMessage
    → Messenger
    → List (Option SerializationError)
    → Option SerializationError × Messenger
write_as msg m [] = (none, record m { written = m.written ++ msg ∷ [] })
write_as msg m (none ∷ rest) = (none, record m { written = m.written ++ msg ∷ []; writes = rest })
write_as msg m (some e ∷ rest) = (some e, record m { writes = rest })

unfoldable pub write_msg : ServerMessage → Messenger → Option SerializationError × Messenger
write_msg msg m = write_as msg m m.writes

abbrev pub report : State → Option SerializationError × Messenger → Reply (Unit {0}) × Conn
report s (none, m) = (done tt, record { state = s; messenger = m })
report s (some e, m) = (failed (serialization e), record { state = s; messenger = m })

-- `send`, with the `?` of its callers.
unfoldable pub send : ServerMessage → M (Unit {0})
unfolding write_msg
send msg c = report c.state (write_msg msg c.messenger)

-- `messenger.peer_addr()?`
unfoldable pub peer_addr : M SocketAddr
peer_addr c = elim c.messenger.peer_addr [ ok addr ↦ (done addr, c) | err e ↦ (failed (io e), c) ]

pub record ConnectionHandler : Type 0 where
  pub room_id : ℕ
  pub is_creator : Bool

unfoldable pub send_no_such_room : M (Unit {0})
send_no_such_room = do send error_no_such_room_id; fail no_such_room_id

unfoldable pub update_client : ConnectionHandler → SocketAddr → Bool → M (Unit {0})
update_client this addr is_public c =
    elim (State.update_client this.room_id this.is_creator addr is_public c.state) [
      | none ↦ send_no_such_room c
      | some s ↦ (done tt, record c { state = s })
    ]

-- `if let Some(addr) = private_addr`.
unfoldable pub update_private : ConnectionHandler → Option SocketAddr → M (Unit {0})
update_private this none = pure tt
update_private this (some addr) = update_client this addr false

-- What the loop of `start` goes on with: the next message, or the receiver that is awaited.
pub data Progress : Type 0 where
  next_message : Progress
  awaits : ℕ → Progress

-- The arm of DoneSending, up to `rx.await`.
unfoldable pub finish : ConnectionHandler → M Progress
finish this c = elim (set_client_done this.room_id this.is_creator c.state) [
  | none ↦ (do send_no_such_room; pure next_message) c
  | some (rx, s) ↦ (done (awaits rx), record c { state = s })
]

unfoldable pub handle_message :
    ConnectionHandler → Result SerializationError ClientMessage → M Progress
handle_message this (ok (send_private_addr private_addr)) = do
  addr ← peer_addr
  update_client this addr true
  update_private this private_addr
  pure next_message
handle_message this (ok done_sending) = finish this
handle_message this (ok create_room) = do send syntax_error; fail received_incorrect_message
handle_message this (ok (join_room room_id)) = do send syntax_error; fail received_incorrect_message
handle_message this (err e) = do send syntax_error; fail (serialization e)

-- The rest of the arm of DoneSending, once the receiver is polled.
unfoldable pub resume : ℕ → M Progress
resume rx c = elim (lookup rx c.state.channels) [
  | some (sent client_contact peer_contact) ↦
      (do send (share_peer_contacts client_contact peer_contact); pure next_message) c
  | some closed ↦ (failed room_timed_out, c)
  | _ ↦ (done (awaits rx), c)
]

-- The arm of CreateRoom in `start`.
unfoldable pub open_room : List ℕ → M ConnectionHandler
open_room draws c = elim (State.create_room draws c.state) [
  | none ↦ (running, c)
  | some (room_id, s) ↦
      (do send (room_created room_id); pure (record { room_id = room_id; is_creator = true }))
        (record c { state = s })
]

-- The arm of JoinRoom in `start`.
unfoldable pub enter_room : ℕ → M ConnectionHandler
enter_room room_id c =
    (if room_exists room_id c.state
        then (do send room_joined; pure (record { room_id = room_id; is_creator = false }))
        else (do send error_no_such_room_id; fail no_such_room_id))
      c

-- `start` up to its loop; the numbers are the coming draws of the generator.
unfoldable pub start : Result SerializationError ClientMessage → List ℕ → M ConnectionHandler
start (ok create_room) draws = open_room draws
start (ok (join_room room_id)) draws = enter_room room_id
start (ok (send_private_addr addr)) draws = do send syntax_error; fail received_incorrect_message
start (ok done_sending) draws = do send syntax_error; fail received_incorrect_message
start (err e) draws = do send syntax_error; fail (serialization e)
