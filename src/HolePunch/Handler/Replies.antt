-- ===== src/HolePunch/Handler/Replies.antt =====
-- What the handler of gday_hole_punch/src/server/connection_handler.rs answers and does to the rooms.
use mathlib.Core.Bool.{not}
use gday_old.Base.{
  ℕ, ◌≡◌, refl, sym, ◌∙◌, ap, subst, Bool, true, false, Option, none, some, List, [], ◌∷◌, ◌++◌,
  Option-cases, inl, inr,
}
use gday_old.Base.Assoc.{lookup, is_some}
use gday_old.Base.Outcome.{ok}
use gday_old.HolePunch.Contact.{
  SocketAddr, FullContact, ClientMessage, create_room, join_room, send_private_addr, done_sending,
  ServerMessage, room_joined, syntax_error, error_no_such_room_id, SerializationError,
}
use gday_old.HolePunch.State.{State, room_exists, set_endpoint}
use gday_old.HolePunch.State.NoSender.{NoSender, HasNoSender, peer_sender_clear}
use gday_old.HolePunch.State.Exchange.{set_client_done-Alone}
use gday_old.HolePunch.Handler.{
  room_timed_out, no_such_room_id, received_incorrect_message, Conn, Reply, done, failed, running,
  continue_in, write_as, write_msg, report, send, ConnectionHandler, awaits, finish, handle_message,
  resume, enter_room, start,
}

-- The next write succeeds.
abbrev pub CanWrite : List (Option SerializationError) → Type 0
CanWrite [] = Unit
CanWrite (none ∷ rest) = Unit
CanWrite (some e ∷ rest) = ⊥

-- One message is written, and the state is as it was.
pub record Answers (msg : ServerMessage) (c c' : Conn) : Type 0 where
  pub written_eq : c'.messenger.written ≡ c.messenger.written ++ msg ∷ []
  pub state_eq : c'.state ≡ c.state

-- A reply that goes with one message.
abbrev pub Replies {ℓ} : {A : Type ℓ} → Reply A → ServerMessage → Conn → Reply A × Conn → Type ℓ
Replies r msg c (r', c') = (r' ≡ r) × Answers msg c c'

send-Replies :
    (msg : ServerMessage) (c : Conn)
    → CanWrite c.messenger.writes
    → Replies (done tt) msg c (send msg c)
unfolding send write_msg
send-Replies msg c can = go c.messenger.writes can
  where
    go :
        (writes : List (Option SerializationError))
        → CanWrite writes
        → Replies (done tt) msg c (report c.state (write_as msg c.messenger writes))
    go [] can = (refl, record { written_eq = refl; state_eq = refl })
    go (none ∷ rest) can = (refl, record { written_eq = refl; state_eq = refl })
    go (some e ∷ rest) can = absurd can

then-Replies :
    (A : Type 0) (r : Reply A) (msg : ServerMessage) (c : Conn) (sent_it : Reply (Unit {0}) × Conn)
    → Replies (done tt) msg c sent_it
    → Replies r msg c (continue_in (λ _ c'. (r, c')) sent_it)
then-Replies A r msg c (done u, c') (e, a) = (refl, a)
then-Replies A r msg c (failed x, c') (e, a) = cc
then-Replies A r msg c (running, c') (e, a) = cc

-- A client that asks to join: if the room exists it is told so and served as its joiner, and if not
-- it is told ErrorNoSuchRoomID and its task ends. The rooms stay as they are.
pub start_join :
    (room_id : ℕ) (draws : List ℕ) (c : Conn)
    → CanWrite c.messenger.writes
    → (room_exists room_id c.state ≡ true
        → Replies
            (done (record { room_id = room_id; is_creator = false }))
            room_joined
            c
            (start (ok (join_room room_id)) draws c))
      × (room_exists room_id c.state ≡ false
          → Replies
              (failed no_such_room_id)
              error_no_such_room_id
              c
              (start (ok (join_room room_id)) draws c))
unfolding start enter_room
start_join room_id draws c can = (
  λ e.
      rw (e, enter_room)
        (then-Replies ConnectionHandler _ room_joined c (send room_joined c)
          (send-Replies room_joined c can)),
  λ e.
      rw (e, enter_room)
        (then-Replies ConnectionHandler _ error_no_such_room_id c (send error_no_such_room_id c)
          (send-Replies error_no_such_room_id c can)),
)

-- The messages that may not come first.
abbrev pub IsLater : ClientMessage → Type 0
IsLater create_room = ⊥
IsLater (join_room room_id) = ⊥
IsLater (send_private_addr addr) = Unit
IsLater done_sending = Unit

-- A connection whose first message is SendPrivateAddr or DoneSending, as on the second of two
-- connections of one client, is answered with SyntaxError and ends; the state is as it was.
pub start_later :
    (msg : ClientMessage) (draws : List ℕ) (c : Conn)
    → IsLater msg
    → CanWrite c.messenger.writes
    → Replies (failed received_incorrect_message) syntax_error c (start (ok msg) draws c)
unfolding start
start_later create_room draws c later can = absurd later
start_later (join_room room_id) draws c later can = absurd later
start_later (send_private_addr addr) draws c later can =
    then-Replies ConnectionHandler _ syntax_error c (send syntax_error c)
      (send-Replies syntax_error c can)
start_later done_sending draws c later can =
    then-Replies ConnectionHandler _ syntax_error c (send syntax_error c)
      (send-Replies syntax_error c can)

-- The contact after SendPrivateAddr: the address that the server sees is public, the one that the
-- client tells is private.
abbrev pub with_addrs : SocketAddr → Option SocketAddr → FullContact → FullContact
with_addrs addr none contact = set_endpoint addr true contact
with_addrs addr (some private_addr) contact =
    set_endpoint private_addr false (set_endpoint addr true contact)

-- In a state that holds no sender, DoneSending in a room that exists makes the client wait for a
-- receiver whose channel is closed already: its next poll ends the task with RoomTimedOut.
pub done_times_out :
    (this : ConnectionHandler) (c : Conn)
    → NoSender c.state
    → room_exists this.room_id c.state ≡ true
    → (rx : ℕ) × (c' : Conn) × (handle_message this (ok done_sending) c ≡ (done (awaits rx), c'))
      × (resume rx c' ≡ (failed room_timed_out, c'))
unfolding handle_message room_exists finish resume
done_times_out this c v there = elim (Option-cases (lookup this.room_id c.state.rooms)) [
  | inl e ↦ absurd (cc (ap is_some (sym e) ∙ there))
  | inr (room, e) ↦
      let clear = subst HasNoSender e (v.rooms_clear this.room_id) in
      let own = peer_sender_clear this.is_creator room clear in
      let (s, e', alone) =
        set_client_done-Alone this.room_id this.is_creator room c.state e
          (peer_sender_clear (not this.is_creator) room clear) (λ h. cc (sym own ∙ h)) in
      (c.state.next_channel, record c { state = s }, rw (e', finish), rw (alone.dropped, resume))
]
