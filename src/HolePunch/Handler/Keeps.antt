-- ===== src/HolePunch/Handler/Keeps.antt =====
-- What every step of a handler of gday_hole_punch/src/server/connection_handler.rs keeps, from what
-- its operations on the state and its writes keep.
use gday_old.Base.{
  ℕ, ◌≡◌, Bool, true, false, Option, none, some, List, Option-cases, Bool-cases, inl, inr,
}
use gday_old.Base.Assoc.{lookup}
use gday_old.Base.Outcome.{Result, ok, err}
use gday_old.HolePunch.Contact.{
  SocketAddr, FullContact, ClientMessage, create_room, join_room, send_private_addr, done_sending,
  ServerMessage, room_created, room_joined, share_peer_contacts, syntax_error,
  error_no_such_room_id, SerializationError,
}
use gday_old.HolePunch.State
use gday_old.HolePunch.State.{State, Channel, pending, sent, closed, room_exists, set_client_done}
use gday_old.HolePunch.Handler.{
  ServerError, io, serialization, received_incorrect_message, Conn, Reply, done, failed, running, M,
  continue_in, ◌>>=◌, ◌>>◌, pure, fail, send, peer_addr, ConnectionHandler, send_no_such_room,
  update_client, update_private, Progress, next_message, finish, handle_message, resume, open_room,
  enter_room, start,
}

-- The messages other than the one that tells contacts.
abbrev pub IsPlain : ServerMessage → Type 0
IsPlain (room_created room_id) = Unit
IsPlain room_joined = Unit
IsPlain (share_peer_contacts a b) = ⊥
IsPlain syntax_error = Unit
IsPlain error_no_such_room_id = Unit

module _ (P : Conn → Type 0) where
  abbrev pub Keeps : {A : Type 0} → M A → Type 0
  Keeps m = (c : Conn) → P c → P (m c).1

  pub bind-Keeps :
      {A B : Type 0} (m : M A) (f : A → M B) → Keeps m → ((a : A) → Keeps (f a)) → Keeps (m >>= f)
  bind-Keeps m f hm hf c p = go (m c) (hm c p)
    where
      go : (r : Reply _ × Conn) → P r.1 → P (continue_in f r).1
      go (done a, c') p' = hf a c' p'
      go (failed e, c') p' = p'
      go (running, c') p' = p'

  peer_addr-Keeps : Keeps peer_addr
  unfolding peer_addr
  peer_addr-Keeps c p = go c.messenger.peer_addr
    where
      go :
          (r : Result ℕ SocketAddr)
          → P
              (elim r as (λ x. Reply SocketAddr × Conn) [
                | ok addr ↦ (done addr, c)
                | err e ↦ (failed (io e), c)
              ]).1
      go (ok addr) = p
      go (err e) = p

  module _ (sends : (msg : ServerMessage) → IsPlain msg → Keeps (send msg)) where
    refuse-Keeps : (A : Type 0) (e : ServerError) → Keeps {A = A} (send syntax_error >> fail e)
    refuse-Keeps A e = bind-Keeps (send syntax_error) _ (sends syntax_error tt) (λ _ c p. p)

    send_no_such_room-Keeps : Keeps send_no_such_room
    unfolding send_no_such_room
    send_no_such_room-Keeps =
        bind-Keeps (send error_no_such_room_id) _ (sends error_no_such_room_id tt) (λ _ c p. p)

    module _ (this : ConnectionHandler)
        (updates : (addr : SocketAddr) (is_public : Bool) (c : Conn) (s : State)
          → P c
          → State.update_client this.room_id this.is_creator addr is_public c.state ≡ some s
          → P (record c { state = s }))
        (finishes : (c : Conn) (rx : ℕ) (s : State)
          → P c
          → set_client_done this.room_id this.is_creator c.state ≡ some (rx, s)
          → P (record c { state = s })) where
      update_client-Keeps :
          (addr : SocketAddr) (is_public : Bool) → Keeps (update_client this addr is_public)
      unfolding update_client
      update_client-Keeps addr is_public c p =
          elim (Option-cases
            (State.update_client this.room_id this.is_creator addr is_public c.state)) [
              | inl e ↦ rw (e, update_client) (send_no_such_room-Keeps c p)
              | inr (s, e) ↦ rw (e, update_client) (updates addr is_public c s p e)
            ]

      update_private-Keeps : (addr : Option SocketAddr) → Keeps (update_private this addr)
      unfolding update_private
      update_private-Keeps none c p = p
      update_private-Keeps (some addr) c p = update_client-Keeps addr false c p

      finish-Keeps : Keeps (finish this)
      unfolding finish
      finish-Keeps c p =
          elim (Option-cases (set_client_done this.room_id this.is_creator c.state)) [
            | inl e ↦
                rw (e, finish)
                  (bind-Keeps send_no_such_room _ send_no_such_room-Keeps (λ _ c p. p) c p)
            | inr ((rx, s), e) ↦ rw (e, finish) (finishes c rx s p e)
          ]

      pub handle_message-Keeps :
          (msg : Result SerializationError ClientMessage) → Keeps (handle_message this msg)
      unfolding handle_message
      handle_message-Keeps (ok (send_private_addr private_addr)) =
          bind-Keeps peer_addr _ peer_addr-Keeps λ addr.
            bind-Keeps (update_client this addr true) _ (update_client-Keeps addr true) λ _.
              bind-Keeps (update_private this private_addr) _ (update_private-Keeps private_addr)
                (λ _ c p. p)
      handle_message-Keeps (ok done_sending) = finish-Keeps
      handle_message-Keeps (ok create_room) = refuse-Keeps Progress received_incorrect_message
      handle_message-Keeps (ok (join_room room_id)) =
          refuse-Keeps Progress received_incorrect_message
      handle_message-Keeps (err e) = refuse-Keeps Progress (serialization e)

    module _
        (shares : (c : Conn) (rx : ℕ) (a b : FullContact)
          → P c
          → lookup rx c.state.channels ≡ some (sent a b)
          → P (send (share_peer_contacts a b) c).1) where
      pub resume-Keeps : (rx : ℕ) → Keeps (resume rx)
      unfolding resume
      resume-Keeps rx c p = elim (Option-cases (lookup rx c.state.channels)) [
        | inl e ↦ rw (e, resume) p
        | inr (found, e) ↦ go found e
      ]
        where
          told :
              (a b : FullContact)
              → P (send (share_peer_contacts a b) c).1
              → P ((send (share_peer_contacts a b) >> pure next_message) c).1
          told a b p' = after (send (share_peer_contacts a b) c) p'
            where
              after :
                  (r : Reply (Unit {0}) × Conn)
                  → P r.1
                  → P (continue_in (λ _. pure next_message) r).1
              after (done u, c') p' = p'
              after (failed e, c') p' = p'
              after (running, c') p' = p'

          go : (found : Channel) → lookup rx c.state.channels ≡ some found → P (resume rx c).1
          go pending e = rw (e, resume) p
          go closed e = rw (e, resume) p
          go (sent a b) e = rw (e, resume) (told a b (shares c rx a b p e))

    module _
        (opens : (c : Conn) (draws : List ℕ) (room_id : ℕ) (s : State)
          → P c
          → State.create_room draws c.state ≡ some (room_id, s)
          → P (record c { state = s })) where
      open_room-Keeps : (draws : List ℕ) → Keeps (open_room draws)
      unfolding open_room
      open_room-Keeps draws c p = elim (Option-cases (State.create_room draws c.state)) [
        | inl e ↦ rw (e, open_room) p
        | inr ((room_id, s), e) ↦
            rw (e, open_room)
              (bind-Keeps (send (room_created room_id)) _ (sends (room_created room_id) tt)
                (λ _ c p. p) (record c { state = s }) (opens c draws room_id s p e))
      ]

      enter_room-Keeps : (room_id : ℕ) → Keeps (enter_room room_id)
      unfolding enter_room
      enter_room-Keeps room_id c p = elim (Bool-cases (room_exists room_id c.state)) [
        | inl e ↦
            rw (e, enter_room)
              (bind-Keeps (send room_joined) _ (sends room_joined tt) (λ _ c p. p) c p)
        | inr e ↦
            rw (e, enter_room)
              (bind-Keeps (send error_no_such_room_id) _ (sends error_no_such_room_id tt)
                (λ _ c p. p) c p)
      ]

      pub start-Keeps :
          (msg : Result SerializationError ClientMessage) (draws : List ℕ) → Keeps (start msg draws)
      unfolding start
      start-Keeps (ok create_room) draws = open_room-Keeps draws
      start-Keeps (ok (join_room room_id)) draws = enter_room-Keeps room_id
      start-Keeps (ok (send_private_addr addr)) draws =
          refuse-Keeps ConnectionHandler received_incorrect_message
      start-Keeps (ok done_sending) draws =
          refuse-Keeps ConnectionHandler received_incorrect_message
      start-Keeps (err e) draws = refuse-Keeps ConnectionHandler (serialization e)
