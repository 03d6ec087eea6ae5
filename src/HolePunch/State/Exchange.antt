-- ===== src/HolePunch/State/Exchange.antt =====
-- `set_client_done` of gday_hole_punch/src/server/global_state.rs.
use mathlib.Core.Bool.{not}
use gday_old.Base.{
  ℕ, ◌≡◌, ◌≢◌, refl, Bool, true, false, Option, none, some, ◌==◌, if◌then◌else◌, arith, ap,
}
use gday_old.Base.Assoc.{Assoc, lookup, insert, lookup-insert}
use gday_old.HolePunch.Contact.{FullContact}
use gday_old.HolePunch.State.{
  Room, State, Channel, pending, closed, get_client, set_sender, drop_sender, exchange, complete,
  set_client_done,
}

drop_pending :
    (tx : ℕ) (channels : Assoc Channel)
    → lookup tx channels ≡ some pending
    → lookup tx (drop_sender (some tx) channels) ≡ some closed
unfolding drop_sender
drop_pending tx channels e =
    rw (e, drop_sender) (ground (arith, lookup-insert tx tx closed channels))

-- A channel that is new stays pending when the sender before it is dropped.
drop_old :
    (tx : ℕ) (old : Option ℕ) (channels : Assoc Channel)
    → old ≢ some tx
    → lookup tx (drop_sender old (insert tx pending channels)) ≡ some pending
unfolding drop_sender
drop_old tx none channels other = ground (arith, lookup-insert tx tx pending channels)
drop_old tx (some old) channels other =
    let differ = λ (e : old ≡ tx). other (ap some e) in
    ground (
      arith,
      differ,
      lookup-insert tx tx pending channels,
      lookup-insert old tx closed (insert tx pending channels),
    )

pub complete_channel :
    (room_id : ℕ) (is_creator : Bool) (room : Room) (s : State)
    → (complete room_id is_creator room s).0 ≡ s.next_channel
unfolding complete
complete_channel room_id true room s = refl
complete_channel room_id false room s = refl

-- A client whose peer is not waiting.
pub record Alone (room_id : ℕ) (is_creator : Bool) (room : Room) (s s' : State) : Type 0 where
  pub dropped : lookup s.next_channel s'.channels ≡ some closed
  pub rooms_eq :
      (j : ℕ)
      → lookup j s'.rooms ≡ (
          if room_id == j
          then some (set_sender (not is_creator) none (set_sender is_creator none room))
          else lookup j s.rooms)

exchange-Alone :
    (room_id : ℕ) (is_creator : Bool) (tx : ℕ) (mine theirs : FullContact) (room : Room) (s : State)
    → (get_client (not is_creator) room).sender ≡ none
    → lookup tx s.channels ≡ some pending
    → (lookup tx (exchange room_id is_creator tx mine theirs room s).channels ≡ some closed)
      × ((j : ℕ)
          → lookup j (exchange room_id is_creator tx mine theirs room s).rooms ≡ (
              if room_id == j
              then some (set_sender (not is_creator) none room)
              else lookup j s.rooms))
unfolding exchange
exchange-Alone room_id is_creator tx mine theirs room s alone open_yet =
    rw (alone, exchange)
      (drop_pending tx s.channels open_yet, λ j. lookup-insert room_id j _ s.rooms)

pub complete-Alone :
    (room_id : ℕ) (is_creator : Bool) (room : Room) (s : State)
    → (get_client (not is_creator) room).sender ≡ none
    → (get_client is_creator room).sender ≢ some s.next_channel
    → Alone room_id is_creator room s (complete room_id is_creator room s).1
unfolding complete
complete-Alone room_id true room s alone other =
    let (closed_now, rooms_now) =
      exchange-Alone room_id true s.next_channel room.creator.contact room.joiner.contact
        (set_sender true none room) _ alone
        (drop_old s.next_channel room.creator.sender s.channels other) in
    record { dropped = closed_now; rooms_eq = rooms_now }
complete-Alone room_id false room s alone other =
    let (closed_now, rooms_now) =
      exchange-Alone room_id false s.next_channel room.joiner.contact room.creator.contact
        (set_sender false none room) _ alone
        (drop_old s.next_channel room.joiner.sender s.channels other) in
    record { dropped = closed_now; rooms_eq = rooms_now }

-- In a room that does not hold the peer's sender, nor one of a channel that is yet to be opened, the
-- receiver that `set_client_done` returns finds its channel closed, and the room keeps no sender: the
-- client's own was taken out and dropped.
pub set_client_done-Alone :
    (room_id : ℕ) (is_creator : Bool) (room : Room) (s : State)
    → lookup room_id s.rooms ≡ some room
    → (get_client (not is_creator) room).sender ≡ none
    → (get_client is_creator room).sender ≢ some s.next_channel
    → (s' : State) × (set_client_done room_id is_creator s ≡ some (s.next_channel, s'))
      × Alone room_id is_creator room s s'
unfolding set_client_done
set_client_done-Alone room_id is_creator room s found alone other = (
  (complete room_id is_creator room s).1,
  rw (found, set_client_done)
      (ap (λ n. some (n, (complete room_id is_creator room s).1))
        (complete_channel room_id is_creator room s)),
  complete-Alone room_id is_creator room s alone other,
)
