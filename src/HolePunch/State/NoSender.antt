-- ===== src/HolePunch/State/NoSender.antt =====
-- What `set_client_done` of gday_hole_punch/src/server/global_state.rs leaves in the rooms.
use mathlib.Core.Bool.{not}
use gday_old.Base.{
  ℕ, ◌≡◌, refl, sym, ◌∙◌, subst, Bool, true, false, Option, none, some, List, ◌==◌, leb, get_elem?,
  Option-cases, Bool-cases, inl, inr,
}
use gday_old.Base.Assoc.{Assoc, lookup, insert, remove, lookup-insert, lookup-remove}
use gday_old.HolePunch.Contact.{SocketAddr, FullContact}
use gday_old.HolePunch.State.{
  Room, State, Channel, pending, sent, closed, get_client, set_client, set_sender, new_room,
  new_state, create_room, draw_room_id, update_client, set_client_done, complete, exchange,
  drop_room, drop_sender, Task, remove_room, remove_blocked, run_task, wake, elapse, take_timer,
  block, blocked_timeout,
}
use gday_old.HolePunch.State.Exchange.{complete-Alone}

-- A channel that never carries a value.
abbrev pub IsSilent : Option Channel → Type 0
IsSilent none = Unit
IsSilent (some pending) = Unit
IsSilent (some (sent a b)) = ⊥
IsSilent (some closed) = Unit

abbrev pub HasNoSender : Option Room → Type 0
HasNoSender none = Unit
HasNoSender (some room) = (room.creator.sender ≡ none) × (room.joiner.sender ≡ none)

-- No room holds a sender, and no channel carries a value.
pub record NoSender (s : State) : Type 0 where
  pub rooms_clear : (j : ℕ) → HasNoSender (lookup j s.rooms)
  pub channels_silent : (j : ℕ) → IsSilent (lookup j s.channels)

pub new_state-NoSender : NoSender new_state
unfolding new_state lookup
new_state-NoSender = record { rooms_clear = λ j. tt; channels_silent = λ j. tt }

insert-clear :
    (k : ℕ) (room : Room) (rooms : Assoc Room)
    → HasNoSender (some room)
    → ((j : ℕ) → HasNoSender (lookup j rooms))
    → (j : ℕ) → HasNoSender (lookup j (insert k room rooms))
insert-clear k room rooms clear all j = elim (Bool-cases (k == j)) [
  | inl e ↦ rw (lookup-insert k j room rooms, e) clear
  | inr e ↦ rw (lookup-insert k j room rooms, e) (all j)
]

remove-clear :
    (k : ℕ) (rooms : Assoc Room)
    → ((j : ℕ) → HasNoSender (lookup j rooms))
    → (j : ℕ) → HasNoSender (lookup j (remove k rooms))
remove-clear k rooms all j = elim (Bool-cases (k == j)) [
  | inl e ↦ rw (lookup-remove k j rooms, e) tt
  | inr e ↦ rw (lookup-remove k j rooms, e) (all j)
]

insert-IsSilent :
    (k : ℕ) (c : Channel) (channels : Assoc Channel)
    → IsSilent (some c)
    → ((j : ℕ) → IsSilent (lookup j channels))
    → (j : ℕ) → IsSilent (lookup j (insert k c channels))
insert-IsSilent k c channels silent all j = elim (Bool-cases (k == j)) [
  | inl e ↦ rw (lookup-insert k j c channels, e) silent
  | inr e ↦ rw (lookup-insert k j c channels, e) (all j)
]

drop_sender-IsSilent :
    (tx : Option ℕ) (channels : Assoc Channel)
    → ((j : ℕ) → IsSilent (lookup j channels))
    → (j : ℕ) → IsSilent (lookup j (drop_sender tx channels))
unfolding drop_sender
drop_sender-IsSilent none channels all j = all j
drop_sender-IsSilent (some tx) channels all j = go (lookup tx channels)
  where
    go :
        (o : Option Channel)
        → IsSilent (lookup j (elim o [ some pending ↦ insert tx closed channels | _ ↦ channels ]))
    go none = all j
    go (some pending) = insert-IsSilent tx closed channels tt all j
    go (some (sent a b)) = all j
    go (some closed) = all j

-- A property of the state that an operation returns.
abbrev pub Ensures {ℓ} : {A : Type ℓ} → (State → Type 0) → Option (A × State) → Type 0
Ensures P none = Unit
Ensures P (some (a, s)) = P s

pub create_room-NoSender :
    (draws : List ℕ) (s : State) → NoSender s → Ensures NoSender (create_room draws s)
unfolding create_room
create_room-NoSender draws s v = elim (Option-cases (draw_room_id draws s.rooms)) [
  | inl e ↦ rw (e, create_room) tt
  | inr (room_id, e) ↦
      rw (e, create_room)
        (record {
          rooms_clear = insert-clear room_id new_room s.rooms (refl, refl) v.rooms_clear;
          channels_silent = v.channels_silent;
        })
]

set_endpoint-clear :
    (is_creator : Bool) (c : FullContact) (room : Room)
    → HasNoSender (some room)
    → HasNoSender
        (some (set_client is_creator (record (get_client is_creator room) { contact = c }) room))
set_endpoint-clear true c room clear = clear
set_endpoint-clear false c room clear = clear

abbrev pub Gives : (State → Type 0) → Option State → Type 0
Gives P none = Unit
Gives P (some s) = P s

pub update_client-NoSender :
    (room_id : ℕ) (is_creator : Bool) (endpoint : SocketAddr) (is_public : Bool) (s : State)
    → NoSender s
    → Gives NoSender (update_client room_id is_creator endpoint is_public s)
unfolding update_client
update_client-NoSender room_id is_creator endpoint is_public s v =
    elim (Option-cases (lookup room_id s.rooms)) [
      | inl e ↦ rw (e, update_client) tt
      | inr (room, e) ↦
          rw (e, update_client)
            (record {
              rooms_clear =
                  insert-clear room_id _ s.rooms
                    (set_endpoint-clear is_creator _ room
                      (subst HasNoSender e (v.rooms_clear room_id)))
                    v.rooms_clear;
              channels_silent = v.channels_silent;
            })
    ]

pub peer_sender_clear :
    (is_creator : Bool) (room : Room)
    → HasNoSender (some room)
    → (get_client is_creator room).sender ≡ none
peer_sender_clear true room clear = clear.0
peer_sender_clear false room clear = clear.1

set_sender-clear :
    (is_creator : Bool) (room : Room)
    → HasNoSender (some (set_sender (not is_creator) none (set_sender is_creator none room)))
set_sender-clear true room = (refl, refl)
set_sender-clear false room = (refl, refl)

complete-rooms_clear :
    (room_id : ℕ) (is_creator : Bool) (room : Room) (s : State)
    → NoSender s
    → HasNoSender (some room)
    → (j : ℕ) → HasNoSender (lookup j (complete room_id is_creator room s).1.rooms)
complete-rooms_clear room_id is_creator room s v clear j =
    let own : (get_client is_creator room).sender ≡ none =
      peer_sender_clear is_creator room clear in
    let alone =
      complete-Alone room_id is_creator room s (peer_sender_clear (not is_creator) room clear)
        (λ e. cc (sym own ∙ e)) in
    elim (Bool-cases (room_id == j)) [
      | inl e ↦ rw (alone.rooms_eq j, e) (set_sender-clear is_creator room)
      | inr e ↦ rw (alone.rooms_eq j, e) (v.rooms_clear j)
    ]

exchange-IsSilent :
    (room_id : ℕ) (is_creator : Bool) (tx : ℕ) (mine theirs : FullContact) (room : Room) (s : State)
    → (get_client (not is_creator) room).sender ≡ none
    → ((j : ℕ) → IsSilent (lookup j s.channels))
    → (j : ℕ) → IsSilent (lookup j (exchange room_id is_creator tx mine theirs room s).channels)
unfolding exchange
exchange-IsSilent room_id is_creator tx mine theirs room s alone silent j =
    rw (alone, exchange) (drop_sender-IsSilent (some tx) s.channels silent j)

complete-IsSilent :
    (room_id : ℕ) (is_creator : Bool) (room : Room) (s : State)
    → NoSender s
    → HasNoSender (some room)
    → (j : ℕ) → IsSilent (lookup j (complete room_id is_creator room s).1.channels)
unfolding complete
complete-IsSilent room_id true room s v clear j =
    exchange-IsSilent room_id true s.next_channel _ _ (set_sender true none room) _ clear.1
      (drop_sender-IsSilent room.creator.sender _
        (insert-IsSilent s.next_channel pending s.channels tt v.channels_silent))
      j
complete-IsSilent room_id false room s v clear j =
    exchange-IsSilent room_id false s.next_channel _ _ (set_sender false none room) _ clear.0
      (drop_sender-IsSilent room.joiner.sender _
        (insert-IsSilent s.next_channel pending s.channels tt v.channels_silent))
      j

pub set_client_done-NoSender :
    (room_id : ℕ) (is_creator : Bool) (s : State)
    → NoSender s
    → Ensures NoSender (set_client_done room_id is_creator s)
unfolding set_client_done
set_client_done-NoSender room_id is_creator s v = elim (Option-cases (lookup room_id s.rooms)) [
  | inl e ↦ rw (e, set_client_done) tt
  | inr (room, e) ↦
      let clear = subst HasNoSender e (v.rooms_clear room_id) in
      rw (e, set_client_done)
        (record {
          rooms_clear = complete-rooms_clear room_id is_creator room s v clear;
          channels_silent = complete-IsSilent room_id is_creator room s v clear;
        })
]

drop_room-NoSender : (room_id : ℕ) (s : State) → NoSender s → NoSender (drop_room room_id s)
unfolding drop_room
drop_room-NoSender room_id s v = elim (Option-cases (lookup room_id s.rooms)) [
  | inl e ↦ rw (e, drop_room) v
  | inr (room, e) ↦
      rw (e, drop_room)
        (record {
          rooms_clear = remove-clear room_id s.rooms v.rooms_clear;
          channels_silent =
              drop_sender-IsSilent room.joiner.sender _
                (drop_sender-IsSilent room.creator.sender s.channels v.channels_silent);
        })
]

run_task-NoSender : (t : Task) (s : State) → NoSender s → NoSender (run_task t s)
unfolding run_task
run_task-NoSender (remove_room room_id) s v = drop_room-NoSender room_id s v
run_task-NoSender (remove_blocked addr) s v = record {
  rooms_clear = v.rooms_clear;
  channels_silent = v.channels_silent;
}

pub wake-NoSender : (i : ℕ) (s : State) → NoSender s → NoSender (wake i s)
unfolding wake
wake-NoSender i s v = elim (Option-cases (get_elem? s.timers i)) [
  | inl e ↦ rw (e, wake) v
  | inr (t, e) ↦
      let woken : State = record s { timers = take_timer i s.timers } in
      let held : NoSender woken = record {
        rooms_clear = v.rooms_clear;
        channels_silent = v.channels_silent;
      } in
      elim (Bool-cases (leb t.deadline s.now)) [
        | inl due ↦ rw (e, wake, due) (run_task-NoSender t.task woken held)
        | inr early ↦ rw (e, wake, early) v
      ]
]

pub elapse-NoSender : (seconds : ℕ) (s : State) → NoSender s → NoSender (elapse seconds s)
unfolding elapse
elapse-NoSender seconds s v = record {
  rooms_clear = v.rooms_clear;
  channels_silent = v.channels_silent;
}

pub block-NoSender :
    (addr : ℕ) (s : State) → NoSender s → NoSender (blocked_timeout addr (block addr s))
unfolding block blocked_timeout
block-NoSender addr s v = record {
  rooms_clear = v.rooms_clear;
  channels_silent = v.channels_silent;
}
