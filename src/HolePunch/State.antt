-- ===== src/HolePunch/State.antt =====
-- gday_hole_punch/src/server/global_state.rs: the rooms, each operation under the one lock. A
-- oneshot channel is a number; what its receiver would find is in `channels`. The tasks that
-- `tokio::spawn` leaves behind are the timers, in seconds.
pub mod Rooms
pub mod Runs
pub mod Expiry
pub mod NoSender
pub mod Exchange
pub mod Book
pub mod Looks
use mathlib.Core.Bool.{not}
use gday_old.Base.{
  ℕ, zero, suc, ◌+◌, leb, get_elem?, Bool, true, false, Option, none, some, List, [], ◌∷◌,
  if◌then◌else◌,
}
use gday_old.Base.Assoc.{Assoc, lookup, insert, remove, contains_key}
use gday_old.HolePunch.Contact.{SocketAddr, V4, V6, Contact, FullContact, no_full_contact}

pub record Client : Type 0 where
  pub contact : FullContact
  pub sender : Option ℕ

pub record Room : Type 0 where
  pub creator : Client
  pub joiner : Client

abbrev pub new_client : Client
new_client = record { contact = no_full_contact; sender = none }

abbrev pub new_room : Room
new_room = record { creator = new_client; joiner = new_client }

-- What `rx.await` finds: nothing yet, a value, or that the sender was dropped.
pub data Channel : Type 0 where
  pending : Channel
  sent : FullContact → FullContact → Channel
  closed : Channel

-- What a spawned task does when its sleep is over.
pub data Task : Type 0 where
  remove_room : ℕ → Task
  remove_blocked : ℕ → Task

pub record Timer : Type 0 where
  pub task : Task
  pub deadline : ℕ

pub record State : Type 0 where
  pub rooms : Assoc Room
  pub blocked : Assoc (Unit {0})
  pub channels : Assoc Channel
  pub next_channel : ℕ
  pub timers : List Timer
  pub now : ℕ

-- `State::default()`.
unfoldable pub new_state : State
new_state = record {
  rooms = [];
  blocked = [];
  channels = [];
  next_channel = 0;
  timers = [];
  now = 0;
}

-- `block`; an address is a number, since it is used as a key only.
unfoldable pub block : ℕ → State → State
block addr s = record s { blocked = insert addr tt s.blocked }

-- `blocked_timeout`: one second.
unfoldable pub blocked_timeout : ℕ → State → State
blocked_timeout addr s = record s {
  timers = record { task = remove_blocked addr; deadline = s.now + 1 } ∷ s.timers;
}

-- `Room::get_client`.
abbrev pub get_client : Bool → Room → Client
get_client true room = room.creator
get_client false room = room.joiner

-- A write through `Room::get_client_mut`.
abbrev pub set_client : Bool → Client → Room → Room
set_client true c room = record room { creator = c }
set_client false c room = record room { joiner = c }

abbrev pub set_sender : Bool → Option ℕ → Room → Room
set_sender is_creator tx room =
    let c = get_client is_creator room in set_client is_creator (record c { sender = tx }) room

-- Dropping a sender that has sent nothing closes its channel.
unfoldable pub drop_sender : Option ℕ → Assoc Channel → Assoc Channel
drop_sender none channels = channels
drop_sender (some tx) channels = elim (lookup tx channels) [
  | some pending ↦ insert tx closed channels
  | _ ↦ channels
]

-- `Sender::send`.
unfoldable pub send : ℕ → FullContact → FullContact → Assoc Channel → Assoc Channel
send tx a b channels = insert tx (sent a b) channels

-- Removing a room from the map drops both its senders.
unfoldable pub drop_room : ℕ → State → State
unfolding drop_sender
drop_room room_id s = elim (lookup room_id s.rooms) [
  | none ↦ s
  | some room ↦ record s {
    rooms = remove room_id s.rooms;
    channels = drop_sender room.joiner.sender (drop_sender room.creator.sender s.channels);
  }
]

-- The loop of `create_room` that draws until the number is free. The list is what
-- `rng.gen_range(0..1_048_576)` returns from here on; `none` says that the loop is still running
-- behind it.
unfoldable pub draw_room_id : List ℕ → Assoc Room → Option ℕ
draw_room_id [] rooms = none
draw_room_id (room_id ∷ draws) rooms =
    let again = draw_room_id draws rooms in
    if contains_key room_id rooms then again else some room_id

-- `room_timeout`: ten minutes.
abbrev pub room_timeout : ℕ → State → State
room_timeout room_id s = record s {
  timers = record { task = remove_room room_id; deadline = s.now + 600 } ∷ s.timers;
}

unfoldable pub create_room : List ℕ → State → Option (ℕ × State)
create_room draws s = elim (draw_room_id draws s.rooms) [
  | none ↦ none
  | some room_id ↦
      some (room_id, room_timeout room_id (record s { rooms = insert room_id new_room s.rooms }))
]

unfoldable pub room_exists : ℕ → State → Bool
room_exists room_id s = contains_key room_id s.rooms

-- The `match` on the endpoint's family.
abbrev pub set_addr : SocketAddr → Contact → Contact
set_addr (V6 addr) contact = record contact { v6 = some addr }
set_addr (V4 addr) contact = record contact { v4 = some addr }

-- The borrowed field of the contact, public or private, is written.
abbrev pub set_endpoint : SocketAddr → Bool → FullContact → FullContact
set_endpoint endpoint true contact = record contact { public = set_addr endpoint contact.public }
set_endpoint endpoint false contact = record contact { private = set_addr endpoint contact.private }

-- `none` is Err(NoSuchRoomId).
unfoldable pub update_client : ℕ → Bool → SocketAddr → Bool → State → Option State
update_client room_id is_creator endpoint is_public s = elim (lookup room_id s.rooms) [
  | none ↦ none
  | some room ↦
      let c = get_client is_creator room in
      let c' : Client = record c { contact = set_endpoint endpoint is_public c.contact } in
      some (record s { rooms = insert room_id (set_client is_creator c' room) s.rooms })
]

-- The inner `if let`, with this client's sender taken: the peer's sender is taken too. If there is
-- one, both are told and the room goes; if not, the block ends and drops this client's sender.
unfoldable pub exchange : ℕ → Bool → ℕ → FullContact → FullContact → Room → State → State
unfolding drop_sender send
exchange room_id is_creator client_sender client_info peer_info room s =
    elim (get_client (not is_creator) room).sender [
      | none ↦ record s {
        rooms = insert room_id (set_sender (not is_creator) none room) s.rooms;
        channels = drop_sender (some client_sender) s.channels;
      }
      | some peer_sender ↦ record s {
        rooms = remove room_id s.rooms;
        channels =
            send peer_sender peer_info client_info
              (send client_sender client_info peer_info s.channels);
      }
    ]

-- The part of `set_client_done` behind the lookup: a new channel, its sender into the room (which
-- drops the one that was there), and the outer `if let`, which takes it out again.
unfoldable pub complete : ℕ → Bool → Room → State → ℕ × State
unfolding exchange
complete room_id is_creator room s =
    let tx = s.next_channel in
    let old = (get_client is_creator room).sender in
    let room' = set_sender is_creator (some tx) room in
    let s' : State = record s {
      next_channel = suc tx;
      channels = drop_sender old (insert tx pending s.channels);
    } in
    let client_info = (get_client is_creator room').contact in
    let peer_info = (get_client (not is_creator) room').contact in
    let taken = set_sender is_creator none room' in
    let told = λ (client_sender : ℕ).
      exchange room_id is_creator client_sender client_info peer_info taken s' in
    elim (get_client is_creator room').sender [
      | none ↦ (tx, record s' { rooms = insert room_id taken s.rooms })
      | some client_sender ↦ (tx, told client_sender)
    ]

-- The number of the channel whose receiver is returned; `none` is Err(NoSuchRoomId).
unfoldable pub set_client_done : ℕ → Bool → State → Option (ℕ × State)
set_client_done room_id is_creator s = elim (lookup room_id s.rooms) [
  | none ↦ none
  | some room ↦ some (complete room_id is_creator room s)
]

-- A task wakes up: a room with the number goes, whichever it now is.
unfoldable pub run_task : Task → State → State
unfolding drop_room
run_task (remove_room room_id) s = drop_room room_id s
run_task (remove_blocked addr) s = record s { blocked = remove addr s.blocked }

abbrev pub take_timer : ℕ → List Timer → List Timer
take_timer i [] = []
take_timer zero (t ∷ ts) = ts
take_timer (suc i) (t ∷ ts) = t ∷ take_timer i ts

-- The runtime wakes the task at place `i`, if its time has come.
unfoldable pub wake : ℕ → State → State
unfolding run_task
wake i s = elim (get_elem? s.timers i) [
  | none ↦ s
  | some t ↦
      if leb t.deadline s.now
      then run_task t.task (record s { timers = take_timer i s.timers })
      else s
]

-- Time passes.
unfoldable pub elapse : ℕ → State → State
elapse seconds s = record s { now = s.now + seconds }
