-- ===== src/HolePunch/Tests.antt =====
-- gday_hole_punch/src at concrete inputs.
use mathlib.Core.Quot
use gday_old.Base.{
  Option, ℕ, ◌+◌, ◌≡◌, ◌≢◌, refl, true, false, [], ◌∷◌, none, some, List, arith, ◌⊎◌, map, All,
}
use gday_old.Base.Assoc.{lookup, insert}
use gday_old.Base.Outcome.{ok}
use gday_old.HolePunch.Contact.{
  SocketAddr, V4, no_full_contact, create_room, join_room, done_sending, room_created,
}
use gday_old.HolePunch.State
use gday_old.HolePunch.State.Looks.Swap.{view_run, updates_comm}
use gday_old.HolePunch.State.Book.{empty_book, replay}
use gday_old.HolePunch.State.Book.Shows.{Shows}
use gday_old.HolePunch.State.Book.Refines.{run-replay}
use gday_old.HolePunch.State.{
  State, Room, Client, Timer, remove_room, new_state, new_room, new_client, room_exists, sent,
  set_client_done, update_client, wake, set_endpoint, set_sender, get_client,
}
use gday_old.HolePunch.State.Expiry.{Expires}
use gday_old.HolePunch.State.Runs.{run, Op, creates, updates, completes, rooms_expire, never_sent}
use gday_old.HolePunch.Handler.{
  Conn, ConnectionHandler, handle_message, resume, start, room_timed_out, finish, open_room,
  enter_room, send,
}
use gday_old.HolePunch.Handler.Keeps.{IsPlain}
use gday_old.HolePunch.Handler.Server
use gday_old.HolePunch.Handler.Server.{
  no_contacts_shared, ended, Event, accepts, receives, polls, new_server, Connection,
}
use gday_old.HolePunch.Throttle
use gday_old.HolePunch.Throttle.{
  Throttle, Stream, new_throttle, serve_client, on_accept, on_wake, on_enter,
}
use gday_old.HolePunch.Throttle.Spacing.{Undisturbed, Spaced, served-Spaced}
use gday_old.HolePunch.Throttle.Races.{held_served, served_twice}

abbrev home : SocketAddr
home = V4 (record { ip = 0xc0a80002; port = 4000 })

abbrev seen : SocketAddr
seen = V4 (record { ip = 0x05060708; port = 4000 })

abbrev with_room : Room → State
with_room room = record {
  rooms = (7, room) ∷ [];
  blocked = [];
  channels = [];
  next_channel = 1;
  timers = record { task = remove_room 7; deadline = 600 } ∷ [];
  now = 600;
}

abbrev both_done : List Op
both_done = creates (7 ∷ []) ∷ completes 7 true ∷ completes 7 false ∷ []

rooms_expire_example :
    (lookup 7 (run both_done new_state).rooms ≡ none)
    ⊎ Expires 7 ((run both_done new_state).now + 600) (run both_done new_state).timers
rooms_expire_example = rooms_expire both_done 7

run-replay_example : Shows (replay both_done empty_book) (run both_done new_state)
run-replay_example = run-replay both_done

never_sent_example :
    lookup 1 (run both_done new_state).channels ≢ some (sent no_full_contact no_full_contact)
never_sent_example = never_sent both_done 1 no_full_contact no_full_contact

updates_comm_example :
    view_run
      (updates 7 true home true ∷ updates 7 false seen false ∷ completes 7 true ∷ [])
      (Quot.mk (with_room new_room))
    ≡ view_run
        (updates 7 false seen false ∷ updates 7 true home true ∷ completes 7 true ∷ [])
        (Quot.mk (with_room new_room))
updates_comm_example =
    updates_comm 7 7 true false home seen true false (completes 7 true ∷ []) refl
      (Quot.mk (with_room new_room))

abbrev client : Room → Conn
client room = record {
  state = with_room room;
  messenger = record { written = []; writes = none ∷ []; peer_addr = ok seen };
}

abbrev creator : ConnectionHandler
creator = record { room_id = 7; is_creator = true }

-- A client creates room 7, another joins it, both are done, and both are polled.
abbrev meeting : List Event
meeting =
    accepts 1 [] (ok seen)
    ∷ accepts 2 [] (ok home)
    ∷ receives 1 (ok create_room) (7 ∷ [])
    ∷ receives 2 (ok (join_room 7)) []
    ∷ receives 1 (ok done_sending) []
    ∷ receives 2 (ok done_sending) []
    ∷ polls 1
    ∷ polls 2
    ∷ []

abbrev creator_end : Connection
creator_end = record {
  phase = ended room_timed_out;
  messenger = record { written = room_created 7 ∷ []; writes = []; peer_addr = ok seen };
}

creator_ends : lookup 1 (Server.run meeting new_server).connections ≡ some creator_end
unfolding Server.run Server.on_event Server.at_connection Server.accept Server.on_message
    Server.on_poll start handle_message resume finish open_room enter_room send State.create_room
    State.draw_room_id room_exists set_client_done State.complete lookup insert new_server
creator_ends = refl

no_contacts_shared_example : All IsPlain (room_created 7 ∷ [])
no_contacts_shared_example = no_contacts_shared meeting 1 creator_end creator_ends

-- Address 9 connects three times at once; the last stream is served five seconds later.
abbrev from_nine : ℕ → Throttle.Event
from_nine id = Throttle.accepts (some (record { id = id; ip = 9 })) true

abbrev hurried : List Throttle.Event
hurried =
    from_nine 1
    ∷ Throttle.enters 0
    ∷ from_nine 2
    ∷ from_nine 3
    ∷ Throttle.elapses 5
    ∷ Throttle.wakes 0 true
    ∷ Throttle.enters 0
    ∷ []

served_times :
    map {B = ℕ × ℕ} (λ s. (s.stream.id, s.time)) (Throttle.run hurried new_throttle).served
    ≡ (3, 5) ∷ (1, 0) ∷ []
unfolding Throttle.run Throttle.on_event on_accept on_wake on_enter serve_client lookup insert
    new_throttle
served_times = refl

-- Address 9 was served at time 0, and its task is due.
abbrev blocked_nine : Option Stream → Throttle
blocked_nine held = record {
  blocked = (9, held) ∷ [];
  wakeups = record { ip = 9; deadline = 5 } ∷ [];
  entering = [];
  served = record { stream = record { id = 1; ip = 9 }; time = 0 } ∷ [];
  now = 5;
}

held_served_example :
    (on_enter 0 (
      on_wake 0 true (
        on_accept
          (some (record { id = 3; ip = 9 }))
          true
          (on_accept (some (record { id = 2; ip = 9 })) true (blocked_nine none))))).served
    ≡ record { stream = record { id = 3; ip = 9 }; time = 5 } ∷ (blocked_nine none).served
unfolding lookup
held_served_example = (held_served 2 3 9 0 5 (blocked_nine none) none refl refl (omega arith)).1

-- The state before is one that the loop comes to.
is_held :
    Throttle.run
      (from_nine 1 ∷ Throttle.enters 0 ∷ from_nine 2 ∷ Throttle.elapses 5 ∷ [])
      new_throttle
    ≡ blocked_nine (some (record { id = 2; ip = 9 }))
unfolding Throttle.run Throttle.on_event on_accept on_enter serve_client lookup insert new_throttle
is_held = refl

served_twice_example :
    (Throttle.run
      (Throttle.wakes 0 true ∷ from_nine 3 ∷ Throttle.enters 1 ∷ Throttle.enters 0 ∷ [])
      (blocked_nine (some (record { id = 2; ip = 9 })))).served
    ≡ record { stream = record { id = 3; ip = 9 }; time = 5 }
      ∷ record { stream = record { id = 2; ip = 9 }; time = 5 }
      ∷ (blocked_nine none).served
unfolding lookup
served_twice_example =
    served_twice 2 3 9 0 5 (blocked_nine (some (record { id = 2; ip = 9 }))) refl refl (omega arith)
      refl

hurried-Undisturbed : Undisturbed hurried new_throttle
unfolding Throttle.on_event on_accept on_wake on_enter serve_client lookup insert new_throttle
hurried-Undisturbed = (tt, (tt, (tt, (tt, (tt, (tt, (tt, tt)))))))

served-Spaced_example : Spaced (Throttle.run hurried new_throttle).served
served-Spaced_example = served-Spaced hurried hurried-Undisturbed
