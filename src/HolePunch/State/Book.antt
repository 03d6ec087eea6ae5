-- ===== src/HolePunch/State/Book.antt =====
-- What the operations of gday_hole_punch/src/server/global_state.rs promise: a book of the contacts
-- that both clients of a room have told, with the tasks that are pending. Channels, senders and the
-- order of the map are forgotten.
pub mod Shows
pub mod Refines
use gday_old.Base.{
  ℕ, zero, suc, ◌+◌, Bool, true, Option, none, some, List, [], ◌∷◌, ◌==◌, ◌&&◌, leb, get_elem?,
  if◌then◌else◌,
}
use gday_old.Base.Assoc.{is_some}
use gday_old.HolePunch.Contact.{FullContact, no_full_contact}
use gday_old.HolePunch.State.{Task, remove_room, remove_blocked, Timer, take_timer, set_endpoint}
use gday_old.HolePunch.State.Rooms.{same_side, map_contact}
use gday_old.HolePunch.State.Runs.{Op, creates, updates, completes, blocks, wakes, elapses}

-- `told room_id is_creator` is what a client of a room has told.
pub record Book : Type 0 where
  pub told : ℕ → Bool → Option FullContact
  pub timers : List Timer
  pub now : ℕ

abbrev pub empty_book : Book
empty_book = record { told = λ j side. none; timers = []; now = 0 }

-- The first number that no room has.
abbrev pub first_free : List ℕ → (ℕ → Bool → Option FullContact) → Option ℕ
first_free [] told = none
first_free (room_id ∷ draws) told =
    let again = first_free draws told in if is_some (told room_id true) then again else some room_id

abbrev pub opened_room : Option ℕ → Book → Book
opened_room none b = b
opened_room (some room_id) b = record b {
  told = λ j side. if room_id == j then some no_full_contact else b.told j side;
  timers = record { task = remove_room room_id; deadline = b.now + 600 } ∷ b.timers;
}

abbrev pub close : Task → Book → Book
close (remove_room room_id) b = record b {
  told = λ j side. if room_id == j then none else b.told j side;
}
close (remove_blocked addr) b = b

abbrev pub fire : Option Timer → ℕ → Book → Book
fire none i b = b
fire (some t) i b =
    if leb t.deadline b.now then close t.task (record b { timers = take_timer i b.timers }) else b

-- An operation on the book. A client that is done changes nothing in it.
abbrev pub note : Op → Book → Book
note (creates draws) b = opened_room (first_free draws b.told) b
note (updates room_id is_creator endpoint is_public) b = record b {
  told = λ j side.
      if (room_id == j) && same_side is_creator side
      then map_contact (set_endpoint endpoint is_public) (b.told j side)
      else b.told j side;
}
note (completes room_id is_creator) b = b
note (blocks addr) b = record b {
  timers = record { task = remove_blocked addr; deadline = b.now + 1 } ∷ b.timers;
}
note (wakes i) b = fire (get_elem? b.timers i) i b
note (elapses seconds) b = record b { now = b.now + seconds }

unfoldable pub replay : List Op → Book → Book
replay [] b = b
replay (op ∷ ops) b = replay ops (note op b)
