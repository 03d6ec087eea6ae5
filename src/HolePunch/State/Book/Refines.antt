-- ===== src/HolePunch/State/Book/Refines.antt =====
-- Sequences of operations of gday_hole_punch/src/server/global_state.rs, against the book.
use gday_old.Base.{
  ℕ, ◌≡◌, refl, sym, ◌∙◌, ap, Bool, Option, none, List, [], ◌∷◌, ◌==◌, leb, get_elem?,
  if◌then◌else◌, Option-cases, Bool-cases, inl, inr,
}
use gday_old.Base.Assoc.{lookup}
use gday_old.HolePunch.Contact.{FullContact}
use gday_old.HolePunch.State.{
  State, new_state, drop_room, Task, remove_room, remove_blocked, run_task, wake, Timer, take_timer,
  elapse, block, blocked_timeout,
}
use gday_old.HolePunch.State.Rooms.{told}
use gday_old.HolePunch.State.NoSender.{NoSender, new_state-NoSender}
use gday_old.HolePunch.State.Expiry.{drop_room-rooms, run_task-timers}
use gday_old.HolePunch.State.Runs.{
  Op, creates, updates, completes, blocks, wakes, elapses, apply, run, apply-NoSender,
}
use gday_old.HolePunch.State.Book.{Book, empty_book, close, note, replay}
use gday_old.HolePunch.State.Book.Shows.{
  Shows, create_room-Shows, update_client-Shows, set_client_done-Shows,
}

drop_room-told :
    (room_id j : ℕ) (side : Bool) (s : State)
    → told j side (drop_room room_id s) ≡ (if room_id == j then none else told j side s)
unfolding told
drop_room-told room_id j side s = elim (Bool-cases (room_id == j)) [
  | inl same ↦ rw (told, drop_room-rooms room_id j s, same) refl
  | inr other ↦ rw (told, drop_room-rooms room_id j s, other) refl
]

run_task-Shows : (b : Book) (s : State) (t : Task) → Shows b s → Shows (close t b) (run_task t s)
unfolding run_task told
run_task-Shows b s (remove_room room_id) h =
    let (timers, now) = run_task-timers (remove_room room_id) s in
    record {
      told_eq = λ j side.
          drop_room-told room_id j side s
          ∙ ap (λ (t : Option FullContact). if room_id == j then none else t) (h.told_eq j side);
      timers_eq = timers ∙ h.timers_eq;
      now_eq = now ∙ h.now_eq;
    }
run_task-Shows b s (remove_blocked addr) h = record {
  told_eq = h.told_eq;
  timers_eq = h.timers_eq;
  now_eq = h.now_eq;
}

wake-Shows : (b : Book) (s : State) (i : ℕ) → Shows b s → Shows (note (wakes i) b) (wake i s)
unfolding wake told
wake-Shows b s i h = elim (Option-cases (get_elem? s.timers i)) [
  | inl e ↦
      let noted = ap (λ (ts : List Timer). get_elem? ts i) (sym h.timers_eq) ∙ e in
      rw (wake, e, noted) h
  | inr (t, e) ↦
      let noted = ap (λ (ts : List Timer). get_elem? ts i) (sym h.timers_eq) ∙ e in
      let clock = ap (λ (n : ℕ). leb t.deadline n) (sym h.now_eq) in
      elim (Bool-cases (leb t.deadline s.now)) [
        | inl due ↦
            rw (wake, e, noted, due, clock ∙ due)
              (run_task-Shows (record b { timers = take_timer i b.timers })
                (record s { timers = take_timer i s.timers }) t.task
                (record {
                  told_eq = h.told_eq;
                  timers_eq = ap (take_timer i) h.timers_eq;
                  now_eq = h.now_eq;
                }))
        | inr early ↦ rw (wake, e, noted, early, clock ∙ early) h
      ]
]

apply-Shows :
    (op : Op) (b : Book) (s : State) → NoSender s → Shows b s → Shows (note op b) (apply op s)
unfolding apply block blocked_timeout elapse told
apply-Shows (creates draws) b s v h = create_room-Shows b s draws h
apply-Shows (updates room_id is_creator endpoint is_public) b s v h =
    update_client-Shows b s room_id is_creator endpoint is_public h
apply-Shows (completes room_id is_creator) b s v h =
    set_client_done-Shows b s room_id is_creator v h
apply-Shows (blocks addr) b s v h = record {
  told_eq = h.told_eq;
  timers_eq = rw (h.timers_eq, h.now_eq);
  now_eq = h.now_eq;
}
apply-Shows (wakes i) b s v h = wake-Shows b s i h
apply-Shows (elapses seconds) b s v h = record {
  told_eq = h.told_eq;
  timers_eq = h.timers_eq;
  now_eq = rw h.now_eq;
}

run-Shows :
    (ops : List Op) (b : Book) (s : State)
    → NoSender s
    → Shows b s
    → Shows (replay ops b) (run ops s)
unfolding run replay
run-Shows [] b s v h = h
run-Shows (op ∷ ops) b s v h =
    run-Shows ops (note op b) (apply op s) (apply-NoSender op s v) (apply-Shows op b s v h)

-- Any sequence of operations from the empty state leaves exactly what it leaves of an empty book, in
-- which a room opens at the first number drawn that is free, an update writes one address, a task
-- that is due closes its room, and a client that is done changes nothing: the contacts that each
-- client of each room has told, the pending tasks in their order, and the time.
pub run-replay : (ops : List Op) → Shows (replay ops empty_book) (run ops new_state)
unfolding new_state lookup told
run-replay ops =
    run-Shows ops empty_book new_state new_state-NoSender
      (record { told_eq = λ j side. refl; timers_eq = refl; now_eq = refl })
