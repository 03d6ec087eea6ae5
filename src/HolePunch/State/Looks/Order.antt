-- ===== src/HolePunch/State/Looks/Order.antt =====
-- The operations of gday_hole_punch/src/server/global_state.rs, one by one and in sequences, over states that
-- differ in the order of their maps only.
use mathlib.Core.Bool.{not}
use gday_old.Base.{
  ℕ, suc, ◌+◌, refl, sym, ◌∙◌, ap, Bool, true, false, Option, none, some, List, [], ◌∷◌, leb,
  get_elem?, Option-cases, Bool-cases, inl, inr, subst,
}
use gday_old.Base.Assoc.{lookup, insert}
use gday_old.HolePunch.Contact.{FullContact}
use gday_old.HolePunch.State.{
  Room, State, pending, sent, get_client, set_sender, send, drop_sender, exchange, complete,
  set_client_done, Task, remove_room, remove_blocked, run_task, Timer, take_timer, wake, elapse,
  block, blocked_timeout,
}
use gday_old.HolePunch.State.Runs.{
  Op, creates, updates, completes, blocks, wakes, elapses, after, apply, run,
}
use gday_old.HolePunch.State.Looks.{
  insert-SameMap, remove-SameMap, Looks, drop_sender-SameMap, drop_room-Looks, create_room-Looks,
  update_client-Looks,
}

exchange-Looks :
    (room_id : ℕ) (is_creator : Bool) (tx : ℕ) (mine theirs : FullContact) (room : Room)
    (s s' : State)
    → Looks s s'
    → Looks
        (exchange room_id is_creator tx mine theirs room s)
        (exchange room_id is_creator tx mine theirs room s')
unfolding exchange send
exchange-Looks room_id is_creator tx mine theirs room s s' h =
    elim (Option-cases (get_client (not is_creator) room).sender) [
      | inl e ↦
          rw (exchange, e)
            (record {
              rooms_eq = insert-SameMap room_id _ s.rooms s'.rooms h.rooms_eq;
              blocked_eq = h.blocked_eq;
              channels_eq = drop_sender-SameMap (some tx) s.channels s'.channels h.channels_eq;
              next_eq = h.next_eq;
              timers_eq = h.timers_eq;
              now_eq = h.now_eq;
            })
      | inr (peer_tx, e) ↦
          rw (exchange, e)
            (record {
              rooms_eq = remove-SameMap room_id s.rooms s'.rooms h.rooms_eq;
              blocked_eq = h.blocked_eq;
              channels_eq =
                  insert-SameMap peer_tx (sent theirs mine) _ _
                    (insert-SameMap tx (sent mine theirs) s.channels s'.channels h.channels_eq);
              next_eq = h.next_eq;
              timers_eq = h.timers_eq;
              now_eq = h.now_eq;
            })
    ]

-- The channel that `complete` opens, with the number that is next.
abbrev with_channel : Option ℕ → State → State
with_channel old s = record s {
  next_channel = suc s.next_channel;
  channels = drop_sender old (insert s.next_channel pending s.channels);
}

with_channel-Looks :
    (old : Option ℕ) (s s' : State) → Looks s s' → Looks (with_channel old s) (with_channel old s')
with_channel-Looks old s s' h = record {
  rooms_eq = h.rooms_eq;
  blocked_eq = h.blocked_eq;
  channels_eq = rw h.next_eq (
      drop_sender-SameMap old _ _
        (insert-SameMap s'.next_channel pending s.channels s'.channels h.channels_eq));
  next_eq = ap suc h.next_eq;
  timers_eq = h.timers_eq;
  now_eq = h.now_eq;
}

-- The exchange over the channel that is next.
tell-Looks :
    (room_id : ℕ) (is_creator : Bool) (old : Option ℕ) (mine theirs : FullContact) (room : Room)
    (s s' : State)
    → Looks s s'
    → Looks
        (exchange room_id is_creator s.next_channel mine theirs room (with_channel old s))
        (exchange room_id is_creator s'.next_channel mine theirs room (with_channel old s'))
tell-Looks room_id is_creator old mine theirs room s s' h =
    subst
      (λ (n : ℕ).
        Looks (exchange room_id is_creator s.next_channel mine theirs room (with_channel old s))
          (exchange room_id is_creator n mine theirs room (with_channel old s')))
      h.next_eq
      (exchange-Looks room_id is_creator s.next_channel mine theirs room _ _
        (with_channel-Looks old s s' h))

complete-Looks :
    (room_id : ℕ) (is_creator : Bool) (room : Room) (s s' : State)
    → Looks s s'
    → Looks (complete room_id is_creator room s).1 (complete room_id is_creator room s').1
unfolding complete
complete-Looks room_id true room s s' h =
    tell-Looks room_id true room.creator.sender room.creator.contact room.joiner.contact
      (set_sender true none room) s s' h
complete-Looks room_id false room s s' h =
    tell-Looks room_id false room.joiner.sender room.joiner.contact room.creator.contact
      (set_sender false none room) s s' h

set_client_done-Looks :
    (room_id : ℕ) (is_creator : Bool) (s s' : State)
    → Looks s s'
    → Looks
        (after s (set_client_done room_id is_creator s))
        (after s' (set_client_done room_id is_creator s'))
unfolding set_client_done
set_client_done-Looks room_id is_creator s s' h = elim (Option-cases (lookup room_id s.rooms)) [
  | inl e ↦ rw (set_client_done, sym (h.rooms_eq room_id), e) h
  | inr (room, e) ↦
      rw (set_client_done, sym (h.rooms_eq room_id), e)
        (complete-Looks room_id is_creator room s s' h)
]

run_task-Looks : (t : Task) (s s' : State) → Looks s s' → Looks (run_task t s) (run_task t s')
unfolding run_task
run_task-Looks (remove_room room_id) s s' h = drop_room-Looks room_id s s' h
run_task-Looks (remove_blocked addr) s s' h = record {
  rooms_eq = h.rooms_eq;
  blocked_eq = remove-SameMap addr s.blocked s'.blocked h.blocked_eq;
  channels_eq = h.channels_eq;
  next_eq = h.next_eq;
  timers_eq = h.timers_eq;
  now_eq = h.now_eq;
}

wake-Looks : (i : ℕ) (s s' : State) → Looks s s' → Looks (wake i s) (wake i s')
unfolding wake
wake-Looks i s s' h = elim (Option-cases (get_elem? s.timers i)) [
  | inl e ↦
      let same = ap (λ (ts : List Timer). get_elem? ts i) (sym h.timers_eq) ∙ e in
      rw (wake, e, same) h
  | inr (t, e) ↦
      let same = ap (λ (ts : List Timer). get_elem? ts i) (sym h.timers_eq) ∙ e in
      let clock = ap (λ (n : ℕ). leb t.deadline n) (sym h.now_eq) in
      elim (Bool-cases (leb t.deadline s.now)) [
        | inl due ↦
            rw (wake, e, same, due, clock ∙ due)
              (run_task-Looks t.task (record s { timers = take_timer i s.timers })
                (record s' { timers = take_timer i s'.timers })
                (record {
                  rooms_eq = h.rooms_eq;
                  blocked_eq = h.blocked_eq;
                  channels_eq = h.channels_eq;
                  next_eq = h.next_eq;
                  timers_eq = ap (take_timer i) h.timers_eq;
                  now_eq = h.now_eq;
                }))
        | inr early ↦ rw (wake, e, same, early, clock ∙ early) h
      ]
]

apply-Looks : (op : Op) (s s' : State) → Looks s s' → Looks (apply op s) (apply op s')
unfolding apply block blocked_timeout elapse
apply-Looks (creates draws) s s' h = create_room-Looks draws s s' h
apply-Looks (updates room_id is_creator endpoint is_public) s s' h =
    update_client-Looks room_id is_creator endpoint is_public s s' h
apply-Looks (completes room_id is_creator) s s' h = set_client_done-Looks room_id is_creator s s' h
apply-Looks (blocks addr) s s' h = record {
  rooms_eq = h.rooms_eq;
  blocked_eq = insert-SameMap addr tt s.blocked s'.blocked h.blocked_eq;
  channels_eq = h.channels_eq;
  next_eq = h.next_eq;
  timers_eq = rw (h.timers_eq, h.now_eq) refl;
  now_eq = h.now_eq;
}
apply-Looks (wakes i) s s' h = wake-Looks i s s' h
apply-Looks (elapses seconds) s s' h = record {
  rooms_eq = h.rooms_eq;
  blocked_eq = h.blocked_eq;
  channels_eq = h.channels_eq;
  next_eq = h.next_eq;
  timers_eq = h.timers_eq;
  now_eq = ap (λ (n : ℕ). n + seconds) h.now_eq;
}

pub run-Looks : (ops : List Op) (s s' : State) → Looks s s' → Looks (run ops s) (run ops s')
unfolding run
run-Looks [] s s' h = h
run-Looks (op ∷ ops) s s' h = run-Looks ops _ _ (apply-Looks op s s' h)
