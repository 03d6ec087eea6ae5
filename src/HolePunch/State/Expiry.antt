-- ===== src/HolePunch/State/Expiry.antt =====
-- The timers of gday_hole_punch/src/server/global_state.rs, over any sequence of its operations.
use mathlib.Core.Bool.{not}
use gday_old.Base.{
  ℕ, zero, suc, ◌+◌, ◌≤◌, ◌≡◌, refl, sym, ◌∙◌, ap, Bool, true, false, none, some, List, [], ◌∷◌,
  ◌==◌, ==_iff, if◌then◌else◌, leb, get_elem?, arith, Option-cases, Bool-cases, inl, inr, ◌⊎◌,
}
use gday_old.Base.Assoc.{lookup, insert, remove, lookup-insert, lookup-remove}
use gday_old.HolePunch.Contact.{SocketAddr, FullContact}
use gday_old.HolePunch.State.{
  Room, State, get_client, set_sender, new_room, new_state, create_room, draw_room_id,
  update_client, set_client_done, complete, exchange, drop_room, block, blocked_timeout, Task,
  remove_room, remove_blocked, run_task, wake, elapse, Timer, take_timer,
}
use gday_old.HolePunch.State.NoSender.{Ensures, Gives}

-- A task is pending that will remove the room, due at `limit` at the latest.
abbrev pub Expires : ℕ → ℕ → List Timer → Type 0
Expires room_id limit [] = ⊥
Expires room_id limit (t ∷ ts) =
    ((t.task ≡ remove_room room_id) × (t.deadline ≤ limit)) ⊎ Expires room_id limit ts

-- Every room has such a task, due within ten minutes.
abbrev pub Expiring : State → Type 0
Expiring s = (j : ℕ) → (lookup j s.rooms ≡ none) ⊎ Expires j (s.now + 600) s.timers

Expires-mono : (j m n : ℕ) (ts : List Timer) → m ≤ n → Expires j m ts → Expires j n ts
Expires-mono j m n [] h e = absurd e
Expires-mono j m n (t ∷ ts) h (inl (task, due)) = inl (task, omega arith)
Expires-mono j m n (t ∷ ts) h (inr e) = inr (Expires-mono j m n ts h e)

pub new_state-Expiring : Expiring new_state
unfolding new_state lookup
new_state-Expiring j = inl refl

pub create_room-Expiring :
    (draws : List ℕ) (s : State) → Expiring s → Ensures Expiring (create_room draws s)
unfolding create_room
create_room-Expiring draws s v = elim (Option-cases (draw_room_id draws s.rooms)) [
  | inl e ↦ rw (e, create_room) tt
  | inr (room_id, e) ↦ rw (e, create_room) (λ j. after room_id j (v j))
]
  where
    after :
        (k j : ℕ)
        → (lookup j s.rooms ≡ none) ⊎ Expires j (s.now + 600) s.timers
        → (lookup j (insert k new_room s.rooms) ≡ none)
          ⊎ Expires j
              (s.now + 600)
              (record { task = remove_room k; deadline = s.now + 600 } ∷ s.timers)
    after k j old = elim (Bool-cases (k == j)) [
      | inl e ↦ inr (inl (ap remove_room ((==_iff k j).0 e), omega arith))
      | inr e ↦ elim old [
        | inl gone ↦ inl (rw (lookup-insert k j new_room s.rooms, e) gone)
        | inr pending_task ↦ inr (inr pending_task)
      ]
    ]

-- Writing a room that is there adds none.
insert-Expiring :
    (k : ℕ) (room room' : Room) (s : State)
    → Expiring s
    → lookup k s.rooms ≡ some room
    → (j : ℕ) → (lookup j (insert k room' s.rooms) ≡ none) ⊎ Expires j (s.now + 600) s.timers
insert-Expiring k room room' s v found j = elim (v j) [
  | inr e ↦ inr e
  | inl gone ↦ elim (Bool-cases (k == j)) [
    | inl e ↦ absurd (cc (sym found ∙ ap (λ i. lookup i s.rooms) ((==_iff k j).0 e) ∙ gone))
    | inr e ↦ inl (rw (lookup-insert k j room' s.rooms, e) gone)
  ]
]

remove-Expiring :
    (k : ℕ) (s : State)
    → Expiring s
    → (j : ℕ) → (lookup j (remove k s.rooms) ≡ none) ⊎ Expires j (s.now + 600) s.timers
remove-Expiring k s v j = elim (v j) [
  | inr e ↦ inr e
  | inl gone ↦ inl (ground (arith, lookup-remove k j s.rooms))
]

pub update_client-Expiring :
    (room_id : ℕ) (is_creator : Bool) (endpoint : SocketAddr) (is_public : Bool) (s : State)
    → Expiring s
    → Gives Expiring (update_client room_id is_creator endpoint is_public s)
unfolding update_client
update_client-Expiring room_id is_creator endpoint is_public s v =
    elim (Option-cases (lookup room_id s.rooms)) [
      | inl e ↦ rw (e, update_client) tt
      | inr (room, e) ↦ rw (e, update_client) (insert-Expiring room_id room _ s v e)
    ]

exchange-Expiring :
    (room_id : ℕ) (is_creator : Bool) (tx : ℕ) (mine theirs : FullContact) (room room' : Room)
    (s : State)
    → lookup room_id s.rooms ≡ some room
    → Expiring s
    → Expiring (exchange room_id is_creator tx mine theirs room' s)
unfolding exchange
exchange-Expiring room_id is_creator tx mine theirs room room' s found v =
    elim (Option-cases (get_client (not is_creator) room').sender) [
      | inl e ↦ rw (e, exchange) (insert-Expiring room_id room _ s v found)
      | inr (peer, e) ↦ rw (e, exchange) (remove-Expiring room_id s v)
    ]

complete-Expiring :
    (room_id : ℕ) (is_creator : Bool) (room : Room) (s : State)
    → lookup room_id s.rooms ≡ some room
    → Expiring s
    → Expiring (complete room_id is_creator room s).1
unfolding complete
complete-Expiring room_id true room s found v =
    exchange-Expiring room_id true s.next_channel _ _ room (set_sender true none room) _ found v
complete-Expiring room_id false room s found v =
    exchange-Expiring room_id false s.next_channel _ _ room (set_sender false none room) _ found v

pub set_client_done-Expiring :
    (room_id : ℕ) (is_creator : Bool) (s : State)
    → Expiring s
    → Ensures Expiring (set_client_done room_id is_creator s)
unfolding set_client_done
set_client_done-Expiring room_id is_creator s v = elim (Option-cases (lookup room_id s.rooms)) [
  | inl e ↦ rw (e, set_client_done) tt
  | inr (room, e) ↦ rw (e, set_client_done) (complete-Expiring room_id is_creator room s e v)
]

-- A task that is taken out of the list is the room's own, or leaves the room's task there.
take_timer-Expires :
    (i j n : ℕ) (ts : List Timer) (t : Timer)
    → get_elem? ts i ≡ some t
    → Expires j n ts
    → (t.task ≡ remove_room j) ⊎ Expires j n (take_timer i ts)
take_timer-Expires i j n [] t e x = absurd x
take_timer-Expires zero j n (u ∷ ts) t e (inl (task, due)) = inl (ground arith)
take_timer-Expires zero j n (u ∷ ts) t e (inr x) = inr x
take_timer-Expires (suc i) j n (u ∷ ts) t e (inl h) = inr (inl h)
take_timer-Expires (suc i) j n (u ∷ ts) t e (inr x) = elim (take_timer-Expires i j n ts t e x) [
  | inl own ↦ inl own
  | inr left ↦ inr (inr left)
]

pub drop_room-rooms :
    (k j : ℕ) (s : State)
    → lookup j (drop_room k s).rooms ≡ (if k == j then none else lookup j s.rooms)
unfolding drop_room
drop_room-rooms k j s = elim (Option-cases (lookup k s.rooms)) [
  | inl e ↦
      rw (e, drop_room)
        (elim (Bool-cases (k == j)) [
          | inl h ↦ rw h (ap (λ i. lookup i s.rooms) (sym ((==_iff k j).0 h)) ∙ e)
          | inr h ↦ rw h
        ])
  | inr (room, e) ↦ rw (e, drop_room) (lookup-remove k j s.rooms)
]

run_task-gone :
    (t : Task) (j : ℕ) (s : State) → lookup j s.rooms ≡ none → lookup j (run_task t s).rooms ≡ none
unfolding run_task
run_task-gone (remove_room k) j s gone = ground (arith, drop_room-rooms k j s)
run_task-gone (remove_blocked addr) j s gone = gone

run_task-own :
    (t : Task) (j : ℕ) (s : State) → t ≡ remove_room j → lookup j (run_task t s).rooms ≡ none
unfolding run_task
run_task-own t j s own = rw own (ground (arith, drop_room-rooms j j s))

drop_room-timers :
    (k : ℕ) (s : State) → ((drop_room k s).timers ≡ s.timers) × ((drop_room k s).now ≡ s.now)
unfolding drop_room
drop_room-timers k s = elim (Option-cases (lookup k s.rooms)) [
  | inl e ↦ rw (e, drop_room) (refl, refl)
  | inr (room, e) ↦ rw (e, drop_room) (refl, refl)
]

pub run_task-timers :
    (t : Task) (s : State) → ((run_task t s).timers ≡ s.timers) × ((run_task t s).now ≡ s.now)
unfolding run_task
run_task-timers (remove_room k) s = drop_room-timers k s
run_task-timers (remove_blocked addr) s = (refl, refl)

woken-Expiring :
    (i : ℕ) (t : Timer) (s : State)
    → get_elem? s.timers i ≡ some t
    → Expiring s
    → Expiring (run_task t.task (record s { timers = take_timer i s.timers }))
woken-Expiring i t s e v j =
    let woken : State = record s { timers = take_timer i s.timers } in
    let (timers_eq, now_eq) = run_task-timers t.task woken in
    elim (v j) [
      | inl gone ↦ inl (run_task-gone t.task j woken gone)
      | inr x ↦ elim (take_timer-Expires i j (s.now + 600) s.timers t e x) [
        | inl own ↦ inl (run_task-own t.task j woken own)
        | inr left ↦ inr (rw (timers_eq, now_eq) left)
      ]
    ]

pub wake-Expiring : (i : ℕ) (s : State) → Expiring s → Expiring (wake i s)
unfolding wake
wake-Expiring i s v = elim (Option-cases (get_elem? s.timers i)) [
  | inl e ↦ rw (e, wake) v
  | inr (t, e) ↦ elim (Bool-cases (leb t.deadline s.now)) [
    | inl due ↦ rw (e, wake, due) (woken-Expiring i t s e v)
    | inr early ↦ rw (e, wake, early) v
  ]
]

pub elapse-Expiring : (seconds : ℕ) (s : State) → Expiring s → Expiring (elapse seconds s)
unfolding elapse
elapse-Expiring seconds s v j = elim (v j) [
  | inl gone ↦ inl gone
  | inr x ↦ inr (Expires-mono j (s.now + 600) (s.now + seconds + 600) s.timers (omega arith) x)
]

pub block-Expiring :
    (addr : ℕ) (s : State) → Expiring s → Expiring (blocked_timeout addr (block addr s))
unfolding block blocked_timeout
block-Expiring addr s v j = elim (v j) [ inl gone ↦ inl gone | inr x ↦ inr (inr x) ]
