-- ===== src/HolePunch/State/Book/Shows.antt =====
-- The operations of a handler in gday_hole_punch/src/server/global_state.rs, each against what it does
-- to the book.
use mathlib.Core.Bool.{not}
use gday_old.Base.{
  ℕ, ◌≡◌, refl, sym, ◌∙◌, ap, subst, Bool, true, false, none, some, List, [], ◌∷◌, ◌==◌, ==_iff,
  ◌&&◌, if◌then◌else◌, arith, Option-cases, Bool-cases, inl, inr,
}
use gday_old.Base.Assoc.{lookup, insert, is_some, contains_key, lookup-insert}
use gday_old.HolePunch.Contact.{SocketAddr, FullContact, no_full_contact}
use gday_old.HolePunch.State.{
  Room, State, new_room, get_client, set_sender, create_room, draw_room_id, update_client,
  set_endpoint, room_exists, set_client_done, complete, exchange,
}
use gday_old.HolePunch.State.Rooms.{
  told, same_side, map_contact, update_client-told, room_exists-told,
}
use gday_old.HolePunch.State.NoSender.{NoSender, HasNoSender, peer_sender_clear}
use gday_old.HolePunch.State.Exchange.{complete-Alone, Alone}
use gday_old.HolePunch.State.Runs.{creates, updates, after, or_same}
use gday_old.HolePunch.State.Book.{Book, first_free, note}

-- The book shows what a state holds.
pub record Shows (b : Book) (s : State) : Type 0 where
  pub told_eq : (j : ℕ) (side : Bool) → told j side s ≡ b.told j side
  pub timers_eq : s.timers ≡ b.timers
  pub now_eq : s.now ≡ b.now

exists-told :
    (b : Book) (s : State) → Shows b s → (j : ℕ) → contains_key j s.rooms ≡ is_some (b.told j true)
unfolding room_exists
exists-told b s h j = room_exists-told j true s ∙ ap is_some (h.told_eq j true)

draw_room_id-first_free :
    (b : Book) (s : State) (draws : List ℕ)
    → Shows b s
    → draw_room_id draws s.rooms ≡ first_free draws b.told
unfolding draw_room_id
draw_room_id-first_free b s [] h = refl
draw_room_id-first_free b s (room_id ∷ draws) h =
    rw (exists-told b s h room_id, draw_room_id-first_free b s draws h)

pub create_room-Shows :
    (b : Book) (s : State) (draws : List ℕ)
    → Shows b s
    → Shows (note (creates draws) b) (after s (create_room draws s))
unfolding create_room told
create_room-Shows b s draws h = elim (Option-cases (draw_room_id draws s.rooms)) [
  | inl e ↦ rw (create_room, sym (draw_room_id-first_free b s draws h), e) h
  | inr (room_id, e) ↦
      rw (create_room, sym (draw_room_id-first_free b s draws h), e)
        (record {
          told_eq = λ j side. created j side room_id;
          timers_eq = rw (h.timers_eq, h.now_eq);
          now_eq = h.now_eq;
        })
]
  where
    created :
        (j : ℕ) (side : Bool) (room_id : ℕ)
        → told j side (record s { rooms = insert room_id new_room s.rooms })
          ≡ (if room_id == j then some no_full_contact else b.told j side)
    created j true room_id =
        ground (arith, lookup-insert room_id j new_room s.rooms, h.told_eq j true)
    created j false room_id =
        ground (arith, lookup-insert room_id j new_room s.rooms, h.told_eq j false)

update_client-timers :
    (room_id : ℕ) (is_creator : Bool) (endpoint : SocketAddr) (is_public : Bool) (s : State)
    → ((or_same s (update_client room_id is_creator endpoint is_public s)).timers ≡ s.timers)
      × ((or_same s (update_client room_id is_creator endpoint is_public s)).now ≡ s.now)
unfolding update_client
update_client-timers room_id is_creator endpoint is_public s =
    elim (Option-cases (lookup room_id s.rooms)) [
      | inl e ↦ rw (update_client, e) (refl, refl)
      | inr (room, e) ↦ rw (update_client, e) (refl, refl)
    ]

told_missing : (j : ℕ) (side : Bool) (s : State) → lookup j s.rooms ≡ none → told j side s ≡ none
unfolding told
told_missing j side s e = rw (told, e)

update_client-told_eq :
    (room_id : ℕ) (is_creator : Bool) (endpoint : SocketAddr) (is_public : Bool) (s : State) (j : ℕ)
    (side : Bool)
    → told j side (or_same s (update_client room_id is_creator endpoint is_public s)) ≡ (
        if (room_id == j) && same_side is_creator side
        then map_contact (set_endpoint endpoint is_public) (told j side s)
        else told j side s)
unfolding update_client room_exists
update_client-told_eq room_id is_creator endpoint is_public s j side =
    elim (Bool-cases (room_exists room_id s)) [
      | inl e ↦
          let (s', found, told_eq) = update_client-told room_id is_creator endpoint is_public s e in
          rw found (told_eq j side)
      | inr e ↦ elim (Option-cases (lookup room_id s.rooms)) [
        | inr (room, e') ↦ absurd (let none_there = rw e' at e in cc)
        | inl gone ↦
            rw (update_client, gone)
              (elim (Bool-cases (room_id == j)) [
                | inl same ↦
                    let missing =
                      told_missing j side s
                        (ap (λ i. lookup i s.rooms) (sym ((==_iff room_id j).0 same)) ∙ gone) in
                    ground (arith, missing)
                | inr other ↦ rw other
              ])
      ]
    ]

pub update_client-Shows :
    (b : Book) (s : State) (room_id : ℕ) (is_creator : Bool) (endpoint : SocketAddr)
    (is_public : Bool)
    → Shows b s
    → Shows
        (note (updates room_id is_creator endpoint is_public) b)
        (or_same s (update_client room_id is_creator endpoint is_public s))
update_client-Shows b s room_id is_creator endpoint is_public h =
    let timers = update_client-timers room_id is_creator endpoint is_public s in
    record {
      told_eq = λ j side.
          rw (sym (h.told_eq j side))
            (update_client-told_eq room_id is_creator endpoint is_public s j side);
      timers_eq = timers.0 ∙ h.timers_eq;
      now_eq = timers.1 ∙ h.now_eq;
    }

exchange-timers :
    (room_id : ℕ) (is_creator : Bool) (tx : ℕ) (mine theirs : FullContact) (room : Room) (s : State)
    → ((exchange room_id is_creator tx mine theirs room s).timers ≡ s.timers)
      × ((exchange room_id is_creator tx mine theirs room s).now ≡ s.now)
unfolding exchange
exchange-timers room_id is_creator tx mine theirs room s =
    elim (Option-cases (get_client (not is_creator) room).sender) [
      | inl e ↦ rw (e, exchange) (refl, refl)
      | inr (peer_tx, e) ↦ rw (e, exchange) (refl, refl)
    ]

complete-timers :
    (room_id : ℕ) (is_creator : Bool) (room : Room) (s : State)
    → ((complete room_id is_creator room s).1.timers ≡ s.timers)
      × ((complete room_id is_creator room s).1.now ≡ s.now)
unfolding complete
complete-timers room_id true room s =
    exchange-timers room_id true s.next_channel _ _ (set_sender true none room) _
complete-timers room_id false room s =
    exchange-timers room_id false s.next_channel _ _ (set_sender false none room) _

-- Taking the senders out of a room leaves its contacts.
same_contact :
    (is_creator side : Bool) (room : Room)
    → (get_client side (set_sender (not is_creator) none (set_sender is_creator none room))).contact
      ≡ (get_client side room).contact
same_contact true true room = refl
same_contact true false room = refl
same_contact false true room = refl
same_contact false false room = refl

pub set_client_done-Shows :
    (b : Book) (s : State) (room_id : ℕ) (is_creator : Bool)
    → NoSender s
    → Shows b s
    → Shows b (after s (set_client_done room_id is_creator s))
unfolding set_client_done told
set_client_done-Shows b s room_id is_creator v h = elim (Option-cases (lookup room_id s.rooms)) [
  | inl e ↦ rw (set_client_done, e) h
  | inr (room, e) ↦
      let timers = complete-timers room_id is_creator room s in
      rw (set_client_done, e)
        (record {
          told_eq = λ j side.
              completed room (alone room (subst HasNoSender e (v.rooms_clear room_id))) j side e
              ∙ h.told_eq j side;
          timers_eq = timers.0 ∙ h.timers_eq;
          now_eq = timers.1 ∙ h.now_eq;
        })
]
  where
    alone :
        (room : Room)
        → HasNoSender (some room)
        → Alone room_id is_creator room s (complete room_id is_creator room s).1
    alone room clear =
        complete-Alone room_id is_creator room s (peer_sender_clear (not is_creator) room clear)
          (λ e. cc (sym (peer_sender_clear is_creator room clear) ∙ e))

    completed :
        (room : Room)
        → Alone room_id is_creator room s (complete room_id is_creator room s).1
        → (j : ℕ) (side : Bool) → lookup room_id s.rooms ≡ some room
        → told j side (complete room_id is_creator room s).1 ≡ told j side s
    completed room a j side e = elim (Bool-cases (room_id == j)) [
      | inl same ↦
          let here = ap (λ i. lookup i s.rooms) (sym ((==_iff room_id j).0 same)) ∙ e in
          rw (told, a.rooms_eq j, same, here) (ap some (same_contact is_creator side room))
      | inr other ↦ rw (told, a.rooms_eq j, other) refl
    ]
