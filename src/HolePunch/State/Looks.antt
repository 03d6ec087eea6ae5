-- ===== src/HolePunch/State/Looks.antt =====
-- States of gday_hole_punch/src/server/global_state.rs that differ in the order of their maps only: no
-- operation tells them apart.
pub mod Order
pub mod Swap
use mathlib.Core.Bool.{not}
use mathlib.Core.Quot.{Quot}
use gday_old.Base.{
  ℕ, suc, ◌+◌, ◌≡◌, refl, sym, ◌∙◌, ap, Bool, true, false, Option, none, some, List, [], ◌∷◌, ◌==◌,
  leb, get_elem?, if◌then◌else◌, Option-cases, Bool-cases, inl, inr,
}
use gday_old.Base.Assoc.{
  Assoc, lookup, insert, remove, contains_key, is_some, lookup-insert, lookup-remove,
}
use gday_old.HolePunch.Contact.{SocketAddr, FullContact}
use gday_old.HolePunch.State.{
  Room, State, Channel, pending, sent, closed, get_client, set_client, set_sender, new_room, send,
  drop_sender, drop_room, draw_room_id, create_room, update_client, exchange, complete,
  set_client_done, Task, remove_room, remove_blocked, run_task, Timer, take_timer, wake, elapse,
  block, blocked_timeout,
}
use gday_old.HolePunch.State.Runs.{
  Op, creates, updates, completes, blocks, wakes, elapses, after, or_same, apply, run,
}

module _ {V : Type 0} where
  -- Two maps with the same entries.
  abbrev pub SameMap : Assoc V → Assoc V → Type 0
  SameMap m m' = (j : ℕ) → lookup j m ≡ lookup j m'

  pub insert-SameMap :
      (k : ℕ) (v : V) (m m' : Assoc V) → SameMap m m' → SameMap (insert k v m) (insert k v m')
  insert-SameMap k v m m' h j =
      lookup-insert k j v m
      ∙ ap (λ (o : Option V). if k == j then some v else o) (h j)
      ∙ sym (lookup-insert k j v m')

  pub remove-SameMap : (k : ℕ) (m m' : Assoc V) → SameMap m m' → SameMap (remove k m) (remove k m')
  remove-SameMap k m m' h j =
      lookup-remove k j m
      ∙ ap (λ (o : Option V). if k == j then none else o) (h j)
      ∙ sym (lookup-remove k j m')

pub record Looks (s s' : State) : Type 0 where
  pub rooms_eq : SameMap s.rooms s'.rooms
  pub blocked_eq : SameMap s.blocked s'.blocked
  pub channels_eq : SameMap s.channels s'.channels
  pub next_eq : s.next_channel ≡ s'.next_channel
  pub timers_eq : s.timers ≡ s'.timers
  pub now_eq : s.now ≡ s'.now

-- The state as an abstract thing, without the order of the maps.
abbrev pub View : Type 0
View = Quot Looks

pub drop_sender-SameMap :
    (o : Option ℕ) (m m' : Assoc Channel)
    → SameMap m m'
    → SameMap (drop_sender o m) (drop_sender o m')
unfolding drop_sender
drop_sender-SameMap none m m' h = h
drop_sender-SameMap (some tx) m m' h = go (lookup tx m) refl (sym (h tx))
  where
    go :
        (c : Option Channel)
        → lookup tx m ≡ c
        → lookup tx m' ≡ lookup tx m
        → SameMap (drop_sender (some tx) m) (drop_sender (some tx) m')
    go none e e' = rw (drop_sender, e', e) h
    go (some pending) e e' = rw (drop_sender, e', e) (insert-SameMap tx closed m m' h)
    go (some (sent a b)) e e' = rw (drop_sender, e', e) h
    go (some closed) e e' = rw (drop_sender, e', e) h

pub drop_room-Looks :
    (room_id : ℕ) (s s' : State) → Looks s s' → Looks (drop_room room_id s) (drop_room room_id s')
unfolding drop_room
drop_room-Looks room_id s s' h = elim (Option-cases (lookup room_id s.rooms)) [
  | inl e ↦ rw (drop_room, sym (h.rooms_eq room_id), e) h
  | inr (room, e) ↦
      rw (drop_room, sym (h.rooms_eq room_id), e)
        (record {
          rooms_eq = remove-SameMap room_id s.rooms s'.rooms h.rooms_eq;
          blocked_eq = h.blocked_eq;
          channels_eq =
              drop_sender-SameMap room.joiner.sender _ _
                (drop_sender-SameMap room.creator.sender s.channels s'.channels h.channels_eq);
          next_eq = h.next_eq;
          timers_eq = h.timers_eq;
          now_eq = h.now_eq;
        })
]

draw_room_id-SameMap :
    (draws : List ℕ) (m m' : Assoc Room)
    → SameMap m m'
    → draw_room_id draws m ≡ draw_room_id draws m'
unfolding draw_room_id
draw_room_id-SameMap [] m m' h = refl
draw_room_id-SameMap (room_id ∷ draws) m m' h = rw (h room_id, draw_room_id-SameMap draws m m' h)

pub create_room-Looks :
    (draws : List ℕ) (s s' : State)
    → Looks s s'
    → Looks (after s (create_room draws s)) (after s' (create_room draws s'))
unfolding create_room
create_room-Looks draws s s' h = elim (Option-cases (draw_room_id draws s.rooms)) [
  | inl e ↦ rw (create_room, sym (draw_room_id-SameMap draws s.rooms s'.rooms h.rooms_eq), e) h
  | inr (room_id, e) ↦
      rw (create_room, sym (draw_room_id-SameMap draws s.rooms s'.rooms h.rooms_eq), e)
        (record {
          rooms_eq = insert-SameMap room_id new_room s.rooms s'.rooms h.rooms_eq;
          blocked_eq = h.blocked_eq;
          channels_eq = h.channels_eq;
          next_eq = h.next_eq;
          timers_eq = rw (h.timers_eq, h.now_eq);
          now_eq = h.now_eq;
        })
]

pub update_client-Looks :
    (room_id : ℕ) (is_creator : Bool) (endpoint : SocketAddr) (is_public : Bool) (s s' : State)
    → Looks s s'
    → Looks
        (or_same s (update_client room_id is_creator endpoint is_public s))
        (or_same s' (update_client room_id is_creator endpoint is_public s'))
unfolding update_client
update_client-Looks room_id is_creator endpoint is_public s s' h =
    elim (Option-cases (lookup room_id s.rooms)) [
      | inl e ↦ rw (update_client, sym (h.rooms_eq room_id), e) h
      | inr (room, e) ↦
          rw (update_client, sym (h.rooms_eq room_id), e)
            (record {
              rooms_eq = insert-SameMap room_id _ s.rooms s'.rooms h.rooms_eq;
              blocked_eq = h.blocked_eq;
              channels_eq = h.channels_eq;
              next_eq = h.next_eq;
              timers_eq = h.timers_eq;
              now_eq = h.now_eq;
            })
    ]
