-- ===== src/HolePunch/State/Rooms.antt =====
-- `update_client` of gday_hole_punch/src/server/global_state.rs.
use mathlib.Core.Bool.{not}
use gday_old.Base.{
  ℕ, ◌≡◌, Bool, true, false, ◌&&◌, Option, none, some, ◌==◌, if◌then◌else◌, arith, Option-cases,
  inl, inr,
}
use gday_old.Base.Assoc.{lookup, insert, is_some, lookup-insert}
use gday_old.HolePunch.Contact.{SocketAddr, FullContact}
use gday_old.HolePunch.State.{
  Client, Room, State, get_client, set_client, set_endpoint, room_exists, update_client,
}

-- The contact that a client of a room has told so far.
unfoldable pub told : ℕ → Bool → State → Option FullContact
told room_id is_creator s = elim (lookup room_id s.rooms) [
  | none ↦ none
  | some room ↦ some (get_client is_creator room).contact
]

abbrev pub same_side : Bool → Bool → Bool
same_side true b = b
same_side false b = not b

abbrev pub map_contact : (FullContact → FullContact) → Option FullContact → Option FullContact
map_contact f none = none
map_contact f (some c) = some (f c)

-- In a room that exists, `update_client` succeeds and writes the one address: of this room, this
-- client, the public or the private contact, and the endpoint's family.
pub update_client-told :
    (room_id : ℕ) (is_creator : Bool) (endpoint : SocketAddr) (is_public : Bool) (s : State)
    → room_exists room_id s ≡ true
    → (s' : State) × (update_client room_id is_creator endpoint is_public s ≡ some s')
      × ((j : ℕ) (side : Bool)
          → told j side s' ≡ (
              if (room_id == j) && same_side is_creator side
              then map_contact (set_endpoint endpoint is_public) (told j side s)
              else told j side s))
unfolding update_client room_exists told
update_client-told room_id is_creator endpoint is_public s h =
    elim (Option-cases (lookup room_id s.rooms)) [
      | inl e ↦ absurd (missing (lookup room_id s.rooms) e h)
      | inr (room, e) ↦ (
        record s { rooms = insert room_id (updated room) s.rooms },
        rw (e, update_client),
        λ j side. after_update j side room e,
      )
    ]
  where
    missing : (o : Option Room) → o ≡ none → is_some o ≡ true → ⊥
    missing o e h = ground arith

    updated : Room → Room
    updated room =
        let c = get_client is_creator room in
        let c' : Client = record c { contact = set_endpoint endpoint is_public c.contact } in
        set_client is_creator c' room

    after_update :
        (j : ℕ) (side : Bool) (room : Room)
        → lookup room_id s.rooms ≡ some room
        → told j side (record s { rooms = insert room_id (updated room) s.rooms }) ≡ (
            if (room_id == j) && same_side is_creator side
            then map_contact (set_endpoint endpoint is_public) (told j side s)
            else told j side s)
    after_update j side room e = ground (arith, lookup-insert room_id j (updated room) s.rooms)

pub room_exists-told : (j : ℕ) (side : Bool) (s : State) → room_exists j s ≡ is_some (told j side s)
unfolding room_exists told
room_exists-told j side s = elim (Option-cases (lookup j s.rooms)) [
  | inl e ↦ rw (e, told)
  | inr (room, e) ↦ rw (e, told)
]
