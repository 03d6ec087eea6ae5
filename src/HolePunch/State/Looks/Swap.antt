-- ===== src/HolePunch/State/Looks/Swap.antt =====
-- Two calls of `update_client` of gday_hole_punch/src/server/global_state.rs in either order, over states
-- without the order of their maps.
use mathlib.Core.Quot
use mathlib.Core.Quot.{Quot, Quot-set}
use gday_old.Base.{
  ℕ, ◌≡◌, refl, sym, ◌∙◌, ap, Bool, true, false, Option, none, some, List, ◌∷◌, ◌==◌, ◌&&◌, ==_iff,
  ==_refl, if◌then◌else◌, Option-cases, Bool-cases, inl, inr, arith,
}
use gday_old.Base.Assoc.{Assoc, lookup, insert, lookup-insert}
use gday_old.HolePunch.Contact.{SocketAddr}
use gday_old.HolePunch.State.{Room, State, get_client, set_client, set_endpoint, update_client}
use gday_old.HolePunch.State.Rooms.{same_side}
use gday_old.HolePunch.State.Runs.{Op, updates, apply, run}
use gday_old.HolePunch.State.Looks.{SameMap, Looks, View}
use gday_old.HolePunch.State.Looks.Order.{run-Looks}

-- The room in which the client has told an endpoint.
abbrev told_room : Bool → SocketAddr → Bool → Room → Room
told_room is_creator endpoint is_public room =
    let c = get_client is_creator room in
    set_client is_creator (record c { contact = set_endpoint endpoint is_public c.contact }) room

abbrev map_room : (Room → Room) → Option Room → Option Room
map_room f none = none
map_room f (some room) = some (f room)

abbrev told_rooms : ℕ → (Room → Room) → Assoc Room → Assoc Room
told_rooms room_id f rooms = elim (lookup room_id rooms) [
  | none ↦ rooms
  | some room ↦ insert room_id (f room) rooms
]

lookup-told_rooms :
    (room_id j : ℕ) (f : Room → Room) (rooms : Assoc Room)
    → lookup j (told_rooms room_id f rooms)
      ≡ (if room_id == j then map_room f (lookup j rooms) else lookup j rooms)
lookup-told_rooms room_id j f rooms = elim (Option-cases (lookup room_id rooms)) [
  | inl e ↦ rw (told_rooms, e) (missing e)
  | inr (room, e) ↦ rw (told_rooms, e) (lookup-insert room_id j (f room) rooms ∙ found room e)
]
  where
    at_j : room_id == j ≡ true → lookup j rooms ≡ lookup room_id rooms
    at_j same = ap (λ (k : ℕ). lookup k rooms) (sym ((==_iff room_id j).0 same))

    missing :
        lookup room_id rooms ≡ none
        → lookup j rooms ≡ (if room_id == j then map_room f (lookup j rooms) else lookup j rooms)
    missing e = elim (Bool-cases (room_id == j)) [
      | inl same ↦ rw (same, at_j same, e) refl
      | inr other ↦ rw (other) refl
    ]

    found :
        (room : Room)
        → lookup room_id rooms ≡ some room
        → (if room_id == j then some (f room) else lookup j rooms)
          ≡ (if room_id == j then map_room f (lookup j rooms) else lookup j rooms)
    found room e = elim (Bool-cases (room_id == j)) [
      | inl same ↦ rw (same, at_j same, e) refl
      | inr other ↦ rw (other) refl
    ]

apply-updates :
    (room_id : ℕ) (is_creator : Bool) (endpoint : SocketAddr) (is_public : Bool) (s : State)
    → apply (updates room_id is_creator endpoint is_public) s
      ≡ record s { rooms = told_rooms room_id (told_room is_creator endpoint is_public) s.rooms }
unfolding apply update_client
apply-updates room_id is_creator endpoint is_public s =
    elim (Option-cases (lookup room_id s.rooms)) [
      | inl e ↦ rw (update_client, told_rooms, e) refl
      | inr (room, e) ↦ rw (update_client, told_rooms, e) refl
    ]

-- Changes of one map at two places, where the changes of one place may be swapped.
swap-SameMap :
    (k k' : ℕ) (f f' : Room → Room) (rooms : Assoc Room)
    → (k == k' ≡ true → (room : Room) → f' (f room) ≡ f (f' room))
    → SameMap (told_rooms k' f' (told_rooms k f rooms)) (told_rooms k f (told_rooms k' f' rooms))
swap-SameMap k k' f f' rooms h j =
    lookup-told_rooms k' j f' (told_rooms k f rooms)
    ∙ ap (write k' f') (lookup-told_rooms k j f rooms)
    ∙ in_order (lookup j rooms)
    ∙ sym (ap (write k f) (lookup-told_rooms k' j f' rooms))
    ∙ sym (lookup-told_rooms k j f (told_rooms k' f' rooms))
  where
    write : ℕ → (Room → Room) → Option Room → Option Room
    write i g o = if i == j then map_room g o else o

    both :
        (same : k == k' ≡ true) (o : Option Room)
        → map_room f' (map_room f o) ≡ map_room f (map_room f' o)
    both same none = refl
    both same (some room) = ap some (h same room)

    in_order : (o : Option Room) → write k' f' (write k f o) ≡ write k f (write k' f' o)
    in_order o = elim (Bool-cases (k == j)) [
      | inl e ↦ elim (Bool-cases (k' == j)) [
        | inl e' ↦ rw (e, e') (both (rw ((==_iff k j).0 e, (==_iff k' j).0 e') (==_refl j)) o)
        | inr e' ↦ rw (e, e') refl
      ]
      | inr e ↦ rw e refl
    ]

told_room_comm :
    (side side' : Bool) (e e' : SocketAddr) (p p' : Bool) (room : Room)
    → same_side side side' ≡ false
    → told_room side' e' p' (told_room side e p room)
      ≡ told_room side e p (told_room side' e' p' room)
told_room_comm true false e e' p p' room h = refl
told_room_comm false true e e' p p' room h = refl
told_room_comm true true e e' p p' room h = ground arith
told_room_comm false false e e' p p' room h = ground arith

swapped-Looks :
    (room_id room_id' : ℕ) (side side' : Bool) (e e' : SocketAddr) (p p' : Bool) (s : State)
    → (room_id == room_id') && same_side side side' ≡ false
    → Looks
        (apply (updates room_id' side' e' p') (apply (updates room_id side e p) s))
        (apply (updates room_id side e p) (apply (updates room_id' side' e' p') s))
swapped-Looks room_id room_id' side side' e e' p p' s h =
    rw
      (
        apply-updates room_id side e p s,
        apply-updates room_id' side' e' p' s,
        apply-updates room_id' side' e' p',
        apply-updates room_id side e p,
      )
      (record {
        rooms_eq =
            swap-SameMap room_id room_id' (told_room side e p) (told_room side' e' p') s.rooms
              (λ same room. told_room_comm side side' e e' p p' room (rw (sym h, same) refl));
        blocked_eq = λ j. refl;
        channels_eq = λ j. refl;
        next_eq = refl;
        timers_eq = refl;
        now_eq = refl;
      })

-- Sequences of operations over the abstract states.
unfoldable pub view_run : List Op → View → View
view_run ops =
    Quot.lift Quot-set (λ s. Quot.mk (run ops s)) (λ s s' h. Quot.sound (run-Looks ops s s' h))

-- Two calls of `update_client` for different clients, be they of one room or of two, may be swapped,
-- whatever came before and comes after: but for the order of the maps, which no operation reads, the
-- state is the same.
pub updates_comm :
    (room_id room_id' : ℕ) (side side' : Bool) (e e' : SocketAddr) (p p' : Bool) (ops : List Op)
    → (room_id == room_id') && same_side side side' ≡ false
    → (v : View)
    → view_run (updates room_id side e p ∷ updates room_id' side' e' p' ∷ ops) v
      ≡ view_run (updates room_id' side' e' p' ∷ updates room_id side e p ∷ ops) v
unfolding view_run run
updates_comm room_id room_id' side side' e e' p p' ops h =
    Quot.ind (λ _. hlevel Quot-set)
      (λ s.
        Quot.sound (run-Looks ops _ _ (swapped-Looks room_id room_id' side side' e e' p p' s h)))
