-- ===== src/Gday/Password.antt =====
-- The password that `start_room` of gday/src/main.rs prints, against what `join_room` makes of it.
use gday_old.Base.{Option, ℕ, ◌<◌, ◌≡◌, refl, true, false, arith, List, [], ◌∷◌, map}
use gday_old.Base.Outcome.{Outcome, returns, exits, panics, ◌>>=◌, Profile, debug, ok, u32_mod}
use gday_old.Base.Text.{Bytes, lower}
use gday_old.Base32.{to_string, from_string}
use gday_old.Base32.Codes.{from_string-to_string}
use gday_old.Base32.Case.{from_string-lower}
use gday_old.HolePunch.Client.{Line, ServerConnection, gives, new_connection, create, join}
use gday_old.Gday.{
  goes_on, World, connect_to_server, establish_peer_connection, invite, start_room, enter,
  join_room,
}

-- A code that can be read back has been printed.
is_printed :
    (o : Outcome Bytes) (vals : List ℕ)
    → ((p : Profile) → (o >>= from_string p) ≡ returns vals)
    → (password : Bytes) × (o ≡ returns password)
      × ((p : Profile) → from_string p password ≡ returns vals)
is_printed (returns password) vals h = (password, refl, h)
is_printed (exits n) vals h = absurd (let e = h debug in cc)
is_printed panics vals h = absurd (let e = h debug in cc)

-- A process that has reached the server on a line, or on two.
pub record Connects (w : World) (c : ServerConnection) : Type 0 where
  pub v6 : Option Line
  pub v4 : Option Line
  pub reached : connect_to_server w ≡ goes_on (v6, v4)
  pub connected : new_connection v6 v4 ≡ ok c

-- A host whose room the server creates, and a guest that the server lets into that room: the guest
-- that is given the password which the host prints, as it stands or in small letters, goes on to the
-- peer's contacts with the peer secret of the host, as the host does.
pub join_room-start_room :
    (host guest : World) (c d host_sharer guest_sharer : ServerConnection) (room_id : ℕ)
    → Connects host c
    → Connects guest d
    → create c ≡ (gives room_id, host_sharer)
    → join room_id d ≡ (gives tt, guest_sharer)
    → room_id < u32_mod
    → host.random_peer_secret < u32_mod
    → (password : Bytes) × (invite host
        ≡ goes_on (record {
          room_id = room_id;
          peer_secret = host.random_peer_secret;
          password = password;
          sharer = host_sharer;
        }))
      × (start_room host ≡ establish_peer_connection host true host_sharer host.random_peer_secret)
      × (join_room guest password
          ≡ establish_peer_connection guest false guest_sharer host.random_peer_secret)
      × (join_room guest (map lower password)
          ≡ establish_peer_connection guest false guest_sharer host.random_peer_secret)
unfolding invite start_room enter join_room
join_room-start_room host guest c d host_sharer guest_sharer room_id hc gc created joined room
      secret =
    let vals = 0 ∷ room_id ∷ host.random_peer_secret ∷ [] in
    let (password, printed, read) =
      is_printed (to_string vals) vals
        λ p. from_string-to_string p vals (cc) (omega arith, (room, (secret, tt))) in
    (
      password,
      rw (hc.reached, hc.connected, created, printed),
      rw (hc.reached, hc.connected, created, printed),
      rw (read guest.profile, gc.reached, gc.connected, joined),
      rw (
        from_string-lower guest.profile password,
        read guest.profile,
        gc.reached,
        gc.connected,
        joined,
      ),
    )
