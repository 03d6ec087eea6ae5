-- ===== src/HolePunch/Peer/Race/Tests.antt =====
-- The race of gday_hole_punch/src/client/peer_connector.rs at concrete inputs, where the first future
-- of the list that succeeds is first.
use mathlib.Core.List.{Memᴰ}
use gday_old.Base.{ℕ, ◌↔◌, ◌≡◌, refl, true, false, none, List, [], ◌∷◌}
use gday_old.Base.Outcome.{Outcome, returns, panics, ok, err}
use gday_old.Base.Text.{Bytes}
use gday_old.Base.Words.{to_be_bytes}
use gday_old.HolePunch.Contact.{V4, no_contact, no_full_contact}
use gday_old.HolePunch.Client.{PeerConnector, peer_authentication_failed}
use gday_old.HolePunch.Peer.{
  Attempt, try_accept, attempts, key_of, code_sent, outbound_msg, get_verification_code,
}
use gday_old.HolePunch.Peer.Tests.{plain, connector}
use gday_old.HolePunch.Peer.Race.{
  silent, gives, Stream, Future, ready, pending, SelectOk, Network, verify_stream, get_local_socket,
  connect_to_peer, run_attempt, connect_loop, accept_loop, ipv4,
}
use gday_old.HolePunch.Peer.Race.Verified.{Knows, Honest}
use gday_old.HolePunch.Peer.Race.Stuck.{connect_to_peer_panics, run_attempt_stuck}
use gday_old.HolePunch.Peer.Race.First.{
  Opens, Refused, Reached, connect_to_peer-Knows, connect_to_peer-reaches,
}

abbrev pub choose : Future ℕ Bytes → List (Future ℕ Bytes) → Future ℕ Bytes
choose (ready (ok key)) futs = ready (ok key)
choose (ready (err e)) [] = ready (err e)
choose (ready (err e)) (fut ∷ futs) = choose fut futs
choose pending [] = pending
choose pending (fut ∷ futs) = choose fut futs

abbrev pub first_ok : List (Future ℕ Bytes) → Outcome (Future ℕ Bytes)
first_ok [] = panics
first_ok (fut ∷ futs) = returns (choose fut futs)

choose-succeeds :
    (key : Bytes) (fut : Future ℕ Bytes) (futs : List (Future ℕ Bytes))
    → Memᴰ (ready (ok key)) (fut ∷ futs)
    → (first : Bytes) × (choose fut futs ≡ ready (ok first))
choose-succeeds key (ready (ok k)) futs m = (k, refl)
choose-succeeds key (ready (err k)) [] (Memᴰ.head e) = cc
choose-succeeds key (ready (err k)) [] (Memᴰ.tail m) = elim m [ ]
choose-succeeds key (ready (err k)) (fut ∷ futs) (Memᴰ.head e) = cc
choose-succeeds key (ready (err k)) (fut ∷ futs) (Memᴰ.tail m) = choose-succeeds key fut futs m
choose-succeeds key pending [] (Memᴰ.head e) = cc
choose-succeeds key pending [] (Memᴰ.tail m) = elim m [ ]
choose-succeeds key pending (fut ∷ futs) (Memᴰ.head e) = cc
choose-succeeds key pending (fut ∷ futs) (Memᴰ.tail m) = choose-succeeds key fut futs m

choose-is_one :
    (key : Bytes) (fut : Future ℕ Bytes) (futs : List (Future ℕ Bytes))
    → choose fut futs ≡ ready (ok key)
    → Memᴰ (ready (ok key)) (fut ∷ futs)
choose-is_one key (ready (ok k)) futs e = Memᴰ.head (cc)
choose-is_one key (ready (err k)) [] e = cc
choose-is_one key (ready (err k)) (fut ∷ futs) e = Memᴰ.tail (choose-is_one key fut futs e)
choose-is_one key pending [] e = cc
choose-is_one key pending (fut ∷ futs) e = Memᴰ.tail (choose-is_one key fut futs e)

pub first_ok-succeeds :
    (key : Bytes) (futs : List (Future ℕ Bytes))
    → Memᴰ (ready (ok key)) futs
    → (first : Bytes) × (first_ok futs ≡ returns (ready (ok first)))
first_ok-succeeds key [] m = elim m [ ]
first_ok-succeeds key (fut ∷ futs) m =
    let (first, e) = choose-succeeds key fut futs m in (first, rw e)

returned : (a b : Future ℕ Bytes) → returns a ≡ returns b → a ≡ b
returned a b e = cc

pub first_ok-is_one :
    (key : Bytes) (futs : List (Future ℕ Bytes))
    → first_ok futs ≡ returns (ready (ok key))
    → Memᴰ (ready (ok key)) futs
first_ok-is_one key [] e = cc
first_ok-is_one key (fut ∷ futs) e =
    choose-is_one key fut futs (returned (choose fut futs) (ready (ok key)) e)

abbrev pub in_turn : SelectOk
in_turn = record {
  select_ok = first_ok;
  of_nothing = refl;
  of_some = λ fut futs. (choose fut futs, refl);
  succeeds = first_ok-succeeds;
  is_one = first_ok-is_one;
}

-- A stranger that sends a wrong code, and the peer.
abbrev pub stranger : Stream
stranger = record {
  choice = 1;
  message_written = gives tt;
  inbound_message = gives (7 ∷ []);
  code_written = gives tt;
  received = gives [];
}

abbrev peer_sends : Bytes
peer_sends = code_sent plain false (key_of plain 5 2 (outbound_msg plain 5 1))

abbrev pub peer : Stream
peer = record stranger {
  inbound_message = gives (outbound_msg plain 5 2);
  received = gives peer_sends;
}

abbrev home : Attempt
home = try_accept (V4 (record { ip = 4; port = 40 }))

-- Nobody can be connected to, and both come in.
abbrev pub net : Attempt → Network
net attempt = record {
  os = record { new_v6 = none; new_v4 = none; bind = none };
  listen = none;
  accepts = ok stranger ∷ ok peer ∷ [];
  dials = [];
}

stranger-Refused : Refused plain 5 true stranger
unfolding verify_stream get_verification_code to_be_bytes
stranger-Refused = (peer_authentication_failed, refl)

peer-Honest : Honest plain 5 true peer
peer-Honest = record {
  choice = 2;
  message_written = refl;
  inbound_eq = refl;
  code_written = refl;
  received_eq = refl;
}

home-mem : Memᴰ home (attempts connector)
unfolding attempts
home-mem = Memᴰ.tail (Memᴰ.tail (Memᴰ.tail (Memᴰ.head refl)))

home-Reached : Reached plain 5 true (net home) (V4 (record { ip = 4; port = 40 }))
unfolding get_local_socket
home-Reached = record {
  socket = record { family = ipv4; bound = V4 (record { ip = 4; port = 40 }) };
  opened = refl;
  listens = refl;
  strangers = stranger ∷ [];
  refused = (stranger-Refused, tt);
  stream = peer;
  honest = peer-Honest;
  later = [];
  accepts_eq = refl;
}

connect_to_peer-reaches_example :
    (first : Bytes) × (connect_to_peer plain in_turn net connector 5 ≡ returns (ready (ok first)))
connect_to_peer-reaches_example =
    connect_to_peer-reaches plain 5 in_turn net connector (V4 (record { ip = 4; port = 40 }))
      home-mem home-Reached

reached : connect_to_peer plain in_turn net connector 5 ≡ returns (ready (ok (0 ∷ 0 ∷ 0 ∷ 5 ∷ [])))
unfolding connect_to_peer attempts run_attempt get_local_socket accept_loop verify_stream
    get_verification_code connect_loop to_be_bytes
reached = refl

connect_to_peer-Knows_example :
    (attempt : Attempt) × (stream : Stream) × Memᴰ attempt (attempts connector)
    × Opens net attempt stream
    × Knows plain 5 true stream (0 ∷ 0 ∷ 0 ∷ 5 ∷ [])
connect_to_peer-Knows_example =
    connect_to_peer-Knows plain 5 in_turn net connector (0 ∷ 0 ∷ 0 ∷ 5 ∷ []) reached

-- The contact that the server sends for this client has nothing in it.
abbrev nowhere : PeerConnector
nowhere = record connector { local = no_full_contact }

connect_to_peer_panics_example :
    (connect_to_peer plain in_turn net nowhere 5 ≡ panics) ↔ (no_contact ≡ no_contact)
connect_to_peer_panics_example = connect_to_peer_panics plain in_turn net nowhere 5

abbrev mute : Stream
mute = record stranger { inbound_message = silent }

-- The peer comes in behind a stranger that says nothing.
abbrev with_mute : Attempt → Network
with_mute attempt = record (net attempt) { accepts = ok stranger ∷ ok mute ∷ ok peer ∷ [] }

home_socket :
    get_local_socket (with_mute home).os (V4 (record { ip = 4; port = 40 }))
    ≡ ok (record { family = ipv4; bound = V4 (record { ip = 4; port = 40 }) })
unfolding get_local_socket
home_socket = refl

run_attempt_stuck_example : run_attempt plain 5 true with_mute home ≡ pending
run_attempt_stuck_example =
    run_attempt_stuck plain 5 true with_mute (V4 (record { ip = 4; port = 40 }))
      (record { family = ipv4; bound = V4 (record { ip = 4; port = 40 }) }) (stranger ∷ []) mute
      (ok peer ∷ []) home_socket refl refl (stranger-Refused, tt) refl refl
