-- ===== src/HolePunch/Peer/Race.antt =====
-- gday_hole_punch/src/client/peer_connector.rs: the loops that wait for a verified peer, their sockets,
-- and the race between them. What the sockets and the streams do is an argument, and `select_ok` of
-- the crate futures is a parameter.
pub mod Verified
pub mod First
pub mod Stuck
pub mod Tests
use mathlib.Core.List.{Memᴰ}
use gday_old.Base.{ℕ, ◌≡◌, Bool, true, false, Option, none, some, List, [], ◌∷◌, map, All}
use gday_old.Base.Outcome.{Outcome, returns, panics, Result, ok, err}
use gday_old.Base.Text.{Bytes}
use gday_old.HolePunch.Contact.{SocketAddr, V4, V6}
use gday_old.HolePunch.Client.{ClientError, io, PeerConnector}
use gday_old.HolePunch.Peer.{Attempt, try_accept, try_connect, attempts, Crypto, key_of, compared}

-- What a call on a stream comes to; `silent` is one that does not end.
pub data Call (A : Type 0) : Type 0 where
  gives : A → Call A
  broken : ℕ → Call A
  silent : Call A

-- A connection that is open: the random choice of SPAKE2 on it, and what its four calls come to.
pub record Stream : Type 0 where
  pub choice : ℕ
  pub message_written : Call (Unit {0})
  pub inbound_message : Call Bytes
  pub code_written : Call (Unit {0})
  pub received : Call Bytes

-- How a future ends.
pub data Future (E A : Type 0) : Type 0 where
  ready : Result E A → Future E A
  pending : Future E A

abbrev pub and_then : {A B : Type 0} → Call A → (A → Future ClientError B) → Future ClientError B
and_then (gives a) f = f a
and_then (broken e) f = ready (err (io e))
and_then silent f = pending

-- The family of a socket, and the address that it is bound to.
pub data Family : Type 0 where
  ipv6 ipv4 : Family

pub record TcpSocket : Type 0 where
  pub family : Family
  pub bound : SocketAddr

-- How the system opens a socket and binds it; none is a success.
pub record Sockets : Type 0 where
  pub new_v6 : Option ℕ
  pub new_v4 : Option ℕ
  pub bind : Option ℕ

abbrev pub bound_to : Family → SocketAddr → Option ℕ → Option ℕ → Result ℕ TcpSocket
bound_to family addr (some e) bind = err e
bound_to family addr none (some e) = err e
bound_to family addr none none = ok (record { family = family; bound = addr })

-- The options set in between are ones whose errors are dropped.
unfoldable pub get_local_socket : Sockets → SocketAddr → Result ℕ TcpSocket
get_local_socket os (V6 addr) = bound_to ipv6 (V6 addr) os.new_v6 os.bind
get_local_socket os (V4 addr) = bound_to ipv4 (V4 addr) os.new_v4 os.bind

-- What one round of the loop of `try_connect` meets.
pub record Dial : Type 0 where
  pub os : Sockets
  pub connect : Call Stream

-- What the system does for an attempt.
pub record Network : Type 0 where
  pub os : Sockets
  pub listen : Option ℕ
  pub accepts : List (Result ℕ Stream)
  pub dials : List Dial

-- `futures::future::select_ok`: the first future to succeed, the error of the last one where all fail,
-- and a panic where there is none. Which is first is open.
pub record SelectOk : Type 0 where
  pub select_ok : List (Future ℕ Bytes) → Outcome (Future ℕ Bytes)
  pub of_nothing : select_ok [] ≡ panics
  pub of_some :
      (fut : Future ℕ Bytes) (futs : List (Future ℕ Bytes))
      → (r : Future ℕ Bytes) × (select_ok (fut ∷ futs) ≡ returns r)
  pub succeeds :
      (key : Bytes) (futs : List (Future ℕ Bytes))
      → Memᴰ (ready (ok key)) futs
      → (first : Bytes) × (select_ok futs ≡ returns (ready (ok first)))
  pub is_one :
      (key : Bytes) (futs : List (Future ℕ Bytes))
      → select_ok futs ≡ returns (ready (ok key))
      → Memᴰ (ready (ok key)) futs

module _ (crypto : Crypto) (peer_id : ℕ) (is_creator : Bool) where
  abbrev pub keyed : Stream → Result ℕ Bytes → Future ClientError Bytes
  keyed stream (err e) = ready (compared crypto is_creator [] (err e))
  keyed stream (ok key) =
      and_then stream.code_written λ _.
        and_then stream.received λ received. ready (compared crypto is_creator received (ok key))

  -- `verify_peer` with its reads and writes.
  unfoldable pub verify_stream : Stream → Future ClientError Bytes
  verify_stream stream = and_then stream.message_written λ _.
      and_then stream.inbound_message
        λ inbound_message. keyed stream (key_of crypto peer_id stream.choice inbound_message)

  -- `if let Ok(connection)`, with the rest of the loop.
  abbrev pub or_next : Future ClientError Bytes → Future ℕ Bytes → Future ℕ Bytes
  or_next (ready (ok key)) rest = ready (ok key)
  or_next (ready (err e)) rest = rest
  or_next pending rest = pending

  -- The loop of `try_accept`, over what `accept` gives.
  unfoldable pub accept_loop : List (Result ℕ Stream) → Future ℕ Bytes
  accept_loop [] = pending
  accept_loop (err e ∷ accepts) = ready (err e)
  accept_loop (ok stream ∷ accepts) =
      let rest = accept_loop accepts in or_next (verify_stream stream) rest

  abbrev pub listening : Result ℕ TcpSocket → Option ℕ → List (Result ℕ Stream) → Future ℕ Bytes
  listening (err e) listen accepts = ready (err e)
  listening (ok socket) (some e) accepts = ready (err e)
  listening (ok socket) none accepts = accept_loop accepts

  abbrev pub dialled : Result ℕ TcpSocket → Call Stream → Future ℕ Bytes → Future ℕ Bytes
  dialled (err e) connect rest = ready (err e)
  dialled (ok socket) (gives stream) rest = or_next (verify_stream stream) rest
  dialled (ok socket) (broken e) rest = ready (err e)
  dialled (ok socket) silent rest = pending

  unfoldable pub connect_loop : SocketAddr → List Dial → Future ℕ Bytes
  connect_loop local [] = pending
  connect_loop local (dial ∷ dials) =
      let rest = connect_loop local dials in
      dialled (get_local_socket dial.os local) dial.connect rest

  unfoldable pub run_attempt : (Attempt → Network) → Attempt → Future ℕ Bytes
  run_attempt net (try_accept local) =
      let n = net (try_accept local) in listening (get_local_socket n.os local) n.listen n.accepts
  run_attempt net (try_connect local peer) = connect_loop local (net (try_connect local peer)).dials

unfoldable pub connect_to_peer :
    Crypto → SelectOk → (Attempt → Network) → PeerConnector → ℕ → Outcome (Future ℕ Bytes)
connect_to_peer crypto select net this shared_secret =
    select.select_ok (map (run_attempt crypto shared_secret this.is_creator net) (attempts this))
