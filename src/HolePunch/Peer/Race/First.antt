-- ===== src/HolePunch/Peer/Race/First.antt =====
-- Whom the client of gday_hole_punch/src/client/peer_connector.rs ends up connected to.
use mathlib.Core.List.{Memᴰ}
use mathlib.Core.List.Memᴰ
use gday_old.Base.{
  ℕ, ◌≡◌, refl, sym, Bool, Option, none, some, List, [], ◌∷◌, ◌++◌, map, All, ◌⊎◌, inl, inr,
}
use gday_old.Base.Outcome.{returns, Result, ok, err}
use gday_old.Base.Text.{Bytes}
use gday_old.HolePunch.Contact.{SocketAddr}
use gday_old.HolePunch.Client.{ClientError, PeerConnector}
use gday_old.HolePunch.Peer.{Attempt, try_accept, try_connect, attempts, Crypto}
use gday_old.HolePunch.Peer.Race.{
  Call, gives, broken, silent, Stream, Future, ready, pending, SelectOk, Dial, Network,
  verify_stream, or_next, accept_loop, listening, dialled, connect_loop, get_local_socket,
  run_attempt, connect_to_peer, TcpSocket,
}
use gday_old.HolePunch.Peer.Race.Verified.{Knows, verify_stream-Knows, Honest, verify_stream-Honest}

-- A stream that comes from one of the connects.
pub record Dialled (dials : List Dial) (stream : Stream) : Type 0 where
  pub dial : Dial
  pub among : Memᴰ dial dials
  pub connected : dial.connect ≡ gives stream

-- The streams that the system opens for an attempt.
abbrev pub Opens : (Attempt → Network) → Attempt → Stream → Type 0
Opens net (try_accept local) stream = Memᴰ (ok stream) (net (try_accept local)).accepts
Opens net (try_connect local peer) stream = Dialled (net (try_connect local peer)).dials stream

module _ (crypto : Crypto) (peer_id : ℕ) (is_creator : Bool) where
  or_next-cases :
      (verdict : Future ClientError Bytes) (rest : Future ℕ Bytes) (key : Bytes)
      → or_next crypto peer_id is_creator verdict rest ≡ ready (ok key)
      → (verdict ≡ ready (ok key)) ⊎ (rest ≡ ready (ok key))
  or_next-cases (ready (ok k)) rest key e = inl (cc)
  or_next-cases (ready (err k)) rest key e = inr e
  or_next-cases pending rest key e = cc

  accept_loop-Knows :
      (accepts : List (Result ℕ Stream)) (key : Bytes)
      → accept_loop crypto peer_id is_creator accepts ≡ ready (ok key)
      → (stream : Stream) × Memᴰ (ok stream) accepts × Knows crypto peer_id is_creator stream key
  unfolding accept_loop
  accept_loop-Knows [] key e = cc
  accept_loop-Knows (err k ∷ accepts) key e = cc
  accept_loop-Knows (ok stream ∷ accepts) key e = elim (or_next-cases _ _ key e) [
    | inl now ↦
        (stream, Memᴰ.head refl, verify_stream-Knows crypto peer_id is_creator stream key now)
    | inr later ↦
        let (found, mem, knows) = accept_loop-Knows accepts key later in
        (found, Memᴰ.tail mem, knows)
  ]

  dialled-cases :
      (socket : Result ℕ TcpSocket) (connect : Call Stream) (rest : Future ℕ Bytes) (key : Bytes)
      → dialled crypto peer_id is_creator socket connect rest ≡ ready (ok key)
      → ((stream : Stream) × (connect ≡ gives stream) × Knows crypto peer_id is_creator stream key)
        ⊎ (rest ≡ ready (ok key))
  dialled-cases (err k) connect rest key e = cc
  dialled-cases (ok socket) (broken k) rest key e = cc
  dialled-cases (ok socket) silent rest key e = cc
  dialled-cases (ok socket) (gives stream) rest key e = elim (or_next-cases _ rest key e) [
    | inl now ↦ inl (stream, refl, verify_stream-Knows crypto peer_id is_creator stream key now)
    | inr later ↦ inr later
  ]

  connect_loop-Knows :
      (local : SocketAddr) (dials : List Dial) (key : Bytes)
      → connect_loop crypto peer_id is_creator local dials ≡ ready (ok key)
      → (stream : Stream) × Dialled dials stream × Knows crypto peer_id is_creator stream key
  unfolding connect_loop
  connect_loop-Knows local [] key e = cc
  connect_loop-Knows local (dial ∷ dials) key e = elim (dialled-cases _ dial.connect _ key e) [
    | inl (stream, connected, knows) ↦
        (stream, record { dial = dial; among = Memᴰ.head refl; connected = connected }, knows)
    | inr later ↦
        let (stream, from, knows) = connect_loop-Knows local dials key later in
        (
          stream,
          record { dial = from.dial; among = Memᴰ.tail from.among; connected = from.connected },
          knows,
        )
  ]

  listening-Knows :
      (socket : Result ℕ TcpSocket) (listen : Option ℕ) (accepts : List (Result ℕ Stream))
      (key : Bytes)
      → listening crypto peer_id is_creator socket listen accepts ≡ ready (ok key)
      → (stream : Stream) × Memᴰ (ok stream) accepts × Knows crypto peer_id is_creator stream key
  listening-Knows (err k) listen accepts key e = cc
  listening-Knows (ok socket) (some k) accepts key e = cc
  listening-Knows (ok socket) none accepts key e = accept_loop-Knows accepts key e

  run_attempt-Knows :
      (net : Attempt → Network) (attempt : Attempt) (key : Bytes)
      → run_attempt crypto peer_id is_creator net attempt ≡ ready (ok key)
      → (stream : Stream) × Opens net attempt stream × Knows crypto peer_id is_creator stream key
  unfolding run_attempt
  run_attempt-Knows net (try_accept local) key e =
      let n = net (try_accept local) in
      listening-Knows (get_local_socket n.os local) n.listen n.accepts key e
  run_attempt-Knows net (try_connect local peer) key e = connect_loop-Knows local _ key e

  abbrev pub Refused : Stream → Type 0
  Refused stream =
      (e : ClientError) × (verify_stream crypto peer_id is_creator stream ≡ ready (err e))

  accept_loop-reaches :
      (strangers : List Stream) (stream : Stream) (later : List (Result ℕ Stream)) (key : Bytes)
      → All Refused strangers
      → verify_stream crypto peer_id is_creator stream ≡ ready (ok key)
      → accept_loop crypto peer_id is_creator (map ok strangers ++ ok stream ∷ later)
        ≡ ready (ok key)
  unfolding accept_loop
  accept_loop-reaches [] stream later key refused v = rw v
  accept_loop-reaches (s ∷ strangers) stream later key ((e, failed), refused) v =
      rw failed (accept_loop-reaches strangers stream later key refused v)

  -- The listening socket opens, and any number of connections that fail to be verified come in before
  -- that of the peer.
  pub record Reached (n : Network) (local : SocketAddr) : Type 0 where
    pub socket : TcpSocket
    pub opened : get_local_socket n.os local ≡ ok socket
    pub listens : n.listen ≡ none
    pub strangers : List Stream
    pub refused : All Refused strangers
    pub stream : Stream
    pub honest : Honest crypto peer_id is_creator stream
    pub later : List (Result ℕ Stream)
    pub accepts_eq : n.accepts ≡ map ok strangers ++ ok stream ∷ later

-- Whatever the network does and whichever attempt is first: where `connect_to_peer` gives a key, one
-- of its attempts has opened a stream on which SPAKE2, under the shared secret, came to that key, and
-- whose other end has sent the code of the other role made from it.
pub connect_to_peer-Knows :
    (crypto : Crypto) (peer_id : ℕ) (select : SelectOk) (net : Attempt → Network)
    (this : PeerConnector) (key : Bytes)
    → connect_to_peer crypto select net this peer_id ≡ returns (ready (ok key))
    → (attempt : Attempt) × (stream : Stream) × Memᴰ attempt (attempts this)
      × Opens net attempt stream
      × Knows crypto peer_id this.is_creator stream key
unfolding connect_to_peer
connect_to_peer-Knows crypto peer_id select net this key e =
    let futs = map (run_attempt crypto peer_id this.is_creator net) (attempts this) in
    let (attempt, mem, is_key) =
      Memᴰ.of_map (run_attempt crypto peer_id this.is_creator net) (attempts this)
        (select.is_one key futs e) in
    let (stream, opens, knows) =
      run_attempt-Knows crypto peer_id this.is_creator net attempt key is_key in
    (attempt, stream, mem, opens, knows)

-- A peer that has the same secret and does what the code does, and that is accepted behind any number
-- of connections that fail to be verified, is reached: `connect_to_peer` ends with a key, whatever
-- becomes of the other attempts.
pub connect_to_peer-reaches :
    (crypto : Crypto) (peer_id : ℕ) (select : SelectOk) (net : Attempt → Network)
    (this : PeerConnector) (local : SocketAddr)
    → Memᴰ (try_accept local) (attempts this)
    → Reached crypto peer_id this.is_creator (net (try_accept local)) local
    → (first : Bytes) × (connect_to_peer crypto select net this peer_id
        ≡ returns (ready (ok first)))
unfolding connect_to_peer run_attempt
connect_to_peer-reaches crypto peer_id select net this local mem r =
    let run = run_attempt crypto peer_id this.is_creator net in
    let (key, verified) = verify_stream-Honest crypto peer_id this.is_creator r.stream r.honest in
    let ends : run (try_accept local) ≡ ready (ok key) =
      rw (r.opened, r.listens, r.accepts_eq)
        (accept_loop-reaches crypto peer_id this.is_creator r.strangers r.stream r.later key
          r.refused verified) in
    select.succeeds key (map run (attempts this)) (Memᴰ.cast (sym ends) (Memᴰ.map run mem))
