-- ===== src/HolePunch/Service/Promises.antt =====
-- Where the handshakes and the connections of gday_hole_punch/src/server.rs come from.
use gday_old.Base.{
  ℕ, zero, suc, ◌≡◌, refl, subst, Option, none, some, List, [], ◌∷◌, ◌==◌, ==_iff, All, All-append,
  get_elem?, Option-cases, Bool-cases, inl, inr,
}
use gday_old.Base.Assoc.{Assoc, lookup, insert, lookup-insert}
use gday_old.HolePunch.Throttle
use gday_old.HolePunch.Throttle.{Stream, Served, Throttle, new_throttle}
use gday_old.HolePunch.Handler.{Conn}
use gday_old.HolePunch.Handler.Server
use gday_old.HolePunch.Handler.Server.{
  Phase, Connection, Server, at_connection, on_message, on_poll, accept, new_server, IsQuiet,
  ToldNothing, on_event-IsQuiet, new_server-IsQuiet,
}
use gday_old.HolePunch.Service.{
  Service, TlsStream, Event, accepts, enters, unblocks, handshaken, receives, polls, wakes, elapses,
  newly, throttled, without, shaken, on_handshake, on_event, run, new_service,
}
use gday_old.HolePunch.Service.Grows.{
  WasServed, Grows, Grows-WasServed, on_event-Grows, taken_served, All-Grows,
}

-- A connection belongs to a stream that has been served.
abbrev pub KnownAs : List Served → ℕ → Option Connection → Type 0
KnownAs served i none = Unit {0}
KnownAs served i (some conn) = (stream : Stream) × WasServed served stream × (stream.id ≡ i)

KnownAs-Grows :
    (before after : List Served) (i : ℕ) (o : Option Connection)
    → Grows before after
    → KnownAs before i o
    → KnownAs after i o
KnownAs-Grows before after i none g k = tt
KnownAs-Grows before after i (some conn) g (stream, m, e) =
    (stream, Grows-WasServed stream before after g m, e)

abbrev Known : List Served → Assoc Connection → Type 0
Known served connections = (i : ℕ) → KnownAs served i (lookup i connections)

insert-Known :
    (served : List Served) (connections : Assoc Connection) (i : ℕ) (conn : Connection)
    → KnownAs served i (some conn)
    → Known served connections
    → Known served (insert i conn connections)
insert-Known served connections i conn known all j = elim (Bool-cases (i == j)) [
  | inl e ↦
      rw (lookup-insert i j conn connections, e)
        (subst (λ k. KnownAs served k (some conn)) ((==_iff i j).0 e) known)
  | inr e ↦ rw (lookup-insert i j conn connections, e) (all j)
]

at_connection-Known :
    (served : List Served) (i : ℕ) (f : Phase → Conn → Phase × Conn) (s : Server)
    → Known served s.connections
    → Known served (at_connection i f s).connections
unfolding at_connection
at_connection-Known served i f s known = elim (Option-cases (lookup i s.connections)) [
  | inl e ↦ rw (at_connection, e) known
  | inr (conn, e) ↦
      rw (at_connection, e)
        (insert-Known served s.connections i _ (subst (KnownAs served i) e (known i)) known)
]

-- What holds of the whole server at all times.
record Kept (s : Service) : Type 0 where
  shaking : All (WasServed s.throttle.served) s.handshakes
  known : Known s.throttle.served s.server.connections

throttled-Kept :
    (s : Service) (throttle : Throttle)
    → Kept s
    → Grows s.throttle.served throttle.served
    → Kept (throttled throttle s)
throttled-Kept s throttle v grows = record {
  shaking =
      All-append (WasServed throttle.served) (newly s.throttle.served throttle.served) s.handshakes
        (taken_served _ throttle.served)
        (All-Grows s.throttle.served throttle.served s.handshakes grows v.shaking);
  known = λ i. KnownAs-Grows s.throttle.served throttle.served i _ grows (v.known i);
}

found_among :
    (P : Stream → Type 0) (ss : List Stream) (i : ℕ) (stream : Stream)
    → All P ss
    → get_elem? ss i ≡ some stream
    → P stream × All P (without i ss)
found_among P [] i stream h e = cc
found_among P (s ∷ ss) zero stream (h, hs) e = (subst P (cc) h, hs)
found_among P (s ∷ ss) (suc i) stream (h, hs) e =
    let (here, rest) = found_among P ss i stream hs e in (here, (h, rest))

shaken-Kept :
    (s : Service) (tls : Option TlsStream) (stream : Stream)
    → WasServed s.throttle.served stream
    → Kept s
    → Kept (shaken tls stream s)
unfolding accept
shaken-Kept s none stream was v = v
shaken-Kept s (some tls) stream was v = record {
  shaking = v.shaking;
  known =
      insert-Known s.throttle.served s.server.connections stream.id _ (stream, was, refl) v.known;
}

on_handshake-Kept :
    (i : ℕ) (tls : Option TlsStream) (s : Service) → Kept s → Kept (on_handshake i tls s)
unfolding on_handshake
on_handshake-Kept i tls s v = elim (Option-cases (get_elem? s.handshakes i)) [
  | inl e ↦ rw (on_handshake, e) v
  | inr (stream, e) ↦
      let (was, rest) =
        found_among (WasServed s.throttle.served) s.handshakes i stream v.shaking e in
      rw (on_handshake, e)
        (shaken-Kept (record s { handshakes = without i s.handshakes }) tls stream was
          (record { shaking = rest; known = v.known }))
]

on_event-Kept : (e : Event) (s : Service) → Kept s → Kept (on_event e s)
unfolding on_event Server.on_event Throttle.on_event
on_event-Kept (accepts stream peer_ok) s v =
    throttled-Kept s _ v (on_event-Grows (Throttle.accepts stream peer_ok) s.throttle)
on_event-Kept (enters i) s v = throttled-Kept s _ v (on_event-Grows (Throttle.enters i) s.throttle)
on_event-Kept (unblocks i peer_ok) s v =
    throttled-Kept s _ v (on_event-Grows (Throttle.wakes i peer_ok) s.throttle)
on_event-Kept (handshaken i tls) s v = on_handshake-Kept i tls s v
on_event-Kept (receives i msg draws) s v = record {
  shaking = v.shaking;
  known = at_connection-Known s.throttle.served i (on_message msg draws) s.server v.known;
}
on_event-Kept (polls i) s v = record {
  shaking = v.shaking;
  known = at_connection-Known s.throttle.served i on_poll s.server v.known;
}
on_event-Kept (wakes i) s v = record { shaking = v.shaking; known = v.known }
on_event-Kept (elapses seconds) s v = record { shaking = v.shaking; known = v.known }

run-Kept : (es : List Event) (s : Service) → Kept s → Kept (run es s)
unfolding run
run-Kept [] s v = v
run-Kept (e ∷ es) s v = run-Kept es (on_event e s) (on_event-Kept e s v)

new_service-Kept : Kept new_service
unfolding new_service new_throttle new_server lookup
new_service-Kept = record { shaking = tt; known = λ i. tt }

-- The whole server, from its start on, whatever connects, sends and awaits, in whatever order, and
-- however the TLS handshakes end: every handshake that goes on is that of a stream that was served,
-- once the address was blocked, and every connection is that of such a stream.
pub only_served :
    (es : List Event) (i : ℕ)
    → let s = run es new_service in
      All (WasServed s.throttle.served) s.handshakes
      × KnownAs s.throttle.served i (lookup i s.server.connections)
only_served es i =
    let kept = run-Kept es new_service new_service-Kept in (kept.shaking, kept.known i)
