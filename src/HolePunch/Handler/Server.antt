-- ===== src/HolePunch/Handler/Server.antt =====
-- All connections of the server (gday_hole_punch/src/server/connection_handler.rs) over one shared
-- state, as a sequence of events: input, polls of receivers, and the timers, in any order.
use gday_old.Base.{
  ℕ, ◌≡◌, subst, Option, none, some, List, [], ◌∷◌, ◌==◌, Option-cases, Bool-cases, inl, inr, All,
  All-append,
}
use gday_old.Base.Assoc.{Assoc, lookup, insert, lookup-insert}
use gday_old.Base.Outcome.{Result}
use gday_old.HolePunch.Contact.{SocketAddr, ClientMessage, ServerMessage, SerializationError}
use gday_old.HolePunch.State.{State, new_state, wake, elapse}
use gday_old.HolePunch.State.NoSender.{
  Ensures, Gives, NoSender, IsSilent, new_state-NoSender, create_room-NoSender,
  update_client-NoSender, set_client_done-NoSender, wake-NoSender, elapse-NoSender,
}
use gday_old.HolePunch.Handler.{
  ServerError, Messenger, Conn, Reply, done, failed, running, write_as, write_msg, report, send,
  ConnectionHandler, Progress, next_message, awaits, handle_message, resume, start,
}
use gday_old.HolePunch.Handler.Keeps.{IsPlain, handle_message-Keeps, resume-Keeps, start-Keeps}

-- Where the task of a connection stands.
pub data Phase : Type 0 where
  fresh : Phase
  serving : ConnectionHandler → Phase
  waiting : ConnectionHandler → ℕ → Phase
  drawing : Phase
  ended : ServerError → Phase

pub record Connection : Type 0 where
  pub phase : Phase
  pub messenger : Messenger

pub record Server : Type 0 where
  pub state : State
  pub connections : Assoc Connection

pub data Event : Type 0 where
  accepts : ℕ → List (Option SerializationError) → Result ℕ SocketAddr → Event
  receives : ℕ → Result SerializationError ClientMessage → List ℕ → Event
  polls : ℕ → Event
  wakes : ℕ → Event
  elapses : ℕ → Event

abbrev pub started : Reply ConnectionHandler → Phase
started (done this) = serving this
started (failed e) = ended e
started running = drawing

abbrev pub progressed : ConnectionHandler → Reply Progress → Phase
progressed this (done next_message) = serving this
progressed this (done (awaits rx)) = waiting this rx
progressed this (failed e) = ended e
progressed this running = drawing

-- A message reaches the task, which reads it where it awaits one.
unfoldable pub on_message :
    Result SerializationError ClientMessage → List ℕ → Phase → Conn → Phase × Conn
on_message msg draws fresh c = let (r, c') = start msg draws c in (started r, c')
on_message msg draws (serving this) c =
    let (r, c') = handle_message this msg c in (progressed this r, c')
on_message msg draws (waiting this rx) c = (waiting this rx, c)
on_message msg draws drawing c = (drawing, c)
on_message msg draws (ended e) c = (ended e, c)

-- The receiver that the task awaits is polled.
unfoldable pub on_poll : Phase → Conn → Phase × Conn
on_poll (waiting this rx) c = let (r, c') = resume rx c in (progressed this r, c')
on_poll phase c = (phase, c)

-- One step of one connection's task.
unfoldable pub at_connection : ℕ → (Phase → Conn → Phase × Conn) → Server → Server
at_connection i f s = elim (lookup i s.connections) [
  | none ↦ s
  | some conn ↦
      let (phase, c) = f conn.phase (record { state = s.state; messenger = conn.messenger }) in
      record {
        state = c.state;
        connections = insert i (record { phase = phase; messenger = c.messenger }) s.connections;
      }
]

unfoldable pub accept : ℕ → List (Option SerializationError) → Result ℕ SocketAddr → Server → Server
accept i writes peer_addr s =
    let m : Messenger = record { written = []; writes = writes; peer_addr = peer_addr } in
    record s { connections = insert i (record { phase = fresh; messenger = m }) s.connections }

unfoldable pub on_event : Event → Server → Server
on_event (accepts i writes peer_addr) s = accept i writes peer_addr s
on_event (receives i msg draws) s = at_connection i (on_message msg draws) s
on_event (polls i) s = at_connection i on_poll s
on_event (wakes i) s = record s { state = wake i s.state }
on_event (elapses seconds) s = record s { state = elapse seconds s.state }

unfoldable pub run : List Event → Server → Server
run [] s = s
run (e ∷ es) s = run es (on_event e s)

unfoldable pub new_server : Server
unfolding new_state
new_server = record { state = new_state; connections = [] }

-- The state holds no sender, and the connection has told no contacts.
abbrev pub Quiet : Conn → Type 0
Quiet c = NoSender c.state × All IsPlain c.messenger.written

report-Quiet :
    (s : State) (o : Option SerializationError) (m : Messenger)
    → NoSender s
    → All IsPlain m.written
    → Quiet (report s (o, m)).1
report-Quiet s none m v h = (v, h)
report-Quiet s (some e) m v h = (v, h)

write_msg-IsPlain :
    (msg : ServerMessage) (m : Messenger)
    → IsPlain msg
    → All IsPlain m.written
    → All IsPlain (write_msg msg m).1.written
unfolding write_msg
write_msg-IsPlain msg m p h = go m.writes
  where
    go : (writes : List (Option SerializationError)) → All IsPlain (write_as msg m writes).1.written
    go [] = All-append IsPlain m.written (msg ∷ []) h (p, tt)
    go (none ∷ rest) = All-append IsPlain m.written (msg ∷ []) h (p, tt)
    go (some e ∷ rest) = h

send-Quiet : (msg : ServerMessage) → IsPlain msg → (c : Conn) → Quiet c → Quiet (send msg c).1
unfolding send
send-Quiet msg p c (v, h) =
    let (o, m) = write_msg msg c.messenger in
    report-Quiet c.state o m v (write_msg-IsPlain msg c.messenger p h)

handle_message-Quiet :
    (this : ConnectionHandler) (msg : Result SerializationError ClientMessage) (c : Conn)
    → Quiet c
    → Quiet (handle_message this msg c).1
handle_message-Quiet this msg c q =
    handle_message-Keeps Quiet send-Quiet this
      (λ addr is_public c s q e. (
        subst (Gives NoSender) e
            (update_client-NoSender this.room_id this.is_creator addr is_public c.state q.0),
        q.1,
      ))
      (λ c rx s q e. (
        subst (Ensures NoSender) e
            (set_client_done-NoSender this.room_id this.is_creator c.state q.0),
        q.1,
      ))
      msg c q

resume-Quiet : (rx : ℕ) (c : Conn) → Quiet c → Quiet (resume rx c).1
resume-Quiet rx c q =
    resume-Keeps Quiet send-Quiet
      (λ c rx a b q e. absurd (subst IsSilent e (q.0.channels_silent rx))) rx c q

start-Quiet :
    (msg : Result SerializationError ClientMessage) (draws : List ℕ) (c : Conn)
    → Quiet c
    → Quiet (start msg draws c).1
start-Quiet msg draws c q =
    start-Keeps Quiet send-Quiet
      (λ c draws room_id s q e.
        (subst (Ensures NoSender) e (create_room-NoSender draws c.state q.0), q.1))
      msg draws c q

abbrev pub ToldNothing : Option Connection → Type 0
ToldNothing none = Unit
ToldNothing (some conn) = All IsPlain conn.messenger.written

abbrev pub IsQuiet : Server → Type 0
IsQuiet s = NoSender s.state × ((i : ℕ) → ToldNothing (lookup i s.connections))

on_message-Quiet :
    (msg : Result SerializationError ClientMessage) (draws : List ℕ) (phase : Phase) (c : Conn)
    → Quiet c
    → Quiet (on_message msg draws phase c).1
unfolding on_message
on_message-Quiet msg draws fresh c q = start-Quiet msg draws c q
on_message-Quiet msg draws (serving this) c q = handle_message-Quiet this msg c q
on_message-Quiet msg draws (waiting this rx) c q = q
on_message-Quiet msg draws drawing c q = q
on_message-Quiet msg draws (ended e) c q = q

on_poll-Quiet : (phase : Phase) (c : Conn) → Quiet c → Quiet (on_poll phase c).1
unfolding on_poll
on_poll-Quiet (waiting this rx) c q = resume-Quiet rx c q
on_poll-Quiet fresh c q = q
on_poll-Quiet (serving this) c q = q
on_poll-Quiet drawing c q = q
on_poll-Quiet (ended e) c q = q

insert-Told_nothing :
    (k : ℕ) (conn : Connection) (connections : Assoc Connection)
    → All IsPlain conn.messenger.written
    → ((i : ℕ) → ToldNothing (lookup i connections))
    → (i : ℕ) → ToldNothing (lookup i (insert k conn connections))
insert-Told_nothing k conn connections h all i = elim (Bool-cases (k == i)) [
  | inl e ↦ rw (lookup-insert k i conn connections, e) h
  | inr e ↦ rw (lookup-insert k i conn connections, e) (all i)
]

at_connection-IsQuiet :
    (i : ℕ) (f : Phase → Conn → Phase × Conn) (s : Server)
    → ((phase : Phase) (c : Conn) → Quiet c → Quiet (f phase c).1)
    → IsQuiet s
    → IsQuiet (at_connection i f s)
unfolding at_connection
at_connection-IsQuiet i f s keeps (v, told) = elim (Option-cases (lookup i s.connections)) [
  | inl e ↦ rw (e, at_connection) (v, told)
  | inr (conn, e) ↦
      let c : Conn = record { state = s.state; messenger = conn.messenger } in
      let q = keeps conn.phase c (v, subst ToldNothing e (told i)) in
      rw (e, at_connection) (q.0, insert-Told_nothing i _ s.connections q.1 told)
]

pub on_event-IsQuiet : (e : Event) (s : Server) → IsQuiet s → IsQuiet (on_event e s)
unfolding on_event accept
on_event-IsQuiet (accepts i writes peer_addr) s (v, told) =
    (v, insert-Told_nothing i _ s.connections tt told)
on_event-IsQuiet (receives i msg draws) s q =
    at_connection-IsQuiet i (on_message msg draws) s (on_message-Quiet msg draws) q
on_event-IsQuiet (polls i) s q = at_connection-IsQuiet i on_poll s on_poll-Quiet q
on_event-IsQuiet (wakes i) s (v, told) = (wake-NoSender i s.state v, told)
on_event-IsQuiet (elapses seconds) s (v, told) = (elapse-NoSender seconds s.state v, told)

run-IsQuiet : (es : List Event) (s : Server) → IsQuiet s → IsQuiet (run es s)
unfolding run
run-IsQuiet [] s q = q
run-IsQuiet (e ∷ es) s q = run-IsQuiet es (on_event e s) (on_event-IsQuiet e s q)

pub new_server-IsQuiet : IsQuiet new_server
unfolding new_server lookup
new_server-IsQuiet = (new_state-NoSender, λ i. tt)

-- Whatever clients connect, send and await, in whatever order, no connection of the server is ever
-- sent SharePeerContacts.
pub no_contacts_shared :
    (es : List Event) (i : ℕ) (conn : Connection)
    → lookup i (run es new_server).connections ≡ some conn
    → All IsPlain conn.messenger.written
no_contacts_shared es i conn e =
    subst ToldNothing e ((run-IsQuiet es new_server new_server-IsQuiet).1 i)
