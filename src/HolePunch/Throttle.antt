-- ===== src/HolePunch/Throttle.antt =====
-- gday_hole_punch/src/server.rs: how `run` and `serve_client` hold back a client that connects again
-- within five seconds. A stream is a number with its peer's address; handing it to the TLS acceptor
-- and the handler is an entry of `served`. Each event is what happens under one hold of the lock, so
-- that other events may come between the test or the removal and the insertion. Times are in seconds.
pub mod Calls
pub mod Spacing
pub mod Races
use gday_old.Base.{
  ℕ, zero, suc, ◌+◌, Bool, true, false, ◌||◌, Option, none, some, List, [], ◌∷◌, if◌then◌else◌, leb,
  get_elem?,
}
use gday_old.Base.Assoc.{Assoc, lookup, insert, remove}

pub record Stream : Type 0 where
  pub id : ℕ
  pub ip : ℕ

pub record Wakeup : Type 0 where
  pub ip : ℕ
  pub deadline : ℕ

pub record Served : Type 0 where
  pub stream : Stream
  pub time : ℕ

-- A call of `serve_client` that has not got the lock yet: the loop's, or that of a task.
pub record Entering : Type 0 where
  pub stream : Stream
  pub by_loop : Bool

-- `blocked` is the map of the global data; `entering` and `served` are newest first.
pub record Throttle : Type 0 where
  pub blocked : Assoc (Option Stream)
  pub wakeups : List Wakeup
  pub entering : List Entering
  pub served : List Served
  pub now : ℕ

unfoldable pub new_throttle : Throttle
new_throttle = record { blocked = []; wakeups = []; entering = []; served = []; now = 0 }

-- `serve_client` up to the lock; the flag says whether `peer_addr` succeeds.
unfoldable pub serve_client : Bool → Bool → Stream → Throttle → Throttle
serve_client by_loop false stream g = g
serve_client by_loop true stream g = record g {
  entering = record { stream = stream; by_loop = by_loop } ∷ g.entering;
}

-- `serve_client` from the lock on: the address is blocked, a task is spawned that wakes in five
-- seconds, and the stream is served.
unfoldable pub block_and_serve : Stream → Throttle → Throttle
block_and_serve stream g = record g {
  blocked = insert stream.ip none g.blocked;
  wakeups = record { ip = stream.ip; deadline = g.now + 5 } ∷ g.wakeups;
  served = record { stream = stream; time = g.now } ∷ g.served;
}

abbrev pub take_entering : ℕ → List Entering → List Entering
take_entering i [] = []
take_entering zero (e ∷ es) = es
take_entering (suc i) (e ∷ es) = e ∷ take_entering i es

-- The call at place `i` gets the lock.
unfoldable pub on_enter : ℕ → Throttle → Throttle
unfolding block_and_serve
on_enter i g = elim (get_elem? g.entering i) [
  | none ↦ g
  | some e ↦ block_and_serve e.stream (record g { entering = take_entering i g.entering })
]

-- Whether the loop of `run` is still in `serve_client`.
abbrev pub loop_waits : List Entering → Bool
loop_waits [] = false
loop_waits (e ∷ es) = e.by_loop || loop_waits es

-- A round of the loop of `run`, with the test under the lock; `none` is an error of `accept`. A
-- blocked address keeps the newest stream only.
unfoldable pub on_accept : Option Stream → Bool → Throttle → Throttle
unfolding serve_client
on_accept none peer_ok g = g
on_accept (some stream) peer_ok g = elim (lookup stream.ip g.blocked) [
  | some held ↦ record g { blocked = insert stream.ip (some stream) g.blocked }
  | none ↦ serve_client true peer_ok stream g
]

-- `if let Some(Some(tcp_stream)) = maybe_stream`.
unfoldable pub serve_held : Bool → Option (Option Stream) → Throttle → Throttle
unfolding serve_client
serve_held peer_ok none g = g
serve_held peer_ok (some none) g = g
serve_held peer_ok (some (some stream)) g = serve_client false peer_ok stream g

abbrev pub take_wakeup : ℕ → List Wakeup → List Wakeup
take_wakeup i [] = []
take_wakeup zero (w ∷ ws) = ws
take_wakeup (suc i) (w ∷ ws) = w ∷ take_wakeup i ws

-- The task behind its sleep.
unfoldable pub unblock : Bool → ℕ → Throttle → Throttle
unfolding serve_held
unblock peer_ok ip g =
    serve_held peer_ok (lookup ip g.blocked) (record g { blocked = remove ip g.blocked })

-- The runtime wakes the task at place `i`, if its time has come.
unfoldable pub on_wake : ℕ → Bool → Throttle → Throttle
unfolding unblock
on_wake i peer_ok g = elim (get_elem? g.wakeups i) [
  | none ↦ g
  | some w ↦
      if leb w.deadline g.now
      then unblock peer_ok w.ip (record g { wakeups = take_wakeup i g.wakeups })
      else g
]

pub data Event : Type 0 where
  accepts : Option Stream → Bool → Event
  enters : ℕ → Event
  wakes : ℕ → Bool → Event
  elapses : ℕ → Event

-- The loop does not accept while it is in `serve_client`.
unfoldable pub on_event : Event → Throttle → Throttle
unfolding on_accept
on_event (accepts stream peer_ok) g =
    if loop_waits g.entering then g else on_accept stream peer_ok g
on_event (enters i) g = on_enter i g
on_event (wakes i peer_ok) g = on_wake i peer_ok g
on_event (elapses seconds) g = record g { now = g.now + seconds }

unfoldable pub run : List Event → Throttle → Throttle
unfolding on_event
run [] g = g
run (e ∷ es) g = run es (on_event e g)
