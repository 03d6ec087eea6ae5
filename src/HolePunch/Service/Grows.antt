-- ===== src/HolePunch/Service/Grows.antt =====
-- What gday_hole_punch/src/server.rs has served stays in the list of what it has served.
use mathlib.Core.List.{Memᴰ}
use gday_old.Base.{
  ℕ, zero, suc, ◌≡◌, refl, Bool, true, false, Option, none, some, List, [], ◌∷◌, ◌++◌, map, take,
  All, leb, get_elem?, Option-cases, Bool-cases, inl, inr,
}
use gday_old.Base.Assoc.{lookup}
use gday_old.HolePunch.Throttle.{
  Stream, Served, Throttle, serve_client, block_and_serve, on_enter, loop_waits, on_accept,
  serve_held, unblock, on_wake, Event, accepts, enters, wakes, elapses, on_event,
}

abbrev pub streams : List Served → List Stream
streams served = map (λ (s : Served). s.stream) served

abbrev pub WasServed : List Served → Stream → Type 0
WasServed served stream = Memᴰ stream (streams served)

-- The list of what has been served only grows.
abbrev pub Grows : List Served → List Served → Type 0
Grows before after = (more : List Served) × (after ≡ more ++ before)

serve_client-served :
    (by_loop peer_ok : Bool) (stream : Stream) (g : Throttle)
    → (serve_client by_loop peer_ok stream g).served ≡ g.served
unfolding serve_client
serve_client-served by_loop false stream g = refl
serve_client-served by_loop true stream g = refl

serve_held-served :
    (peer_ok : Bool) (held : Option (Option Stream)) (g : Throttle)
    → (serve_held peer_ok held g).served ≡ g.served
unfolding serve_held
serve_held-served peer_ok none g = refl
serve_held-served peer_ok (some none) g = refl
serve_held-served peer_ok (some (some stream)) g = serve_client-served false peer_ok stream g

on_accept-served :
    (stream : Option Stream) (peer_ok : Bool) (g : Throttle)
    → (on_accept stream peer_ok g).served ≡ g.served
unfolding on_accept
on_accept-served none peer_ok g = refl
on_accept-served (some stream) peer_ok g = elim (Option-cases (lookup stream.ip g.blocked)) [
  | inl e ↦ rw (on_accept, e) (serve_client-served true peer_ok stream g)
  | inr (held, e) ↦ rw (on_accept, e) refl
]

on_wake-served : (i : ℕ) (peer_ok : Bool) (g : Throttle) → (on_wake i peer_ok g).served ≡ g.served
unfolding on_wake unblock
on_wake-served i peer_ok g = elim (Option-cases (get_elem? g.wakeups i)) [
  | inl e ↦ rw (on_wake, e) refl
  | inr (w, e) ↦ elim (Bool-cases (leb w.deadline g.now)) [
    | inl due ↦ rw (on_wake, e, due) (serve_held-served peer_ok (lookup w.ip g.blocked) _)
    | inr early ↦ rw (on_wake, e, early) refl
  ]
]

-- Only a call of `serve_client` that has the lock serves a stream, and it serves one.
pub on_event-Grows : (e : Event) (g : Throttle) → Grows g.served (on_event e g).served
unfolding on_event on_enter block_and_serve
on_event-Grows (accepts stream peer_ok) g = elim (Bool-cases (loop_waits g.entering)) [
  | inl busy ↦ rw busy ([], refl)
  | inr idle ↦ rw idle ([], on_accept-served stream peer_ok g)
]
on_event-Grows (enters i) g = elim (Option-cases (get_elem? g.entering i)) [
  | inl e ↦ rw (on_enter, e) ([], refl)
  | inr (x, e) ↦ rw (on_enter, e) (record { stream = x.stream; time = g.now } ∷ [], refl)
]
on_event-Grows (wakes i peer_ok) g = ([], on_wake-served i peer_ok g)
on_event-Grows (elapses seconds) g = ([], refl)

mem_later :
    (stream : Stream) (more served : List Served)
    → WasServed served stream
    → WasServed (more ++ served) stream
mem_later stream [] served m = m
mem_later stream (s ∷ more) served m = Memᴰ.tail (mem_later stream more served m)

pub Grows-WasServed :
    (stream : Stream) (before after : List Served)
    → Grows before after
    → WasServed before stream
    → WasServed after stream
Grows-WasServed stream before after (more, e) m = rw e (mem_later stream more before m)

pub taken_served : (n : ℕ) (served : List Served) → All (WasServed served) (streams (take n served))
taken_served zero served = tt
taken_served (suc n) [] = tt
taken_served (suc n) (s ∷ served) =
    (Memᴰ.head refl, All-map_later (streams (take n served)) (taken_served n served))
  where
    All-map_later : (ss : List Stream) → All (WasServed served) ss → All (WasServed (s ∷ served)) ss
    All-map_later [] h = tt
    All-map_later (x ∷ ss) (h, hs) = (Memᴰ.tail h, All-map_later ss hs)

pub All-Grows :
    (before after : List Served) (ss : List Stream)
    → Grows before after
    → All (WasServed before) ss
    → All (WasServed after) ss
All-Grows before after [] g h = tt
All-Grows before after (s ∷ ss) g (h, hs) =
    (Grows-WasServed s before after g h, All-Grows before after ss g hs)
