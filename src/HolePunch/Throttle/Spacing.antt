-- ===== src/HolePunch/Throttle/Spacing.antt =====
-- The rate at which gday_hole_punch/src/server.rs serves one address.
use gday_old.Base.{
  ℕ, zero, suc, ◌+◌, ◌≤◌, ◌≡◌, ◌≢◌, refl, sym, ◌∙◌, ap, subst, Bool, true, false, Option, none,
  some, List, [], ◌∷◌, ◌==◌, ==_iff, leb, leb→le, get_elem?, All, arith, Option-cases, Bool-cases,
  inl, inr,
}
use gday_old.Base.Assoc.{Assoc, lookup, insert, remove, lookup-insert, lookup-remove}
use gday_old.HolePunch.Throttle.Calls.{
  NotEntering, Apart, Opened, Opened-insert, Opened-remove, blocked-NotEntering,
  take_entering-Taken,
}
use gday_old.HolePunch.Throttle.{
  Stream, Wakeup, Served, Throttle, new_throttle, serve_client, block_and_serve, take_entering,
  on_enter, enters, loop_waits, on_accept, serve_held, take_wakeup, unblock, on_wake, Event,
  accepts, wakes, elapses, on_event, run,
}

-- Every service of the address began five seconds before `limit` at the latest.
abbrev pub Before : ℕ → ℕ → List Served → Type 0
Before ip limit [] = Unit
Before ip limit (s ∷ ss) = (s.stream.ip ≡ ip → s.time + 5 ≤ limit) × Before ip limit ss

-- Two services of one address are five seconds apart at least.
abbrev pub Spaced : List Served → Type 0
Spaced [] = Unit
Spaced (s ∷ ss) = Before s.stream.ip s.time ss × Spaced ss

-- No task is pending for the address.
abbrev pub NoWakeup : ℕ → List Wakeup → Type 0
NoWakeup ip [] = Unit
NoWakeup ip (w ∷ ws) = (w.ip ≢ ip) × NoWakeup ip ws

-- One task an address, due five seconds behind its services.
abbrev pub Ordered : List Served → List Wakeup → Type 0
Ordered ss [] = Unit
Ordered ss (w ∷ ws) = Before w.ip w.deadline ss × NoWakeup w.ip ws × Ordered ss ws

-- A stream is held under its own address.
abbrev pub HeldAt : ℕ → Option (Option Stream) → Type 0
HeldAt ip none = Unit
HeldAt ip (some none) = Unit
HeldAt ip (some (some stream)) = stream.ip ≡ ip

-- An address that is not blocked has no task pending and may be served.
abbrev pub Free : ℕ → Throttle → Type 0
Free ip g = NoWakeup ip g.wakeups × Before ip g.now g.served

pub record Inv (g : Throttle) : Type 0 where
  pub free : (ip : ℕ) → lookup ip g.blocked ≡ none → Free ip g
  pub held : (ip : ℕ) → HeldAt ip (lookup ip g.blocked)
  pub ordered : Ordered g.served g.wakeups
  pub spaced : Spaced g.served
  pub opened : All (Opened g.blocked) g.entering
  pub apart : Apart g.entering

abbrev pub Alone : Event → Throttle → Type 0
Alone (accepts none peer_ok) g = Unit
Alone (accepts (some stream) peer_ok) g = NotEntering stream.ip g.entering
Alone (enters i) g = Unit
Alone (wakes i peer_ok) g = Unit
Alone (elapses seconds) g = Unit

-- No accept falls between the removal of its address and the insertion behind it.
abbrev pub Undisturbed : List Event → Throttle → Type 0
Undisturbed [] g = Unit
Undisturbed (e ∷ es) g = Alone e g × Undisturbed es (on_event e g)

Before-mono : (ip m n : ℕ) (ss : List Served) → m ≤ n → Before ip m ss → Before ip n ss
Before-mono ip m n [] h b = tt
Before-mono ip m n (s ∷ ss) h (b, bs) = (λ e. ground (arith, b e), Before-mono ip m n ss h bs)

-- A new service of another address changes nothing for the tasks that are there.
Ordered-cons :
    (s : Served) (ss : List Served) (ws : List Wakeup)
    → NoWakeup s.stream.ip ws
    → Ordered ss ws
    → Ordered (s ∷ ss) ws
Ordered-cons s ss [] n o = tt
Ordered-cons s ss (w ∷ ws) (n, ns) (b, u, os) =
    ((λ e. absurd (n (sym e)), b), u, Ordered-cons s ss ws ns os)

not_inserted :
    (k ip : ℕ) (o : Option Stream) (m : Assoc (Option Stream))
    → lookup ip (insert k o m) ≡ none
    → (k ≢ ip) × (lookup ip m ≡ none)
not_inserted k ip o m gone = ground (arith, lookup-insert k ip o m)

insert-HeldAt :
    (k : ℕ) (o : Option Stream) (m : Assoc (Option Stream))
    → HeldAt k (some o)
    → ((ip : ℕ) → HeldAt ip (lookup ip m))
    → (ip : ℕ) → HeldAt ip (lookup ip (insert k o m))
insert-HeldAt k o m h all ip = elim (Bool-cases (k == ip)) [
  | inl e ↦ rw (lookup-insert k ip o m, e) (subst (λ i. HeldAt i (some o)) ((==_iff k ip).0 e) h)
  | inr e ↦ rw (lookup-insert k ip o m, e) (all ip)
]

remove-HeldAt :
    (k : ℕ) (m : Assoc (Option Stream))
    → ((ip : ℕ) → HeldAt ip (lookup ip m))
    → (ip : ℕ) → HeldAt ip (lookup ip (remove k m))
remove-HeldAt k m all ip = elim (Bool-cases (k == ip)) [
  | inl e ↦ rw (lookup-remove k ip m, e) tt
  | inr e ↦ rw (lookup-remove k ip m, e) (all ip)
]

serve_client-Inv :
    (by_loop peer_ok : Bool) (stream : Stream) (g : Throttle)
    → lookup stream.ip g.blocked ≡ none
    → NotEntering stream.ip g.entering
    → Inv g
    → Inv (serve_client by_loop peer_ok stream g)
unfolding serve_client
serve_client-Inv by_loop false stream g e n v = v
serve_client-Inv by_loop true stream g e n v = record {
  free = v.free;
  held = v.held;
  ordered = v.ordered;
  spaced = v.spaced;
  opened = (e, v.opened);
  apart = (n, v.apart);
}

block_and_serve-Inv :
    (stream : Stream) (g : Throttle)
    → lookup stream.ip g.blocked ≡ none
    → NotEntering stream.ip g.entering
    → Inv g
    → Inv (block_and_serve stream g)
unfolding block_and_serve
block_and_serve-Inv stream g e others v =
    let (n, b) = v.free stream.ip e in
    record {
      free = λ ip gone.
          let (other, absent) = not_inserted stream.ip ip none g.blocked gone in
          let (ns, bs) = v.free ip absent in ((other, ns), ((λ same. absurd (other same)), bs));
      held = insert-HeldAt stream.ip none g.blocked tt v.held;
      ordered = (
        ((λ _. omega arith), Before-mono stream.ip g.now (g.now + 5) g.served (omega arith) b),
        n,
        Ordered-cons (record { stream = stream; time = g.now }) g.served g.wakeups n v.ordered,
      );
      spaced = (b, v.spaced);
      opened = Opened-insert stream.ip none g.blocked g.entering others v.opened;
      apart = v.apart;
    }

on_enter-Inv : (i : ℕ) (g : Throttle) → Inv g → Inv (on_enter i g)
unfolding on_enter
on_enter-Inv i g v = elim (Option-cases (get_elem? g.entering i)) [
  | inl e ↦ rw (e, on_enter) v
  | inr (x, e) ↦
      let t = take_entering-Taken g.blocked i g.entering x e v.opened v.apart in
      rw (e, on_enter)
        (block_and_serve-Inv x.stream (record g { entering = take_entering i g.entering })
          t.open_yet t.others
          (record {
            free = v.free;
            held = v.held;
            ordered = v.ordered;
            spaced = v.spaced;
            opened = t.opened;
            apart = t.apart;
          }))
]

on_accept-Inv :
    (stream : Stream) (peer_ok : Bool) (g : Throttle)
    → NotEntering stream.ip g.entering
    → Inv g
    → Inv (on_accept (some stream) peer_ok g)
unfolding on_accept
on_accept-Inv stream peer_ok g n v = elim (Option-cases (lookup stream.ip g.blocked)) [
  | inl e ↦ rw (e, on_accept) (serve_client-Inv true peer_ok stream g e n v)
  | inr (o, e) ↦
      rw (e, on_accept)
        (record {
          free = λ ip gone. v.free ip (not_inserted stream.ip ip (some stream) g.blocked gone).1;
          held = insert-HeldAt stream.ip (some stream) g.blocked refl v.held;
          ordered = v.ordered;
          spaced = v.spaced;
          opened = Opened-insert stream.ip (some stream) g.blocked g.entering n v.opened;
          apart = v.apart;
        })
]

take_wakeup-NoWakeup :
    (i ip : ℕ) (ws : List Wakeup) → NoWakeup ip ws → NoWakeup ip (take_wakeup i ws)
take_wakeup-NoWakeup i ip [] n = tt
take_wakeup-NoWakeup zero ip (w ∷ ws) (n, ns) = ns
take_wakeup-NoWakeup (suc i) ip (w ∷ ws) (n, ns) = (n, take_wakeup-NoWakeup i ip ws ns)

-- Taking out a task leaves none for its address, and shows when the address was served.
taken :
    (i : ℕ) (ss : List Served) (ws : List Wakeup) (w : Wakeup)
    → get_elem? ws i ≡ some w
    → Ordered ss ws
    → Before w.ip w.deadline ss × NoWakeup w.ip (take_wakeup i ws) × Ordered ss (take_wakeup i ws)
taken i ss [] w e o = cc
taken zero ss (u ∷ ws) w e (b, n, os) =
    let same : u ≡ w = cc e in
    (subst (λ x. Before x.ip x.deadline ss) same b, subst (λ x. NoWakeup x.ip ws) same n, os)
taken (suc i) ss (u ∷ ws) w e (b, n, os) =
    let (b', n', os') = taken i ss ws w e os in
    (b', (λ same. kept i ws w e n same, n'), (b, take_wakeup-NoWakeup i u.ip ws n, os'))
  where
    kept :
        (i : ℕ) (ws : List Wakeup) (w : Wakeup)
        → get_elem? ws i ≡ some w
        → NoWakeup u.ip ws
        → u.ip ≢ w.ip
    kept i [] w e n = cc
    kept zero (x ∷ ws) w e (n, ns) =
        λ same. let first : x ≡ w = cc e in n (ap (λ z. z.ip) first ∙ sym same)
    kept (suc i) (x ∷ ws) w e (n, ns) = kept i ws w e ns

serve_held-Inv :
    (peer_ok : Bool) (ip : ℕ) (held : Option (Option Stream)) (g : Throttle)
    → HeldAt ip held
    → lookup ip g.blocked ≡ none
    → (held ≢ none → NotEntering ip g.entering)
    → Inv g
    → Inv (serve_held peer_ok held g)
unfolding serve_held
serve_held-Inv peer_ok ip none g h e n v = v
serve_held-Inv peer_ok ip (some none) g h e n v = v
serve_held-Inv peer_ok ip (some (some stream)) g h e n v =
    serve_client-Inv false peer_ok stream g (ap (λ i. lookup i g.blocked) h ∙ e)
      (subst (λ i. NotEntering i g.entering) (sym h) (n (λ gone. cc))) v

-- An address whose task was taken out, due, is free once it is unblocked.
unblock-Inv :
    (peer_ok : Bool) (i : ℕ) (w : Wakeup) (g : Throttle)
    → get_elem? g.wakeups i ≡ some w
    → w.deadline ≤ g.now
    → Inv g
    → Inv (unblock peer_ok w.ip (record g { wakeups = take_wakeup i g.wakeups }))
unfolding unblock
unblock-Inv peer_ok i w g e due v =
    let (b, n, os) = taken i g.served g.wakeups w e v.ordered in
    let opened : Throttle = record g {
      wakeups = take_wakeup i g.wakeups;
      blocked = remove w.ip g.blocked;
    } in
    serve_held-Inv peer_ok w.ip (lookup w.ip g.blocked) opened (v.held w.ip)
      (ground (arith, lookup-remove w.ip w.ip g.blocked)) (was_blocked (lookup w.ip g.blocked) refl)
      (record {
        free = λ ip gone. freed ip gone n b;
        held = remove-HeldAt w.ip g.blocked v.held;
        ordered = os;
        spaced = v.spaced;
        opened = Opened-remove w.ip g.blocked g.entering v.opened;
        apart = v.apart;
      })
  where
    was_blocked :
        (o : Option (Option Stream))
        → lookup w.ip g.blocked ≡ o
        → (o ≢ none → NotEntering w.ip g.entering)
    was_blocked none e' = λ h. absurd (h refl)
    was_blocked (some held) e' = λ _. blocked-NotEntering w.ip held g.blocked g.entering e' v.opened

    freed :
        (ip : ℕ)
        → lookup ip (remove w.ip g.blocked) ≡ none
        → NoWakeup w.ip (take_wakeup i g.wakeups)
        → Before w.ip w.deadline g.served
        → NoWakeup ip (take_wakeup i g.wakeups) × Before ip g.now g.served
    freed ip gone n b = elim (Bool-cases (w.ip == ip)) [
      | inl e' ↦
          let same = (==_iff w.ip ip).0 e' in
          (
            subst (λ a. NoWakeup a (take_wakeup i g.wakeups)) same n,
            subst (λ a. Before a g.now g.served) same
                (Before-mono w.ip w.deadline g.now g.served due b),
          )
      | inr e' ↦
          let (ns, bs) = v.free ip (ground (arith, lookup-remove w.ip ip g.blocked)) in
          (take_wakeup-NoWakeup i ip g.wakeups ns, bs)
    ]

on_wake-Inv : (i : ℕ) (peer_ok : Bool) (g : Throttle) → Inv g → Inv (on_wake i peer_ok g)
unfolding on_wake
on_wake-Inv i peer_ok g v = elim (Option-cases (get_elem? g.wakeups i)) [
  | inl e ↦ rw (e, on_wake) v
  | inr (w, e) ↦ elim (Bool-cases (leb w.deadline g.now)) [
    | inl due ↦ rw (e, on_wake, due) (unblock-Inv peer_ok i w g e (leb→le w.deadline g.now due) v)
    | inr early ↦ rw (e, on_wake, early) v
  ]
]

on_event-Inv : (e : Event) (g : Throttle) → Alone e g → Inv g → Inv (on_event e g)
unfolding on_event
on_event-Inv (accepts none peer_ok) g n v = elim (Bool-cases (loop_waits g.entering)) [
  | inl busy ↦ rw (busy) v
  | inr idle ↦ rw (idle) (unfold on_accept in v)
]
on_event-Inv (accepts (some stream) peer_ok) g n v = elim (Bool-cases (loop_waits g.entering)) [
  | inl busy ↦ rw (busy) v
  | inr idle ↦ rw (idle) (on_accept-Inv stream peer_ok g n v)
]
on_event-Inv (enters i) g n v = on_enter-Inv i g v
on_event-Inv (wakes i peer_ok) g n v = on_wake-Inv i peer_ok g v
on_event-Inv (elapses seconds) g n v = record {
  free = λ ip gone.
      let (n, b) = v.free ip gone in
      (n, Before-mono ip g.now (g.now + seconds) g.served (omega arith) b);
  held = v.held;
  ordered = v.ordered;
  spaced = v.spaced;
  opened = v.opened;
  apart = v.apart;
}

run-Inv : (es : List Event) (g : Throttle) → Undisturbed es g → Inv g → Inv (run es g)
unfolding run
run-Inv [] g n v = v
run-Inv (e ∷ es) g (n, ns) v = run-Inv es (on_event e g) ns (on_event-Inv e g n v)

new_throttle-Inv : Inv new_throttle
unfolding new_throttle lookup
new_throttle-Inv = record {
  free = λ ip _. (tt, tt);
  held = λ ip. tt;
  ordered = tt;
  spaced = tt;
  opened = tt;
  apart = tt;
}

-- Whatever connects, in whatever order the tasks wake and get the lock: if no accepted stream meets a
-- call of `serve_client` for its own address that has not got the lock yet, one address is served
-- again five seconds later at the earliest.
pub served-Spaced :
    (es : List Event) → Undisturbed es new_throttle → Spaced (run es new_throttle).served
served-Spaced es h = (run-Inv es new_throttle h new_throttle-Inv).spaced
