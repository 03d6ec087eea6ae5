-- ===== src/HolePunch/Throttle/Races.antt =====
-- What gday_hole_punch/src/server.rs does with a client that connects while its address is blocked, and
-- while its held stream is being handed on.
use gday_old.Base.{
  ℕ, ◌≤◌, ◌≡◌, refl, ◌∙◌, ap, Bool, true, false, Option, none, some, [], ◌∷◌, le→leb, get_elem?,
  arith,
}
use gday_old.Base.Assoc.{Assoc, lookup, insert, remove, lookup-insert, lookup-remove}
use gday_old.HolePunch.Throttle.{
  Stream, Wakeup, Throttle, serve_client, block_and_serve, on_enter, loop_waits, on_accept,
  serve_held, take_wakeup, unblock, on_wake, accepts, enters, wakes, on_event, run,
}

accept_blocked :
    (stream : Stream) (peer_ok : Bool) (g : Throttle) (o : Option Stream)
    → lookup stream.ip g.blocked ≡ some o
    → on_accept (some stream) peer_ok g
      ≡ record g { blocked = insert stream.ip (some stream) g.blocked }
unfolding on_accept
accept_blocked stream peer_ok g o e = rw (e, on_accept)

accept_open :
    (stream : Stream) (g : Throttle)
    → lookup stream.ip g.blocked ≡ none
    → on_accept (some stream) true g
      ≡ record g { entering = record { stream = stream; by_loop = true } ∷ g.entering }
unfolding on_accept serve_client
accept_open stream g e = rw (e, on_accept) refl

wake_held :
    (i : ℕ) (w : Wakeup) (stream : Stream) (g : Throttle)
    → get_elem? g.wakeups i ≡ some w
    → w.deadline ≤ g.now
    → lookup w.ip g.blocked ≡ some (some stream)
    → on_wake i true g ≡ record g {
      wakeups = take_wakeup i g.wakeups;
      blocked = remove w.ip g.blocked;
      entering = record { stream = stream; by_loop = false } ∷ g.entering;
    }
unfolding on_wake unblock serve_client
wake_held i w stream g e due held =
    simp (e, on_wake, le→leb w.deadline g.now due) (simp (held, serve_held))

insert_self :
    (k : ℕ) (v : Option Stream) (m : Assoc (Option Stream)) → lookup k (insert k v m) ≡ some v
insert_self k v m = ground (arith, lookup-insert k k v m)

remove_self : (k : ℕ) (m : Assoc (Option Stream)) → lookup k (remove k m) ≡ none
remove_self k m = ground (arith, lookup-remove k k m)

-- While an address is blocked, what it connects with is not served but held in place of what was
-- held before. When a task of the address wakes that is due, and the streams' addresses are known,
-- the stream that connected last is handed on, and once the task has the lock again it is served and
-- its address is blocked again.
pub held_served :
    (older newer ip i deadline : ℕ) (g : Throttle) (o : Option Stream)
    → lookup ip g.blocked ≡ some o
    → get_elem? g.wakeups i ≡ some (record { ip = ip; deadline = deadline })
    → deadline ≤ g.now
    → let last : Stream = record { id = newer; ip = ip } in
      let g' =
        on_accept (some last) true (on_accept (some (record { id = older; ip = ip })) true g) in
      let g'' = on_enter 0 (on_wake i true g') in
      (g'.served ≡ g.served)
      × (g''.served ≡ record { stream = last; time = g.now } ∷ g.served)
      × (lookup ip g''.blocked ≡ some none)
unfolding on_enter block_and_serve
held_served older newer ip i deadline g o blocked e due =
    let first : Stream = record { id = older; ip = ip } in
    let last : Stream = record { id = newer; ip = ip } in
    let held_first : Throttle = record g { blocked = insert ip (some first) g.blocked } in
    let held_last : Throttle = record g { blocked = insert ip (some last) held_first.blocked } in
    let accepted =
      ap (on_accept (some last) true) (accept_blocked first true g o blocked)
      ∙ accept_blocked last true held_first (some first) (insert_self ip (some first) g.blocked) in
    let woken =
      ap (on_wake i true) accepted
      ∙ wake_held i (record { ip = ip; deadline = deadline }) last held_last e due
          (insert_self ip (some last) held_first.blocked) in
    (
      ap (λ x. x.served) accepted,
      ap (λ x. (on_enter 0 x).served) woken,
      ap (λ x. lookup ip (on_enter 0 x).blocked) woken
          ∙ insert_self ip none (remove ip held_last.blocked),
    )

-- The task of a blocked address is due and wakes while a stream of the address is held, and the address connects again before
-- the task has the lock a second time, with the loop waiting for a connection. Then both streams are
-- served at the same time: the address is not held back.
pub served_twice :
    (older newer ip i deadline : ℕ) (g : Throttle)
    → lookup ip g.blocked ≡ some (some (record { id = older; ip = ip }))
    → get_elem? g.wakeups i ≡ some (record { ip = ip; deadline = deadline })
    → deadline ≤ g.now
    → loop_waits g.entering ≡ false
    → let first : Stream = record { id = older; ip = ip } in
      let second : Stream = record { id = newer; ip = ip } in
      (run (wakes i true ∷ accepts (some second) true ∷ enters 1 ∷ enters 0 ∷ []) g).served
      ≡ record { stream = second; time = g.now }
        ∷ record { stream = first; time = g.now }
        ∷ g.served
unfolding run on_event on_enter block_and_serve
served_twice older newer ip i deadline g held e due idle =
    let first : Stream = record { id = older; ip = ip } in
    let second : Stream = record { id = newer; ip = ip } in
    let opened : Throttle = record g {
      wakeups = take_wakeup i g.wakeups;
      blocked = remove ip g.blocked;
      entering = record { stream = first; by_loop = false } ∷ g.entering;
    } in
    rw
      (
        wake_held i (record { ip = ip; deadline = deadline }) first g e due held,
        idle,
        accept_open second opened (remove_self ip g.blocked),
      )
      refl
