-- ===== src/HolePunch/State/Runs.antt =====
-- Sequences of the operations of gday_hole_punch/src/server/global_state.rs, in any order and from
-- any clients: each runs under the lock.
use gday_old.Base.{ℕ, ◌+◌, ◌≡◌, ◌≢◌, Bool, Option, none, some, List, [], ◌∷◌, ◌⊎◌, subst}
use gday_old.Base.Assoc.{lookup}
use gday_old.HolePunch.Contact.{SocketAddr, FullContact}
use gday_old.HolePunch.State.{
  State, sent, new_state, create_room, update_client, set_client_done, block, blocked_timeout, wake,
  elapse,
}
use gday_old.HolePunch.State.NoSender.{
  Ensures, Gives, NoSender, IsSilent, new_state-NoSender, create_room-NoSender,
  update_client-NoSender, set_client_done-NoSender, wake-NoSender, elapse-NoSender, block-NoSender,
}
use gday_old.HolePunch.State.Expiry.{
  Expires, Expiring, new_state-Expiring, create_room-Expiring, update_client-Expiring,
  set_client_done-Expiring, wake-Expiring, elapse-Expiring, block-Expiring,
}

-- The operations of a handler, and what the runtime does in between.
pub data Op : Type 0 where
  creates : List ℕ → Op
  updates : ℕ → Bool → SocketAddr → Bool → Op
  completes : ℕ → Bool → Op
  blocks : ℕ → Op
  wakes : ℕ → Op
  elapses : ℕ → Op

abbrev pub after {ℓ} : {A : Type ℓ} → State → Option (A × State) → State
after s none = s
after s (some (a, s')) = s'

abbrev pub or_same : State → Option State → State
or_same s none = s
or_same s (some s') = s'

unfoldable pub apply : Op → State → State
apply (creates draws) s = after s (create_room draws s)
apply (updates room_id is_creator endpoint is_public) s =
    or_same s (update_client room_id is_creator endpoint is_public s)
apply (completes room_id is_creator) s = after s (set_client_done room_id is_creator s)
apply (blocks addr) s = blocked_timeout addr (block addr s)
apply (wakes i) s = wake i s
apply (elapses seconds) s = elapse seconds s

unfoldable pub run : List Op → State → State
unfolding apply
run [] s = s
run (op ∷ ops) s = run ops (apply op s)

-- What is kept where an operation succeeds is kept by the operation.
after-keeps {ℓ} :
    {A : Type ℓ} (P : State → Type 0) (s : State) (o : Option (A × State))
    → P s
    → Ensures P o
    → P (after s o)
after-keeps P s none p h = p
after-keeps P s (some (a, s')) p h = h

or_same-keeps :
    (P : State → Type 0) (s : State) (o : Option State) → P s → Gives P o → P (or_same s o)
or_same-keeps P s none p h = p
or_same-keeps P s (some s') p h = h

pub apply-NoSender : (op : Op) (s : State) → NoSender s → NoSender (apply op s)
unfolding apply
apply-NoSender (creates draws) s v = after-keeps NoSender s _ v (create_room-NoSender draws s v)
apply-NoSender (updates room_id is_creator endpoint is_public) s v =
    or_same-keeps NoSender s _ v (update_client-NoSender room_id is_creator endpoint is_public s v)
apply-NoSender (completes room_id is_creator) s v =
    after-keeps NoSender s _ v (set_client_done-NoSender room_id is_creator s v)
apply-NoSender (blocks addr) s v = block-NoSender addr s v
apply-NoSender (wakes i) s v = wake-NoSender i s v
apply-NoSender (elapses seconds) s v = elapse-NoSender seconds s v

apply-Expiring : (op : Op) (s : State) → Expiring s → Expiring (apply op s)
unfolding apply
apply-Expiring (creates draws) s v = after-keeps Expiring s _ v (create_room-Expiring draws s v)
apply-Expiring (updates room_id is_creator endpoint is_public) s v =
    or_same-keeps Expiring s _ v (update_client-Expiring room_id is_creator endpoint is_public s v)
apply-Expiring (completes room_id is_creator) s v =
    after-keeps Expiring s _ v (set_client_done-Expiring room_id is_creator s v)
apply-Expiring (blocks addr) s v = block-Expiring addr s v
apply-Expiring (wakes i) s v = wake-Expiring i s v
apply-Expiring (elapses seconds) s v = elapse-Expiring seconds s v

run-NoSender : (ops : List Op) (s : State) → NoSender s → NoSender (run ops s)
unfolding run
run-NoSender [] s v = v
run-NoSender (op ∷ ops) s v = run-NoSender ops (apply op s) (apply-NoSender op s v)

run-Expiring : (ops : List Op) (s : State) → Expiring s → Expiring (run ops s)
unfolding run
run-Expiring [] s v = v
run-Expiring (op ∷ ops) s v = run-Expiring ops (apply op s) (apply-Expiring op s v)

-- After any sequence of operations from the empty state, a room that exists has a task pending that
-- removes it, due within ten minutes from then.
pub rooms_expire :
    (ops : List Op) (room_id : ℕ)
    → let s = run ops new_state in
      (lookup room_id s.rooms ≡ none) ⊎ Expires room_id (s.now + 600) s.timers
rooms_expire ops = run-Expiring ops new_state new_state-Expiring

-- No sequence of operations, by any number of clients, puts contacts into a channel: every receiver
-- that `set_client_done` has returned is empty or closed.
pub never_sent :
    (ops : List Op) (rx : ℕ) (mine theirs : FullContact)
    → lookup rx (run ops new_state).channels ≢ some (sent mine theirs)
never_sent ops rx mine theirs e =
    subst IsSilent e ((run-NoSender ops new_state new_state-NoSender).channels_silent rx)
