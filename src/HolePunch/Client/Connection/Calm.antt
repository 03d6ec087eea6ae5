-- ===== src/HolePunch/Client/Connection/Calm.antt =====
-- Behind `ServerConnection::new`, the panics of gday_hole_punch/src/client/contact_sharer.rs and of
-- server_connection.rs are out of reach.
use gday_old.Base.{
  ℕ, ◌≡◌, refl, subst, Bool, true, false, Option, none, some, List, [], ◌∷◌, ◌⊎◌, inl, inr,
}
use gday_old.Base.Outcome.{returns, Result, ok, err}
use gday_old.HolePunch.Contact.{
  SocketAddr, SocketAddrV4, SocketAddrV6, V4, V6, Contact, ServerMessage, SerializationError,
  room_created, room_joined, share_peer_contacts, ClientMessage, send_private_addr, done_sending,
}
use gday_old.HolePunch.Client.{
  ClientError, Line, ServerConnection, Ran, gives, fails, panicked, waits, M, continue_in, ◌>>=◌,
  expect_v6, expect_v4, unless_failed, new_connection, write_as, write_msg, reply_of, next_msg,
  back_v6, back_v4, on_any, on_v6, on_v4, created, create, joined, join, send_private, shared,
  get_peer_connector, PeerConnector,
}
use gday_old.HolePunch.Client.Connection.{
  local_addr_v6, local_addr_v4, as_v6, as_v4, contact_of, get_local_contact,
}

-- A result that is no panic, and a connection that has a line.
abbrev pub NoPanic : {A : Type 0} → Ran A → Type 0
NoPanic (gives a) = Unit {0}
NoPanic (fails e) = Unit {0}
NoPanic panicked = ⊥
NoPanic waits = Unit {0}

abbrev HasLine : ServerConnection → Type 0
HasLine c = ((line : Line) × (c.v6 ≡ some line)) ⊎ ((line : Line) × (c.v4 ≡ some line))

abbrev Safe : {A : Type 0} → Ran A × ServerConnection → Type 0
Safe (r, c) = NoPanic r × HasLine c

bind-Safe :
    {A B : Type 0} (f : A → M B) (x : Ran A × ServerConnection)
    → Safe x
    → ((a : A) (c : ServerConnection) → HasLine c → Safe (f a c))
    → Safe (continue_in f x)
bind-Safe f (gives a, c) (n, h) then_safe = then_safe a c h
bind-Safe f (fails e, c) s then_safe = s
bind-Safe f (panicked, c) (n, h) then_safe = absurd n
bind-Safe f (waits, c) s then_safe = s

back_v6-Safe :
    {A : Type 0} (c : ServerConnection) (x : Ran A × Line) → NoPanic x.0 → Safe (back_v6 c x)
back_v6-Safe c (r, line) n = (n, inl (line, refl))

back_v4-Safe :
    {A : Type 0} (c : ServerConnection) (x : Ran A × Line) → NoPanic x.0 → Safe (back_v4 c x)
back_v4-Safe c (r, line) n = (n, inr (line, refl))

lines : Option Line → Option Line → ServerConnection
lines v6 v4 = record { v6 = v6; v4 = v4 }

module _ {A : Type 0} (f : Line → Ran A × Line) (calm : (line : Line) → NoPanic (f line).0) where
  on_any-lines : (v6 v4 : Option Line) → HasLine (lines v6 v4) → Safe (on_any f (lines v6 v4))
  unfolding on_any lines
  on_any-lines (some line) v4 h = back_v6-Safe (lines (some line) v4) (f line) (calm line)
  on_any-lines none (some line) h = back_v4-Safe (lines none (some line)) (f line) (calm line)
  on_any-lines none none (inl (line, e)) = cc
  on_any-lines none none (inr (line, e)) = cc

  on_any-Safe : (c : ServerConnection) → HasLine c → Safe (on_any f c)
  unfolding lines
  on_any-Safe c h = on_any-lines c.v6 c.v4 h

module _ (f : Line → Ran (Unit {0}) × Line) (calm : (line : Line) → NoPanic (f line).0) where
  each_line :
      (v6 v4 : Option Line)
      → HasLine (lines v6 v4)
      → Safe (on_v6 f (lines v6 v4)) × Safe (on_v4 f (lines v6 v4))
  unfolding on_v6 on_v4 lines
  each_line (some line) (some line') h = (
    back_v6-Safe (lines (some line) (some line')) (f line) (calm line),
    back_v4-Safe (lines (some line) (some line')) (f line') (calm line'),
  )
  each_line (some line) none h =
      (back_v6-Safe (lines (some line) none) (f line) (calm line), (tt, h))
  each_line none (some line) h =
      ((tt, h), back_v4-Safe (lines none (some line)) (f line) (calm line))
  each_line none none h = ((tt, h), (tt, h))

  each-Safe : (c : ServerConnection) → HasLine c → Safe (on_v6 f c) × Safe (on_v4 f c)
  unfolding lines
  each-Safe c h = each_line c.v6 c.v4 h

write_msg_calm : (msg : ClientMessage) (line : Line) → NoPanic (write_msg msg line).0
unfolding write_msg
write_msg_calm msg line = go line.writes
  where
    go : (writes : List (Option SerializationError)) → NoPanic (write_as msg line writes).0
    go [] = tt
    go (none ∷ rest) = tt
    go (some e ∷ rest) = tt

next_msg_calm : (line : Line) → NoPanic (next_msg line).0
unfolding next_msg
next_msg_calm line = go line.replies
  where
    go :
        (replies : List (Result SerializationError ServerMessage))
        → NoPanic (reply_of line replies).0
    go [] = tt
    go (ok msg ∷ rest) = tt
    go (err e ∷ rest) = tt

send_private_calm : (line : Line) → NoPanic (send_private line).0
unfolding send_private
send_private_calm line = go line.local_addr refl
  where
    go : (addr : Result ℕ SocketAddr) → line.local_addr ≡ addr → NoPanic (send_private line).0
    go (ok addr) e = rw (send_private, e) (write_msg_calm (send_private_addr (some addr)) line)
    go (err k) e = rw (send_private, e) tt

created-Safe : (msg : ServerMessage) (c : ServerConnection) → HasLine c → Safe (created msg c)
created-Safe (room_created room_id) c h = (tt, h)
created-Safe room_joined c h = (tt, h)
created-Safe (share_peer_contacts client peer) c h = (tt, h)
created-Safe ServerMessage.syntax_error c h = (tt, h)
created-Safe ServerMessage.error_no_such_room_id c h = (tt, h)

joined-Safe : (msg : ServerMessage) (c : ServerConnection) → HasLine c → Safe (joined msg c)
joined-Safe (room_created room_id) c h = (tt, h)
joined-Safe room_joined c h = (tt, h)
joined-Safe (share_peer_contacts client peer) c h = (tt, h)
joined-Safe ServerMessage.syntax_error c h = (tt, h)
joined-Safe ServerMessage.error_no_such_room_id c h = (tt, h)

shared-Safe :
    (b : Bool) (msg : ServerMessage) (c : ServerConnection) → HasLine c → Safe (shared b msg c)
shared-Safe b (room_created room_id) c h = (tt, h)
shared-Safe b room_joined c h = (tt, h)
shared-Safe b (share_peer_contacts client peer) c h = (tt, h)
shared-Safe b ServerMessage.syntax_error c h = (tt, h)
shared-Safe b ServerMessage.error_no_such_room_id c h = (tt, h)

-- A message is written on the first line, and its reply is used.
asked-Safe :
    {A : Type 0} (msg : ClientMessage) (use_reply : ServerMessage → M A)
    → ((reply : ServerMessage) (c : ServerConnection) → HasLine c → Safe (use_reply reply c))
    → (c : ServerConnection) → HasLine c
    → Safe ((on_any (write_msg msg) >>= λ _. on_any next_msg >>= use_reply) c)
asked-Safe msg use_reply safe c h =
    bind-Safe (λ _. on_any next_msg >>= use_reply) (on_any (write_msg msg) c)
      (on_any-Safe (write_msg msg) (write_msg_calm msg) c h)
      λ _ c' h'.
        bind-Safe use_reply (on_any next_msg c') (on_any-Safe next_msg next_msg_calm c' h') safe

create-Safe : (c : ServerConnection) → HasLine c → Safe (create c)
unfolding create
create-Safe c h = asked-Safe ClientMessage.create_room created created-Safe c h

join-Safe : (room_id : ℕ) (c : ServerConnection) → HasLine c → Safe (join room_id c)
unfolding join
join-Safe room_id c h = asked-Safe (ClientMessage.join_room room_id) joined joined-Safe c h

get_peer_connector-Safe :
    (b : Bool) (c : ServerConnection) → HasLine c → Safe (get_peer_connector b c)
unfolding get_peer_connector
get_peer_connector-Safe b c h =
    let ask : M PeerConnector =
      on_any (write_msg done_sending) >>= λ _. on_any next_msg >>= shared b in
    let second : M PeerConnector = on_v4 send_private >>= λ _. ask in
    bind-Safe (λ _. second) (on_v6 send_private c) (each-Safe send_private send_private_calm c h).0
      λ _ c' h'.
        bind-Safe (λ _. ask) (on_v4 send_private c')
          (each-Safe send_private send_private_calm c' h').1
          (λ _ c'' h''. asked-Safe done_sending (shared b) (shared-Safe b) c'' h'')

-- What `new` has looked at.
record Opened (v6 v4 : Option Line) (c : ServerConnection) : Type 0 where
  c_eq : lines v6 v4 ≡ c
  v6_fits : expect_v6 v6 ≡ none
  v4_fits : expect_v4 v4 ≡ none

unless_failed-Opened :
    (v6 v4 : Option Line) (e6 e4 : Option ClientError) (c : ServerConnection)
    → expect_v6 v6 ≡ e6
    → expect_v4 v4 ≡ e4
    → unless_failed e6 e4 (lines v6 v4) ≡ ok c
    → Opened v6 v4 c
unless_failed-Opened v6 v4 (some e) e4 c at6 at4 h = cc
unless_failed-Opened v6 v4 none (some e) c at6 at4 h = cc
unless_failed-Opened v6 v4 none none c at6 at4 h = record {
  c_eq = cc;
  v6_fits = at6;
  v4_fits = at4;
}

new_connection-Opened :
    (v6 v4 : Option Line) (c : ServerConnection)
    → new_connection v6 v4 ≡ ok c
    → Opened v6 v4 c × HasLine (lines v6 v4)
unfolding new_connection lines
new_connection-Opened none none c h = cc
new_connection-Opened (some line) v4 c h =
    (unless_failed-Opened (some line) v4 _ _ c refl refl h, inl (line, refl))
new_connection-Opened none (some line) c h =
    (unless_failed-Opened none (some line) _ _ c refl refl h, inr (line, refl))

local_addr_v6-returns :
    (v6 : Option Line)
    → expect_v6 v6 ≡ none
    → (addr : Option SocketAddrV6) × (local_addr_v6 v6 ≡ returns (ok addr))
unfolding local_addr_v6 expect_v6
local_addr_v6-returns none fits = (none, refl)
local_addr_v6-returns (some line) fits = go line.local_addr refl
  where
    go :
        (r : Result ℕ SocketAddr)
        → line.local_addr ≡ r
        → (addr : Option SocketAddrV6) × (as_v6 line.local_addr ≡ returns (ok addr))
    go (err k) e = absurd (let no_fit = rw (expect_v6, e) at fits in cc)
    go (ok (V4 addr)) e = absurd (let no_fit = rw (expect_v6, e) at fits in cc)
    go (ok (V6 addr)) e = (some addr, rw e refl)

local_addr_v4-returns :
    (v4 : Option Line)
    → expect_v4 v4 ≡ none
    → (addr : Option SocketAddrV4) × (local_addr_v4 v4 ≡ returns (ok addr))
unfolding local_addr_v4 expect_v4
local_addr_v4-returns none fits = (none, refl)
local_addr_v4-returns (some line) fits = go line.local_addr refl
  where
    go :
        (r : Result ℕ SocketAddr)
        → line.local_addr ≡ r
        → (addr : Option SocketAddrV4) × (as_v4 line.local_addr ≡ returns (ok addr))
    go (err k) e = absurd (let no_fit = rw (expect_v4, e) at fits in cc)
    go (ok (V6 addr)) e = absurd (let no_fit = rw (expect_v4, e) at fits in cc)
    go (ok (V4 addr)) e = (some addr, rw e refl)

-- A client whose connection `ServerConnection::new` has made, on whatever lines: creating a room, joining one, going on to the
-- peer's contacts after either, and asking for the local contact do not panic, whatever the server
-- replies and however the writes end; the local contact is found.
pub new_connection-NoPanic :
    (v6 v4 : Option Line) (c : ServerConnection) (room_id : ℕ)
    → new_connection v6 v4 ≡ ok c
    → NoPanic ((create >>= λ _. get_peer_connector true) c).0
      × NoPanic ((join room_id >>= λ _. get_peer_connector false) c).0
      × (contact : Contact) × (get_local_contact c ≡ returns (ok contact))
unfolding get_local_contact
new_connection-NoPanic v6 v4 c room_id h =
    let (opened, has_line) = new_connection-Opened v6 v4 c h in
    let has_line' = subst HasLine opened.c_eq has_line in
    let (a6, found6) = local_addr_v6-returns v6 opened.v6_fits in
    let (a4, found4) = local_addr_v4-returns v4 opened.v4_fits in
    (
      (bind-Safe (λ _. get_peer_connector true) (create c) (create-Safe c has_line')
          (λ _ c' h'. get_peer_connector-Safe true c' h')).0,
      (bind-Safe (λ _. get_peer_connector false) (join room_id c) (join-Safe room_id c has_line')
          (λ _ c' h'. get_peer_connector-Safe false c' h')).0,
      record { v6 = a6; v4 = a4 },
      subst
          (λ d.
            contact_of (local_addr_v6 d.v6) (local_addr_v4 d.v4)
            ≡ returns (ok (record { v6 = a6; v4 = a4 })))
          opened.c_eq (unfold lines in rw (found6, found4) refl),
    )
