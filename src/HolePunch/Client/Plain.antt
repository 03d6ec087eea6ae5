-- ===== src/HolePunch/Client/Plain.antt =====
-- The client of gday_hole_punch/src over lines on which the server never sends SharePeerContacts.
use gday_old.Base.{ℕ, ◌≡◌, refl, Bool, Option, none, some, List, [], ◌∷◌, All}
use gday_old.Base.Outcome.{Result, ok, err}
use gday_old.HolePunch.Contact.{
  SocketAddr, ClientMessage, create_room, join_room, done_sending, ServerMessage, room_created,
  room_joined, share_peer_contacts, SerializationError,
}
use gday_old.HolePunch.Handler.Keeps.{IsPlain}
use gday_old.HolePunch.Client.{
  Line, ServerConnection, Ran, gives, fails, panicked, waits, M, continue_in, back_v6, back_v4,
  on_any, on_v6, on_v4, write_msg, write_as, reply_of, next_msg, send_private, created, create,
  joined, join, shared, get_peer_connector, ClientError, expect_v6, expect_v4, unless_failed,
  new_connection,
}

-- None of the replies that are to come is SharePeerContacts.
abbrev pub PlainReply : Result SerializationError ServerMessage → Type 0
PlainReply (ok msg) = IsPlain msg
PlainReply (err e) = Unit

abbrev pub PlainLine : Line → Type 0
PlainLine line = All PlainReply line.replies

abbrev pub PlainOption : Option Line → Type 0
PlainOption none = Unit
PlainOption (some line) = PlainLine line

abbrev pub Plain : ServerConnection → Type 0
Plain c = PlainOption c.v6 × PlainOption c.v4

-- What the value of an operation on a line, and on the connection, is like.
abbrev LineGives : {A : Type 0} → (A → Type 0) → Ran A × Line → Type 0
LineGives R (gives a, line) = R a × PlainLine line
LineGives R (fails e, line) = Unit
LineGives R (panicked, line) = Unit
LineGives R (waits, line) = Unit

abbrev pub Gives :
    {A : Type 0} → (A → ServerConnection → Type 0) → Ran A × ServerConnection → Type 0
Gives Q (gives a, c) = Q a c
Gives Q (fails e, c) = Unit
Gives Q (panicked, c) = Unit
Gives Q (waits, c) = Unit

pub continue_in-Gives :
    {A B : Type 0} (Q : A → ServerConnection → Type 0) (R : B → ServerConnection → Type 0)
    (f : A → M B) (m : Ran A × ServerConnection)
    → Gives Q m
    → ((a : A) (c : ServerConnection) → Q a c → Gives R (f a c))
    → Gives R (continue_in f m)
continue_in-Gives Q R f (gives a, c) h k = k a c h
continue_in-Gives Q R f (fails e, c) h k = tt
continue_in-Gives Q R f (panicked, c) h k = tt
continue_in-Gives Q R f (waits, c) h k = tt

back_v6-Gives :
    {A : Type 0} (R : A → Type 0) (c : ServerConnection) (m : Ran A × Line)
    → PlainOption c.v4
    → LineGives R m
    → Gives (λ a c'. R a × Plain c') (back_v6 c m)
back_v6-Gives R c (gives a, line) v4 (r, h) = (r, (h, v4))
back_v6-Gives R c (fails e, line) v4 h = tt
back_v6-Gives R c (panicked, line) v4 h = tt
back_v6-Gives R c (waits, line) v4 h = tt

back_v4-Gives :
    {A : Type 0} (R : A → Type 0) (c : ServerConnection) (m : Ran A × Line)
    → PlainOption c.v6
    → LineGives R m
    → Gives (λ a c'. R a × Plain c') (back_v4 c m)
back_v4-Gives R c (gives a, line) v6 (r, h) = (r, (v6, h))
back_v4-Gives R c (fails e, line) v6 h = tt
back_v4-Gives R c (panicked, line) v6 h = tt
back_v4-Gives R c (waits, line) v6 h = tt

on_any-Gives :
    {A : Type 0} (R : A → Type 0) (f : Line → Ran A × Line) (c : ServerConnection)
    → ((line : Line) → PlainLine line → LineGives R (f line))
    → Plain c
    → Gives (λ a c'. R a × Plain c') (on_any f c)
unfolding on_any
on_any-Gives R f c k h = go c.v6 c.v4 h
  where
    go :
        (v6 v4 : Option Line)
        → Plain (record { v6 = v6; v4 = v4 })
        → Gives (λ a c'. R a × Plain c') (on_any f (record { v6 = v6; v4 = v4 }))
    go (some line) v4 (h6, h4) =
        back_v6-Gives R (record { v6 = some line; v4 = v4 }) (f line) h4 (k line h6)
    go none (some line) (h6, h4) =
        back_v4-Gives R (record { v6 = none; v4 = some line }) (f line) h6 (k line h4)
    go none none h = tt

on_v6-Gives :
    (f : Line → Ran (Unit {0}) × Line) (c : ServerConnection)
    → ((line : Line) → PlainLine line → LineGives (λ _. Unit) (f line))
    → Plain c
    → Gives (λ _ c'. Unit {0} × Plain c') (on_v6 f c)
unfolding on_v6
on_v6-Gives f c k h = go c.v6 c.v4 h
  where
    go :
        (v6 v4 : Option Line)
        → Plain (record { v6 = v6; v4 = v4 })
        → Gives (λ _ c'. Unit {0} × Plain c') (on_v6 f (record { v6 = v6; v4 = v4 }))
    go (some line) v4 (h6, h4) =
        back_v6-Gives (λ _. Unit) (record { v6 = some line; v4 = v4 }) (f line) h4 (k line h6)
    go none v4 h = (tt, h)

on_v4-Gives :
    (f : Line → Ran (Unit {0}) × Line) (c : ServerConnection)
    → ((line : Line) → PlainLine line → LineGives (λ _. Unit) (f line))
    → Plain c
    → Gives (λ _ c'. Unit {0} × Plain c') (on_v4 f c)
unfolding on_v4
on_v4-Gives f c k h = go c.v6 c.v4 h
  where
    go :
        (v6 v4 : Option Line)
        → Plain (record { v6 = v6; v4 = v4 })
        → Gives (λ _ c'. Unit {0} × Plain c') (on_v4 f (record { v6 = v6; v4 = v4 }))
    go v6 (some line) (h6, h4) =
        back_v4-Gives (λ _. Unit) (record { v6 = v6; v4 = some line }) (f line) h6 (k line h4)
    go v6 none h = (tt, h)

write_msg-Gives :
    (msg : ClientMessage) (line : Line)
    → PlainLine line
    → LineGives (λ _. Unit) (write_msg msg line)
unfolding write_msg
write_msg-Gives msg line h = go line.writes
  where
    go :
        (writes : List (Option SerializationError))
        → LineGives (λ _. Unit) (write_as msg line writes)
    go [] = (tt, h)
    go (none ∷ rest) = (tt, h)
    go (some e ∷ rest) = tt

next_msg-Gives : (line : Line) → PlainLine line → LineGives IsPlain (next_msg line)
unfolding next_msg
next_msg-Gives line h = go line.replies h
  where
    go :
        (replies : List (Result SerializationError ServerMessage))
        → All PlainReply replies
        → LineGives IsPlain (reply_of line replies)
    go [] h = tt
    go (ok msg ∷ rest) (p, h) = (p, h)
    go (err e ∷ rest) h = tt

send_private-Gives : (line : Line) → PlainLine line → LineGives (λ _. Unit) (send_private line)
unfolding send_private
send_private-Gives line h = go line.local_addr refl
  where
    go : (r : Result ℕ SocketAddr) → line.local_addr ≡ r → LineGives (λ _. Unit) (send_private line)
    go (err e) is = rw (is, send_private) tt
    go (ok addr) is = rw (is, send_private) (write_msg-Gives _ line h)

created-Gives :
    (msg : ServerMessage) (c : ServerConnection)
    → Plain c
    → Gives (λ _ c'. Plain c') (created msg c)
created-Gives (room_created room_id) c h = h
created-Gives room_joined c h = tt
created-Gives (share_peer_contacts client peer) c h = tt
created-Gives ServerMessage.syntax_error c h = tt
created-Gives ServerMessage.error_no_such_room_id c h = tt

pub create-Plain : (c : ServerConnection) → Plain c → Gives (λ _ c'. Plain c') (create c)
unfolding create
create-Plain c h =
    continue_in-Gives (λ _ c'. Unit {0} × Plain c') _ _ (on_any (write_msg create_room) c)
      (on_any-Gives (λ _. Unit) (write_msg create_room) c (write_msg-Gives create_room) h)
      (λ _ c' (_, h').
        continue_in-Gives (λ msg c''. IsPlain msg × Plain c'') _ _ (on_any next_msg c')
          (on_any-Gives IsPlain next_msg c' next_msg-Gives h')
          (λ msg c'' (_, h''). created-Gives msg c'' h''))

joined-Gives :
    (msg : ServerMessage) (c : ServerConnection) → Plain c → Gives (λ _ c'. Plain c') (joined msg c)
joined-Gives (room_created room_id) c h = tt
joined-Gives room_joined c h = h
joined-Gives (share_peer_contacts client peer) c h = tt
joined-Gives ServerMessage.syntax_error c h = tt
joined-Gives ServerMessage.error_no_such_room_id c h = tt

pub join-Plain :
    (room_id : ℕ) (c : ServerConnection) → Plain c → Gives (λ _ c'. Plain c') (join room_id c)
unfolding join
join-Plain room_id c h =
    continue_in-Gives (λ _ c'. Unit {0} × Plain c') _ _ (on_any (write_msg (join_room room_id)) c)
      (on_any-Gives (λ _. Unit) (write_msg (join_room room_id)) c
        (write_msg-Gives (join_room room_id)) h)
      (λ _ c' (_, h').
        continue_in-Gives (λ msg c''. IsPlain msg × Plain c'') _ _ (on_any next_msg c')
          (on_any-Gives IsPlain next_msg c' next_msg-Gives h')
          (λ msg c'' (_, h''). joined-Gives msg c'' h''))

shared-Gives :
    (is_creator : Bool) (msg : ServerMessage) (c : ServerConnection)
    → IsPlain msg
    → Gives (λ _ _. ⊥) (shared is_creator msg c)
shared-Gives is_creator (room_created room_id) c h = tt
shared-Gives is_creator room_joined c h = tt
shared-Gives is_creator (share_peer_contacts client peer) c h = h
shared-Gives is_creator ServerMessage.syntax_error c h = tt
shared-Gives is_creator ServerMessage.error_no_such_room_id c h = tt

-- The contacts of the peer are not had.
pub get_peer_connector-Plain :
    (is_creator : Bool) (c : ServerConnection)
    → Plain c
    → Gives (λ _ _. ⊥) (get_peer_connector is_creator c)
unfolding get_peer_connector
get_peer_connector-Plain is_creator c h =
    continue_in-Gives (λ _ c'. Unit {0} × Plain c') _ _ (on_v6 send_private c)
      (on_v6-Gives send_private c send_private-Gives h)
      (λ _ c1 (_, h1).
        continue_in-Gives (λ _ c'. Unit {0} × Plain c') _ _ (on_v4 send_private c1)
          (on_v4-Gives send_private c1 send_private-Gives h1)
          (λ _ c2 (_, h2).
            continue_in-Gives (λ _ c'. Unit {0} × Plain c') _ _ (on_any (write_msg done_sending) c2)
              (on_any-Gives (λ _. Unit) (write_msg done_sending) c2 (write_msg-Gives done_sending)
                h2)
              (λ _ c3 (_, h3).
                continue_in-Gives (λ msg c'. IsPlain msg × Plain c') _ _ (on_any next_msg c3)
                  (on_any-Gives IsPlain next_msg c3 next_msg-Gives h3)
                  (λ msg c4 (p, _). shared-Gives is_creator msg c4 p))))

-- `ContactSharer` is made of the lines.
abbrev pub Made : Result ClientError ServerConnection → Type 0
Made (err e) = Unit
Made (ok c) = Plain c

unless_failed-Made :
    (a b : Option ClientError) (c : ServerConnection) → Plain c → Made (unless_failed a b c)
unless_failed-Made (some e) b c h = tt
unless_failed-Made none (some e) c h = tt
unless_failed-Made none none c h = h

pub new_connection-Plain :
    (v6 v4 : Option Line) → PlainOption v6 → PlainOption v4 → Made (new_connection v6 v4)
unfolding new_connection
new_connection-Plain none none h6 h4 = tt
new_connection-Plain none (some line) h6 h4 =
    unless_failed-Made (expect_v6 none) (expect_v4 (some line))
      (record { v6 = none; v4 = some line }) (h6, h4)
new_connection-Plain (some line) v4 h6 h4 =
    unless_failed-Made (expect_v6 (some line)) (expect_v4 v4) (record { v6 = some line; v4 = v4 })
      (h6, h4)
