-- ===== src/Gday/Program/Unmet.antt =====
-- The program of gday/src/main.rs with a server that never sends SharePeerContacts, as the one of
-- gday_hole_punch/src/server does not.
use gday_old.Base.{ℕ, ◌≢◌, subst, Bool, true, false, Option, none, some, List, [], ◌∷◌}
use gday_old.Base.Outcome.{Outcome, returns, exits, panics, Result, ok, err}
use gday_old.Base.Text.{Bytes}
use gday_old.Base32.{to_string, from_string}
use gday_old.HolePunch.Contact.{SocketAddr}
use gday_old.HolePunch.Client
use gday_old.HolePunch.Client.{
  Line, ServerConnection, gives, fails, panicked, waits, create, join, get_peer_connector,
  PeerConnector, ClientError, new_connection,
}
use gday_old.HolePunch.Client.Plain.{
  PlainLine, PlainOption, Plain, Gives, create-Plain, join-Plain, get_peer_connector-Plain, Made,
  new_connection-Plain,
}
use gday_old.Chat.Protocol.{LocalFileMeta, Codec}
use gday_old.Chat.Terminal.{Lines}
use gday_old.Chat.Offer
use gday_old.Chat.Offer.{Walk, found, failed, unfinished, confirm_send}
use gday_old.Chat.Run.{Ran, creator_run, not_creator_run}
use gday_old.Gday.ServerConnector.{
  Route, connected, connect, new_socket, server_v6, server_v4, get_tls_connector,
}
use gday_old.Gday.{
  World, Process, goes_on, exited, aborted, stuck, ◌>>=◌, or_exit, outcome, on_server, ok_of,
  connect_to_server, establish_peer_connection, invite, start_room, enter, enter_with, ask_for_room,
  join_room,
}
use gday_old.Gday.Program
use gday_old.Gday.Program.{Local, Commands, send, chat, ran, walked, create_and_run, main}

-- What holds of the value of a process that goes on.
abbrev Reaches {ℓ} : {A : Type ℓ} → (A → Type 0) → Process A → Type 0
Reaches P (goes_on a) = P a
Reaches P (exited n) = Unit
Reaches P aborted = Unit
Reaches P stuck = Unit

bind-Reaches {ℓ κ} :
    {A : Type ℓ} {B : Type κ} (P : A → Type 0) (Q : B → Type 0) (m : Process A) (f : A → Process B)
    → Reaches P m
    → ((a : A) → P a → Reaches Q (f a))
    → Reaches Q (m >>= f)
bind-Reaches P Q (goes_on a) f h k = k a h
bind-Reaches P Q (exited n) f h k = tt
bind-Reaches P Q aborted f h k = tt
bind-Reaches P Q stuck f h k = tt

any_outcome : {A : Type 0} (o : Outcome A) → Reaches (λ _. Unit) (outcome o)
any_outcome (returns a) = tt
any_outcome (exits n) = tt
any_outcome panics = tt

on_server-Reaches :
    {A : Type 0} {B : Type 0} (Q : A → ServerConnection → Type 0) (P : B → Type 0)
    (m : Client.Ran A × ServerConnection) (f : A → ServerConnection → Process B)
    → Gives Q m
    → ((a : A) (c : ServerConnection) → Q a c → Reaches P (f a c))
    → Reaches P (on_server m f)
on_server-Reaches Q P (gives a, c) f h k = k a c h
on_server-Reaches Q P (fails e, c) f h k = tt
on_server-Reaches Q P (panicked, c) f h k = tt
on_server-Reaches Q P (waits, c) f h k = tt

-- The lines to the server that a handshake gives are without SharePeerContacts.
abbrev pub PlainTls : Result ℕ Line → Type 0
PlainTls (err e) = Unit
PlainTls (ok line) = PlainLine line

abbrev pub PlainRoute : Route → Type 0
PlainRoute route = (addr : SocketAddr) → PlainTls (route.tls_connect addr)

connected-Reaches :
    (valid_name : Bool) (socket tcp : Option ℕ) (tls : Result ℕ Line)
    → PlainTls tls
    → Reaches PlainTls (outcome (connected valid_name socket tcp tls))
connected-Reaches valid_name (some e) tcp tls h = tt
connected-Reaches valid_name none (some e) tls h = tt
connected-Reaches true none none tls h = h
connected-Reaches false none none tls h = tt

connect-Reaches :
    (valid_name : Bool) (route : Route) (addr : SocketAddr)
    → PlainRoute route
    → Reaches PlainTls (outcome (connect valid_name route addr))
unfolding connect
connect-Reaches valid_name route addr h =
    connected-Reaches valid_name (new_socket route addr) (route.tcp_connect addr)
      (route.tls_connect addr) (h addr)

ok_of-Plain : (tls : Result ℕ Line) → PlainTls tls → PlainOption (ok_of tls)
ok_of-Plain (err e) h = tt
ok_of-Plain (ok line) h = h

or_exit-Made : (r : Result ClientError ServerConnection) → Made r → Reaches Plain (or_exit r)
or_exit-Made (ok c) h = h
or_exit-Made (err e) h = tt

any_walk : {A : Type 0} (m : Walk A) → Reaches (λ _. Unit) (walked m)
any_walk (found a) = tt
any_walk (failed e) = tt
any_walk Offer.panicked = tt
any_walk unfinished = tt

added : (r : Result ℕ (Unit {0})) → Reaches (λ _. Unit) (or_exit r)
added (ok u) = tt
added (err e) = tt

module _ (w : World) (plain : PlainRoute w.route) where
  connect_to_server-Reaches :
      Reaches (λ conns. PlainOption conns.0 × PlainOption conns.1) (connect_to_server w)
  unfolding connect_to_server
  connect_to_server-Reaches =
      bind-Reaches (λ _. Unit) _ (or_exit (get_tls_connector w.cert_added)) _ (added _)
        (λ _ _.
          bind-Reaches PlainTls _ (outcome (connect w.valid_name w.route server_v6)) _
            (connect-Reaches w.valid_name w.route server_v6 plain)
            (λ v6 h6.
              bind-Reaches PlainTls _ (outcome (connect w.valid_name w.route server_v4)) _
                (connect-Reaches w.valid_name w.route server_v4 plain)
                (λ v4 h4. (ok_of-Plain v6 h6, ok_of-Plain v4 h4))))

  establish-unmet :
      (is_creator : Bool) (sharer : ServerConnection) (peer_secret : ℕ)
      → Plain sharer
      → Reaches (λ _. ⊥) (establish_peer_connection w is_creator sharer peer_secret)
  unfolding establish_peer_connection
  establish-unmet is_creator sharer peer_secret h =
      on_server-Reaches (λ _ _. ⊥) _ (get_peer_connector is_creator sharer) _
        (get_peer_connector-Plain is_creator sharer h) (λ _ _ gone. absurd gone)

  start_room-unmet : Reaches (λ _. ⊥) (start_room w)
  unfolding start_room invite
  start_room-unmet =
      bind-Reaches (λ i. Plain i.sharer) _ (invite w) _
        (bind-Reaches (λ conns. PlainOption conns.0 × PlainOption conns.1) _ (connect_to_server w) _
          connect_to_server-Reaches
          (λ conns (h6, h4).
            bind-Reaches Plain _ (or_exit (new_connection conns.0 conns.1)) _
              (or_exit-Made _ (new_connection-Plain conns.0 conns.1 h6 h4))
              (λ c h.
                on_server-Reaches (λ _ c'. Plain c') _ (create c) _ (create-Plain c h)
                  (λ room_id sharer h'.
                    bind-Reaches (λ _. Unit) _
                      (outcome (to_string (0 ∷ room_id ∷ w.random_peer_secret ∷ []))) _
                      (any_outcome _) (λ _ _. h')))))
        (λ i h. establish-unmet true i.sharer i.peer_secret h)

  ask_for_room-Reaches :
      (room_id peer_secret : ℕ) → Reaches (λ e. Plain e.sharer) (ask_for_room w room_id peer_secret)
  ask_for_room-Reaches room_id peer_secret =
      bind-Reaches (λ conns. PlainOption conns.0 × PlainOption conns.1) _ (connect_to_server w) _
        connect_to_server-Reaches
        (λ conns (h6, h4).
          bind-Reaches Plain _ (or_exit (new_connection conns.0 conns.1)) _
            (or_exit-Made _ (new_connection-Plain conns.0 conns.1 h6 h4))
            (λ c h.
              on_server-Reaches (λ _ c'. Plain c') _ (join room_id c) _ (join-Plain room_id c h)
                (λ _ sharer h'. h')))

  enter_with-Reaches : (vals : List ℕ) → Reaches (λ e. Plain e.sharer) (enter_with w vals)
  enter_with-Reaches [] = tt
  enter_with-Reaches (a ∷ []) = tt
  enter_with-Reaches (a ∷ b ∷ []) = tt
  enter_with-Reaches (a ∷ room_id ∷ peer_secret ∷ []) = ask_for_room-Reaches room_id peer_secret
  enter_with-Reaches (a ∷ b ∷ c ∷ d ∷ vals) = tt

  join_room-unmet : (password : Bytes) → Reaches (λ _. ⊥) (join_room w password)
  unfolding join_room enter
  join_room-unmet password =
      bind-Reaches (λ e. Plain e.sharer) _ (enter w password) _
        (bind-Reaches (λ _. Unit) _ (outcome (from_string w.profile password)) _ (any_outcome _)
          (λ vals _. enter_with-Reaches vals))
        (λ e h. establish-unmet false e.sharer e.peer_secret h)

  -- `main` with any command, if no line to the server ever brings SharePeerContacts, as none of this
  -- repository's server does: it does not come to the run of gday_chat, but exits, aborts, or waits for
  -- a reply that does not come.
  pub main-unmet :
      (codec : Codec) (lines : Lines) (l : Local) (incoming : Bytes) (command : Commands) (r : Ran)
      → main codec lines w l incoming command ≢ goes_on r
  unfolding main
  main-unmet codec lines l incoming command r e = subst (Reaches (λ _. ⊥)) e (reaches command)
    where
      created :
          (files : Option (List LocalFileMeta))
          → Reaches (λ _. ⊥) (create_and_run codec lines w l incoming files)
      created files =
          bind-Reaches (λ _. ⊥) _ (start_room w)
            (λ _. ran (creator_run codec lines l.session incoming files)) start_room-unmet
            (λ _ gone. absurd gone)

      reaches : (command : Commands) → Reaches (λ _. ⊥) (main codec lines w l incoming command)
      reaches (send paths) =
          bind-Reaches (λ _. Unit) _
            (walked (confirm_send l.file_system w.profile l.fuel l.answer paths)) _ (any_walk _)
            (λ files _. created (some files))
      reaches chat = created none
      reaches (Program.join password) =
          bind-Reaches (λ _. ⊥) _ (join_room w password)
            (λ _. ran (not_creator_run codec lines l.session incoming)) (join_room-unmet password)
            (λ _ gone. absurd gone)
