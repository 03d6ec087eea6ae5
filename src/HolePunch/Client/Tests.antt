-- ===== src/HolePunch/Client/Tests.antt =====
-- Tests of the client of gday_hole_punch/src/client.
use gday_old.Base.{◌≡◌, refl, true, false, some, [], ◌∷◌}
use gday_old.Base.Outcome.{returns, ok}
use gday_old.HolePunch.Contact.{
  SocketAddrV4, SocketAddrV6, SocketAddr, Contact, V4, V6, send_private_addr, share_peer_contacts,
  syntax_error, no_full_contact,
}
use gday_old.HolePunch.State.{new_state}
use gday_old.HolePunch.Handler.{Conn, failed, received_incorrect_message, start}
use gday_old.HolePunch.Handler.Replies.{Replies}
use gday_old.HolePunch.Client.{
  Line, ServerConnection, ◌>>=◌, new_connection, create, join, get_peer_connector,
}
use gday_old.HolePunch.Client.Connection.{get_local_contact}
use gday_old.HolePunch.Client.Connection.Calm.{NoPanic, new_connection-NoPanic}
use gday_old.HolePunch.Client.Order.{two_lines, session, InOrder, second_line_refused}

abbrev pub home_v6 : SocketAddrV6
home_v6 = record { ip = 6; port = 60; flowinfo = 0; scope_id = 0 }

abbrev pub home_v4 : SocketAddrV4
home_v4 = record { ip = 4; port = 40 }

-- A connection that has just been accepted.
abbrev accepted : Conn
accepted = record {
  state = new_state;
  messenger = record { written = []; writes = []; peer_addr = ok (V4 home_v4) };
}

second_line_refused_example :
    InOrder home_v6 home_v4
      (session (
        two_lines 5 home_v6 home_v4
          (ok (share_peer_contacts no_full_contact no_full_contact) ∷ [])
          [])).1
    × Replies
        (failed received_incorrect_message)
        syntax_error
        accepted
        (start (ok (send_private_addr (some (V4 home_v4)))) [] accepted)
second_line_refused_example =
    second_line_refused 5 home_v6 home_v4
      (ok (share_peer_contacts no_full_contact no_full_contact) ∷ []) [] [] accepted tt

abbrev home_line : SocketAddr → Line
home_line addr = record { written = []; writes = []; replies = []; local_addr = ok addr }

abbrev both_lines : ServerConnection
both_lines = record { v6 = some (home_line (V6 home_v6)); v4 = some (home_line (V4 home_v4)) }

both_checked :
    new_connection (some (home_line (V6 home_v6))) (some (home_line (V4 home_v4))) ≡ ok both_lines
unfolding new_connection
both_checked = refl

new_connection-NoPanic_example :
    NoPanic ((create >>= λ _. get_peer_connector true) both_lines).0
    × NoPanic ((join 7 >>= λ _. get_peer_connector false) both_lines).0
    × (contact : Contact) × (get_local_contact both_lines ≡ returns (ok contact))
new_connection-NoPanic_example =
    new_connection-NoPanic (some (home_line (V6 home_v6))) (some (home_line (V4 home_v4)))
      both_lines 7 both_checked
