-- ===== src/Gday.antt =====
-- gday/src/main.rs: the program of a peer, from its command line to its chat. What the servers, the peer, the disk and
-- the terminal do is an argument; the messages that are printed before an exit are left out.
pub mod ServerConnector
pub mod Password
pub mod Program
pub mod Tests
use gday_old.Base.{ℕ, Bool, true, false, Option, none, some, List, [], ◌∷◌}
use gday_old.Base.Outcome.{Outcome, returns, exits, panics, Profile, Result, ok, err}
use gday_old.Base.Text.{Bytes}
use gday_old.Base32.{to_string, from_string}
use gday_old.HolePunch.Client.{
  Line, ServerConnection, Ran, gives, fails, panicked, waits, M, new_connection, create, join,
  PeerConnector, get_peer_connector,
}
use gday_old.Encryption.Writer.{EncryptedWriter, new_writer}
use gday_old.Encryption.Reader.{EncryptedReader, new_reader}
use gday_old.Gday.ServerConnector.{Route, get_tls_connector, connect, server_v6, server_v4}
use gday_old.HolePunch.Peer.Race.{Future, ready, pending}

-- How the process goes on: it has come to a value, has ended, or waits for something that does not come.
pub data Process {ℓ} (A : Type ℓ) : Type ℓ where
  goes_on : A → Process A
  exited : ℕ → Process A
  aborted : Process A
  stuck : Process A

infixl 5 ◌>>=◌
abbrev pub ◌>>=◌ {ℓ κ} : {A : Type ℓ} {B : Type κ} → Process A → (A → Process B) → Process B
goes_on a >>= f = f a
exited n >>= f = exited n
aborted >>= f = aborted
stuck >>= f = stuck

-- `unwrap_or_else` with `exit(1)`.
abbrev pub or_exit {ℓ κ} : {E : Type ℓ} {A : Type κ} → Result E A → Process A
or_exit (ok a) = goes_on a
or_exit (err e) = exited 1

abbrev pub outcome {ℓ} : {A : Type ℓ} → Outcome A → Process A
outcome (returns a) = goes_on a
outcome (exits n) = exited n
outcome panics = aborted

-- The same of an operation of the client, with the lines that it leaves.
abbrev pub on_server {ℓ} :
    {A : Type 0}
    → {B : Type ℓ} → Ran A × ServerConnection
    → (A → ServerConnection → Process B)
    → Process B
on_server (gives a, c) f = f a c
on_server (fails e, c) f = exited 1
on_server (panicked, c) f = aborted
on_server (waits, c) f = stuck

-- A peer's connection, encrypted: its writer and its reader, and the key of both.
pub record Connected : Type 0 where
  pub key : Bytes
  pub writer : EncryptedWriter
  pub reader : EncryptedReader

-- What the process meets: what the store of certificates and the way to the server answer, what
-- `random_peer_secret` draws, what `connect_to_peer` comes to, whether the nonce can be written, and
-- what follows the nonce that is read.
pub record World : Type 0 where
  pub profile : Profile
  pub cert_added : Option ℕ
  pub valid_name : Bool
  pub route : Route
  pub random_peer_secret : ℕ
  pub connect_to_peer : PeerConnector → ℕ → Outcome (Future ℕ Bytes)
  pub write_nonce : Option ℕ
  pub read_nonce : Result ℕ Bytes

-- `Result::ok`.
abbrev pub ok_of : {A : Type 0} → Result ℕ A → Option A
ok_of (ok a) = some a
ok_of (err e) = none

-- How `connect_to_peer` ends.
abbrev pub awaited : Outcome (Future ℕ Bytes) → Process Bytes
awaited (returns (ready r)) = or_exit r
awaited (returns pending) = stuck
awaited (exits n) = exited n
awaited panics = aborted

-- `EncryptedWriter::new` and `EncryptedReader::new`.
abbrev pub encrypted : Bytes → Option ℕ → Result ℕ Bytes → Process Connected
encrypted key (some e) read_nonce = exited 1
encrypted key none (err e) = exited 1
encrypted key none (ok incoming) =
    goes_on (record { key = key; writer = new_writer; reader = new_reader incoming })

-- What `start_room` has when it prints the password.
pub record Invitation : Type 0 where
  pub room_id : ℕ
  pub peer_secret : ℕ
  pub password : Bytes
  pub sharer : ServerConnection

-- What `join_room` has when it has joined.
pub record Entry : Type 0 where
  pub peer_secret : ℕ
  pub sharer : ServerConnection

module _ (w : World) where
  unfoldable pub connect_to_server : Process (Option Line × Option Line)
  connect_to_server = do
    _ ← or_exit (get_tls_connector w.cert_added)
    v6 ← outcome (connect w.valid_name w.route server_v6)
    v4 ← outcome (connect w.valid_name w.route server_v4)
    goes_on (ok_of v6, ok_of v4)

  unfoldable pub establish_peer_connection : Bool → ServerConnection → ℕ → Process Connected
  establish_peer_connection is_creator sharer peer_secret =
      on_server (get_peer_connector is_creator sharer) λ connector sharer.
        awaited (w.connect_to_peer connector peer_secret) >>= λ key.
        encrypted key w.write_nonce w.read_nonce

  unfoldable pub invite : Process Invitation
  invite = do
    conns ← connect_to_server
    connection ← or_exit (new_connection conns.0 conns.1)
    on_server (create connection) λ room_id sharer.
        outcome (to_string (0 ∷ room_id ∷ w.random_peer_secret ∷ [])) >>= λ password.
        goes_on (record {
          room_id = room_id;
          peer_secret = w.random_peer_secret;
          password = password;
          sharer = sharer;
        })

  unfoldable pub start_room : Process Connected
  start_room = invite >>= λ i. establish_peer_connection true i.sharer i.peer_secret

  abbrev pub ask_for_room : ℕ → ℕ → Process Entry
  ask_for_room room_id peer_secret = do
    conns ← connect_to_server
    connection ← or_exit (new_connection conns.0 conns.1)
    on_server (join room_id connection)
        λ _ sharer. goes_on (record { peer_secret = peer_secret; sharer = sharer })

  -- `let [_, room_id, peer_secret] = … else`.
  abbrev pub enter_with : List ℕ → Process Entry
  enter_with [] = exited 1
  enter_with (a ∷ []) = exited 1
  enter_with (a ∷ b ∷ []) = exited 1
  enter_with (a ∷ room_id ∷ peer_secret ∷ []) = ask_for_room room_id peer_secret
  enter_with (a ∷ b ∷ c ∷ d ∷ vals) = exited 1

  unfoldable pub enter : Bytes → Process Entry
  enter password = outcome (from_string w.profile password) >>= enter_with

  unfoldable pub join_room : Bytes → Process Connected
  join_room password =
      enter password >>= λ e. establish_peer_connection false e.sharer e.peer_secret
