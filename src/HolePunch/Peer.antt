-- ===== src/HolePunch/Peer.antt =====
-- gday_hole_punch/src/client/peer_connector.rs: which connections to the peer are tried, and how a
-- connection is verified. SPAKE2 and SHA-256 are parameters, and what is read from the stream is an
-- argument; the sockets and the race between the attempts are left out.
pub mod Verification
pub mod Race
pub mod Tests
use mathlib.Core.Bool.{not}
use gday_old.Base.{
  ℕ, ◌≡◌, Bool, true, false, Option, none, some, List, [], ◌∷◌, ◌++◌, if◌then◌else◌,
}
use gday_old.Base.Outcome.{Result, ok, err}
use gday_old.Base.Text.{Bytes, same_text}
use gday_old.Base.Words.{to_be_bytes}
use gday_old.HolePunch.Contact.{SocketAddr, V4, V6, Contact, FullContact}
use gday_old.HolePunch.Client.{ClientError, spake_failed, peer_authentication_failed, PeerConnector}

-- The futures of `connect_to_peer`.
pub data Attempt : Type 0 where
  try_accept : SocketAddr → Attempt
  try_connect : SocketAddr → SocketAddr → Attempt

-- `if let Some(peer)`.
abbrev pub connect_if : {A : Type 0} → (A → SocketAddr) → A → Option A → List Attempt
connect_if family local none = []
connect_if family local (some peer) = try_connect (family local) (family peer) ∷ []

-- The attempts of one family, towards the peer's private and public address.
abbrev pub attempts_of :
    {A : Type 0} → (A → SocketAddr) → Option A → Option A → Option A → List Attempt
attempts_of family none peer_private peer_public = []
attempts_of family (some local) peer_private peer_public =
    try_accept (family local) ∷ connect_if family local peer_private
    ++ connect_if family local peer_public

unfoldable pub attempts : PeerConnector → List Attempt
attempts this =
    let private = this.local.private in
    let peer_private = this.peer.private in
    let peer_public = this.peer.public in
    attempts_of V6 private.v6 peer_private.v6 peer_public.v6
    ++ attempts_of V4 private.v4 peer_private.v4 peer_public.v4

-- The symmetric SPAKE2 exchange, with the random choice of a side as a number, and SHA-256. With one
-- password, both sides find the same key in the other's message.
pub record Crypto : Type 1 where
  pub Spake : Type 0
  pub start_symmetric : Bytes → ℕ → Spake × Bytes
  pub finish : Spake → Bytes → Result ℕ Bytes
  pub sha256 : Bytes → Bytes
  pub same_key :
      (password : Bytes) (a b : ℕ)
      → (key : Bytes) × (finish (start_symmetric password a).0 (start_symmetric password b).1
          ≡ ok key)
        × (finish (start_symmetric password b).0 (start_symmetric password a).1 ≡ ok key)

module _ (crypto : Crypto) where
  -- `u8::from(is_creator)` behind the key.
  unfoldable pub get_verification_code : Bytes → Bool → Bytes
  get_verification_code key is_creator = crypto.sha256 (key ++ (if is_creator then 1 else 0) ∷ [])

  -- What a side writes first.
  abbrev pub outbound_msg : ℕ → ℕ → Bytes
  outbound_msg peer_id choice = (crypto.start_symmetric (to_be_bytes peer_id) choice).1

  -- What it writes when it has the key.
  abbrev pub code_sent : Bool → Result ℕ Bytes → Bytes
  code_sent is_creator (ok key) = get_verification_code key is_creator
  code_sent is_creator (err e) = []

  abbrev pub key_of : ℕ → ℕ → Bytes → Result ℕ Bytes
  key_of peer_id choice inbound_message =
      crypto.finish (crypto.start_symmetric (to_be_bytes peer_id) choice).0 inbound_message

  abbrev pub compared : Bool → Bytes → Result ℕ Bytes → Result ClientError Bytes
  compared is_creator received (err e) = err (spake_failed e)
  compared is_creator received (ok key) =
      if same_text received (get_verification_code key (not is_creator))
      then ok key
      else err peer_authentication_failed

  -- `verify_peer`, with the two messages that it reads; the result is the shared secret.
  unfoldable pub verify_peer : ℕ → ℕ → Bool → Bytes → Bytes → Result ClientError Bytes
  verify_peer peer_id choice is_creator inbound_message received =
      compared is_creator received (key_of peer_id choice inbound_message)
