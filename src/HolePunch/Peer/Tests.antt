-- ===== src/HolePunch/Peer/Tests.antt =====
-- Tests of gday_hole_punch/src/client/peer_connector.rs, where the key is the password and the hash
-- is the text itself.
use gday_old.Base.{some, length, ◌≡◌, refl, true, false, [], ◌∷◌}
use gday_old.Base.Outcome.{ok}
use gday_old.Base.Text.{Bytes}
use gday_old.HolePunch.Contact.{Contact, FullContact}
use gday_old.HolePunch.Client.{PeerConnector}
use gday_old.HolePunch.Peer.{attempts}
use gday_old.HolePunch.Peer.{Crypto, outbound_msg, code_sent, key_of, verify_peer}
use gday_old.HolePunch.Peer.Verification.{verify_peer-agree}

abbrev pub plain : Crypto
plain = record {
  Spake = Bytes;
  start_symmetric = λ password choice. (password, choice ∷ []);
  finish = λ spake inbound_message. ok spake;
  sha256 = λ s. s;
  same_key = λ password a b. (password, refl, refl);
}

verify_peer-agree_example :
    (key : Bytes) × (verify_peer plain 5 1 true
        (outbound_msg plain 5 2)
        (code_sent plain false (key_of plain 5 2 (outbound_msg plain 5 1)))
      ≡ ok key)
    × (verify_peer plain 5 2 false
          (outbound_msg plain 5 1)
          (code_sent plain true (key_of plain 5 1 (outbound_msg plain 5 2)))
        ≡ ok key)
verify_peer-agree_example = verify_peer-agree plain 5 1 2

abbrev pub everywhere : FullContact
everywhere =
    let contact : Contact = record {
      v6 = some (record { ip = 6; port = 60; flowinfo = 0; scope_id = 0 });
      v4 = some (record { ip = 4; port = 40 });
    } in
    record { private = contact; public = contact }

abbrev pub connector : PeerConnector
connector = record { local = everywhere; peer = everywhere; is_creator = true }

test_attempts : length (attempts connector) ≡ 6
unfolding attempts
test_attempts = refl
