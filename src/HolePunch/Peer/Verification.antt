-- ===== src/HolePunch/Peer/Verification.antt =====
-- Two peers that verify each other by gday_hole_punch/src/client/peer_connector.rs.
use gday_old.Base.{ℕ, ◌≡◌, true, false}
use gday_old.Base.Outcome.{ok}
use gday_old.Base.Text.{Bytes, same_text_refl}
use gday_old.Base.Words.{to_be_bytes}
use gday_old.HolePunch.Peer.{
  Crypto, get_verification_code, outbound_msg, code_sent, key_of, verify_peer,
}

module _ (crypto : Crypto) where
  -- Two peers with the same secret and opposite roles, each of which reads what the other writes:
  -- both verify the other, and they have the same key.
  pub verify_peer-agree :
      (peer_id a b : ℕ)
      → let key_a = key_of crypto peer_id a (outbound_msg crypto peer_id b) in
        let key_b = key_of crypto peer_id b (outbound_msg crypto peer_id a) in
        (key : Bytes) × (verify_peer crypto peer_id a true
            (outbound_msg crypto peer_id b)
            (code_sent crypto false key_b)
          ≡ ok key)
        × (verify_peer crypto peer_id b false
              (outbound_msg crypto peer_id a)
              (code_sent crypto true key_a)
            ≡ ok key)
  unfolding verify_peer
  verify_peer-agree peer_id a b =
      let (key, for_a, for_b) = crypto.same_key (to_be_bytes peer_id) a b in
      (
        key,
        rw (for_b, for_a, same_text_refl (get_verification_code crypto key false)),
        rw (for_a, for_b, same_text_refl (get_verification_code crypto key true)),
      )
