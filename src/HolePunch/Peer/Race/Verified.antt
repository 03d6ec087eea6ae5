-- ===== src/HolePunch/Peer/Race/Verified.antt =====
-- What the verification of a stream in gday_hole_punch/src/client/peer_connector.rs tells of its other
-- end.
use mathlib.Core.Bool.{not}
use gday_old.Base.{ℕ, ◌≡◌, refl, ◌∙◌, ap, Bool, inl, inr, Bool-cases}
use gday_old.Base.Outcome.{Result, ok, err}
use gday_old.Base.Text.{Bytes, same_text, same_text→eq, same_text_refl}
use gday_old.Base.Words.{to_be_bytes}
use gday_old.HolePunch.Peer.{
  Crypto, key_of, compared, get_verification_code, outbound_msg, code_sent,
}
use gday_old.HolePunch.Peer.Race.{Call, gives, broken, silent, Stream, ready, keyed, verify_stream}

module _ (crypto : Crypto) (peer_id : ℕ) (is_creator : Bool) where
  -- The stream's peer has the key, and has shown it by the code of the other role.
  pub record Knows (stream : Stream) (key : Bytes) : Type 0 where
    pub inbound : Bytes
    pub message_read : stream.inbound_message ≡ gives inbound
    pub key_eq : key_of crypto peer_id stream.choice inbound ≡ ok key
    pub code_read : stream.received ≡ gives (get_verification_code crypto key (not is_creator))

  stream_of : ℕ → Call (Unit {0}) → Call Bytes → Call (Unit {0}) → Call Bytes → Stream
  stream_of choice w i c r = record {
    choice = choice;
    message_written = w;
    inbound_message = i;
    code_written = c;
    received = r;
  }

  compared-Knows :
      (choice : ℕ) (w c : Call (Unit {0})) (inbound received key own : Bytes)
      → key_of crypto peer_id choice inbound ≡ ok own
      → compared crypto is_creator received (ok own) ≡ ok key
      → Knows (stream_of choice w (gives inbound) c (gives received)) key
  unfolding stream_of
  compared-Knows choice w c inbound received key own ek e =
      let code = get_verification_code crypto own (not is_creator) in
      elim (Bool-cases (same_text received code)) [
        | inl same ↦
            let e' = rw same at e in
            let own_eq : own ≡ key = cc in
            record {
              inbound = inbound;
              message_read = refl;
              key_eq = ek ∙ ap ok own_eq;
              code_read = ap gives (
                  same_text→eq received code same
                  ∙ ap (λ k. get_verification_code crypto k (not is_creator)) own_eq);
            }
        | inr other ↦ let e' = rw other at e in cc
      ]

  keyed-Knows :
      (choice : ℕ) (w c : Call (Unit {0})) (r : Call Bytes) (inbound key : Bytes)
      (own : Result ℕ Bytes)
      → key_of crypto peer_id choice inbound ≡ own
      → keyed crypto peer_id is_creator (stream_of choice w (gives inbound) c r) own
        ≡ ready (ok key)
      → Knows (stream_of choice w (gives inbound) c r) key
  unfolding stream_of
  keyed-Knows choice w c r inbound key (err k) ek e = cc
  keyed-Knows choice w (broken k) r inbound key (ok own) ek e = cc
  keyed-Knows choice w silent r inbound key (ok own) ek e = cc
  keyed-Knows choice w (gives u) (broken k) inbound key (ok own) ek e = cc
  keyed-Knows choice w (gives u) silent inbound key (ok own) ek e = cc
  keyed-Knows choice w (gives u) (gives received) inbound key (ok own) ek e =
      compared-Knows choice w (gives u) inbound received key own ek (cc)

  parts-Knows :
      (choice : ℕ) (w c : Call (Unit {0})) (i r : Call Bytes) (key : Bytes)
      → verify_stream crypto peer_id is_creator (stream_of choice w i c r) ≡ ready (ok key)
      → Knows (stream_of choice w i c r) key
  unfolding stream_of verify_stream
  parts-Knows choice (broken k) c i r key e = cc
  parts-Knows choice silent c i r key e = cc
  parts-Knows choice (gives u) c (broken k) r key e = cc
  parts-Knows choice (gives u) c silent r key e = cc
  parts-Knows choice (gives u) c (gives inbound) r key e =
      keyed-Knows choice (gives u) c r inbound key (key_of crypto peer_id choice inbound) refl e

  pub verify_stream-Knows :
      (stream : Stream) (key : Bytes)
      → verify_stream crypto peer_id is_creator stream ≡ ready (ok key)
      → Knows stream key
  unfolding stream_of
  verify_stream-Knows stream key e =
      parts-Knows stream.choice stream.message_written stream.code_written stream.inbound_message
        stream.received key e

  -- The other end has the same secret, and does what the code does; what is written on the stream goes
  -- through.
  pub record Honest (stream : Stream) : Type 0 where
    pub choice : ℕ
    pub message_written : stream.message_written ≡ gives tt
    pub inbound_eq : stream.inbound_message ≡ gives (outbound_msg crypto peer_id choice)
    pub code_written : stream.code_written ≡ gives tt
    pub received_eq :
        stream.received
        ≡ gives (
            code_sent crypto
              (not is_creator)
              (key_of crypto peer_id choice (outbound_msg crypto peer_id stream.choice)))

  pub verify_stream-Honest :
      (stream : Stream)
      → Honest stream
      → (key : Bytes) × (verify_stream crypto peer_id is_creator stream ≡ ready (ok key))
  unfolding verify_stream
  verify_stream-Honest stream h =
      let (key, mine, theirs) = crypto.same_key (to_be_bytes peer_id) stream.choice h.choice in
      (
        key,
        rw (
          h.message_written,
          h.inbound_eq,
          mine,
          h.code_written,
          h.received_eq,
          theirs,
          same_text_refl (get_verification_code crypto key (not is_creator)),
        ),
      )
