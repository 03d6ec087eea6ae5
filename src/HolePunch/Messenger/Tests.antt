-- ===== src/HolePunch/Messenger/Tests.antt =====
-- Tests of the Messenger of gday_hole_punch/src/lib.rs, with a codec of two messages.
use gday_old.Base.{ℕ, zero, suc, ◌≡◌, refl, sym, ap, none, [], ◌∷◌, ◌++◌, arith}
use gday_old.Base.Outcome.{returns, Result, ok, err}
use gday_old.Base.Text.{Bytes, codes}
use gday_old.HolePunch.Contact.{
  ClientMessage, create_room, join_room, send_private_addr, done_sending,
}
use gday_old.HolePunch.Messenger.{Codec, Messenger, with_capacity, write_msg, next_msg}
use gday_old.HolePunch.Messenger.Framing.{Transferred, frame_of, next_msg-write_msg}

abbrev encoded : ClientMessage → Result ℕ Bytes
encoded create_room = ok (zero ∷ [])
encoded (join_room room_id) = err 1
encoded (send_private_addr addr) = err 1
encoded done_sending = ok (suc zero ∷ [])

abbrev decoded : Bytes → Result ℕ ClientMessage
decoded [] = err 2
decoded (zero ∷ s) = ok create_room
decoded (suc c ∷ s) = ok done_sending

ok_bytes : (a b : Bytes) → (let r : Result ℕ Bytes = ok a in r ≡ ok b) → a ≡ b
ok_bytes a b e = cc

decoded-encoded : (msg : ClientMessage) (s : Bytes) → encoded msg ≡ ok s → decoded s ≡ ok msg
decoded-encoded create_room s e = ap decoded (sym (ok_bytes (zero ∷ []) s e))
decoded-encoded (join_room room_id) s e = cc
decoded-encoded (send_private_addr addr) s e = cc
decoded-encoded done_sending s e = ap decoded (sym (ok_bytes (suc zero ∷ []) s e))

abbrev two_messages : Codec ClientMessage
two_messages = record {
  encode = encoded;
  decode = decoded;
  buffer_full = 3;
  decode-encode = decoded-encoded;
}

-- The capacity that both sides of the program use.
abbrev writer : Messenger
writer = with_capacity [] 68

abbrev reader : Messenger
reader = with_capacity (frame_of (1 ∷ []) ++ codes "more") 68

next_msg-write_msg_example :
    (w' : Messenger) × (r' : Messenger) × (write_msg two_messages none done_sending writer
      ≡ (returns (ok tt), w'))
    × (next_msg two_messages 9 reader ≡ (returns (ok done_sending), r'))
    × Transferred writer w' reader r' (frame_of (1 ∷ [])) (codes "more")
next_msg-write_msg_example =
    next_msg-write_msg two_messages 9 done_sending (1 ∷ []) (codes "more") writer reader refl
      (omega arith) refl (omega arith) refl
