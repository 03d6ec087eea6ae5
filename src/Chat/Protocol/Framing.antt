-- ===== src/Chat/Protocol/Framing.antt =====
-- What `serialize_into` of gday_chat/src/protocol.rs writes, and `deserialize_from` reads back.
use gday_old.Base.{
  ℕ, ◌-◌, ◌≤◌, ◌<◌, ◌≡◌, refl, none, ◌++◌, le→leb, ltb, lt→ltb, ltb→lt, length, length-append,
  length-drop, drop, take-length-append, drop-length-append, replicate, arith, Bool-cases, inl, inr,
}
use gday_old.Base.Outcome.{ok, u32_mod}
use gday_old.Base.Text.{Bytes}
use gday_old.Base.Words.{to_be_bytes, from_be_bytes-to_be_bytes}
use gday_old.Chat.Protocol.{
  Message, Codec, Received, grown, serialize_into, read_message, deserialize_from,
}

-- What reading a written message leaves.
pub record Reads (msg : Message) (rest tmp_buf : Bytes) (got : Received) : Type 0 where
  pub message_eq : got.message ≡ msg
  pub rest_eq : got.rest ≡ rest
  pub no_shorter : length tmp_buf ≤ length got.tmp_buf

module _ (codec : Codec) where
  read_message-Reads :
      (eof : ℕ) (msg : Message) (s rest tmp_buf : Bytes)
      → codec.to_stdvec msg ≡ ok s
      → (got : Received) × (read_message codec eof (length s) (s ++ rest) tmp_buf ≡ ok got)
        × Reads msg rest tmp_buf got
  read_message-Reads eof msg s rest tmp_buf e =
      let junk = drop (length s) (grown (length s) tmp_buf) in
      let long = length-append s rest in
      (
        record { message = msg; rest = rest; tmp_buf = s ++ junk },
        rw (
          le→leb (length s) (length (s ++ rest)) (omega arith),
          take-length-append s rest,
          drop-length-append s rest,
          codec.from_bytes-to_stdvec msg s junk e,
        ),
        record { message_eq = refl; rest_eq = refl; no_shorter = enough },
      )
    where
      enough : length tmp_buf ≤ length (s ++ drop (length s) (grown (length s) tmp_buf))
      enough = elim (Bool-cases (ltb (length tmp_buf) (length s))) [
        | inl e ↦ rw e (
            omega (
              arith,
              ltb→lt (length tmp_buf) (length s) e,
              length-append s
                  (drop (length s) (tmp_buf ++ replicate (length s - length tmp_buf) 0)),
            ))
        | inr e ↦ rw e (
            omega
              (arith, length-append s (drop (length s) tmp_buf), length-drop (length s) tmp_buf))
      ]

  -- A message that postcard encodes, in fewer than 2^32 bytes: what `serialize_into` writes is read
  -- back by `deserialize_from` as that message, whatever the buffer holds, and what follows in the
  -- stream is left there.
  pub deserialize_from-serialize_into :
      (eof : ℕ) (msg : Message) (s rest tmp_buf : Bytes)
      → codec.to_stdvec msg ≡ ok s
      → length s < u32_mod
      → (written : Bytes) × (serialize_into codec none msg ≡ ok written)
        × (got : Received) × (deserialize_from codec eof (written ++ rest) tmp_buf ≡ ok got)
        × Reads msg rest tmp_buf got
  unfolding serialize_into deserialize_from to_be_bytes
  deserialize_from-serialize_into eof msg s rest tmp_buf e short =
      let (got, found, reads) = read_message-Reads eof msg s rest tmp_buf e in
      (
        to_be_bytes (length s) ++ s,
        rw (e, lt→ltb (length s) u32_mod short),
        got,
        rw
            (
              from_be_bytes-to_be_bytes (length s) short,
              le→leb 4 (length (to_be_bytes (length s) ++ (s ++ rest))) (omega arith),
            )
            found,
        reads,
      )
