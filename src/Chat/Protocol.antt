-- ===== src/Chat/Protocol.antt =====
-- gday_chat/src/protocol.rs: the messages about files and how they are framed. Postcard is a
-- parameter; how the stream's reads and writes fail is an argument.
pub mod Framing
use gday_old.Base.{
  ℕ, ◌+◌, ◌-◌, ◌^◌, ◌≡◌, Bool, true, false, Option, none, some, List, [], ◌∷◌, ◌++◌, leb, ltb,
  if◌then◌else◌, length, take, drop, replicate,
}
use gday_old.Base.Outcome.{Result, ok, err, u32_mod}
use gday_old.Base.Text.{Bytes}
use gday_old.Base.Words.{to_be_bytes, from_be_bytes}

-- A path is its text.
pub record FileMeta : Type 0 where
  pub path : Bytes
  pub size : ℕ

pub record LocalFileMeta : Type 0 where
  pub local_path : Bytes
  pub public_path : Bytes
  pub size : ℕ

pub data Message : Type 0 where
  file_offer : Option (List FileMeta) → Message
  file_accept : List Bool → Message

-- The errors of gday_chat/src/lib.rs; those of libraries are numbers.
pub data Error : Type 0 where
  postcard : ℕ → Error
  io : ℕ → Error
  message_too_long : Error
  rustyline_async : ℕ → Error
  non_utf8_message_received : Error
  unexpected_message : Message → Error

-- `to_stdvec` and `from_bytes` of postcard, which leaves bytes behind a message unread.
pub record Codec : Type 0 where
  pub to_stdvec : Message → Result ℕ Bytes
  pub from_bytes : Bytes → Result ℕ Message
  pub from_bytes-to_stdvec :
      (msg : Message) (s junk : Bytes) → to_stdvec msg ≡ ok s → from_bytes (s ++ junk) ≡ ok msg

-- What a read leaves: the message, the rest of the stream, and the buffer.
pub record Received : Type 0 where
  pub message : Message
  pub rest : Bytes
  pub tmp_buf : Bytes

-- `tmp_buf.resize(length, 0)`, where it is shorter.
abbrev pub grown : ℕ → Bytes → Bytes
grown len tmp_buf =
    if ltb (length tmp_buf) len then tmp_buf ++ replicate (len - length tmp_buf) 0 else tmp_buf

module _ (codec : Codec) where
  -- The bytes that are written; `write` is an error of the stream.
  abbrev pub prefixed : Option ℕ → Result ℕ Bytes → Result Error Bytes
  prefixed write (err e) = err (postcard e)
  prefixed none (ok s) =
      if ltb (length s) u32_mod then ok (to_be_bytes (length s) ++ s) else err message_too_long
  prefixed (some e) (ok s) = if ltb (length s) u32_mod then err (io e) else err message_too_long

  unfoldable pub serialize_into : Option ℕ → Message → Result Error Bytes
  serialize_into write msg = prefixed write (codec.to_stdvec msg)

  abbrev pub decoded : Bytes → Bytes → Result ℕ Message → Result Error Received
  decoded rest tmp_buf (err e) = err (postcard e)
  decoded rest tmp_buf (ok msg) = ok (record { message = msg; rest = rest; tmp_buf = tmp_buf })

  -- `read_exact` and what follows it.
  abbrev pub read_message : ℕ → ℕ → Bytes → Bytes → Result Error Received
  read_message eof len stream tmp_buf =
      let filled = take len stream ++ drop len (grown len tmp_buf) in
      if leb len (length stream)
      then decoded (drop len stream) filled (codec.from_bytes filled)
      else err (io eof)

  -- `eof` is the error of a read behind the stream's end.
  unfoldable pub deserialize_from : ℕ → Bytes → Bytes → Result Error Received
  deserialize_from eof stream tmp_buf =
      if leb 4 (length stream)
      then read_message eof (from_be_bytes (take 4 stream)) (drop 4 stream) tmp_buf
      else err (io eof)
