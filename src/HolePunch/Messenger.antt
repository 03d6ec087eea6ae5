-- ===== src/HolePunch/Messenger.antt =====
-- The Messenger of gday_hole_punch/src/lib.rs, which frames the messages of both sides over a buffer
-- of fixed length. Postcard is a parameter; TLS is left out, and the stream to the peer is what has
-- been written and what will be read.
pub mod Framing
mod Tests
use gday_old.Base.{
  ℕ, ◌+◌, ◌-◌, ◌≡◌, Bool, true, false, Option, none, some, List, [], ◌∷◌, ◌++◌, leb, ltb,
  if◌then◌else◌, length, take, drop, replicate,
}
use gday_old.Base.Outcome.{Outcome, returns, panics, Result, ok, err, u32_mod}
use gday_old.Base.Text.{Bytes}
use gday_old.Base.Words.{to_be_bytes, from_be_bytes}
use gday_old.HolePunch.Contact.{
  SerializationError, postcard, io, tmp_buf_too_small, message_too_long,
}

-- Postcard for one type of messages. `buffer_full` is its error where the encoding does not fit.
pub record Codec (A : Type 0) : Type 0 where
  pub encode : A → Result ℕ Bytes
  pub decode : Bytes → Result ℕ A
  pub buffer_full : ℕ
  pub decode-encode : (msg : A) (s : Bytes) → encode msg ≡ ok s → decode s ≡ ok msg

pub record Messenger : Type 0 where
  pub written : Bytes
  pub incoming : Bytes
  pub buf : Bytes

-- `with_capacity`, over a stream from which this will be read.
abbrev pub with_capacity : Bytes → ℕ → Messenger
with_capacity incoming capacity = record {
  written = [];
  incoming = incoming;
  buf = replicate capacity 0;
}

abbrev pub Step : Type 0 → Type 0
Step B = Outcome (Result SerializationError B) × Messenger

module _ {A : Type 0} (codec : Codec A) where
  -- The encoded message goes behind the first four bytes of the buffer, and its length into those.
  abbrev pub framed : Bytes → Bytes → Bytes
  framed s buf = to_be_bytes (length s) ++ (s ++ drop (4 + length s) buf)

  -- Writing the frame, which the stream may fail at.
  abbrev pub sent : Option ℕ → ℕ → Messenger → Step (Unit {0})
  sent none len m = (returns (ok tt), record m { written = m.written ++ take (4 + len) m.buf })
  sent (some e) len m = (returns (err (io e)), m)

  -- `write_msg` behind the encoding. What a failed encoding leaves in the buffer is not modelled: the
  -- buffer is written before it is read.
  abbrev pub put : Option ℕ → Result ℕ Bytes → Messenger → Step (Unit {0})
  put write (err e) m = (returns (err (postcard e)), m)
  put write (ok s) m =
      if ltb (length m.buf - 4) (length s)
      then (returns (err (postcard codec.buffer_full)), m)
      else if ltb (length s) u32_mod
      then sent write (length s) (record m { buf = framed s m.buf })
      else (returns (err message_too_long), m)

  -- `self.buf[4..]` panics where the buffer is shorter.
  unfoldable pub write_msg : Option ℕ → A → Messenger → Step (Unit {0})
  write_msg write msg m =
      if ltb (length m.buf) 4 then (panics, m) else put write (codec.encode msg) m

  abbrev pub decoded : Result ℕ A → Messenger → Step A
  decoded (err e) m = (returns (err (postcard e)), m)
  decoded (ok msg) m = (returns (ok msg), m)

  -- `read_exact` and what follows it.
  abbrev pub read_body : ℕ → ℕ → Messenger → Step A
  read_body eof len m =
      let buf = take len m.incoming ++ drop len m.buf in
      if leb len (length m.incoming)
      then decoded (codec.decode (take len buf))
          (record m { incoming = drop len m.incoming; buf = buf })
      else (returns (err (io eof)), record m { incoming = [] })

  abbrev pub read_sized : ℕ → ℕ → Messenger → Step A
  read_sized eof len m =
      if ltb (length m.buf) len then (returns (err tmp_buf_too_small), m) else read_body eof len m

  -- `eof` is the error of a read behind the stream's end.
  unfoldable pub next_msg : ℕ → Messenger → Step A
  next_msg eof m =
      if leb 4 (length m.incoming)
      then read_sized eof (from_be_bytes (take 4 m.incoming))
          (record m { incoming = drop 4 m.incoming })
      else (returns (err (io eof)), record m { incoming = [] })
