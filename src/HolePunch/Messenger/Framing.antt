-- ===== src/HolePunch/Messenger/Framing.antt =====
-- What `write_msg` of gday_hole_punch/src/lib.rs sends, and `next_msg` reads back.
use gday_old.Base.{
  ℕ, ◌+◌, ◌-◌, ◌≤◌, ◌<◌, ◌≡◌, refl, ◌∙◌, ap, false, none, ◌++◌, le→leb, ltb, lt→ltb, length,
  length-append, length-drop, take, drop, take-length-append, drop-length-append, arith,
}
use gday_old.Base.Outcome.{returns, ok, u32_mod}
use gday_old.Base.Text.{Bytes}
use gday_old.Base.Words.{to_be_bytes, from_be_bytes-to_be_bytes, length-to_be_bytes}
use gday_old.HolePunch.Messenger.{Codec, Messenger, framed, write_msg, next_msg}

le→ltb : (a b : ℕ) → b ≤ a → ltb a b ≡ false
le→ltb a b h = ground arith

-- What a message's transfer leaves: the reader has read the message and nothing else, and both
-- buffers have the length that they had.
pub record Transferred (w w' r r' : Messenger) (frame rest : Bytes) : Type 0 where
  pub written_eq : w'.written ≡ w.written ++ frame
  pub rest_eq : r'.incoming ≡ rest
  pub writer_buf : length w'.buf ≡ length w.buf
  pub reader_buf : length r'.buf ≡ length r.buf

-- The length and the encoding.
abbrev pub frame_of : Bytes → Bytes
frame_of s = to_be_bytes (length s) ++ s

module _ {A : Type 0} (codec : Codec A) where
  taken_frame : (s buf : Bytes) → take (4 + length s) (framed codec s buf) ≡ frame_of s
  unfolding to_be_bytes
  taken_frame s buf =
      let tail = drop (4 + length s) buf in
      let whole = to_be_bytes (length s) ++ s in
      ap (λ k. take k (whole ++ tail)) {y = length whole} (omega arith)
      ∙ take-length-append whole tail

  writes :
      (msg : A) (s : Bytes) (w : Messenger)
      → codec.encode msg ≡ ok s
      → 4 + length s ≤ length w.buf
      → length s < u32_mod
      → write_msg codec none msg w ≡ (
        returns (ok tt),
        record w { written = w.written ++ frame_of s; buf = framed codec s w.buf },
      )
  unfolding write_msg
  writes msg s w e room short =
      rw
        (
          le→ltb (length w.buf) 4 (omega arith),
          e,
          le→ltb (length w.buf - 4) (length s) (omega arith),
          lt→ltb (length s) u32_mod short,
          taken_frame s w.buf,
        )
        refl

  reads :
      (eof : ℕ) (msg : A) (s rest : Bytes) (r : Messenger)
      → codec.encode msg ≡ ok s
      → length s ≤ length r.buf
      → length s < u32_mod
      → r.incoming ≡ frame_of s ++ rest
      → next_msg codec eof r
        ≡ (returns (ok msg), record r { incoming = rest; buf = s ++ drop (length s) r.buf })
  unfolding next_msg to_be_bytes
  reads eof msg s rest r e room short wire =
      let long = length-append s rest in
      rw
        (
          wire,
          le→leb 4 (length (frame_of s ++ rest)) (omega arith),
          from_be_bytes-to_be_bytes (length s) short,
          le→ltb (length r.buf) (length s) room,
          le→leb (length s) (length (s ++ rest)) (omega arith),
          take-length-append s rest,
          drop-length-append s rest,
          take-length-append s (drop (length s) r.buf),
          codec.decode-encode msg s e,
        )
        refl

  -- A message whose encoding, with its length in front, fits in the writer's buffer: `write_msg`
  -- writes it, and `next_msg` of a reader whose buffer is as long reads it back and nothing behind it.
  -- Both buffers keep their length.
  pub next_msg-write_msg :
      (eof : ℕ) (msg : A) (s rest : Bytes) (w r : Messenger)
      → codec.encode msg ≡ ok s
      → 4 + length s ≤ length w.buf
      → length r.buf ≡ length w.buf
      → length w.buf < u32_mod
      → r.incoming ≡ frame_of s ++ rest
      → (w' : Messenger) × (r' : Messenger) × (write_msg codec none msg w ≡ (returns (ok tt), w'))
        × (next_msg codec eof r ≡ (returns (ok msg), r'))
        × Transferred w w' r r' (frame_of s) rest
  next_msg-write_msg eof msg s rest w r e room same small wire =
      let tail = length-append s (drop (4 + length s) w.buf) in
      let cut = length-drop (4 + length s) w.buf in
      let header = length-append (to_be_bytes (length s)) (s ++ drop (4 + length s) w.buf) in
      let kept = length-append s (drop (length s) r.buf) in
      let cut' = length-drop (length s) r.buf in
      (
        record w { written = w.written ++ frame_of s; buf = framed codec s w.buf },
        record r { incoming = rest; buf = s ++ drop (length s) r.buf },
        writes msg s w e room (omega arith),
        reads eof msg s rest r e (omega arith) (omega arith) wire,
        record {
          written_eq = refl;
          rest_eq = refl;
          writer_buf = omega (arith, length-to_be_bytes (length s));
          reader_buf = omega arith;
        },
      )
