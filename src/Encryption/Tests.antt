-- ===== src/Encryption/Tests.antt =====
-- Tests of gday_encryption, and the writer at work with a cipher of no secrecy.
use mathlib.Core.List.{flatten}
use gday_old.Base.Outcome.{debug, release}
use gday_old.Base.Words.{from_be_bytes, to_be_bytes}
use gday_old.Encryption.Frame.{frame, Sealed}
use gday_old.Encryption.Reader.{
  Answer, fills, gives, running, new_reader, poll_read, poll_fill_buf, peek_cipher_chunk,
}
use gday_old.Encryption.Reader.Decrypt
use gday_old.Encryption.Reader.Decrypt.{Reading, new_reader-Reading}
use gday_old.Encryption.Reader.Delivery.{
  Read, StillRunning, poll_read-Read, Shown, poll_fill_buf-Shown,
}
use gday_old.Encryption.Reader.Endless.{cleartext_left, at_end, poll_read_at_end}
use gday_old.Encryption.Session.{
  WriterCall, writes, flushes, Honest, Carried, send_calls, send_calls-collect,
}
use gday_old.Encryption.RoundTrip.{Call}
use gday_old.Base.{
  List, ◌-◌, ◌≡◌, refl, sym, ◌∙◌, ap, [], ◌∷◌, ◌++◌, some, length, length-append, take,
  take-length-append, arith, inr, true, false,
}
use gday_old.Base.Text.{Bytes}
use gday_old.Encryption.HelperBuf.{HelperBuf, advance_cursor, unread, max_chunk_size}
use gday_old.Encryption.Frame.{Cipher}
use gday_old.Encryption.Writer.{
  EncryptedWriter, wrote, ready, new_writer, poll_write, poll_flush, poll_flush_local, seal_pending,
}
use gday_old.Encryption.Writer.Drains.{poll_flush_drained}
use gday_old.Encryption.Writer.Stream.{Ends, Inv}
use gday_old.Encryption.Writer.Polls.{new_writer-Inv, Took, Delivered, poll_write-Took}

abbrev tag : Bytes
tag = 0 ∷ 0 ∷ 0 ∷ 0 ∷ 0 ∷ 0 ∷ 0 ∷ 0 ∷ 0 ∷ 0 ∷ 0 ∷ 0 ∷ 0 ∷ 0 ∷ 0 ∷ 0 ∷ []

some_injective : (m : Bytes) (c : Bytes) → some m ≡ some c → m ≡ c
some_injective m c e = cc

untagged : (m : Bytes) → take (length (m ++ tag) - 16) (m ++ tag) ≡ m
untagged m =
    ap (λ k. take k (m ++ tag)) (omega (arith, length-append m tag)) ∙ take-length-append m tag

-- A tag of zeros behind the message.
abbrev clear_text : Cipher
clear_text = record {
  encrypt = λ _ m. some (m ++ tag);
  decrypt = λ _ c. some (take (length c - 16) c);
  decrypt_encrypt = λ n m c e.
      ap (λ s. some (take (length s - 16) s)) (sym (some_injective (m ++ tag) c e))
      ∙ ap some (untagged m);
  overhead = λ n m c e. ap length (sym (some_injective (m ++ tag) c e)) ∙ length-append m tag;
}

abbrev half_read : HelperBuf
half_read = record { buf = 1 ∷ 2 ∷ 3 ∷ 4 ∷ []; cursor = 2; capacity = 8 }

-- Two bytes are collected.
abbrev holding : EncryptedWriter
holding = record {
  written = [];
  counter = 0;
  bytes = record { buf = 0 ∷ 0 ∷ 0 ∷ 0 ∷ 7 ∷ 8 ∷ []; cursor = 0; capacity = max_chunk_size };
  is_flushing = false;
}

holding-Inv : Inv clear_text (7 ∷ 8 ∷ []) holding
unfolding flatten
holding-Inv = inr (
  record {
    off = refl;
    capacity_eq = refl;
    at_start = refl;
    header = omega arith;
    room = omega arith;
    messages = [];
    small = tt;
    sealed = refl;
    counted = refl;
    whole = refl;
  },
  omega arith,
)

-- A writer that has just been made takes three bytes.
poll_write-Took_example :
    Ends
      (Took clear_text [] (1 ∷ 2 ∷ 3 ∷ []))
      (Inv clear_text [])
      (poll_write clear_text [] (1 ∷ 2 ∷ 3 ∷ []) new_writer)
poll_write-Took_example =
    poll_write-Took clear_text [] [] (1 ∷ 2 ∷ 3 ∷ []) new_writer (new_writer-Inv clear_text) tt

test_write : (poll_write clear_text [] (1 ∷ 2 ∷ 3 ∷ []) new_writer).0 ≡ ready 3
unfolding poll_write poll_flush_local
test_write = refl

sealed_length :
    (w : EncryptedWriter)
    → seal_pending clear_text holding ≡ (ready tt, w)
    → length (unread w.bytes) ≡ 22
unfolding seal_pending to_be_bytes
sealed_length w e = sym (ap (λ s. length (unread s.1.bytes)) e)

-- The frame of the two bytes is being written.
abbrev sealed_two : EncryptedWriter
sealed_two = record holding {
  counter = 1;
  bytes = record { buf = 0 ∷ 0 ∷ 0 ∷ 18 ∷ 7 ∷ 8 ∷ tag; cursor = 0; capacity = max_chunk_size };
  is_flushing = true;
}

is_sealed : seal_pending clear_text holding ≡ (ready tt, sealed_two)
unfolding seal_pending to_be_bytes
is_sealed = refl

-- The inner writer takes the frame in two pieces.
poll_flush_drained_example :
    (w : EncryptedWriter) × (poll_flush clear_text (wrote 10 ∷ wrote 12 ∷ []) (ready tt) holding
      ≡ (ready tt, w))
    × Delivered clear_text (7 ∷ 8 ∷ []) w
poll_flush_drained_example =
    poll_flush_drained clear_text (wrote 10 ∷ wrote 12 ∷ []) (7 ∷ 8 ∷ []) holding sealed_two
      holding-Inv is_sealed (omega arith, (omega arith, refl))

-- The frame of two bytes on the wire.
abbrev wire : Bytes
wire = frame (7 ∷ 8 ∷ tag)

wire-Sealed : Sealed clear_text 0 ((7 ∷ 8 ∷ []) ∷ []) wire
unfolding to_be_bytes
wire-Sealed = (7 ∷ 8 ∷ tag, [], refl, refl, refl)

fresh-Reading : Reading clear_text (7 ∷ 8 ∷ []) [] (new_reader wire)
unfolding flatten
fresh-Reading = new_reader-Reading clear_text ((7 ∷ 8 ∷ []) ∷ []) wire (omega arith, tt) wire-Sealed

-- The frame arrives in two pieces, the first of which is shorter than a length.
abbrev pieces : List Answer
pieces = fills 2 ∷ fills 99 ∷ Answer.pending ∷ []

poll_read-Read_example :
    Decrypt.Ends
      (Read clear_text (7 ∷ 8 ∷ []) [] 5)
      (Reading clear_text (7 ∷ 8 ∷ []) [])
      (StillRunning clear_text (7 ∷ 8 ∷ []) [] pieces)
      (poll_read clear_text debug pieces 5 (new_reader wire))
poll_read-Read_example =
    poll_read-Read clear_text debug pieces 5 (7 ∷ 8 ∷ []) [] (new_reader wire) fresh-Reading
      (omega arith)

poll_fill_buf-Shown_example :
    Decrypt.Ends
      (Shown clear_text (7 ∷ 8 ∷ []) [])
      (Reading clear_text (7 ∷ 8 ∷ []) [])
      (StillRunning clear_text (7 ∷ 8 ∷ []) [] pieces)
      (poll_fill_buf clear_text release pieces (new_reader wire))
poll_fill_buf-Shown_example =
    poll_fill_buf-Shown clear_text release pieces (7 ∷ 8 ∷ []) [] (new_reader wire) fresh-Reading

test_read : (poll_read clear_text debug pieces 5 (new_reader wire)).0 ≡ gives (7 ∷ 8 ∷ [])
unfolding poll_read peek_cipher_chunk to_be_bytes from_be_bytes advance_cursor
test_read = refl

-- Two bytes are there, and five are wanted.
poll_read_at_end_example :
    poll_read clear_text release
      (fills 0 ∷ fills 0 ∷ [])
      5
      (at_end 1 (cleartext_left (7 ∷ 8 ∷ []) 0))
    ≡ (running, at_end 1 (cleartext_left (7 ∷ 8 ∷ []) 0))
poll_read_at_end_example =
    poll_read_at_end clear_text release (fills 0 ∷ fills 0 ∷ []) 1 5 (7 ∷ 8 ∷ []) 0 tt (omega arith)
      (omega arith)

abbrev calls : List Call
calls =
    record { answers = pieces; remaining = 1 }
    ∷ record { answers = []; remaining = 5 }
    ∷ record { answers = fills 0 ∷ []; remaining = 5 }
    ∷ []

-- Two bytes are taken, and then flushed.
abbrev two_polls : List WriterCall
two_polls = writes (7 ∷ 8 ∷ []) [] ∷ flushes (wrote 22 ∷ []) (ready tt) ∷ []

two_polls-Honest : Honest clear_text two_polls new_writer
unfolding poll_write poll_flush_local
two_polls-Honest = (tt, ((λ e. cc), (λ w e. (omega (arith, sealed_length w e), tt)), tt))

send_calls-collect_example :
    Carried clear_text debug calls (send_calls clear_text two_polls [] new_writer false)
send_calls-collect_example =
    send_calls-collect clear_text debug two_polls calls two_polls-Honest
      (omega arith, (omega arith, (omega arith, tt)))
