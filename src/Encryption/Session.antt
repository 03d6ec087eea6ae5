-- ===== src/Encryption/Session.antt =====
-- The writer of gday_encryption/src/writer.rs under any sequence of polls, and the reader of
-- gday_encryption/src/reader.rs behind it.
use gday_old.Base.{
  ◌<◌, ◌≡◌, ◌≢◌, refl, Bool, true, false, List, [], ◌∷◌, ◌++◌, take, length, append-nil, All,
}
use gday_old.Base.Outcome.{Profile}
use gday_old.Base.Text.{Bytes}
use gday_old.Encryption.HelperBuf.{unread}
use gday_old.Encryption.Frame.{Cipher}
use gday_old.Encryption.Writer.{
  EncryptedWriter, Answer, Poll, ready, failed, invalid_data, panicked, Step, new_writer,
  poll_write, seal_pending, poll_flush,
}
use gday_old.Encryption.Writer.Stream.{Fits, Ends, Inv}
use gday_old.Encryption.Writer.Polls.{
  new_writer-Inv, Took, Delivered, poll_write-Took, poll_flush-Delivered,
}
use gday_old.Encryption.Reader.{new_reader}
use gday_old.Encryption.RoundTrip.{Call, IsNext, collect, collect-Delivered}

-- A poll of the writer, with the inner writer's answers in it.
pub data WriterCall : Type 0 where
  writes : Bytes → List Answer → WriterCall
  flushes : List Answer → Poll (Unit {0}) → WriterCall

-- What the caller has: the bytes that have been taken, the writer, and whether they are flushed. A
-- caller gives up when the cipher fails.
pub data Sending : Type 0 where
  going : Bytes → EncryptedWriter → Bool → Sending
  cipher_failed : Sending
  crashed : Sending

-- The caller's way on, with the bytes that a value stands for.
abbrev pub sent_on :
    {A : Type 0}
    → (A → Bytes)
    → Bool
    → Bytes
    → (Bytes → EncryptedWriter → Bool → Sending)
    → Step A
    → Sending
sent_on taken flushed input more (ready a, w) = more (input ++ taken a) w flushed
sent_on taken flushed input more (Poll.pending, w) = more input w false
sent_on taken flushed input more (failed e, w) = more input w false
sent_on taken flushed input more (invalid_data, w) = cipher_failed
sent_on taken flushed input more (panicked, w) = crashed

Ends-weaken :
    {A : Type 0} (P P' : A → EncryptedWriter → Type 0) (Q : EncryptedWriter → Type 0) (m : Step A)
    → ((a : A) (w : EncryptedWriter) → P a w → P' a w)
    → Ends P Q m
    → Ends P' Q m
Ends-weaken P P' Q (ready a, w) f h = f a w h
Ends-weaken P P' Q (Poll.pending, w) f h = h
Ends-weaken P P' Q (failed e, w) f h = h
Ends-weaken P P' Q (invalid_data, w) f h = h
Ends-weaken P P' Q (panicked, w) f h = h

module _ (cipher : Cipher) where
  unfoldable pub send_calls : List WriterCall → Bytes → EncryptedWriter → Bool → Sending
  send_calls [] input w flushed = going input w flushed
  send_calls (writes buf answers ∷ calls) input w flushed =
      sent_on (λ n. take n buf) false input (send_calls calls) (poll_write cipher answers buf w)
  send_calls (flushes answers inner ∷ calls) input w flushed =
      sent_on (λ _. []) true input (send_calls calls) (poll_flush cipher answers inner w)

  -- In every poll the inner writer answers with at most the bytes that it was given, and does not
  -- panic.
  abbrev pub Honest : List WriterCall → EncryptedWriter → Type 0
  Honest [] w = Unit
  Honest (writes buf answers ∷ calls) w =
      Fits (length (unread w.bytes)) answers × Honest calls (poll_write cipher answers buf w).1
  Honest (flushes answers inner ∷ calls) w =
      (inner ≢ panicked)
      × ((w' : EncryptedWriter)
          → seal_pending cipher w ≡ (ready tt, w')
          → Fits (length (unread w'.bytes)) answers)
      × Honest calls (poll_flush cipher answers inner w).1

  abbrev OnceFlushed : Bytes → EncryptedWriter → Bool → Type 0
  OnceFlushed input w flushed = flushed ≡ true → Delivered cipher input w

  -- The writer is in order, and has delivered what it has taken if it is flushed.
  abbrev InOrder : Sending → Type 0
  InOrder (going input w flushed) = Inv cipher input w × OnceFlushed input w flushed
  InOrder cipher_failed = Unit
  InOrder crashed = ⊥

  sent_on-InOrder :
      {A : Type 0} (taken : A → Bytes) (flushed : Bool) (input : Bytes)
      (more : Bytes → EncryptedWriter → Bool → Sending) (m : Step A)
      → ((input : Bytes) (flushed : Bool)
          → Inv cipher input m.1
          → OnceFlushed input m.1 flushed
          → InOrder (more input m.1 flushed))
      → Ends
          (λ a w. Inv cipher (input ++ taken a) w × OnceFlushed (input ++ taken a) w flushed)
          (Inv cipher input)
          m
      → InOrder (sent_on taken flushed input more m)
  sent_on-InOrder taken flushed input more (ready a, w) on (v, d) =
      on (input ++ taken a) flushed v d
  sent_on-InOrder taken flushed input more (Poll.pending, w) on v = on input false v (λ e. cc)
  sent_on-InOrder taken flushed input more (failed e, w) on v = on input false v (λ e. cc)
  sent_on-InOrder taken flushed input more (invalid_data, w) on v = tt
  sent_on-InOrder taken flushed input more (panicked, w) on v = v

  send_calls-InOrder :
      (calls : List WriterCall) (input : Bytes) (w : EncryptedWriter) (flushed : Bool)
      → Honest calls w
      → Inv cipher input w
      → OnceFlushed input w flushed
      → InOrder (send_calls calls input w flushed)
  unfolding send_calls
  send_calls-InOrder [] input w flushed h v d = (v, d)
  send_calls-InOrder (writes buf answers ∷ calls) input w flushed (f, h) v d =
      sent_on-InOrder (λ n. take n buf) false input (send_calls calls) _
        (λ input' flushed' v' d'. send_calls-InOrder calls input' _ flushed' h v' d')
        (Ends-weaken (Took cipher input buf) _ (Inv cipher input) _
          (λ n w' (v', _, _). (v', λ e. cc)) (poll_write-Took cipher answers input buf w v f))
  send_calls-InOrder (flushes answers inner ∷ calls) input w flushed (calm, f, h) v d =
      sent_on-InOrder (λ _. []) true input (send_calls calls) _
        (λ input' flushed' v' d'. send_calls-InOrder calls input' _ flushed' h v' d')
        (Ends-weaken (λ _ w'. Inv cipher input w' × Delivered cipher input w') _ (Inv cipher input)
          _ (λ _ w' (v', d'). (rw append-nil v', λ e. rw append-nil d'))
          (poll_flush-Delivered cipher answers inner input w v calm f))

  -- What a reader is given is what the writer has written: a first part of the bytes that were taken.
  abbrev pub Carried : Profile → List Call → Sending → Type 0
  Carried p reads (going input w false) = Unit
  Carried p reads (going input w true) =
      IsNext input [] (collect cipher p reads (new_reader w.written))
  Carried p reads cipher_failed = Unit
  Carried p reads crashed = ⊥

  carried :
      (p : Profile) (reads : List Call) (s : Sending)
      → All (λ call. 0 < call.remaining) reads
      → InOrder s
      → Carried p reads s
  carried p reads (going input w false) h v = tt
  carried p reads (going input w true) h (v, d) =
      collect-Delivered cipher p reads input w h (d refl)
  carried p reads cipher_failed h v = tt
  carried p reads crashed h v = v

  -- A new writer is polled to write and to flush in any order and with any buffers, over an inner
  -- writer that is slow, waits or fails, but takes no more than it is given. It does not panic; and
  -- where its last poll was a flush that succeeded, a new reader that is given what was written gives
  -- a first part of the bytes that the writer took, unchanged, in whatever pieces they arrive and are
  -- asked for, and all of them once it tells the end.
  pub send_calls-collect :
      (p : Profile) (calls : List WriterCall) (reads : List Call)
      → Honest calls new_writer
      → All (λ call. 0 < call.remaining) reads
      → Carried p reads (send_calls calls [] new_writer false)
  send_calls-collect p calls reads honest h =
      carried p reads _ h
        (send_calls-InOrder calls [] new_writer false honest (new_writer-Inv cipher) (λ e. cc))
