-- ===== src/Encryption/RoundTrip.antt =====
-- The writer of gday_encryption/src/writer.rs and the reader of gday_encryption/src/reader.rs at the
-- two ends of one connection, with one key and nonce.
use mathlib.Core.List.{flatten}
use gday_old.Base.{
  ℕ, ◌<◌, ◌≡◌, sym, ◌∙◌, ap, subst, Bool, true, false, List, [], ◌∷◌, ◌++◌, append_assoc,
  append-nil, if◌then◌else◌, All, Bool-cases, inl, inr,
}
use gday_old.Base.Outcome.{Profile}
use gday_old.Base.Text.{Bytes, is_empty}
use gday_old.Encryption.Frame.{Cipher}
use gday_old.Encryption.Writer.{EncryptedWriter}
use gday_old.Encryption.Writer.Stream.{is_empty→nil}
use gday_old.Encryption.Writer.Polls.{Delivered}
use gday_old.Encryption.Reader.{
  EncryptedReader, Answer, gives, waits, fails, invalid_data, panicked, running, Step, new_reader,
  poll_read,
}
use gday_old.Encryption.Reader.Decrypt.{Ends, Reading, new_reader-Reading}
use gday_old.Encryption.Reader.Delivery.{Read, StillRunning, poll_read-Read}

-- A call of `poll_read`: the inner reader's answers in it, and the room of the buffer.
pub record Call : Type 0 where
  pub answers : List Answer
  pub remaining : ℕ

-- What a caller has got, and whether it was told the end.
pub record Got : Type 0 where
  pub bytes : Bytes
  pub at_end : Bool

abbrev pub nothing : Got
nothing = record { bytes = []; at_end = false }

abbrev pub with_bytes : Bytes → Got → Got
with_bytes out got = record got { bytes = out ++ got.bytes }

-- The caller's way on: it stops at the end of the input, asks again where the poll waits or the
-- inner reader fails, and gets no further where the poll does not return.
abbrev pub collected : (EncryptedReader → Got) → Step Bytes → Got
collected more (gives out, r) =
    if is_empty out then (record { bytes = []; at_end = true }) else with_bytes out (more r)
collected more (waits, r) = more r
collected more (fails e, r) = more r
collected more (invalid_data, r) = nothing
collected more (panicked, r) = nothing
collected more (running, r) = nothing

-- What was got comes next in the whole, and is the rest of it if the end was told.
pub record IsNext (whole delivered : Bytes) (got : Got) : Type 0 where
  pub rest : Bytes
  pub whole_eq : whole ≡ delivered ++ (got.bytes ++ rest)
  pub complete : got.at_end ≡ true → whole ≡ delivered ++ got.bytes

module _ (cipher : Cipher) where
  unfoldable pub collect : Profile → List Call → EncryptedReader → Got
  collect p [] r = nothing
  collect p (call ∷ calls) r =
      collected (collect p calls) (poll_read cipher p call.answers call.remaining r)

  nothing-IsNext :
      (whole delivered : Bytes) (r : EncryptedReader)
      → Reading cipher whole delivered r
      → IsNext whole delivered nothing
  nothing-IsNext whole delivered r v = record {
    rest = _;
    whole_eq = v.whole_eq;
    complete = λ e. cc;
  }

  with_bytes-IsNext :
      (whole delivered out : Bytes) (got : Got)
      → IsNext whole (delivered ++ out) got
      → IsNext whole delivered (with_bytes out got)
  with_bytes-IsNext whole delivered out got n = record {
    rest = n.rest;
    whole_eq =
        n.whole_eq
        ∙ append_assoc delivered out _
        ∙ ap (λ s. delivered ++ s) (sym (append_assoc out got.bytes n.rest));
    complete = λ e. n.complete e ∙ append_assoc delivered out got.bytes;
  }

  end-IsNext :
      (whole delivered : Bytes)
      → whole ≡ delivered
      → IsNext whole delivered (record { bytes = []; at_end = true })
  end-IsNext whole delivered e =
      let same = e ∙ sym (append-nil delivered) in
      record { rest = []; whole_eq = same; complete = λ _. same }

  collected-IsNext :
      (whole delivered : Bytes) (call : Call) (more : EncryptedReader → Got) (m : Step Bytes)
      → ((delivered : Bytes) (r : EncryptedReader)
          → Reading cipher whole delivered r
          → IsNext whole delivered (more r))
      → Ends
          (Read cipher whole delivered call.remaining)
          (Reading cipher whole delivered)
          (StillRunning cipher whole delivered call.answers)
          m
      → IsNext whole delivered (collected more m)
  collected-IsNext whole delivered call more (gives out, r) ih (v, short, last) =
      elim (Bool-cases (is_empty out)) [
        | inl e ↦ rw e (end-IsNext whole delivered (last (is_empty→nil out e)))
        | inr e ↦ rw e (with_bytes-IsNext whole delivered out (more r) (ih (delivered ++ out) r v))
      ]
  collected-IsNext whole delivered call more (waits, r) ih v = ih delivered r v
  collected-IsNext whole delivered call more (fails e, r) ih v = ih delivered r v
  collected-IsNext whole delivered call more (invalid_data, r) ih h = absurd h
  collected-IsNext whole delivered call more (panicked, r) ih h = absurd h
  collected-IsNext whole delivered call more (running, r) ih (v, h) =
      nothing-IsNext whole delivered r v

  collect-IsNext :
      (p : Profile) (calls : List Call) (whole delivered : Bytes) (r : EncryptedReader)
      → All (λ call. 0 < call.remaining) calls
      → Reading cipher whole delivered r
      → IsNext whole delivered (collect p calls r)
  unfolding collect
  collect-IsNext p [] whole delivered r h v = nothing-IsNext whole delivered r v
  collect-IsNext p (call ∷ calls) whole delivered r (h, hs) v =
      collected-IsNext whole delivered call (collect p calls) _
        (λ delivered' r' v'. collect-IsNext p calls whole delivered' r' hs v')
        (poll_read-Read cipher p call.answers call.remaining whole delivered r v h)

  -- A writer has been flushed, and a reader is given what it wrote. In whatever pieces that arrives
  -- and is asked for, the reader gives a first part of the writer's input, unchanged, and all of it
  -- once it tells the end.
  pub collect-Delivered :
      (p : Profile) (calls : List Call) (input : Bytes) (w : EncryptedWriter)
      → All (λ call. 0 < call.remaining) calls
      → Delivered cipher input w
      → IsNext input [] (collect p calls (new_reader w.written))
  collect-Delivered p calls input w h d =
      subst (λ s. IsNext s [] (collect p calls (new_reader w.written))) (sym d.whole)
        (collect-IsNext p calls (flatten d.messages) [] (new_reader w.written) h
          (new_reader-Reading cipher d.messages w.written d.small d.sealed))
