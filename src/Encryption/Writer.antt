-- ===== src/Encryption/Writer.antt =====
-- gday_encryption/src/writer.rs: the writer as a state machine. What the inner writer answers to the
-- calls of one poll is a list; behind its end the inner writer is pending. The debug assertions, on
-- the capacity and on `is_flushing`, are left out.
pub mod Stream
pub mod Polls
pub mod Drains
use mathlib.Core.Bool.{not}
use gday_old.Base.{
  ℕ, zero, suc, ◌+◌, ◌-◌, ◌≤◌, ◌≡◌, refl, Bool, true, false, ◌&&◌, List, [], ◌∷◌, ◌++◌, Option,
  none, some, leb, ltb, ◌==◌, if◌then◌else◌, length, take, drop, min, arith,
}
use gday_old.Base.Outcome.{Outcome, returns, exits, panics, u32_mod}
use gday_old.Base.Text.{Bytes, is_empty}
use gday_old.Encryption.HelperBuf.{
  HelperBuf, with_capacity, advance_cursor, unread, spare_capacity_len, max_chunk_size,
  ciphertext_overhead,
}
use gday_old.Base.Words.{to_be_bytes}
use gday_old.Encryption.Frame.{Cipher}

-- `written` is what the inner writer has accepted behind the nonce; `counter` is the encryptor's.
pub record EncryptedWriter : Type 0 where
  pub written : Bytes
  pub counter : ℕ
  pub bytes : HelperBuf
  pub is_flushing : Bool

-- The answers of the inner writer, and those of this one. `invalid_data` is the failure of the
-- cipher, and `panicked` a panic.
pub data Answer : Type 0 where
  wrote : ℕ → Answer
  pending : Answer
  broken : ℕ → Answer

pub data Poll {ℓ} (A : Type ℓ) : Type ℓ where
  ready : A → Poll A
  pending : Poll A
  failed : ℕ → Poll A
  invalid_data : Poll A
  panicked : Poll A

-- `new`, once the nonce is written.
abbrev pub new_writer : EncryptedWriter
new_writer = record {
  written = [];
  counter = 0;
  bytes = with_capacity max_chunk_size;
  is_flushing = true;
}

abbrev pub Step : Type 0 → Type 0
Step A = Poll A × EncryptedWriter

-- `ready!(…)?`: the rest runs on a value only.
abbrev pub then_do : {A B : Type 0} → Step A → (A → EncryptedWriter → Step B) → Step B
then_do (ready a, w) f = f a w
then_do (pending, w) f = (pending, w)
then_do (failed e, w) f = (failed e, w)
then_do (invalid_data, w) f = (invalid_data, w)
then_do (panicked, w) f = (panicked, w)

-- The buffer is empty: room for the length of the next frame.
abbrev pub reopen : EncryptedWriter → EncryptedWriter
reopen w =
    let b = w.bytes in
    record w { is_flushing = false; bytes = record b { buf = b.buf ++ 0 ∷ 0 ∷ 0 ∷ 0 ∷ [] } }

-- The inner writer takes the first bytes, and the cursor moves behind them.
abbrev pub advanced : EncryptedWriter → ℕ → Outcome HelperBuf → Step (Unit {0})
advanced w n (returns b) =
    (ready tt, record w { written = w.written ++ take n (unread w.bytes); bytes = b })
advanced w n (exits code) = (panicked, w)
advanced w n panics = (panicked, w)

unfoldable pub push : ℕ → EncryptedWriter → Step (Unit {0})
push n w = advanced w n (advance_cursor n w.bytes)

-- A round of the loop with the inner writer's answer.
abbrev pub answered :
    (EncryptedWriter → Step (Unit {0})) → Answer → EncryptedWriter → Step (Unit {0})
answered again (wrote n) w = then_do (push n w) (λ _ w'. again w')
answered again pending w = (pending, w)
answered again (broken e) w = (failed e, w)

unfoldable pub poll_flush_local : List Answer → EncryptedWriter → Step (Unit {0})
unfolding push
poll_flush_local [] w = if is_empty (unread w.bytes) then (ready tt, reopen w) else (pending, w)
poll_flush_local (a ∷ answers) w =
    if is_empty (unread w.bytes)
    then (ready tt, reopen w)
    else answered (poll_flush_local answers) a w

-- `bytes.buf.extend_from_slice`.
abbrev pub extended : Bytes → EncryptedWriter → EncryptedWriter
extended s w = let b = w.bytes in record w { bytes = record b { buf = b.buf ++ s } }

module _ (cipher : Cipher) where
  -- `start_flushing` with the message sealed or not; a message that was split off and failed to be
  -- sealed is gone, and its share of the capacity with it.
  abbrev pub framed : EncryptedWriter → Option Bytes → Step (Unit {0})
  framed w none =
      let b = w.bytes in
      (invalid_data, record w { bytes = record b { buf = take 4 b.buf; capacity = 4 } })
  framed w (some msg) =
      let b = w.bytes in
      if ltb (length msg) u32_mod && (length (take 4 b.buf) == 4)
      then (
        ready tt,
        record w {
          counter = suc w.counter;
          bytes = record b { buf = to_be_bytes (length msg) ++ msg };
          is_flushing = true;
        },
      )
      else (panicked, w)

  unfoldable pub start_flushing : EncryptedWriter → Step (Unit {0})
  start_flushing w = framed w (cipher.encrypt w.counter (drop 4 w.bytes.buf))

  -- `if self.is_flushing { ready!(self.poll_flush_local(cx))? }`.
  unfoldable pub flush_first : List Answer → EncryptedWriter → Step (Unit {0})
  flush_first answers w = if w.is_flushing then poll_flush_local answers w else (ready tt, w)

  -- The last `if` of `poll_write`, with its result.
  unfoldable pub seal_if_full : ℕ → EncryptedWriter → Step ℕ
  unfolding start_flushing
  seal_if_full bytes_taken w =
      if spare_capacity_len w.bytes == ciphertext_overhead
      then then_do (start_flushing w) (λ _ w'. (ready bytes_taken, w'))
      else (ready bytes_taken, w)

  -- `poll_write` behind the flush. The subtraction panics below zero in a debug build.
  unfoldable pub fill : Bytes → EncryptedWriter → Step ℕ
  unfolding seal_if_full
  fill buf w =
      let spare = spare_capacity_len w.bytes in
      let bytes_taken = min (length buf) (spare - ciphertext_overhead) in
      if ltb spare ciphertext_overhead
      then (panicked, w)
      else seal_if_full bytes_taken (extended (take bytes_taken buf) w)

  unfoldable pub poll_write : List Answer → Bytes → EncryptedWriter → Step ℕ
  unfolding flush_first fill
  poll_write answers buf w = then_do (flush_first answers w) (λ _ w'. fill buf w')

  -- The first `if` of `poll_flush`.
  unfoldable pub seal_pending : EncryptedWriter → Step (Unit {0})
  unfolding start_flushing
  seal_pending w =
      if not w.is_flushing && not (is_empty (unread w.bytes))
      then start_flushing w
      else (ready tt, w)

  -- `poll_flush`; the last argument is what the inner writer's `poll_flush` returns.
  unfoldable pub poll_flush : List Answer → Poll (Unit {0}) → EncryptedWriter → Step (Unit {0})
  unfolding flush_first seal_pending
  poll_flush answers inner w =
      then_do (seal_pending w) (λ _ w'. then_do (flush_first answers w') (λ _ w''. (inner, w'')))

  unfoldable pub poll_shutdown :
      List Answer → Poll (Unit {0}) → Poll (Unit {0}) → EncryptedWriter → Step (Unit {0})
  unfolding poll_flush
  poll_shutdown answers inner_flush inner_shutdown w =
      then_do (poll_flush answers inner_flush w) (λ _ w'. (inner_shutdown, w'))
