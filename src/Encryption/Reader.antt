-- ===== src/Encryption/Reader.antt =====
-- gday_encryption/src/reader.rs: the reader as a state machine. What the inner reader answers to the
-- calls of one poll is a list; a poll that needs more answers than that is still running.
pub mod Peek
pub mod Decrypt
pub mod Polls
pub mod Delivery
pub mod Endless
use mathlib.Core.Bool.{not}
use gday_old.Base.{
  ℕ, zero, suc, ◌+◌, ◌*◌, ◌-◌, ◌≤◌, ◌<◌, ◌≡◌, refl, Bool, true, false, ◌&&◌, List, [], ◌∷◌, ◌++◌,
  Option, none, some, leb, ltb, ◌==◌, if◌then◌else◌, length, take, drop, min, arith,
}
use gday_old.Base.Outcome.{Outcome, returns, exits, ◌>>=◌, panics, Profile, debug, release}
use gday_old.Base.Text.{Bytes, is_empty}
use gday_old.Encryption.HelperBuf.{
  HelperBuf, with_capacity, advance_cursor, unread, spare_capacity_len, wrap, max_chunk_size,
}
use gday_old.Base.Words.{from_be_bytes}
use gday_old.Encryption.Frame.{Cipher}

-- `incoming` is what the inner reader will still read; `counter` is the decryptor's.
pub record EncryptedReader : Type 0 where
  pub incoming : Bytes
  pub counter : ℕ
  pub cleartext : HelperBuf
  pub ciphertext : HelperBuf

-- The answers of the inner reader. `fills n` reads at most n + 1 bytes, and none at the end of the
-- input only.
pub data Answer : Type 0 where
  fills : ℕ → Answer
  pending : Answer
  broken : ℕ → Answer

-- How a poll stands: ready, waiting, failed with the inner reader's error or with the cipher's,
-- panicked, or still in its loop.
pub data Turn {ℓ} (A : Type ℓ) : Type ℓ where
  gives : A → Turn A
  waits : Turn A
  fails : ℕ → Turn A
  invalid_data : Turn A
  panicked : Turn A
  running : Turn A

abbrev pub Step : Type 0 → Type 0
Step A = Turn A × EncryptedReader

-- `ready!(…)?` and `?`: the rest runs on a value only.
abbrev pub then_do : {A B : Type 0} → Step A → (A → EncryptedReader → Step B) → Step B
then_do (gives a, r) f = f a r
then_do (waits, r) f = (waits, r)
then_do (fails e, r) f = (fails e, r)
then_do (invalid_data, r) f = (invalid_data, r)
then_do (panicked, r) f = (panicked, r)
then_do (running, r) f = (running, r)

-- `new`, with the bytes behind the nonce.
abbrev pub new_reader : Bytes → EncryptedReader
new_reader incoming = record {
  incoming = incoming;
  counter = 0;
  cleartext = with_capacity max_chunk_size;
  ciphertext = with_capacity (max_chunk_size * 2);
}

-- `slice.get(4..4 + len)`.
abbrev pub get_chunk : ℕ → Bytes → Option Bytes
get_chunk len s = if leb (4 + len) (length s) then some (take len (drop 4 s)) else none

-- `peek_cipher_chunk`, of the unread bytes.
unfoldable pub peek_cipher_chunk : Bytes → Option Bytes
peek_cipher_chunk s = if leb 4 (length s) then get_chunk (from_be_bytes (take 4 s)) s else none

abbrev pub appended : Bytes → HelperBuf → HelperBuf
appended s b = record b { buf = b.buf ++ s }

-- `inner_read` where the inner reader reads at most n + 1 bytes, into the spare capacity.
unfoldable pub inner_read : ℕ → EncryptedReader → EncryptedReader
inner_read n r =
    let k = min (suc n) (spare_capacity_len r.ciphertext) in
    record r {
      incoming = drop k r.incoming;
      ciphertext = appended (take k r.incoming) r.ciphertext;
    }

abbrev pub wrapped : Outcome HelperBuf → EncryptedReader → Step (Unit {0})
wrapped (returns b) r = (gives tt, record r { ciphertext = b })
wrapped (exits code) r = (panicked, r)
wrapped panics r = (panicked, r)

-- `decrypt_all_full_chunks` behind its loop, unless that has returned early.
unfoldable pub make_room : Bool → EncryptedReader → Step (Unit {0})
make_room false r = (gives tt, r)
make_room true r =
    if spare_capacity_len r.ciphertext == 0 then wrapped (wrap r.ciphertext) r else (gives tt, r)

-- The test of that loop.
abbrev pub wants : ℕ → EncryptedReader → Bool
wants bytes_amount r =
    ltb (length (unread r.cleartext)) bytes_amount && not (spare_capacity_len r.ciphertext == 0)

-- A debug assertion.
abbrev pub debug_assert {ℓ} : {A : Type ℓ} → Profile → Bool → A → A → A
debug_assert debug false failing a = failing
debug_assert debug true failing a = a
debug_assert release test failing a = a

abbrev pub amount : Option ℕ → ℕ → ℕ
amount none capacity = capacity
amount (some wanted_bytes) capacity = min capacity wanted_bytes

-- `read_if_necessary` behind its loop.
abbrev pub checked_read : Profile → Bool → EncryptedReader → Step Bool
checked_read p true r = (gives true, r)
checked_read p false r =
    debug_assert p (not (is_empty (unread r.cleartext))) (panicked, r) (gives false, r)

-- The cleartext is read on.
abbrev pub consumed : Bytes → Outcome HelperBuf → EncryptedReader → Step Bytes
consumed out (returns b) r = (gives out, record r { cleartext = b })
consumed out (exits code) r = (panicked, r)
consumed out panics r = (panicked, r)

-- `poll_read` behind `read_if_necessary`.
unfoldable pub put_slice : ℕ → Bool → EncryptedReader → Step Bytes
put_slice remaining true r = (gives [], r)
put_slice remaining false r =
    let chunk = unread r.cleartext in
    let num_bytes = min remaining (length chunk) in
    consumed (take num_bytes chunk) (advance_cursor num_bytes r.cleartext) r

abbrev pub filled : Bool → EncryptedReader → Step Bytes
filled true r = (gives [], r)
filled false r = (gives (unread r.cleartext), r)

unfoldable pub consume : ℕ → EncryptedReader → Outcome EncryptedReader
consume amt r = advance_cursor amt r.cleartext >>= λ b. returns (record r { cleartext = b })

module _ (cipher : Cipher) where
  -- The rest of a round, with the chunk's cleartext or the cipher's failure. The space that was split
  -- off for it is lost on a failure.
  abbrev pub decrypted : (EncryptedReader → Step Bool) → Option Bytes → EncryptedReader → Step Bool
  decrypted again none r =
      let b = r.cleartext in
      (invalid_data, record r { cleartext = record b { capacity = length b.buf } })
  decrypted again (some plain) r =
      again (record r { counter = suc r.counter; cleartext = appended plain r.cleartext })

  -- The rest of a round, with the ciphertext behind the chunk.
  abbrev pub moved :
      (EncryptedReader → Step Bool) → Bytes → Outcome HelperBuf → EncryptedReader → Step Bool
  moved again msg (returns b) r =
      decrypted again (cipher.decrypt r.counter msg) (record r { ciphertext = b })
  moved again msg (exits code) r = (panicked, r)
  moved again msg panics r = (panicked, r)

  -- A round of the loop, with the chunk that was found. `false` is the early return.
  unfoldable pub on_chunk :
      (EncryptedReader → Step Bool) → Option Bytes → EncryptedReader → Step Bool
  on_chunk again none r = (gives true, r)
  on_chunk again (some msg) r =
      if ltb (spare_capacity_len r.cleartext) (length msg)
      then (gives false, r)
      else moved again msg (advance_cursor (length msg + 4) r.ciphertext) r

  -- The loop of `decrypt_all_full_chunks`, on fuel.
  unfoldable pub decrypt_chunks : ℕ → EncryptedReader → Step Bool
  unfolding on_chunk
  decrypt_chunks zero r = (running, r)
  decrypt_chunks (suc fuel) r =
      on_chunk (decrypt_chunks fuel) (peek_cipher_chunk (unread r.ciphertext)) r

  -- Every round reads four bytes at least, so the unread bytes are fuel enough.
  unfoldable pub decrypt_all_full_chunks : EncryptedReader → Step (Unit {0})
  unfolding decrypt_chunks make_room
  decrypt_all_full_chunks r =
      then_do (decrypt_chunks (suc (length (unread r.ciphertext))) r) make_room

  -- A round of the loop of `read_if_necessary`, with the inner reader's answer.
  unfoldable pub on_answer : (EncryptedReader → Step Bool) → Answer → EncryptedReader → Step Bool
  unfolding decrypt_all_full_chunks inner_read
  on_answer again (fills n) r =
      let r' = inner_read n r in
      if is_empty (unread r'.ciphertext) && is_empty (unread r'.cleartext)
      then (gives true, r')
      else then_do (decrypt_all_full_chunks r') (λ _ r''. again r'')
  on_answer again pending r = if is_empty (unread r.cleartext) then (waits, r) else (gives false, r)
  on_answer again (broken e) r = (fails e, r)

  unfoldable pub read_chunks : List Answer → ℕ → EncryptedReader → Step Bool
  unfolding on_answer
  read_chunks [] bytes_amount r = if wants bytes_amount r then (running, r) else (gives false, r)
  read_chunks (a ∷ answers) bytes_amount r =
      if wants bytes_amount r
      then on_answer (read_chunks answers bytes_amount) a r
      else (gives false, r)

  -- `true` is the end of the input.
  unfoldable pub read_if_necessary : Profile → List Answer → Option ℕ → EncryptedReader → Step Bool
  unfolding decrypt_all_full_chunks read_chunks
  read_if_necessary p answers wanted_bytes r =
      let fits =
        (r.cleartext.capacity == max_chunk_size) && (r.ciphertext.capacity == 2 * max_chunk_size) in
      let bytes_amount = amount wanted_bytes r.cleartext.capacity in
      debug_assert p fits (panicked, r)
        (then_do (decrypt_all_full_chunks r)
          (λ _ r'. then_do (read_chunks answers bytes_amount r') (checked_read p)))

  -- `poll_read` into a buffer with room for `remaining` bytes; what it gives is put there.
  unfoldable pub poll_read : Profile → List Answer → ℕ → EncryptedReader → Step Bytes
  unfolding read_if_necessary put_slice
  poll_read p answers remaining r =
      then_do (read_if_necessary p answers (some remaining) r) (put_slice remaining)

  unfoldable pub poll_fill_buf : Profile → List Answer → EncryptedReader → Step Bytes
  unfolding read_if_necessary
  poll_fill_buf p answers r = then_do (read_if_necessary p answers none r) filled
