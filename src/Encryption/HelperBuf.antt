-- ===== src/Encryption/HelperBuf.antt =====
-- gday_encryption/src/lib.rs: a buffer of fixed capacity with a cursor in front of the unread bytes.
pub mod Laws
use gday_old.Base.{
  ℕ, ◌+◌, ◌-◌, ◌*◌, ◌≤◌, ◌≡◌, refl, [], ◌++◌, leb, ltb, ◌==◌, if◌then◌else◌, length, take, drop,
  arith,
}
use gday_old.Base.Outcome.{Outcome, returns, panics}
use gday_old.Base.Text.{Bytes}

abbrev pub max_chunk_size : ℕ
max_chunk_size = 8 * 1024

abbrev pub ciphertext_overhead : ℕ
ciphertext_overhead = 16

-- `capacity` is that of the BytesMut, which the code never lets grow.
pub record HelperBuf : Type 0 where
  pub buf : Bytes
  pub cursor : ℕ
  pub capacity : ℕ

abbrev pub with_capacity : ℕ → HelperBuf
with_capacity capacity = record { buf = []; cursor = 0; capacity = capacity }

-- The second half of `advance_cursor`: a buffer that is read to its end is cleared.
abbrev pub clear_at_end : HelperBuf → HelperBuf
clear_at_end b = if b.cursor == length b.buf then record b { cursor = 0; buf = [] } else b

-- The assertion panics.
unfoldable pub advance_cursor : ℕ → HelperBuf → Outcome HelperBuf
advance_cursor num_bytes b =
    let cursor = b.cursor + num_bytes in
    if leb cursor (length b.buf)
    then returns (clear_at_end (record b { cursor = cursor }))
    else panics

abbrev pub unread : HelperBuf → Bytes
unread b = drop b.cursor b.buf

abbrev pub spare_capacity_len : HelperBuf → ℕ
spare_capacity_len b = b.capacity - length b.buf

-- `blank[0..data_len]` panics where the unread bytes are more than those in front of the cursor.
unfoldable pub wrap : HelperBuf → Outcome HelperBuf
wrap b =
    let rest = unread b in
    let data_len = length rest in
    if leb data_len b.cursor
    then returns (record b { buf = take data_len (rest ++ drop data_len b.buf); cursor = 0 })
    else panics
