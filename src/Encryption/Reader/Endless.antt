-- ===== src/Encryption/Reader/Endless.antt =====
-- The loop of `read_if_necessary` of gday_encryption/src/reader.rs at the end of the inner input.
use gday_old.Base.{
  ℕ, suc, ◌*◌, ◌<◌, ◌≡◌, refl, ◌∙◌, ap, Bool, true, ◌&&◌, List, [], ◌∷◌, lt→ltb, if◌then◌else◌,
  length, min, take-nil, drop-nil,
}
use gday_old.Base.Outcome.{Profile}
use gday_old.Base.Text.{Bytes, is_empty}
use gday_old.Encryption.HelperBuf.{HelperBuf, unread, max_chunk_size}
use gday_old.Encryption.Frame.{Cipher}
use gday_old.Encryption.Reader.{
  EncryptedReader, Answer, fills, broken, gives, running, panicked, Step, then_do,
  peek_cipher_chunk, inner_read, decrypt_chunks, on_chunk, make_room, decrypt_all_full_chunks,
  on_answer, read_chunks, checked_read, read_if_necessary, put_slice, poll_read,
}
use gday_old.Encryption.Reader.Polls.{AllFill, assertion_holds, length_some}

-- All has been read and decrypted, and this much cleartext is there.
abbrev pub cleartext_left : Bytes → ℕ → HelperBuf
cleartext_left buf cursor = record { buf = buf; cursor = cursor; capacity = max_chunk_size }

abbrev pub at_end : ℕ → HelperBuf → EncryptedReader
at_end counter b = record {
  incoming = [];
  counter = counter;
  cleartext = b;
  ciphertext = record { buf = []; cursor = 0; capacity = max_chunk_size * 2 };
}

inner_read_at_end :
    (n counter : ℕ) (b : HelperBuf) → inner_read n (at_end counter b) ≡ at_end counter b
unfolding inner_read
inner_read_at_end n counter b =
    let k = min (suc n) (max_chunk_size * 2) in rw (take-nil {A = ℕ} k, drop-nil {A = ℕ} k) refl

module _ (cipher : Cipher) where
  decrypt_at_end :
      (counter : ℕ) (b : HelperBuf)
      → decrypt_all_full_chunks cipher (at_end counter b) ≡ (gives tt, at_end counter b)
  unfolding decrypt_all_full_chunks decrypt_chunks on_chunk make_room peek_cipher_chunk
  decrypt_at_end counter b = refl

  fills_at_end :
      (n counter : ℕ) (b : HelperBuf) (again : EncryptedReader → Step Bool)
      → 0 < length (unread b)
      → on_answer cipher again (fills n) (at_end counter b) ≡ again (at_end counter b)
  unfolding on_answer
  fills_at_end n counter b again some_clear =
      ap
        (λ r.
          if is_empty (unread r.ciphertext) && is_empty (unread r.cleartext)
          then (gives true, r)
          else then_do (decrypt_all_full_chunks cipher r) (λ _ r'. again r'))
        (inner_read_at_end n counter b)
      ∙ rw (length_some (unread b) some_clear)
          (ap (λ m. then_do m (λ _ r'. again r')) (decrypt_at_end counter b))

  read_chunks_at_end :
      (answers : List Answer) (counter bytes_amount : ℕ) (b : HelperBuf)
      → AllFill answers
      → 0 < length (unread b)
      → length (unread b) < bytes_amount
      → read_chunks cipher answers bytes_amount (at_end counter b) ≡ (running, at_end counter b)
  unfolding read_chunks
  read_chunks_at_end [] counter bytes_amount b fill some_clear short =
      rw (lt→ltb (length (unread b)) bytes_amount short) refl
  read_chunks_at_end (fills n ∷ answers) counter bytes_amount b fill some_clear short =
      rw (lt→ltb (length (unread b)) bytes_amount short) (
        fills_at_end n counter b (read_chunks cipher answers bytes_amount) some_clear
        ∙ read_chunks_at_end answers counter bytes_amount b fill some_clear short)
  read_chunks_at_end (Answer.pending ∷ answers) counter bytes_amount b fill some_clear short =
      absurd fill
  read_chunks_at_end (broken e ∷ answers) counter bytes_amount b fill some_clear short = absurd fill

  -- With cleartext, but less than the caller has room for, and the inner reader at its end,
  -- `poll_read` does not return: however often the inner reader answers, its loop is still running.
  pub poll_read_at_end :
      (p : Profile) (answers : List Answer) (counter remaining : ℕ) (buf : Bytes) (cursor : ℕ)
      → AllFill answers
      → 0 < length (unread (cleartext_left buf cursor))
      → length (unread (cleartext_left buf cursor)) < min max_chunk_size remaining
      → poll_read cipher p answers remaining (at_end counter (cleartext_left buf cursor))
        ≡ (running, at_end counter (cleartext_left buf cursor))
  unfolding poll_read read_if_necessary
  poll_read_at_end p answers counter remaining buf cursor fill some_clear short =
      let b = cleartext_left buf cursor in
      let bytes_amount = min max_chunk_size remaining in
      let read : EncryptedReader → Step Bool =
        λ r. then_do (read_chunks cipher answers bytes_amount r) (checked_read p) in
      ap (λ m. then_do m (put_slice remaining))
        (assertion_holds {A = Step Bool} p (panicked, at_end counter b)
            (then_do (decrypt_all_full_chunks cipher (at_end counter b)) (λ _ r. read r))
          ∙ ap (λ m. then_do m (λ _ r. read r)) (decrypt_at_end counter b)
          ∙ ap (λ m. then_do m (checked_read p))
              (read_chunks_at_end answers counter bytes_amount b fill some_clear short))
