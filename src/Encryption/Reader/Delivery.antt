-- ===== src/Encryption/Reader/Delivery.antt =====
-- What `poll_read` and `poll_fill_buf` of gday_encryption/src/reader.rs give to their caller.
use mathlib.Core.List.{flatten}
use gday_old.Base.{
  ℕ, ◌≤◌, ◌<◌, ◌≡◌, sym, ◌∙◌, ap, subst, Bool, true, false, List, [], ◌++◌, append_assoc,
  append-nil, none, some, length, length-take, take, take-append-drop, min, arith,
}
use gday_old.Base.Outcome.{Profile}
use gday_old.Base.Text.{Bytes}
use gday_old.Encryption.HelperBuf.{HelperBuf, unread, max_chunk_size}
use gday_old.Encryption.HelperBuf.Laws.{Advanced, advance_cursor-Advanced}
use gday_old.Encryption.Frame.{Cipher}
use gday_old.Encryption.Reader.{
  EncryptedReader, Answer, read_if_necessary, put_slice, poll_read, filled, poll_fill_buf,
}
use gday_old.Encryption.Reader.Decrypt.{IsSound-kept, cursor_within, Ends, then_do-Ends, Reading}
use gday_old.Encryption.Reader.Polls.{AllFill, Arrived, read_if_necessary-Loop}

module _ (cipher : Cipher) where
  -- What a poll gives into a buffer of the given room.
  abbrev pub Read : Bytes → Bytes → ℕ → Bytes → EncryptedReader → Type 0
  Read whole delivered remaining out r =
      Reading cipher whole (delivered ++ out) r
      × (length out ≤ remaining)
      × (out ≡ [] → whole ≡ delivered)

  abbrev pub StillRunning : Bytes → Bytes → List Answer → EncryptedReader → Type 0
  StillRunning whole delivered answers r = Reading cipher whole delivered r × AllFill answers

  consumed-Reading :
      (n : ℕ) (whole delivered : Bytes) (r : EncryptedReader) (b : HelperBuf)
      → Reading cipher whole delivered r
      → Advanced n r.cleartext b
      → Reading cipher whole (delivered ++ take n (unread r.cleartext)) (record r { cleartext = b })
  consumed-Reading n whole delivered r b v a = record {
    clear = IsSound-kept max_chunk_size n r.cleartext b v.clear a;
    sound = v.sound;
    messages = v.messages;
    small = v.small;
    sealed = v.sealed;
    whole_eq =
        v.whole_eq
        ∙ ap (λ s. delivered ++ (s ++ flatten v.messages))
            (sym (take-append-drop n (unread r.cleartext)))
        ∙ ap (λ s. delivered ++ s) (append_assoc (take n (unread r.cleartext)) _ _)
        ∙ sym (append_assoc delivered (take n (unread r.cleartext)) _)
        ∙ ap (λ s. (delivered ++ take n (unread r.cleartext)) ++ (s ++ flatten v.messages))
            (sym a.unread_eq);
  }

  put_slice-Read :
      (remaining : ℕ) (answers : List Answer) (whole delivered : Bytes) (b : Bool)
      (r : EncryptedReader)
      → 0 < remaining
      → Arrived cipher whole delivered b r
      → Ends
          (Read whole delivered remaining)
          (Reading cipher whole delivered)
          (StillRunning whole delivered answers)
          (put_slice remaining b r)
  unfolding put_slice
  put_slice-Read remaining answers whole delivered true r h (v, e) =
      (subst (λ s. Reading cipher whole s r) (sym (append-nil delivered)) v, omega arith, λ _. e)
  put_slice-Read remaining answers whole delivered false r h (v, some_clear) =
      let chunk = unread r.cleartext in
      let n = min remaining (length chunk) in
      let (b, advances, a) =
        advance_cursor-Advanced n r.cleartext (cursor_within r.cleartext v.clear.cleared)
          (omega arith) in
      let taken = length-take n chunk in
      rw advances (
        consumed-Reading n whole delivered r b v a,
        omega arith,
        λ e. absurd (omega (arith, ap length e)),
      )

  -- Of a text of sealed frames, none longer than a chunk, `poll_read` with room for a byte gives the next bytes that were
  -- sealed, and no byte at their end only. While it waits, fails, or is still running nothing is lost,
  -- and it is still running only while the inner reader keeps answering. It does not panic, in either
  -- profile, and the cipher does not fail.
  pub poll_read-Read :
      (p : Profile) (answers : List Answer) (remaining : ℕ) (whole delivered : Bytes)
      (r : EncryptedReader)
      → Reading cipher whole delivered r
      → 0 < remaining
      → Ends
          (Read whole delivered remaining)
          (Reading cipher whole delivered)
          (StillRunning whole delivered answers)
          (poll_read cipher p answers remaining r)
  unfolding poll_read
  poll_read-Read p answers remaining whole delivered r v h =
      then_do-Ends (Arrived cipher whole delivered) (Read whole delivered remaining)
        (Reading cipher whole delivered) (StillRunning whole delivered answers)
        (Reading cipher whole delivered) (StillRunning whole delivered answers)
        (read_if_necessary cipher p answers (some remaining) r) (put_slice remaining)
        (read_if_necessary-Loop cipher p answers (some remaining) whole delivered r v
          (omega (arith, v.clear.capacity_eq)))
        (λ _ x. x) (λ _ x. x) (λ b r' a. put_slice-Read remaining answers whole delivered b r' h a)

  -- What `poll_fill_buf` shows: the start of what is still to be delivered.
  abbrev pub Shown : Bytes → Bytes → Bytes → EncryptedReader → Type 0
  Shown whole delivered out r =
      Reading cipher whole delivered r
      × ((rest : Bytes) × (whole ≡ delivered ++ (out ++ rest)))
      × (out ≡ [] → whole ≡ delivered)

  filled-Shown :
      (answers : List Answer) (whole delivered : Bytes) (b : Bool) (r : EncryptedReader)
      → Arrived cipher whole delivered b r
      → Ends
          (Shown whole delivered)
          (Reading cipher whole delivered)
          (StillRunning whole delivered answers)
          (filled b r)
  filled-Shown answers whole delivered true r (v, e) =
      (v, ([], e ∙ sym (append-nil delivered)), λ _. e)
  filled-Shown answers whole delivered false r (v, h) =
      (v, (flatten v.messages, v.whole_eq), λ e. absurd (omega (arith, ap length e)))

  -- `poll_fill_buf` gives the next bytes that were sealed and takes none of them; it gives no byte at
  -- their end only. It ends as `poll_read` does.
  pub poll_fill_buf-Shown :
      (p : Profile) (answers : List Answer) (whole delivered : Bytes) (r : EncryptedReader)
      → Reading cipher whole delivered r
      → Ends
          (Shown whole delivered)
          (Reading cipher whole delivered)
          (StillRunning whole delivered answers)
          (poll_fill_buf cipher p answers r)
  unfolding poll_fill_buf
  poll_fill_buf-Shown p answers whole delivered r v =
      then_do-Ends (Arrived cipher whole delivered) (Shown whole delivered)
        (Reading cipher whole delivered) (StillRunning whole delivered answers)
        (Reading cipher whole delivered) (StillRunning whole delivered answers)
        (read_if_necessary cipher p answers none r) filled
        (read_if_necessary-Loop cipher p answers none whole delivered r v
          (omega (arith, v.clear.capacity_eq)))
        (λ _ x. x) (λ _ x. x) (λ b r' a. filled-Shown answers whole delivered b r' a)
