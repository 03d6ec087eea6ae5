-- ===== src/Encryption/Writer/Polls.antt =====
-- The polls of the writer of gday_encryption/src/writer.rs.
use mathlib.Core.List.{flatten}
use gday_old.Base.{
  All, ℕ, ◌+◌, ◌-◌, ◌≤◌, ◌<◌, ◌≡◌, ◌≢◌, refl, sym, ◌∙◌, ap, false, List, [], ◌∷◌, ◌++◌,
  append_assoc, append-nil, ltb, ◌==◌, length, length-append, length-take, length-drop, take, drop,
  drop-append, min, arith, Bool-cases, inl, inr,
}
use gday_old.Base.Text.{Bytes, is_empty}
use gday_old.Encryption.HelperBuf.{
  HelperBuf, unread, spare_capacity_len, max_chunk_size, ciphertext_overhead,
}
use gday_old.Encryption.Writer.Stream.{
  Fits, Ends, then_do-Ends, Flushing, Filling, HasRoom, IsFresh, Inv, poll_flush_local-Ends,
  start_flushing-Ends,
}
use gday_old.Encryption.Frame.{Cipher, IsSmall, Sealed}
use gday_old.Encryption.Writer.{
  EncryptedWriter, Answer, Poll, ready, failed, invalid_data, panicked, new_writer, Step, then_do,
  poll_flush_local, start_flushing, flush_first, extended, seal_if_full, fill, poll_write,
  seal_pending, poll_flush,
}

module _ (cipher : Cipher) where
  -- A new writer is in order, with nothing taken.
  pub new_writer-Inv : Inv cipher [] new_writer
  unfolding flatten
  new_writer-Inv = inl (record {
    on = refl;
    capacity_eq = refl;
    cleared = inr (refl, refl);
    messages = [];
    small = tt;
    sealed = refl;
    counted = refl;
    whole = refl;
  })

  flush_first-Ends :
      (answers : List Answer) (input : Bytes) (w : EncryptedWriter)
      → Inv cipher input w
      → Fits (length (unread w.bytes)) answers
      → Ends
          (λ _ w'. Filling cipher input w' × HasRoom cipher w')
          (Inv cipher input)
          (flush_first cipher answers w)
  unfolding flush_first
  flush_first-Ends answers input w (inl v) f =
      simp (v.on, flush_first)
        (weaken (poll_flush_local answers w) (poll_flush_local-Ends cipher answers input w v f))
    where
      weaken :
          (m : Step (Unit {0}))
          → Ends (λ _ w'. Filling cipher input w' × IsFresh cipher w') (Flushing cipher input) m
          → Ends (λ _ w'. Filling cipher input w' × HasRoom cipher w') (Inv cipher input) m
      weaken (ready a, w) (v, four) = (v, omega arith)
      weaken (Poll.pending, w) h = inl h
      weaken (failed e, w) h = inl h
      weaken (invalid_data, w) h = h
      weaken (panicked, w) h = h
  flush_first-Ends answers input w (inr (v, room)) f = simp (v.off, flush_first) (v, room)

  -- What `poll_write` promises of the bytes that it takes.
  abbrev pub Took : Bytes → Bytes → ℕ → EncryptedWriter → Type 0
  Took input buf n w' = Inv cipher (input ++ take n buf) w' × (n ≤ length buf) × (buf ≢ [] → 0 < n)

  taken-Filling :
      (input buf : Bytes) (n : ℕ) (w : EncryptedWriter)
      → Filling cipher input w
      → n + length w.bytes.buf + 16 ≤ max_chunk_size
      → n ≤ length buf
      → Filling cipher (input ++ take n buf) (extended (take n buf) w)
  taken-Filling input buf n w v h k =
      let grown = length-append w.bytes.buf (take n buf) in
      let n_taken = length-take n buf in
      record {
        off = v.off;
        capacity_eq = v.capacity_eq;
        at_start = v.at_start;
        header = omega (arith, v.header);
        room = omega arith;
        messages = v.messages;
        small = v.small;
        sealed = v.sealed;
        counted = v.counted;
        whole =
            ap (λ s. s ++ take n buf) v.whole
            ∙ append_assoc (flatten v.messages) (drop 4 w.bytes.buf) (take n buf)
            ∙ ap (λ s. flatten v.messages ++ s)
                (sym (drop-append 4 w.bytes.buf (take n buf) v.header));
      }

  seal_if_full-Ends :
      (n : ℕ) (input : Bytes) (w : EncryptedWriter)
      → Filling cipher input w
      → Ends (λ k w'. (k ≡ n) × Inv cipher input w') (λ _. ⊥) (seal_if_full cipher n w)
  unfolding seal_if_full
  seal_if_full-Ends n input w v =
      elim (Bool-cases (spare_capacity_len w.bytes == ciphertext_overhead)) [
        | inl e ↦
            simp (e, seal_if_full)
              (then_do-Ends _ _ (λ _. ⊥) (start_flushing cipher w) (λ _ w'. (ready n, w'))
                (start_flushing-Ends cipher input w v) (λ _ w' v'. (refl, inl v')))
        | inr e ↦
            let room = v.room in
            let cap = v.capacity_eq in simp (e, seal_if_full) (refl, inr (v, ground arith))
      ]

  took :
      (input buf : Bytes) (n : ℕ) (m : Step ℕ)
      → n ≤ length buf
      → (buf ≢ [] → 0 < n)
      → Ends (λ k w'. (k ≡ n) × Inv cipher (input ++ take n buf) w') (λ _. ⊥) m
      → Ends (Took input buf) (Inv cipher input) m
  took input buf n (ready k, w) h p (e, v) = rw e (v, h, p)
  took input buf n (Poll.pending, w) h p x = absurd x
  took input buf n (failed k, w) h p x = absurd x
  took input buf n (invalid_data, w) h p x = x
  took input buf n (panicked, w) h p x = x

  nonempty : (buf : Bytes) → buf ≢ [] → 0 < length buf
  nonempty [] h = absurd (h refl)
  nonempty (c ∷ s) h = omega arith

  fill-Ends :
      (input buf : Bytes) (w : EncryptedWriter)
      → Filling cipher input w
      → HasRoom cipher w
      → Ends (Took input buf) (Inv cipher input) (fill cipher buf w)
  unfolding fill
  fill-Ends input buf w v room =
      let cap = v.capacity_eq in
      let spare = spare_capacity_len w.bytes in
      let n = min (length buf) (spare - ciphertext_overhead) in
      let enough : ltb spare ciphertext_overhead ≡ false = ground arith in
      let within : n + length w.bytes.buf + 16 ≤ max_chunk_size = omega arith in
      simp (enough, fill)
        (took input buf n _ (omega arith) (λ h. omega (arith, nonempty buf h))
          (seal_if_full-Ends n (input ++ take n buf) (extended (take n buf) w)
            (taken-Filling input buf n w v within (omega arith))))

  -- `poll_write` on a writer in order, with an inner writer that keeps its contract, does not panic.
  -- It takes a byte at least unless it is given none; the sealed messages and the bytes behind them
  -- are the input with the bytes that it took, and unless it is ready it takes none.
  pub poll_write-Took :
      (answers : List Answer) (input buf : Bytes) (w : EncryptedWriter)
      → Inv cipher input w
      → Fits (length (unread w.bytes)) answers
      → Ends (Took input buf) (Inv cipher input) (poll_write cipher answers buf w)
  unfolding poll_write
  poll_write-Took answers input buf w v f =
      then_do-Ends _ (Took input buf) (Inv cipher input) (flush_first cipher answers w)
        (λ _ w'. fill cipher buf w') (flush_first-Ends answers input w v f)
        (λ _ w' (v', room). fill-Ends input buf w' v' room)

  pub seal_pending-Ends :
      (input : Bytes) (w : EncryptedWriter)
      → Inv cipher input w
      → Ends (λ _ w'. Flushing cipher input w') (Inv cipher input) (seal_pending cipher w)
  unfolding seal_pending
  seal_pending-Ends input w (inl v) = simp (v.on, seal_pending) v
  seal_pending-Ends input w (inr (v, room)) =
      simp (v.off, header_there w.bytes v.at_start v.header, seal_pending)
        (widen (start_flushing cipher w) (start_flushing-Ends cipher input w v))
    where
      header_there : (b : HelperBuf) → b.cursor ≡ 0 → 4 ≤ length b.buf → is_empty (unread b) ≡ false
      header_there b start h = rw start (go b.buf h)
        where
          go : (s : Bytes) → 4 ≤ length s → is_empty s ≡ false
          go [] h = absurd (omega arith)
          go (c ∷ s) h = refl

      widen :
          (m : Step (Unit {0}))
          → Ends (λ _ w'. Flushing cipher input w') (λ _. ⊥) m
          → Ends (λ _ w'. Flushing cipher input w') (Inv cipher input) m
      widen (ready a, w) h = h
      widen (Poll.pending, w) h = absurd h
      widen (failed e, w) h = absurd h
      widen (invalid_data, w) h = h
      widen (panicked, w) h = h

  -- The whole input is sealed and written.
  pub record Delivered (input : Bytes) (w : EncryptedWriter) : Type 0 where
    pub messages : List Bytes
    pub small : All IsSmall messages
    pub sealed : Sealed cipher 0 messages w.written
    pub whole : input ≡ flatten messages

  delivered :
      (input : Bytes) (w : EncryptedWriter)
      → Filling cipher input w
      → IsFresh cipher w
      → Delivered input w
  delivered input w v four = record {
    messages = v.messages;
    small = v.small;
    sealed = v.sealed;
    whole =
        v.whole
        ∙ ap (λ s. flatten v.messages ++ s) (nothing w.bytes.buf four)
        ∙ append-nil (flatten v.messages);
  }
    where
      nothing : (s : Bytes) → length s ≡ 4 → drop 4 s ≡ []
      nothing s h = length_zero (drop 4 s) (omega (arith, length-drop 4 s))
        where
          length_zero : (s : Bytes) → length s ≡ 0 → s ≡ []
          length_zero [] h = refl
          length_zero (c ∷ s) h = absurd (omega arith)

  -- `poll_flush` on a writer in order does not panic, and keeps it in order. If it is ready, the
  -- frames written so far carry the whole input.
  pub poll_flush-Delivered :
      (answers : List Answer) (inner : Poll (Unit {0})) (input : Bytes) (w : EncryptedWriter)
      → Inv cipher input w
      → inner ≢ panicked
      → ((w' : EncryptedWriter)
          → seal_pending cipher w ≡ (ready tt, w')
          → Fits (length (unread w'.bytes)) answers)
      → Ends
          (λ _ w'. Inv cipher input w' × Delivered input w')
          (Inv cipher input)
          (poll_flush cipher answers inner w)
  unfolding poll_flush
  poll_flush-Delivered answers inner input w v calm fits =
      sealed (seal_pending cipher w) refl (seal_pending-Ends input w v)
    where
      end :
          (inner : Poll (Unit {0})) (w : EncryptedWriter)
          → inner ≢ panicked
          → Filling cipher input w
          → IsFresh cipher w
          → Ends (λ _ w'. Inv cipher input w' × Delivered input w') (Inv cipher input) (inner, w)
      end (ready a) w calm v four = (inr (v, omega arith), delivered input w v four)
      end Poll.pending w calm v four = inr (v, omega arith)
      end (failed e) w calm v four = inr (v, omega arith)
      end invalid_data w calm v four = tt
      end panicked w calm v four = absurd (calm refl)

      flushed :
          (m : Step (Unit {0}))
          → Ends (λ _ w'. Filling cipher input w' × IsFresh cipher w') (Flushing cipher input) m
          → Ends
              (λ _ w'. Inv cipher input w' × Delivered input w')
              (Inv cipher input)
              (then_do m (λ _ w'. (inner, w')))
      flushed (ready a, w) (v, four) = end inner w calm v four
      flushed (Poll.pending, w) v = inl v
      flushed (failed e, w) v = inl v
      flushed (invalid_data, w) h = h
      flushed (panicked, w) h = h

      sealed :
          (m : Step (Unit {0}))
          → seal_pending cipher w ≡ m
          → Ends (λ _ w'. Flushing cipher input w') (Inv cipher input) m
          → Ends
              (λ _ w'. Inv cipher input w' × Delivered input w')
              (Inv cipher input)
              (then_do m (λ _ w'. then_do (flush_first cipher answers w') (λ _ w''. (inner, w''))))
      sealed (ready tt, w') e v =
          simp (v.on, flush_first)
            (flushed (poll_flush_local answers w')
              (poll_flush_local-Ends cipher answers input w' v (fits w' e)))
      sealed (Poll.pending, w') e v = v
      sealed (failed k, w') e v = v
      sealed (invalid_data, w') e h = h
      sealed (panicked, w') e h = h
