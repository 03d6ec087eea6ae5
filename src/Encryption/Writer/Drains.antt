-- ===== src/Encryption/Writer/Drains.antt =====
-- A flush of gday_encryption/src/writer.rs over an inner writer that takes all.
use gday_old.Base.{
  ℕ, ◌-◌, ◌≤◌, ◌≡◌, refl, sym, ◌∙◌, ap, subst, true, List, [], ◌∷◌, ◌++◌, take, length, arith,
  Bool-cases, inl, inr,
}
use gday_old.Base.Text.{Bytes, is_empty}
use gday_old.Encryption.HelperBuf.{unread}
use gday_old.Encryption.Frame.{Cipher}
use gday_old.Encryption.Writer.{
  EncryptedWriter, Answer, wrote, broken, ready, Step, push, poll_flush_local, flush_first,
  seal_pending, poll_flush, reopen,
}
use gday_old.Encryption.Writer.Stream.{Fits, Ends, Flushing, Inv, pushed, cleared_within}
use gday_old.Encryption.HelperBuf.Laws.{advance_cursor-Advanced}
use gday_old.Encryption.Writer.Polls.{Delivered, seal_pending-Ends, poll_flush-Delivered}

-- The inner writer takes that many bytes, in whatever pieces.
abbrev pub Drains : ℕ → List Answer → Type 0
Drains n [] = n ≡ 0
Drains n (wrote k ∷ answers) = (k ≤ n) × Drains (n - k) answers
Drains n (Answer.pending ∷ answers) = n ≡ 0
Drains n (broken e ∷ answers) = n ≡ 0

Drains-Fits : (n : ℕ) (answers : List Answer) → Drains n answers → Fits n answers
Drains-Fits n [] h = tt
Drains-Fits n (wrote k ∷ answers) (h, hs) = (h, Drains-Fits (n - k) answers hs)
Drains-Fits n (Answer.pending ∷ answers) h = tt
Drains-Fits n (broken e ∷ answers) h = tt

none_left : (s : Bytes) → length s ≡ 0 → is_empty s ≡ true
none_left [] h = refl
none_left (c ∷ s) h = absurd (omega arith)

module _ (cipher : Cipher) where
  push_ready :
      (n : ℕ) (input : Bytes) (w : EncryptedWriter)
      → Flushing cipher input w
      → n ≤ length (unread w.bytes)
      → (w' : EncryptedWriter) × (push n w ≡ (ready tt, w'))
  unfolding push
  push_ready n input w v h =
      let (b, e, a) = advance_cursor-Advanced n w.bytes (cleared_within w.bytes v.cleared) h in
      (record w { written = w.written ++ take n (unread w.bytes); bytes = b }, rw e refl)

  poll_flush_local_ready :
      (answers : List Answer) (input : Bytes) (w : EncryptedWriter)
      → Flushing cipher input w
      → Drains (length (unread w.bytes)) answers
      → (w' : EncryptedWriter) × (poll_flush_local answers w ≡ (ready tt, w'))
  unfolding poll_flush_local
  poll_flush_local_ready [] input w v h = (reopen w, rw (none_left (unread w.bytes) h) refl)
  poll_flush_local_ready (Answer.pending ∷ answers) input w v h =
      (reopen w, rw (none_left (unread w.bytes) h) refl)
  poll_flush_local_ready (broken e ∷ answers) input w v h =
      (reopen w, rw (none_left (unread w.bytes) h) refl)
  poll_flush_local_ready (wrote n ∷ answers) input w v (h, hs) =
      elim (Bool-cases (is_empty (unread w.bytes))) [
        | inl e ↦ (reopen w, rw e refl)
        | inr e ↦
            let (w', pushed_now) = push_ready n input w v h in
            let (v', shorter) = subst (Ends _ _) pushed_now (pushed cipher n input w v h) in
            let (w'', rest) =
              poll_flush_local_ready answers input w' v'
                (subst (λ k. Drains k answers) (sym shorter) hs) in
            (w'', rw (e, pushed_now) rest)
      ]

  flush_first_on :
      (answers : List Answer) (w : EncryptedWriter)
      → w.is_flushing ≡ true
      → flush_first cipher answers w ≡ poll_flush_local answers w
  unfolding flush_first
  flush_first_on answers w on = rw on refl

  -- If sealing what is pending succeeds, and the inner writer takes all that is unwritten then, in
  -- whatever pieces, and is flushed itself, then `poll_flush` on a writer in order is ready, and the
  -- whole input has been written.
  pub poll_flush_drained :
      (answers : List Answer) (input : Bytes) (w w' : EncryptedWriter)
      → Inv cipher input w
      → seal_pending cipher w ≡ (ready tt, w')
      → Drains (length (unread w'.bytes)) answers
      → (w'' : EncryptedWriter) × (poll_flush cipher answers (ready tt) w ≡ (ready tt, w''))
        × Delivered cipher input w''
  unfolding poll_flush
  poll_flush_drained answers input w w' v sealed h =
      let v' : Flushing cipher input w' =
        subst (Ends _ _) sealed (seal_pending-Ends cipher input w v) in
      let (w'', flushed) = poll_flush_local_ready answers input w' v' h in
      let done : poll_flush cipher answers (ready tt) w ≡ (ready tt, w'') =
        rw (sealed, flush_first_on answers w' v'.on ∙ flushed) refl in
      let ends = subst (Ends _ _) done (
        poll_flush-Delivered cipher answers (ready tt) input w v (λ e. cc)
          (λ x e. Drains-Fits _ answers (
            subst (λ (u : EncryptedWriter). Drains (length (unread u.bytes)) answers)
              (ap (λ (m : Step (Unit {0})). m.1) (sym sealed ∙ e)) h))) in
      (w'', done, ends.1)
