-- ===== src/Encryption/Writer/Stream.antt =====
-- What the writer of gday_encryption/src/writer.rs has sent and still holds is its input, in frames.
use mathlib.Core.List.{flatten}
use gday_old.Base.{
  ℕ, ◌+◌, ◌-◌, ◌≤◌, ◌<◌, ◌≡◌, refl, sym, ◌∙◌, ap, subst, true, false, List, [], ◌∷◌, ◌++◌,
  append_assoc, append-nil, some, lt→ltb, ==_iff, if◌then◌else◌, length, length-append, length-take,
  length-drop, take, drop, take-append-drop, arith, Option-cases, Bool-cases, All, All-append, inl,
  inr, ◌⊎◌,
}
use gday_old.Base.Outcome.{u32_mod}
use gday_old.Base.Text.{Bytes, is_empty}
use gday_old.Encryption.HelperBuf.{HelperBuf, unread, max_chunk_size, ciphertext_overhead}
use gday_old.Encryption.HelperBuf.Laws.{IsCleared, advance_cursor-Advanced}
use gday_old.Base.Words.{to_be_bytes, length-to_be_bytes}
use gday_old.Encryption.Frame.{Cipher, IsSmall, Sealed, Sealed-snoc}
use gday_old.Encryption.Writer.{
  EncryptedWriter, Answer, wrote, broken, Poll, ready, failed, invalid_data, panicked, Step,
  then_do, reopen, push, poll_flush_local, framed, start_flushing,
}

-- The inner writer answers a call with at most the bytes that it was given.
abbrev pub Fits : ℕ → List Answer → Type 0
Fits n [] = Unit
Fits n (wrote k ∷ answers) = (k ≤ n) × Fits (n - k) answers
Fits n (Answer.pending ∷ answers) = Unit
Fits n (broken e ∷ answers) = Unit

-- How a poll ends: with a value and `P`, or waiting or with an error of the inner writer and `Q`. If
-- the cipher fails nothing is claimed, and no poll panics.
abbrev pub Ends :
    {A : Type 0} → (A → EncryptedWriter → Type 0) → (EncryptedWriter → Type 0) → Step A → Type 0
Ends P Q (ready a, w) = P a w
Ends P Q (Poll.pending, w) = Q w
Ends P Q (failed e, w) = Q w
Ends P Q (invalid_data, w) = Unit
Ends P Q (panicked, w) = ⊥

pub then_do-Ends :
    {A B : Type 0} (P : A → EncryptedWriter → Type 0) (P' : B → EncryptedWriter → Type 0)
    (Q : EncryptedWriter → Type 0) (m : Step A) (f : A → EncryptedWriter → Step B)
    → Ends P Q m
    → ((a : A) (w : EncryptedWriter) → P a w → Ends P' Q (f a w))
    → Ends P' Q (then_do m f)
then_do-Ends P P' Q (ready a, w) f h k = k a w h
then_do-Ends P P' Q (Poll.pending, w) f h k = h
then_do-Ends P P' Q (failed e, w) f h k = h
then_do-Ends P P' Q (invalid_data, w) f h k = h
then_do-Ends P P' Q (panicked, w) f h k = h

flatten-snoc : (ms : List Bytes) (m : Bytes) → flatten (ms ++ m ∷ []) ≡ flatten ms ++ m
unfolding flatten
flatten-snoc [] m = append-nil m
flatten-snoc (x ∷ ms) m = ap (λ s. x ++ s) (flatten-snoc ms m) ∙ sym (append_assoc x (flatten ms) m)

pub is_empty→nil : (s : Bytes) → is_empty s ≡ true → s ≡ []
is_empty→nil [] h = refl
is_empty→nil (c ∷ s) h = cc

pub cleared_within : (b : HelperBuf) → IsCleared b → b.cursor ≤ length b.buf
cleared_within b (inl h) = omega arith
cleared_within b (inr (e, z)) = omega arith

module _ (cipher : Cipher) where
  -- A frame is being written: the frames of the messages are what is written and what is unread.
  pub record Flushing (input : Bytes) (w : EncryptedWriter) : Type 0 where
    pub on : w.is_flushing ≡ true
    pub capacity_eq : w.bytes.capacity ≡ max_chunk_size
    pub cleared : IsCleared w.bytes
    pub messages : List Bytes
    pub small : All IsSmall messages
    pub sealed : Sealed cipher 0 messages (w.written ++ unread w.bytes)
    pub counted : w.counter ≡ length messages
    pub whole : input ≡ flatten messages

  -- Bytes are collected behind the room for their length; the cipher's overhead still fits.
  pub record Filling (input : Bytes) (w : EncryptedWriter) : Type 0 where
    pub off : w.is_flushing ≡ false
    pub capacity_eq : w.bytes.capacity ≡ max_chunk_size
    pub at_start : w.bytes.cursor ≡ 0
    pub header : 4 ≤ length w.bytes.buf
    pub room : length w.bytes.buf + ciphertext_overhead ≤ max_chunk_size
    pub messages : List Bytes
    pub small : All IsSmall messages
    pub sealed : Sealed cipher 0 messages w.written
    pub counted : w.counter ≡ length messages
    pub whole : input ≡ flatten messages ++ drop 4 w.bytes.buf

  -- Between two polls, a buffer that is filled has room for a byte at least.
  abbrev pub HasRoom : EncryptedWriter → Type 0
  HasRoom w = length w.bytes.buf + ciphertext_overhead < max_chunk_size

  -- Nothing is collected yet.
  abbrev pub IsFresh : EncryptedWriter → Type 0
  IsFresh w = length w.bytes.buf ≡ 4

  abbrev pub Inv : Bytes → EncryptedWriter → Type 0
  Inv input w = Flushing input w ⊎ (Filling input w × HasRoom w)

  pub pushed :
      (n : ℕ) (input : Bytes) (w : EncryptedWriter)
      → Flushing input w
      → n ≤ length (unread w.bytes)
      → Ends
          (λ _ w'. Flushing input w' × (length (unread w'.bytes) ≡ length (unread w.bytes) - n))
          (Flushing input)
          (push n w)
  unfolding push
  pushed n input w v h =
      let (b, e, a) = advance_cursor-Advanced n w.bytes (cleared_within w.bytes v.cleared) h in
      rw e (
        record {
          on = v.on;
          capacity_eq = a.capacity_eq ∙ v.capacity_eq;
          cleared = a.cleared;
          messages = v.messages;
          small = v.small;
          sealed =
              subst (Sealed cipher 0 v.messages)
                (sym (
                  ap (λ s. (w.written ++ take n (unread w.bytes)) ++ s) a.unread_eq
                  ∙ append_assoc w.written _ _
                  ∙ ap (λ s. w.written ++ s) (take-append-drop n (unread w.bytes))))
                v.sealed;
          counted = v.counted;
          whole = v.whole;
        },
        ap length a.unread_eq ∙ length-drop n (unread w.bytes),
      )

  reopened :
      (input : Bytes) (w : EncryptedWriter)
      → Flushing input w
      → unread w.bytes ≡ []
      → Filling input (reopen w) × IsFresh (reopen w)
  reopened input w v e = elim v.cleared [
    | inl h ↦ absurd (omega (arith, length-drop w.bytes.cursor w.bytes.buf, ap length e))
    | inr (empty, start) ↦ (
      record {
        off = refl;
        capacity_eq = v.capacity_eq;
        at_start = start;
        header = rw empty (omega arith);
        room = rw empty (omega arith);
        messages = v.messages;
        small = v.small;
        sealed =
            subst (Sealed cipher 0 v.messages) (ap (λ s. w.written ++ s) e ∙ append-nil w.written)
              v.sealed;
        counted = v.counted;
        whole = rw empty (v.whole ∙ sym (append-nil (flatten v.messages)));
      },
      rw empty (omega arith),
    )
  ]

  -- The test of the loop.
  unless_empty :
      (input : Bytes) (w : EncryptedWriter) (more : Step (Unit {0}))
      → Flushing input w
      → Ends (λ _ w'. Filling input w' × IsFresh w') (Flushing input) more
      → Ends
          (λ _ w'. Filling input w' × IsFresh w')
          (Flushing input)
          (if is_empty (unread w.bytes) then (ready tt, reopen w) else more)
  unless_empty input w more v h = elim (Bool-cases (is_empty (unread w.bytes))) [
    | inl e ↦ rw e (reopened input w v (is_empty→nil _ e))
    | inr e ↦ rw e h
  ]

  -- The loop ends with the frame written whole, or with the frame that it had still being written.
  pub poll_flush_local-Ends :
      (answers : List Answer) (input : Bytes) (w : EncryptedWriter)
      → Flushing input w
      → Fits (length (unread w.bytes)) answers
      → Ends (λ _ w'. Filling input w' × IsFresh w') (Flushing input) (poll_flush_local answers w)
  unfolding poll_flush_local
  poll_flush_local-Ends [] input w v f = elim (Bool-cases (is_empty (unread w.bytes))) [
    | inl e ↦ rw (e, poll_flush_local) (reopened input w v (is_empty→nil _ e))
    | inr e ↦ rw (e, poll_flush_local) v
  ]
  poll_flush_local-Ends (Answer.pending ∷ answers) input w v f = unless_empty input w _ v v
  poll_flush_local-Ends (broken e ∷ answers) input w v f = unless_empty input w _ v v
  poll_flush_local-Ends (wrote n ∷ answers) input w v (k, f) = unless_empty input w _ v (
      then_do-Ends _ _ (Flushing input) (push n w) (λ _ w'. poll_flush_local answers w')
        (pushed n input w v k)
        (λ _ w' (v', shorter).
          poll_flush_local-Ends answers input w' v' (subst (λ k. Fits k answers) (sym shorter) f)))

  framed-Flushing :
      (input : Bytes) (w : EncryptedWriter) (msg : Bytes)
      → Filling input w
      → cipher.encrypt w.counter (drop 4 w.bytes.buf) ≡ some msg
      → Ends (λ _ w'. Flushing input w') (λ _. ⊥) (framed cipher w (some msg))
  framed-Flushing input w msg v e =
      let grown = cipher.overhead w.counter (drop 4 w.bytes.buf) msg e in
      let rest = length-drop 4 w.bytes.buf in
      let cap = v.capacity_eq in
      let small : length msg < u32_mod = omega (arith, v.room, v.header) in
      let four : length (take 4 w.bytes.buf) ≡ 4 =
        omega (arith, length-take 4 w.bytes.buf, v.header) in
      rw (lt→ltb (length msg) u32_mod small, (==_iff (length (take 4 w.bytes.buf)) 4).1 four)
        (record {
          on = refl;
          capacity_eq = v.capacity_eq;
          cleared = inl (
              rw v.at_start (
                omega (
                  arith,
                  length-append (to_be_bytes (length msg)) msg,
                  length-to_be_bytes (length msg),
                )));
          messages = v.messages ++ drop 4 w.bytes.buf ∷ [];
          small =
              All-append IsSmall v.messages (drop 4 w.bytes.buf ∷ []) v.small
                (omega (arith, v.room, v.header, rest), tt);
          sealed = rw v.at_start (
              Sealed-snoc cipher 0 v.messages w.written (drop 4 w.bytes.buf) msg v.sealed
                (ap (λ k. cipher.encrypt k (drop 4 w.bytes.buf)) (omega (arith, v.counted)) ∙ e));
          counted = omega (arith, v.counted, length-append v.messages (drop 4 w.bytes.buf ∷ []));
          whole = v.whole ∙ sym (flatten-snoc v.messages (drop 4 w.bytes.buf));
        })

  pub start_flushing-Ends :
      (input : Bytes) (w : EncryptedWriter)
      → Filling input w
      → Ends (λ _ w'. Flushing input w') (λ _. ⊥) (start_flushing cipher w)
  unfolding start_flushing
  start_flushing-Ends input w v =
      elim (Option-cases (cipher.encrypt w.counter (drop 4 w.bytes.buf))) [
        | inl e ↦ rw (e, start_flushing) tt
        | inr (msg, e) ↦ rw (e, start_flushing) (framed-Flushing input w msg v e)
      ]
