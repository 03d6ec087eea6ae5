-- ===== src/Encryption/Reader/Decrypt.antt =====
-- What the reader of gday_encryption/src/reader.rs keeps, and its decryption loop.
use mathlib.Core.List.{flatten}
use gday_old.Base.{
  ℕ, zero, suc, ◌+◌, ◌*◌, ◌≤◌, ◌<◌, ◌≡◌, refl, sym, ◌∙◌, ap, subst, Bool, true, false, List, [],
  ◌∷◌, ◌++◌, append_assoc, ltb, ◌==◌, ==_iff, length, length-append, length-take, length-drop, take,
  drop, drop-append, take-append-drop, min, All, Bool-cases, inl, inr, ◌⊎◌, arith,
}
use gday_old.Base.Text.{Bytes}
use gday_old.Encryption.HelperBuf.{HelperBuf, unread, spare_capacity_len, max_chunk_size}
use gday_old.Encryption.HelperBuf.Laws.{IsCleared, Advanced, advance_cursor-Advanced, wrap_lem}
use gday_old.Encryption.Frame.{Cipher, IsSmall, Sealed}
use gday_old.Encryption.Reader.{
  EncryptedReader, gives, waits, fails, invalid_data, panicked, running, Step, then_do, new_reader,
  peek_cipher_chunk, appended, inner_read, on_chunk, decrypt_chunks, make_room,
  decrypt_all_full_chunks,
}
use gday_old.Encryption.Reader.Peek.{Whole, peek_lem}

-- A buffer in order, of the given capacity.
pub record IsSound (capacity : ℕ) (b : HelperBuf) : Type 0 where
  pub capacity_eq : b.capacity ≡ capacity
  pub cleared : IsCleared b
  pub fits : length b.buf ≤ capacity

pub cursor_within : (b : HelperBuf) → IsCleared b → b.cursor ≤ length b.buf
cursor_within b (inl h) = omega arith
cursor_within b (inr (e, z)) = omega arith

pub appended-unread :
    (s : Bytes) (b : HelperBuf) → IsCleared b → unread (appended s b) ≡ unread b ++ s
appended-unread s b v = drop-append b.cursor b.buf s (cursor_within b v)

appended-IsCleared : (s : Bytes) (b : HelperBuf) → IsCleared b → IsCleared (appended s b)
appended-IsCleared s b (inl h) = inl (omega (arith, length-append b.buf s))
appended-IsCleared [] b (inr (e, z)) = inr (rw e refl, z)
appended-IsCleared (c ∷ s) b (inr (e, z)) = inl (omega (arith, length-append b.buf (c ∷ s)))

pub appended-IsSound :
    (capacity : ℕ) (s : Bytes) (b : HelperBuf)
    → IsSound capacity b
    → length s ≤ spare_capacity_len b
    → IsSound capacity (appended s b)
appended-IsSound capacity s b v h = record {
  capacity_eq = v.capacity_eq;
  cleared = appended-IsCleared s b v.cleared;
  fits = omega (arith, length-append b.buf s, v.capacity_eq, v.fits);
}

pub IsSound-kept :
    (capacity n : ℕ) (b b' : HelperBuf) → IsSound capacity b → Advanced n b b' → IsSound capacity b'
IsSound-kept capacity n b b' v a = record {
  capacity_eq = a.capacity_eq ∙ v.capacity_eq;
  cleared = a.cleared;
  fits = omega (arith, a.fits, v.fits);
}

-- How a step ends: with a value and `P`, waiting or with an error of the inner reader and `Q`, or
-- still running and `R`. It does not panic, and the cipher does not fail.
abbrev pub Ends :
    {A : Type 0}
    → (A → EncryptedReader → Type 0)
    → (EncryptedReader → Type 0)
    → (EncryptedReader → Type 0)
    → Step A
    → Type 0
Ends P Q R (gives a, r) = P a r
Ends P Q R (waits, r) = Q r
Ends P Q R (fails e, r) = Q r
Ends P Q R (invalid_data, r) = ⊥
Ends P Q R (panicked, r) = ⊥
Ends P Q R (running, r) = R r

pub then_do-Ends :
    {A B : Type 0} (P : A → EncryptedReader → Type 0) (P' : B → EncryptedReader → Type 0)
    (Q R Q' R' : EncryptedReader → Type 0) (m : Step A) (f : A → EncryptedReader → Step B)
    → Ends P Q R m
    → ((r : EncryptedReader) → Q r → Q' r)
    → ((r : EncryptedReader) → R r → R' r)
    → ((a : A) (r : EncryptedReader) → P a r → Ends P' Q' R' (f a r))
    → Ends P' Q' R' (then_do m f)
then_do-Ends P P' Q R Q' R' (gives a, r) f h hq hr k = k a r h
then_do-Ends P P' Q R Q' R' (waits, r) f h hq hr k = hq r h
then_do-Ends P P' Q R Q' R' (fails e, r) f h hq hr k = hq r h
then_do-Ends P P' Q R Q' R' (invalid_data, r) f h hq hr k = h
then_do-Ends P P' Q R Q' R' (panicked, r) f h hq hr k = h
then_do-Ends P P' Q R Q' R' (running, r) f h hq hr k = hr r h

abbrev pub Never : EncryptedReader → Type 0
Never r = ⊥

module _ (cipher : Cipher) where
  -- What was delivered, the cleartext, and the messages that are still sealed make up the whole.
  pub record Reading (whole delivered : Bytes) (r : EncryptedReader) : Type 0 where
    pub clear : IsSound max_chunk_size r.cleartext
    pub sound : IsSound (max_chunk_size * 2) r.ciphertext
    pub messages : List Bytes
    pub small : All IsSmall messages
    pub sealed : Sealed cipher r.counter messages (unread r.ciphertext ++ r.incoming)
    pub whole_eq : whole ≡ delivered ++ (unread r.cleartext ++ flatten messages)

  pub new_reader-Reading :
      (messages : List Bytes) (incoming : Bytes)
      → All IsSmall messages
      → Sealed cipher 0 messages incoming
      → Reading (flatten messages) [] (new_reader incoming)
  new_reader-Reading messages incoming small sealed = record {
    clear = record { capacity_eq = refl; cleared = inr (refl, refl); fits = omega arith };
    sound = record { capacity_eq = refl; cleared = inr (refl, refl); fits = omega arith };
    messages = messages;
    small = small;
    sealed = sealed;
    whole_eq = refl;
  }

  pub inner_read-Reading :
      (n : ℕ) (whole delivered : Bytes) (r : EncryptedReader)
      → Reading whole delivered r
      → Reading whole delivered (inner_read n r)
  unfolding inner_read
  inner_read-Reading n whole delivered r v =
      let k = min (suc n) (spare_capacity_len r.ciphertext) in
      record {
        clear = v.clear;
        sound =
            appended-IsSound (max_chunk_size * 2) (take k r.incoming) r.ciphertext v.sound
              (omega (arith, length-take k r.incoming));
        messages = v.messages;
        small = v.small;
        sealed =
            subst (Sealed cipher r.counter v.messages)
              (sym (
                ap (λ s. s ++ drop k r.incoming)
                  (appended-unread (take k r.incoming) r.ciphertext v.sound.cleared)
                ∙ append_assoc (unread r.ciphertext) _ _
                ∙ ap (λ s. unread r.ciphertext ++ s) (take-append-drop k r.incoming)))
              v.sealed;
        whole_eq = v.whole_eq;
      }

  -- The reader behind a chunk that was opened.
  opened-Reading :
      (whole delivered : Bytes) (r : EncryptedReader) (b : HelperBuf)
      → (v : Reading whole delivered r)
      → (w : Whole cipher r.counter v.messages (unread r.ciphertext) r.incoming)
      → Advanced (length w.chunk + 4) r.ciphertext b
      → length w.chunk ≤ spare_capacity_len r.cleartext
      → Reading whole delivered (record r {
        ciphertext = b;
        counter = suc r.counter;
        cleartext = appended w.message r.cleartext;
      })
  unfolding flatten
  opened-Reading whole delivered r b v w a room =
      let smalls = subst (All IsSmall) w.messages_eq v.small in
      let len = cipher.overhead r.counter w.message w.chunk w.encrypted in
      record {
        clear = appended-IsSound max_chunk_size w.message r.cleartext v.clear (omega arith);
        sound = IsSound-kept (max_chunk_size * 2) (length w.chunk + 4) r.ciphertext b v.sound a;
        messages = w.later;
        small = smalls.1;
        sealed =
            subst (λ s. Sealed cipher (suc r.counter) w.later (s ++ r.incoming)) (sym a.unread_eq)
              w.sealed;
        whole_eq =
            v.whole_eq
            ∙ ap (λ ms. delivered ++ (unread r.cleartext ++ flatten ms)) w.messages_eq
            ∙ ap (λ s. delivered ++ s)
                (sym (append_assoc (unread r.cleartext) w.message (flatten w.later)))
            ∙ ap (λ s. delivered ++ (s ++ flatten w.later))
                (sym (appended-unread w.message r.cleartext v.clear.cleared));
      }

  -- What the loop ends with: it has stopped where no whole chunk is left, or early, with cleartext.
  abbrev pub Stopped : Bytes → Bytes → Bool → EncryptedReader → Type 0
  Stopped whole delivered true r =
      Reading whole delivered r × (length (unread r.ciphertext) < max_chunk_size)
  Stopped whole delivered false r = Reading whole delivered r × (0 < length (unread r.cleartext))

  -- A cleartext without room for a small chunk has unread bytes.
  crowded :
      (b : HelperBuf) (n : ℕ)
      → IsSound max_chunk_size b
      → spare_capacity_len b < n
      → n + 4 ≤ max_chunk_size
      → 0 < length (unread b)
  crowded b n v h k = elim v.cleared [
    | inl c ↦ omega (arith, length-drop b.cursor b.buf)
    | inr (e, z) ↦ absurd (omega (arith, ap length e, v.capacity_eq))
  ]

  -- The rest of the loop, on readers with less ciphertext than the fuel.
  abbrev Again : ℕ → Bytes → Bytes → (EncryptedReader → Step Bool) → Type 0
  Again fuel whole delivered again =
      (r : EncryptedReader)
      → Reading whole delivered r
      → length (unread r.ciphertext) < fuel
      → Ends (Stopped whole delivered) Never Never (again r)

  on_chunk-Stopped :
      (fuel : ℕ) (whole delivered : Bytes) (again : EncryptedReader → Step Bool)
      (r : EncryptedReader) (v : Reading whole delivered r)
      → Again fuel whole delivered again
      → length (unread r.ciphertext) < suc fuel
      → Whole cipher r.counter v.messages (unread r.ciphertext) r.incoming
      → Ends
          (Stopped whole delivered)
          Never
          Never
          (on_chunk cipher again (peek_cipher_chunk (unread r.ciphertext)) r)
  unfolding on_chunk
  on_chunk-Stopped fuel whole delivered again r v ih h w =
      elim (Bool-cases (ltb (spare_capacity_len r.cleartext) (length w.chunk))) [
        | inl e ↦
            let smalls = subst (All IsSmall) w.messages_eq v.small in
            let len = cipher.overhead r.counter w.message w.chunk w.encrypted in
            rw (w.found, e)
              (
                v,
                crowded r.cleartext (length w.chunk) v.clear (ground arith)
                    (omega (arith, smalls.0)),
              )
        | inr e ↦
            let (b, advances, a) =
              advance_cursor-Advanced (length w.chunk + 4) r.ciphertext
                (cursor_within r.ciphertext v.sound.cleared) (omega (arith, w.there)) in
            let rest = length-drop (length w.chunk + 4) (unread r.ciphertext) in
            rw
              (w.found, e, advances, cipher.decrypt_encrypt r.counter w.message w.chunk w.encrypted)
              (ih _ (opened-Reading whole delivered r b v w a (ground arith))
                (omega (arith, ap length a.unread_eq, rest, w.there)))
      ]

  decrypt_chunks-Stopped :
      (fuel : ℕ) (whole delivered : Bytes) → Again fuel whole delivered (decrypt_chunks cipher fuel)
  unfolding decrypt_chunks on_chunk
  decrypt_chunks-Stopped zero whole delivered r v h = absurd (omega arith)
  decrypt_chunks-Stopped (suc fuel) whole delivered r v h =
      elim (peek_lem cipher r.counter v.messages (unread r.ciphertext) r.incoming v.small
        v.sealed) [
          | inl w ↦
              on_chunk-Stopped fuel whole delivered (decrypt_chunks cipher fuel) r v
                (decrypt_chunks-Stopped fuel whole delivered) h w
          | inr (nothing, short) ↦ rw nothing (v, short)
        ]

  -- Where the reader can go on from: it has cleartext, or room for more ciphertext.
  abbrev pub Decrypted : Bytes → Bytes → EncryptedReader → Type 0
  Decrypted whole delivered r =
      Reading whole delivered r
      × ((0 < length (unread r.cleartext)) ⊎ (0 < spare_capacity_len r.ciphertext))

  wrapped-Reading :
      (whole delivered : Bytes) (r : EncryptedReader)
      → Reading whole delivered r
      → length (unread r.ciphertext) < max_chunk_size
      → let b = r.ciphertext in
        Reading whole delivered (record r { ciphertext = record b { buf = unread b; cursor = 0 } })
  wrapped-Reading whole delivered r v h = record {
    clear = v.clear;
    sound = record {
      capacity_eq = v.sound.capacity_eq;
      cleared = at_start (unread r.ciphertext);
      fits = omega arith;
    };
    messages = v.messages;
    small = v.small;
    sealed = v.sealed;
    whole_eq = v.whole_eq;
  }
    where
      at_start :
          (s : Bytes) → IsCleared (record { buf = s; cursor = 0; capacity = r.ciphertext.capacity })
      at_start [] = inr (refl, refl)
      at_start (c ∷ s) = inl (omega arith)

  make_room-Decrypted :
      (b : Bool) (whole delivered : Bytes) (r : EncryptedReader)
      → Stopped whole delivered b r
      → Ends (λ _ r'. Decrypted whole delivered r') Never Never (make_room b r)
  unfolding make_room
  make_room-Decrypted false whole delivered r (v, some_clear) = (v, inl some_clear)
  make_room-Decrypted true whole delivered r (v, short) =
      elim (Bool-cases (spare_capacity_len r.ciphertext == 0)) [
        | inl e ↦
            let full = v.sound.fits in
            let cap = v.sound.capacity_eq in
            let rest = length-drop r.ciphertext.cursor r.ciphertext.buf in
            let none_left = (==_iff (spare_capacity_len r.ciphertext) 0).0 e in
            rw (e, (wrap_lem r.ciphertext).0 (omega arith))
              (wrapped-Reading whole delivered r v short, inr (omega arith))
        | inr e ↦ rw e (v, inr (ground arith))
      ]

  pub decrypt_all_full_chunks-Decrypted :
      (whole delivered : Bytes) (r : EncryptedReader)
      → Reading whole delivered r
      → Ends (λ _ r'. Decrypted whole delivered r') Never Never (decrypt_all_full_chunks cipher r)
  unfolding decrypt_all_full_chunks
  decrypt_all_full_chunks-Decrypted whole delivered r v =
      then_do-Ends (Stopped whole delivered) (λ _ r'. Decrypted whole delivered r') Never Never
        Never Never (decrypt_chunks cipher (suc (length (unread r.ciphertext))) r) (make_room)
        (decrypt_chunks-Stopped (suc (length (unread r.ciphertext))) whole delivered r v
          (omega arith))
        (λ _ x. x) (λ _ x. x) (λ b r' h. make_room-Decrypted b whole delivered r' h)
