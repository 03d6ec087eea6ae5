-- ===== src/Encryption/Reader/Polls.antt =====
-- The polls of the reader of gday_encryption/src/reader.rs.
use mathlib.Core.List.{flatten}
use gday_old.Base.{
  ℕ, suc, ◌*◌, ◌<◌, ◌≡◌, refl, sym, ◌∙◌, ap, Bool, true, false, List, [], ◌∷◌, ◌++◌, append-nil,
  Option, ltb, ◌==◌, ==_iff, if◌then◌else◌, length, length-append, length-take, take, min,
  Bool-cases, inl, inr, ◌⊎◌, arith,
}
use gday_old.Base.Outcome.{Profile, debug, release}
use gday_old.Base.Text.{Bytes, is_empty}
use gday_old.Encryption.HelperBuf.{unread, spare_capacity_len, max_chunk_size}
use gday_old.Base.Words.{to_be_bytes}
use gday_old.Encryption.Frame.{Cipher, Sealed}
use gday_old.Encryption.Reader.{
  EncryptedReader, Answer, fills, broken, gives, panicked, Step, then_do, inner_read,
  decrypt_all_full_chunks, on_answer, wants, read_chunks, debug_assert, checked_read, amount,
  read_if_necessary,
}
use gday_old.Encryption.Reader.Decrypt.{
  appended-unread, Ends, then_do-Ends, Never, Reading, inner_read-Reading, Decrypted,
  decrypt_all_full_chunks-Decrypted,
}

-- The inner reader reads on in every answer.
abbrev pub AllFill : List Answer → Type 0
AllFill [] = Unit
AllFill (fills n ∷ answers) = AllFill answers
AllFill (Answer.pending ∷ answers) = ⊥
AllFill (broken e ∷ answers) = ⊥

empty_length : (s : Bytes) → is_empty s ≡ true → length s ≡ 0
empty_length [] h = refl
empty_length (c ∷ s) h = cc

some_length : (s : Bytes) → is_empty s ≡ false → 0 < length s
some_length [] h = cc
some_length (c ∷ s) h = omega arith

pub length_some : (s : Bytes) → 0 < length s → is_empty s ≡ false
length_some [] h = absurd (omega arith)
length_some (c ∷ s) h = refl

pub length_zero : (s : Bytes) → length s ≡ 0 → s ≡ []
length_zero [] h = refl
length_zero (c ∷ s) h = absurd (omega arith)

pub assertion_holds {ℓ} :
    {A : Type ℓ} (p : Profile) (failing a : A) → debug_assert p true failing a ≡ a
assertion_holds debug failing a = refl
assertion_holds release failing a = refl

module _ (cipher : Cipher) where
  -- The end of the input, or cleartext.
  abbrev pub Arrived : Bytes → Bytes → Bool → EncryptedReader → Type 0
  Arrived whole delivered true r = Reading cipher whole delivered r × (whole ≡ delivered)
  Arrived whole delivered false r =
      Reading cipher whole delivered r × (0 < length (unread r.cleartext))

  no_messages :
      (n : ℕ) (messages : List Bytes) (s : Bytes)
      → Sealed cipher n messages s
      → s ≡ []
      → flatten messages ≡ []
  unfolding flatten to_be_bytes
  no_messages n [] s h e = refl
  no_messages n (m ∷ ms) s (c, rest, h, e, after) z = cc (sym e ∙ z)

  -- With no cleartext and no ciphertext left behind a read, all has been delivered.
  end_of_input :
      (n : ℕ) (whole delivered : Bytes) (r : EncryptedReader)
      → Reading cipher whole delivered r
      → 0 < spare_capacity_len r.ciphertext
      → length (unread (inner_read n r).ciphertext) ≡ 0
      → length (unread r.cleartext) ≡ 0
      → whole ≡ delivered
  unfolding inner_read
  end_of_input n whole delivered r v room no_cipher no_clear =
      let k = min (suc n) (spare_capacity_len r.ciphertext) in
      let grown = ap length (appended-unread (take k r.incoming) r.ciphertext v.sound.cleared) in
      let both = length-append (unread r.ciphertext) (take k r.incoming) in
      let left = length-take k r.incoming in
      let nothing =
        length_zero (unread r.ciphertext ++ r.incoming)
          (omega (arith, length-append (unread r.ciphertext) r.incoming)) in
      v.whole_eq
      ∙ ap (λ s. delivered ++ (s ++ flatten v.messages)) (length_zero _ no_clear)
      ∙ ap (λ s. delivered ++ s) (no_messages r.counter v.messages _ v.sealed nothing)
      ∙ append-nil delivered

  abbrev Loop : List Answer → Bytes → Bytes → Step Bool → Type 0
  Loop answers whole delivered =
      Ends (Arrived whole delivered) (Reading cipher whole delivered)
        (λ r. Reading cipher whole delivered r × AllFill answers)

  fills-Loop :
      (n : ℕ) (answers : List Answer) (whole delivered : Bytes)
      (again : EncryptedReader → Step Bool) (r : EncryptedReader)
      → Reading cipher whole delivered r
      → 0 < spare_capacity_len r.ciphertext
      → ((r : EncryptedReader)
          → Decrypted cipher whole delivered r
          → Loop answers whole delivered (again r))
      → Loop answers whole delivered (on_answer cipher again (fills n) r)
  unfolding on_answer inner_read
  fills-Loop n answers whole delivered again r v room ih =
      let v' = inner_read-Reading cipher n whole delivered r v in
      let r' = inner_read n r in
      let next =
        then_do-Ends (λ _ r''. Decrypted cipher whole delivered r'') (Arrived whole delivered) Never
          Never (Reading cipher whole delivered)
          (λ r''. Reading cipher whole delivered r'' × AllFill answers)
          (decrypt_all_full_chunks cipher r') (λ _ r''. again r'')
          (decrypt_all_full_chunks-Decrypted cipher whole delivered r' v') (λ _ x. absurd x)
          (λ _ x. absurd x) (λ _ r'' h. ih r'' h) in
      elim (Bool-cases (is_empty (unread r'.ciphertext))) [
        | inr e ↦ rw e next
        | inl e ↦ elim (Bool-cases (is_empty (unread r'.cleartext))) [
          | inr e' ↦ rw (e, e') next
          | inl e' ↦
              rw (e, e')
                (v', end_of_input n whole delivered r v room (empty_length _ e) (clear_left e'))
        ]
      ]
    where
      clear_left :
          is_empty (unread (inner_read n r).cleartext) ≡ true → length (unread r.cleartext) ≡ 0
      clear_left e = empty_length (unread r.cleartext) e

  -- The test of the loop: unless it goes on there is cleartext.
  unless_wanted :
      (answers : List Answer) (whole delivered : Bytes) (bytes_amount : ℕ) (r : EncryptedReader)
      (more : Step Bool)
      → Decrypted cipher whole delivered r
      → 0 < bytes_amount
      → (0 < spare_capacity_len r.ciphertext → Loop answers whole delivered more)
      → Loop answers whole delivered (if wants bytes_amount r then more else (gives false, r))
  unless_wanted answers whole delivered bytes_amount r more (v, able) some_wanted k =
      elim (Bool-cases (ltb (length (unread r.cleartext)) bytes_amount)) [
        | inr e ↦ rw e (v, ground arith)
        | inl e ↦ elim (Bool-cases (spare_capacity_len r.ciphertext == 0)) [
          | inr e' ↦ rw (e, e') (k (ground arith))
          | inl e' ↦ rw (e, e') (v, cleartext_there able ((==_iff _ 0).0 e'))
        ]
      ]
    where
      cleartext_there :
          (0 < length (unread r.cleartext)) ⊎ (0 < spare_capacity_len r.ciphertext)
          → spare_capacity_len r.ciphertext ≡ 0
          → 0 < length (unread r.cleartext)
      cleartext_there (inl h) e = h
      cleartext_there (inr h) e = absurd (omega arith)

  read_chunks-Loop :
      (answers : List Answer) (whole delivered : Bytes) (bytes_amount : ℕ) (r : EncryptedReader)
      → Decrypted cipher whole delivered r
      → 0 < bytes_amount
      → Loop answers whole delivered (read_chunks cipher answers bytes_amount r)
  unfolding read_chunks on_answer
  read_chunks-Loop [] whole delivered bytes_amount r d h =
      unless_wanted [] whole delivered bytes_amount r _ d h (λ _. (d.0, tt))
  read_chunks-Loop (fills n ∷ answers) whole delivered bytes_amount r d h =
      unless_wanted answers whole delivered bytes_amount r _ d h (λ room.
        fills-Loop n answers whole delivered (read_chunks cipher answers bytes_amount) r d.0 room
          (λ r' d'. read_chunks-Loop answers whole delivered bytes_amount r' d' h))
  read_chunks-Loop (Answer.pending ∷ answers) whole delivered bytes_amount r d h =
      unless_wanted (Answer.pending ∷ answers) whole delivered bytes_amount r _ d h (λ _.
        elim (Bool-cases (is_empty (unread r.cleartext))) [
          | inl e ↦ rw e d.0
          | inr e ↦ rw e (d.0, some_length _ e)
        ])
  read_chunks-Loop (broken e ∷ answers) whole delivered bytes_amount r d h =
      unless_wanted (broken e ∷ answers) whole delivered bytes_amount r _ d h (λ _. d.0)

  checked_read-Loop :
      (p : Profile) (answers : List Answer) (whole delivered : Bytes) (b : Bool)
      (r : EncryptedReader)
      → Arrived whole delivered b r
      → Loop answers whole delivered (checked_read p b r)
  checked_read-Loop p answers whole delivered true r h = h
  checked_read-Loop p answers whole delivered false r (v, h) =
      rw
        (
          length_some (unread r.cleartext) h,
          assertion_holds {A = Step Bool} p (panicked, r) (gives false, r),
        )
        (v, h)

  pub read_if_necessary-Loop :
      (p : Profile) (answers : List Answer) (wanted_bytes : Option ℕ) (whole delivered : Bytes)
      (r : EncryptedReader)
      → Reading cipher whole delivered r
      → 0 < amount wanted_bytes r.cleartext.capacity
      → Loop answers whole delivered (read_if_necessary cipher p answers wanted_bytes r)
  unfolding read_if_necessary
  read_if_necessary-Loop p answers wanted_bytes whole delivered r v h =
      let bytes_amount = amount wanted_bytes r.cleartext.capacity in
      let inside = λ (r' : EncryptedReader) (d : Decrypted cipher whole delivered r').
        then_do-Ends (Arrived whole delivered) (Arrived whole delivered)
          (Reading cipher whole delivered) (λ r. Reading cipher whole delivered r × AllFill answers)
          (Reading cipher whole delivered) (λ r. Reading cipher whole delivered r × AllFill answers)
          (read_chunks cipher answers bytes_amount r') (checked_read p)
          (read_chunks-Loop answers whole delivered bytes_amount r' d h) (λ _ x. x) (λ _ x. x)
          (λ b r'' a. checked_read-Loop p answers whole delivered b r'' a) in
      rw
        (
          (==_iff r.cleartext.capacity max_chunk_size).1 v.clear.capacity_eq,
          (==_iff r.ciphertext.capacity (2 * max_chunk_size)).1 v.sound.capacity_eq,
          assertion_holds {A = Step Bool} p (panicked, r)
              (then_do (decrypt_all_full_chunks cipher r)
                (λ _ r'. then_do (read_chunks cipher answers bytes_amount r') (checked_read p))),
        )
        (then_do-Ends (λ _ r'. Decrypted cipher whole delivered r') (Arrived whole delivered) Never
          Never (Reading cipher whole delivered)
          (λ r. Reading cipher whole delivered r × AllFill answers)
          (decrypt_all_full_chunks cipher r) _
          (decrypt_all_full_chunks-Decrypted cipher whole delivered r v) (λ _ x. absurd x)
          (λ _ x. absurd x) (λ _ r' d. inside r' d))
