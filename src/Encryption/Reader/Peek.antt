-- ===== src/Encryption/Reader/Peek.antt =====
-- What `peek_cipher_chunk` of gday_encryption/src/reader.rs finds in a text of sealed frames of which
-- a first part has been read.
use gday_old.Base.{
  ℕ, suc, ◌+◌, ◌^◌, ◌≤◌, ◌<◌, ◌≡◌, refl, sym, ◌∙◌, ap, List, [], ◌∷◌, ◌++◌, none, some, leb, le→leb,
  lt→leb, leb→le, length, length-append, length-drop, take, drop, take-append, drop-append,
  take-length-append, drop-length-append, All, Bool-cases, inl, inr, ◌⊎◌, arith,
}
use gday_old.Base.Text.{Bytes}
use gday_old.Encryption.HelperBuf.{max_chunk_size}
use gday_old.Base.Words.{to_be_bytes, from_be_bytes-to_be_bytes}
use gday_old.Encryption.Frame.{Cipher, frame, IsSmall, Sealed}
use gday_old.Encryption.Reader.{get_chunk, peek_cipher_chunk}

-- The text is of two parts and starts with a frame.
frame_head :
    (s incoming c rest : Bytes)
    → s ++ incoming ≡ frame c ++ rest
    → 4 ≤ length s
    → take 4 s ≡ to_be_bytes (length c)
unfolding to_be_bytes
frame_head s incoming c rest e h = sym (take-append 4 s incoming h) ∙ ap (take 4) e

frame_body :
    (s incoming c rest : Bytes)
    → s ++ incoming ≡ frame c ++ rest
    → 4 + length c ≤ length s
    → take (length c) (drop 4 s) ≡ c
unfolding to_be_bytes
frame_body s incoming c rest e h =
    sym (take-append (length c) (drop 4 s) incoming (omega (arith, length-drop 4 s)))
    ∙ ap (take (length c)) (sym (drop-append 4 s incoming (omega arith)))
    ∙ ap (λ t. take (length c) (drop 4 t)) e
    ∙ take-length-append c rest

frame_rest :
    (s incoming c rest : Bytes)
    → s ++ incoming ≡ frame c ++ rest
    → 4 + length c ≤ length s
    → drop (length c + 4) s ++ incoming ≡ rest
unfolding to_be_bytes
frame_rest s incoming c rest e h =
    sym (drop-append (length c + 4) s incoming (omega arith))
    ∙ ap (drop (length c + 4)) e
    ∙ ap (λ k. drop k (frame c ++ rest)) {y = suc (suc (suc (suc (length c))))} (omega arith)
    ∙ drop-length-append c rest

-- The length that stands in front of a frame.
peek_frame :
    (s incoming c rest : Bytes)
    → s ++ incoming ≡ frame c ++ rest
    → length c < 2 ^ 32
    → 4 ≤ length s
    → peek_cipher_chunk s ≡ get_chunk (length c) s
unfolding peek_cipher_chunk
peek_frame s incoming c rest e small h = rw (
  le→leb 4 (length s) h,
  frame_head s incoming c rest e h,
  from_be_bytes-to_be_bytes (length c) small,
)

module _ (cipher : Cipher) where
  -- The next frame is there whole, and is the first message's.
  pub record Whole (n : ℕ) (messages : List Bytes) (s incoming : Bytes) : Type 0 where
    pub message : Bytes
    pub later : List Bytes
    pub chunk : Bytes
    pub messages_eq : messages ≡ message ∷ later
    pub found : peek_cipher_chunk s ≡ some chunk
    pub encrypted : cipher.encrypt n message ≡ some chunk
    pub there : 4 + length chunk ≤ length s
    pub sealed : Sealed cipher (suc n) later (drop (length chunk + 4) s ++ incoming)

  -- It is not, and less than a chunk is there.
  abbrev pub Short : Bytes → Type 0
  Short s = (peek_cipher_chunk s ≡ none) × (length s < max_chunk_size)

  pub peek_lem :
      (n : ℕ) (messages : List Bytes) (s incoming : Bytes)
      → All IsSmall messages
      → Sealed cipher n messages (s ++ incoming)
      → Whole n messages s incoming ⊎ Short s
  unfolding peek_cipher_chunk
  peek_lem n [] s incoming small e =
      let nothing : length s ≡ 0 = omega (arith, length-append s incoming, ap length e) in
      inr (rw (lt→leb 4 (length s) (omega arith), peek_cipher_chunk), omega arith)
  peek_lem n (m ∷ ms) s incoming (small, smalls) (c, rest, h, e, after) =
      let len = cipher.overhead n m c h in
      elim (Bool-cases (leb 4 (length s))) [
        | inr short ↦ inr (rw (short, peek_cipher_chunk), ground arith)
        | inl header ↦
            let four = leb→le 4 (length s) header in
            let at = peek_frame s incoming c rest e (omega arith) four in
            elim (Bool-cases (leb (4 + length c) (length s))) [
              | inr short ↦ inr (rw (at, short), ground arith)
              | inl there ↦
                  let within = leb→le (4 + length c) (length s) there in
                  inl (record {
                    message = m;
                    later = ms;
                    chunk = c;
                    messages_eq = refl;
                    found = at ∙ rw there (ap some (frame_body s incoming c rest e within));
                    encrypted = h;
                    there = within;
                    sealed = rw (frame_rest s incoming c rest e within) after;
                  })
            ]
      ]
