-- ===== src/Encryption/Frame.antt =====
-- What gday_encryption/src puts on the wire: a frame is the length of a ciphertext, as a big-endian
-- u32, and the ciphertext. The cipher is the crate chacha20poly1305's, a parameter.
use gday_old.Base.{
  ◌≤◌, ℕ, suc, ◌+◌, ◌≡◌, refl, ◌∙◌, ap, List, [], ◌∷◌, ◌++◌, append_assoc, append-nil, Option, some,
  length, arith,
}
use gday_old.Base.Text.{Bytes}
use gday_old.Base.Words.{to_be_bytes}
use gday_old.Encryption.HelperBuf.{max_chunk_size}

-- `EncryptorLE31` and `DecryptorLE31` with one key and nonce: the n-th message is sealed under the
-- n-th nonce, which fails when the counter has run out; opening what was sealed gives the message.
pub record Cipher : Type 0 where
  pub encrypt : ℕ → Bytes → Option Bytes
  pub decrypt : ℕ → Bytes → Option Bytes
  pub decrypt_encrypt : (n : ℕ) (m c : Bytes) → encrypt n m ≡ some c → decrypt n c ≡ some m
  pub overhead : (n : ℕ) (m c : Bytes) → encrypt n m ≡ some c → length c ≡ length m + 16

abbrev pub frame : Bytes → Bytes
frame c = to_be_bytes (length c) ++ c

-- A message whose frame is no longer than a chunk.
abbrev pub IsSmall : Bytes → Type 0
IsSmall m = length m + 20 ≤ max_chunk_size

module _ (cipher : Cipher) where
  -- The text is the frames of the messages, sealed from the n-th on.
  abbrev pub Sealed : ℕ → List Bytes → Bytes → Type 0
  Sealed n [] out = out ≡ []
  Sealed n (m ∷ ms) out =
      (c : Bytes) × (rest : Bytes) × (cipher.encrypt n m ≡ some c)
      × (out ≡ frame c ++ rest)
      × Sealed (suc n) ms rest

  pub Sealed-snoc :
      (n : ℕ) (ms : List Bytes) (out m c : Bytes)
      → Sealed n ms out
      → cipher.encrypt (n + length ms) m ≡ some c
      → Sealed n (ms ++ m ∷ []) (out ++ frame c)
  Sealed-snoc n [] out m c e h =
      (c, [], ap (λ k. cipher.encrypt k m) (omega arith) ∙ h, rw (e, append-nil), refl)
  Sealed-snoc n (x ∷ ms) out m c (d, rest, hx, e, s) h = (
    d,
    rest ++ frame c,
    hx,
    rw e (append_assoc (frame d) rest (frame c)),
    Sealed-snoc (suc n) ms rest m c s (ap (λ k. cipher.encrypt k m) (omega arith) ∙ h),
  )
