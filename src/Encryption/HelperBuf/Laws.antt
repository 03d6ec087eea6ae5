-- ===== src/Encryption/HelperBuf/Laws.antt =====
-- The operations of the buffer of gday_encryption/src/lib.rs.
use gday_old.Base.{
  ℕ, ◌+◌, ◌≤◌, ◌<◌, ◌≡◌, refl, sym, ◌∙◌, ap, [], le→leb, lt→leb, ◌==◌, ==_iff, length, length-drop,
  drop, drop-length, drop-drop, take-length-append, Bool-cases, inl, inr, ◌⊎◌, arith,
}
use gday_old.Base.Outcome.{returns, panics}
use gday_old.Encryption.HelperBuf.{HelperBuf, clear_at_end, advance_cursor, unread, wrap}

-- The cursor is in front of a byte, or the buffer is empty.
abbrev pub IsCleared : HelperBuf → Type 0
IsCleared b = (b.cursor < length b.buf) ⊎ ((b.buf ≡ []) × (b.cursor ≡ 0))

-- What `advance_cursor` leaves of a buffer.
pub record Advanced (num_bytes : ℕ) (b b' : HelperBuf) : Type 0 where
  pub unread_eq : unread b' ≡ drop num_bytes (unread b)
  pub cleared : IsCleared b'
  pub capacity_eq : b'.capacity ≡ b.capacity
  pub fits : length b'.buf ≤ length b.buf

clear_at_end-Advanced :
    (num_bytes : ℕ) (b : HelperBuf)
    → b.cursor + num_bytes ≤ length b.buf
    → Advanced num_bytes b (clear_at_end (record b { cursor = b.cursor + num_bytes }))
clear_at_end-Advanced num_bytes b h = elim (Bool-cases (b.cursor + num_bytes == length b.buf)) [
  | inl e ↦ rw e (record {
    unread_eq = sym (
        drop-drop b.cursor num_bytes b.buf
        ∙ ap (λ k. drop k b.buf) ((==_iff _ (length b.buf)).0 e)
        ∙ drop-length b.buf);
    cleared = inr (refl, refl);
    capacity_eq = refl;
    fits = omega arith;
  })
  | inr e ↦ rw e (record {
    unread_eq = sym (drop-drop b.cursor num_bytes b.buf);
    cleared = inl (ground arith);
    capacity_eq = refl;
    fits = omega arith;
  })
]

-- `advance_cursor` by at most the unread bytes does not panic, drops that many of them, and clears
-- the buffer if it is read to its end.
pub advance_cursor-Advanced :
    (num_bytes : ℕ) (b : HelperBuf)
    → b.cursor ≤ length b.buf
    → num_bytes ≤ length (unread b)
    → (b' : HelperBuf) × (advance_cursor num_bytes b ≡ returns b') × Advanced num_bytes b b'
unfolding advance_cursor
advance_cursor-Advanced num_bytes b h k =
    let within : b.cursor + num_bytes ≤ length b.buf = omega (arith, length-drop b.cursor b.buf) in
    (
      clear_at_end (record b { cursor = b.cursor + num_bytes }),
      rw (le→leb (b.cursor + num_bytes) (length b.buf) within),
      clear_at_end-Advanced num_bytes b within,
    )

-- `wrap` moves the unread bytes to the front of the buffer if they are no more than the read ones,
-- and panics if they are more.
pub wrap_lem :
    (b : HelperBuf)
    → (length (unread b) ≤ b.cursor → wrap b ≡ returns (record b { buf = unread b; cursor = 0 }))
      × (b.cursor < length (unread b) → wrap b ≡ panics)
unfolding wrap
wrap_lem b = (
  λ h. rw (le→leb (length (unread b)) b.cursor h) (
      ap (λ s. returns (record b { buf = s; cursor = 0 }))
        (take-length-append (unread b) (drop (length (unread b)) b.buf))),
  λ h. rw (lt→leb (length (unread b)) b.cursor h),
)
