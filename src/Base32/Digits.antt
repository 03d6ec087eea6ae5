-- ===== src/Base32/Digits.antt =====
-- The digits of the alphabet of gday/src/base32.rs, by a table of all 32, and the digits of a number.
use mathlib.Core.Bool.{Bool, true, false, not, ◌&&◌}
use gday_old.Base.{
  ℕ, zero, suc, ◌+◌, ◌<◌, ◌≤◌, ◌≡◌, refl, subst, Bool-cases, inl, inr, Option, none, some, ◌==◌,
  ==_iff, get_elem?, arith,
}
use gday_old.Base.Outcome.{returns}
use gday_old.Base.Text.{upper, is_whitespace}
use gday_old.Base32.{alphabet, position, unambiguous, alphabet_at}

-- The character of a digit.
unfoldable pub digit : ℕ → ℕ
digit d = elim (get_elem? alphabet d) [ none ↦ 0 | some c ↦ c ]

-- What the code relies on of the character of a digit.
pub record IsDigit (c d : ℕ) : Type 0 where
  pub found : position c alphabet ≡ some d
  pub upper_eq : upper c ≡ c
  pub clear : unambiguous c ≡ c
  pub solid : is_whitespace c ≡ false
  pub no_dot : (c == b'.') ≡ false

is_at : Option ℕ → ℕ → Bool
is_at none d = false
is_at (some i) d = i == d

is_digit : ℕ → ℕ → Bool
unfolding position is_at
is_digit c d =
    is_at (position c alphabet) d
    && (upper c == c)
    && (unambiguous c == c)
    && not (is_whitespace c)
    && not (c == b'.')

is_at_sound : (o : Option ℕ) (d : ℕ) → is_at o d ≡ true → o ≡ some d
unfolding is_at
is_at_sound none d h = ground arith
is_at_sound (some i) d h = ground arith

is_digit_sound : (c d : ℕ) → is_digit c d ≡ true → IsDigit c d
unfolding is_digit
is_digit_sound c d h = record {
  found = is_at_sound _ d (ground arith);
  upper_eq = (==_iff _ c).0 (ground arith);
  clear = (==_iff _ c).0 (ground arith);
  solid = ground arith;
  no_dot = ground arith;
}

-- The test holds of `count` numbers from `first` on.
holds_on : (ℕ → Bool) → ℕ → ℕ → Bool
holds_on test first zero = true
holds_on test first (suc count) = test first && holds_on test (suc first) count

holds_on-at :
    (test : ℕ → Bool) (count first d : ℕ)
    → holds_on test first count ≡ true
    → first ≤ d
    → d < first + count
    → test d ≡ true
unfolding holds_on
holds_on-at test zero first d all low high = absurd (omega arith)
holds_on-at test (suc count) first d all low high = elim (Bool-cases (first == d)) [
  | inl e ↦ subst (λ k. test k ≡ true) ((==_iff first d).0 e) (ground arith)
  | inr e ↦ holds_on-at test count (suc first) d (ground arith) (ground arith) (omega arith)
]

digit_table : holds_on (λ d. is_digit (digit d) d) 0 32 ≡ true
unfolding holds_on is_digit digit
digit_table = refl

pub digit-IsDigit : (d : ℕ) → d < 32 → IsDigit (digit d) d
digit-IsDigit d h = is_digit_sound (digit d) d (holds_on-at _ 32 0 d digit_table (omega arith) h)

alphabet_at_ok : ℕ → Bool
unfolding alphabet_at digit
alphabet_at_ok d = elim (alphabet_at d) [ returns c ↦ c == digit d | _ ↦ false ]

alphabet_at_table : holds_on alphabet_at_ok 0 32 ≡ true
unfolding holds_on alphabet_at_ok
alphabet_at_table = refl

pub alphabet_at-digit : (d : ℕ) → d < 32 → alphabet_at d ≡ returns (digit d)
unfolding alphabet_at_ok alphabet_at digit
alphabet_at-digit d h =
    let t = holds_on-at _ 32 0 d alphabet_at_table (omega arith) h in ground arith
