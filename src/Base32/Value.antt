-- ===== src/Base32/Value.antt =====
-- The number that `str_to_u32` of gday/src/base32.rs reads, against the positional value.
use mathlib.Core.List.{reverse, reverse-cons, reverse-reverse}
use native.Mathlib.Nat.{pow-suc}
use gday_old.Base.{
  ℕ, zero, suc, ◌+◌, ◌*◌, ◌^◌, ◌≤◌, ◌<◌, ◌≡◌, refl, [], ◌∷◌, ◌++◌, Option, none, some, arith, sym,
  ap, ◌∙◌, lt→ltb, length, length-reverse, Option-cases, inl, inr,
}
use gday_old.Base.Outcome.{returns, Profile, u32_mod, pow_u32, checked}
use gday_old.Base.Text.{Bytes}
use gday_old.Base32.{alphabet, position, normalize, add_digit, scan, str_to_u32}
use native.Mathlib.Decide.{dec_lt}

abbrev pub and_then {ℓ κ} : {A : Type ℓ} {B : Type κ} → Option A → (A → Option B) → Option B
and_then none f = none
and_then (some a) f = f a

-- Reading the digits of a text from the left, behind a number that is read already.
pub value : ℕ → Bytes → Option ℕ
value v [] = some v
value v (c ∷ s) = and_then (position c alphabet) (λ d. value (v * 32 + d) s)

-- The value of a text whose first digit is the least.
value_lsd : Bytes → Option ℕ
value_lsd [] = some 0
value_lsd (c ∷ s) =
    and_then (value_lsd s) (λ v. and_then (position c alphabet) (λ d. some (v * 32 + d)))

value-snoc :
    (v c : ℕ) (s : Bytes)
    → value v (s ++ c ∷ [])
      ≡ and_then (value v s) (λ w. and_then (position c alphabet) (λ d. some (w * 32 + d)))
unfolding value
value-snoc v c [] = refl
value-snoc v c (a ∷ s) = elim (Option-cases (position a alphabet)) [
  | inl e ↦ rw e
  | inr (d, e) ↦ rw e (value-snoc (v * 32 + d) c s)
]

value-reverse : (s : Bytes) → value 0 (reverse s) ≡ value_lsd s
unfolding value_lsd
value-reverse [] = unfold value in refl
value-reverse (c ∷ s) = rw (reverse-cons c s, value-snoc 0 c (reverse s), value-reverse s)

pub position-lt-length : (c : ℕ) (s : Bytes) (d : ℕ) → position c s ≡ some d → d < length s
unfolding position
position-lt-length c [] d e = ground arith
position-lt-length c (a ∷ s) d e = elim (Option-cases (position c s)) [
  | inl none_left ↦ ground arith
  | inr (i, found) ↦ let below = position-lt-length c s i found in ground arith
]

small_pow : (i : ℕ) → i < 7 → 32 ^ i ≤ 32 ^ 6
small_pow zero h = omega arith
small_pow (suc zero) h = omega arith
small_pow (suc (suc zero)) h = omega arith
small_pow (suc (suc (suc zero))) h = omega arith
small_pow (suc (suc (suc (suc zero)))) h = omega arith
small_pow (suc (suc (suc (suc (suc zero))))) h = omega arith
small_pow (suc (suc (suc (suc (suc (suc zero)))))) h = omega arith
small_pow (suc (suc (suc (suc (suc (suc (suc i))))))) h = absurd (omega arith)

-- One round at one of the seven places: both checks come to one.
add_digit-eq :
    (p : Profile) (c d i num : ℕ)
    → position c alphabet ≡ some d
    → i < 7
    → add_digit p c i num ≡ returns (checked (num + d * 32 ^ i))
unfolding add_digit pow_u32
add_digit-eq p c d i num e h = ground (arith, position-lt-length c alphabet d e, small_pow i h)

add_digit_unknown :
    (p : Profile) (c i num : ℕ) → position c alphabet ≡ none → add_digit p c i num ≡ returns none
unfolding add_digit
add_digit_unknown p c i num e = rw (e, add_digit)

pub checked_fits : (n : ℕ) → n < u32_mod → checked n ≡ some n
checked_fits n h = rw (lt→ltb n u32_mod h)

pub checked_exceeds : (n : ℕ) → u32_mod ≤ n → checked n ≡ none
checked_exceeds n h = ground arith

pub checked_lt : (o : Option ℕ) (v : ℕ) → and_then o checked ≡ some v → v < u32_mod
checked_lt none v e = cc
checked_lt (some n) v e = ground arith

-- The value with one more digit at place `i`, in the two orders of adding.
place-add : (num d i v : ℕ) → num + (v * 32 + d) * 32 ^ i ≡ num + d * 32 ^ i + v * 32 ^ suc i
place-add num d i v = rw pow-suc (omega arith)

sum_exceeds :
    (num d i : ℕ) (rest : Option ℕ)
    → u32_mod ≤ num + d * 32 ^ i
    → and_then (and_then rest (λ v. some (v * 32 + d))) (λ v. checked (num + v * 32 ^ i)) ≡ none
sum_exceeds num d i none h = refl
sum_exceeds num d i (some v) h = checked_exceeds _ (omega (arith, place-add num d i v))

sum_shifts :
    (num d i : ℕ) (rest : Option ℕ)
    → and_then rest (λ v. checked (num + d * 32 ^ i + v * 32 ^ suc i))
      ≡ and_then (and_then rest (λ v. some (v * 32 + d))) (λ v. checked (num + v * 32 ^ i))
sum_shifts num d i none = refl
sum_shifts num d i (some v) = ap checked (sym (place-add num d i v))

no_value :
    (rest : Option ℕ) (f : ℕ → Option ℕ) → and_then (and_then {B = ℕ} rest (λ v. none)) f ≡ none
no_value none f = refl
no_value (some v) f = refl

scan-value :
    (p : Profile) (s : Bytes) (i num : ℕ)
    → i + length s ≤ 7
    → num < u32_mod
    → scan p s i num ≡ returns (and_then (value_lsd s) (λ v. checked (num + v * 32 ^ i)))
unfolding scan value_lsd
scan-value p [] i num h fits =
    let same : num + 0 * 32 ^ i ≡ num = omega arith in rw (same, checked_fits num fits)
scan-value p (c ∷ s) i num h fits = elim (Option-cases (position c alphabet)) [
  | inl e ↦ rw (add_digit_unknown p c i num e, e) (ap returns (sym (no_value (value_lsd s) _)))
  | inr (d, e) ↦ elim (dec_lt (num + d * 32 ^ i) u32_mod) [
    | yes below ↦
        rw (add_digit-eq p c d i num e (omega arith), checked_fits _ below, e)
          (scan-value p s (suc i) (num + d * 32 ^ i) (omega arith) below
            ∙ ap returns (sum_shifts num d i (value_lsd s)))
    | no above ↦
        rw
          (
            add_digit-eq p c d i num e (omega arith),
            checked_exceeds (num + d * 32 ^ i) (omega arith),
            e,
          )
          (ap returns (sym (sum_exceeds num d i (value_lsd s) (omega arith))))
  ]
]

at_place_zero : (o : Option ℕ) → and_then o (λ v. checked (0 + v * 32 ^ 0)) ≡ and_then o checked
at_place_zero none = refl
at_place_zero (some v) = ap checked (omega arith)

-- A text of at most seven characters, once trimmed, is read as its positional value in base 32; None
-- is returned exactly when a character is no digit or the value does not fit in a u32.
pub str_to_u32-value :
    (p : Profile) (s : Bytes)
    → length (normalize s) ≤ 7
    → str_to_u32 p s ≡ returns (and_then (value 0 (normalize s)) checked)
unfolding str_to_u32
str_to_u32-value p s h =
    scan-value p (reverse (normalize s)) 0 0 (omega (arith, length-reverse (normalize s)))
      (omega arith)
    ∙ ap returns (
        at_place_zero (value_lsd (reverse (normalize s)))
        ∙ ap (λ o. and_then o checked)
            (sym (value-reverse (reverse (normalize s)))
              ∙ ap (value 0) (reverse-reverse (normalize s))))
