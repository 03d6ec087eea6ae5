-- ===== src/Base32.antt =====
-- gday/src/base32.rs: room codes in base 32. Texts are ASCII, as lists of bytes; `print` output of
-- `from_string` before it exits is left out.
mod Digits
pub mod RoundTrip
pub mod Codes
pub mod Value
pub mod Overlong
pub mod Case
mod Tests
use mathlib.Core.List.{reverse}
use mathlib.Core.Bool.{true, false, ◌||◌}
use mathlib.Core.Logic.{dite}
use mathlib.Core.WellFounded.{Acc}
use native.Mathlib.Decide.{dec_lt}
use gday_old.Base.{
  ℕ, suc, ◌/◌, ◌%◌, ◌<◌, List, [], ◌∷◌, ◌++◌, map, Option, none, some, ◌==◌, if◌then◌else◌,
  get_elem?, arith,
}
use gday_old.Base.Outcome.{
  Outcome, returns, exits, panics, ◌>>=◌, Profile, u32_try_from, checked_mul, checked_add, pow_u32,
}
use gday_old.Base.Order.{lt_wf}
use gday_old.Base.Text.{Bytes, codes, trim, upper, split}

abbrev pub alphabet : Bytes
alphabet = codes "0123456789ABCDEFGHJKMNPQRSTVWXYZ"

-- `iter().position(|c| c == char)`.
unfoldable pub position : ℕ → Bytes → Option ℕ
position c [] = none
position c (a ∷ s) = elim (a == c) [
  | true ↦ some 0
  | false ↦ elim (position c s) [ none ↦ none | some i ↦ some (suc i) ]
]

-- The closure that `replace` is given, with its text: I and L are read as 1.
abbrev pub unambiguous : ℕ → ℕ
unambiguous c = if (c == b'I') || (c == b'L') then b'1' else c

unfoldable pub normalize : Bytes → Bytes
normalize s = map unambiguous (map upper (trim s))

-- One round of the loop of `str_to_u32`: the new `num`, or `none` where the function returns None.
unfoldable pub add_digit : Profile → ℕ → ℕ → ℕ → Outcome (Option ℕ)
unfolding pow_u32
add_digit p c i num = elim (position c alphabet) [
  | none ↦ returns none
  | some position ↦ elim (u32_try_from position) [
    | none ↦ returns none
    | some digit ↦ elim (u32_try_from i) [
      | none ↦ returns none
      | some i ↦ do
        place_value ← pow_u32 p 32 i
        elim (checked_mul digit place_value) [
          | none ↦ returns none
          | some addend ↦ returns (checked_add num addend)
        ]
    ]
  ]
]

-- The loop over the reversed bytes; `i` is the count of `enumerate`.
unfoldable pub scan : Profile → Bytes → ℕ → ℕ → Outcome (Option ℕ)
scan p [] i num = returns (some num)
scan p (c ∷ s) i num =
    add_digit p c i num >>= elim [ none ↦ returns none | some new_num ↦ scan p s (suc i) new_num ]

unfoldable pub str_to_u32 : Profile → Bytes → Outcome (Option ℕ)
str_to_u32 p s = scan p (reverse (normalize s)) 0 0

-- `ALPHABET[i]`, which panics out of range.
unfoldable pub alphabet_at : ℕ → Outcome ℕ
alphabet_at i = elim (get_elem? alphabet i) [ none ↦ panics | some c ↦ returns c ]

-- The loop of `u32_to_str`; `s` is the vector, least digit first.
unfoldable pub push_digits : (num : ℕ) → Acc ◌<◌ num → Bytes → Outcome Bytes
push_digits num (Acc.intro _ smaller) s =
    dite (dec_lt 0 num)
      (λ h. alphabet_at (num % 32) >>= λ c.
        push_digits (num / 32) (smaller (num / 32) (omega arith)) (s ++ c ∷ []))
      (λ _. returns s)

-- `if s.is_empty() { s.push(b'0') }`.
abbrev pub or_zero : Bytes → Bytes
or_zero [] = b'0' ∷ []
or_zero (c ∷ s) = c ∷ s

unfoldable pub u32_to_str : ℕ → Outcome Bytes
u32_to_str num = push_digits num (lt_wf.apply num) [] >>= λ s. returns (or_zero (reverse s))

-- `if !s.is_empty() { s.push('.') }`.
abbrev pub dotted : Bytes → Bytes
dotted [] = []
dotted (c ∷ s) = (c ∷ s) ++ b'.' ∷ []

unfoldable pub push_vals : List ℕ → Bytes → Outcome Bytes
push_vals [] s = returns s
push_vals (val ∷ vals) s = u32_to_str val >>= λ t. push_vals vals (dotted s ++ t)

unfoldable pub to_string : List ℕ → Outcome Bytes
to_string vals = push_vals vals []

-- The closure of `from_string`, on every part in turn.
unfoldable pub read_parts : Profile → List Bytes → Outcome (List ℕ)
read_parts p [] = returns []
read_parts p (x ∷ xs) =
    str_to_u32 p x
    >>= elim [ none ↦ exits 1 | some num ↦ read_parts p xs >>= λ nums. returns (num ∷ nums) ]

unfoldable pub from_string : Profile → Bytes → Outcome (List ℕ)
from_string p s = read_parts p (split b'.' (trim s))
