-- ===== src/Base32/Case.antt =====
-- Upper and lower case in the codes of gday/src/base32.rs.
use mathlib.Core.List.{reverse, reverse-cons, map-append}
use gday_old.Base.{
  ℕ, ◌≡◌, refl, sym, ◌∙◌, ap, Bool, true, false, List, [], ◌∷◌, map, none, some, ◌==◌, arith,
  Bool-cases, inl, inr,
}
use gday_old.Base.Outcome.{Outcome, returns, exits, ◌>>=◌, Profile}
use gday_old.Base.Text.{Bytes, upper, lower, is_whitespace, trim_start, trim, split, split_step}
use gday_old.Base32.{normalize, str_to_u32, read_parts, from_string}

whitespace-upper : (c : ℕ) → is_whitespace (upper c) ≡ is_whitespace c
whitespace-upper c = ground arith

dot-upper : (c : ℕ) → (upper c == b'.') ≡ (c == b'.')
dot-upper c = ground arith

upper-upper : (c : ℕ) → upper (upper c) ≡ upper c
upper-upper c = ground arith

trim_start-upper : (s : Bytes) → trim_start (map upper s) ≡ map upper (trim_start s)
unfolding trim_start
trim_start-upper [] = refl
trim_start-upper (c ∷ s) = elim (Bool-cases (is_whitespace c)) [
  | inl e ↦ rw (trim_start, whitespace-upper c, e) (trim_start-upper s)
  | inr e ↦ rw (trim_start, whitespace-upper c, e) refl
]

upper-lower : (c : ℕ) → upper (lower c) ≡ upper c
upper-lower c = ground arith

upper_twice : (s : Bytes) → map upper (map upper s) ≡ map upper s
upper_twice [] = refl
upper_twice (c ∷ s) = rw (upper-upper c, upper_twice s)

reverse-upper : (s : Bytes) → reverse (map upper s) ≡ map upper (reverse s)
reverse-upper [] = refl
reverse-upper (c ∷ s) =
    rw (reverse-cons (upper c) (map upper s), reverse-upper s, reverse-cons c s)
      (sym (map-append upper (reverse s) (c ∷ [])))

trim-upper : (s : Bytes) → trim (map upper s) ≡ map upper (trim s)
unfolding trim
trim-upper s =
    rw (trim_start-upper s, reverse-upper (trim_start s), trim_start-upper (reverse (trim_start s)))
      (reverse-upper (trim_start (reverse (trim_start s))))

split-upper : (s : Bytes) → split b'.' (map upper s) ≡ map (map upper) (split b'.' s)
unfolding split
split-upper [] = refl
split-upper (c ∷ s) = rw (dot-upper c, split-upper s) (step-upper (c == b'.') (split b'.' s))
  where
    step-upper :
        (b : Bool) (parts : List Bytes)
        → split_step b (upper c) (map (map upper) parts) ≡ map (map upper) (split_step b c parts)
    step-upper true parts = refl
    step-upper false [] = refl
    step-upper false (p ∷ parts) = refl

str_to_u32-upper : (p : Profile) (s : Bytes) → str_to_u32 p (map upper s) ≡ str_to_u32 p s
unfolding str_to_u32 normalize
str_to_u32-upper p s = rw (trim-upper s, upper_twice (trim s))

read_parts-upper :
    (p : Profile) (parts : List Bytes) → read_parts p (map (map upper) parts) ≡ read_parts p parts
unfolding read_parts
read_parts-upper p [] = refl
read_parts-upper p (x ∷ xs) = rw (str_to_u32-upper p x) (
    ap
      (λ (rest : Outcome (List ℕ)).
        str_to_u32 p x
        >>= elim [ none ↦ exits 1 | some num ↦ rest >>= λ nums. returns (num ∷ nums) ])
      (read_parts-upper p xs))

-- A code is read as its upper case is, with the same numbers, exit or panic, in either profile.
pub from_string-upper : (p : Profile) (s : Bytes) → from_string p (map upper s) ≡ from_string p s
unfolding from_string
from_string-upper p s =
    rw (trim-upper s, split-upper (trim s)) (read_parts-upper p (split b'.' (trim s)))

from_lower : (s : Bytes) → map upper (map lower s) ≡ map upper s
from_lower [] = refl
from_lower (c ∷ s) = rw (upper-lower c, from_lower s)

pub from_string-lower : (p : Profile) (s : Bytes) → from_string p (map lower s) ≡ from_string p s
from_string-lower p s =
    sym (from_string-upper p (map lower s))
    ∙ ap (from_string p) (from_lower s)
    ∙ from_string-upper p s
