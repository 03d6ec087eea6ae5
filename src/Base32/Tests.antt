-- ===== src/Base32/Tests.antt =====
-- gday/src/base32.rs at concrete inputs.
use gday_old.Base.{map, ◌≡◌, ◌<◌, ◌≤◌, ◌^◌, length, refl, [], ◌∷◌, none, some, arith, All}
use gday_old.Base.Outcome.{returns, panics, exits, ◌>>=◌, debug, release, checked}
use gday_old.Base.Text.{Bytes, codes, trim, split, upper}
use gday_old.Base32.{
  str_to_u32, u32_to_str, to_string, from_string, normalize, scan, add_digit, position, read_parts,
}
use gday_old.Base32.Digits.{digit, digit-IsDigit}
use gday_old.Base32.RoundTrip.Shortest.{u32_to_str-shortest}
use gday_old.Base32.RoundTrip.{IsPlain, str_to_u32-u32_to_str}
use gday_old.Base32.Codes.{from_string-to_string}
use gday_old.Base32.Case.{from_string-upper}
use gday_old.Base32.Value.{value, and_then, str_to_u32-value}
use gday_old.Base32.Overlong.{str_to_u32_overlong}

-- Lower case, spaces and the letters I and L are accepted; U is no digit.
lenient : str_to_u32 debug (codes " il ") ≡ returns (some 33)
unfolding str_to_u32 normalize trim scan add_digit position
lenient = refl

unknown_letter : str_to_u32 debug (codes "1U") ≡ returns none
unfolding str_to_u32 normalize trim scan add_digit position
unknown_letter = refl

-- A code with an unknown letter ends the program.
invalid_code : from_string debug (codes "1.U") ≡ exits 1
unfolding from_string read_parts str_to_u32 normalize trim scan add_digit position split
invalid_code = refl

-- An empty part is read as 0.
empty_part : from_string debug (codes "") ≡ returns (0 ∷ [])
unfolding from_string read_parts str_to_u32 normalize trim scan add_digit position split
empty_part = refl

str_to_u32-u32_to_str_example : (u32_to_str 1000 >>= str_to_u32 debug) ≡ returns (some 1000)
str_to_u32-u32_to_str_example = str_to_u32-u32_to_str debug 1000 (omega arith)

u32_to_str-shortest_example :
    (t : Bytes) × (u32_to_str 1_048_575 ≡ returns t) × (1_048_575 < 32 ^ length t) × (length t ≤ 4)
u32_to_str-shortest_example =
    u32_to_str-shortest 1_048_575 4 (omega arith) (omega arith) (omega arith)

from_string-to_string_example :
    (to_string (0 ∷ 1_048_575 ∷ 77 ∷ []) >>= from_string release)
    ≡ returns (0 ∷ 1_048_575 ∷ 77 ∷ [])
from_string-to_string_example =
    from_string-to_string release (0 ∷ 1_048_575 ∷ 77 ∷ []) (cc) (omega arith)

str_to_u32-value_example :
    str_to_u32 debug (codes "zz") ≡ returns (and_then (value 0 (normalize (codes "zz"))) checked)
unfolding normalize trim
str_to_u32-value_example = str_to_u32-value debug (codes "zz") (omega arith)

one-IsPlain : All IsPlain (codes "1")
unfolding digit
one-IsPlain = ((1, digit-IsDigit 1 (omega arith), omega arith), tt)

seven-IsPlain : All IsPlain (codes "0000001")
unfolding digit
seven-IsPlain =
    let zero_plain : IsPlain b'0' = (0, digit-IsDigit 0 (omega arith), omega arith) in
    (zero_plain, (zero_plain, (zero_plain, (zero_plain, (zero_plain, (zero_plain, one-IsPlain))))))

seven_read : str_to_u32 release (codes "0000001") ≡ returns (some 1)
unfolding str_to_u32 normalize trim scan add_digit position
seven_read = refl

str_to_u32_overlong_example :
    (str_to_u32 release (codes "10000001") ≡ returns (some 1))
    × (str_to_u32 debug (codes "10000001") ≡ panics)
str_to_u32_overlong_example =
    str_to_u32_overlong (codes "1") (codes "0000001") 1 one-IsPlain seven-IsPlain (cc) refl
      (omega arith) seven_read

from_string-upper_example :
    from_string debug (map upper (codes "0.2d.5")) ≡ from_string debug (codes "0.2d.5")
from_string-upper_example = from_string-upper debug (codes "0.2d.5")
