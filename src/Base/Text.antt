-- ===== src/Base/Text.antt =====
-- The part of Rust's `str` that the program uses, over ASCII texts as lists of bytes.
use Prim.Native.Nat.{ℕ, ◌+◌, ◌-◌}
use Prim.Native.Char.{code}
use Prim.Native.String.{String}
use mathlib.Core.Path.{◌≡◌, refl}
use mathlib.Core.Bool.{Bool, true, false, ◌&&◌, ◌||◌}
use mathlib.Core.List.{List, [], ◌∷◌, ◌++◌, reverse, reverse-cons, reverse-reverse}
use native.Mathlib.Omega.{arith}
use gday_old.Base.Tests.{==_refl, ==_iff, leb, ◌==◌, if◌then◌else◌}
use gday_old.Base.Lists.{All, All-append}

abbrev pub Bytes : Type 0
Bytes = List ℕ

abbrev pub is_empty : Bytes → Bool
is_empty [] = true
is_empty (c ∷ s) = false

-- `==` on texts.
abbrev pub same_text : Bytes → Bytes → Bool
same_text [] [] = true
same_text [] (c ∷ t) = false
same_text (c ∷ s) [] = false
same_text (c ∷ s) (d ∷ t) = (c == d) && same_text s t

abbrev pub codes : String → Bytes
codes String.[] = []
codes (String.◌∷◌ c s) = code c ∷ codes s

-- `char::is_whitespace` on ASCII: tab to carriage return, and the space.
abbrev pub is_whitespace : ℕ → Bool
is_whitespace c = (leb 9 c && leb c 13) || c == 32

-- `char::to_ascii_uppercase`, to which `to_uppercase` comes on ASCII.
abbrev pub upper : ℕ → ℕ
upper c = if leb b'a' c && leb c b'z' then c - 32 else c

-- `char::to_ascii_lowercase`, likewise.
abbrev pub lower : ℕ → ℕ
lower c = if leb b'A' c && leb c b'Z' then c + 32 else c

unfoldable pub trim_start : Bytes → Bytes
trim_start [] = []
trim_start (c ∷ s) = elim (is_whitespace c) [ true ↦ trim_start s | false ↦ c ∷ s ]

-- `str::trim`.
unfoldable pub trim : Bytes → Bytes
unfolding trim_start
trim s = reverse (trim_start (reverse (trim_start s)))

-- One round of `split`, which opens a part at each separator.
abbrev pub split_step : Bool → ℕ → List Bytes → List Bytes
split_step true c parts = [] ∷ parts
split_step false c [] = []
split_step false c (p ∷ parts) = (c ∷ p) ∷ parts

-- `str::split` by a character: one part more than there are separators.
unfoldable pub split : ℕ → Bytes → List Bytes
split sep [] = [] ∷ []
split sep (c ∷ s) = split_step (c == sep) c (split sep s)

abbrev pub IsSolid : ℕ → Type 0
IsSolid c = is_whitespace c ≡ false

trim_start-eq : (s : Bytes) → All IsSolid s → trim_start s ≡ s
unfolding trim_start
trim_start-eq [] h = refl
trim_start-eq (c ∷ s) h = ground arith

pub All-reverse {κ} : (P : ℕ → Type κ) (s : Bytes) → All P s → All P (reverse s)
All-reverse P [] h = tt
All-reverse P (c ∷ s) (hc, hs) =
    rw (reverse-cons c s) (All-append P (reverse s) (c ∷ []) (All-reverse P s hs) (hc, tt))

-- A text with no whitespace is trimmed to itself.
pub trim-eq : (s : Bytes) → All IsSolid s → trim s ≡ s
unfolding trim
trim-eq s h =
    rw (trim_start-eq s h, trim_start-eq (reverse s) (All-reverse IsSolid s h)) (reverse-reverse s)

-- A part that lacks the separator is split off whole.
pub split-append :
    (sep : ℕ) (p rest : Bytes)
    → All (λ c. (c == sep) ≡ false) p
    → split sep (p ++ sep ∷ rest) ≡ p ∷ split sep rest
unfolding split
split-append sep [] rest h = ground arith
split-append sep (c ∷ p) rest (hc, hp) = rw (split-append sep p rest hp, hc) refl

pub split-eq : (sep : ℕ) (p : Bytes) → All (λ c. (c == sep) ≡ false) p → split sep p ≡ p ∷ []
unfolding split
split-eq sep [] h = refl
split-eq sep (c ∷ p) (hc, hp) = rw (split-eq sep p hp, hc) refl

pub same_text_refl : (s : Bytes) → same_text s s ≡ true
same_text_refl [] = refl
same_text_refl (c ∷ s) = rw (==_refl c) (same_text_refl s)

pub same_text→eq : (s t : Bytes) → same_text s t ≡ true → s ≡ t
same_text→eq [] [] h = refl
same_text→eq [] (c ∷ t) h = cc
same_text→eq (c ∷ s) [] h = cc
same_text→eq (c ∷ s) (d ∷ t) h =
    let first : c ≡ d = (==_iff c d).0 (ground arith) in
    let rest = same_text→eq s t (ground arith) in cc
