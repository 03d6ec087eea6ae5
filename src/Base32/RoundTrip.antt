-- ===== src/Base32/RoundTrip.antt =====
-- Printing and reading back, for gday/src/base32.rs.
pub mod Shortest
use mathlib.Core.Logic.{dite, dif_pos, dif_neg}
use mathlib.Core.WellFounded.{Acc}
use mathlib.Core.List.{reverse, reverse-reverse}
use native.Mathlib.Bridge.{le_prop}
use native.Mathlib.Decide.{dec_lt}
use native.Mathlib.Nat.{pow-suc}
use gday_old.Base.{
  ℕ, zero, suc, ◌+◌, ◌/◌, ◌%◌, ◌*◌, ◌^◌, ◌<◌, ◌≡◌, ◌≢◌, refl, [], ◌∷◌, ◌++◌, map, some, arith, All,
  append_assoc, append-nil, sym, ap, ◌∙◌,
}
use gday_old.Base.Outcome.{returns, ◌>>=◌, Profile, u32_mod, pow_u32}
use gday_old.Base.Order.{lt_wf}
use gday_old.Base.Text.{Bytes, trim, trim-eq, IsSolid, All-reverse, upper}
use gday_old.Base32.{
  position, unambiguous, push_digits, normalize, add_digit, scan, str_to_u32, or_zero, u32_to_str,
}
use gday_old.Base32.Digits.{digit, IsDigit, digit-IsDigit, alphabet_at-digit}

-- The digits of a number, least first.
pub lsd : (n : ℕ) → Acc ◌<◌ n → Bytes
lsd n (Acc.intro _ smaller) =
    dite (dec_lt 0 n) (λ h. digit (n % 32) ∷ lsd (n / 32) (smaller (n / 32) (omega arith)))
      (λ _. [])

pub push_digits-lsd :
    (n : ℕ) (w : Acc ◌<◌ n) (s : Bytes) → push_digits n w s ≡ returns (s ++ lsd n w)
unfolding push_digits lsd
push_digits-lsd n (Acc.intro _ smaller) s = elim (dec_lt 0 n) [
  | yes h ↦
      rw
        (
          dif_pos (dec_lt 0 n) le_prop h,
          dif_pos (dec_lt 0 n) le_prop h,
          alphabet_at-digit (n % 32) (omega arith),
        )
        (push_digits-lsd (n / 32) (smaller (n / 32) (omega arith)) (s ++ digit (n % 32) ∷ [])
          ∙ ap returns (append_assoc s _ _))
  | no h ↦ rw (dif_neg _ h, dif_neg _ h, append-nil)
]

pub lt-pow : (i : ℕ) → i < 32 ^ i
lt-pow zero = omega arith
lt-pow (suc i) = omega (arith, lt-pow i, pow-suc 32 i)

-- One round at a digit, where place value and sum fit.
pub add_digit-fits :
    (p : Profile) (c d i num : ℕ)
    → IsDigit c d
    → d < 32
    → 32 ^ i < u32_mod
    → num + d * 32 ^ i < u32_mod
    → add_digit p c i num ≡ returns (some (num + d * 32 ^ i))
unfolding add_digit pow_u32
add_digit-fits p c d i num is_d small place fits = ground (arith, is_d.found, lt-pow i, place, fits)

-- A base 32 digit in front: the value is that of the digit and of the rest, one place further.
place_split : (n i : ℕ) → n * 32 ^ i ≡ n % 32 * 32 ^ i + n / 32 * 32 ^ suc i
place_split n i =
    let split : n ≡ n / 32 * 32 + n % 32 = omega arith in
    rw pow-suc (omega (arith, ap (λ (t : ℕ). t * 32 ^ i) split))

place_fits : (n i num : ℕ) → 0 < n → num + n * 32 ^ i < u32_mod → 32 ^ i < u32_mod
place_fits n i num h fits = grind arith

scan-lsd :
    (p : Profile) (n : ℕ) (w : Acc ◌<◌ n) (i num : ℕ)
    → num + n * 32 ^ i < u32_mod
    → scan p (lsd n w) i num ≡ returns (some (num + n * 32 ^ i))
unfolding scan lsd
scan-lsd p n (Acc.intro _ smaller) i num fits = elim (dec_lt 0 n) [
  | yes h ↦
      rw
        (
          dif_pos (dec_lt 0 n) le_prop h,
          add_digit-fits p (digit (n % 32)) (n % 32) i num (digit-IsDigit _ (omega arith))
              (omega arith) (place_fits n i num h fits) (omega (arith, place_split n i)),
        )
        (scan-lsd p (n / 32) (smaller (n / 32) (omega arith)) (suc i) (num + n % 32 * 32 ^ i)
            (omega (arith, place_split n i))
          ∙ ap (λ t. returns (some t)) (omega (arith, place_split n i)))
  | no h ↦
      let e : n ≡ 0 = omega arith in
      rw (dif_neg (dec_lt 0 n) h, e) (ap (λ t. returns (some t)) (omega arith))
]

-- Texts of digits only.
abbrev pub IsPlain : ℕ → Type 0
IsPlain c = (d : ℕ) × IsDigit c d × (d < 32)

lsd-IsPlain : (n : ℕ) (w : Acc ◌<◌ n) → All IsPlain (lsd n w)
unfolding lsd
lsd-IsPlain n (Acc.intro _ smaller) = elim (dec_lt 0 n) [
  | yes h ↦ rw (dif_pos (dec_lt 0 n) le_prop h) (
    (n % 32, digit-IsDigit (n % 32) (omega arith), omega arith),
    lsd-IsPlain (n / 32) (smaller (n / 32) (omega arith)),
  )
  | no h ↦ rw (dif_neg (dec_lt 0 n) h) tt
]

pub plain-IsSolid : (s : Bytes) → All IsPlain s → All IsSolid s
plain-IsSolid [] h = tt
plain-IsSolid (c ∷ s) ((d, is_d, _), hs) = (is_d.solid, plain-IsSolid s hs)

plain_map-upper : (s : Bytes) → All IsPlain s → map unambiguous (map upper s) ≡ s
plain_map-upper [] h = refl
plain_map-upper (c ∷ s) ((d, is_d, _), hs) = rw (is_d.upper_eq, is_d.clear, plain_map-upper s hs)

pub normalize-eq : (s : Bytes) → All IsPlain s → normalize s ≡ s
unfolding normalize
normalize-eq s h = rw (trim-eq s (plain-IsSolid s h)) (plain_map-upper s h)

pub lsd_positive : (n : ℕ) (w : Acc ◌<◌ n) → 0 < n → lsd n w ≢ []
unfolding lsd
lsd_positive n (Acc.intro _ smaller) h = rw (dif_pos (dec_lt 0 n) le_prop h) (cc)

pub or_zero-cons : (s : Bytes) → s ≢ [] → or_zero s ≡ s
or_zero-cons [] h = absurd (h refl)
or_zero-cons (c ∷ s) h = refl

pub reverse-ne-nil : (s : Bytes) → s ≢ [] → reverse s ≢ []
reverse-ne-nil s h e = h (sym (reverse-reverse s) ∙ ap reverse e)

-- What the code prints for a number: digits only, and `str_to_u32` reads the number from them.
pub record Prints (num : ℕ) (t : Bytes) : Type 0 where
  pub printed : u32_to_str num ≡ returns t
  pub plain : All IsPlain t
  pub shown : t ≢ []
  pub read : (p : Profile) → str_to_u32 p t ≡ returns (some num)

zero_text : Prints 0 (b'0' ∷ [])
unfolding u32_to_str push_digits lt_wf dec_lt digit str_to_u32 normalize trim scan add_digit
    position
zero_text = record {
  printed = refl;
  plain = ((0, digit-IsDigit 0 (omega arith), omega arith), tt);
  shown = cc;
  read = λ p. refl;
}

positive_text :
    (num : ℕ) → 0 < num → num < u32_mod → Prints num (reverse (lsd num (lt_wf.apply num)))
unfolding u32_to_str str_to_u32
positive_text num h fits =
    let w = lt_wf.apply num in
    let plain = All-reverse IsPlain (lsd num w) (lsd-IsPlain num w) in
    let shown = reverse-ne-nil (lsd num w) (lsd_positive num w h) in
    record {
      printed = rw (push_digits-lsd num w []) (ap returns (or_zero-cons _ shown));
      plain = plain;
      shown = shown;
      read = λ p.
          rw (normalize-eq _ plain, reverse-reverse (lsd num w))
            (scan-lsd p num w 0 0 (omega arith) ∙ ap (λ t. returns (some t)) (omega arith));
    }

-- The text of a number.
pub text : ℕ → Bytes
text zero = b'0' ∷ []
text (suc n) = reverse (lsd (suc n) (lt_wf.apply (suc n)))

pub text-Prints : (num : ℕ) → num < u32_mod → Prints num (text num)
unfolding text
text-Prints zero fits = zero_text
text-Prints (suc n) fits = positive_text (suc n) (omega arith) fits

-- Every u32 is printed, in either profile, and read back from its print.
pub str_to_u32-u32_to_str :
    (p : Profile) (num : ℕ) → num < u32_mod → (u32_to_str num >>= str_to_u32 p) ≡ returns (some num)
str_to_u32-u32_to_str p num fits =
    let prints = text-Prints num fits in rw prints.printed (prints.read p)
