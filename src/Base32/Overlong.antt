-- ===== src/Base32/Overlong.antt =====
-- Texts of more than seven digits in `str_to_u32` of gday/src/base32.rs: `32_u32.pow(i)` overflows.
use mathlib.Core.List.{reverse, reverse-append}
use native.Mathlib.Nat.{pow-suc}
use gday_old.Base.{
  ℕ, zero, suc, ◌+◌, ◌*◌, ◌%◌, ◌^◌, ◌≤◌, ◌<◌, ◌≡◌, ◌≢◌, refl, [], ◌∷◌, ◌++◌, Option, none, some,
  arith, All, sym, ap, ◌∙◌, All-append, length, length-reverse,
}
use gday_old.Base.Outcome.{
  Outcome, returns, exits, panics, ◌>>=◌, Profile, debug, release, u32_mod, pow_u32,
}
use gday_old.Base.Text.{Bytes, All-reverse}
use gday_old.Base32.{normalize, add_digit, scan, str_to_u32}
use gday_old.Base32.Digits.{IsDigit}
use gday_old.Base32.RoundTrip.{IsPlain, lt-pow, normalize-eq, reverse-ne-nil}
use gday_old.Base32.Value.{value, str_to_u32-value, checked_lt}

pow_seven : (k : ℕ) → 32 ^ suc (suc (suc (suc (suc (suc (suc k)))))) ≡ 34_359_738_368 * 32 ^ k
pow_seven k = simp pow-suc (omega arith)

large_pow : (i : ℕ) → 7 ≤ i → (u32_mod ≤ 32 ^ i) × (32 ^ i % u32_mod ≡ 0)
large_pow zero h = absurd (omega arith)
large_pow (suc zero) h = absurd (omega arith)
large_pow (suc (suc zero)) h = absurd (omega arith)
large_pow (suc (suc (suc zero))) h = absurd (omega arith)
large_pow (suc (suc (suc (suc zero)))) h = absurd (omega arith)
large_pow (suc (suc (suc (suc (suc zero))))) h = absurd (omega arith)
large_pow (suc (suc (suc (suc (suc (suc zero)))))) h = absurd (omega arith)
large_pow (suc (suc (suc (suc (suc (suc (suc k))))))) h =
    let e = pow_seven k in (omega (arith, e, lt-pow k), rw e (omega arith))

module _ (c d i num : ℕ) (is_d : IsDigit c d) (small : d < 32) (far : 7 ≤ i) (fits : num < u32_mod)
    (counted : i < u32_mod) where
  add_digit_far : add_digit release c i num ≡ returns (some num)
  unfolding add_digit pow_u32
  add_digit_far =
      let (large, zero_place) = large_pow i far in ground (arith, is_d.found, large, zero_place)

  add_digit_far_debug : add_digit debug c i num ≡ panics
  unfolding add_digit pow_u32
  add_digit_far_debug = let (large, _) = large_pow i far in ground (arith, is_d.found, large)

-- In a release build the places from the eighth on add nothing.
scan_far :
    (s : Bytes) (i num : ℕ)
    → All IsPlain s
    → 7 ≤ i
    → num < u32_mod
    → i + length s ≤ u32_mod
    → scan release s i num ≡ returns (some num)
unfolding scan
scan_far [] i num h far fits counted = refl
scan_far (c ∷ s) i num ((d, is_d, small), hs) far fits counted =
    rw (add_digit_far c d i num is_d small far fits (omega arith))
      (scan_far s (suc i) num hs (omega arith) fits (omega arith))

scan_far_debug :
    (s : Bytes) (i num : ℕ)
    → All IsPlain s
    → s ≢ []
    → 7 ≤ i
    → num < u32_mod
    → i + length s ≤ u32_mod
    → scan debug s i num ≡ panics
unfolding scan
scan_far_debug [] i num h some_left far fits counted = absurd (some_left refl)
scan_far_debug (c ∷ s) i num ((d, is_d, small), hs) some_left far fits counted =
    rw (add_digit_far_debug c d i num is_d small far fits (omega arith))

-- What a round hands to the rest of the loop.
continue_with : (ℕ → Outcome (Option ℕ)) → Option ℕ → Outcome (Option ℕ)
continue_with k none = returns none
continue_with k (some num) = k num

scan-cons :
    (p : Profile) (c : ℕ) (s : Bytes) (i num : ℕ)
    → scan p (c ∷ s) i num ≡ (add_digit p c i num >>= continue_with (scan p s (suc i)))
unfolding scan continue_with
scan-cons p c s i num = bind_ext (add_digit p c i num)
  where
    bind_ext :
        (o : Outcome (Option ℕ))
        → (o >>= elim [ none ↦ returns none | some new_num ↦ scan p s (suc i) new_num ])
          ≡ (o >>= continue_with (scan p s (suc i)))
    bind_ext (returns none) = refl
    bind_ext (returns (some n)) = refl
    bind_ext (exits n) = refl
    bind_ext panics = refl

continue_change :
    (o : Outcome (Option ℕ)) (f g : ℕ → Outcome (Option ℕ)) (v : ℕ) (r : Outcome (Option ℕ))
    → ((n : ℕ) → f n ≡ returns (some v) → g n ≡ r)
    → (o >>= continue_with f) ≡ returns (some v)
    → (o >>= continue_with g) ≡ r
unfolding continue_with
continue_change (returns none) f g v r same e = cc
continue_change (returns (some n)) f g v r same e = same n e
continue_change (exits n) f g v r same e = cc
continue_change panics f g v r same e = cc

scan-append :
    (p : Profile) (s t : Bytes) (i num v : ℕ)
    → scan p s i num ≡ returns (some v)
    → scan p (s ++ t) i num ≡ scan p t (i + length s) v
scan-append p [] t i num v e =
    unfold scan in
    let same : i + 0 ≡ i = omega arith in let at_v : num ≡ v = cc e in rw (same, at_v)
scan-append p (c ∷ s) t i num v e =
    scan-cons p c (s ++ t) i num
    ∙ continue_change (add_digit p c i num) (scan p s (suc i)) (scan p (s ++ t) (suc i)) v
        (scan p t (i + suc (length s)) v)
        (λ n h. scan-append p s t (suc i) n v h ∙ ap (λ j. scan p t j v) (omega arith))
        (sym (scan-cons p c s i num) ∙ e)

read_plain : (p : Profile) (s : Bytes) → All IsPlain s → str_to_u32 p s ≡ scan p (reverse s) 0 0
unfolding str_to_u32
read_plain p s h = rw (normalize-eq s h)

-- Seven digits of the alphabet that a release build reads as `v`, with more digits in front, together
-- at most 2^32. A release build still reads `v`, without the digits in front, and a debug build
-- panics; the function returns None in neither.
pub str_to_u32_overlong :
    (extra s : Bytes) (v : ℕ)
    → All IsPlain extra
    → All IsPlain s
    → extra ≢ []
    → length s ≡ 7
    → length extra + 7 ≤ u32_mod
    → str_to_u32 release s ≡ returns (some v)
    → (str_to_u32 release (extra ++ s) ≡ returns (some v))
      × (str_to_u32 debug (extra ++ s) ≡ panics)
str_to_u32_overlong extra s v he hs more seven short e =
    let length_eq = length-reverse s in
    let seven_left : length (normalize s) ≤ 7 = rw (normalize-eq s hs) (omega arith) in
    let found = ap_returns (sym (str_to_u32-value release s seven_left) ∙ e) in
    let fits = checked_lt (value 0 (normalize s)) v found in
    let plain = All-reverse IsPlain extra he in
    let counted = length-reverse extra in
    (
      split_scan release
          ∙ scan_far (reverse extra) (0 + length (reverse s)) v plain (omega arith) fits
              (omega arith),
      split_scan debug
          ∙ scan_far_debug (reverse extra) (0 + length (reverse s)) v plain
              (reverse-ne-nil extra more) (omega arith) fits (omega arith),
    )
  where
    ap_returns : {o : Option ℕ} → returns o ≡ returns (some v) → o ≡ some v
    ap_returns h = cc

    same_value : (p : Profile) → str_to_u32 p s ≡ returns (some v)
    same_value p =
        let seven_left : length (normalize s) ≤ 7 = rw (normalize-eq s hs) (omega arith) in
        str_to_u32-value p s seven_left ∙ sym (str_to_u32-value release s seven_left) ∙ e

    split_scan :
        (p : Profile)
        → str_to_u32 p (extra ++ s) ≡ scan p (reverse extra) (0 + length (reverse s)) v
    split_scan p =
        read_plain p (extra ++ s) (All-append IsPlain extra s he hs)
        ∙ ap (λ t. scan p t 0 0) (reverse-append extra s)
        ∙ scan-append p (reverse s) (reverse extra) 0 0 v (sym (read_plain p s hs) ∙ same_value p)
