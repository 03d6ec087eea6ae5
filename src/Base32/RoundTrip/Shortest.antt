-- ===== src/Base32/RoundTrip/Shortest.antt =====
-- How long a text `u32_to_str` of gday/src/base32.rs prints.
use mathlib.Core.Logic.{dif_pos, dif_neg}
use mathlib.Core.WellFounded.{Acc}
use native.Mathlib.Bridge.{le_prop}
use native.Mathlib.Decide.{dec_lt}
use native.Mathlib.Nat.{pow-suc}
use gday_old.Base.{ℕ, zero, suc, ◌/◌, ◌^◌, ◌<◌, ◌≤◌, ◌≡◌, arith, length, length-reverse}
use gday_old.Base.Outcome.{returns, u32_mod}
use gday_old.Base.Order.{lt_wf}
use gday_old.Base.Text.{Bytes}
use gday_old.Base32.{u32_to_str}
use gday_old.Base32.RoundTrip.{lsd, text, text-Prints}

lsd_enough : (n : ℕ) (w : Acc ◌<◌ n) → n < 32 ^ length (lsd n w)
unfolding lsd
lsd_enough n (Acc.intro _ smaller) = elim (dec_lt 0 n) [
  | yes h ↦
      rw (dif_pos (dec_lt 0 n) le_prop h, pow-suc)
        (omega (arith, lsd_enough (n / 32) (smaller (n / 32) (omega arith))))
  | no h ↦ rw (dif_neg (dec_lt 0 n) h) (omega arith)
]

one_more : (n l k : ℕ) → 0 < n → ((j : ℕ) → n / 32 < 32 ^ j → l ≤ j) → n < 32 ^ k → suc l ≤ k
one_more n l zero h rest fits = omega arith
one_more n l (suc k) h rest fits = omega (arith, rest k (omega (arith, pow-suc 32 k)))

lsd_least : (n : ℕ) (w : Acc ◌<◌ n) (k : ℕ) → n < 32 ^ k → length (lsd n w) ≤ k
unfolding lsd
lsd_least n (Acc.intro _ smaller) = elim (dec_lt 0 n) [
  | yes h ↦
      let rest = lsd_least (n / 32) (smaller (n / 32) (omega arith)) in
      rw (dif_pos (dec_lt 0 n) le_prop h) (λ k fits. one_more n _ k h rest fits)
  | no h ↦ rw (dif_neg (dec_lt 0 n) h) (λ k fits. omega arith)
]

text_enough : (num : ℕ) → num < 32 ^ length (text num)
unfolding text
text_enough zero = omega arith
text_enough (suc n) = rw length-reverse (lsd_enough (suc n) (lt_wf.apply (suc n)))

text_least : (num k : ℕ) → 0 < k → num < 32 ^ k → length (text num) ≤ k
unfolding text
text_least zero k h fits = h
text_least (suc n) k h fits = rw length-reverse (lsd_least (suc n) (lt_wf.apply (suc n)) k fits)

-- A u32 that fits in k base 32 digits, at least one, is printed with k digits or fewer, and the
-- digits that are printed are enough for it.
pub u32_to_str-shortest :
    (num k : ℕ)
    → num < u32_mod
    → 0 < k
    → num < 32 ^ k
    → (t : Bytes) × (u32_to_str num ≡ returns t) × (num < 32 ^ length t) × (length t ≤ k)
u32_to_str-shortest num k fits some_digit small =
    (text num, (text-Prints num fits).printed, text_enough num, text_least num k some_digit small)
