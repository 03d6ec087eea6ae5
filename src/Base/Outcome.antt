-- ===== src/Base/Outcome.antt =====
-- How a Rust computation ends: with a value, by `std::process::exit`, or by a panic; and the
-- arithmetic of u32 under the two build profiles.
use Prim.Native.Nat.{ℕ, ◌+◌, ◌*◌, ◌%◌, ◌^◌}
use mathlib.Core.Option.{Option, none, some}
use gday_old.Base.Tests.{ltb, if◌then◌else◌}

pub data Outcome {ℓ} (A : Type ℓ) : Type ℓ where
  returns : A → Outcome A
  exits : ℕ → Outcome A
  panics : Outcome A

infixl 5 ◌>>=◌
abbrev pub ◌>>=◌ {ℓ κ} : {A : Type ℓ} {B : Type κ} → Outcome A → (A → Outcome B) → Outcome B
returns a >>= f = f a
exits n >>= f = exits n
panics >>= f = panics

-- Whether integer overflow panics (debug) or wraps (release).
pub data Profile : Type 0 where
  debug release : Profile

abbrev pub u32_mod : ℕ
u32_mod = 2 ^ 32

-- `u32::try_from` of an unsigned number.
abbrev pub u32_try_from : ℕ → Option ℕ
u32_try_from n = if ltb n u32_mod then some n else none

abbrev pub checked : ℕ → Option ℕ
checked n = if ltb n u32_mod then some n else none

-- `u32::checked_mul` and `u32::checked_add`.
abbrev pub checked_mul : ℕ → ℕ → Option ℕ
checked_mul a b = checked (a * b)

abbrev pub checked_add : ℕ → ℕ → Option ℕ
checked_add a b = checked (a + b)

abbrev pub overflowing : Profile → ℕ → Outcome ℕ
overflowing debug n = panics
overflowing release n = returns (n % u32_mod)

abbrev pub overflowing_u64 : Profile → ℕ → Outcome ℕ
overflowing_u64 debug n = panics
overflowing_u64 release n = returns (n % 2 ^ 64)

-- `u32::pow`.
unfoldable pub pow_u32 : Profile → ℕ → ℕ → Outcome ℕ
pow_u32 p b e = let v = b ^ e in if ltb v u32_mod then returns v else overflowing p v

-- The sum of two u64.
unfoldable pub add_u64 : Profile → ℕ → ℕ → Outcome ℕ
add_u64 p a b = if ltb (a + b) (2 ^ 64) then returns (a + b) else overflowing_u64 p (a + b)

-- A `Result`.
pub data Result {ℓ κ} (E : Type ℓ) (A : Type κ) : Type (ℓ ⊔ κ) where
  ok : A → Result E A
  err : E → Result E A
