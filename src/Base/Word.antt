-- ===== src/Base/Word.antt =====
-- A 32-bit C `int` as its bit pattern, below 2 ^ 32, with two's complement arithmetic.
use Prim.Native.Nat.{ℕ, ◌+◌, ◌-◌, ◌%◌, ◌^◌, ◌<◌}
use mathlib.Core.Path.{◌≡◌}
use open_pa.Base.Tests.{◌==◌}
use native.Mathlib.Omega.{arith}

-- The pattern of -1.
abbrev pub minus_one : ℕ
minus_one = 2 ^ 32 - 1

-- The bytes of an object in memory, and how many values it has.
pub data Size : Type 0 where
  bytes_4 bytes_8 : Size

abbrev pub size_mod : Size → ℕ
size_mod bytes_4 = 2 ^ 32
size_mod bytes_8 = 2 ^ 64

-- `#if` on a size: what is for 4 bytes, and what is for 8.
abbrev pub by_size {ℓ} : {A : Type ℓ} → Size → A → A → A
by_size bytes_4 x y = x
by_size bytes_8 x y = y

unfoldable pub add32 : ℕ → ℕ → ℕ
add32 a b = (a + b) % 2 ^ 32

pub add32-lt : (a b : ℕ) → add32 a b < 2 ^ 32
unfolding add32
add32-lt a b = omega arith

pub add32-minus_one : (a : ℕ) → a < 2 ^ 32 → add32 (add32 a 1) minus_one ≡ a
unfolding add32
add32-minus_one a h = omega arith

unfoldable pub sub32 : ℕ → ℕ → ℕ
sub32 a b = (a + 2 ^ 32 - b % 2 ^ 32) % 2 ^ 32

pub sub32-lt : (a b : ℕ) → sub32 a b < 2 ^ 32
unfolding sub32
sub32-lt a b = omega arith

-- Subtracting one is adding the pattern of -1.
pub sub32-one : (a : ℕ) → sub32 a 1 ≡ add32 a minus_one
unfolding sub32 add32
sub32-one a = omega arith

pub sub32-add32 : (a b : ℕ) → a < 2 ^ 32 → sub32 (add32 a b) b ≡ a
unfolding sub32 add32
sub32-add32 a b h = omega arith

-- The difference is zero exactly when the number was one.
pub sub32-eq_zero : (a : ℕ) → a < 2 ^ 32 → (sub32 a 1 == 0) ≡ (a == 1)
unfolding sub32
sub32-eq_zero a h = ground arith

pub add32-sub32_one : (a : ℕ) → a < 2 ^ 32 → add32 (sub32 a 1) 1 ≡ a
unfolding sub32 add32
add32-sub32_one a h = omega arith
