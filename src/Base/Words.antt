-- ===== src/Base/Words.antt =====
-- Rust's unsigned integers as native numbers, for u64 and u128. A plain operator wraps around, as
-- it does in a release build (the workspace sets no `overflow-checks`); the saturating ones stop at
-- the end of the range. `saturating_sub` is the native subtraction, which stops at 0.
use Prim.Native.Nat.{ℕ, ◌+◌, ◌-◌, ◌*◌, ◌%◌, ◌^◌, ◌≤◌, ◌<◌, min}
use mathlib.Core.Path.{◌≡◌}
use native.Mathlib.Omega.{arith}

abbrev pub u64_mod : ℕ
u64_mod = 2 ^ 64

abbrev pub u128_mod : ℕ
u128_mod = 2 ^ 128

abbrev pub u64_max : ℕ
u64_max = 2 ^ 64 - 1

unfoldable pub add_u64 : ℕ → ℕ → ℕ
add_u64 a b = (a + b) % u64_mod

unfoldable pub add_u128 : ℕ → ℕ → ℕ
add_u128 a b = (a + b) % u128_mod

unfoldable pub sub_u64 : ℕ → ℕ → ℕ
sub_u64 a b = (a + u64_mod - b) % u64_mod

unfoldable pub sub_u128 : ℕ → ℕ → ℕ
sub_u128 a b = (a + u128_mod - b) % u128_mod

unfoldable pub mul_u128 : ℕ → ℕ → ℕ
mul_u128 a b = (a * b) % u128_mod

unfoldable pub saturating_add_u64 : ℕ → ℕ → ℕ
saturating_add_u64 a b = min (a + b) (u64_mod - 1)

unfoldable pub saturating_add_u128 : ℕ → ℕ → ℕ
saturating_add_u128 a b = min (a + b) (u128_mod - 1)

unfoldable pub saturating_mul_u128 : ℕ → ℕ → ℕ
saturating_mul_u128 a b = min (a * b) (u128_mod - 1)

pub add_u64-eq : (a b : ℕ) → a + b < u64_mod → add_u64 a b ≡ a + b
unfolding add_u64
add_u64-eq a b h = omega arith

pub add_u128-eq : (a b : ℕ) → a + b < u128_mod → add_u128 a b ≡ a + b
unfolding add_u128
add_u128-eq a b h = omega arith

pub sub_u128-eq : (a b : ℕ) → a < u128_mod → b ≤ a → sub_u128 a b ≡ a - b
unfolding sub_u128
sub_u128-eq a b h k = omega arith

pub sub_u64-eq : (a b : ℕ) → a < u64_mod → b ≤ a → sub_u64 a b ≡ a - b
unfolding sub_u64
sub_u64-eq a b h k = omega arith

pub mul_u128-eq : (a b : ℕ) → a * b < u128_mod → mul_u128 a b ≡ a * b
unfolding mul_u128
mul_u128-eq a b h = omega arith

pub saturating_add_u64-eq : (a b : ℕ) → a + b < u64_mod → saturating_add_u64 a b ≡ a + b
unfolding saturating_add_u64
saturating_add_u64-eq a b h = omega arith

pub saturating_add_u128-eq : (a b : ℕ) → a + b < u128_mod → saturating_add_u128 a b ≡ a + b
unfolding saturating_add_u128
saturating_add_u128-eq a b h = omega arith

pub saturating_mul_u128-eq : (a b : ℕ) → a * b < u128_mod → saturating_mul_u128 a b ≡ a * b
unfolding saturating_mul_u128
saturating_mul_u128-eq a b h = omega arith

pub saturating_mul_u128-le : (a b : ℕ) → saturating_mul_u128 a b ≤ a * b
unfolding saturating_mul_u128
saturating_mul_u128-le a b = omega arith
