-- ===== src/Prelude/Int64.antt =====
-- Go's int64, as the bit pattern below 2 ^ 64 with the wrapping operations.
use Prim.Native.Nat.{ℕ, ◌+◌, ◌-◌, ◌*◌, ◌%◌, ◌<◌}
use mathlib.Core.Path.{◌≡◌}
use mathlib.Core.Bool.{Bool}
use native.Mathlib.Omega.{arith}
use yunikorn_k8shim.Prelude.Tests.{ltb}

abbrev pub modulus : ℕ
modulus = 18446744073709551616

abbrev pub sign_bit : ℕ
sign_bit = 9223372036854775808

unfoldable pub add_int64 : ℕ → ℕ → ℕ
add_int64 a b = (a + b) % modulus

unfoldable pub sub_int64 : ℕ → ℕ → ℕ
sub_int64 a b = (a + modulus - b) % modulus

unfoldable pub neg_int64 : ℕ → ℕ
neg_int64 a = (modulus - a) % modulus

unfoldable pub mul_int64 : ℕ → ℕ → ℕ
mul_int64 a b = a * b % modulus

-- a > b, of signed values: the order of the patterns with the sign bit turned over
unfoldable pub gt_int64 : ℕ → ℕ → Bool
gt_int64 a b = ltb ((b + sign_bit) % modulus) ((a + sign_bit) % modulus)

-- Subtraction undoes addition, also where the sum wraps.
pub sub_int64-add_int64 : (a b : ℕ) → a < modulus → b < modulus → sub_int64 (add_int64 b a) b ≡ a
unfolding add_int64 sub_int64
sub_int64-add_int64 a b h k = omega arith

pub sub_int64_self : (b : ℕ) → sub_int64 b b ≡ 0
unfolding sub_int64
sub_int64_self b = omega arith
