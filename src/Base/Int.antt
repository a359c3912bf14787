-- ===== src/Base/Int.antt =====
-- Go's `int` and `uint64` on a 64-bit machine. A value is its bit pattern, a number below 2 ^ 64;
-- a pattern from 2 ^ 63 on stands for a negative `int`.
use Prim.Native.Nat.{ℕ, ◌+◌, ◌-◌, ◌%◌, ◌^◌, ◌≤◌, ◌<◌}
use mathlib.Core.Path.{◌≡◌}
use mathlib.Core.Bool.{Bool}
use native.Mathlib.Omega.{arith}
use ds_collaborative_editor.Base.Tests.{ltb, leb}

abbrev pub word_mod : ℕ
word_mod = 2 ^ 64

abbrev pub int_max : ℕ
int_max = 2 ^ 63 - 1

-- a + b and a - b, which wrap around.
unfoldable pub add64 : ℕ → ℕ → ℕ
add64 a b = (a + b) % word_mod

unfoldable pub sub64 : ℕ → ℕ → ℕ
sub64 a b = (a + word_mod - b) % word_mod

-- The signed order on patterns is the order of the patterns with the sign bit flipped.
bias : ℕ → ℕ
bias a = (a + 2 ^ 63) % word_mod

-- a < b and a <= b on `int`.
unfoldable pub lt_int : ℕ → ℕ → Bool
unfolding bias
lt_int a b = ltb (bias a) (bias b)

unfoldable pub le_int : ℕ → ℕ → Bool
unfolding bias
le_int a b = leb (bias a) (bias b)

-- A number that an `int` holds as a number from 0 on.
abbrev pub IsInt : ℕ → Type 0
IsInt n = n ≤ int_max

pub add64_lem : (a b : ℕ) → a + b < word_mod → add64 a b ≡ a + b
unfolding add64
add64_lem a b h = omega arith

pub sub64_lem : (a b : ℕ) → b ≤ a → a < word_mod → sub64 a b ≡ a - b
unfolding sub64
sub64_lem a b h k = omega arith

bias_lem : (a : ℕ) → IsInt a → bias a ≡ a + 2 ^ 63
unfolding bias
bias_lem a h = omega arith

pub lt_int_lem : (a b : ℕ) → IsInt a → IsInt b → lt_int a b ≡ ltb a b
unfolding lt_int
lt_int_lem a b h k = ground (arith, bias_lem a, bias_lem b)

pub le_int_lem : (a b : ℕ) → IsInt a → IsInt b → le_int a b ≡ leb a b
unfolding le_int
le_int_lem a b h k = ground (arith, bias_lem a, bias_lem b)
