-- ===== src/Prelude/Words.antt =====
-- Machine words as bit patterns: an `int` is a number below 2 ^ 32, a 64-bit word one below 2 ^ 64.
use Prim.Native.Nat.{ℕ, ◌+◌, ◌-◌, ◌%◌, ◌^◌, ◌<◌}
use mathlib.Core.Path.{◌≡◌}
use native.Mathlib.Omega.{arith}
use tee_sqlite.Prelude.Tests.{ltb, if◌then◌else◌}

-- `int` to a 64-bit word: the sign is extended.
unfoldable pub sext : ℕ → ℕ
sext x = if ltb x (2 ^ 31) then x else x + (2 ^ 64 - 2 ^ 32)

-- A 64-bit word to `int`: the low 32 bits.
abbrev pub low32 : ℕ → ℕ
low32 x = x % 2 ^ 32

-- The sum of two `size_t`.
abbrev pub add64 : ℕ → ℕ → ℕ
add64 a b = (a + b) % 2 ^ 64

-- The `int` -1, and the 64-bit -1.
abbrev pub minus_one32 : ℕ
minus_one32 = 2 ^ 32 - 1

abbrev pub minus_one64 : ℕ
minus_one64 = 2 ^ 64 - 1

pub low32-sext : (x : ℕ) → x < 2 ^ 32 → low32 (sext x) ≡ x
unfolding sext
low32-sext x h = ground arith

pub sext-lt : (x : ℕ) → x < 2 ^ 32 → sext x < 2 ^ 64
unfolding sext
sext-lt x h = ground arith

pub low32_self : (x : ℕ) → x < 2 ^ 32 → low32 x ≡ x
low32_self x h = omega arith
