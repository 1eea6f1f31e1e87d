-- ===== src/Prelude/Int.antt =====
-- Go's signed integers over the native numbers; `negsuc n` is -(n + 1).
use Prim.Native.Nat.{ℕ, zero, suc, ◌-◌, ◌*◌, ◌%◌}
use mathlib.Core.Bool.{Bool, true, false}
use kopia_operator.Prelude.Tests.{ltb, if◌then◌else◌}

pub data ℤ : Type 0 where
  pos : ℕ → ℤ
  negsuc : ℕ → ℤ

-- x > 0
abbrev pub is_pos : ℤ → Bool
is_pos (pos zero) = false
is_pos (pos (suc n)) = true
is_pos (negsuc n) = false

-- x == 0
abbrev pub is_zero : ℤ → Bool
is_zero (pos zero) = true
is_zero (pos (suc n)) = false
is_zero (negsuc n) = false

-- The int64 with the bits of n, for n below 2^64.
abbrev of_bits64 : ℕ → ℤ
of_bits64 n = if ltb n 9223372036854775808 then pos n else negsuc (18446744073709551615 - n)

-- x * k in an int64, for a k that fits: the product wraps around.
unfoldable pub mul64 : ℤ → ℕ → ℤ
mul64 (pos n) k = of_bits64 (n * k % 18446744073709551616)
mul64 (negsuc n) k =
    of_bits64 ((18446744073709551616 - suc n * k % 18446744073709551616) % 18446744073709551616)
