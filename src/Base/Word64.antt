-- ===== src/Base/Word64.antt =====
-- Go's `int64` (and `int` on 64-bit targets) as its two's complement pattern, a number below
-- 2 ^ 64 whose value is negative from 2 ^ 63 on.
use Prim.Native.Nat.{ℕ, ◌+◌, ◌-◌, ◌%◌}
use mathlib.Core.Bool.{Bool}
use cloud_sdk_go.Base.Tests.{ltb}

-- The operator `+` of `int64`.
abbrev pub add64 : ℕ → ℕ → ℕ
add64 a b = (a + b) % 18446744073709551616

-- The operator `++` of `int64`.
abbrev pub inc64 : ℕ → ℕ
inc64 a = add64 a 1

-- The operator `-` of `int64`.
abbrev pub sub64 : ℕ → ℕ → ℕ
sub64 a b = (a + 18446744073709551616 - b) % 18446744073709551616

-- The order of `int64`: adding 2 ^ 63 maps the signed order to the order of patterns.
abbrev pub ltb64 : ℕ → ℕ → Bool
ltb64 a b =
    ltb ((a + 9223372036854775808) % 18446744073709551616)
      ((b + 9223372036854775808) % 18446744073709551616)
