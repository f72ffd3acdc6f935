-- ===== src/Base/Bits.antt =====
-- The bitwise `&` of C++ on numbers of so many bits.
use Prim.Native.Nat.{ℕ, zero, suc, ◌+◌, ◌*◌, ◌/◌, ◌%◌}
use mathlib.Core.Bool.{Bool}
use pingkv.Base.Tests.{◌==◌}

unfoldable pub bit_and : ℕ → ℕ → ℕ → ℕ
bit_and zero a b = 0
bit_and (suc bits) a b = (a % 2) * (b % 2) + 2 * bit_and bits (a / 2) (b / 2)

-- `(a & f) == f` for numbers of 16 bits.
unfoldable pub has_flag : ℕ → ℕ → Bool
unfolding bit_and
has_flag a f = bit_and 16 a f == f
