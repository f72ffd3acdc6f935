-- ===== src/Base/Int.antt =====
-- Signed integers, and C++'s division and remainder, which round towards zero.
use Prim.Native.Nat.{ℕ, zero, suc, ◌+◌, ◌-◌, ◌%◌, ◌^◌, ◌<◌}
use mathlib.Core.Path.{◌≡◌, refl}
use mathlib.Core.Bool.{Bool, true, false, not, ◌&&◌}
use native.Mathlib.Omega.{arith}
use pingkv.Base.Tests.{ltb, leb, ◌==◌, if◌then◌else◌}

-- `negsuc n` is -(n + 1).
pub data ℤ : Type 0 where
  pos : ℕ → ℤ
  negsuc : ℕ → ℤ

-- -n.
abbrev pub neg_ℕ : ℕ → ℤ
neg_ℕ zero = pos 0
neg_ℕ (suc n) = negsuc n

abbrev pub is_neg : ℤ → Bool
is_neg (pos n) = false
is_neg (negsuc n) = true

abbrev pub is_zero : ℤ → Bool
is_zero (pos zero) = true
is_zero (pos (suc n)) = false
is_zero (negsuc n) = false

-- The magnitude.
abbrev pub abs : ℤ → ℕ
abs (pos n) = n
abs (negsuc n) = suc n

-- `a % b` of C++ for a positive `b`: the remainder has the sign of the dividend.
unfoldable pub rem : ℤ → ℕ → ℤ
rem (pos a) b = pos (a % b)
rem (negsuc a) b = neg_ℕ (suc a % b)

-- A `long` is its bit pattern, below 2 ^ 64; this is the number that the pattern stands for.
abbrev pub signed64 : ℕ → ℤ
signed64 w = if ltb w (2 ^ 63) then pos w else negsuc (2 ^ 64 - w - 1)

-- A `char` is signed on the target: the byte widened to a 64-bit word.
abbrev pub widen_char : ℕ → ℕ
widen_char c = if ltb c 128 then c else c + (2 ^ 64 - 256)

-- a - b.
abbrev pub sub_ℕ : ℕ → ℕ → ℤ
sub_ℕ a b = if leb b a then pos (a - b) else negsuc (b - a - 1)

-- The loop `for (i = 0; i < n; i++)` makes this many rounds.
abbrev pub rounds : ℤ → ℕ
rounds (pos n) = n
rounds (negsuc n) = 0

pub abs-neg_ℕ : (n : ℕ) → abs (neg_ℕ n) ≡ n
abs-neg_ℕ zero = refl
abs-neg_ℕ (suc n) = refl

pub abs-rem-lt : (a : ℤ) (b : ℕ) → 0 < b → abs (rem a b) < b
unfolding rem
abs-rem-lt (pos a) b h = omega arith
abs-rem-lt (negsuc a) b h = omega (arith, abs-neg_ℕ (suc a % b))

is_neg-neg_ℕ : (n : ℕ) → is_neg (neg_ℕ n) ≡ not (n == 0)
is_neg-neg_ℕ zero = refl
is_neg-neg_ℕ (suc n) = ground arith

pub is_neg-rem : (a : ℤ) (b : ℕ) → is_neg (rem a b) ≡ (is_neg a && not ((abs a % b) == 0))
unfolding rem
is_neg-rem (pos a) b = refl
is_neg-rem (negsuc a) b = is_neg-neg_ℕ (suc a % b)

-- `a + n`, `a - n` and `a > n` for an `int` and a number.
unfoldable pub add_to : ℤ → ℕ → ℤ
add_to (pos a) n = pos (a + n)
add_to (negsuc a) n = sub_ℕ n (a + 1)

unfoldable pub take_from : ℤ → ℕ → ℤ
take_from (pos a) n = sub_ℕ a n
take_from (negsuc a) n = negsuc (a + n)

unfoldable pub above : ℤ → ℕ → Bool
above (pos a) n = ltb n a
above (negsuc a) n = false
