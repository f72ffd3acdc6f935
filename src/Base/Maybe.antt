-- ===== src/Base/Maybe.antt =====
-- Chains of `Option` results in a do block.
use mathlib.Core.Option.{Option, none, some}

infixl 5 ◌>>=◌
abbrev pub ◌>>=◌ {ℓ} : {A B : Type ℓ} → Option A → (A → Option B) → Option B
none >>= k = none
some a >>= k = k a
