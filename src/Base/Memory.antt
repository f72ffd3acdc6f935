-- ===== src/Base/Memory.antt =====
-- A buffer of bytes as a function of the offset: `memcpy` out of it is `slice`, into it `blit`.
use Prim.Native.Nat.{ℕ, zero, suc, ◌+◌, ◌≤◌, ◌<◌}
use mathlib.Core.Path.{◌≡◌, refl, ap, ap₂, ◌∙◌}
use mathlib.Core.List.{[], ◌∷◌, ◌++◌}
use native.Mathlib.Omega.{arith}
use pingkv.Base.Tests.{◌==◌, if◌then◌else◌}
use pingkv.Base.Lists.{Bytes, length}

abbrev pub Memory : Type 0
Memory = ℕ → ℕ

-- The `n` bytes from offset `p` on.
unfoldable pub slice : Memory → ℕ → ℕ → Bytes
slice m p zero = []
slice m p (suc n) = m p ∷ slice m (p + 1) n

-- The buffer with the bytes put at offset `p`.
unfoldable pub blit : Memory → ℕ → Bytes → Memory
blit m p [] i = m i
blit m p (x ∷ xs) i = if i == p then x else blit m (p + 1) xs i

-- `memset(p, 0, n)`
abbrev pub zeros : ℕ → Bytes
zeros zero = []
zeros (suc n) = 0 ∷ zeros n

pub length-zeros : (n : ℕ) → length (zeros n) ≡ n
length-zeros zero = refl
length-zeros (suc n) = ap suc (length-zeros n)

pub length-slice : (m : Memory) (p n : ℕ) → length (slice m p n) ≡ n
unfolding slice
length-slice m p zero = refl
length-slice m p (suc n) = ap suc (length-slice m (p + 1) n)

pub slice_congr :
    (f g : Memory) (p n : ℕ) → ((i : ℕ) → p ≤ i → i < p + n → f i ≡ g i) → slice f p n ≡ slice g p n
unfolding slice
slice_congr f g p zero h = refl
slice_congr f g p (suc n) h =
    ap₂ ◌∷◌ (h p (omega arith) (omega arith))
      (slice_congr f g (p + 1) n λ i lo hi. h i (omega arith) (omega arith))

pub slice_add : (m : Memory) (p a b : ℕ) → slice m p (a + b) ≡ slice m p a ++ slice m (p + a) b
unfolding slice
slice_add m p zero b =
    let e : 0 + b ≡ b = omega arith in let e' : p + 0 ≡ p = omega arith in rw (e, e')
slice_add m p (suc a) b =
    let e : suc a + b ≡ suc (a + b) = omega arith in
    let e' : p + suc a ≡ p + 1 + a = omega arith in
    rw (e, e') (ap (◌∷◌ (m p)) (slice_add m (p + 1) a b))

pub blit-below : (m : Memory) (p : ℕ) (xs : Bytes) (i : ℕ) → i < p → blit m p xs i ≡ m i
unfolding blit
blit-below m p [] i h = refl
blit-below m p (x ∷ xs) i h = ground (arith, blit-below m (p + 1) xs i (omega arith))

pub blit-above : (m : Memory) (p : ℕ) (xs : Bytes) (i : ℕ) → p + length xs ≤ i → blit m p xs i ≡ m i
unfolding blit
blit-above m p [] i h = refl
blit-above m p (x ∷ xs) i h = ground (arith, blit-above m (p + 1) xs i (omega arith))

pub slice-blit_below :
    (m : Memory) (p : ℕ) (xs : Bytes) (q n : ℕ) → q + n ≤ p → slice (blit m p xs) q n ≡ slice m q n
slice-blit_below m p xs q n h =
    slice_congr (blit m p xs) m q n λ i lo hi. blit-below m p xs i (omega arith)

pub slice-blit_above :
    (m : Memory) (p : ℕ) (xs : Bytes) (q n : ℕ)
    → p + length xs ≤ q
    → slice (blit m p xs) q n ≡ slice m q n
slice-blit_above m p xs q n h =
    slice_congr (blit m p xs) m q n λ i lo hi. blit-above m p xs i (omega arith)

pub blit_head : (m : Memory) (p x : ℕ) (xs : Bytes) → blit m p (x ∷ xs) p ≡ x
unfolding blit
blit_head m p x xs = ground arith

pub blit_tail :
    (m : Memory) (p x : ℕ) (xs : Bytes) (i : ℕ) → p < i → blit m p (x ∷ xs) i ≡ blit m (p + 1) xs i
unfolding blit
blit_tail m p x xs i h = ground arith

pub slice-blit_self : (m : Memory) (p : ℕ) (xs : Bytes) → slice (blit m p xs) p (length xs) ≡ xs
unfolding slice
slice-blit_self m p [] = refl
slice-blit_self m p (x ∷ xs) = ap₂ ◌∷◌ (blit_head m p x xs) (
    slice_congr (blit m p (x ∷ xs)) (blit m (p + 1) xs) (p + 1) (length xs)
      (λ i lo hi. blit_tail m p x xs i (omega arith))
    ∙ slice-blit_self m (p + 1) xs)

-- Bytes that are all 0.
pub slice-zeros :
    (m : Memory) (p n : ℕ) → ((i : ℕ) → p ≤ i → i < p + n → m i ≡ 0) → slice m p n ≡ zeros n
unfolding slice
slice-zeros m p zero h = refl
slice-zeros m p (suc n) h =
    ap₂ ◌∷◌ (h p (omega arith) (omega arith))
      (slice-zeros m (p + 1) n λ i lo hi. h i (omega arith) (omega arith))

pub blit-zeros : (m : Memory) (p n i : ℕ) → p ≤ i → i < p + n → blit m p (zeros n) i ≡ 0
unfolding blit
blit-zeros m p zero i lo hi = absurd (omega arith)
blit-zeros m p (suc n) i lo hi = ground (arith, blit-zeros m (p + 1) n i)

-- Bytes of a buffer, put at the same place.
pub blit-slice : (f m : Memory) (p n i : ℕ) → p ≤ i → i < p + n → blit f p (slice m p n) i ≡ m i
unfolding slice blit
blit-slice f m p zero i lo hi = absurd (omega arith)
blit-slice f m p (suc n) i lo hi = ground (arith, blit-slice f m (p + 1) n i)
