-- ===== src/HashTable/Count.antt =====
-- pingkv/src/tool/hashtable.h: the number of buckets and the place of a hash in them.
use pingkv.Base.{
  ℕ, zero, suc, ◌+◌, ◌-◌, ◌*◌, ◌/◌, ◌%◌, ◌^◌, ◌≤◌, ◌<◌, ◌≡◌, refl, ap, ◌∙◌, Bool, true, false, some,
  ltb, arith, ◌⊎◌, inl, inr,
}
use native.Mathlib.Omega.{div_any}
use native.Mathlib.Nat.{mod-lt, mod-eq_of_lt, add-mul-mod_self_left, mul_assoc}
use pingkv.Base.Bits.{bit_and}
use pingkv.HashTable.{double_until, make_bucket_count}

pow_suc : (j : ℕ) → 2 ^ suc j ≡ 2 * 2 ^ j
pow_suc j = omega arith

twice_mul : (i a : ℕ) → i * (2 * a) ≡ i * 2 * a
twice_mul i a = omega arith

-- The least power of two from 128 on that is not below the number.
pub record Least (n c : ℕ) : Type 0 where
  pub exponent : ℕ
  pub power : c ≡ 128 * 2 ^ exponent
  pub small : exponent ≤ 25
  pub enough : n ≤ c
  pub least : (c ≡ 128) ⊎ (c < 2 * n)

double_step :
    (fuel i j n : ℕ)
    → j + suc fuel ≤ 25
    → i ≡ 128 * 2 ^ j
    → n ≤ 2 ^ 30
    → (i ≡ 128) ⊎ (i < 2 * n)
    → (b : Bool) → ltb i n ≡ b
    → (i < n → (c : ℕ) × (double_until fuel (i * 2) n ≡ some c) × Least n c)
    → (c : ℕ) × (double_until (suc fuel) i n ≡ some c) × Least n c
unfolding double_until
double_step fuel i j n few e small l true lt rec =
    let (c, run, least) = rec (ground (arith, lt)) in (c, ground (arith, lt, run, small), least)
double_step fuel i j n few e small l false ge rec = (
  i,
  ground (arith, ge),
  record { exponent = j; power = e; small = omega arith; enough = ground (arith, ge); least = l },
)

double_until-Least :
    (fuel i j n : ℕ)
    → j + fuel ≤ 25
    → i ≡ 128 * 2 ^ j
    → n ≤ 2 ^ 30
    → (i ≡ 128) ⊎ (i < 2 * n)
    → 2 ^ 31 ≤ i * 2 ^ fuel
    → (c : ℕ) × (double_until fuel i n ≡ some c) × Least n c
double_until-Least zero i j n few e small (inl k) big = absurd (omega (arith, k, big))
double_until-Least zero i j n few e small (inr k) big = absurd (omega (arith, k, big, small))
double_until-Least (suc fuel) i j n few e small l big =
    let e' : i * 2 ≡ 128 * 2 ^ suc j = omega (arith, e, pow_suc j) in
    let big' : 2 ^ 31 ≤ i * 2 * 2 ^ fuel =
      omega (arith, big, twice_mul i (2 ^ fuel), ap (λ z. i * z) (pow_suc fuel)) in
    double_step fuel i j n few e small l (ltb i n) refl λ lt.
      double_until-Least fuel (i * 2) (suc j) n (omega arith) e' small (inr (omega arith)) big'

-- For at most 2 ^ 30 buckets `_make_bucket_count` ends within the fuel, without overflow, and returns
-- the least power of two from 128 on that is not below the number.
pub make_bucket_count-Least :
    (n : ℕ) → n ≤ 2 ^ 30 → (c : ℕ) × (make_bucket_count n ≡ some c) × Least n c
unfolding make_bucket_count
make_bucket_count-Least n small =
    double_until-Least 25 128 0 n (omega arith) refl small (inl refl) (omega arith)

half_mod : (a m : ℕ) → 0 < m → a % (2 * m) ≡ a % 2 + 2 * (a / 2 % m)
half_mod a m pos_m =
    let r = a % 2 + 2 * (a / 2 % m) in
    let q = a / 2 / m in
    let small : r < 2 * m = omega (arith, mod-lt (a / 2) pos_m) in
    let whole : a ≡ r + 2 * m * q = omega (arith, div_any (a / 2) m, mul_assoc 2 m q) in
    ap (λ z. z % (2 * m)) whole ∙ add-mul-mod_self_left r (2 * m) q ∙ mod-eq_of_lt small

bit_and_zero : (bits a : ℕ) → bit_and bits a 0 ≡ 0
unfolding bit_and
bit_and_zero zero a = refl
bit_and_zero (suc bits) a = omega (arith, bit_and_zero bits (a / 2))

pow-pos : (j : ℕ) → 0 < 2 ^ j
pow-pos zero = omega arith
pow-pos (suc j) = omega (arith, pow_suc j, pow-pos j)

-- The bits of a hash that `& (count - 1)` keeps, for a count of 2 ^ j, are the remainder by the count.
pub bit_and-mod : (bits j a : ℕ) → j ≤ bits → bit_and bits a (2 ^ j - 1) ≡ a % 2 ^ j
unfolding bit_and
bit_and-mod zero zero a h = omega arith
bit_and-mod zero (suc j) a h = absurd (omega arith)
bit_and-mod (suc bits) zero a h = omega (arith, bit_and_zero bits (a / 2))
bit_and-mod (suc bits) (suc j) a h =
    let odd : (2 ^ suc j - 1) % 2 ≡ 1 = omega (arith, pow_suc j, pow-pos j) in
    let half : (2 ^ suc j - 1) / 2 ≡ 2 ^ j - 1 = omega (arith, pow_suc j, pow-pos j) in
    let ih = bit_and-mod bits j (a / 2) (omega arith) in
    rw (odd, half, ih, pow_suc j, half_mod a (2 ^ j) (pow-pos j)) (omega arith)

abbrev pub IsPower : ℕ → Type 0
IsPower c = (j : ℕ) × (j ≤ 64) × (c ≡ 2 ^ j)

pow_add_7 : (j : ℕ) → 128 * 2 ^ j ≡ 2 ^ (j + 7)
pow_add_7 zero = refl
pow_add_7 (suc j) =
    let e : suc j + 7 ≡ suc (j + 7) = omega arith in
    omega (ap (λ z. 2 ^ z) e, arith, pow_suc j, pow_suc (j + 7), pow_add_7 j)

pub Least-IsPower : (n c : ℕ) → Least n c → IsPower c
Least-IsPower n c l =
    let b = l.small in (l.exponent + 7, omega (arith, b), l.power ∙ pow_add_7 l.exponent)

-- `hash & (count - 1)` is the remainder of the hash by the count, which is an index of the array.
pub bit_and-IsPower : (c a : ℕ) → IsPower c → (bit_and 64 a (c - 1) ≡ a % c) × (a % c < c)
bit_and-IsPower c a (j, le, e) = rw e (bit_and-mod 64 j a le, mod-lt a (pow-pos j))
