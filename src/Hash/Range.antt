-- ===== src/Hash/Range.antt =====
-- hash.cc and its uses: where the indices computed from a hash lie.
use pingkv.Base.{
  ℕ, ◌-◌, ◌%◌, ◌^◌, ◌<◌, ◌≡◌, ◌≢◌, ◌↔◌, ◌⊎◌, inl, inr, ◌∷◌, [], ◌&&◌, false, some, lt→ltb, Bytes,
  arith, ltb, Bool-cases,
}
use pingkv.Base.Int.{pos, abs, is_neg, rem, signed64, abs-rem-lt, is_neg-rem}
use pingkv.Hash.{hash_step, hash_loop, hash_data, get_server_no, lru_hash, lru_reduce}

hash_loop-lt : (b : Bytes) (h : ℕ) → h < 2 ^ 64 → hash_loop b h < 2 ^ 64
unfolding hash_loop hash_step
hash_loop-lt [] h p = p
hash_loop-lt (c ∷ b) h p = hash_loop-lt b _ (omega arith)

pub hash_data-lt : (b : Bytes) → hash_data b < 2 ^ 64
unfolding hash_data
hash_data-lt b = hash_loop-lt b _ (omega arith)

-- A reduction of a word by `%` lies strictly between `-n` and `n`, and is an index exactly when the
-- word is no negative number or `n` divides it.
reduced :
    (h n : ℕ)
    → 0 < n
    → h < 2 ^ 64
    → (abs (rem (signed64 h) n) < n)
      × ((is_neg (rem (signed64 h) n) ≡ false) ↔ ((h < 2 ^ 63) ⊎ ((2 ^ 64 - h) % n ≡ 0)))
reduced h n p lt = (abs-rem-lt (signed64 h) n p, ground (arith, is_neg-rem (signed64 h) n))

-- For a client of `n` servers and a key, the number that `get_server_no` returns lies strictly
-- between `-n` and `n`; it is the number of a server, that is not negative, exactly when the hash
-- of the key is not negative as a `long` or `n` divides its magnitude.
pub get_server_no_range :
    (n : ℕ) (k : Bytes)
    → 0 < n
    → (abs (get_server_no n (some k)) < n)
      × ((is_neg (get_server_no n (some k)) ≡ false)
          ↔ ((hash_data k < 2 ^ 63) ⊎ ((2 ^ 64 - hash_data k) % n ≡ 0)))
unfolding get_server_no
get_server_no_range n k p = reduced (hash_data k) n p (hash_data-lt k)

rem-small : (w m : ℕ) → 0 < m → w < 2 ^ 63 → rem (signed64 w) m ≡ pos (w % m)
unfolding rem
rem-small w m p lt = ground (arith, lt→ltb w (2 ^ 63) lt)

lru_reduce-pos :
    (h m : ℕ) → 0 < m → h < 2 ^ 64 → h ≢ 2 ^ 63 → (r : ℕ) × (lru_reduce h m ≡ pos r) × (r < m)
unfolding lru_reduce
lru_reduce-pos h m p lt ne = elim (Bool-cases (ltb 0 h && ltb h (2 ^ 63))) [
  | inl a ↦ (h % m, rw a (rem-small h m p (ground arith)), omega arith)
  | inr b ↦ (
    (2 ^ 64 - h) % 2 ^ 64 % m,
    rw b (rem-small ((2 ^ 64 - h) % 2 ^ 64) m p (ground arith)),
    omega arith,
  )
]

-- The bucket number of a key lies in the table, for every table of at least one bucket and every
-- key whose hash is not the least `long`.
pub lru_hash_range :
    (k : Bytes) (m : ℕ) → 0 < m → hash_data k ≢ 2 ^ 63 → (r : ℕ) × (lru_hash k m ≡ pos r) × (r < m)
unfolding lru_hash
lru_hash_range k m p ne = lru_reduce-pos (hash_data k) m p (hash_data-lt k) ne
