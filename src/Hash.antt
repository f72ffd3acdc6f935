-- ===== src/Hash.antt =====
-- pingkv/src/tool/hash.cc: the hash of a key, in 64-bit words that wrap around, and the three
-- places that reduce it to an index: client/kv_route.cc, cache/kv_lru.cc and server/kv_server.cc.
-- A `long` is its bit pattern, a number below 2 ^ 64. A `char` is signed. Overflow of a signed
-- `long` wraps, as the compiler of the Makefile makes it.
pub mod Range
mod Tests
use pingkv.Base.{
  ℕ, ◌+◌, ◌-◌, ◌*◌, ◌%◌, ◌^◌, Bool, ◌&&◌, not, Option, none, some, [], ◌∷◌, Bytes, length, ltb,
  ◌==◌, if◌then◌else◌,
}
use pingkv.Base.Int.{ℤ, pos, negsuc, rem, signed64, widen_char}

-- One round of the loop of `hash_data`.
pub hash_step : ℕ → ℕ → ℕ
hash_step hash c = (hash * 1313 + widen_char c) % 2 ^ 64

pub hash_loop : Bytes → ℕ → ℕ
hash_loop [] hash = hash
hash_loop (c ∷ data') hash = hash_loop data' (hash_step hash c)

-- The buffer holds `len` bytes.
unfoldable pub hash_data : Bytes → ℕ
unfolding hash_step hash_loop
hash_data buf = hash_loop buf (length buf % 2 ^ 64)

-- `LSHASH_S_64`
abbrev pub lshash_s_64 : ℕ
lshash_s_64 = 5534023222112865484

pub hash_long : ℕ → ℕ
hash_long l = (l * lshash_s_64) % 2 ^ 64

-- `kv_route::get_server_no`; no key is the null pointer.
unfoldable pub get_server_no : ℕ → Option Bytes → ℤ
unfolding rem
get_server_no server_count none = negsuc 0
get_server_no server_count (some k) = rem (signed64 (hash_data k)) server_count

-- The queue number that `kv_server::_cb_read_sock` computes for a request.
unfoldable pub queue_no : ℕ → Bytes → ℤ
unfolding rem
queue_no file_count k = rem (signed64 (hash_data k)) file_count

-- `kv_lru::_lru_hash`: `h > 0 ? h % mod : (-1 * h % mod)`
lru_reduce : ℕ → ℕ → ℤ
lru_reduce h modulus =
    if ltb 0 h && ltb h (2 ^ 63)
    then rem (signed64 h) modulus
    else rem (signed64 ((2 ^ 64 - h) % 2 ^ 64)) modulus

unfoldable pub lru_hash : Bytes → ℕ → ℤ
unfolding lru_reduce rem
lru_hash key modulus = lru_reduce (hash_data key) modulus
