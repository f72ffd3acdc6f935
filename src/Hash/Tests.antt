-- ===== src/Hash/Tests.antt =====
-- Runs of the hash on keys, and the theorems on the range of an index at those keys.
use pingkv.Base.{ℕ, ◌-◌, ◌%◌, ◌^◌, ◌<◌, ◌≡◌, ◌↔◌, ◌⊎◌, refl, false, some, codes, arith}
use pingkv.Base.Int.{pos, negsuc, abs, is_neg}
use pingkv.Hash.{hash_data, get_server_no, lru_hash, queue_no}
use pingkv.Hash.Range.{get_server_no_range, lru_hash_range}

hash_ab : hash_data (codes "ab") ≡ 3575397
unfolding hash_data
hash_ab = refl

-- A key whose server and whose queue have the number -1: the hash is -957090688315914531.
negative_index :
    (get_server_no 2 (some (codes "session1")) ≡ negsuc 0)
    × (queue_no 2 (codes "session1") ≡ negsuc 0)
unfolding get_server_no queue_no hash_data
negative_index = (refl, refl)

bucket : lru_hash (codes "session1") 8192 ≡ pos 6435
unfolding lru_hash hash_data
bucket = refl

get_server_no_range_example :
    (abs (get_server_no 4 (some (codes "session1"))) < 4)
    × ((is_neg (get_server_no 4 (some (codes "session1"))) ≡ false) ↔ (
        (hash_data (codes "session1") < 2 ^ 63)
        ⊎ ((2 ^ 64 - hash_data (codes "session1")) % 4 ≡ 0)))
get_server_no_range_example = get_server_no_range 4 (codes "session1") (omega arith)

lru_hash_range_example : (r : ℕ) × (lru_hash (codes "session1") 8192 ≡ pos r) × (r < 8192)
unfolding hash_data
lru_hash_range_example = lru_hash_range (codes "session1") 8192 (omega arith) (omega arith)
