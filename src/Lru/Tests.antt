-- ===== src/Lru/Tests.antt =====
-- Runs of the cache. `fresh` makes new memory that holds bytes 0.
use pingkv.Base.{
  ◌==◌, if◌then◌else◌, arith, true, [], ◌∷◌, ◌≡◌, refl, Option, none, some, Bytes, codes,
}
use pingkv.Base.Maybe.{◌>>=◌}
use pingkv.Base.Memory.{zeros}
use pingkv.Base.Links.{count_step, count_nil}
use pingkv.Lru.Recency.{Keeps, get_loop-Keeps}
use pingkv.Base.Int.{pos, above, add_to, take_from}
use pingkv.Hash.{hash_data, lru_hash}
use pingkv.Lru.{
  del_node, remove_ptr, Lru, init, get, set_cache, lru_insert, lru_del, bucket_no, mem_equal,
  get_loop, get_node, set_in,
}

abbrev cached_value : Option Lru → Bytes → Option (Option Bytes)
cached_value c k = do c ← c; (v, c') ← get k c; some v

-- A key that was set is not found: the bytes of its node are not those of the key.
key_not_copied :
    cached_value (set_cache zeros (codes "key") (codes "value") (init 1 100 50)) (codes "key")
    ≡ some none
unfolding above add_to take_from remove_ptr del_node lru_hash set_cache get bucket_no hash_data
    lru_insert get_node get_loop mem_equal
key_not_copied = refl

-- In a bucket of two nodes, every key that is not the first node's is taken to be the second's.
second_matches :
    cached_value
      (do
        c ← set_cache zeros (codes "a") (codes "x") (init 1 100 50)
        set_cache zeros (codes "b") (codes "yy") c)
      (codes "c")
    ≡ some (some (0 ∷ 0 ∷ []))
unfolding above add_to take_from remove_ptr del_node lru_hash set_cache get bucket_no hash_data
    lru_insert lru_del get_node get_loop mem_equal set_in
second_matches = refl

-- A cache with the key "a" in front of the key "b".
abbrev two_keys : Lru
two_keys = record (init 1 100 50) {
  tab = (0 ∷ 1 ∷ []) ∷ [];
  nodes = λ q.
      if q == 0
      then some (record { k = codes "a"; v = codes "x"; prev = none; next = some 1 })
      else if q == 1
      then some (record { k = codes "b"; v = codes "y"; prev = some 0; next = none })
      else none;
  hot = some 0;
  cold = some 1;
  node_count = 2;
  size = pos 4;
  allocated = 2;
}

two_keys-Keeps : Keeps two_keys (0 ∷ 1 ∷ [])
two_keys-Keeps = record {
  linked = (
    tt,
    (
      (record { k = codes "a"; v = codes "x"; prev = none; next = some 1 }, refl, refl, refl),
      ((record { k = codes "b"; v = codes "y"; prev = some 0; next = none }, refl, refl, refl), tt),
    ),
  );
  hot_ok = refl;
  cold_ok = refl;
  distinct = λ q.
      let a = count_step 0 q (1 ∷ []) in
      let b = count_step 1 q [] in let c = count_nil q in ground (arith, a, b, c);
}

b_matches : mem_equal 1 (codes "b") (codes "b") ≡ some true
unfolding mem_equal
b_matches = refl

get_loop-Keeps_example :
    (c' : Lru) × (get_loop (codes "b") 1 (1 ∷ []) two_keys ≡ some (some 1, c'))
    × Keeps c' (1 ∷ 0 ∷ [])
get_loop-Keeps_example =
    get_loop-Keeps two_keys (0 ∷ []) [] [] 1 1 (codes "b")
      (record { k = codes "b"; v = codes "y"; prev = some 0; next = none }) two_keys-Keeps refl refl
      b_matches
