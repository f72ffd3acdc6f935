-- ===== src/Index.antt =====
-- pingkv/src/index/kv_index.h and kv_index.cc: the keys of a data file, in a tree of nodes.
--
-- A node is a row of 8152 bytes, the first of its block: a head of 16 bytes and behind it the
-- records, each 12 bytes of `k_info` and the key. The root is in block 2. The model keeps a node as
-- the buffer that the source has, and reads and writes the fields at their offsets, in the byte
-- order of the target. A read or a write of a record behind the end of the buffer is undefined.
pub mod Node
pub mod Tree
pub mod Keys
pub mod Order
pub mod Search
pub mod Fields
pub mod Records
pub mod Insert
pub mod Root
pub mod SetGet
pub mod Values
pub mod Create
pub mod Absent
pub mod Lookup
pub mod Delete
pub mod Place
pub mod Map
mod Tests
use pingkv.Base.{
  ℕ, zero, suc, ◌+◌, ◌-◌, ◌*◌, ◌/◌, ◌%◌, ◌^◌, Bool, true, false, Option, none, some, List, [], ◌∷◌,
  Bytes, length, ltb, leb, ◌==◌, if◌then◌else◌,
}
use pingkv.Base.Memory.{Memory, slice, blit}

-- `KV_INDEX_NODE_LEN`, `sizeof(node_head)`, `sizeof(k_info)`
abbrev pub node_len : ℕ
node_len = 8152

abbrev pub head_size : ℕ
head_size = 16

abbrev pub k_info_size : ℕ
k_info_size = 12

-- A number of `n` bytes, the low one first.
unfoldable pub get_int : ℕ → Memory → ℕ → ℕ
get_int zero m o = 0
get_int (suc n) m o = m o + 256 * get_int n m (o + 1)

abbrev pub int_bytes : ℕ → ℕ → Bytes
int_bytes zero i = []
int_bytes (suc n) i = i % 256 ∷ int_bytes n (i / 256)

unfoldable pub put_int : ℕ → Memory → ℕ → ℕ → Memory
put_int n m o i = blit m o (int_bytes n i)

-- The fields of `node_head`
abbrev pub head_block_id : Memory → ℕ
head_block_id m = get_int 4 m 0

abbrev pub record_count : Memory → ℕ
record_count m = get_int 2 m 4

abbrev pub right_child : Memory → ℕ
right_child m = get_int 4 m 12

-- `k_info`
pub record KInfo : Type 0 where
  pub left_child_block_id : ℕ
  pub block_id : ℕ
  pub row_idx : ℕ
  pub key_len : ℕ

unfoldable pub get_info_at : Memory → ℕ → KInfo
unfolding get_int
get_info_at m o = record {
  left_child_block_id = get_int 4 m o;
  block_id = get_int 4 m (o + 4);
  row_idx = get_int 2 m (o + 8);
  key_len = get_int 2 m (o + 10);
}

unfoldable pub put_info_at : Memory → ℕ → KInfo → Memory
unfolding put_int
put_info_at m o i =
    put_int 2
      (put_int 2 (put_int 4 (put_int 4 m o i.left_child_block_id) (o + 4) i.block_id) (o + 8)
        i.row_idx)
      (o + 10) i.key_len

-- `_get_key_from_record`: the key of the record at an offset.
unfoldable pub key_at : Memory → ℕ → Bytes
unfolding get_info_at
key_at m o = slice m (o + k_info_size) (get_info_at m o).key_len
