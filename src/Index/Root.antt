-- ===== src/Index/Root.antt =====
-- kv_index.cc: the root of the tree in the data file, and a key that is set in it.
use pingkv.Base.{
  ℕ, suc, ◌+◌, ◌≤◌, ◌≡◌, refl, Bool, true, false, some, List, [], ◌∷◌, ◌++◌, Bytes, length, arith,
}
use pingkv.Base.Memory.{Memory, slice, blit}
use pingkv.DataFile.{
  RecordIndex, DataBlock, DataFile, Os, ok, area_size, row_deleted, row_migrated, row_chained,
}
use pingkv.DataFile.Block.{last_offset, free_bytes}
use pingkv.DataFile.Row.{row_get_record}
use pingkv.DataFile.File.{write_row, read_row}
use pingkv.DataFile.InPlace.{read_row_runs}
use pingkv.DataFile.Stored.{Maps, with_cache}
use pingkv.Index.{node_len, head_size, k_info_size, head_block_id, KInfo, get_info_at, key_at}
use pingkv.Index.Node.{no_info}
use pingkv.Index.Tree.{get_root, save_node, find_key, set_key, is_key}
use pingkv.Index.Fields.{IsInfo, get_info_at-put_info_at}
use pingkv.Index.Order.{cmp_key_self}
use pingkv.Index.Records.{Holds, end_of, read_key, Lacks, Below}
use pingkv.Index.Insert.{
  IsNode, with_empty, with_count, find_pos_new, put_record_new, find_pos-IsNode,
}

-- The buffer of a node whose row is in a block.
abbrev pub root_of : DataBlock → RecordIndex → Memory
root_of b r = blit (λ _. 0) 0 (slice b.area r.offset node_len)

-- Block 2 has nothing but the row of the root, which holds the records.
pub record HasRoot (d : DataFile) (rs : List (KInfo × Bytes)) : Type 0 where
  pub block : DataBlock
  pub index : RecordIndex
  pub here : d.blocks 2 ≡ some block
  pub got : row_get_record block 1 ≡ some index
  pub full : free_bytes block ≡ 0
  pub low : last_offset area_size block.records ≤ index.offset
  pub len : index.len ≡ node_len
  pub live : row_deleted index.flags ≡ false
  pub unmoved : row_migrated index.flags ≡ false
  pub single : row_chained index.flags ≡ false
  pub number : head_block_id (root_of block index) ≡ 2
  pub node : IsNode (root_of block index) rs

pub key_at-Holds :
    (m : Memory) (o : ℕ) (rs ss : List (KInfo × Bytes)) (i : KInfo) (q : Bytes)
    → Holds m o (rs ++ (i, q) ∷ ss)
    → key_at m (end_of o rs) ≡ q
key_at-Holds m o [] ss i q (info, len, key, fits, rest) = read_key m o i q info len key fits
key_at-Holds m o ((j, k) ∷ rs) ss i q (info, len, key, fits, rest) =
    key_at-Holds m (o + k_info_size + length k) rs ss i q rest

pub is_key-Holds :
    (m : Memory) (o : ℕ) (rs ss : List (KInfo × Bytes)) (i : KInfo) (q : Bytes)
    → Holds m o (rs ++ (i, q) ∷ ss)
    → is_key m (end_of o rs) q ≡ true
is_key-Holds m o rs ss i q v = rw (is_key, key_at-Holds m o rs ss i q v, cmp_key_self q) refl

module _ (os : Os) (fresh : Memory) where
  pub get_root_runs :
      (d : DataFile) (rs : List (KInfo × Bytes)) (h : HasRoot d rs)
      → Maps os
      → (c : List (ℕ × Bool)) × (get_root os fresh d
          ≡ ok (root_of h.block h.index) (with_cache d c))
  unfolding get_root
  get_root_runs d rs h maps =
      let (c, e) =
        read_row_runs os d 2 1 h.block h.index maps (omega arith) h.here h.got h.live h.unmoved
          h.single in
      let whole : read_row os 2 1 d
          ≡ ok (some (slice h.block.area h.index.offset node_len)) (with_cache d c) =
        rw h.len at e in
      (c, rw (get_root, whole) refl)

  -- The record of a new key.
  abbrev pub new_info : ℕ → ℕ → Bytes → KInfo
  new_info id idx q = record {
    left_child_block_id = 0;
    block_id = id;
    row_idx = idx;
    key_len = length q;
  }

  -- A key above all keys of a node with room.
  pub set_key_runs :
      (fuel : ℕ) (m : Memory) (rs : List (KInfo × Bytes)) (q value : Bytes) (v : IsNode m rs)
      (below : Below q rs) (room : end_of head_size rs + k_info_size + length q ≤ node_len)
      (id idx : ℕ) (d d₁ d₂ : DataFile) (ok_info : IsInfo (new_info id idx q))
      → write_row os value d ≡ ok (id, idx) d₁
      → save_node os fresh (with_count m rs q v below room (new_info id idx q) ok_info refl) d₁
        ≡ ok tt d₂
      → set_key os fresh (suc fuel) m q value d ≡ ok tt d₂
  unfolding set_key
  set_key_runs fuel m rs q value v below room id idx d d₁ d₂ ok_info writes saves =
      let found = find_pos_new m rs q v below room in
      let empty : get_info_at (with_empty m rs q v below room) (end_of head_size rs) ≡ no_info =
        get_info_at-put_info_at m (end_of head_size rs) no_info
          (record { left_ok = refl; block_ok = refl; row_ok = refl; len_ok = refl }) in
      let puts = put_record_new m rs q v below room (new_info id idx q) ok_info refl in
      ground (arith, found, empty, writes, puts, saves)

  -- A key of a node.
  pub find_key_runs :
      (fuel : ℕ) (m : Memory) (rs ss : List (KInfo × Bytes)) (i : KInfo) (q : Bytes) (d : DataFile)
      → IsNode m (rs ++ (i, q) ∷ ss)
      → Lacks q rs
      → find_key os fresh (suc fuel) m q d ≡ ok (i.block_id, i.row_idx) d
  unfolding find_key
  find_key_runs fuel m rs ss i q d v lacks =
      let (found, info) = find_pos-IsNode m rs ss i q v lacks in
      let key : is_key m (end_of head_size rs) q ≡ true =
        is_key-Holds m head_size rs ss i q v.holds in
      ground (arith, found, info, key)
