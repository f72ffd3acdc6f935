-- ===== src/Index/Tree.antt =====
-- The tree of nodes: `_get_root`, `_get_node`, `_add_node`, `_save_node`, `_find_key`, `_set_key` and
-- `_del_key`. A node that is deleted has no bytes, and to read it is undefined. The fuel bounds the
-- depth of the tree.
use pingkv.Base.{
  ℕ, zero, suc, ◌+◌, Bool, true, false, Option, none, some, Bytes, length, leb, ◌==◌, if◌then◌else◌,
}
use pingkv.Base.Memory.{Memory, slice, blit}
use pingkv.DataFile.{Os, crash, M, pure, ◌>>=◌, ◌>>◌, ignore}
use pingkv.DataFile.File.{write_row, write_row_new_block, read_row, modify_row, delete_row}
use pingkv.Index.{
  node_len, k_info_size, record_count, head_block_id, right_child, KInfo, get_info_at, put_info_at,
  put_int, key_at,
}
use pingkv.Index.Node.{less, equal, greater, cmp_key, find_pos}

-- The buffer with the row of a node.
abbrev pub node_of : Option Bytes → M Memory
node_of none = λ _. crash
node_of (some row) = pure (blit (λ _. 0) 0 row)

abbrev pub found_pos : Option (Option ℕ × Memory) → M (Option ℕ × Memory)
found_pos none = λ _. crash
found_pos (some r) = pure r

abbrev pub is_key : Memory → ℕ → Bytes → Bool
is_key m o key = elim (cmp_key (key_at m o) key) [ equal ↦ true | less ↦ false | greater ↦ false ]

-- The record at an offset, written with its key; behind the end of the node this is undefined.
unfoldable pub put_record : Memory → ℕ → KInfo → Bytes → M Memory
unfolding put_info_at
put_record m o i key =
    if leb (o + k_info_size + length key) node_len
    then pure (blit (put_info_at m o i) (o + k_info_size) key)
    else (λ _. crash)

-- `fresh` is what `new char[]` holds.
module _ (os : Os) (fresh : Memory) where
  unfoldable pub get_node : ℕ → M Memory
  get_node id = do row ← read_row os id 1; node_of row

  unfoldable pub get_root : M Memory
  get_root = do row ← read_row os 2 1; node_of row

  unfoldable pub save_node : Memory → M (Unit {0})
  save_node m = modify_row os (head_block_id m) 1 (slice m 0 node_len)

  -- `_add_node`: the number of the block of the new node.
  unfoldable pub add_node : ℕ → M ℕ
  unfolding put_int
  add_node parent = do
    let m = put_int 2 (put_int 4 (put_int 4 (put_int 4 fresh 0 0) 8 parent) 12 0) 4 0
    id ← write_row_new_block os (slice m 0 node_len)
    save_node (put_int 4 m 0 id)
    pure id

  -- `_find_key`: the place of the value, block 0 if there is none.
  unfoldable pub find_key : ℕ → Memory → Bytes → M (ℕ × ℕ)
  unfolding find_pos get_info_at key_at cmp_key
  find_key zero m key = λ _. crash
  find_key (suc fuel) m key = do
    (pos, m') ← found_pos (find_pos m key)
    elim pos [
      | none ↦
          (if right_child m' == 0
            then pure (0, 0)
            else (do child ← get_node (right_child m'); find_key fuel child key))
      | some o ↦
          let info = get_info_at m' o in
          if is_key m' o key
          then pure (info.block_id, info.row_idx)
          else if info.left_child_block_id == 0
          then pure (0, 0)
          else (do child ← get_node info.left_child_block_id; find_key fuel child key)
    ]

  -- `_set_key`. A record without a value is taken to be the empty one that `_find_pos` has put at
  -- the end; it can also be one whose value was deleted.
  unfoldable pub set_key : ℕ → Memory → Bytes → Bytes → M (Unit {0})
  unfolding find_pos get_info_at put_info_at put_record key_at cmp_key put_int
  set_key zero m key value = λ _. crash
  set_key (suc fuel) m key value = do
    (pos, m') ← found_pos (find_pos m key)
    elim pos [
      | none ↦ (do
        id ←
            (if right_child m' == 0
              then (do
                new_id ← add_node (head_block_id m')
                save_node (put_int 4 m' 12 new_id)
                pure new_id)
              else pure (right_child m'))
        child ← get_node id
        set_key fuel child key value)
      | some o ↦
          let info = get_info_at m' o in
          if info.block_id == 0
          then (do
            (id, idx) ← write_row os value
            m₁ ←
                put_record m' o
                  (record {
                    left_child_block_id = 0;
                    block_id = id;
                    row_idx = idx;
                    key_len = length key;
                  })
                  key
            save_node (put_int 2 m₁ 4 (record_count m' + 1)))
          else if is_key m' o key
          then modify_row os info.block_id info.row_idx value
          else (do
            id ←
                (if info.left_child_block_id == 0
                  then (do
                    new_id ← add_node (head_block_id m')
                    save_node (put_info_at m' o (record info { left_child_block_id = new_id }))
                    pure new_id)
                  else pure info.left_child_block_id)
            child ← get_node id
            set_key fuel child key value)
    ]

  -- `_del_key`, which looks at this node alone.
  unfoldable pub del_key : Memory → Bytes → M (Unit {0})
  unfolding find_pos get_info_at put_info_at key_at cmp_key
  del_key m key = do
    (pos, m') ← found_pos (find_pos m key)
    elim pos [
      | none ↦ pure tt
      | some o ↦
          let info = get_info_at m' o in
          if info.block_id == 0
          then pure tt
          else if is_key m' o key
          then (do
            delete_row os info.block_id info.row_idx
            ignore (save_node (put_info_at m' o (record info { block_id = 0; row_idx = 0 }))))
          else pure tt
    ]
