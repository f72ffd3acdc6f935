-- ===== src/DataFile/Block.antt =====
-- data_file_block.cc, and `_extend_file` of data_file.cc: mapping, formatting and flushing blocks,
-- the free bytes of a block, and the search for a block with room.
use pingkv.Base.{
  ℕ, zero, suc, ◌+◌, ◌-◌, ◌*◌, Bool, true, false, List, [], ◌∷◌, length, ◌||◌, ltb, leb, ◌==◌,
  if◌then◌else◌,
}
use pingkv.DataFile.{
  RecordIndex, DataBlock, Os, ok, err, crash, M, pure, fail, ◌>>=◌, ◌>>◌, ignore, get_info,
  put_info, load, store, record_count, area_size, record_size, max_block,
}

-- The offset of the last record, or the end of the area.
unfoldable pub last_offset : ℕ → List RecordIndex → ℕ
last_offset top [] = top
last_offset top (r ∷ rs) = last_offset r.offset rs

-- `_block_free_bytes`: room for one more record and its row.
unfoldable pub free_bytes : DataBlock → ℕ
unfolding last_offset
free_bytes b =
    let used = (record_count b + 1) * record_size in
    if record_count b == 0
    then area_size - record_size
    else if leb (last_offset area_size b.records) used
    then 0
    else last_offset area_size b.records - used

-- The record of `_cache` for a block.
unfoldable pub cached : ℕ → List (ℕ × Bool) → Bool
cached id [] = false
cached id ((k, mapped) ∷ cache) = if k == id then mapped else cached id cache

unfoldable pub uncache : ℕ → List (ℕ × Bool) → List (ℕ × Bool)
uncache id [] = []
uncache id ((k, mapped) ∷ cache) =
    let rest = uncache id cache in if k == id then rest else (k, mapped) ∷ rest

module _ (os : Os) where
  -- The checks of the checksums are switched off in the source. The offset of a block is an `int`, and
  -- undefined when it overflows.
  unfoldable pub read_block : ℕ → M ℕ
  read_block id d =
      if cached id d.cache
      then ok id d
      else if ltb max_block id
      then crash
      else if os.mmap id
      then ok id (record d { cache = (id, true) ∷ uncache id d.cache })
      else err (record d { cache = (id, false) ∷ uncache id d.cache })

  unfoldable pub block_free_bytes : ℕ → M ℕ
  unfolding free_bytes
  block_free_bytes id = do p ← read_block id; b ← load p; pure (free_bytes b)

  unfoldable pub flush_file_head : M (Unit {0})
  flush_file_head = if os.msync then pure tt else fail

  -- The area of a formatted block is not initialised; no record leads there.
  unfoldable pub format_block : ℕ → DataBlock
  format_block id = record {
    head_checksum = os.rand id;
    block_id = id;
    records = [];
    area = λ _. 0;
    tail_checksum = os.rand id;
  }

  -- The loop of `_extend_file`; `n` is `_file_head->info.block_count` before it.
  unfoldable pub extend_loop : ℕ → ℕ → M (Unit {0})
  extend_loop zero id = pure tt
  extend_loop (suc k) id =
      if os.write_block id
      then (do
        store id (format_block id)
        i ← get_info
        put_info (record i { block_count = i.block_count + 1 })
        extend_loop k (id + 1))
      else fail

  unfoldable pub extend_file : ℕ → M (Unit {0})
  extend_file blocks = do
    i ← get_info
    extend_loop (if blocks == 0 then 128 else blocks) (i.block_count + 1)

  -- The loop `while (fre == 0)`; it is given a round for every block that the file can have.
  unfoldable pub find_loop : ℕ → ℕ → M ℕ
  find_loop zero p = λ _. crash
  find_loop (suc fuel) p = do
    b ← load p
    (if free_bytes b == 0
        then (do
          i ← get_info
          put_info (record i { used_block_count = i.used_block_count + 1 })
          ignore flush_file_head
          q ← read_block (i.used_block_count + 1)
          find_loop fuel q)
        else pure p)

  unfoldable pub find_block_can_write : M ℕ
  find_block_can_write = do
    i ← get_info
    (if i.used_block_count == i.block_count then ignore (extend_file 128) else pure tt)
    i ← get_info
    p ← read_block i.used_block_count
    find_loop (i.block_count + 2 - i.used_block_count) p

  -- `_flush_out_block(data_block*)`: the tail gets the checksum of the head, and the block is
  -- unmapped. The null pointer is left alone.
  unfoldable pub flush_out_block : ℕ → M (Unit {0})
  flush_out_block p = do
    b ← load p
    store p (record b { tail_checksum = b.head_checksum })
    (λ d. if os.munmap p then ok tt (record d { cache = uncache b.block_id d.cache }) else err d)

  -- `_flush_out_block(block_id)`; its last path returns no value.
  unfoldable pub flush_out_block_id : ℕ → M (Unit {0})
  flush_out_block_id id d =
      if ltb id 2 || ltb d.info.block_count id
      then err d
      else if cached id d.cache
      then flush_out_block id d
      else crash

  -- `_flush_block(block_id)`
  unfoldable pub flush_block : ℕ → M (Unit {0})
  flush_block id d =
      if cached id d.cache
      then (do
        b ← load id
        store id (record b { tail_checksum = b.head_checksum })
        if os.msync then pure tt else fail)
          d
      else err d

  -- `_flush_out_cache`: an entry with the null pointer is never erased, and the loop goes on for
  -- ever. A round for every entry is enough otherwise.
  unfoldable pub flush_loop : ℕ → M (Unit {0})
  flush_loop zero d = crash
  flush_loop (suc fuel) d = elim d.cache [
    | [] ↦ ok tt d
    | (id, mapped) ∷ rest ↦ elim mapped [
      | true ↦ (flush_out_block id >> flush_loop fuel) d
      | false ↦ crash
    ]
  ]

  unfoldable pub flush_out_cache : M (Unit {0})
  flush_out_cache d = flush_loop (length d.cache + 1) d
