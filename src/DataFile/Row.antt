-- ===== src/DataFile/Row.antt =====
-- data_file_row.cc: the directory of a block, and rows that are read, written, changed and deleted.
-- A row that does not fit in its block is chained: the record's row goes on in the record that
-- `next_block_id` and `next_row_idx` name. A row that has outgrown its place is migrated: its record
-- names the record that holds the row now.
use pingkv.Base.{
  ℕ, zero, suc, ◌+◌, ◌-◌, ◌*◌, Bool, Option, none, some, [], ◌∷◌, ◌++◌, Bytes, length, get_elem?,
  set, take, drop, ◌||◌, ltb, if◌then◌else◌,
}
use pingkv.Base.Memory.{slice, blit, zeros}
use pingkv.DataFile.{
  RecordIndex, DataBlock, Os, crash, M, pure, fail, ◌>>=◌, ◌>>◌, load, store, record_count,
  area_size, record_size, row_deleted, row_chained, row_migrated, row_set_deleted, row_set_chained,
  row_set_migrated,
}
use pingkv.DataFile.Block.{last_offset, free_bytes, read_block, find_block_can_write}

-- `_row_count`
unfoldable pub row_count : Os → ℕ → M ℕ
row_count os id = do p ← read_block os id; b ← load p; pure (record_count b)

-- The record that `_row_add_record` makes for a row of `len` bytes.
unfoldable pub new_record : DataBlock → ℕ → Bool → RecordIndex
unfolding last_offset row_set_chained
new_record b len chained = record {
  flags = if chained then row_set_chained 0 else 0;
  offset =
      if chained then (record_count b + 1) * record_size else last_offset area_size b.records - len;
  len = len;
  next_block_id = 0;
  next_row_idx = 0;
}

-- `_row_add_record`: the block after it; the number of the new record is the new count.
unfoldable pub row_add_record : DataBlock → ℕ → Bool → DataBlock
unfolding new_record
row_add_record b len chained = record b { records = b.records ++ new_record b len chained ∷ [] }

-- `_row_get_record`; records are numbered from 1.
unfoldable pub row_get_record : DataBlock → ℕ → Option RecordIndex
row_get_record b zero = none
row_get_record b (suc i) = get_elem? b.records i

-- A write to the fields of a record.
unfoldable pub set_record : DataBlock → ℕ → RecordIndex → DataBlock
set_record b zero r = b
set_record b (suc i) r = record b { records = set b.records i r }

abbrev pub or_err : Option RecordIndex → M RecordIndex
or_err none = fail
or_err (some r) = pure r

-- The end of the bytes of a record: the start of those of the record before it.
unfoldable pub row_top : DataBlock → ℕ → ℕ
row_top b zero = area_size
row_top b (suc zero) = area_size
row_top b (suc (suc i)) = elim (get_elem? b.records i) [ none ↦ area_size | some r ↦ r.offset ]

-- `_row_get_len_in_block`; a negative length is passed to `memcpy`, which is undefined.
unfoldable pub row_get_len_in_block : DataBlock → ℕ → RecordIndex → Option ℕ
unfolding row_top
row_get_len_in_block b idx r =
    if ltb (row_top b idx) r.offset
    then none
    else if ltb r.len (row_top b idx - r.offset)
    then some r.len
    else some (row_top b idx - r.offset)

abbrev pub or_undefined : Option ℕ → M ℕ
or_undefined none = λ _. crash
or_undefined (some n) = pure n

module _ (os : Os) where
  -- The loop `while(1)` of `_read_row` over the parts of a chained row: `p` and `idx` are the current
  -- block and record, `remain` the bytes still to be read, `out` those read.
  unfoldable pub chain_loop : ℕ → ℕ → ℕ → ℕ → Bytes → M Bytes
  unfolding row_get_record row_get_len_in_block
  chain_loop zero p idx remain out = λ _. crash
  chain_loop (suc fuel) p idx remain out = do
    b ← load p
    r ← or_err (row_get_record b idx)
    n ← or_undefined (row_get_len_in_block b idx r)
    (if ltb n remain
        then (do
          q ← read_block os r.next_block_id
          chain_loop fuel q r.next_row_idx (remain - n) (out ++ slice b.area r.offset n))
        else pure (out ++ slice b.area r.offset n))

  -- `_read_row`: `none` is a deleted row. The fuel bounds the records that the row has migrated
  -- through, and the parts of a chain.
  unfoldable pub read_row_in : ℕ → ℕ → ℕ → M (Option Bytes)
  unfolding row_get_record row_deleted row_migrated row_chained
  read_row_in zero id idx = λ _. crash
  read_row_in (suc fuel) id idx = do
    p ← read_block os id
    b ← load p
    r ← or_err (row_get_record b idx)
    (if row_deleted r.flags
        then pure none
        else if row_migrated r.flags
        then read_row_in fuel r.next_block_id r.next_row_idx
        else if row_chained r.flags
        then (do row ← chain_loop fuel p idx r.len []; pure (some row))
        else pure (some (slice b.area r.offset r.len)))

  -- `_write_row`: the number of the new record.
  unfoldable pub write_row_in : ℕ → ℕ → Bytes → M ℕ
  unfolding free_bytes row_add_record row_get_record set_record
  write_row_in zero p row = λ _. crash
  write_row_in (suc fuel) p row = do
    b ← load p
    let len = length row
    let fre = free_bytes b
    let chained = ltb fre len
    let write_len = if chained then fre else len
    let idx = record_count b + 1
    store p (row_add_record b len chained)
    let r = new_record b len chained
    (if chained
        then (do
          q ← find_block_can_write os
          next ← write_row_in fuel q (drop write_len row)
          c ← load q
          b' ← load p
          store p
              (set_record b' idx (record r { next_block_id = c.block_id; next_row_idx = next })))
        else pure tt)
    b'' ← load p
    store p (record b'' { area = blit b''.area r.offset (take write_len row) })
    pure idx

  -- `_modify_row`
  unfoldable pub modify_row_in : ℕ → ℕ → ℕ → Bytes → M (Unit {0})
  unfolding row_get_record set_record row_deleted row_migrated row_chained row_set_migrated
  modify_row_in zero id idx row = λ _. crash
  modify_row_in (suc fuel) id idx row = do
    p ← read_block os id
    b ← load p
    r ← or_err (row_get_record b idx)
    (if row_deleted r.flags
        then fail
        else if row_migrated r.flags
        then modify_row_in fuel r.next_block_id r.next_row_idx row
        else if row_chained r.flags || ltb r.len (length row)
        then (do
          let r' = record r { flags = row_set_migrated r.flags }
          store p (set_record b idx r')
          q ← find_block_can_write os
          next ← write_row_in (length row + 1) q row
          c ← load q
          b' ← load p
          store p
              (set_record b' idx (record r' { next_block_id = c.block_id; next_row_idx = next })))
        else store p (record b { area = blit (blit b.area r.offset (zeros r.len)) r.offset row }))

  -- `_delete_row`
  unfoldable pub delete_row_in : ℕ → ℕ → M (Unit {0})
  unfolding row_get_record set_record row_set_deleted
  delete_row_in id idx = do
    p ← read_block os id
    b ← load p
    r ← or_err (row_get_record b idx)
    store p (set_record b idx (record r { flags = row_set_deleted r.flags }))
