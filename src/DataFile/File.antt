-- ===== src/DataFile/File.antt =====
-- data_file.cc: a data file is created or opened, and rows are read and written through it.
use pingkv.Base.{
  ℕ, ◌+◌, ◌-◌, ◌*◌, Bool, true, false, not, ◌&&◌, Option, none, some, [], Bytes, length, take, ◌==◌,
  if◌then◌else◌,
}
use pingkv.Base.Int.{ℤ, pos, negsuc}
use pingkv.DataFile.{
  DataFile, Os, ok, crash, M, pure, fail, ◌>>=◌, ◌>>◌, ignore, or_crash, get_info, put_info, load,
  area_size, record_size,
}
use pingkv.DataFile.Block.{
  read_block, extend_file, flush_file_head, find_block_can_write, flush_out_cache,
}
use pingkv.DataFile.Row.{read_row_in, write_row_in, modify_row_in, delete_row_in}

-- The constructor, on a path where nothing is.
abbrev pub closed : DataFile
closed = record {
  info = record {
    curr_pid = 0;
    file_id = 0;
    db_name = [];
    block_size = 0;
    block_count = 0;
    used_block_count = 0;
  };
  blocks = λ _. none;
  cache = [];
  init_ok = false;
}

-- `block_count()` and `used_block_count()`
pub block_count : DataFile → ℤ
block_count d = if d.init_ok then pos d.info.block_count else negsuc 0

pub used_block_count : DataFile → ℤ
used_block_count d = if d.init_ok then pos d.info.used_block_count else negsuc 0

abbrev pub empty_block_space : ℕ
empty_block_space = area_size - record_size

-- `exists`, from the answer of `open` and the value of `errno` after it. A call that succeeds leaves
-- `errno` as it was.
unfoldable pub exists : Bool → ℕ → ℤ
exists opened errno =
    if not opened && not (errno == 2) then negsuc 0 else if errno == 2 then pos 0 else pos 1

abbrev pub set_init_ok : M (Unit {0})
set_init_ok d = ok tt (record d { init_ok = true })

-- Every record that a row can have migrated through, and one more round.
abbrev pub row_fuel : DataFile → ℕ
row_fuel d = d.info.block_count * 511 + 2

-- The bytes that a read through a pointer to freed memory gives, if it gives any.
abbrev pub freed : Option Bytes → M Bytes
freed none d = crash
freed (some bytes) d = ok bytes d

module _ (os : Os) where
  -- The name is copied through a pointer to a string that is destroyed by then.
  unfoldable pub create_file : Bytes → ℕ → M (Unit {0})
  create_file dbname file_id = do
    (if os.open_file then pure tt else fail)
    name ← freed (os.freed_name (take 15 dbname))
    put_info (record {
      curr_pid = os.getpid;
      file_id = file_id;
      db_name = take 15 name;
      block_size = 8192;
      block_count = 1;
      used_block_count = 1;
    })
    (if os.mmap 1 then pure tt else fail)
    extend_file os 128
    i ← get_info
    put_info (record i { used_block_count = 2 })
    flush_file_head os
    set_init_ok

  -- A file that another living process has open is refused.
  unfoldable pub open_file : M (Unit {0})
  open_file = do
    (if os.open_file && os.mmap 1 then pure tt else fail)
    i ← get_info
    (if not (i.curr_pid == os.getpid) && os.pid_exists i.curr_pid then fail else (do
      put_info (record i { curr_pid = os.getpid })
      ignore (flush_file_head os)
      set_init_ok))

  -- The block and the record that hold the row. The error path reads the number of the block
  -- through the pointer.
  unfoldable pub write_row : Bytes → M (ℕ × ℕ)
  write_row row = do
    p ← or_crash (find_block_can_write os)
    b ← load p
    idx ← write_row_in os (length row + 1) p row
    pure (b.block_id, idx)

  unfoldable pub write_row_new_block : Bytes → M ℕ
  write_row_new_block row = do
    i ← get_info
    (if i.used_block_count == i.block_count then ignore (extend_file os 128) else pure tt)
    i ← get_info
    put_info (record i { used_block_count = i.used_block_count + 1 })
    ignore (flush_file_head os)
    p ← or_crash (read_block os (i.used_block_count + 1))
    b ← load p
    write_row_in os (length row + 1) p row
    pure b.block_id

  -- The source returns the length of the row, and 0 for a deleted row, which is `none` here.
  unfoldable pub read_row : ℕ → ℕ → M (Option Bytes)
  read_row id idx d = read_row_in os (row_fuel d) id idx d

  unfoldable pub modify_row : ℕ → ℕ → Bytes → M (Unit {0})
  modify_row id idx row d = modify_row_in os (row_fuel d) id idx row d

  unfoldable pub delete_row : ℕ → ℕ → M (Unit {0})
  delete_row id idx = delete_row_in os id idx

  unfoldable pub flush_blocks : M (Unit {0})
  flush_blocks = flush_out_cache os
