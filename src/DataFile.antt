-- ===== src/DataFile.antt =====
-- pingkv/src/dbf/: the file of blocks in which rows are stored. This module has the state
-- (data_file.h) and the commands over it; `Block` is data_file_block.cc, `Row` is
-- data_file_row.cc and `File` is data_file.cc.
--
-- A block has 8192 bytes: a head of 16, an area of 8168 and a tail of 8. In the area the directory
-- of records grows up from offset 0, 16 bytes for each (the structs are packed to 4 bytes), and the
-- rows grow down from the end. The model holds the directory as a list and the bytes of the area
-- as a function of the offset. A pointer to a block is the block's number, since a block is mapped at
-- most once. `int` and `short` fields are numbers without a width, but for the offset at which a block
-- is mapped; an offset in a block is at most 8168, and a block has room for at most 510 records.
pub mod Block
pub mod Row
pub mod File
pub mod Write
pub mod Chain
pub mod Create
pub mod History
pub mod Change
pub mod Room
pub mod Valid
pub mod Stored
pub mod Growth
pub mod Layout
pub mod InPlace
pub mod FirstRow
mod Tests
use pingkv.Base.{
  ℕ, zero, suc, ◌+◌, ◌*◌, ◌/◌, ◌%◌, ◌^◌, Bool, true, false, Option, none, some, List, [], ◌∷◌,
  Bytes, length, ◌==◌, if◌then◌else◌,
}
use pingkv.Base.Memory.{Memory}

-- `sizeof(b->data)`, `sizeof(record_index)`
abbrev pub area_size : ℕ
area_size = 8168

abbrev pub record_size : ℕ
record_size = 16

-- The last block whose offset `(block_id - 1) * 8192` is an `int`.
abbrev pub max_block : ℕ
max_block = 262144

-- `data_file::record_index`
pub record RecordIndex : Type 0 where
  pub flags : ℕ
  pub offset : ℕ
  pub len : ℕ
  pub next_block_id : ℕ
  pub next_row_idx : ℕ

-- `data_file::data_block`; `record_count` of the head is the length of `records`.
pub record DataBlock : Type 0 where
  pub head_checksum : ℕ
  pub block_id : ℕ
  pub records : List RecordIndex
  pub area : Memory
  pub tail_checksum : ℕ

abbrev pub record_count : DataBlock → ℕ
record_count b = length b.records

-- `data_file::file_info`, the first block of the file.
pub record FileInfo : Type 0 where
  pub curr_pid : ℕ
  pub file_id : ℕ
  pub db_name : Bytes
  pub block_size : ℕ
  pub block_count : ℕ
  pub used_block_count : ℕ

-- `_cache` lists the blocks that were asked for; an entry with `false` is the null pointer that
-- `_cache[block_id]` leaves behind when the block could not be mapped. `blocks` is what the mapped
-- file holds; `none` is the head of the file and what lies behind its end.
pub record DataFile : Type 0 where
  pub info : FileInfo
  pub blocks : ℕ → Option DataBlock
  pub cache : List (ℕ × Bool)
  pub init_ok : Bool

-- The system calls, each with the answer whether it succeeds, and `rand()`. `freed_name` is what
-- `create_file` reads through its pointer to the bytes of a destroyed string; none when that ends the
-- program.
pub record Os : Type 0 where
  pub open_file : Bool
  pub mmap : ℕ → Bool
  pub write_block : ℕ → Bool
  pub msync : Bool
  pub munmap : ℕ → Bool
  pub rand : ℕ → ℕ
  pub freed_name : Bytes → Option Bytes
  pub getpid : ℕ
  pub pid_exists : ℕ → Bool

-- The result of a method: a value, the return code -1, or undefined behaviour (a null pointer, a
-- read behind the end of the file) or no return at all. The state of a failed call is kept.
pub data Run (A : Type 0) : Type 0 where
  ok : A → DataFile → Run A
  err : DataFile → Run A
  crash : Run A

abbrev pub M : Type 0 → Type 0
M A = DataFile → Run A

abbrev pub pure : {A : Type 0} → A → M A
pure = ok

abbrev pub fail : {A : Type 0} → M A
fail = err

module _ {A B : Type 0} where
  abbrev pub and_then : Run A → (A → M B) → Run B
  and_then (ok a d) k = k a d
  and_then (err d) k = err d
  and_then crash k = crash

  infixl 5 ◌>>=◌ ◌>>◌
  abbrev pub ◌>>=◌ : M A → (A → M B) → M B
  m >>= k = λ d. and_then (m d) k

  abbrev pub ◌>>◌ : M A → M B → M B
  m >> n = m >>= λ _. n

-- A call whose return code is not looked at.
abbrev pub done_run : {A : Type 0} → Run A → Run (Unit {0})
done_run (ok a d) = ok tt d
done_run (err d) = ok tt d
done_run crash = crash

abbrev pub ignore : {A : Type 0} → M A → M (Unit {0})
ignore m d = done_run (m d)

-- A call whose error path reads through the pointer that the failed call did not set.
abbrev pub crash_run : {A : Type 0} → Run A → Run A
crash_run (ok a d) = ok a d
crash_run (err d) = crash
crash_run crash = crash

abbrev pub or_crash : {A : Type 0} → M A → M A
or_crash m d = crash_run (m d)

abbrev pub get_info : M FileInfo
get_info d = ok d.info d

abbrev pub put_info : FileInfo → M (Unit {0})
put_info i d = ok tt (record d { info = i })

-- `*p`
unfoldable pub load : ℕ → M DataBlock
load p d = elim (d.blocks p) [ none ↦ crash | some b ↦ ok b d ]

unfoldable pub update : (ℕ → Option DataBlock) → ℕ → DataBlock → ℕ → Option DataBlock
update blocks p b id = if id == p then some b else blocks id

-- A write through `p`.
unfoldable pub store : ℕ → DataBlock → M (Unit {0})
store p b d = ok tt (record d { blocks = update d.blocks p b })

-- data_file_tool.h: the flags of a record, bits 0, 1 and 2 of a `char`.
abbrev pub bit : ℕ → ℕ → ℕ
bit flags k = flags / 2 ^ k % 2

unfoldable pub row_deleted : ℕ → Bool
row_deleted flags = bit flags 0 == 1

unfoldable pub row_chained : ℕ → Bool
row_chained flags = bit flags 1 == 1

unfoldable pub row_migrated : ℕ → Bool
row_migrated flags = bit flags 2 == 1

-- `flags | 2 ^ k`
abbrev pub set_bit : ℕ → ℕ → ℕ
set_bit flags k = if bit flags k == 1 then flags else flags + 2 ^ k

unfoldable pub row_set_deleted : ℕ → ℕ
row_set_deleted flags = set_bit flags 0

unfoldable pub row_set_chained : ℕ → ℕ
row_set_chained flags = set_bit flags 1

unfoldable pub row_set_migrated : ℕ → ℕ
row_set_migrated flags = set_bit flags 2
