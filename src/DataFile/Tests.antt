-- ===== src/DataFile/Tests.antt =====
-- Runs of a data file.
use pingkv.Base.{
  Bool, List, ◌==◌, if◌then◌else◌, arith, ℕ, ◌≡◌, ◌≤◌, refl, true, false, Option, none, some, [],
  ◌∷◌, Bytes, codes, ◌++◌,
}
use pingkv.Base.Memory.{slice, blit}
use pingkv.DataFile.Stored.{Stored, with_cache}
use pingkv.DataFile.Valid.{IsValid, Works}
use pingkv.DataFile.Create.{IsBlank, create_file-IsValid}
use pingkv.DataFile.History.{AllRead, write_rows, write_row-Stored, write_rows-read_row}
use pingkv.DataFile.Change.{delete_row-read_row, modify_row-read_row}
use pingkv.DataFile.{
  RecordIndex, DataBlock, row_deleted, row_migrated, row_chained, DataFile, Os, Run, ok, err, crash,
  M, ◌>>=◌, ◌>>◌, load, store, update,
}
use pingkv.DataFile.Block.{
  cached, uncache, read_block, flush_file_head, format_block, extend_loop, extend_file, find_loop,
  find_block_can_write, flush_out_block, flush_loop, flush_out_cache,
}
use pingkv.DataFile.Row.{
  row_get_record, chain_loop, read_row_in, write_row_in, modify_row_in, delete_row_in,
}
use pingkv.DataFile.File.{
  closed, create_file, write_row, read_row, modify_row, delete_row, flush_blocks,
}

abbrev os : Os
os = record {
  open_file = true;
  mmap = λ _. true;
  write_block = λ _. true;
  msync = true;
  munmap = λ _. true;
  rand = λ id. id;
  freed_name = some;
  getpid = 7;
  pid_exists = λ _. false;
}

program : Unit {0}
unfolding slice blit load store update cached uncache read_block flush_file_head format_block
    extend_loop extend_file find_loop find_block_can_write flush_out_block flush_loop
    flush_out_cache chain_loop read_row_in write_row_in modify_row_in delete_row_in create_file
    write_row read_row modify_row delete_row flush_blocks
program = tt

abbrev result : {A : Type 0} → Run A → Option A
result (ok a d) = some a
result (err d) = none
result crash = none

-- Two rows; the second is read back.
two_rows : M (Option Bytes)
two_rows = do
  create_file os (codes "testdb") 1
  (b₁, i₁) ← write_row os (codes "first")
  (b₂, i₂) ← write_row os (codes "second")
  read_row os b₂ i₂

two_rows_read : result (two_rows closed) ≡ some (some (codes "second"))
unfolding two_rows program
two_rows_read = refl

-- A row that becomes shorter keeps its length: it is read back with bytes 0 at its end.
shorter_row : M (Option Bytes)
shorter_row = do
  create_file os (codes "testdb") 1
  (b, i) ← write_row os (codes "second")
  modify_row os b i (codes "ab")
  read_row os b i

shorter_row_read : result (shorter_row closed) ≡ some (some (codes "ab" ++ 0 ∷ 0 ∷ 0 ∷ 0 ∷ []))
unfolding shorter_row program
shorter_row_read = refl

-- Every system call of `os` succeeds.
abbrev works : Works os
works = record { maps = λ id. refl; extends = λ id. refl }

abbrev rows : List Bytes
rows = codes "first" ∷ codes "second" ∷ []

create_file-IsValid_example :
    (d : DataFile) × (create_file os (codes "testdb") 1 closed ≡ ok tt d)
    × IsValid d
    × IsBlank d
    × (d.info.block_count ≡ 129)
    × (d.info.used_block_count ≡ 2)
    × (d.init_ok ≡ true)
    × (d.info.db_name ≡ codes "testdb")
create_file-IsValid_example =
    create_file-IsValid os works (codes "testdb") (codes "testdb") 1 refl refl refl

abbrev new_file : DataFile
new_file =
    let (d, e, v, b, n, u, o, _) =
      create_file-IsValid os works (codes "testdb") (codes "testdb") 1 refl refl refl in
    d

new_file-IsValid : IsValid new_file
new_file-IsValid =
    let (d, e, v, b, n, u, o, _) =
      create_file-IsValid os works (codes "testdb") (codes "testdb") 1 refl refl refl in
    v

new_file-used : new_file.info.used_block_count ≡ 2
new_file-used =
    let (d, e, v, b, n, u, o, _) =
      create_file-IsValid os works (codes "testdb") (codes "testdb") 1 refl refl refl in
    u

-- The file with the row "first", and its place.
abbrev first_written :
    (id : ℕ) × (idx : ℕ) × (d' : DataFile) × IsValid d'
    × Stored d'.blocks id idx (codes "first")
    × (d'.info.used_block_count ≤ 8)
first_written =
    let (id, idx, d', e, v', x, s, _, _, _, _, le) =
      write_row-Stored os works (codes "first") new_file new_file-IsValid
        (omega (arith, new_file-used)) in
    (id, idx, d', v', s, omega (arith, le, new_file-used))

abbrev first_file : DataFile
first_file = let (id, idx, d, v, s, le) = first_written in d

abbrev first_block : ℕ
first_block = let (id, idx, d, v, s, le) = first_written in id

abbrev first_record : ℕ
first_record = let (id, idx, d, v, s, le) = first_written in idx

first_file-IsValid : IsValid first_file
first_file-IsValid = let (id, idx, d, v, s, le) = first_written in v

first_file-used : first_file.info.used_block_count ≤ 8
first_file-used = let (id, idx, d, v, s, le) = first_written in le

first_file-Stored : Stored first_file.blocks first_block first_record (codes "first")
first_file-Stored = let (id, idx, d, v, s, le) = first_written in s

write_rows-read_row_example :
    (ids : List (ℕ × ℕ)) × (d : DataFile) × (write_rows os rows first_file ≡ ok ids d)
    × IsValid d
    × AllRead os d ids rows
    × AllRead os d ((first_block, first_record) ∷ []) (codes "first" ∷ [])
write_rows-read_row_example =
    write_rows-read_row os works ((first_block, first_record) ∷ []) (codes "first" ∷ []) rows
      first_file first_file-IsValid (first_file-Stored, tt) (omega (arith, first_file-used))

-- A file whose block 2 has the row "second".
abbrev second_index : RecordIndex
second_index = record { flags = 0; offset = 8162; len = 6; next_block_id = 0; next_row_idx = 0 }

abbrev second_block : DataBlock
second_block = record {
  head_checksum = 2;
  block_id = 2;
  records = second_index ∷ [];
  area = blit (λ _. 0) 8162 (codes "second");
  tail_checksum = 2;
}

abbrev second_file : DataFile
second_file = record {
  info = record {
    curr_pid = 7;
    file_id = 1;
    db_name = codes "testdb";
    block_size = 8192;
    block_count = 2;
    used_block_count = 2;
  };
  blocks = λ id. if id == 2 then some second_block else none;
  cache = [];
  init_ok = true;
}

delete_row-read_row_example :
    (d' : DataFile) × (delete_row os 2 1 second_file ≡ ok tt d')
    × ((c : List (ℕ × Bool)) × (read_row os 2 1 d' ≡ ok none (with_cache d' c)))
unfolding row_get_record
delete_row-read_row_example =
    delete_row-read_row os (λ id. refl) second_file 2 1 second_block second_index (omega arith) refl
      refl

modify_row-read_row_example :
    (d' : DataFile) × (modify_row os 2 1 (codes "ab") second_file ≡ ok tt d')
    × ((c : List (ℕ × Bool)) × (read_row os 2 1 d'
          ≡ ok (some (codes "ab" ++ 0 ∷ 0 ∷ 0 ∷ 0 ∷ [])) (with_cache d' c)))
unfolding row_get_record row_deleted row_migrated row_chained
modify_row-read_row_example =
    modify_row-read_row os (λ id. refl) second_file 2 1 second_block second_index (codes "ab")
      (omega arith) refl refl refl refl refl (omega arith)
