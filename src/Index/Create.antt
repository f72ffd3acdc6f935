-- ===== src/Index/Create.antt =====
-- kv_index.cc: the root of a file that `_open` creates.
use mathlib.Core.Path.{subst}
use pingkv.Base.{
  ℕ, ◌≡◌, refl, ap, sym, ◌∙◌, true, false, some, [], ◌∷◌, ◌++◌, Bytes, length, take,
  take_of_length-le, arith,
}
use pingkv.Base.Memory.{Memory, slice, blit, length-slice, slice-blit_self}
use pingkv.DataFile.{
  RecordIndex, DataBlock, DataFile, Os, ok, load, update, row_deleted, row_migrated, row_chained,
}
use pingkv.DataFile.Block.{last_offset, free_bytes, block_free_bytes}
use pingkv.DataFile.Create.{create_file-IsValid}
use pingkv.DataFile.File.{closed, exists}
use pingkv.DataFile.FirstRow.{first_block, first_added, write_row_first}
use pingkv.DataFile.History.{write_row-Stored}
use pingkv.DataFile.Row.{new_record, row_add_record, row_get_record}
use pingkv.DataFile.Stored.{with_cache, read_block-ok}
use pingkv.DataFile.Valid.{IsValid, Works}
use pingkv.Index.{node_len, head_block_id, get_int, put_int}
use pingkv.Index.Fields.{get_int_congr}
use pingkv.Index.Insert.{IsNode}
use pingkv.Index.Keys.{root_node, create_root, create_if_new, open_in}
use pingkv.Index.Root.{root_of, HasRoot}
use pingkv.Index.SetGet.{root_bytes, agree-IsNode, with_cache-IsValid}
use pingkv.Index.Values.{IsIndex}

-- The row of the root.
abbrev root_row : Bytes
root_row = slice root_node 0 node_len

root_row_size : length root_row ≡ 8152
root_row_size = length-slice root_node 0 node_len

root_node-IsNode : IsNode root_node []
unfolding get_int put_int blit
root_node-IsNode = record { count_ok = refl; holds = tt }

root_node_number : head_block_id root_node ≡ 2
unfolding get_int put_int blit
root_node_number = refl

-- A block without records that gets the row of the root.
module _ (b : DataBlock) (empty : b.records ≡ []) where
  abbrev index : RecordIndex
  index = new_record b (length root_row) false

  index_offset : index.offset ≡ 16
  unfolding new_record last_offset
  index_offset = rw (empty, root_row_size) refl

  abbrev block : DataBlock
  block = first_block b root_row

  records_one : block.records ≡ index ∷ []
  unfolding row_add_record
  records_one = ap (λ rs. rs ++ index ∷ []) empty

  block_full : free_bytes block ≡ 0
  unfolding free_bytes last_offset
  block_full = rw (free_bytes, records_one, index_offset) refl

  block_root : root_of block index ≡ blit (λ _. 0) 0 root_row
  unfolding new_record row_add_record
  block_root =
      let all : take (length root_row) root_row ≡ root_row =
        take_of_length-le (length root_row) root_row (omega arith) in
      ap (blit (λ _. 0) 0) (
        ap (slice block.area index.offset) (sym root_row_size)
        ∙ ap (λ xs. slice (blit b.area index.offset xs) index.offset (length root_row)) all
        ∙ slice-blit_self b.area index.offset root_row)

  new-HasRoot : (d : DataFile) → d.blocks 2 ≡ some block → HasRoot d []
  unfolding new_record row_add_record row_get_record row_deleted row_migrated row_chained
      last_offset
  new-HasRoot d here = record {
    block = block;
    index = index;
    here = here;
    got = rw empty refl;
    full = block_full;
    low = rw (records_one, last_offset) (omega arith);
    len = root_row_size;
    live = refl;
    unmoved = refl;
    single = refl;
    number = rw block_root (
        get_int_congr 4 _ root_node 0 (λ i lo hi. root_bytes root_node i (omega arith))
        ∙ root_node_number);
    node =
        rw block_root
          (agree-IsNode _ root_node [] (root_bytes root_node) (omega arith) root_node-IsNode);
  }

first_here :
    (d : DataFile) (p : ℕ) (b : DataBlock)
    → (first_added d p b root_row).blocks p ≡ some (first_block b root_row)
unfolding update
first_here d p b = ground arith

module _ (os : Os) (fresh : Memory) (works : Works os) where
  -- The root is written to a file without rows.
  create_root-IsIndex :
      (d : DataFile) (b : DataBlock)
      → IsValid d
      → d.info.used_block_count ≡ 2
      → d.blocks 2 ≡ some b
      → b.records ≡ []
      → b.block_id ≡ 2
      → (d' : DataFile) × (create_root os fresh d ≡ ok tt d') × IsIndex d' []
  unfolding create_root
  create_root-IsIndex d b v two e empty number =
      let (d₁, writes) =
        write_row_first os works d 2 b root_row v (omega (arith, two)) two e empty number
          (omega (arith, root_row_size)) in
      let (id, idx, d', same_run, v', x, s, _, _, _, _, _) =
        write_row-Stored os works root_row d v (omega (arith, two, root_row_size)) in
      let same : d' ≡ first_added d₁ 2 b root_row = cc in
      (
        first_added d₁ 2 b root_row,
        ground (arith, writes),
        record {
          valid = subst IsValid same v';
          root = new-HasRoot b empty (first_added d₁ 2 b root_row) (first_here d₁ 2 b);
          values = tt;
        },
      )

  -- `_open` of a file that does not exist creates it, when it is asked to, the system calls succeed and
  -- the read through the pointer to the freed name gives some bytes: the file is valid, and its root has
  -- no keys.
  pub open_in-IsIndex :
      (dbname name : Bytes) (file_id : ℕ)
      → os.freed_name (take 15 dbname) ≡ some name
      → os.open_file ≡ true
      → os.msync ≡ true
      → (d : DataFile) × (open_in os fresh dbname file_id true false 2 closed ≡ ok tt d)
        × IsIndex d []
  unfolding open_in exists create_if_new block_free_bytes load free_bytes
  open_in-IsIndex dbname name file_id named opened synced =
      let (d, created, v, blank, count, two, ready, _) =
        create_file-IsValid os works dbname name file_id named opened synced in
      let (b, e, l, number, empty) = blank.known 2 (omega arith) (omega arith) in
      let (c, mapped) = read_block-ok os works.maps 2 d (omega arith) in
      let (d', root, x) =
        create_root-IsIndex (with_cache d c) b (with_cache-IsValid d c v) two e empty number in
      (d', ground (arith, created, ready, two, mapped, e, empty, root), x)
