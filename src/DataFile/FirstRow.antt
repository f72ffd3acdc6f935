-- ===== src/DataFile/FirstRow.antt =====
-- data_file.cc: the first row of a block.
use pingkv.Base.{ℕ, suc, ◌+◌, ◌≤◌, ◌≡◌, ap, ◌∙◌, false, some, [], Bytes, length, take, ltb, arith}
use pingkv.Base.Memory.{blit}
use pingkv.DataFile.{DataBlock, DataFile, Os, ok, load, store, update, record_count, max_block}
use pingkv.DataFile.Block.{free_bytes, find_block_can_write}
use pingkv.DataFile.Row.{new_record, row_add_record, write_row_in}
use pingkv.DataFile.File.{write_row}
use pingkv.DataFile.Room.{find_block_can_write-Found}
use pingkv.DataFile.Valid.{IsValid, Works}

-- The block with the row.
abbrev pub first_block : DataBlock → Bytes → DataBlock
first_block b row = record (row_add_record b (length row) false) {
  area = blit b.area (new_record b (length row) false).offset (take (length row) row);
}

abbrev pub first_added : DataFile → ℕ → DataBlock → Bytes → DataFile
first_added d p b row = record d {
  blocks = update (update d.blocks p (row_add_record b (length row) false)) p (first_block b row);
}

write_first :
    (os : Os) (fuel p : ℕ) (row : Bytes) (d : DataFile) (b : DataBlock)
    → d.blocks p ≡ some b
    → ltb (free_bytes b) (length row) ≡ false
    → write_row_in os (suc fuel) p row d ≡ ok (record_count b + 1) (first_added d p b row)
unfolding write_row_in load store update
write_first os fuel p row d b e fits = ground (arith, e, fits)

free-no_records : (b : DataBlock) → b.records ≡ [] → free_bytes b ≡ 8152
unfolding free_bytes
free-no_records b e = rw e

module _ (os : Os) (works : Works os) where
  pub write_row_first :
      (d : DataFile) (p : ℕ) (b : DataBlock) (row : Bytes)
      → IsValid d
      → d.info.used_block_count + 128 ≤ max_block
      → d.info.used_block_count ≡ p
      → d.blocks p ≡ some b
      → b.records ≡ []
      → b.block_id ≡ p
      → length row ≤ 8152
      → (d₁ : DataFile) × (write_row os row d ≡ ok (p, 1) (first_added d₁ p b row))
  unfolding write_row load row_add_record
  write_row_first d p b row v small in_use e empty number fits =
      let (d₁, q, found, f) = find_block_can_write-Found os works d v small in
      let free = free-no_records b empty in
      let at_p : q ≡ p = f.stays b (ap d.blocks in_use ∙ e) (omega arith) ∙ in_use in
      let found_p : find_block_can_write os d ≡ ok p d₁ = found ∙ ap (λ x. ok x d₁) at_p in
      let here : d₁.blocks p ≡ some b = f.later.same p (omega (arith, v.used_high)) ∙ e in
      let room : ltb (free_bytes b) (length row) ≡ false = ground (arith, free, fits) in
      let written = write_first os (length row) p row d₁ b here room in
      let fuel : length row + 1 ≡ suc (length row) = omega arith in
      let one : record_count b + 1 ≡ 1 = ap (λ rs. length rs + 1) empty in
      (d₁, ground (arith, found_p, here, fuel, written, one, number))
