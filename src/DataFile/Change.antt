-- ===== src/DataFile/Change.antt =====
-- data_file_row.cc: rows that are deleted, and rows that are changed in their place.
use mathlib.Core.Path.{ap₂}
use pingkv.Base.{
  ℕ, zero, suc, ◌+◌, ◌-◌, ◌*◌, ◌≤◌, ◌≡◌, refl, ap, ◌∙◌, Bool, true, false, none, some, List, [],
  ◌∷◌, ◌++◌, Bytes, length, get_elem?, set, arith,
}
use pingkv.Base.Memory.{
  Memory, slice, blit, zeros, slice-blit_above, slice-blit_self, slice_add, slice-zeros, blit-zeros,
}
use pingkv.DataFile.{
  RecordIndex, DataBlock, DataFile, Os, ok, max_block, load, store, update, row_deleted,
  row_migrated, row_chained, row_set_deleted,
}
use pingkv.DataFile.Row.{row_get_record, set_record, read_row_in, modify_row_in, delete_row_in}
use pingkv.DataFile.File.{row_fuel, read_row, modify_row, delete_row}
use pingkv.DataFile.Stored.{Maps, with_cache, read_block-ok}

row_deleted-row_set_deleted : (flags : ℕ) → row_deleted (row_set_deleted flags) ≡ true
unfolding row_deleted row_set_deleted
row_deleted-row_set_deleted flags = ground arith

get_elem?-set {ℓ} :
    {A : Type ℓ}
    → (xs : List A) (i : ℕ) (x y : A) → get_elem? xs i ≡ some x
    → get_elem? (set xs i y) i ≡ some y
get_elem?-set [] i x y e = absurd (cc)
get_elem?-set (z ∷ xs) zero x y e = refl
get_elem?-set (z ∷ xs) (suc i) x y e = get_elem?-set xs i x y e

row_get_record-set_record :
    (b : DataBlock) (idx : ℕ) (r s : RecordIndex)
    → row_get_record b idx ≡ some r
    → row_get_record (set_record b idx s) idx ≡ some s
unfolding row_get_record set_record
row_get_record-set_record b zero r s e = absurd (cc)
row_get_record-set_record b (suc i) r s e = get_elem?-set b.records i r s e

-- A row that is put over bytes 0.
pub slice-padded :
    (m : Memory) (o : ℕ) (row : Bytes) (n : ℕ)
    → length row ≤ n
    → slice (blit (blit m o (zeros n)) o row) o n ≡ row ++ zeros (n - length row)
slice-padded m o row n le =
    let k = n - length row in
    let z = blit m o (zeros n) in
    let whole : n ≡ length row + k = omega arith in
    let tail : slice (blit z o row) (o + length row) k ≡ zeros k =
      slice-blit_above z o row (o + length row) k (omega arith)
      ∙ slice-zeros z (o + length row) k
          (λ i lo hi. blit-zeros m o n i (omega arith) (omega arith)) in
    ap (slice (blit z o row) o) whole
    ∙ slice_add (blit z o row) o (length row) k
    ∙ ap₂ ◌++◌ (slice-blit_self z o row) tail

module _ (os : Os) (maps : Maps os) where
  -- When blocks can be mapped: `delete_row` on a record that exists, in a block whose offset is an
  -- `int`, succeeds, and `read_row` then says that the row is deleted.
  pub delete_row-read_row :
      (d : DataFile) (id idx : ℕ) (b : DataBlock) (r : RecordIndex)
      → id ≤ max_block
      → d.blocks id ≡ some b
      → row_get_record b idx ≡ some r
      → (d' : DataFile) × (delete_row os id idx d ≡ ok tt d')
        × ((c : List (ℕ × Bool)) × (read_row os id idx d' ≡ ok none (with_cache d' c)))
  unfolding delete_row delete_row_in read_row read_row_in load store update
  delete_row-read_row d id idx b r low e got =
      let (c, opened) = read_block-ok os maps id d low in
      let s = record r { flags = row_set_deleted r.flags } in
      let d' = record d { cache = c; blocks = update d.blocks id (set_record b idx s) } in
      let (c', again) = read_block-ok os maps id d' low in
      let fuel : row_fuel d' ≡ suc (d.info.block_count * 511 + 1) = omega arith in
      (
        d',
        ground (arith, opened, e, got),
        (
          c',
          rw fuel (
              ground (
                arith,
                again,
                row_get_record-set_record b idx r s got,
                row_deleted-row_set_deleted r.flags,
              )),
        ),
      )

  -- When blocks can be mapped, and the record is neither deleted, migrated nor chained and in a block
  -- whose offset is an `int`: `modify_row` writes a row that is not longer into the place of the old
  -- one, and `read_row` then gives it with bytes 0 up to the old length.
  pub modify_row-read_row :
      (d : DataFile) (id idx : ℕ) (b : DataBlock) (r : RecordIndex) (row : Bytes)
      → id ≤ max_block
      → d.blocks id ≡ some b
      → row_get_record b idx ≡ some r
      → row_deleted r.flags ≡ false
      → row_migrated r.flags ≡ false
      → row_chained r.flags ≡ false
      → length row ≤ r.len
      → (d' : DataFile) × (modify_row os id idx row d ≡ ok tt d')
        × ((c : List (ℕ × Bool)) × (read_row os id idx d'
              ≡ ok (some (row ++ zeros (r.len - length row))) (with_cache d' c)))
  unfolding modify_row modify_row_in read_row read_row_in row_get_record load store update
  modify_row-read_row d id idx b r row low e got live unmoved single fits =
      let (c, opened) = read_block-ok os maps id d low in
      let area = blit (blit b.area r.offset (zeros r.len)) r.offset row in
      let d' = record d { cache = c; blocks = update d.blocks id (record b { area = area }) } in
      let (c', again) = read_block-ok os maps id d' low in
      let fuel : row_fuel d ≡ suc (d.info.block_count * 511 + 1) = omega arith in
      let fuel' : row_fuel d' ≡ suc (d.info.block_count * 511 + 1) = omega arith in
      (
        d',
        rw fuel (ground (arith, opened, e, got, live, unmoved, single)),
        (
          c',
          rw fuel' (
              ground (
                arith,
                again,
                got,
                live,
                unmoved,
                single,
                slice-padded b.area r.offset row r.len fits,
              )),
        ),
      )
