-- ===== src/DataFile/InPlace.antt =====
-- data_file_row.cc: a row that is changed in its place, and the rows of later blocks.
use mathlib.Core.Path.{subst}
use pingkv.Base.{
  ℕ, zero, suc, ◌+◌, ◌*◌, ◌≤◌, ◌<◌, ◌≡◌, refl, ap, sym, ◌∙◌, Bool, false, some, List, [], ◌∷◌,
  Bytes, length, get_elem?, ◌==◌, arith, Bool-cases, inl, inr, ==→eq,
}
use pingkv.Base.Memory.{slice, blit, zeros}
use pingkv.DataFile.{
  RecordIndex, DataBlock, DataFile, Os, ok, max_block, load, store, update, row_deleted,
  row_migrated, row_chained, row_set_deleted, area_size,
}
use pingkv.DataFile.Block.{last_offset}
use pingkv.DataFile.Row.{row_get_record, set_record, read_row_in, modify_row_in, delete_row_in}
use pingkv.DataFile.File.{row_fuel, read_row, modify_row, delete_row}
use pingkv.DataFile.Layout.{IsLaidOut, Descending}
use pingkv.DataFile.Stored.{Blocks, Stored, Parts-update, Maps, with_cache, read_block-ok}
use pingkv.DataFile.Valid.{IsValid}

-- The block with the row in the place of the record.
abbrev pub in_place : DataBlock → RecordIndex → Bytes → DataBlock
in_place b r row = record b { area = blit (blit b.area r.offset (zeros r.len)) r.offset row }

abbrev pub changed : DataFile → List (ℕ × Bool) → ℕ → DataBlock → DataFile
changed d c id b = record d { cache = c; blocks = update d.blocks id b }

pub modify_row_runs :
    (os : Os) (d : DataFile) (id idx : ℕ) (b : DataBlock) (r : RecordIndex) (row : Bytes)
    → Maps os
    → id ≤ max_block
    → d.blocks id ≡ some b
    → row_get_record b idx ≡ some r
    → row_deleted r.flags ≡ false
    → row_migrated r.flags ≡ false
    → row_chained r.flags ≡ false
    → length row ≤ r.len
    → (c : List (ℕ × Bool)) × (modify_row os id idx row d
        ≡ ok tt (changed d c id (in_place b r row)))
unfolding modify_row modify_row_in row_get_record load store
modify_row_runs os d id idx b r row maps low e got live unmoved single fits =
    let (c, opened) = read_block-ok os maps id d low in
    let fuel : row_fuel d ≡ suc (d.info.block_count * 511 + 1) = omega arith in
    (c, rw fuel (ground (arith, opened, e, got, live, unmoved, single)))

-- A row that begins behind a block stays stored when the block is written.
pub Stored-update :
    {bs : Blocks} {id idx : ℕ} {xs : Bytes} (p : ℕ) (b : DataBlock)
    → p < id
    → Stored bs id idx xs
    → Stored (update bs p b) id idx xs
unfolding update
Stored-update p b lt s = record {
  block = s.block;
  index = s.index;
  here = ground (arith, s.here);
  got = s.got;
  low = s.low;
  len = s.len;
  live = s.live;
  unmoved = s.unmoved;
  parts = Parts-update p b lt s.parts;
  whole = s.whole;
}

-- A change in place keeps the file valid.
pub changed-IsValid :
    (d : DataFile) (c : List (ℕ × Bool)) (id : ℕ) (b : DataBlock) (r : RecordIndex) (row : Bytes)
    → IsValid d
    → 2 ≤ id
    → id ≤ d.info.used_block_count
    → d.blocks id ≡ some b
    → IsValid (changed d c id (in_place b r row))
unfolding update
changed-IsValid d c id b r row v lo hi e = record {
  used_low = v.used_low;
  used_high = v.used_high;
  small = v.small;
  known = λ j low high. elim (Bool-cases (j == id)) [
    | inl here ↦
        let (b₁, e₁, l, i) = v.known j low high in
        let at : j ≡ id = ==→eq _ _ here in
        let e₂ : d.blocks j ≡ some b = rw at e in
        let same : b₁ ≡ b = cc in
        let l₂ : IsLaidOut b = subst IsLaidOut same l in
        (
          in_place b r row,
          rw here refl,
          record { descending = l₂.descending; apart = l₂.apart },
          ap (λ a. a.block_id) (sym same) ∙ i,
        )
    | inr there ↦ let (b₁, e₁, l, i) = v.known j low high in (b₁, rw there e₁, l, i)
  ];
  fresh = λ j b₁ lt e₁.
      v.fresh j b₁ lt (let there : (j == id) ≡ false = ground arith in rw there at e₁);
  beyond = λ j lt. ground (arith, v.beyond j lt, v.used_high);
}

pub length-get_elem? :
    {A : Type 0} (xs : List A) (i : ℕ) (x : A) → get_elem? xs i ≡ some x → i < length xs
length-get_elem? [] i x e = absurd (cc)
length-get_elem? (y ∷ xs) zero x e = omega arith
length-get_elem? (y ∷ xs) (suc i) x e = omega (arith, length-get_elem? xs i x e)

last_offset_le : (top : ℕ) (rs : List RecordIndex) → Descending top rs → last_offset top rs ≤ top
unfolding last_offset
last_offset_le top [] h = omega arith
last_offset_le top (r ∷ rs) (le, h) = omega (arith, last_offset_le r.offset rs h)

-- The number of a record in a block that is laid out.
pub record_number :
    (b : DataBlock) (idx : ℕ) (r : RecordIndex)
    → IsLaidOut b
    → row_get_record b idx ≡ some r
    → (0 < idx) × (idx ≤ 510)
unfolding row_get_record
record_number b zero r l e = absurd (cc)
record_number b (suc i) r l e = (
  omega arith,
  omega (
    arith,
    length-get_elem? b.records i r e,
    l.apart,
    last_offset_le area_size b.records l.descending,
  ),
)

-- A row in one part, which is neither deleted nor migrated.
pub read_row_runs :
    (os : Os) (d : DataFile) (id idx : ℕ) (b : DataBlock) (r : RecordIndex)
    → Maps os
    → id ≤ max_block
    → d.blocks id ≡ some b
    → row_get_record b idx ≡ some r
    → row_deleted r.flags ≡ false
    → row_migrated r.flags ≡ false
    → row_chained r.flags ≡ false
    → (c : List (ℕ × Bool)) × (read_row os id idx d
        ≡ ok (some (slice b.area r.offset r.len)) (with_cache d c))
unfolding read_row read_row_in row_get_record load
read_row_runs os d id idx b r maps low e got live unmoved single =
    let (c, opened) = read_block-ok os maps id d low in
    let fuel : row_fuel d ≡ suc (d.info.block_count * 511 + 1) = omega arith in
    (c, rw fuel (ground (arith, opened, e, got, live, unmoved, single)))

pub delete_row_runs :
    (os : Os) (d : DataFile) (id idx : ℕ) (b : DataBlock) (r : RecordIndex)
    → Maps os
    → id ≤ max_block
    → d.blocks id ≡ some b
    → row_get_record b idx ≡ some r
    → (c : List (ℕ × Bool)) × (delete_row os id idx d
        ≡ ok tt (changed d c id (set_record b idx (record r { flags = row_set_deleted r.flags }))))
unfolding delete_row delete_row_in row_get_record load store
delete_row_runs os d id idx b r maps low e got =
    let (c, opened) = read_block-ok os maps id d low in (c, ground (arith, opened, e, got))
