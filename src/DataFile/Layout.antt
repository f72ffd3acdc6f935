-- ===== src/DataFile/Layout.antt =====
-- data_file_row.cc: where `_row_add_record` puts the records and the rows of a block.
use pingkv.Base.{
  ℕ, ◌+◌, ◌-◌, ◌*◌, ◌≤◌, ◌<◌, ◌≡◌, refl, List, [], ◌∷◌, ◌++◌, length, ltb, leb, ◌==◌, if◌then◌else◌,
  arith, length-append,
}
use pingkv.DataFile.{RecordIndex, DataBlock, record_count, area_size, record_size}
use pingkv.DataFile.Block.{last_offset, free_bytes}
use pingkv.DataFile.Row.{new_record, row_add_record}

-- The offsets fall from record to record, from at most `top`.
abbrev pub Descending : ℕ → List RecordIndex → Type 0
Descending top [] = Unit {0}
Descending top (r ∷ rs) = (r.offset ≤ top) × Descending r.offset rs

-- The directory ends where the rows begin, or before.
pub record IsLaidOut (b : DataBlock) : Type 0 where
  pub descending : Descending area_size b.records
  pub apart : record_count b * record_size ≤ last_offset area_size b.records

pub last_offset-append :
    (top : ℕ) (rs : List RecordIndex) (r : RecordIndex) → last_offset top (rs ++ r ∷ []) ≡ r.offset
unfolding last_offset
last_offset-append top [] r = refl
last_offset-append top (s ∷ rs) r = last_offset-append s.offset rs r

pub Descending-append :
    (top : ℕ) (rs : List RecordIndex) (r : RecordIndex)
    → Descending top rs
    → r.offset ≤ last_offset top rs
    → Descending top (rs ++ r ∷ [])
unfolding last_offset
Descending-append top [] r h le = (le, tt)
Descending-append top (s ∷ rs) r (hs, h) le = (hs, Descending-append s.offset rs r h le)

-- On every branch, the free bytes are what lies between the directory with one more record and
-- the rows.
pub free_bytes_lem :
    (b : DataBlock)
    → free_bytes b ≡ last_offset area_size b.records - (record_count b + 1) * record_size
unfolding free_bytes
free_bytes_lem b = go b.records
  where
    go :
        (rs : List RecordIndex)
        → (if length rs == 0
            then area_size - record_size
            else if leb (last_offset area_size rs) ((length rs + 1) * record_size)
            then 0
            else last_offset area_size rs - (length rs + 1) * record_size)
          ≡ last_offset area_size rs - (length rs + 1) * record_size
    go [] = refl
    go (r ∷ rs) = ground arith

-- The bytes of a row of `n` that `_write_row` puts into the block.
abbrev pub part_len : DataBlock → ℕ → ℕ
part_len b n = if ltb (free_bytes b) n then free_bytes b else n

module _ (b : DataBlock) (n : ℕ) (some_room : 0 < free_bytes b) where
  -- The bytes of the new record end where those of the last record begin, and stay behind the
  -- directory with the new record.
  pub new_record_lem :
      let r = new_record b n (ltb (free_bytes b) n) in
      (r.offset + part_len b n ≡ last_offset area_size b.records)
      × ((record_count b + 1) * record_size ≤ r.offset)
  unfolding new_record
  new_record_lem = ground (arith, free_bytes_lem b)

pub row_add_record-IsLaidOut :
    (b : DataBlock) (n : ℕ)
    → 0 < free_bytes b
    → IsLaidOut b
    → IsLaidOut (row_add_record b n (ltb (free_bytes b) n))
unfolding row_add_record
row_add_record-IsLaidOut b n room v =
    let (end, apart) = new_record_lem b n room in
    let r = new_record b n (ltb (free_bytes b) n) in
    record {
      descending = Descending-append area_size b.records r v.descending (omega arith);
      apart =
          omega (arith, length-append b.records (r ∷ []), last_offset-append area_size b.records r);
    }
