-- ===== src/DataFile/Growth.antt =====
-- data_file_row.cc: the bytes of one record in its block, and blocks to which records are added.
use native.Mathlib.Numerals.{add-one}
use pingkv.Base.{
  ℕ, zero, suc, ◌+◌, ◌*◌, ◌≤◌, ◌<◌, ◌≡◌, refl, ◌∙◌, some, List, [], ◌∷◌, ◌++◌, Bytes, length,
  get_elem?, ltb, arith, length-append, take, length-take, get_elem?-append_left,
  get_elem?-append_at, get_elem?-before,
}
use pingkv.Base.Memory.{slice, blit, slice_congr, blit-above, slice-blit_self}
use pingkv.DataFile.{RecordIndex, DataBlock, record_count, area_size, record_size}
use pingkv.DataFile.Block.{last_offset, free_bytes}
use pingkv.DataFile.Row.{new_record, row_get_record, row_top, row_get_len_in_block}
use pingkv.DataFile.Layout.{
  IsLaidOut, new_record_lem, part_len, last_offset-append, Descending-append,
}

-- The record with the number `idx` is `r`, and its bytes in this block are `xs`.
pub record Part (b : DataBlock) (idx : ℕ) (r : RecordIndex) (xs : Bytes) : Type 0 where
  pub got : row_get_record b idx ≡ some r
  pub len_in_block : row_get_len_in_block b idx r ≡ some (length xs)
  pub low : last_offset area_size b.records ≤ r.offset
  pub bytes : slice b.area r.offset (length xs) ≡ xs

-- `c` is `b` with records added and their bytes written.
pub record Grown (b c : DataBlock) : Type 0 where
  pub records :
      (idx : ℕ) {r : RecordIndex} → row_get_record b idx ≡ some r → row_get_record c idx ≡ some r
  pub tops :
      (idx : ℕ) {r : RecordIndex} → row_get_record b idx ≡ some r → row_top c idx ≡ row_top b idx
  pub lower : last_offset area_size c.records ≤ last_offset area_size b.records
  pub area : (i : ℕ) → last_offset area_size b.records ≤ i → c.area i ≡ b.area i

pub Grown-refl : (b : DataBlock) → Grown b b
Grown-refl b = record {
  records = λ idx e. e;
  tops = λ idx e. refl;
  lower = omega arith;
  area = λ i le. refl;
}

pub Grown-trans : {b c d : DataBlock} → Grown b c → Grown c d → Grown b d
Grown-trans g h = record {
  records = λ idx e. h.records idx (g.records idx e);
  tops = λ idx e. h.tops idx (g.records idx e) ∙ g.tops idx e;
  lower = omega (arith, g.lower, h.lower);
  area = λ i le. h.area i (omega (arith, g.lower)) ∙ g.area i le;
}

pub Part-Grown :
    {b c : DataBlock} {idx : ℕ} {r : RecordIndex} {xs : Bytes}
    → Grown b c
    → Part b idx r xs
    → Part c idx r xs
unfolding row_get_len_in_block
Part-Grown {b} {c} {idx} {r} {xs} g p = record {
  got = g.records idx p.got;
  len_in_block = rw (g.tops idx p.got) p.len_in_block;
  low = omega (arith, g.lower, p.low);
  bytes =
      slice_congr c.area b.area r.offset (length xs) (λ i lo hi. g.area i (omega (arith, p.low)))
      ∙ p.bytes;
}

-- A block with records behind those that it has, and the same bytes from the last offset on.
pub Grown-append :
    (b c : DataBlock) (rs : List RecordIndex)
    → c.records ≡ b.records ++ rs
    → last_offset area_size c.records ≤ last_offset area_size b.records
    → ((i : ℕ) → last_offset area_size b.records ≤ i → c.area i ≡ b.area i)
    → Grown b c
unfolding row_get_record row_top
Grown-append b c rs e le same = record { records = old; tops = old_top; lower = le; area = same }
  where
    old :
        (idx : ℕ) {r : RecordIndex} → row_get_record b idx ≡ some r → row_get_record c idx ≡ some r
    old zero h = absurd (cc)
    old (suc i) h = rw e (get_elem?-append_left b.records rs i h)

    old_top :
        (idx : ℕ) {r : RecordIndex} → row_get_record b idx ≡ some r → row_top c idx ≡ row_top b idx
    old_top zero h = refl
    old_top (suc zero) h = refl
    old_top (suc (suc i)) h =
        let (s, before) = get_elem?-before b.records i h in
        rw (e, row_top, get_elem?-append_left b.records rs i before, before)

last_record :
    (r : RecordIndex) (rs : List RecordIndex)
    → (s : RecordIndex) × (get_elem? (r ∷ rs) (length rs) ≡ some s)
      × (s.offset ≡ last_offset r.offset rs)
unfolding last_offset
last_record r [] = (r, refl, refl)
last_record r (s ∷ rs) = last_record s rs

-- The end of the bytes of a record that is added behind the records `rs`.
top_of_added :
    (c : DataBlock) (rs extra : List RecordIndex)
    → c.records ≡ rs ++ extra
    → row_top c (length rs + 1) ≡ last_offset area_size rs
unfolding row_top last_offset
top_of_added c [] extra e = refl
top_of_added c (r ∷ rs) extra e =
    let (s, found, o) = last_record r rs in
    let n = length rs in
    let two : suc n + 1 ≡ suc (suc n) = omega arith in
    rw (two, e, row_top, get_elem?-append_left (r ∷ rs) extra n found) o

row_get_added :
    (b : DataBlock) (rs : List RecordIndex) (r : RecordIndex)
    → b.records ≡ rs ++ r ∷ []
    → row_get_record b (length rs + 1) ≡ some r
unfolding row_get_record
row_get_added b rs r e = rw (add-one, e) (get_elem?-append_at rs [] r)

-- A block `b` with room, and the record `r` that `_write_row` makes for the row, up to the fields
-- that lead on to the next part.
module _ (b : DataBlock) (row : Bytes) (r : RecordIndex) (room : 0 < free_bytes b)
    (same_offset : r.offset ≡ (new_record b (length row) (ltb (free_bytes b) (length row))).offset)
    (same_len : r.len ≡ length row) where
  -- The block after `_write_row`.
  abbrev pub after_write : DataBlock
  after_write = record b {
    records = b.records ++ r ∷ [];
    area = blit b.area r.offset (take (part_len b (length row)) row);
  }

  ends :
      (r.offset + part_len b (length row) ≡ last_offset area_size b.records)
      × ((record_count b + 1) * record_size ≤ r.offset)
  ends = rw same_offset (new_record_lem b (length row) room)

  length-part : length (take (part_len b (length row)) row) ≡ part_len b (length row)
  length-part = let (end, _) = ends in ground (arith, length-take (part_len b (length row)) row)

  pub after_write-IsLaidOut : IsLaidOut b → IsLaidOut after_write
  after_write-IsLaidOut v =
      let (end, apart) = ends in
      record {
        descending = Descending-append area_size b.records r v.descending (omega arith);
        apart =
            omega
              (arith, length-append b.records (r ∷ []), last_offset-append area_size b.records r);
      }

  pub after_write-Grown : Grown b after_write
  after_write-Grown =
      let (end, apart) = ends in
      Grown-append b after_write (r ∷ []) refl
        (omega (arith, last_offset-append area_size b.records r))
        (λ i le. blit-above b.area r.offset _ i (omega (arith, length-part)))

  pub after_write-Part :
      Part after_write (length b.records + 1) r (take (part_len b (length row)) row)
  unfolding row_get_len_in_block
  after_write-Part =
      let (end, apart) = ends in
      record {
        got = row_get_added after_write b.records r refl;
        len_in_block =
            ground (arith, length-part, top_of_added after_write b.records (r ∷ []) refl);
        low = omega (arith, last_offset-append area_size b.records r);
        bytes = slice-blit_self b.area r.offset _;
      }
