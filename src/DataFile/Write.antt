-- ===== src/DataFile/Write.antt =====
-- data_file_row.cc: the records and the blocks that one call of `_write_row` makes.
use native.Mathlib.Numerals.{add-one}
use mathlib.Core.Path.{subst}
use pingkv.Base.{
  ℕ, ◌+◌, ◌≤◌, ◌<◌, ◌≡◌, ◌≢◌, refl, sym, ◌∙◌, Bool, true, false, some, [], ◌∷◌, ◌++◌, Bytes, length,
  take, drop, ltb, ◌==◌, arith, Bool-cases, inl, inr, ==→eq, ltb→lt, set-append_at,
  take-append-drop, length-drop, take_of_length-le, length-append,
}
use pingkv.DataFile.{
  RecordIndex, DataBlock, DataFile, record_count, area_size, update, row_deleted, row_migrated,
  row_chained, row_set_chained,
}
use pingkv.DataFile.Block.{free_bytes}
use pingkv.DataFile.Row.{new_record, row_add_record, set_record}
use pingkv.DataFile.Layout.{IsLaidOut, free_bytes_lem, part_len, last_offset-append}
use pingkv.DataFile.Growth.{Part, Grown, after_write, after_write-Part}
use pingkv.DataFile.Stored.{Blocks, Stored, Parts, last, more, Ext}
use pingkv.DataFile.Valid.{IsValid}

-- A write to a block in use keeps the invariant.
pub update-IsValid :
    (d : DataFile) (p : ℕ) (b : DataBlock)
    → IsValid d
    → 2 ≤ p
    → p ≤ d.info.used_block_count
    → IsLaidOut b
    → b.block_id ≡ p
    → IsValid (record d { blocks = update d.blocks p b })
unfolding update
update-IsValid d p b v lo hi l i = record {
  used_low = v.used_low;
  used_high = v.used_high;
  small = v.small;
  known = λ id low high. elim (Bool-cases (id == p)) [
    | inl here ↦ (b, rw here, l, i ∙ sym (==→eq _ _ here))
    | inr there ↦ let (c, e, l', i') = v.known id low high in (c, rw there e, l', i')
  ];
  fresh =
      λ id c lt e. v.fresh id c lt (let there : (id == p) ≡ false = ground arith in rw there at e);
  beyond = λ id lt. ground (arith, v.beyond id lt, v.used_high);
}

-- The block `p` replaced by one that has grown from it.
pub Ext-update :
    {bs cs : Blocks} (p : ℕ) (b c : DataBlock)
    → bs p ≡ some b
    → Grown b c
    → ((id : ℕ) (a : DataBlock)
        → id ≢ p
        → bs id ≡ some a
        → (a' : DataBlock) × (cs id ≡ some a') × Grown a a')
    → Ext bs (update cs p c)
unfolding update
Ext-update {bs} p b c e g others = record {
  grown = λ id {b = a} h. elim (Bool-cases (id == p)) [
    | inl here ↦
        (c, rw here, let at_p : id ≡ p = ==→eq _ _ here in let same : a ≡ b = cc in rw same g)
    | inr there ↦ let (a', e', g') = others id a (ground arith) h in (a', rw there e', g')
  ];
}

-- What `_write_row` does when it returns the number `idx`.
pub record Written (d d' : DataFile) (p idx : ℕ) (row : Bytes) : Type 0 where
  pub valid : IsValid d'
  pub ext : Ext d.blocks d'.blocks
  pub used : d.info.used_block_count ≤ d'.info.used_block_count
  pub used_le : d'.info.used_block_count ≤ d.info.used_block_count + length row
  pub below : (id : ℕ) → id < p → d'.blocks id ≡ d.blocks id
  pub block : DataBlock
  pub here : d'.blocks p ≡ some block
  pub number : block.block_id ≡ p
  pub stored : Stored d'.blocks p idx row

pub set_added :
    (b : DataBlock) (n : ℕ) (chained : Bool) (r : RecordIndex)
    → set_record (row_add_record b n chained) (record_count b + 1) r
      ≡ record b { records = b.records ++ r ∷ [] }
unfolding set_record row_add_record
set_added b n chained r = rw (add-one, set_record, set-append_at)

pub new_record-len : (b : DataBlock) (n : ℕ) (chained : Bool) → (new_record b n chained).len ≡ n
unfolding new_record
new_record-len b n chained = refl

-- The records and the blocks that a write makes, in the block `b` with room.
module _ (b : DataBlock) (row : Bytes) (room : 0 < free_bytes b) where
  abbrev first_record : RecordIndex
  first_record = new_record b (length row) (ltb (free_bytes b) (length row))

  -- The block of a row that fits.
  abbrev pub single : DataBlock
  single =
      after_write b row first_record room refl
        (new_record-len b (length row) (ltb (free_bytes b) (length row)))

  module _ (fits : ltb (free_bytes b) (length row) ≡ false) where
    single-Part : Part single (length b.records + 1) first_record row
    single-Part =
        let all : take (part_len b (length row)) row ≡ row =
          rw fits (take_of_length-le (length row) row (omega arith)) in
        subst (Part single (length b.records + 1) first_record) all (
          after_write-Part b row first_record room refl
            (new_record-len b (length row) (ltb (free_bytes b) (length row))))

    pub single-Stored :
        {bs : Blocks} (p : ℕ) → bs p ≡ some single → Stored bs p (length b.records + 1) row
    unfolding new_record row_deleted row_migrated row_chained
    single-Stored p e = record {
      block = single;
      index = first_record;
      here = e;
      got = single-Part.got;
      low = single-Part.low;
      len = refl;
      live = rw fits;
      unmoved = rw fits;
      parts = last e single-Part;
      whole = λ _. single-Part.bytes;
    }

  -- The block of a row that goes on in the block `q` with the record `next`.
  module _ (q next : ℕ) where
    abbrev pub chained_record : RecordIndex
    chained_record = record first_record { next_block_id = q; next_row_idx = next }

    abbrev pub chained : DataBlock
    chained =
        after_write b row chained_record room refl
          (new_record-len b (length row) (ltb (free_bytes b) (length row)))

    pub chained-Stored :
        {bs : Blocks} (p : ℕ)
        → ltb (free_bytes b) (length row) ≡ true
        → bs p ≡ some chained
        → p < q
        → Parts bs q next (drop (free_bytes b) row)
        → Stored bs p (length b.records + 1) row
    unfolding new_record row_set_chained row_deleted row_migrated row_chained
    chained-Stored p long e lt rest =
        let part = after_write-Part b row chained_record room refl refl in
        record {
          block = chained;
          index = chained_record;
          here = e;
          got = part.got;
          low = part.low;
          len = refl;
          live = rw long;
          unmoved = rw long;
          parts =
              more e part (omega (arith, length-drop (free_bytes b) row, ltb→lt _ _ long)) refl refl
                lt rest (rw long (sym (take-append-drop (free_bytes b) row)));
          whole = λ h. let on : true ≡ false = rw long at h in absurd (cc);
        }

-- A block in which a chained row begins is full.
pub chained-full : (b : DataBlock) (n : ℕ) → free_bytes (row_add_record b n true) ≡ 0
unfolding row_add_record new_record
chained-full b n =
    let r = new_record b n true in
    omega (
      arith,
      free_bytes_lem (row_add_record b n true),
      length-append b.records (r ∷ []),
      last_offset-append area_size b.records r,
    )

-- `d` with the block `p` written.
abbrev pub stored_at : DataFile → ℕ → DataBlock → DataFile
stored_at d p b = record d { blocks = update d.blocks p b }
