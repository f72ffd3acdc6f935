-- ===== src/DataFile/Stored.antt =====
-- data_file_row.cc: what it is for a row to be stored in the blocks of a file, and `_read_row` on it.
use pingkv.Base.{
  leb, ℕ, zero, suc, ◌+◌, ◌-◌, ◌*◌, ◌≤◌, ◌<◌, ◌≡◌, ◌∙◌, Bool, true, false, Option, none, some, List,
  [], ◌∷◌, ◌++◌, Bytes, length, ltb, arith, Bool-cases, inl, inr, append_assoc, length-append,
  lt→ltb,
}
use pingkv.Base.Memory.{slice, slice_congr}
use pingkv.DataFile.{
  RecordIndex, DataBlock, DataFile, Os, ok, area_size, max_block, load, update, row_deleted,
  row_migrated, row_chained,
}
use pingkv.DataFile.Block.{last_offset, read_block, cached, uncache}
use pingkv.DataFile.Row.{row_get_record, chain_loop, read_row_in}
use pingkv.DataFile.File.{row_fuel, read_row}
use pingkv.DataFile.Growth.{Part, Grown, Part-Grown, Grown-refl, Grown-trans}

abbrev pub Blocks : Type 0
Blocks = ℕ → Option DataBlock

-- From the record `idx` of block `id` on, the parts of a chain hold the bytes `xs`. Each part stands
-- in a later block than the one before it.
pub data Parts (bs : Blocks) : ℕ → ℕ → Bytes → Type 0 where
  last :
      {id idx : ℕ} {b : DataBlock} {r : RecordIndex} {xs : Bytes}
      → bs id ≡ some b
      → Part b idx r xs
      → Parts bs id idx xs
  more :
      {id idx next next_idx : ℕ} {b : DataBlock} {r : RecordIndex} {xs ys zs : Bytes}
      → bs id ≡ some b
      → Part b idx r xs
      → 0 < length ys
      → r.next_block_id ≡ next
      → r.next_row_idx ≡ next_idx
      → id < next
      → Parts bs next next_idx ys
      → zs ≡ xs ++ ys
      → Parts bs id idx zs

-- The row `xs` is stored at the record `idx` of block `id`, and is neither deleted nor migrated.
pub record Stored (bs : Blocks) (id idx : ℕ) (xs : Bytes) : Type 0 where
  pub block : DataBlock
  pub index : RecordIndex
  pub here : bs id ≡ some block
  pub got : row_get_record block idx ≡ some index
  pub low : last_offset area_size block.records ≤ index.offset
  pub len : index.len ≡ length xs
  pub live : row_deleted index.flags ≡ false
  pub unmoved : row_migrated index.flags ≡ false
  pub parts : Parts bs id idx xs
  pub whole : row_chained index.flags ≡ false → slice block.area index.offset index.len ≡ xs

-- The blocks of `cs` are those of `bs` with records added, and more blocks.
pub record Ext (bs cs : Blocks) : Type 0 where
  pub grown :
      (id : ℕ) {b : DataBlock} → bs id ≡ some b → (c : DataBlock) × (cs id ≡ some c) × Grown b c

pub Ext-refl : (bs : Blocks) → Ext bs bs
Ext-refl bs = record { grown = λ id {b} e. (b, e, Grown-refl b) }

pub Ext-trans : {bs cs ds : Blocks} → Ext bs cs → Ext cs ds → Ext bs ds
Ext-trans x y = record {
  grown = λ id e.
      let (c, e', g) = x.grown id e in
      let (d, e'', g') = y.grown id e' in (d, e'', Grown-trans g g');
}

pub Parts-Ext :
    {bs cs : Blocks} {id idx : ℕ} {xs : Bytes} → Ext bs cs → Parts bs id idx xs → Parts cs id idx xs
Parts-Ext x (last {id} e p) = let (c, e', g) = x.grown id e in last e' (Part-Grown g p)
Parts-Ext x (more {id} e p l n i lt rest s) =
    let (c, e', g) = x.grown id e in more e' (Part-Grown g p) l n i lt (Parts-Ext x rest) s

-- A row that is stored stays stored while records are added.
pub Stored-Ext :
    {bs cs : Blocks} {id idx : ℕ} {xs : Bytes}
    → Ext bs cs
    → Stored bs id idx xs
    → Stored cs id idx xs
Stored-Ext {id} {idx} x s =
    let (c, e, g) = x.grown id s.here in
    record {
      block = c;
      index = s.index;
      here = e;
      got = g.records idx s.got;
      low = omega (arith, g.lower, s.low);
      len = s.len;
      live = s.live;
      unmoved = s.unmoved;
      parts = Parts-Ext x s.parts;
      whole = λ h.
          slice_congr c.area s.block.area s.index.offset s.index.len
            (λ i lo hi. g.area i (omega (arith, s.low)))
          ∙ s.whole h;
    }

-- A write to a block before the first does not touch a chain.
pub Parts-update :
    {bs : Blocks} {id idx : ℕ} {xs : Bytes} (p : ℕ) (b : DataBlock)
    → p < id
    → Parts bs id idx xs
    → Parts (update bs p b) id idx xs
unfolding update
Parts-update {id} p b lt (last e q) = last (ground arith) q
Parts-update {id} p b lt (more e q l n i lt' rest s) =
    more (ground arith) q l n i lt' (Parts-update p b (omega arith) rest) s

-- Every block can be mapped.
abbrev pub Maps : Os → Type 0
Maps os = (id : ℕ) → os.mmap id ≡ true

-- `d` with another cache.
abbrev pub with_cache : DataFile → List (ℕ × Bool) → DataFile
with_cache d c = record d { cache = c }

pub read_block-ok :
    (os : Os)
    → Maps os
    → (id : ℕ) (d : DataFile) → id ≤ max_block
    → (c : List (ℕ × Bool)) × (read_block os id d ≡ ok id (with_cache d c))
unfolding read_block
read_block-ok os maps id d le = elim (Bool-cases (cached id d.cache)) [
  | inl hit ↦ (d.cache, rw hit)
  | inr miss ↦ ((id, true) ∷ uncache id d.cache, ground (arith, miss, maps id, le))
]

-- A block that is there has an offset.
pub mapped_le :
    (d : DataFile) (id : ℕ) (b : DataBlock)
    → ((i : ℕ) → d.info.block_count < i → d.blocks i ≡ none)
    → d.info.block_count ≤ max_block
    → d.blocks id ≡ some b
    → id ≤ max_block
mapped_le d id b beyond small e = elim (Bool-cases (leb id d.info.block_count)) [
  | inl inside ↦ ground arith
  | inr outside ↦ absurd (cc (beyond id (ground arith)))
]

Parts-here :
    {bs : Blocks} {id idx : ℕ} {xs : Bytes}
    → Parts bs id idx xs
    → (b : DataBlock) × (bs id ≡ some b)
Parts-here (last {b = b} e p) = (b, e)
Parts-here (more {b = b} e p l n i lt rest s) = (b, e)

module _ (os : Os) (maps : Maps os) where
  -- The loop of `_read_row` collects the bytes of a chain.
  chain_loop-Parts :
      (fuel id idx : ℕ) (d : DataFile) (xs out : Bytes)
      → Parts d.blocks id idx xs
      → ((i : ℕ) → d.info.block_count < i → d.blocks i ≡ none)
      → d.info.block_count ≤ max_block
      → d.info.block_count < fuel + id
      → (c : List (ℕ × Bool)) × (chain_loop os fuel id idx (length xs) out d
          ≡ ok (out ++ xs) (with_cache d c))
  unfolding chain_loop load
  chain_loop-Parts zero id idx d xs out (last e p) beyond small enough =
      absurd (cc (beyond id (omega arith)))
  chain_loop-Parts zero id idx d xs out (more e p l n i lt rest s) beyond small enough =
      absurd (cc (beyond id (omega arith)))
  chain_loop-Parts (suc fuel) id idx d xs out (last e p) beyond small enough =
      (d.cache, ground (arith, e, p.got, p.len_in_block, p.bytes))
  chain_loop-Parts (suc fuel) id idx d zs out (more {next} {next_idx} {xs} {ys} e p l n i lt rest s)
        beyond small enough =
      let (b', e') = Parts-here rest in
      let (c, opened) = read_block-ok os maps next d (mapped_le d next b' beyond small e') in
      let (c', looped) =
        chain_loop-Parts fuel next next_idx (with_cache d c) ys (out ++ xs) rest beyond small
          (omega arith) in
      let lengths : length zs ≡ length xs + length ys = rw s (length-append xs ys) in
      let left : length zs - length xs ≡ length ys = omega arith in
      let more_left : ltb (length xs) (length zs) ≡ true = lt→ltb _ _ (omega arith) in
      (
        c',
        ground (arith, e, p.got, p.len_in_block, p.bytes, opened, looped, append_assoc out xs ys),
      )

  -- A stored row is read whole, and reading changes no block.
  read_row_in-Stored :
      (fuel id idx : ℕ) (d : DataFile) (xs : Bytes)
      → Stored d.blocks id idx xs
      → ((i : ℕ) → d.info.block_count < i → d.blocks i ≡ none)
      → d.info.block_count ≤ max_block
      → d.info.block_count < fuel
      → (c : List (ℕ × Bool)) × (read_row_in os (suc fuel) id idx d ≡ ok (some xs) (with_cache d c))
  unfolding read_row_in load
  read_row_in-Stored fuel id idx d xs s beyond small enough =
      let (c, opened) = read_block-ok os maps id d (mapped_le d id s.block beyond small s.here) in
      elim (Bool-cases (row_chained s.index.flags)) [
        | inl chained ↦
            let (c', looped) =
              chain_loop-Parts fuel id idx (with_cache d c) xs [] s.parts beyond small
                (omega arith) in
            (c', ground (arith, opened, looped, s.here, s.got, s.live, s.unmoved, s.len))
        | inr single ↦ (c, ground (arith, opened, s.here, s.got, s.live, s.unmoved, s.whole single))
      ]

  -- `read_row` is given enough fuel for every stored row.
  pub read_row-Stored :
      (id idx : ℕ) (d : DataFile) (xs : Bytes)
      → Stored d.blocks id idx xs
      → ((i : ℕ) → d.info.block_count < i → d.blocks i ≡ none)
      → d.info.block_count ≤ max_block
      → (c : List (ℕ × Bool)) × (read_row os id idx d ≡ ok (some xs) (with_cache d c))
  unfolding read_row
  read_row-Stored id idx d xs s beyond small =
      let (c, e) =
        read_row_in-Stored (d.info.block_count * 511 + 1) id idx d xs s beyond small
          (omega arith) in
      let fuel : row_fuel d ≡ suc (d.info.block_count * 511 + 1) = omega arith in (c, rw fuel e)
