-- ===== src/DataFile/History.antt =====
-- data_file.cc: sequences of `write_row` and `read_row`.
use pingkv.Base.{
  ℕ, ◌+◌, ◌≤◌, ◌<◌, ◌≡◌, refl, ap, sym, ◌∙◌, Bool, Option, some, List, [], ◌∷◌, Bytes, length,
  arith,
}
use pingkv.DataFile.{max_block, DataBlock, DataFile, Os, ok, M, pure, load, ◌>>=◌}
use pingkv.DataFile.Block.{free_bytes}
use pingkv.DataFile.File.{write_row, read_row}
use pingkv.DataFile.Stored.{
  Blocks, Stored, Stored-Ext, Ext, Ext-refl, Ext-trans, read_row-Stored, with_cache,
}
use pingkv.DataFile.Valid.{IsValid, Works, Later-Ext}
use pingkv.DataFile.Room.{find_block_can_write-Found}
use pingkv.DataFile.Chain.{write_row_in-Written}

-- `read_row` returns the row, and changes nothing but the cache.
abbrev pub Reads : Os → DataFile → ℕ × ℕ → Bytes → Type 0
Reads os d (id, idx) row =
    (c : List (ℕ × Bool)) × (read_row os id idx d ≡ ok (some row) (with_cache d c))

-- `write_row` on each row of a list; the numbers of the blocks and the records.
unfoldable pub write_rows : Os → List Bytes → M (List (ℕ × ℕ))
write_rows os [] = pure []
write_rows os (row ∷ rows) = do id ← write_row os row; ids ← write_rows os rows; pure (id ∷ ids)

-- Each row is read at its place.
abbrev pub AllRead : Os → DataFile → List (ℕ × ℕ) → List Bytes → Type 0
AllRead os d [] [] = Unit {0}
AllRead os d (id ∷ ids) (row ∷ rows) = Reads os d id row × AllRead os d ids rows
AllRead os d [] (row ∷ rows) = ⊥
AllRead os d (id ∷ ids) [] = ⊥

abbrev pub AllStored : Blocks → List (ℕ × ℕ) → List Bytes → Type 0
AllStored bs [] [] = Unit {0}
AllStored bs ((id, idx) ∷ ids) (row ∷ rows) = Stored bs id idx row × AllStored bs ids rows
AllStored bs [] (row ∷ rows) = ⊥
AllStored bs (id ∷ ids) [] = ⊥

AllStored-Ext :
    {bs cs : Blocks}
    → Ext bs cs
    → (ids : List (ℕ × ℕ)) (rows : List Bytes) → AllStored bs ids rows
    → AllStored cs ids rows
AllStored-Ext x [] [] s = tt
AllStored-Ext x ((id, idx) ∷ ids) (row ∷ rows) (s, ss) =
    (Stored-Ext x s, AllStored-Ext x ids rows ss)
AllStored-Ext x [] (row ∷ rows) s = s
AllStored-Ext x (id ∷ ids) [] s = s

-- A block has one number.
same_number :
    {m : Option DataBlock} (b c : DataBlock) (p : ℕ)
    → m ≡ some b
    → m ≡ some c
    → c.block_id ≡ p
    → b.block_id ≡ p
same_number b c p e e' i = let same : c ≡ b = cc in ap (λ a. a.block_id) (sym same) ∙ i

-- More blocks than a sequence of rows needs: one for each byte, and one for each row.
abbrev pub blocks_for : List Bytes → ℕ
blocks_for [] = 0
blocks_for (row ∷ rows) = length row + 1 + blocks_for rows

module _ (os : Os) (works : Works os) where
  pub write_row-Stored :
      (row : Bytes) (d : DataFile)
      → IsValid d
      → d.info.used_block_count + length row + 129 ≤ max_block
      → (id : ℕ) × (idx : ℕ) × (d' : DataFile) × (write_row os row d ≡ ok (id, idx) d')
        × IsValid d'
        × Ext d.blocks d'.blocks
        × Stored d'.blocks id idx row
        × (d.info.used_block_count ≤ id)
        × (id ≤ d.info.used_block_count + 1)
        × ((b : DataBlock)
            → d.blocks d.info.used_block_count ≡ some b
            → free_bytes b ≡ 0
            → d.info.used_block_count < id)
        × ((j : ℕ) → j < id → j ≤ d.info.block_count → d'.blocks j ≡ d.blocks j)
        × (d'.info.used_block_count ≤ d.info.used_block_count + length row + 1)
  unfolding write_row load
  write_row-Stored row d v le =
      let (d₁, p, found, f) = find_block_can_write-Found os works d v (omega arith) in
      let (idx, d₂, written, w) =
        write_row_in-Written os works (length row + 1) p row d₁ f.block f.later.valid f.here
          f.in_use f.room (omega arith) (omega (arith, f.in_use, f.next)) in
      let v₁ = f.later.valid in
      let (b, e, l, i) =
        v₁.known p (omega (arith, f.in_use, v₁.used_low)) (omega (arith, f.in_use, v₁.used_high)) in
      let number : f.block.block_id ≡ p = same_number f.block b p f.here e i in
      (
        p,
        idx,
        d₂,
        ground (arith, found, written, f.here, number),
        w.valid,
        Ext-trans (Later-Ext os works v f.later) w.ext,
        w.stored,
        omega (arith, f.in_use, f.later.used),
        f.next,
        f.moved,
        λ j lt inside. w.below j lt ∙ f.later.same j inside,
        omega (arith, w.used_le, f.in_use, f.next),
      )

  write_rows-AllStored :
      (rows : List Bytes) (d : DataFile)
      → IsValid d
      → d.info.used_block_count + blocks_for rows + 128 ≤ max_block
      → (ids : List (ℕ × ℕ)) × (d' : DataFile) × (write_rows os rows d ≡ ok ids d')
        × IsValid d'
        × Ext d.blocks d'.blocks
        × AllStored d'.blocks ids rows
  unfolding write_rows
  write_rows-AllStored [] d v le = ([], d, refl, v, Ext-refl d.blocks, tt)
  write_rows-AllStored (row ∷ rows) d v le =
      let (id, idx, d₁, e₁, v₁, x₁, s, _, _, _, _, used) = write_row-Stored row d v (omega arith) in
      let (ids, d₂, e₂, v₂, x₂, ss) = write_rows-AllStored rows d₁ v₁ (omega (arith, used)) in
      ((id, idx) ∷ ids, d₂, ground (arith, e₁, e₂), v₂, Ext-trans x₁ x₂, (Stored-Ext x₂ s, ss))

  AllStored-AllRead :
      (d : DataFile) (ids : List (ℕ × ℕ)) (rows : List Bytes)
      → IsValid d
      → AllStored d.blocks ids rows
      → AllRead os d ids rows
  AllStored-AllRead d [] [] v s = tt
  AllStored-AllRead d ((id, idx) ∷ ids) (row ∷ rows) v (s, ss) = (
    read_row-Stored os works.maps id idx d row s v.beyond v.small,
    AllStored-AllRead d ids rows v ss,
  )
  AllStored-AllRead d [] (row ∷ rows) v s = absurd s
  AllStored-AllRead d (id ∷ ids) [] v s = absurd s

  -- In a valid file with room below the last block that can be mapped for a block for each byte and
  -- each row, and for 128 more: when the system calls succeed, `write_row` on each of the rows succeeds,
  -- the file stays valid, and `read_row` then gives every row at the place that its `write_row`
  -- returned, and every row of a list of rows that were stored before at its place; for a row without
  -- bytes that is the length 0, which the source returns for a deleted row too.
  pub write_rows-read_row :
      (js : List (ℕ × ℕ)) (olds rows : List Bytes) (d : DataFile)
      → IsValid d
      → AllStored d.blocks js olds
      → d.info.used_block_count + blocks_for rows + 128 ≤ max_block
      → (ids : List (ℕ × ℕ)) × (d' : DataFile) × (write_rows os rows d ≡ ok ids d')
        × IsValid d'
        × AllRead os d' ids rows
        × AllRead os d' js olds
  write_rows-read_row js olds rows d v t le =
      let (ids, d', e, v', x, s) = write_rows-AllStored rows d v le in
      (
        ids,
        d',
        e,
        v',
        AllStored-AllRead d' ids rows v' s,
        AllStored-AllRead d' js olds v' (AllStored-Ext x js olds t),
      )
