-- ===== src/DataFile/Chain.antt =====
-- data_file_row.cc: `_write_row`, by induction on the blocks that a row goes through.
use mathlib.Core.Path.{subst}
use pingkv.Base.{
  ℕ, zero, suc, ◌+◌, ◌≤◌, ◌<◌, ◌≡◌, ◌≢◌, refl, ap, sym, ◌∙◌, true, false, some, Bytes, length, drop,
  ltb, arith, Bool-cases, inl, inr, ltb→lt, length-drop,
}
use pingkv.DataFile.{DataBlock, DataFile, Os, ok, record_count, load, store, update, max_block}
use pingkv.DataFile.Block.{free_bytes, find_block_can_write}
use pingkv.DataFile.Row.{new_record, row_add_record, set_record, write_row_in}
use pingkv.DataFile.Layout.{IsLaidOut, row_add_record-IsLaidOut}
use pingkv.DataFile.Growth.{
  Grown, Grown-refl, Grown-trans, after_write-IsLaidOut, after_write-Grown,
}
use pingkv.DataFile.Stored.{Parts-update}
use pingkv.DataFile.Valid.{IsValid, Works, Later-Ext}
use pingkv.DataFile.Write.{
  Written, new_record-len, set_added, single, single-Stored, chained, chained_record,
  chained-Stored, chained-full, stored_at, update-IsValid, Ext-update,
}
use pingkv.DataFile.Room.{Found, find_block_can_write-Found}

module _ (os : Os) (works : Works os) where
  -- The row fits in the block.
  single-Written :
      (fuel p : ℕ) (row : Bytes) (d : DataFile) (b : DataBlock) (v : IsValid d)
      (e : d.blocks p ≡ some b) (u : p ≡ d.info.used_block_count) (room : 0 < free_bytes b)
      → IsLaidOut b
      → b.block_id ≡ p
      → ltb (free_bytes b) (length row) ≡ false
      → (idx : ℕ) × (d' : DataFile) × (write_row_in os (suc fuel) p row d ≡ ok idx d')
        × Written d d' p idx row
  unfolding write_row_in load store update
  single-Written fuel p row d b v e u room l i fits =
      let b₁ = row_add_record b (length row) false in
      let d₁ = stored_at d p b₁ in
      let b₂ = single b row room in
      let made = new_record-len b (length row) (ltb (free_bytes b) (length row)) in
      let l₁ : IsLaidOut b₁ = rw fits at (row_add_record-IsLaidOut b (length row) room l) in
      let l₂ : IsLaidOut b₂ = after_write-IsLaidOut b row _ room refl made l in
      let g : Grown b b₂ = after_write-Grown b row _ room refl made in
      (
        record_count b + 1,
        stored_at d₁ p b₂,
        ground (arith, e, fits),
        record {
          valid =
              update-IsValid d₁ p b₂
                (update-IsValid d p b₁ v (omega (arith, v.used_low)) (omega arith) l₁ i)
                (omega (arith, v.used_low)) (omega arith) l₂ i;
          ext = Ext-update p b b₂ e g (λ id a n h. (a, ground arith, Grown-refl a));
          used = omega arith;
          used_le = omega arith;
          below = λ id lt. ground arith;
          block = b₂;
          here = ground arith;
          number = i;
          stored = single-Stored b row room fits p (ground arith);
        },
      )

  -- The row does not fit, and the rest of it is written to the block that is found.
  module _ (fuel p : ℕ) (row : Bytes) (d : DataFile) (b : DataBlock) (v : IsValid d)
      (e : d.blocks p ≡ some b) (u : p ≡ d.info.used_block_count) (room : 0 < free_bytes b)
      (l : IsLaidOut b) (i : b.block_id ≡ p) (long : ltb (free_bytes b) (length row) ≡ true) where
    -- The state after `_row_add_record`.
    abbrev added : DataFile
    added = stored_at d p (row_add_record b (length row) true)

    added-IsValid : IsValid added
    unfolding row_add_record
    added-IsValid =
        let l₁ : IsLaidOut (row_add_record b (length row) true) =
          rw long at (row_add_record-IsLaidOut b (length row) room l) in
        update-IsValid d p (row_add_record b (length row) true) v (omega (arith, v.used_low))
          (omega arith) l₁ i

    module _ (q next : ℕ) (d₂ d₃ : DataFile) (found : find_block_can_write os added ≡ ok q d₂)
        (f : Found os works added d₂ q)
        (written : write_row_in os fuel q (drop (free_bytes b) row) d₂ ≡ ok next d₃)
        (w : Written d₂ d₃ q next (drop (free_bytes b) row)) where
      later : p < q
      unfolding update
      later = omega (
        arith,
        f.moved (row_add_record b (length row) true) (ground arith) (chained-full b (length row)),
      )

      kept : d₃.blocks p ≡ some (row_add_record b (length row) true)
      unfolding update
      kept = w.below p later ∙ f.later.same p (omega (arith, v.used_high)) ∙ ground arith

      -- The states after the two writes that follow.
      abbrev linked : DataFile
      linked = stored_at d₃ p (
          set_record (row_add_record b (length row) true) (record_count b + 1)
            (chained_record b row room q next))

      abbrev filled : DataFile
      filled = stored_at linked p (chained b row room q next)

      run : write_row_in os (suc fuel) p row d ≡ ok (record_count b + 1) filled
      unfolding write_row_in load store update
      run =
          let same = set_added b (length row) true (chained_record b row room q next) in
          ground (arith, e, long, found, written, w.here, w.number, kept, same)

      at_old : (id : ℕ) (a : DataBlock) → id ≢ p → d.blocks id ≡ some a → added.blocks id ≡ some a
      unfolding update
      at_old id a n h = ground arith

      chained-Written : Written d filled p (record_count b + 1) row
      unfolding update new_record
      chained-Written =
          let same = set_added b (length row) true (chained_record b row room q next) in
          let l₃ : IsLaidOut (chained b row room q next) =
            after_write-IsLaidOut b row (chained_record b row room q next) room refl refl l in
          record {
            valid =
                update-IsValid linked p (chained b row room q next)
                  (update-IsValid d₃ p _ w.valid (omega (arith, v.used_low))
                    (omega (arith, w.used, f.later.used))
                    (rw same (record { descending = l₃.descending; apart = l₃.apart })) (rw same i))
                  (omega (arith, v.used_low)) (omega (arith, w.used, f.later.used)) l₃ i;
            ext =
                Ext-update p b (chained b row room q next) e
                  (after_write-Grown b row (chained_record b row room q next) room refl refl)
                  (λ id a n h.
                    let (a₁, e₁, g₁) =
                      (Later-Ext os works added-IsValid f.later).grown id (at_old id a n h) in
                    let (a₂, e₂, g₂) = w.ext.grown id e₁ in (a₂, ground arith, Grown-trans g₁ g₂));
            used = omega (arith, w.used, f.later.used);
            used_le = omega (
              arith,
              w.used_le,
              f.in_use,
              f.next,
              length-drop (free_bytes b) row,
              ltb→lt _ _ long,
            );
            below = λ id lt. ground (
              arith,
              w.below id (omega (arith, later)),
              f.later.same id (omega (arith, v.used_high)),
            );
            block = chained b row room q next;
            here = ground arith;
            number = i;
            stored =
                chained-Stored b row room q next p long (ground arith) later
                  (Parts-update p _ later (Parts-update p _ later w.stored.parts));
          }

  -- With as much fuel as the row has bytes, and one round more, `_write_row` stores the row.
  pub write_row_in-Written :
      (fuel p : ℕ) (row : Bytes) (d : DataFile) (b : DataBlock)
      → IsValid d
      → d.blocks p ≡ some b
      → p ≡ d.info.used_block_count
      → 0 < free_bytes b
      → length row < fuel
      → d.info.used_block_count + length row + 128 ≤ max_block
      → (idx : ℕ) × (d' : DataFile) × (write_row_in os fuel p row d ≡ ok idx d')
        × Written d d' p idx row
  write_row_in-Written zero p row d b v e u room lt le = absurd (omega arith)
  write_row_in-Written (suc fuel) p row d b v e u room lt le =
      let (b', e', l', i') = v.known p (omega (arith, v.used_low)) (omega (arith, v.used_high)) in
      let same : b' ≡ b = cc in
      let l : IsLaidOut b = subst IsLaidOut same l' in
      let i : b.block_id ≡ p = ap (λ c. c.block_id) (sym same) ∙ i' in
      elim (Bool-cases (ltb (free_bytes b) (length row))) [
        | inl long ↦
            let (d₂, q, found, f) =
              find_block_can_write-Found os works (added fuel p row d b v e u room l i long)
                (added-IsValid fuel p row d b v e u room l i long) (omega arith) in
            let (next, d₃, written, w) =
              write_row_in-Written fuel q (drop (free_bytes b) row) d₂ f.block f.later.valid f.here
                f.in_use f.room (omega (arith, length-drop (free_bytes b) row, ltb→lt _ _ long))
                (omega
                  (arith, f.in_use, f.next, length-drop (free_bytes b) row, ltb→lt _ _ long)) in
            (
              record_count b + 1,
              filled fuel p row d b v e u room l i long q next d₂ d₃ found f written w,
              run fuel p row d b v e u room l i long q next d₂ d₃ found f written w,
              chained-Written fuel p row d b v e u room l i long q next d₂ d₃ found f written w,
            )
        | inr fits ↦ single-Written fuel p row d b v e u room l i fits
      ]
