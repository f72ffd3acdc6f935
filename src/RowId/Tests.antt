-- ===== src/RowId/Tests.antt =====
-- Row ids of a block and a record.
use pingkv.Base.{◌≡◌, refl, some, codes}
use pingkv.Base.Int.{pos}
use pingkv.RowId.{
  num, int_to_rowidstr, rowidstr_to_int, make_file_rowid, rowid_to_file_id, rowid_to_block_id,
  rowid_to_row_idx, number, minus_one,
}
use pingkv.RowId.Digits.{rowidstr_to_int-int_to_rowidstr}
use pingkv.RowId.Parts.{make_file_rowid-parts}

rowid_text : make_file_rowid 1 3845 7 ≡ codes "1_101_7"
unfolding make_file_rowid num
rowid_text = refl

rowidstr_to_int-int_to_rowidstr_example : rowidstr_to_int (int_to_rowidstr (pos 3845)) ≡ some 3845
rowidstr_to_int-int_to_rowidstr_example = rowidstr_to_int-int_to_rowidstr 3845

make_file_rowid-parts_example :
    (rowid_to_file_id (make_file_rowid 1 3845 7) ≡ minus_one)
    × (rowid_to_block_id (make_file_rowid 1 3845 7) ≡ number 3845)
    × (rowid_to_row_idx (make_file_rowid 1 3845 7) ≡ number 7)
make_file_rowid-parts_example = make_file_rowid-parts 1 3845 7
