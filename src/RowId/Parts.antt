-- ===== src/RowId/Parts.antt =====
-- data_file_tool.h: the functions that take a row id apart, on those of `make_rowid`.
use pingkv.Base.{ℕ, ◌+◌, ◌≡◌, refl, some, [], ◌∷◌, ◌++◌, Bytes, arith}
use pingkv.Base.Int.{pos}
use pingkv.RowId.{
  int_to_rowidstr, count_char, until_sep, after_sep, skip, get_sub_str, make_rowid, make_file_rowid,
  number, minus_one, rowid_to_file_id, rowid_to_block_id, rowid_to_row_idx,
}
use pingkv.RowId.Digits.{count_char-int_to_rowidstr, rowidstr_to_int-int_to_rowidstr}

count_char-append :
    (xs ys : Bytes) (c : ℕ) → count_char (xs ++ ys) c ≡ count_char xs c + count_char ys c
unfolding count_char
count_char-append [] ys c = omega arith
count_char-append (x ∷ xs) ys c = ground (arith, count_char-append xs ys c)

until_sep-part : (xs ys : Bytes) → count_char xs 95 ≡ 0 → until_sep (xs ++ 95 ∷ ys) ≡ xs
unfolding count_char until_sep
until_sep-part [] ys e = refl
until_sep-part (x ∷ xs) ys e = ground (arith, until_sep-part xs ys)

until_sep-last : (xs : Bytes) → count_char xs 95 ≡ 0 → until_sep xs ≡ xs
unfolding count_char until_sep
until_sep-last [] e = refl
until_sep-last (x ∷ xs) e = ground (arith, until_sep-last xs)

after_sep-part : (xs ys : Bytes) → count_char xs 95 ≡ 0 → after_sep (xs ++ 95 ∷ ys) ≡ some ys
unfolding count_char after_sep
after_sep-part [] ys e = refl
after_sep-part (x ∷ xs) ys e = ground (arith, after_sep-part xs ys)

-- The text of a number.
abbrev text : ℕ → Bytes
text n = int_to_rowidstr (pos n)

-- `rowid_to_block_id` and `rowid_to_row_idx` give the numbers that the first `make_rowid` was given.
pub make_rowid-parts :
    (block_id row_idx : ℕ)
    → (rowid_to_block_id (make_rowid block_id row_idx) ≡ number block_id)
      × (rowid_to_row_idx (make_rowid block_id row_idx) ≡ number row_idx)
unfolding make_rowid rowid_to_block_id rowid_to_row_idx get_sub_str skip count_char
make_rowid-parts b r =
    let none_b = count_char-int_to_rowidstr b in
    let none_r = count_char-int_to_rowidstr r in
    let count = count_char-append (text b) (95 ∷ text r) 95 in
    let first = until_sep-part (text b) (text r) none_b in
    let rest = after_sep-part (text b) (text r) none_b in
    let second = until_sep-last (text r) none_r in
    let vb = rowidstr_to_int-int_to_rowidstr b in
    let vr = rowidstr_to_int-int_to_rowidstr r in
    (
      ground (arith, count, first, vb, none_b, none_r),
      ground (arith, count, rest, second, vr, none_b, none_r),
    )

-- With a file's number in front, the block and the record are still found, and
-- `rowid_to_file_id` gives -1 for every row id that the second `make_rowid` makes.
pub make_file_rowid-parts :
    (file_id block_id row_idx : ℕ)
    → let rowid = make_file_rowid file_id block_id row_idx in
      (rowid_to_file_id rowid ≡ minus_one)
      × (rowid_to_block_id rowid ≡ number block_id)
      × (rowid_to_row_idx rowid ≡ number row_idx)
unfolding make_file_rowid rowid_to_file_id rowid_to_block_id rowid_to_row_idx get_sub_str skip
    count_char
make_file_rowid-parts f b r =
    let none_f = count_char-int_to_rowidstr f in
    let none_b = count_char-int_to_rowidstr b in
    let none_r = count_char-int_to_rowidstr r in
    let tail = text b ++ 95 ∷ text r in
    let count = count_char-append (text f) (95 ∷ tail) 95 in
    let count' = count_char-append (text b) (95 ∷ text r) 95 in
    let rest = after_sep-part (text f) tail none_f in
    let first = until_sep-part (text b) (text r) none_b in
    let rest' = after_sep-part (text b) (text r) none_b in
    let second = until_sep-last (text r) none_r in
    let vb = rowidstr_to_int-int_to_rowidstr b in
    let vr = rowidstr_to_int-int_to_rowidstr r in
    (
      ground (arith, count, count', none_f, none_b, none_r),
      ground (arith, count, count', rest, first, vb, none_f, none_b, none_r),
      ground (arith, count, count', rest, rest', second, vr, none_f, none_b, none_r),
    )
