-- ===== src/RowId.antt =====
-- pingkv/src/dbf/data_file_tool.h: numbers as texts in base 62, and row ids, which are such texts
-- with `_` between them. `int` is a number without a width; the buffer of 20 bytes is enough for the
-- six digits of an `int` and its sign.
pub mod Digits
pub mod Parts
mod Tests
use pingkv.Base.{
  ◌&&◌, ℕ, zero, suc, ◌+◌, ◌-◌, ◌*◌, ◌/◌, Bool, true, false, Option, none, some, List, [], ◌∷◌,
  ◌++◌, Bytes, length, ◌||◌, ltb, leb, ◌==◌, if◌then◌else◌,
}
use pingkv.Base.Int.{ℤ, pos, negsuc}
use pingkv.Base.Maybe.{◌>>=◌}

-- The table `num` of `int_to_rowidstr`: digits, small letters, capital letters.
unfoldable pub num : ℕ → ℕ
num i = if ltb i 10 then 48 + i else if ltb i 36 then 97 + (i - 10) else 65 + (i - 36)

-- The loop of `int_to_rowidstr`, with a round for each unit of the number.
unfoldable pub num_loop : ℕ → ℕ → Bytes → Bytes
num_loop zero l rowid = rowid
num_loop (suc fuel) l rowid =
    if l == 0 then rowid else num_loop fuel (l / 62) (num (l - l / 62 * 62) ∷ rowid)

unfoldable pub int_to_rowidstr : ℤ → Bytes
unfolding num_loop
int_to_rowidstr (pos zero) = 48 ∷ []
int_to_rowidstr (pos (suc l)) = num_loop (suc l) (suc l) []
int_to_rowidstr (negsuc l) = 45 ∷ num_loop (suc l) (suc l) []

-- The table `num` of `rowidstr_to_int`; its other entries are not set.
unfoldable pub val : ℕ → Option ℕ
val c =
    if leb 48 c && leb c 57
    then some (c - 48)
    else if leb 97 c && leb c 122
    then some (c - 97 + 10)
    else if leb 65 c && leb c 90
    then some (c - 65 + 36)
    else none

unfoldable pub val_loop : Bytes → ℕ → Option ℕ
val_loop [] ret = some ret
val_loop (c ∷ cs) ret = do n ← val c; val_loop cs (ret * 62 + n)

unfoldable pub rowidstr_to_int : Bytes → Option ℕ
unfolding val_loop
rowidstr_to_int s = val_loop s 0

unfoldable pub count_char : Bytes → ℕ → ℕ
count_char [] c = 0
count_char (d ∷ ds) c = if d == c then suc (count_char ds c) else count_char ds c

-- The text before the first `_`, and the one behind it.
unfoldable pub until_sep : Bytes → Bytes
until_sep [] = []
until_sep (c ∷ cs) = if c == 95 then [] else c ∷ until_sep cs

unfoldable pub after_sep : Bytes → Option Bytes
after_sep [] = none
after_sep (c ∷ cs) = if c == 95 then some cs else after_sep cs

-- The loop of `get_sub_str`; where no `_` is left, `find` gives -1 and the next round starts again.
unfoldable pub skip : ℕ → Bytes → Bytes → Bytes
skip zero str rest = rest
skip (suc n) str rest = elim (after_sep rest) [ none ↦ skip n str str | some r ↦ skip n str r ]

-- `get_sub_str(str, "_", idx)`
unfoldable pub get_sub_str : Bytes → ℕ → Bytes
unfolding until_sep skip after_sep
get_sub_str str idx = if idx == 1 then until_sep str else until_sep (skip (idx - 1) str str)

-- The two functions `make_rowid`
unfoldable pub make_rowid : ℕ → ℕ → Bytes
unfolding int_to_rowidstr
make_rowid block_id row_idx = int_to_rowidstr (pos block_id) ++ 95 ∷ int_to_rowidstr (pos row_idx)

unfoldable pub make_file_rowid : ℕ → ℕ → ℕ → Bytes
unfolding int_to_rowidstr
make_file_rowid file_id block_id row_idx =
    int_to_rowidstr (pos file_id)
    ++ 95 ∷ (int_to_rowidstr (pos block_id) ++ 95 ∷ int_to_rowidstr (pos row_idx))

-- The result of a conversion: -1, a number, or an entry of the table that is not set.
pub data RowNo : Type 0 where
  minus_one unset : RowNo
  number : ℕ → RowNo

abbrev pub row_no : Option ℕ → RowNo
row_no none = unset
row_no (some n) = number n

unfoldable pub rowid_to_file_id : Bytes → RowNo
unfolding count_char get_sub_str rowidstr_to_int
rowid_to_file_id rowid =
    if count_char rowid 95 == 3 then row_no (rowidstr_to_int (get_sub_str rowid 1)) else minus_one

unfoldable pub rowid_to_block_id : Bytes → RowNo
unfolding count_char get_sub_str rowidstr_to_int
rowid_to_block_id rowid =
    if count_char rowid 95 == 2
    then row_no (rowidstr_to_int (get_sub_str rowid 2))
    else if count_char rowid 95 == 1
    then row_no (rowidstr_to_int (get_sub_str rowid 1))
    else minus_one

unfoldable pub rowid_to_row_idx : Bytes → RowNo
unfolding count_char get_sub_str rowidstr_to_int
rowid_to_row_idx rowid =
    if count_char rowid 95 == 2
    then row_no (rowidstr_to_int (get_sub_str rowid 3))
    else if count_char rowid 95 == 1
    then row_no (rowidstr_to_int (get_sub_str rowid 2))
    else minus_one
