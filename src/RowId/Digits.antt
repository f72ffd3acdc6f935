-- ===== src/RowId/Digits.antt =====
-- data_file_tool.h: `rowidstr_to_int` on the texts of `int_to_rowidstr`.
use pingkv.Base.{
  ℕ, zero, suc, ◌+◌, ◌-◌, ◌*◌, ◌/◌, ◌≤◌, ◌<◌, ◌≡◌, refl, ap, ◌∙◌, false, some, [], ◌∷◌, Bytes, ◌==◌,
  arith, Bool-cases, inl, inr, ==→eq,
}
use pingkv.Base.Int.{pos}
use pingkv.RowId.{num, num_loop, int_to_rowidstr, val, val_loop, rowidstr_to_int, count_char}

val-num : (i : ℕ) → i < 62 → val (num i) ≡ some i
unfolding val num
val-num i lt = ground arith

num-digit : (i : ℕ) → i < 62 → (num i == 95) ≡ false
unfolding num
num-digit i lt = ground arith

-- What is read after the digits of `l` in front of `cs`.
val_loop-num_loop :
    (fuel l : ℕ) (cs : Bytes)
    → l ≤ fuel
    → (n : ℕ) × ((ret : ℕ) → val_loop (num_loop fuel l cs) ret ≡ val_loop cs (ret * n + l))
unfolding val_loop num_loop
val_loop-num_loop zero l cs le = (1, λ ret. let e : ret * 1 + l ≡ ret = omega arith in rw e)
val_loop-num_loop (suc fuel) l cs le = elim (Bool-cases (l == 0)) [
  | inl none_left ↦ (
    1,
    λ ret. let e : ret * 1 + l ≡ ret = ground (arith, ==→eq _ _ none_left) in rw (none_left, e),
  )
  | inr more ↦
      let q = l / 62 in
      let positive : 0 < l = ground arith in
      let low : q * 62 ≤ l = omega arith in
      let (n, h) = val_loop-num_loop fuel q (num (l - q * 62) ∷ cs) (omega arith) in
      (
        n * 62,
        λ ret.
            let value = val-num (l - q * 62) (omega arith) in
            let e : (ret * n + q) * 62 + (l - q * 62) ≡ ret * (n * 62) + l = omega arith in
            rw more (h ret ∙ (rw (value, e))),
      )
]

no_digits-num_loop :
    (fuel l : ℕ) (cs : Bytes) → count_char (num_loop fuel l cs) 95 ≡ count_char cs 95
unfolding num_loop count_char
no_digits-num_loop zero l cs = refl
no_digits-num_loop (suc fuel) l cs =
    let q = l / 62 in
    let step = no_digits-num_loop fuel q (num (l - q * 62) ∷ cs) in
    let digit = num-digit (l - q * 62) (omega arith) in ground (arith, step, digit)

-- No text of a number has a `_` in it.
pub count_char-int_to_rowidstr : (n : ℕ) → count_char (int_to_rowidstr (pos n)) 95 ≡ 0
unfolding int_to_rowidstr count_char
count_char-int_to_rowidstr zero = refl
count_char-int_to_rowidstr (suc n) = no_digits-num_loop (suc n) (suc n) []

-- The text that `int_to_rowidstr` makes of a number from 0 on is read by `rowidstr_to_int` as that number.
pub rowidstr_to_int-int_to_rowidstr : (n : ℕ) → rowidstr_to_int (int_to_rowidstr (pos n)) ≡ some n
unfolding rowidstr_to_int int_to_rowidstr val_loop val
rowidstr_to_int-int_to_rowidstr zero = refl
rowidstr_to_int-int_to_rowidstr (suc n) =
    let (k, h) = val_loop-num_loop (suc n) (suc n) [] (omega arith) in
    let e : 0 * k + suc n ≡ suc n = omega arith in h 0 ∙ ap some e
