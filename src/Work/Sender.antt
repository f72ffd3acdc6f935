-- ===== src/Work/Sender.antt =====
-- kv_sender.cc: what `_do_send` has still to send of a message.
use pingkv.Base.{
  ℕ, zero, suc, ◌+◌, ◌-◌, ◌≤◌, ◌<◌, ◌≡◌, ◌⊎◌, refl, ap, sym, ◌∙◌, true, false, some, [], ◌∷◌, ◌++◌,
  Bytes, length, take, drop, ltb, arith, Bool-cases, inl, inr, length-drop, take_of_length-le,
  append_assoc, take-append-drop,
}
use pingkv.Work.{
  Work, head_size, head_bytes, sent, Sending, kept, gone, failed, offered, advance, is_done,
  do_send,
}

-- The head is sent whole or not at all, and no offset is behind its part.
pub record IsValid (w : Work) : Type 0 where
  pub whole_head : (w.head_offset ≡ 0) ⊎ (w.head_offset ≡ head_size)
  pub size1 : w.head.field1_len ≡ length w.field1
  pub size2 : w.head.field2_len ≡ length w.field2
  pub offset1 : w.field1_offset ≤ length w.field1
  pub offset2 : w.field2_offset ≤ length w.field2

-- The bytes that are left.
abbrev pub left : Work → Bytes
left w =
    drop w.head_offset (head_bytes w.head)
    ++ (drop w.field1_offset w.field1 ++ drop w.field2_offset w.field2)

drop_nil : (n : ℕ) → drop {A = ℕ} n [] ≡ []
drop_nil zero = refl
drop_nil (suc n) = refl

drop-drop : (n m : ℕ) (xs : Bytes) → drop m (drop n xs) ≡ drop (n + m) xs
drop-drop zero m xs = let e : 0 + m ≡ m = omega arith in rw e
drop-drop (suc n) m [] = rw (drop_nil m, drop_nil (suc n + m))
drop-drop (suc n) m (x ∷ xs) =
    let e : suc n + m ≡ suc (n + m) = omega arith in rw e (drop-drop n m xs)

drop_all : (n : ℕ) (xs : Bytes) → length xs ≤ n → drop n xs ≡ []
drop_all n [] le = drop_nil n
drop_all zero (x ∷ xs) le = absurd (omega arith)
drop_all (suc n) (x ∷ xs) le = drop_all n xs (omega arith)

-- `n` bytes from the offset `o` on, and those behind them.
split : (o n : ℕ) (xs : Bytes) → drop o xs ≡ take n (drop o xs) ++ drop (o + n) xs
split o n xs =
    sym (take-append-drop n (drop o xs)) ∙ ap (λ ys. take n (drop o xs) ++ ys) (drop-drop o n xs)

-- The bytes `xs` in front of others, sent in part.
part_sent :
    (o n : ℕ) (xs rest : Bytes)
    → drop o xs ++ rest ≡ take n (drop o xs) ++ (drop (o + n) xs ++ rest)
part_sent o n xs rest =
    ap (λ ys. ys ++ rest) (split o n xs) ∙ append_assoc (take n (drop o xs)) (drop (o + n) xs) rest

-- What is left after `send` took `n` of the bytes that were offered.
abbrev Taken : Work → ℕ → Type 0
Taken w n = (xs : Bytes) × (offered w ≡ some xs) × (left w ≡ take n xs ++ left (advance w n))

module _ (w : Work) (n : ℕ) (v : IsValid w) where
  pub advance_head : w.head_offset ≡ 0 → advance w n ≡ record w { head_offset = w.head_offset + n }
  unfolding advance
  advance_head e = ground arith

  pub advance_field1 :
      w.head_offset ≡ head_size
      → w.field1_offset < length w.field1
      → advance w n ≡ record w { field1_offset = w.field1_offset + n }
  unfolding advance
  advance_field1 e lt = ground (arith, v.size1)

  pub advance_field2 :
      w.head_offset ≡ head_size
      → w.field1_offset ≡ length w.field1
      → w.field2_offset < length w.field2
      → advance w n ≡ record w { field2_offset = w.field2_offset + n }
  unfolding advance
  advance_field2 e e1 lt = ground (arith, v.size1, v.size2)

  head_gone : w.head_offset ≡ head_size → drop w.head_offset (head_bytes w.head) ≡ []
  head_gone e = ap (λ o. drop o (head_bytes w.head)) e

  head_Taken : w.head_offset ≡ 0 → Taken w n
  unfolding offered
  head_Taken e =
      let start : drop w.head_offset (head_bytes w.head) ≡ head_bytes w.head =
        ap (λ o. drop o (head_bytes w.head)) e in
      (
        drop w.head_offset (head_bytes w.head),
        rw start (ground arith),
        rw (advance_head e) (
            part_sent w.head_offset n (head_bytes w.head)
              (drop w.field1_offset w.field1 ++ drop w.field2_offset w.field2)),
      )

  pub offered_field1 :
      w.head_offset ≡ head_size
      → w.field1_offset < length w.field1
      → offered w ≡ some (drop w.field1_offset w.field1)
  unfolding offered
  offered_field1 e lt =
      let xs = drop w.field1_offset w.field1 in
      let whole : take (w.head.field1_len - w.field1_offset) xs ≡ xs =
        take_of_length-le (w.head.field1_len - w.field1_offset) xs
          (omega (arith, length-drop w.field1_offset w.field1, v.size1)) in
      ground (arith, whole, v.size1)

  field1_Taken : w.head_offset ≡ head_size → w.field1_offset < length w.field1 → Taken w n
  field1_Taken e lt = (
    drop w.field1_offset w.field1,
    offered_field1 e lt,
    rw (advance_field1 e lt, head_gone e)
        (part_sent w.field1_offset n w.field1 (drop w.field2_offset w.field2)),
  )

  pub offered_field2 :
      w.head_offset ≡ head_size
      → w.field1_offset ≡ length w.field1
      → w.field2_offset < length w.field2
      → offered w ≡ some (drop w.field2_offset w.field2)
  unfolding offered
  offered_field2 e e1 lt =
      let xs = drop w.field2_offset w.field2 in
      let whole : take (w.head.field2_len - w.field2_offset) xs ≡ xs =
        take_of_length-le (w.head.field2_len - w.field2_offset) xs
          (omega (arith, length-drop w.field2_offset w.field2, v.size2)) in
      ground (arith, whole, v.size1, v.size2)

  field2_Taken :
      w.head_offset ≡ head_size
      → w.field1_offset ≡ length w.field1
      → w.field2_offset < length w.field2
      → Taken w n
  field2_Taken e e1 lt =
      let none_left : drop w.field1_offset w.field1 ≡ [] =
        drop_all w.field1_offset w.field1 (omega arith) in
      (
        drop w.field2_offset w.field2,
        offered_field2 e e1 lt,
        rw (advance_field2 e e1 lt, head_gone e, none_left) (split w.field2_offset n w.field2),
      )

  advance_same :
      ((advance w n).head ≡ w.head)
      × ((advance w n).field1 ≡ w.field1)
      × ((advance w n).field2 ≡ w.field2)
  unfolding advance
  advance_same = (ground arith, ground arith, ground arith)

  some_Taken :
      is_done w ≡ false
      → (xs : Bytes) × (offered w ≡ some xs) × (left w ≡ take n xs ++ left (advance w n))
  some_Taken more = elim v.whole_head [
    | inl at_start ↦ head_Taken at_start
    | inr past ↦ elim (Bool-cases (ltb w.field1_offset (length w.field1))) [
      | inl first ↦ field1_Taken past (ground arith)
      | inr done1 ↦
          let end1 : w.field1_offset ≡ length w.field1 = ground (arith, v.offset1) in
          let some2 : w.field2_offset < length w.field2 =
            ground (arith, v.offset2, v.size1, v.size2) in
          field2_Taken past end1 some2
    ]
  ]

-- A message that is done has no bytes left.
done_left :
    (w : Work)
    → w.head.field1_len ≡ length w.field1
    → w.head.field2_len ≡ length w.field2
    → is_done w ≡ true
    → left w ≡ []
done_left w s1 s2 d =
    let e : w.head_offset ≡ head_size = ground arith in
    let e1 : w.field1_offset ≡ length w.field1 = ground arith in
    let e2 : w.field2_offset ≡ length w.field2 = ground arith in
    let gone1 = drop_all w.field1_offset w.field1 (omega arith) in
    let gone2 = drop_all w.field2_offset w.field2 (omega arith) in
    let gone_head : drop w.head_offset (head_bytes w.head) ≡ [] =
      ap (λ o. drop o (head_bytes w.head)) e in
    rw (gone_head, gone1, gone2) refl

-- What a call of `_do_send` leaves to be sent.
abbrev pub left_after : Sending → Bytes
left_after (kept w) = left w
left_after gone = []
left_after failed = []

-- When `send` takes `n` bytes of a valid message that is not done, the sender has sent the first `n` of the bytes that were left, and
-- exactly the others are left after it; a message is deleted only when none are.
pub do_send-left :
    (w : Work) (n : ℕ)
    → IsValid w
    → is_done w ≡ false
    → (xs : Bytes) × (offered w ≡ some xs) × (left w ≡ take n xs ++ left_after (do_send w (sent n)))
unfolding do_send
do_send-left w n v more =
    let (xs, o, e) = some_Taken w n v more in
    let (h, f1, f2) = advance_same w n v in
    elim (Bool-cases (is_done (advance w n))) [
      | inl all ↦
          let s1 : (advance w n).head.field1_len ≡ length (advance w n).field1 =
            rw (h, f1) v.size1 in
          let s2 : (advance w n).head.field2_len ≡ length (advance w n).field2 =
            rw (h, f2) v.size2 in
          (xs, o, rw all (e ∙ ap (λ ys. take n xs ++ ys) (done_left (advance w n) s1 s2 all)))
      | inr some_left ↦ (xs, o, rw some_left e)
    ]
