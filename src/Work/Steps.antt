-- ===== src/Work/Steps.antt =====
-- kv_sender.cc: messages that `_do_send` keeps for its next call.
use mathlib.Core.Path.{subst}
use pingkv.Base.{
  ℕ, ◌-◌, ◌≤◌, ◌<◌, ◌≡◌, false, some, Bytes, length, drop, ltb, arith, Bool-cases, inl, inr,
  length-drop,
}
use pingkv.Work.{Work, head_size, sent, kept, gone, offered, advance, is_done, do_send}
use pingkv.Work.Sender.{
  IsValid, advance_head, advance_field1, advance_field2, offered_field1, offered_field2,
}

module _ (w : Work) (n : ℕ) (v : IsValid w) (xs : Bytes) (o : offered w ≡ some xs)
    (le : n ≤ length xs) where
  -- `send` takes the head as a whole, and no more bytes than it is offered.
  advance-IsValid : (w.head_offset ≡ 0 → n ≡ head_size) → is_done w ≡ false → IsValid (advance w n)
  advance-IsValid whole more = elim v.whole_head [
    | inl at_start ↦ rw (advance_head w n v at_start) (record {
      whole_head = inr (omega (arith, whole at_start));
      size1 = v.size1;
      size2 = v.size2;
      offset1 = v.offset1;
      offset2 = v.offset2;
    })
    | inr past ↦ elim (Bool-cases (ltb w.field1_offset (length w.field1))) [
      | inl first ↦
          let lt : w.field1_offset < length w.field1 = ground arith in
          let same : drop w.field1_offset w.field1 ≡ xs =
            let e = offered_field1 w n v past lt in cc in
          let size : length xs ≡ length w.field1 - w.field1_offset =
            rw (← same) (length-drop w.field1_offset w.field1) in
          rw (advance_field1 w n v past lt) (record {
            whole_head = v.whole_head;
            size1 = v.size1;
            size2 = v.size2;
            offset1 = omega arith;
            offset2 = v.offset2;
          })
      | inr done1 ↦
          let end1 : w.field1_offset ≡ length w.field1 = ground (arith, v.offset1) in
          let lt : w.field2_offset < length w.field2 =
            ground (arith, v.offset2, v.size1, v.size2) in
          let same : drop w.field2_offset w.field2 ≡ xs =
            let e = offered_field2 w n v past end1 lt in cc in
          let size : length xs ≡ length w.field2 - w.field2_offset =
            rw (← same) (length-drop w.field2_offset w.field2) in
          rw (advance_field2 w n v past end1 lt) (record {
            whole_head = v.whole_head;
            size1 = v.size1;
            size2 = v.size2;
            offset1 = v.offset1;
            offset2 = omega arith;
          })
    ]
  ]

  -- When `send` takes the head as a whole and no more bytes than it is offered, a valid message that
  -- `_do_send` keeps is valid and not done.
  pub do_send-IsValid :
      (w' : Work)
      → (w.head_offset ≡ 0 → n ≡ head_size)
      → is_done w ≡ false
      → do_send w (sent n) ≡ kept w'
      → IsValid w' × (is_done w' ≡ false)
  unfolding do_send
  do_send-IsValid w' whole more e = elim (Bool-cases (is_done (advance w n))) [
    | inl all ↦ let stop : gone ≡ kept w' = rw (do_send, all) at e in absurd (cc)
    | inr some_left ↦
        let on : kept (advance w n) ≡ kept w' = rw (do_send, some_left) at e in
        let same : advance w n ≡ w' = cc in
        subst (λ u. IsValid u × (is_done u ≡ false)) same (advance-IsValid whole more, some_left)
  ]
