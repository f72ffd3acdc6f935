-- ===== src/Work/Deliver.antt =====
-- kv_sender.cc: the calls of `_do_send` for one message, one in each round over the connections.
use mathlib.Core.Path.{subst}
use pingkv.Base.{
  ℕ, zero, suc, ◌+◌, ◌≤◌, ◌<◌, ◌≡◌, ◌≢◌, sym, refl, Bool, true, false, none, some, [], ◌++◌, min,
  length-take, length-append, Bytes, length, take, drop, ltb, arith, Bool-cases, inl, inr,
  length-drop, append-nil, if◌then◌else◌,
}
use pingkv.Work.{
  Work, Sent, head_size, head_bytes, sent, full, Sending, kept, gone, failed, offered, is_done,
  do_send,
}
use pingkv.Work.Sender.{IsValid, left, left_after, do_send-left, offered_field1, offered_field2}
use pingkv.Work.Steps.{do_send-IsValid}

-- The bytes of a call, empty if it offers other memory.
abbrev pub offer : Work → Bytes
offer w = elim (offered w) [ none ↦ [] | some xs ↦ xs ]

-- A socket: whether it has room at a call, and how many of the bytes of the message it then takes.
pub record Socket : Type 0 where
  pub room : ℕ → Bool
  pub taken : ℕ → Work → ℕ

-- `send` takes at least one byte when there is room, at most what it is offered, and a head as a whole.
pub record IsSound (s : Socket) : Type 0 where
  pub least : (i : ℕ) (w : Work) → 0 < length (offer w) → 0 < s.taken i w
  pub most : (i : ℕ) (w : Work) → s.taken i w ≤ length (offer w)
  pub whole : (i : ℕ) (w : Work) → w.head_offset ≡ 0 → s.taken i w ≡ head_size

-- How many of `k` calls from the call `i` on find room.
abbrev pub rooms : (ℕ → Bool) → ℕ → ℕ → ℕ
rooms room zero i = 0
rooms room (suc k) i = (if room i then 1 else 0) + rooms room k (suc i)

-- What `send` answers at the call `i`, and the bytes that it takes.
abbrev pub answer : Socket → ℕ → Work → Sent
answer s i w = if s.room i then sent (s.taken i w) else full

abbrev pub out : Socket → ℕ → Work → Bytes
out s i w = if s.room i then take (s.taken i w) (offer w) else []

-- `k` calls of `_do_send` from the call `i` on: the bytes that the socket took, and the outcome.
unfoldable pub deliver : Socket → ℕ → ℕ → Work → Bytes × Sending
unfolding do_send
deliver s zero i w = ([], kept w)
deliver s (suc k) i w = elim (do_send w (answer s i w)) [
  | kept w₁ ↦ (out s i w ++ (deliver s k (suc i) w₁).0, (deliver s k (suc i) w₁).1)
  | gone ↦ (out s i w, gone)
  | failed ↦ (out s i w, failed)
]

pub head_offered : (w : Work) → w.head_offset ≡ 0 → offered w ≡ some (head_bytes w.head)
unfolding offered
head_offered w start = ground arith

-- A message that is not done has bytes to offer.
offered-some :
    (w : Work) (xs : Bytes) → IsValid w → is_done w ≡ false → offered w ≡ some xs → 0 < length xs
unfolding offered
offered-some w xs v more o = elim v.whole_head [
  | inl at_start ↦
      let start = head_offered w at_start in
      let same : head_bytes w.head ≡ xs = cc in rw (← same) (omega arith)
  | inr past ↦ elim (Bool-cases (ltb w.field1_offset (length w.field1))) [
    | inl first ↦
        let lt : w.field1_offset < length w.field1 = ground arith in
        let same : drop w.field1_offset w.field1 ≡ xs =
          let e = offered_field1 w 0 v past lt in cc in
        rw (← same, length-drop w.field1_offset w.field1) (omega arith)
    | inr done1 ↦
        let end1 : w.field1_offset ≡ length w.field1 = ground (arith, v.offset1) in
        let lt : w.field2_offset < length w.field2 = ground (arith, v.offset2, v.size1, v.size2) in
        let same : drop w.field2_offset w.field2 ≡ xs =
          let e = offered_field2 w 0 v past end1 lt in cc in
        rw (← same, length-drop w.field2_offset w.field2) (omega arith)
  ]
]

pub offer_of : (w : Work) (xs : Bytes) → offered w ≡ some xs → offer w ≡ xs
offer_of w xs o = rw (offer, o) refl

-- What `n` bytes that `send` takes of the bytes offered leave of a message.
pub took_left :
    (w : Work) (n : ℕ)
    → IsValid w
    → is_done w ≡ false
    → (offered w ≡ some (offer w))
      × (0 < length (offer w))
      × (left w ≡ take n (offer w) ++ left_after (do_send w (sent n)))
took_left w n v more =
    let (xs, o, e) = do_send-left w n v more in
    let same : xs ≡ offer w = sym (offer_of w xs o) in
    subst
      (λ ys.
        (offered w ≡ some ys)
        × (0 < length ys)
        × (left w ≡ take n ys ++ left_after (do_send w (sent n))))
      same (o, offered-some w xs v more o, e)

some_left : (w : Work) → IsValid w → is_done w ≡ false → 0 < length (left w)
some_left w v more =
    let (o, some_xs, e) = took_left w 1 v more in
    let size : length (take 1 (offer w)) ≡ min 1 (length (offer w)) = length-take 1 (offer w) in
    rw (e, length-append) (omega arith)

not_failed : (w : Work) (n : ℕ) → do_send w (sent n) ≢ failed
unfolding do_send
not_failed w n e = ground arith

-- A call with room takes bytes of the message, and what it leaves is valid.
module _ (s : Socket) (sound : IsSound s) (i : ℕ) (w : Work) (v : IsValid w)
    (more : is_done w ≡ false) where
  abbrev count : ℕ
  count = s.taken i w

  count_least : 0 < length (take count (offer w))
  count_least =
      let (o, some_xs, e) = took_left w count v more in
      let least = sound.least i w some_xs in rw length-take (omega (arith, sound.most i w))

  call_next : (w₁ : Work) → do_send w (sent count) ≡ kept w₁ → IsValid w₁ × (is_done w₁ ≡ false)
  call_next w₁ e =
      let (o, some_xs, d) = took_left w count v more in
      do_send-IsValid w count v (offer w) o (sound.most i w) w₁ (sound.whole i w) more e

-- A call of `_do_send` and those behind it.
module _ (s : Socket) (k i : ℕ) (w : Work) where
  deliver-kept :
      (w₁ : Work)
      → do_send w (answer s i w) ≡ kept w₁
      → deliver s k (suc i) w₁ ≡ (left w₁, gone)
      → left w ≡ out s i w ++ left w₁
      → deliver s (suc k) i w ≡ (left w, gone)
  unfolding deliver
  deliver-kept w₁ e rest split = rw (deliver, e, rest, split) refl

  deliver-gone :
      do_send w (answer s i w) ≡ gone
      → left w ≡ out s i w ++ []
      → deliver s (suc k) i w ≡ (left w, gone)
  unfolding deliver
  deliver-gone e split = rw (deliver, e, split, append-nil) refl

-- A call with room, when enough room is to come for what it leaves.
module _ (s : Socket) (sound : IsSound s) (k i : ℕ) (w : Work) (v : IsValid w)
    (more : is_done w ≡ false) (le : length (left w) ≤ suc (rooms s.room k (suc i)))
    (has_room : s.room i ≡ true)
    (rest : (w₁ : Work)
      → IsValid w₁
      → is_done w₁ ≡ false
      → length (left w₁) ≤ rooms s.room k (suc i)
      → deliver s k (suc i) w₁ ≡ (left w₁, gone)) where
  call_cases :
      (r : Sending)
      → do_send w (sent (s.taken i w)) ≡ r
      → left w ≡ take (s.taken i w) (offer w) ++ left_after r
      → deliver s (suc k) i w ≡ (left w, gone)
  call_cases (kept w₁) r e =
      let (v₁, more₁) = call_next s sound i w v more w₁ r in
      let part = take (s.taken i w) (offer w) in
      let sizes : length (left w) ≡ length part + length (left w₁) =
        rw e (length-append part (left w₁)) in
      let least = count_least s sound i w v more in
      deliver-kept s k i w w₁ (rw has_room r) (rest w₁ v₁ more₁ (omega arith)) (rw has_room e)
  call_cases gone r e = deliver-gone s k i w (rw has_room r) (rw has_room e)
  call_cases failed r e = absurd (not_failed w _ r)

-- A valid message that is not done is sent to its end, all its bytes in their order, and is then
-- deleted, in any `k` calls among which as many find room as the message has bytes left; `send` takes,
-- when there is room, at least one byte, at most what it is offered, and a head as a whole.
pub deliver_all :
    (s : Socket)
    → IsSound s
    → (k i : ℕ) (w : Work) → IsValid w
    → is_done w ≡ false
    → length (left w) ≤ rooms s.room k i
    → deliver s k i w ≡ (left w, gone)
unfolding do_send
deliver_all s sound zero i w v more le = absurd (omega (arith, some_left w v more))
deliver_all s sound (suc k) i w v more le = elim (Bool-cases (s.room i)) [
  | inr no_room ↦
      let now : length (left w) ≤ 0 + rooms s.room k (suc i) = rw no_room at le in
      let rest = deliver_all s sound k (suc i) w v more (omega arith) in
      deliver-kept s k i w w (rw no_room refl) rest (rw no_room refl)
  | inl has_room ↦
      let now : length (left w) ≤ 1 + rooms s.room k (suc i) = rw has_room at le in
      let (o, some_xs, e) = took_left w (s.taken i w) v more in
      call_cases s sound k i w v more (omega arith) has_room (deliver_all s sound k (suc i))
        (do_send w (sent (s.taken i w))) refl e
]
