-- ===== src/Work.antt =====
-- pingkv/src/server/kv_work.h, kv_work_queue.cc and kv_sender.cc: a message of a connection, the
-- queues of messages, and the sender, which writes a message to a socket in as many calls of `send`
-- as the socket needs. The locks of the queues are left out.
pub mod Sender
pub mod Steps
mod Deliver
pub mod Results
pub mod Loop
pub mod Worker
mod Tests
use pingkv.Base.{
  ℕ, zero, suc, ◌+◌, ◌-◌, ◌*◌, ◌/◌, ◌%◌, Bool, true, false, ◌&&◌, Option, none, some, List, [], ◌∷◌,
  ◌++◌, Bytes, length, take, drop, ltb, leb, ◌==◌, if◌then◌else◌,
}

-- `kv_work_head` and `kv_work`
pub record WorkHead : Type 0 where
  pub flag : ℕ
  pub field1_len : ℕ
  pub field2_len : ℕ

pub record Work : Type 0 where
  pub head : WorkHead
  pub field1 : Bytes
  pub field2 : Bytes
  pub head_offset : ℕ
  pub field1_offset : ℕ
  pub field2_offset : ℕ

-- `new_kv_work`
abbrev pub new_work : Work
new_work = record {
  head = record { flag = 0; field1_len = 0; field2_len = 0 };
  field1 = [];
  field2 = [];
  head_offset = 0;
  field1_offset = 0;
  field2_offset = 0;
}

-- `put_work` and `get_work` of `kv_work_queue`: the number of a connection and its message.
abbrev pub put_work : List (ℕ × Work) → ℕ → Work → List (ℕ × Work)
put_work q fd w = q ++ (fd, w) ∷ []

unfoldable pub get_work : List (ℕ × Work) → (ℕ × Option Work) × List (ℕ × Work)
get_work [] = ((0, none), [])
get_work ((fd, w) ∷ q) = ((fd, some w), q)

-- `sizeof(kv_work_head)`, and its bytes: three numbers of 16 bits.
abbrev pub head_size : ℕ
head_size = 6

abbrev pub head_bytes : WorkHead → Bytes
head_bytes h =
    h.flag % 256
    ∷ h.flag / 256
    ∷ h.field1_len % 256
    ∷ h.field1_len / 256
    ∷ h.field2_len % 256
    ∷ h.field2_len / 256
    ∷ []

-- The answer of `send`: how many bytes it took, that the socket is full, or an error.
pub data Sent : Type 0 where
  sent : ℕ → Sent
  full broken : Sent

-- The outcome of `_do_send`: the message is kept for the next call, it is sent and deleted, or -1.
pub data Sending : Type 0 where
  kept : Work → Sending
  gone failed : Sending

-- The bytes that `_do_send` offers to `send`. `(&w->head) + w->head_offset` counts in heads and not in
-- bytes, so that the rest of a head that was sent in part is taken from other memory: `none`.
unfoldable pub offered : Work → Option Bytes
offered w =
    if ltb w.head_offset head_size
    then (if w.head_offset == 0 then some (head_bytes w.head) else none)
    else if ltb w.field1_offset w.head.field1_len
    then some (take (w.head.field1_len - w.field1_offset) (drop w.field1_offset w.field1))
    else if ltb w.field2_offset w.head.field2_len
    then some (take (w.head.field2_len - w.field2_offset) (drop w.field2_offset w.field2))
    else some []

-- The offsets after `send` took `n` bytes.
unfoldable pub advance : Work → ℕ → Work
advance w n =
    if ltb w.head_offset head_size
    then record w { head_offset = w.head_offset + n }
    else if ltb w.field1_offset w.head.field1_len
    then record w { field1_offset = w.field1_offset + n }
    else if ltb w.field2_offset w.head.field2_len
    then record w { field2_offset = w.field2_offset + n }
    else w

abbrev pub is_done : Work → Bool
is_done w =
    (w.head_offset == head_size)
    && ((w.field1_offset == w.head.field1_len) && (w.field2_offset == w.head.field2_len))

-- `_do_send`
unfoldable pub do_send : Work → Sent → Sending
unfolding advance
do_send w (sent n) = if is_done (advance w n) then gone else kept (advance w n)
do_send w full = kept w
do_send w broken = failed
