-- ===== src/Server/Socket.antt =====
-- pingkv/src/server/kv_server.cc: `_cb_read_sock`, which reads a message of a connection. What `recv`
-- does is given as values, as for the client. The buffers that messages are read into are parts of the
-- message; the empty one is the null pointer.
use pingkv.Base.{
  ℕ, ◌&&◌, not, Option, none, some, ◌++◌, Bytes, length, drop, take, ltb, ◌==◌, if◌then◌else◌,
}
use pingkv.Base.Int.{ℤ, pos, negsuc}
use pingkv.Base.Bits.{has_flag}
use pingkv.Hash.{queue_no}
use pingkv.Work.{Work, WorkHead, new_work, head_bytes}
use pingkv.Work.Worker.{flag_req}
use pingkv.Client.{Received, parse_head}

-- A request in the queue with the number and the new message of the connection; a message that is
-- kept; a connection that is closed; a write behind the end of a buffer; a number without a queue, for
-- which `_req_queue` is read outside of its bounds.
pub data Reading : Type 0 where
  queued : ℕ → Work → Work → Reading
  kept : Work → Reading
  closed overflow no_queue : Reading

-- A field: the buffer that is there is taken, whatever its length is. The inner `none` is an answer of
-- `recv` that is not the length, the outer one an overflow.
unfoldable pub read_field : ℕ → Bytes → Option Bytes → Option (Option Bytes)
read_field n old none = if n == 0 then some (some old) else some none
read_field n old (some b) =
    if n == 0
    then some (some old)
    else if not (length old == 0) && ltb (length old) (length b)
    then none
    else if length b == n
    then some (some (b ++ drop n old))
    else some none

-- `_req_queue[hash]->put_work(fd, w)` with so many queues.
unfoldable pub enqueue : ℕ → ℤ → Work → Reading
enqueue queues (pos n) w = if ltb n queues then queued n w new_work else no_queue
enqueue queues (negsuc n) w = no_queue

-- Where a message goes.
unfoldable pub dispatch : ℕ → ℕ → Work → Reading
unfolding enqueue
dispatch file_count queues w =
    if has_flag w.head.flag flag_req
    then enqueue queues (queue_no file_count (take w.head.field1_len w.field1)) w
    else kept w

-- The fields that a head announces, and what is done with the message.
unfoldable pub read_fields : ℕ → ℕ → Work → WorkHead → Received → Reading
unfolding read_field dispatch
read_fields file_count queues w h r = elim (read_field h.field1_len w.field1 r.field1) [
  | none ↦ overflow
  | some none ↦ closed
  | some (some f₁) ↦ elim (read_field h.field2_len w.field2 r.field2) [
    | none ↦ overflow
    | some none ↦ closed
    | some (some f₂) ↦ dispatch file_count queues (record w { head = h; field1 = f₁; field2 = f₂ })
  ]
]

-- `_cb_read_sock`: `len = recv(...) == -1` tells -1 from every other answer and no more.
unfoldable pub read_sock : ℕ → ℕ → Work → Received → Reading
unfolding read_fields
read_sock file_count queues w r = elim r.head [
  | none ↦ closed
  | some b ↦
      read_fields file_count queues w (parse_head (b ++ drop (length b) (head_bytes w.head))) r
]
