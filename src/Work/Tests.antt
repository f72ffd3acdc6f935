-- ===== src/Work/Tests.antt =====
-- A message whose head and first two bytes are sent.
use pingkv.Base.{
  ℕ, ◌≡◌, ap, refl, inl, inr, some, [], ◌∷◌, ◌%◌, ◌==◌, min, codes, length, arith, if◌then◌else◌,
  Bool-cases,
}
use pingkv.Work.{Work, Sent, offered, advance, do_send, sent, full, gone, head_bytes, head_size}
use pingkv.Work.Sender.{IsValid, left}
use pingkv.Work.Deliver.{Socket, IsSound, deliver, deliver_all, offer, offer_of, head_offered}
use pingkv.Work.Loop.{Sender, turned, find_buf, sweep, in_front, turn}
use pingkv.Work.Loop.Rounds.{Takes, no_more, one_more, no_work, more_work, IsReady}
use pingkv.Work.Loop.Lookup.{after_send, find_buf-turn}

abbrev message : Work
message = record {
  head = record { flag = 8192; field1_len = 5; field2_len = 0 };
  field1 = codes "value";
  field2 = [];
  head_offset = 6;
  field1_offset = 2;
  field2_offset = 0;
}

message-IsValid : IsValid message
message-IsValid = record {
  whole_head = inr refl;
  size1 = refl;
  size2 = refl;
  offset1 = omega arith;
  offset2 = omega arith;
}

-- The message after two more bytes.
abbrev later_message : Work
later_message = record message { field1_offset = 4 }

-- A socket that is full at every other call and takes at most six bytes.
abbrev slow : Socket
slow = record { room = λ i. i % 2 == 1; taken = λ i w. min 6 (length (offer w)) }

slow-IsSound : IsSound slow
slow-IsSound = record {
  least = λ i w some_bytes. omega arith;
  most = λ i w. omega arith;
  whole =
      λ i w start. let same = offer_of w (head_bytes w.head) (head_offered w start) in rw same refl;
}

-- A message of which nothing is sent.
abbrev fresh : Work
fresh = record message { head_offset = 0; field1_offset = 0 }

fresh-IsValid : IsValid fresh
fresh-IsValid = record {
  whole_head = inl refl;
  size1 = refl;
  size2 = refl;
  offset1 = omega arith;
  offset2 = omega arith;
}

deliver_all_example : deliver slow 22 0 fresh ≡ (left fresh, gone)
deliver_all_example = deliver_all slow slow-IsSound 22 0 fresh fresh-IsValid refl (omega arith)

-- The connection 5 has a message that is sent in part, and its next one is in the queue.
abbrev busy : Sender
busy = record { res_bufs = (5, message) ∷ (7, fresh) ∷ []; res_queue = (5, fresh) ∷ [] }

busy-IsReady : IsReady busy
busy-IsReady = record {
  pending =
      one_more (omega arith) message-IsValid refl
        (one_more (omega arith) fresh-IsValid refl no_more);
  queued = more_work fresh-IsValid refl no_work;
}

-- The answer of `slow` on a connection.
abbrev slow_send : ℕ → Work → Sent
slow_send fd w = if fd == 5 then full else sent (min 6 (length (offer w)))

slow_send-Takes : Takes slow_send
slow_send-Takes fd w n e = elim (Bool-cases (fd == 5)) [
  | inl five ↦ let none : full ≡ sent n = rw five at e in absurd (cc)
  | inr other ↦
      let some_room : sent (min 6 (length (offer w))) ≡ sent n = rw other at e in
      let size : min 6 (length (offer w)) ≡ n = cc in
      (
        omega arith,
        λ start.
            let head : length (offer w) ≡ head_size =
              ap length (offer_of w (head_bytes w.head) (head_offered w start)) in
            omega arith,
      )
]

-- The messages after the round: nothing of the first one of 5 is left.
find_buf-turn_example :
    (s : Sender) × (turn slow_send busy ≡ turned s)
    × (find_buf 5 s.res_bufs ≡ some fresh)
    × (find_buf 7 s.res_bufs ≡ after_send slow_send 7 (find_buf 7 busy.res_bufs))
    × (s.res_queue ≡ [])
unfolding sweep in_front do_send advance offered
find_buf-turn_example =
    find_buf-turn slow_send busy.res_bufs
      ((5, message) ∷ (7, record fresh { head_offset = 6 }) ∷ []) 5 7 fresh [] refl (omega arith)
