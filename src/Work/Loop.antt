-- ===== src/Work/Loop.antt =====
-- kv_sender.cc: `thread_func`, the sender's loop over the connections that have a message to send. A
-- round of the loop is a function of the answers of `send`, which depend on the connection and on what
-- it is offered. The locks are left out, and so is the descriptor -1.
pub mod Lookup
pub mod Rounds
use pingkv.Base.{ℕ, Bool, true, false, Option, none, some, List, [], ◌∷◌, ltb, ◌==◌, if◌then◌else◌}
use pingkv.Work.{Work, Sent, Sending, kept, gone, failed, do_send, get_work}

-- `_res_bufs`, in the order of its keys.
abbrev pub Bufs : Type 0
Bufs = List (ℕ × Work)

-- `_res_bufs[fd] = w`
unfoldable pub put_buf : ℕ → Work → Bufs → Bufs
put_buf fd w [] = (fd, w) ∷ []
put_buf fd w ((g, u) ∷ b) =
    let rest = put_buf fd w b in
    if fd == g then (fd, w) ∷ b else if ltb fd g then (fd, w) ∷ (g, u) ∷ b else (g, u) ∷ rest

unfoldable pub find_buf : ℕ → Bufs → Option Work
find_buf fd [] = none
find_buf fd ((g, u) ∷ b) = let rest = find_buf fd b in if fd == g then some u else rest

-- The end of the `for` loop, with the messages that are left: past the last connection, by the `break`
-- behind an error, or with an iterator that `_do_send` erased, whose increment is undefined.
pub data Swept : Type 0 where
  swept : Bufs → Swept
  closed dangling : ℕ → Bufs → Swept

-- The messages in front of those that the loop goes on with.
unfoldable pub in_front : ℕ × Work → Swept → Swept
in_front e (swept b) = swept (e ∷ b)
in_front e (closed fd b) = closed fd (e ∷ b)
in_front e (dangling fd b) = dangling fd (e ∷ b)

-- The `for` loop.
unfoldable pub sweep : (ℕ → Work → Sent) → Bufs → Swept
unfolding do_send in_front
sweep send [] = swept []
sweep send ((fd, w) ∷ b) = elim (do_send w (send fd w)) [
  | kept w₁ ↦ in_front (fd, w₁) (sweep send b)
  | gone ↦ dangling fd b
  | failed ↦ closed fd b
]

-- `_res_bufs` and `_res_queue`
pub record Sender : Type 0 where
  pub res_bufs : Bufs
  pub res_queue : List (ℕ × Work)

-- A round: the thread goes on with the next one, waits for a message, or is in undefined behaviour.
pub data Turn : Type 0 where
  turned waiting undefined : Sender → Turn

-- `_res_bufs[fd] = w` with the first message of the queue; an empty queue gives the null pointer for
-- the descriptor 0, which the next round reads.
unfoldable pub take_result : Bufs → List (ℕ × Work) → Turn
unfolding get_work put_buf
take_result b q =
    let ((fd, w), q₁) = get_work q in
    elim w [
      | none ↦ undefined (record { res_bufs = b; res_queue = q₁ })
      | some u ↦ turned (record { res_bufs = put_buf fd u b; res_queue = q₁ })
    ]

-- The part behind the `for` loop.
unfoldable pub next_result : Bufs → List (ℕ × Work) → Turn
unfolding take_result
next_result [] [] = waiting (record { res_bufs = []; res_queue = [] })
next_result (e ∷ b) [] = turned (record { res_bufs = e ∷ b; res_queue = [] })
next_result b (e ∷ q) = take_result b (e ∷ q)

unfoldable pub after_sweep : List (ℕ × Work) → Swept → Turn
unfolding next_result
after_sweep q (swept b) = next_result b q
after_sweep q (closed fd b) = next_result b q
after_sweep q (dangling fd b) = undefined (record { res_bufs = b; res_queue = q })

-- A round of `thread_func`.
unfoldable pub turn : (ℕ → Work → Sent) → Sender → Turn
unfolding sweep after_sweep
turn send s = after_sweep s.res_queue (sweep send s.res_bufs)

-- The return of `wait_work`, by a signal or without one, with the queue as it is then.
abbrev pub woken : List (ℕ × Work) → Turn
woken q = take_result [] q
