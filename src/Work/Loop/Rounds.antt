-- ===== src/Work/Loop/Rounds.antt =====
-- kv_sender.cc: what a round of `thread_func` makes of the messages.
use mathlib.Core.Path.{subst}
use pingkv.Base.{
  ℕ, suc, ◌≤◌, ◌≡◌, refl, false, List, [], ◌∷◌, length, ltb, ◌==◌, arith, Bool-cases, inl, inr,
}
use pingkv.Work.{
  Work, Sent, sent, full, broken, Sending, kept, gone, failed, head_size, is_done, do_send,
  get_work,
}
use pingkv.Work.Sender.{IsValid}
use pingkv.Work.Steps.{do_send-IsValid}
use pingkv.Work.Deliver.{offer, took_left}
use pingkv.Work.Loop.{
  Bufs, put_buf, Swept, swept, closed, dangling, in_front, sweep, Sender, Turn, turned, waiting,
  undefined, take_result, next_result, after_sweep, turn,
}

-- What `send` takes: no more than it is offered, and a head as a whole.
abbrev pub Takes : (ℕ → Work → Sent) → Type 0
Takes send =
    (fd : ℕ) (w : Work) (n : ℕ)
    → send fd w ≡ sent n
    → (n ≤ length (offer w)) × (w.head_offset ≡ 0 → n ≡ head_size)

-- Messages that are valid and not done, for ascending descriptors from `lo` on.
pub data Pending : ℕ → Bufs → Type 0 where
  no_more : {lo : ℕ} → Pending lo []
  one_more :
      {lo fd : ℕ} {w : Work} {b : Bufs}
      → lo ≤ fd
      → IsValid w
      → is_done w ≡ false
      → Pending (suc fd) b
      → Pending lo ((fd, w) ∷ b)

lower : {lo hi : ℕ} {b : Bufs} → lo ≤ hi → Pending hi b → Pending lo b
lower le no_more = no_more
lower le (one_more h v d p) = one_more (omega arith) v d p

-- A message that `_do_send` keeps.
kept_next :
    (w w₁ : Work) (a : Sent)
    → IsValid w
    → is_done w ≡ false
    → ((n : ℕ) → a ≡ sent n → (n ≤ length (offer w)) × (w.head_offset ≡ 0 → n ≡ head_size))
    → do_send w a ≡ kept w₁
    → IsValid w₁ × (is_done w₁ ≡ false)
unfolding do_send
kept_next w w₁ (sent n) v d takes e =
    let (o, some_xs, r) = took_left w n v d in
    let (le, whole) = takes n refl in do_send-IsValid w n v (offer w) o le w₁ whole d e
kept_next w w₁ full v d takes e =
    let same : w ≡ w₁ = cc in subst (λ u. IsValid u × (is_done u ≡ false)) same (v, d)
kept_next w w₁ broken v d takes e = absurd (cc)

-- The messages that the `for` loop leaves.
abbrev pub rest_bufs : Swept → Bufs
rest_bufs (swept b) = b
rest_bufs (closed fd b) = b
rest_bufs (dangling fd b) = b

in_front-rest : (e : ℕ × Work) (r : Swept) → rest_bufs (in_front e r) ≡ e ∷ rest_bufs r
unfolding in_front
in_front-rest e (swept b) = refl
in_front-rest e (closed fd b) = refl
in_front-rest e (dangling fd b) = refl

-- The `for` loop over messages of which each may go on.
module _ (send : ℕ → Work → Sent) (takes : Takes send) where
  sweep_cases :
      {lo fd : ℕ} {w : Work} {b : Bufs} (r : Sending)
      → lo ≤ fd
      → IsValid w
      → is_done w ≡ false
      → do_send w (send fd w) ≡ r
      → Pending (suc fd) b
      → Pending (suc fd) (rest_bufs (sweep send b))
      → Pending lo (rest_bufs (sweep send ((fd, w) ∷ b)))
  unfolding sweep
  sweep_cases {fd = fd} {w = w} (kept w₁) h v d e p q =
      let (v₁, d₁) = kept_next w w₁ (send fd w) v d (takes fd w) e in
      rw (sweep, e, in_front-rest) (one_more h v₁ d₁ q)
  sweep_cases gone h v d e p q = rw (sweep, e) (lower (omega arith) p)
  sweep_cases failed h v d e p q = rw (sweep, e) (lower (omega arith) p)

  sweep-Pending : {lo : ℕ} {b : Bufs} → Pending lo b → Pending lo (rest_bufs (sweep send b))
  unfolding sweep
  sweep-Pending no_more = no_more
  sweep-Pending (one_more {fd = fd} {w = w} h v d p) =
      sweep_cases (do_send w (send fd w)) h v d refl p (sweep-Pending p)

put_buf-Pending :
    {lo : ℕ} {b : Bufs} (fd : ℕ) (w : Work)
    → lo ≤ fd
    → IsValid w
    → is_done w ≡ false
    → Pending lo b
    → Pending lo (put_buf fd w b)
unfolding put_buf
put_buf-Pending fd w le v d no_more = one_more le v d no_more
put_buf-Pending fd w le v d (one_more {fd = g} h v₁ d₁ p) = elim (Bool-cases (fd == g)) [
  | inl same ↦ let e : fd ≡ g = ground arith in rw same (one_more le v d (lower (omega arith) p))
  | inr other ↦ elim (Bool-cases (ltb fd g)) [
    | inl before ↦ rw (other, before) (one_more le v d (one_more (ground arith) v₁ d₁ p))
    | inr behind ↦ rw (other, behind) (one_more h v₁ d₁ (put_buf-Pending fd w (ground arith) v d p))
  ]
]

-- The messages of the queue.
pub data Queued : List (ℕ × Work) → Type 0 where
  no_work : Queued []
  more_work :
      {fd : ℕ} {w : Work} {q : List (ℕ × Work)}
      → IsValid w
      → is_done w ≡ false
      → Queued q
      → Queued ((fd, w) ∷ q)

-- All messages of the sender are valid and not done, and its map is in order.
pub record IsReady (s : Sender) : Type 0 where
  pub pending : Pending 0 s.res_bufs
  pub queued : Queued s.res_queue

abbrev pub state : Turn → Sender
state (turned s) = s
state (waiting s) = s
state (undefined s) = s

abbrev sender : Bufs → List (ℕ × Work) → Sender
sender b q = record { res_bufs = b; res_queue = q }

next_result-IsReady :
    (b : Bufs) (q : List (ℕ × Work)) → Pending 0 b → Queued q → IsReady (state (next_result b q))
unfolding next_result take_result get_work
next_result-IsReady [] [] p no_work = record { pending = no_more; queued = no_work }
next_result-IsReady (e ∷ b) [] p no_work = record { pending = p; queued = no_work }
next_result-IsReady [] ((fd, w) ∷ q) p (more_work v d r) = record {
  pending = put_buf-Pending fd w (omega arith) v d p;
  queued = r;
}
next_result-IsReady (e ∷ b) ((fd, w) ∷ q) p (more_work v d r) = record {
  pending = put_buf-Pending fd w (omega arith) v d p;
  queued = r;
}

after_sweep-IsReady :
    (r : Swept) (q : List (ℕ × Work))
    → Pending 0 (rest_bufs r)
    → Queued q
    → IsReady (state (after_sweep q r))
unfolding after_sweep
after_sweep-IsReady (swept b) q p v = next_result-IsReady b q p v
after_sweep-IsReady (closed fd b) q p v = next_result-IsReady b q p v
after_sweep-IsReady (dangling fd b) q p v = record { pending = p; queued = v }

-- Where `send` takes no more than it is offered and a head as a whole, a round of the sender keeps
-- every message that is left, in its map and in its queue, valid and not done, and the map in order;
-- of a round that meets an iterator that was erased or a null message this is said of the state in
-- which it does.
pub turn-IsReady :
    (send : ℕ → Work → Sent) (s : Sender) → Takes send → IsReady s → IsReady (state (turn send s))
unfolding turn
turn-IsReady send s takes r =
    after_sweep-IsReady (sweep send s.res_bufs) s.res_queue (sweep-Pending send takes r.pending)
      r.queued
