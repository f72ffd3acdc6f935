-- ===== src/Server/Connections/Reads.antt =====
-- pingkv/src/server/kv_server.cc: what `_cb_read_sock` reads into an empty buffer.
use pingkv.Base.{
  ℕ, ◌≡◌, refl, ◌⊎◌, inl, inr, true, Option, none, some, [], ◌++◌, Bytes, length, take, drop, ◌==◌,
  Bool-cases, ltb, ltb→lt, ◌<◌,
}
use pingkv.Base.Bits.{has_flag}
use pingkv.Base.Int.{ℤ, pos, negsuc}
use pingkv.Hash.{queue_no}
use pingkv.Server.Socket.{
  Reading, queued, closed, no_queue, read_field, enqueue, dispatch, read_fields, read_sock,
}
use pingkv.Work.{Work, WorkHead, new_work, head_bytes}
use pingkv.Work.Worker.{flag_req}
use pingkv.Client.{Received, parse_head}

-- The head that a received one gives in an empty buffer.
abbrev pub new_head : Bytes → WorkHead
new_head b = parse_head (b ++ drop (length b) (head_bytes new_work.head))

-- What is read into an empty buffer is a request for one of the queues or for none, or the connection
-- is closed.
abbrev pub IsRead : ℕ → Reading → Type 0
IsRead queues r =
    (r ≡ closed)
    ⊎ ((r ≡ no_queue) ⊎ ((n : ℕ) × (w : Work) × (n < queues) × (r ≡ queued n w new_work)))

enqueue-IsRead : (queues : ℕ) (z : ℤ) (w : Work) → IsRead queues (enqueue queues z w)
unfolding enqueue
enqueue-IsRead queues (pos n) w = elim (Bool-cases (ltb n queues)) [
  | inl there ↦ inr (inr (n, w, ltb→lt _ _ there, rw there refl))
  | inr beyond ↦ inr (inl (rw beyond refl))
]
enqueue-IsRead queues (negsuc n) w = inr (inl refl)

read_field_empty :
    (n : ℕ) (r : Option Bytes)
    → (read_field n [] r ≡ some none) ⊎ ((f : Bytes) × (read_field n [] r ≡ some (some f)))
unfolding read_field
read_field_empty n none = elim (Bool-cases (n == 0)) [
  | inl z ↦ inr ([], rw z refl)
  | inr nz ↦ inl (rw nz refl)
]
read_field_empty n (some b) = elim (Bool-cases (n == 0)) [
  | inl z ↦ inr ([], rw z refl)
  | inr nz ↦ elim (Bool-cases (length b == n)) [
    | inl whole ↦ inr (b ++ drop n [], rw (nz, whole) refl)
    | inr part ↦ inl (rw (nz, part) refl)
  ]
]

read_fields_empty :
    (n queues : ℕ) (h : WorkHead) (r : Received)
    → has_flag h.flag flag_req ≡ true
    → IsRead queues (read_fields n queues new_work h r)
unfolding read_fields dispatch
read_fields_empty n queues h r req = elim (read_field_empty h.field1_len r.field1) [
  | inl fail ↦ inl (rw (read_fields, fail) refl)
  | inr (f₁, one) ↦ elim (read_field_empty h.field2_len r.field2) [
    | inl fail ↦ inl (rw (read_fields, one, fail) refl)
    | inr (f₂, two) ↦
        rw (read_fields, one, two, req)
          (enqueue-IsRead queues (queue_no n (take h.field1_len f₁))
            (record new_work { head = h; field1 = f₁; field2 = f₂ }))
  ]
]

pub read_sock_empty :
    (n queues : ℕ) (r : Received)
    → ((b : Bytes) → r.head ≡ some b → has_flag (new_head b).flag flag_req ≡ true)
    → IsRead queues (read_sock n queues new_work r)
unfolding read_sock
read_sock_empty n queues r req = go r.head refl
  where
    go : (o : Option Bytes) → r.head ≡ o → IsRead queues (read_sock n queues new_work r)
    go none e = inl (rw (read_sock, e) refl)
    go (some b) e = rw (read_sock, e) (read_fields_empty n queues (new_head b) r (req b e))
