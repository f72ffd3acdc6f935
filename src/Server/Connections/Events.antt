-- ===== src/Server/Connections/Events.antt =====
-- pingkv/src/server/kv_server.cc and tool/kv_poller.cc: an event of the poller with its callbacks.
use pingkv.Base.{ℕ, zero, suc, ◌<◌, ◌≡◌, ◌≢◌, refl, true, some, List, [], ◌∷◌, Bytes, length, arith}
use pingkv.Base.Bits.{has_flag}
use pingkv.Poller.{Poller}
use pingkv.Server.Socket.{no_queue, read_sock}
use pingkv.Server.Connections.{Server, put_at}
use pingkv.Server.Connections.Reads.{new_head}
use pingkv.Work.{Work, new_work, put_work}
use pingkv.Work.Worker.{flag_req}
use pingkv.Client.{Received}

pub put_at-some :
    (n fd : ℕ) (w : Work) (qs : List (List (ℕ × Work)))
    → n < length qs
    → (qs₁ : List (List (ℕ × Work))) × (put_at n fd w qs ≡ some qs₁)
unfolding put_at
put_at-some n fd w [] lt = absurd (omega arith)
put_at-some zero fd w (q ∷ qs) lt = (put_work q fd w ∷ qs, refl)
put_at-some (suc n) fd w (q ∷ qs) lt =
    let (rest, e) = put_at-some n fd w qs (omega arith) in (q ∷ rest, rw (put_at, e) refl)

-- A message that is no request for a queue that the server lacks.
abbrev pub InRange : ℕ → List (List (ℕ × Work)) → Received → Type 0
InRange file_count qs r = read_sock file_count (length qs) new_work r ≢ no_queue

-- The message is a request.
abbrev pub IsRequest : Received → Type 0
IsRequest r = (b : Bytes) → r.head ≡ some b → has_flag (new_head b).flag flag_req ≡ true
