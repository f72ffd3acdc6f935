-- ===== src/Server/Connections.antt =====
-- pingkv/src/server/kv_server.cc: the connections of a server, from `accept` to the queues of the
-- workers. What `accept`, `epoll_ctl` and `recv` answer is given as values. Which descriptors are open
-- is part of the state; a `none` result is undefined behaviour.
pub mod Accept
pub mod Events
pub mod Reads
pub mod Serving
mod Tests
use pingkv.Base.{
  ℕ, zero, suc, ◌+◌, ◌%◌, ◌^◌, Bool, true, false, Option, none, some, List, [], ◌∷◌, length, ltb,
  ◌==◌, if◌then◌else◌,
}
use pingkv.Base.Int.{ℤ, pos, negsuc}
use pingkv.Base.Maybe.{◌>>=◌}
use pingkv.Poller.{
  PollerArg, Poller, read_arg, regist, unregist, Event, Call, read_call, write_call, handle_event,
}
use pingkv.Server.Files.{opened}
use pingkv.Server.Socket.{Reading, queued, kept, closed, overflow, no_queue, read_sock}
use pingkv.Work.{Work, new_work, put_work}
use pingkv.Client.{Received}

-- The listening socket is `none` for -1. A buffer that a failed read left is `some none`: what is in it
-- is not modelled.
pub record Server : Type 0 where
  pub listen_sock : Option ℕ
  pub file_count : ℕ
  pub poller : Poller
  pub work_bufs : ℕ → Option (Option Work)
  pub req_queue : List (List (ℕ × Work))
  pub open_fds : ℕ → Bool

-- The answers that a callback gets: the descriptor of `accept`, `epoll_ctl` when it adds and when it
-- deletes, and `recv`.
pub record Answers : Type 0 where
  pub accepted : Option ℕ
  pub add_ok : Bool
  pub del_ok : Bool
  pub received : Received

abbrev pub put {ℓ} : {A : Type ℓ} → (ℕ → A) → ℕ → A → ℕ → A
put f k a q = if q == k then a else f q

-- `_req_queue[hash]->put_work(fd, w)`; a number without a queue is undefined.
unfoldable pub put_at : ℕ → ℕ → Work → List (List (ℕ × Work)) → Option (List (List (ℕ × Work)))
put_at n fd w [] = none
put_at zero fd w (q ∷ qs) = some (put_work q fd w ∷ qs)
put_at (suc n) fd w (q ∷ qs) = do rest ← put_at n fd w qs; some (q ∷ rest)

-- `close(fd); _pl->unregist(fd);`, where `_pl` is no pointer: it is read as `_pl.unregist(fd)`.
unfoldable pub close_conn : Bool → ℕ → Server → Option Server
unfolding unregist
close_conn del_ok fd s = do
  p ← unregist del_ok fd s.poller
  some (record s { poller = p; open_fds = put s.open_fds fd false })

-- `_new_work_buf`
abbrev pub new_work_buf : ℕ → Server → Server
new_work_buf fd s = record s { work_bufs = put s.work_bufs fd (some (some new_work)) }

-- `_cb_accept`: its error path looks at the listening socket and not at the one that it closes. When
-- `accept` fails that is -1, which no map has: `unregist` then goes through a null pointer.
unfoldable pub cb_accept : ℕ → Answers → Server → Option Server
unfolding regist close_conn
cb_accept fd a s = elim a.accepted [
  | none ↦ (if ltb 0 fd then none else some s)
  | some cfd ↦
      let (ok, p) = regist a.add_ok (read_arg cfd) s.poller in
      let s₁ = record s { poller = p; open_fds = put s.open_fds cfd true } in
      if ok
      then some (new_work_buf cfd s₁)
      else if ltb 0 fd
      then close_conn a.del_ok cfd s₁
      else some s₁
]

-- What `_cb_read_sock` does with a message.
unfoldable pub after_read : ℕ → Bool → Server → Reading → Option Server
unfolding put_at close_conn
after_read fd del_ok s (queued n w w₁) = do
  qs ← put_at n fd w s.req_queue
  some (record s { req_queue = qs; work_bufs = put s.work_bufs fd (some (some w₁)) })
after_read fd del_ok s (kept w) = some (record s { work_bufs = put s.work_bufs fd (some (some w)) })
after_read fd del_ok s closed =
    close_conn del_ok fd (record s { work_bufs = put s.work_bufs fd (some none) })
after_read fd del_ok s overflow = none
after_read fd del_ok s no_queue = none

-- `_cb_read_sock`; a descriptor without a buffer gives a null pointer.
unfoldable pub cb_read_sock : ℕ → Answers → Server → Option Server
unfolding read_sock after_read
cb_read_sock fd a s = elim (s.work_bufs fd) [
  | none ↦ none
  | some none ↦ none
  | some (some w) ↦
      after_read fd a.del_ok s (read_sock s.file_count (length s.req_queue) w a.received)
]

abbrev pub is_listen : Option ℕ → ℕ → Bool
is_listen none fd = false
is_listen (some g) fd = fd == g

-- The callback of a call of the poller; none was set for writing.
unfoldable pub callback : Answers → Call → Server → Option Server
unfolding cb_accept cb_read_sock
callback a (read_call fd) s =
    if is_listen s.listen_sock fd then cb_accept fd a s else cb_read_sock fd a s
callback a (write_call fd) s = none

unfoldable pub callbacks : Answers → List Call → Server → Option Server
unfolding callback
callbacks a [] s = some s
callbacks a (c ∷ cs) s = do s₁ ← callback a c s; callbacks a cs s₁

-- An event of the poller's loop with its callbacks.
unfoldable pub serve_event : Event → Answers → Server → Option Server
unfolding handle_event callbacks
serve_event e a s = do (cs, p) ← handle_event e s.poller; callbacks a cs (record s { poller = p })

-- The constructor: a queue for each file that the server opens.
abbrev pub empty_queues : List ℕ → List (List (ℕ × Work))
empty_queues [] = []
empty_queues (f ∷ fs) = [] ∷ empty_queues fs

unfoldable pub new_server : ℕ → ℕ → ℕ → Server
unfolding opened
new_server server_count file_count server_id = record {
  listen_sock = none;
  file_count = file_count;
  poller = λ fd. none;
  work_bufs = λ fd. none;
  req_queue = empty_queues (opened server_count file_count server_id);
  open_fds = λ fd. false;
}

-- `_do_listen`, by the answers of `socket`, `bind` and `listen`.
abbrev pub do_listen : Option ℕ → Bool → Bool → Option ℕ
do_listen none bound listening = none
do_listen (some fd) false listening = none
do_listen (some fd) true false = none
do_listen (some fd) true true = some fd

-- The first part of `serv`, up to its threads; `none` is the exit with 1.
unfoldable pub serv : Option ℕ → Bool → Server → Option Server
unfolding regist
serv none add_ok s = none
serv (some fd) add_ok s =
    let (ok, p) = regist add_ok (read_arg fd) s.poller in
    if ok
    then some (record s { listen_sock = some fd; poller = p; open_fds = put s.open_fds fd true })
    else none
