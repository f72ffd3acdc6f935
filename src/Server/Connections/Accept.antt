-- ===== src/Server/Connections/Accept.antt =====
-- pingkv/src/server/kv_server.cc: the start of a server, and the first request of a new connection.
use pingkv.Base.{
  ℕ, zero, suc, ◌≡◌, ◌≢◌, refl, ap, true, false, none, some, List, [], ◌∷◌, ◌++◌, length, get_elem?,
  ltb, if◌then◌else◌, ◌==◌, arith, Bool-cases, inl, inr,
}
use pingkv.Base.Bits.{has_flag}
use pingkv.Base.Int.{pos}
use pingkv.DataFile.InPlace.{length-get_elem?}
use pingkv.Hash.{queue_no}
use pingkv.Poller.{put_arg, read_arg, regist}
use pingkv.Server.Files.{opened}
use pingkv.Server.Socket.{queued, read_sock}
use pingkv.Server.Connections.{
  Server, Answers, put, put_at, new_work_buf, cb_accept, after_read, cb_read_sock, is_listen,
  new_server, empty_queues, serv,
}
use pingkv.Server.Connections.Serving.{IsServing, put_here}
use pingkv.Work.{Work, new_work, put_work}
use pingkv.Work.Worker.{flag_req}
use pingkv.Client.Reply.{IsWhole, received, read_sock-received}

-- A queue that is there takes the message at its end, and another queue `m` does not change.
get_elem?-put_at :
    (n fd : ℕ) (w : Work) (q : List (ℕ × Work)) (qs : List (List (ℕ × Work)))
    → get_elem? qs n ≡ some q
    → (qs₁ : List (List (ℕ × Work))) × (put_at n fd w qs ≡ some qs₁)
      × (get_elem? qs₁ n ≡ some (q ++ (fd, w) ∷ []))
      × ((m : ℕ) → m ≢ n → get_elem? qs₁ m ≡ get_elem? qs m)
unfolding put_at
get_elem?-put_at n fd w q [] e = absurd (cc)
get_elem?-put_at zero fd w q (p ∷ qs) e =
    (put_work p fd w ∷ qs, refl, let same : p ≡ q = cc in rw same refl, other)
  where
    other : (m : ℕ) → m ≢ 0 → get_elem? (put_work p fd w ∷ qs) m ≡ get_elem? (p ∷ qs) m
    other zero h = absurd (h refl)
    other (suc m) h = refl
get_elem?-put_at (suc n) fd w q (p ∷ qs) e =
    let (rest, puts, here, others) = get_elem?-put_at n fd w q qs e in
    (p ∷ rest, rw (put_at, puts) refl, here, other rest others)
  where
    other :
        (rest : List (List (ℕ × Work)))
        → ((m : ℕ) → m ≢ n → get_elem? rest m ≡ get_elem? qs m)
        → (m : ℕ) → m ≢ suc n
        → get_elem? (p ∷ rest) m ≡ get_elem? (p ∷ qs) m
    other rest others zero h = refl
    other rest others (suc m) h = others m λ same. h (ap suc same)

cb_accept_runs :
    (fd cfd : ℕ) (a : Answers) (s : Server)
    → a.accepted ≡ some cfd
    → a.add_ok ≡ true
    → cb_accept fd a s
      ≡ some (
          new_work_buf cfd (record s {
            poller = put_arg s.poller cfd (some (read_arg cfd));
            open_fds = put s.open_fds cfd true;
          }))
unfolding cb_accept regist
cb_accept_runs fd cfd a s acc ok = rw (cb_accept, acc, ok) refl

cb_read_sock_runs :
    (fd : ℕ) (a : Answers) (s : Server) (w w₁ : Work) (n : ℕ) (qs : List (List (ℕ × Work)))
    → s.work_bufs fd ≡ some (some w)
    → read_sock s.file_count (length s.req_queue) w a.received ≡ queued n w₁ new_work
    → put_at n fd w₁ s.req_queue ≡ some qs
    → cb_read_sock fd a s
      ≡ some (record s { req_queue = qs; work_bufs = put s.work_bufs fd (some (some new_work)) })
unfolding cb_read_sock after_read
cb_read_sock_runs fd a s w w₁ n qs here reads puts =
    rw (cb_read_sock, here, reads, after_read, puts) refl

-- When `accept` gives the descriptor `cfd`, `epoll_ctl` takes it, and then a request arrives as a whole
-- whose hash names a queue of the server: whatever an earlier connection left under `cfd`, the request
-- is put at the end of that queue as it was sent, with `cfd`, another queue `m` does not change, and the
-- connection has an empty buffer for the next message.
pub cb_read_sock-cb_accept :
    (fd cfd n m : ℕ) (a b : Answers) (s : Server) (w : Work) (q : List (ℕ × Work))
    → m ≢ n
    → a.accepted ≡ some cfd
    → a.add_ok ≡ true
    → IsWhole w
    → has_flag w.head.flag flag_req ≡ true
    → b.received ≡ received w
    → queue_no s.file_count w.field1 ≡ pos n
    → get_elem? s.req_queue n ≡ some q
    → (t : Server) × (u : Server) × (cb_accept fd a s ≡ some t)
      × (cb_read_sock cfd b t ≡ some u)
      × (get_elem? u.req_queue n ≡ some (q ++ (cfd, w) ∷ []))
      × (get_elem? u.req_queue m ≡ get_elem? s.req_queue m)
      × (u.work_bufs cfd ≡ some (some new_work))
cb_read_sock-cb_accept fd cfd n m a b s w q other acc ok whole req arrives number there =
    let t = new_work_buf cfd (record s {
      poller = put_arg s.poller cfd (some (read_arg cfd));
      open_fds = put s.open_fds cfd true;
    }) in
    let (qs, puts, here, others) = get_elem?-put_at n cfd w q s.req_queue there in
    let inside = length-get_elem? s.req_queue n q there in
    let reads : read_sock s.file_count (length s.req_queue) new_work b.received
        ≡ queued n w new_work =
      rw arrives
        (read_sock-received s.file_count (length s.req_queue) n w whole req number inside) in
    let empty = put_here s.work_bufs cfd (some (some new_work)) in
    (
      t,
      record t { req_queue = qs; work_bufs = put t.work_bufs cfd (some (some new_work)) },
      cb_accept_runs fd cfd a s acc ok,
      cb_read_sock_runs cfd b t new_work w n qs empty reads puts,
      here,
      others m other,
      put_here t.work_bufs cfd (some (some new_work)),
    )

get_elem?-empty_queues :
    (fs : List ℕ) (n : ℕ)
    → get_elem? (empty_queues fs) n ≡ (if ltb n (length fs) then some [] else none)
get_elem?-empty_queues [] n = ground arith
get_elem?-empty_queues (f ∷ fs) zero = ground arith
get_elem?-empty_queues (f ∷ fs) (suc n) = ground (arith, get_elem?-empty_queues fs n)

-- A server whose socket listens and is registered starts: it waits for connections on that socket, any
-- descriptor `g` but the socket is not registered and has no buffer, and a queue `n` is there, and
-- empty, when `n` is below the number of files that the server opens.
pub serv-IsServing :
    (fd server_count file_count server_id g n : ℕ)
    → g ≢ fd
    → (t : Server) × (serv (some fd) true (new_server server_count file_count server_id) ≡ some t)
      × IsServing t
      × (t.poller fd ≡ some (read_arg fd))
      × (is_listen t.listen_sock fd ≡ true)
      × (t.poller g ≡ none)
      × (t.work_bufs g ≡ none)
      × (get_elem? t.req_queue n
          ≡ (if ltb n (length (opened server_count file_count server_id)) then some [] else none))
unfolding serv new_server regist
serv-IsServing fd server_count file_count server_id g n other =
    let s = new_server server_count file_count server_id in
    (
      record s {
        listen_sock = some fd;
        poller = put_arg s.poller fd (some (read_arg fd));
        open_fds = put s.open_fds fd true;
      },
      refl,
      record {
        args = λ g b e. elim (Bool-cases (g == fd)) [
          | inl same ↦
              let this : some (read_arg fd) ≡ some b = rw same at e in
              let at_fd : g ≡ fd = ground arith in rw at_fd (cc)
          | inr other ↦ let gone : none ≡ some b = rw other at e in absurd (cc)
        ];
        bufs = λ g b o e l. let shut : false ≡ true = rw l at o in absurd (cc);
      },
      put_here s.poller fd (some (read_arg fd)),
      ground arith,
      ground (arith, other),
      refl,
      get_elem?-empty_queues (opened server_count file_count server_id) n,
    )
