-- ===== src/Server/Connections/Tests.antt =====
-- A server of four files that listens on the descriptor 4 and gets a request on the connection 9.
use pingkv.Base.{
  ◌≡◌, refl, true, false, none, some, [], ◌∷◌, codes, arith, length, get_elem?, ltb, ◌==◌,
  if◌then◌else◌,
}
use pingkv.Base.Bits.{has_flag}
use pingkv.Base.Int.{pos}
use pingkv.Hash.{hash_data, queue_no}
use pingkv.Poller.{read_arg, Event}
use pingkv.Server.Files.{opened}
use pingkv.Server.Connections.{
  Server, Answers, cb_accept, cb_read_sock, is_listen, new_server, serv,
}
use pingkv.Server.Connections.Accept.{cb_read_sock-cb_accept, serv-IsServing}
use pingkv.Server.Connections.Serving.{IsServing}
use pingkv.Work.{Work, new_work}
use pingkv.Work.Worker.{flag_req}
use pingkv.Client.{get_request}
use pingkv.Client.Reply.{IsWhole, received}

abbrev request : Work
request = get_request (codes "ab")

request-IsWhole : IsWhole request
request-IsWhole = record { field1_ok = refl; field2_ok = refl; not_begun = (refl, refl, refl) }

request_flag : has_flag request.head.flag flag_req ≡ true
unfolding has_flag
request_flag = refl

-- Both callbacks are answered; the second event brings the request.
abbrev answers : Answers
answers = record { accepted = some 9; add_ok = true; del_ok = false; received = received request }

-- The connection 9 has a buffer, and so has 8, which was closed.
abbrev server : Server
server = record {
  listen_sock = some 4;
  file_count = 4;
  poller = λ fd. if fd == 4 then some (read_arg 4) else if fd == 9 then some (read_arg 9) else none;
  work_bufs = λ fd. if fd == 8 then some none else if fd == 9 then some (some new_work) else none;
  req_queue = [] ∷ [] ∷ [] ∷ [] ∷ [];
  open_fds = λ fd. if fd == 4 then true else fd == 9;
}

request_queue : queue_no 4 (codes "ab") ≡ pos 1
unfolding queue_no hash_data
request_queue = refl

abbrev arrival : Event
arrival = record { fd = 9; error = false; ctl_ok = true }

cb_read_sock-cb_accept_example :
    (t : Server) × (u : Server) × (cb_accept 4 answers server ≡ some t)
    × (cb_read_sock 9 answers t ≡ some u)
    × (get_elem? u.req_queue 1 ≡ some ((9, request) ∷ []))
    × (get_elem? u.req_queue 2 ≡ get_elem? server.req_queue 2)
    × (u.work_bufs 9 ≡ some (some new_work))
cb_read_sock-cb_accept_example =
    cb_read_sock-cb_accept 4 9 1 2 answers answers server request [] (omega arith) refl refl
      request-IsWhole request_flag refl request_queue refl

serv-IsServing_example :
    (t : Server) × (serv (some 4) true (new_server 2 8 1) ≡ some t)
    × IsServing t
    × (t.poller 4 ≡ some (read_arg 4))
    × (is_listen t.listen_sock 4 ≡ true)
    × (t.poller 9 ≡ none)
    × (t.work_bufs 9 ≡ none)
    × (get_elem? t.req_queue 2 ≡ (if ltb 2 (length (opened 2 8 1)) then some [] else none))
serv-IsServing_example = serv-IsServing 4 2 8 1 9 2 (omega arith)
