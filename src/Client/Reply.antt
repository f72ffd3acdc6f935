-- ===== src/Client/Reply.antt =====
-- pingkv/src/client/kv_client.cc: a request on its way from the client through the server and the
-- worker and back.
use pingkv.Base.{
  ℕ, zero, suc, ◌+◌, ◌*◌, ◌/◌, ◌%◌, ◌^◌, ◌<◌, ◌≡◌, ◌≢◌, refl, sym, ap, ◌∙◌, true, false, Option,
  some, List, [], ◌∷◌, ◌++◌, Bytes, length, take, drop, ltb, lt→ltb, ◌==◌, arith, append-nil,
  take_of_length-le,
}
use pingkv.Base.Int.{pos}
use pingkv.Base.Bits.{has_flag}
use pingkv.Base.Memory.{Memory}
use pingkv.DataFile.{Os}
use pingkv.Hash.{queue_no}
use pingkv.Index.Keys.{KvIndex, answer, get_value}
use pingkv.Work.{Work, WorkHead, new_work, head_bytes}
use pingkv.Work.Worker.{
  flag_req, flag_suc, make_result, value_bytes, served, serve, next, work_round,
}
use pingkv.Client.{
  Received, all_taken, sent_pieces, parse_head, send_work, recv_result, recv_fields, read_answer,
  recv_field1, recv_field2, until_nul, status, get, get_request,
}
use pingkv.Server.Socket.{queued, read_field, read_fields, enqueue, dispatch, read_sock}

-- A message as a whole: its lengths are those of its fields.
pub record IsWhole (w : Work) : Type 0 where
  pub field1_ok : w.head.field1_len ≡ length w.field1
  pub field2_ok : w.head.field2_len ≡ length w.field2
  pub not_begun : (w.head_offset ≡ 0) × (w.field1_offset ≡ 0) × (w.field2_offset ≡ 0)

-- What `recv` gives of a message that was sent as a whole.
abbrev pub received : Work → Received
received w = record {
  head = some (head_bytes w.head);
  field1 = some w.field1;
  field2 = some w.field2;
}

parse_head-head_bytes : (h : WorkHead) (b : Bytes) → parse_head (head_bytes h ++ b) ≡ h
parse_head-head_bytes h b =
    let mk : ℕ → ℕ → ℕ → WorkHead = λ x y z. record { flag = x; field1_len = y; field2_len = z } in
    let whole : (x : ℕ) → x % 256 + 256 * (x / 256) ≡ x = λ x. omega arith in
    ap
      (λ x.
        mk x (h.field1_len % 256 + 256 * (h.field1_len / 256))
          (h.field2_len % 256 + 256 * (h.field2_len / 256)))
      (whole h.flag)
    ∙ ap (λ y. mk h.flag y (h.field2_len % 256 + 256 * (h.field2_len / 256))) (whole h.field1_len)
    ∙ ap (mk h.flag h.field1_len) (whole h.field2_len)

-- A message that was not begun is its head and its fields.
with_fields : WorkHead → Bytes → Bytes → Work
with_fields h f₁ f₂ = record new_work { head = h; field1 = f₁; field2 = f₂ }

whole_message : (w : Work) → IsWhole w → with_fields w.head w.field1 w.field2 ≡ w
unfolding with_fields
whole_message w i =
    let (a, b, c) = i.not_begun in
    let mk : ℕ → ℕ → ℕ → Work = λ x y z. record (with_fields w.head w.field1 w.field2) {
      head_offset = x;
      field1_offset = y;
      field2_offset = z;
    } in
    ap (λ x. mk x 0 0) (sym a)
    ∙ ap (λ y. mk w.head_offset y 0) (sym b)
    ∙ ap (mk w.head_offset w.field1_offset) (sym c)

empty : (b : Bytes) → length b ≡ 0 → b ≡ []
empty [] h = refl
empty (c ∷ b) h = absurd (omega (arith, h))

drop_nil : (n : ℕ) → drop {A = ℕ} n [] ≡ []
drop_nil zero = refl
drop_nil (suc n) = refl

read_field_whole : (n : ℕ) (b : Bytes) → n ≡ length b → read_field n [] (some b) ≡ some (some b)
unfolding read_field
read_field_whole n [] e = ground (arith, e)
read_field_whole n (c ∷ b) e =
    let d = drop_nil n in let a = append-nil (c ∷ b) in ground (arith, e, d, a)

read_fields_runs :
    (n queues : ℕ) (w : Work) (h : WorkHead) (r : Received) (f₁ f₂ : Bytes)
    → read_field h.field1_len w.field1 r.field1 ≡ some (some f₁)
    → read_field h.field2_len w.field2 r.field2 ≡ some (some f₂)
    → read_fields n queues w h r
      ≡ dispatch n queues (record w { head = h; field1 = f₁; field2 = f₂ })
unfolding read_fields
read_fields_runs n queues w h r f₁ f₂ e₂ e₃ = rw (read_fields, e₂, e₃) refl

read_sock-read_fields :
    (n queues : ℕ) (w v : Work)
    → read_sock n queues w (received v)
      ≡ read_fields n queues w
          (parse_head (head_bytes v.head ++ drop 6 (head_bytes w.head)))
          (received v)
unfolding read_sock
read_sock-read_fields n queues w v = refl

dispatch_whole :
    (n queues k : ℕ) (w : Work)
    → IsWhole w
    → has_flag w.head.flag flag_req ≡ true
    → queue_no n w.field1 ≡ pos k
    → k < queues
    → dispatch n queues w ≡ queued k w new_work
unfolding dispatch enqueue
dispatch_whole n queues k w i flag number lt =
    let len = i.field1_ok in
    let inside : ltb k queues ≡ true = lt→ltb _ _ lt in
    rw (flag, take_of_length-le w.head.field1_len w.field1 (omega (arith, len)), number, inside)
      refl

-- A request that arrives as a whole in the empty message of its connection, and whose hash names a
-- queue of the server, is put as it was sent into that queue.
pub read_sock-received :
    (n queues k : ℕ) (w : Work)
    → IsWhole w
    → has_flag w.head.flag flag_req ≡ true
    → queue_no n w.field1 ≡ pos k
    → k < queues
    → read_sock n queues new_work (received w) ≡ queued k w new_work
unfolding with_fields
read_sock-received n queues k w i flag number lt =
    read_sock-read_fields n queues new_work w
    ∙ ap (λ h. read_fields n queues new_work h (received w)) (parse_head-head_bytes w.head [])
    ∙ read_fields_runs n queues new_work w.head (received w) w.field1 w.field2
        (read_field_whole w.head.field1_len w.field1 i.field1_ok)
        (read_field_whole w.head.field2_len w.field2 i.field2_ok)
    ∙ ap (dispatch n queues) (whole_message w i)
    ∙ dispatch_whole n queues k w i flag number lt

module _ (os : Os) (fresh : Memory) (fresh_bytes : ℕ → Bytes) (returned : Work → Option Work)
    (returns : (r : Work) → returned r ≡ some r) where
  pub serve_get :
      (k : Bytes) (x y : KvIndex) (v : Option Bytes)
      → length k < 2 ^ 15
      → get_value os fresh k x ≡ answer v y
      → serve os fresh fresh_bytes returned (get_request k) x
        ≡ served (some (make_result flag_suc (value_bytes v))) y
  unfolding serve has_flag
  serve_get k x y v small e =
      let t : take (length k % 2 ^ 16) k ≡ k =
        take_of_length-le (length k % 2 ^ 16) k (omega (arith, small)) in
      let short : ltb 32767 (length k % 2 ^ 16) ≡ false = ground (arith, small) in
      rw (short, t, e) (ap (λ o. served o y) (returns (make_result flag_suc (value_bytes v))))

  pub round_served :
      (fd : ℕ) (w r : Work) (x y : KvIndex) (rest results : List (ℕ × Work))
      → fd ≢ 0
      → serve os fresh fresh_bytes returned w x ≡ served (some r) y
      → work_round os fresh fresh_bytes returned
          (record { requests = (fd, w) ∷ rest; results = results; index = x })
        ≡ next (record { requests = rest; results = results ++ (fd, r) ∷ []; index = y })
  unfolding work_round
  round_served fd w r x y rest results ne e =
      let z : (fd == 0) ≡ false = ground (arith, ne) in rw (z, e) refl

-- The answers of `send` that takes every piece as a whole.
abbrev pub taken : List Bytes → List (Option ℕ)
taken [] = []
taken (b ∷ bs) = some (length b) ∷ taken bs

all_taken-taken : (bs : List Bytes) → all_taken bs (taken bs) ≡ true
all_taken-taken [] = refl
all_taken-taken (b ∷ bs) = let ih = all_taken-taken bs in ground (arith, ih)

recv_field1_whole : (n : ℕ) (b : Bytes) → n ≡ length b → recv_field1 n (some b) ≡ some b
unfolding recv_field1
recv_field1_whole n [] e = ground (arith, e)
recv_field1_whole n (c ∷ b) e = ground (arith, e)

recv_field2_none : (old b : Bytes) → recv_field2 0 old (some b) ≡ some (some old)
unfolding recv_field2
recv_field2_none old b = refl

recv_fields_runs :
    (w : Work) (h : WorkHead) (r : Received) (f₁ f₂ : Bytes)
    → recv_field1 h.field1_len r.field1 ≡ some f₁
    → recv_field2 h.field2_len w.field2 r.field2 ≡ some (some f₂)
    → recv_fields w h r ≡ some (some (record w { head = h; field1 = f₁; field2 = f₂ }))
unfolding recv_fields
recv_fields_runs w h r f₁ f₂ e₁ e₂ = rw (recv_fields, e₁, e₂) refl

recv_result-recv_fields :
    (w a : Work)
    → recv_result w (received a) ≡ recv_fields w (parse_head (head_bytes a.head)) (received a)
unfolding recv_result
recv_result-recv_fields w a = refl

recv_result-received :
    (w : Work) (f : ℕ) (v : Bytes)
    → length v < 2 ^ 16
    → recv_result w (received (make_result f v))
      ≡ some (some (record w { head = (make_result f v).head; field1 = v }))
recv_result-received w f v small =
    let a = make_result f v in
    recv_result-recv_fields w a
    ∙ ap (λ h. recv_fields w h (received a)) (parse_head-head_bytes a.head [])
    ∙ recv_fields_runs w a.head (received a) v w.field2
        (recv_field1_whole (length v % 2 ^ 16) v (omega (arith, small)))
        (recv_field2_none w.field2 [])

send_work-taken : (w : Work) → send_work w (taken (sent_pieces w)) ≡ true
unfolding send_work
send_work-taken w = all_taken-taken (sent_pieces w)

get_runs :
    (freed_flag : ℕ → ℕ) (k : Bytes) (answers : List (Option ℕ)) (r : Received) (w : Work)
    (s : Bytes)
    → send_work (get_request k) answers ≡ true
    → recv_result (get_request k) r ≡ some (some w)
    → until_nul w.field1 ≡ some s
    → get freed_flag k answers r ≡ some (status freed_flag w.head.flag, some (s, w.head.field1_len))
unfolding get
get_runs freed_flag k answers r w s e₁ e₂ e₃ = rw (get, e₁, e₂, read_answer, e₃) refl

pub get-received :
    (freed_flag : ℕ → ℕ) (k v s : Bytes)
    → length v < 2 ^ 16
    → until_nul v ≡ some s
    → get freed_flag k (taken (sent_pieces (get_request k))) (received (make_result flag_suc v))
      ≡ some (status freed_flag flag_suc, some (s, length v))
get-received freed_flag k v s small e =
    let a = make_result flag_suc v in
    let whole : length v % 2 ^ 16 ≡ length v = omega (arith, small) in
    get_runs freed_flag k (taken (sent_pieces (get_request k))) (received a)
      (record (get_request k) { head = a.head; field1 = v }) s (send_work-taken (get_request k))
      (recv_result-received (get_request k) flag_suc v small) e
    ∙ ap (λ n. some (status freed_flag flag_suc, some (s, n))) whole
