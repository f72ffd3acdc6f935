-- ===== src/Client.antt =====
-- pingkv/src/client/kv_client.cc: the requests of a client and its reading of the answers. What `send`
-- and `recv` do is given as values: how many bytes a call of `send` took, and the bytes that a call of
-- `recv` wrote, `none` for -1.
pub mod Reply
mod Exchange
mod Tests
use pingkv.Base.{
  ℕ, ◌+◌, ◌*◌, ◌%◌, get_elem?, leb, drop, ◌^◌, Bool, true, false, not, ◌&&◌, Option, none, some,
  List, [], ◌∷◌, ◌++◌, Bytes, length, take, ltb, ◌==◌, if◌then◌else◌,
}
use pingkv.Base.Int.{ℤ, pos, negsuc}
use pingkv.Base.Bits.{bit_and}
use pingkv.Base.Maybe.{◌>>=◌}
use pingkv.Work.{Work, WorkHead, new_work, head_size, head_bytes}
use pingkv.Work.Worker.{flag_req, flag_suc, flag_get, flag_set}

-- The requests of `get`, `set` and `del`; `del` sends the flag of `get`.
abbrev pub get_request : Bytes → Work
get_request k = record new_work {
  head = record { flag = flag_get + flag_req; field1_len = length k % 2 ^ 16; field2_len = 0 };
  field1 = k;
}

abbrev pub set_request : Bytes → Bytes → Work
set_request k v = record new_work {
  head = record {
    flag = flag_set + flag_req;
    field1_len = length k % 2 ^ 16;
    field2_len = length v % 2 ^ 16;
  };
  field1 = k;
  field2 = v;
}

abbrev pub del_request : Bytes → Work
del_request k = record new_work {
  head = record { flag = flag_get + flag_req; field1_len = length k % 2 ^ 16; field2_len = 0 };
  field1 = k;
}

-- The bytes of the calls of `send` in `_send_work`.
abbrev pub field_bytes : ℕ → Bytes → List Bytes
field_bytes n b = if ltb 0 n then take n b ∷ [] else []

abbrev pub sent_pieces : Work → List Bytes
sent_pieces w =
    head_bytes w.head ∷ field_bytes w.head.field1_len w.field1
    ++ field_bytes w.head.field2_len w.field2

-- Whether each call of `send` takes its piece as a whole; the calls end with the first that does not.
abbrev pub all_taken : List Bytes → List (Option ℕ) → Bool
all_taken [] answers = true
all_taken (b ∷ bs) [] = false
all_taken (b ∷ bs) (none ∷ answers) = false
all_taken (b ∷ bs) (some n ∷ answers) = (n == length b) && all_taken bs answers

-- `_send_work`
unfoldable pub send_work : Work → List (Option ℕ) → Bool
send_work w answers = all_taken (sent_pieces w) answers

-- The head that the bytes of a message write over an old one.
abbrev pub byte_at : Bytes → ℕ → ℕ
byte_at b i = elim (get_elem? b i) [ none ↦ 0 | some x ↦ x ]

abbrev pub parse_head : Bytes → WorkHead
parse_head b = record {
  flag = byte_at b 0 + 256 * byte_at b 1;
  field1_len = byte_at b 2 + 256 * byte_at b 3;
  field2_len = byte_at b 4 + 256 * byte_at b 5;
}

-- What the calls of `recv` write.
pub record Received : Type 0 where
  pub head : Option Bytes
  pub field1 : Option Bytes
  pub field2 : Option Bytes

-- The first field goes into a new buffer; -1 if `recv` does not give so many bytes.
unfoldable pub recv_field1 : ℕ → Option Bytes → Option Bytes
recv_field1 n none = if n == 0 then some [] else none
recv_field1 n (some b) = if n == 0 then some [] else if length b == n then some b else none

-- The second field goes into the buffer of the request; the outer `none` is a write behind its end.
unfoldable pub recv_field2 : ℕ → Bytes → Option Bytes → Option (Option Bytes)
recv_field2 n old none = some (if n == 0 then some old else none)
recv_field2 n old (some b) =
    if n == 0
    then some (some old)
    else if ltb (length old) (length b)
    then none
    else some (if length b == n then some (b ++ drop n old) else none)

-- The fields that a head announces; the inner `none` is -1, the outer one is undefined.
unfoldable pub recv_fields : Work → WorkHead → Received → Option (Option Work)
unfolding recv_field1 recv_field2
recv_fields w h r = elim (recv_field1 h.field1_len r.field1) [
  | none ↦ some none
  | some f₁ ↦ elim (recv_field2 h.field2_len w.field2 r.field2) [
    | none ↦ none
    | some none ↦ some none
    | some (some f₂) ↦ some (some (record w { head = h; field1 = f₁; field2 = f₂ }))
  ]
]

-- `_recv_result`
unfoldable pub recv_result : Work → Received → Option (Option Work)
unfolding recv_fields
recv_result w r = elim r.head [
  | none ↦ some none
  | some b ↦
      (let rest = recv_fields w (parse_head b) r in
        if length b == head_size then rest else some none)
]

-- The bytes in front of the zero byte, which `strcpy` copies with it; without one it reads on behind
-- the buffer.
unfoldable pub until_nul : Bytes → Option Bytes
until_nul [] = none
until_nul (c ∷ b) =
    let rest = until_nul b in if c == 0 then some [] else (do s ← rest; some (c ∷ s))

module _ (freed_flag : ℕ → ℕ) where
  -- `flag & KV_WORK_FLAG_SUC == KV_WORK_FLAG_SUC` is `flag & 1`. The flag is read after the message was
  -- deleted: what it then reads as is `freed_flag`.
  unfoldable pub status : ℕ → ℤ
  unfolding bit_and
  status flag = pos (bit_and 16 (freed_flag flag) 1)

  -- What `get` makes of the answer.
  unfoldable pub read_answer : Option (Option Work) → Option (ℤ × Option (Bytes × ℕ))
  unfolding until_nul status
  read_answer none = none
  read_answer (some none) = some (negsuc 0, none)
  read_answer (some (some w)) = do
    v ← until_nul w.field1
    some (status w.head.flag, some (v, w.head.field1_len))

  -- `get`, which returns the value with its length; the outer `none` is undefined.
  unfoldable pub get : Bytes → List (Option ℕ) → Received → Option (ℤ × Option (Bytes × ℕ))
  unfolding send_work recv_result read_answer
  get k answers r =
      let w = get_request k in
      if send_work w answers then read_answer (recv_result w r) else some (negsuc 0, none)

  -- The rest of `set` and `del` for their requests.
  unfoldable pub exchange : Work → List (Option ℕ) → Received → Option ℤ
  unfolding send_work recv_result status
  exchange w answers r =
      if send_work w answers
      then elim (recv_result w r) [
        | none ↦ none
        | some none ↦ some (negsuc 0)
        | some (some a) ↦ some (status a.head.flag)
      ]
      else some (negsuc 0)

  abbrev pub set : Bytes → Bytes → List (Option ℕ) → Received → Option ℤ
  set k v = exchange (set_request k v)

  abbrev pub del : Bytes → List (Option ℕ) → Received → Option ℤ
  del k = exchange (del_request k)
