-- ===== src/Work/Worker.antt =====
-- pingkv/src/server/kv_worker.cc: the worker, which takes a request out of its queue, calls the index
-- and puts the result into the queue of the sender. The locks are left out.
--
-- The lengths of a message have 16 bits without a sign, and the index takes the length of a key as a
-- `short`: one from 2 ^ 15 on arrives as a negative number, and the copies and comparisons of so many
-- bytes are undefined.
-- `_make_result` has no return statement. What its caller gets, given the result that it made, is the
-- parameter `returned`; `none` is the null pointer. The length of a value is cut to 16 bits.
use pingkv.Base.{
  ℕ, ◌+◌, ◌%◌, ◌^◌, Option, none, some, List, [], ◌∷◌, ◌++◌, Bytes, length, take, ltb, ◌==◌,
  if◌then◌else◌,
}
use pingkv.Base.Bits.{has_flag}
use pingkv.Base.Memory.{Memory}
use pingkv.DataFile.{Os}
use pingkv.Index.Keys.{
  KvIndex, Answer, answer, minus_one, undefined_call, get_value, set_value, del_value,
}
use pingkv.Work.{Work, new_work, put_work}

-- The flags of kv_work.h.
abbrev pub flag_req : ℕ
flag_req = 4096

abbrev pub flag_suc : ℕ
flag_suc = 8192

abbrev pub flag_err : ℕ
flag_err = 16384

abbrev pub flag_get : ℕ
flag_get = 256

abbrev pub flag_set : ℕ
flag_set = 512

abbrev pub flag_del : ℕ
flag_del = 1024

abbrev pub flag_cmd : ℕ
flag_cmd = 2048

-- `_make_result` without a second field.
abbrev pub make_result : ℕ → Bytes → Work
make_result flag v = record new_work {
  head = record { flag = flag; field1_len = length v % 2 ^ 16; field2_len = 0 };
  field1 = v;
}

-- `_err_result`: the text and a zero byte.
abbrev pub err_result : Bytes → Work
err_result e = record new_work {
  head = record { flag = flag_err; field1_len = (length e + 1) % 2 ^ 16; field2_len = 0 };
  field1 = e ++ 0 ∷ [];
}

-- `none` is the null value.
abbrev pub value_bytes : Option Bytes → Bytes
value_bytes none = []
value_bytes (some v) = v

-- The result of a request with the index after it; the pointer to the result is null for a request
-- with none of the flags.
pub data Served : Type 0 where
  served : Option Work → KvIndex → Served
  undefined_served : Served

-- The worker with the queues it works between.
pub record Worker : Type 0 where
  pub requests : List (ℕ × Work)
  pub results : List (ℕ × Work)
  pub index : KvIndex

pub data Round : Type 0 where
  next : Worker → Round
  waits aborts undefined_round : Round

module _ (os : Os) (fresh : Memory) (fresh_bytes : ℕ → Bytes) (returned : Work → Option Work) where
  -- A result of the index, and the answer that it is made into.
  abbrev pub serve_with : {A : Type 0} → (A → Bytes) → Answer A → Served
  serve_with f (answer a x) = served (returned (make_result flag_suc (f a))) x
  serve_with f (minus_one x) = served (returned (make_result flag_err [])) x
  serve_with f undefined_call = undefined_served

  -- The length of the key as a `short`.
  abbrev pub on_key : ℕ → Served → Served
  on_key n r = if ltb 32767 n then undefined_served else r

  -- The branches of `work` on the flags of a request.
  unfoldable pub serve : Work → KvIndex → Served
  serve w x =
      let k = take w.head.field1_len w.field1 in
      let v = take w.head.field2_len w.field2 in
      if has_flag w.head.flag flag_get
      then on_key w.head.field1_len (serve_with value_bytes (get_value os fresh k x))
      else if has_flag w.head.flag flag_set
      then on_key w.head.field1_len (serve_with (λ _. []) (set_value os fresh fresh_bytes k v x))
      else if has_flag w.head.flag flag_del
      then on_key w.head.field1_len (serve_with (λ _. []) (del_value os fresh k x))
      else served none x

  -- `_put_res` for a result that is not null.
  abbrev pub finish_round : List (ℕ × Work) → List (ℕ × Work) → ℕ → Served → Round
  finish_round requests results fd (served none x) = aborts
  finish_round requests results fd (served (some r) x) =
      next (record { requests = requests; results = put_work results fd r; index = x })
  finish_round requests results fd undefined_served = undefined_round

  -- A round of `work`, with `_get_work`, which waits for an empty queue.
  unfoldable pub work_round : Worker → Round
  unfolding serve
  work_round s = elim s.requests [
    | [] ↦ waits
    | (fd, w) ∷ rest ↦
        (if fd == 0
          then next (record s { requests = rest })
          else finish_round rest s.results fd (serve w s.index))
  ]
