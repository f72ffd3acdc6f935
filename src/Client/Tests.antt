-- ===== src/Client/Tests.antt =====
-- A value that the cache holds, asked for by a client.
use pingkv.Base.{
  ℕ, ◌≡◌, refl, true, false, Option, none, some, [], ◌∷◌, ◌++◌, Bytes, codes, arith, ◌==◌,
  if◌then◌else◌,
}
use pingkv.Base.Int.{pos}
use pingkv.Base.Bits.{has_flag}
use pingkv.Base.Memory.{Memory}
use pingkv.DataFile.{Os}
use pingkv.Hash.{hash_data, queue_no}
use pingkv.Index.Keys.{KvIndex, Answer, answer, minus_one, undefined_call, new_index, get_value}
use pingkv.Lru.{Lru, init}
use pingkv.Work.{Work, new_work}
use pingkv.Work.Worker.{next}
use pingkv.Client.{get_request}
use pingkv.Client.Reply.{received, read_sock-received}
use pingkv.Server.Socket.{queued, read_sock}
use pingkv.Client as Client

-- System calls that succeed.
abbrev os : Os
os = record {
  open_file = true;
  mmap = λ _. true;
  write_block = λ _. true;
  msync = true;
  munmap = λ _. true;
  rand = λ n. n;
  freed_name = some;
  getpid = 7;
  pid_exists = λ _. false;
}

abbrev memory : Memory
memory i = 0

abbrev hands_on : Work → Option Work
hands_on w = some w

-- An index whose cache has the value "v" with a zero byte for the key "k".
abbrev value : Bytes
value = codes "v" ++ 0 ∷ []

abbrev cache : Lru
cache = record (init 1 100 50) {
  tab = (0 ∷ []) ∷ [];
  nodes = λ q.
      if q == 0 then some (record { k = codes "k"; v = value; prev = none; next = none }) else none;
  hot = some 0;
  cold = some 0;
  node_count = 1;
  size = pos 3;
  allocated = 1;
}

abbrev index : KvIndex
index = record (new_index (codes "db") 0) { lru = cache }

abbrev index_of : {A : Type 0} → Answer A → KvIndex
index_of (answer a y) = y
index_of (minus_one y) = y
index_of undefined_call = index

abbrev found_index : KvIndex
found_index = index_of (get_value os memory (codes "k") index)

k_queue : queue_no 4 (codes "k") ≡ pos 0
unfolding queue_no hash_data
k_queue = refl

-- What is read of a message after it is deleted is what was there.
abbrev same_flag : ℕ → ℕ
same_flag flag = flag

read_sock-received_example :
    read_sock 4 4 new_work (received (get_request (codes "k")))
    ≡ queued 0 (get_request (codes "k")) new_work
unfolding has_flag
read_sock-received_example =
    read_sock-received 4 4 0 (get_request (codes "k"))
      (record { field1_ok = refl; field2_ok = refl; not_begun = (refl, refl, refl) }) refl k_queue
      (omega arith)
