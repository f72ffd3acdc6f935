-- ===== src/Conf/Read.antt =====
-- The reader of kv_conf.cc: three passes over the lines of the file, for the database, for each
-- server and for the local server.
use pingkv.Base.{
  ℕ, ◌-◌, Bool, true, false, Option, none, some, List, [], ◌∷◌, Bytes, length, ◌||◌, not, ltb, ◌==◌,
  if◌then◌else◌, codes, bytes_eq, take, drop,
}
use pingkv.Base.Int.{ℤ, pos, negsuc}
use pingkv.Conf.{ConfData, default_conf, is_num, atoi}
use pingkv.Conf.Params.{set_conf_param}

-- What `_get_param_val` and `_split_servid_param` find. A text that the first does not match gives
-- two empty texts; one that the second does not match gives the number -1, here `none`.
pub record Regex : Type 0 where
  pub get_param_val : Bytes → Bytes × Bytes
  pub split_servid_param : Bytes → Option (ℕ × Bytes)

-- `kv_conf`
pub record KvConf : Type 0 where
  pub read_ok : Bool
  pub local_server_id : ℤ
  pub server_conf : List (ℕ × ConfData)
  pub global_conf : ConfData

abbrev pub new_conf : KvConf
new_conf = record {
  read_ok = false;
  local_server_id = negsuc 0;
  server_conf = [];
  global_conf = default_conf;
}

-- The outcome of a call: 0 or -1 with the state after it, an exception, or undefined behaviour.
pub data Outcome : Type 0 where
  done : KvConf → Outcome
  failed : KvConf → Outcome
  thrown undefined : Outcome

-- `_server_conf.find(id)`, and a write to `_server_conf[id]`.
unfoldable pub find_server : ℕ → List (ℕ × ConfData) → Option ConfData
find_server id [] = none
find_server id ((k, c) ∷ confs) = if k == id then some c else find_server id confs

unfoldable pub put_server : ℕ → ConfData → List (ℕ × ConfData) → List (ℕ × ConfData)
put_server id c [] = (id, c) ∷ []
put_server id c ((k, c') ∷ confs) =
    let rest = put_server id c confs in if k == id then (id, c) ∷ confs else (k, c') ∷ rest

pub data ConfType : Type 0 where
  global server local : ConfType

abbrev pub line_head : ConfType → Bytes
line_head global = codes "all."
line_head server = codes "server."
line_head local = codes "local."

-- `_set_local_param`
unfoldable pub set_local_param : KvConf → Bytes → Bytes → Outcome
set_local_param conf p v =
    if length p == 0 || length v == 0
    then failed conf
    else if bytes_eq p (codes "server_id")
    then (if not (is_num v)
        then failed conf
        else done (record conf { local_server_id = pos (atoi v) }))
    else done conf

-- `_set_global_param`
unfoldable pub set_global_param : KvConf → Bytes → Bytes → Outcome
set_global_param conf p v =
    if length p == 0 || length v == 0
    then failed conf
    else elim (set_conf_param conf.global_conf p v) [
      | none ↦ failed conf
      | some c ↦ done (record conf { global_conf = c })
    ]

-- The configuration of a server, which starts as that of the database.
abbrev pub server_or_global : KvConf → ℕ → ConfData
server_or_global conf id = elim (find_server id conf.server_conf) [
  | none ↦ conf.global_conf
  | some c ↦ c
]

-- The label `end` of `read_conf`.
abbrev pub finish : Outcome → Outcome
finish (done conf) = done (record conf { read_ok = true })
finish (failed conf) = failed (record conf { read_ok = false })
finish thrown = thrown
finish undefined = undefined

-- A pass that fails is reported with a `sprintf` that lacks two of its arguments.
abbrev pub checked : Outcome → Outcome
checked (done conf) = done conf
checked (failed conf) = undefined
checked thrown = thrown
checked undefined = undefined

-- The bytes of a text in front of its first zero byte.
unfoldable pub c_string : Bytes → Bytes
c_string [] = []
c_string (c ∷ b) = let rest = c_string b in if c == 0 then [] else c ∷ rest

-- A line that is refused is reported in a buffer of 8192 bytes, with 25 bytes around it.
abbrev pub reported : Bytes → KvConf → Outcome
reported line conf = if ltb 8167 (length line) then undefined else failed conf

module _ (regex : Regex) where
  -- `_set_server_param(p, v)`; a server that is new stays when its parameter is refused.
  unfoldable pub set_server_param : KvConf → Bytes → Bytes → Outcome
  set_server_param conf p v =
      if length p == 0 || length v == 0 then failed conf else elim (regex.split_servid_param p) [
        | none ↦ failed conf
        | some (id, q) ↦
            let old = server_or_global conf id in
            if length q == 0 then failed conf else elim (set_conf_param old q v) [
              | none ↦ failed (record conf { server_conf = put_server id old conf.server_conf })
              | some c ↦ done (record conf { server_conf = put_server id c conf.server_conf })
            ]
      ]

  unfoldable pub set_type_param : ConfType → KvConf → Bytes → Bytes → Outcome
  unfolding set_server_param set_global_param set_local_param
  set_type_param global conf p v = set_global_param conf p v
  set_type_param server conf p v = set_server_param conf p v
  set_type_param local conf p v = set_local_param conf p v

  -- One round of the loop of `_load_conf` on a line with its last byte taken off. `substr` throws
  -- when the name is shorter than the head of the line, as it is when the line has no `=`.
  unfoldable pub load_line : ConfType → KvConf → Bytes → Outcome
  unfolding set_type_param
  load_line t conf line =
      let h = line_head t in
      let (p, v) = regex.get_param_val line in
      if not (bytes_eq (take (length h) line) h)
      then done conf
      else if ltb (length p) (length h)
      then thrown
      else if length (drop (length h) p) == 0 || length v == 0
      then failed conf
      else set_type_param t conf (drop (length h) p) v

  -- The loop of `_load_conf` over what `fgets` gives. The last byte of a line, its line feed, is taken
  -- off; for a line that begins with a zero byte that is a write in front of the buffer.
  unfoldable pub load_conf : ConfType → KvConf → List Bytes → Outcome
  unfolding c_string
  load_conf t conf [] = done conf
  load_conf t conf (read ∷ lines) =
      let text = c_string read in
      let line = take (length text - 1) text in
      if length text == 0 then undefined else elim (load_line t conf line) [
        | done conf' ↦ load_conf t conf' lines
        | failed conf' ↦ reported line conf'
        | thrown ↦ thrown
        | undefined ↦ undefined
      ]

  abbrev pub and_load : Outcome → ConfType → List Bytes → Outcome
  and_load (done conf) t lines = load_conf t conf lines
  and_load (failed conf) t lines = failed conf
  and_load thrown t lines = thrown
  and_load undefined t lines = undefined

  -- `read_conf`; `none` is a file that cannot be opened.
  unfoldable pub read_conf : KvConf → Option (List Bytes) → Outcome
  unfolding load_conf
  read_conf conf none = finish (failed conf)
  read_conf conf (some lines) =
      finish (checked (and_load (and_load (load_conf global conf lines) server lines) local lines))

-- `get_server_count`, `get_local_server_id` and `get_server_conf`; a number that is not known ends
-- the process.
abbrev pub get_server_count : KvConf → ℕ
get_server_count conf = length conf.server_conf

abbrev pub get_local_server_id : KvConf → ℤ
get_local_server_id conf = conf.local_server_id

abbrev pub get_server_conf : KvConf → ℕ → Option ConfData
get_server_conf conf id = find_server id conf.server_conf
