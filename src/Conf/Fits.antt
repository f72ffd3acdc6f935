-- ===== src/Conf/Fits.antt =====
-- kv_conf.cc against the sizes of the buffers in `kv_conf_data`.
use pingkv.Base.{
  ℕ, ◌-◌, ◌≤◌, ◌<◌, ◌≡◌, refl, Bool, true, false, not, ◌||◌, Option, none, some, List, [], ◌∷◌,
  Bytes, length, take, drop, ltb, ◌==◌, if◌then◌else◌, arith, Option-cases, inl, inr, bytes_eq,
  codes,
}
use pingkv.Conf.{ConfData, is_num, atoi, str_to_bytes}
use pingkv.Conf.Params.{
  Param, server_id, db_name, file_path, ip, port, create_file, server_count, file_count,
  lru_cache_size, lru_max_elem_size, param_of, set_param, set_conf_param,
}
use pingkv.Conf.Read.{
  line_head, Regex, KvConf, new_conf, Outcome, done, failed, thrown, undefined, checked, c_string,
  reported, ConfType, global, server, local, find_server, put_server, set_server_param,
  set_global_param, set_local_param, set_type_param, load_line, load_conf, read_conf, finish,
  and_load, server_or_global,
}

-- The texts fit in `db_name[128]`, `ip[20]` and `file_path[256]` with the byte 0 behind them, and
-- there is a server and a file.
pub record Fits (c : ConfData) : Type 0 where
  pub db_name : length c.db_name < 128
  pub ip : length c.ip < 20
  pub file_path : length c.file_path < 256
  pub servers : 1 ≤ c.server_count
  pub files : 1 ≤ c.file_count

-- What holds of both branches holds of an `if`; the second may use that the test failed.
if_holds :
    {A : Type 0} (P : A → Type 0) (b : Bool) {x y : A}
    → P x
    → (b ≡ false → P y)
    → P (if b then x else y)
if_holds P true h k = h
if_holds P false h k = k refl

abbrev IfSet : Option ConfData → Type 0
IfSet none = Unit {0}
IfSet (some c) = Fits c

set_param-Fits : (c : ConfData) (p : Param) (v : Bytes) → Fits c → IfSet (set_param c p v)
unfolding set_param
set_param-Fits c server_id v f = if_holds IfSet (not (is_num v)) tt λ _. record {
  db_name = f.db_name;
  ip = f.ip;
  file_path = f.file_path;
  servers = f.servers;
  files = f.files;
}
set_param-Fits c db_name v f = if_holds IfSet (ltb 127 (length v) || length v == 0) tt λ n. record {
  db_name = ground arith;
  ip = f.ip;
  file_path = f.file_path;
  servers = f.servers;
  files = f.files;
}
set_param-Fits c file_path v f = if_holds IfSet (ltb 127 (length v) || length v == 0) tt λ n.
    record {
      db_name = f.db_name;
      ip = f.ip;
      file_path = ground arith;
      servers = f.servers;
      files = f.files;
    }
set_param-Fits c ip v f = if_holds IfSet (ltb 15 (length v) || ltb (length v) 7) tt λ n. record {
  db_name = f.db_name;
  ip = ground arith;
  file_path = f.file_path;
  servers = f.servers;
  files = f.files;
}
set_param-Fits c port v f = if_holds IfSet (not (is_num v)) tt λ _. record {
  db_name = f.db_name;
  ip = f.ip;
  file_path = f.file_path;
  servers = f.servers;
  files = f.files;
}
set_param-Fits c create_file v f = record {
  db_name = f.db_name;
  ip = f.ip;
  file_path = f.file_path;
  servers = f.servers;
  files = f.files;
}
set_param-Fits c server_count v f = if_holds IfSet (not (is_num v) || ltb (atoi v) 1) tt λ n.
    record {
      db_name = f.db_name;
      ip = f.ip;
      file_path = f.file_path;
      servers = ground arith;
      files = f.files;
    }
set_param-Fits c file_count v f = if_holds IfSet (not (is_num v) || ltb (atoi v) 1) tt λ n. record {
  db_name = f.db_name;
  ip = f.ip;
  file_path = f.file_path;
  servers = f.servers;
  files = ground arith;
}
set_param-Fits c lru_cache_size v f =
    elim (str_to_bytes v)
      as (λ s. IfSet (elim s [ none ↦ none | some i ↦ some (record c { lru_cache_size = i }) ])) [
        | none ↦ tt
        | some i ↦ record {
          db_name = f.db_name;
          ip = f.ip;
          file_path = f.file_path;
          servers = f.servers;
          files = f.files;
        }
      ]
set_param-Fits c lru_max_elem_size v f =
    elim (str_to_bytes v)
      as (λ s.
        IfSet (elim s [ none ↦ none | some i ↦ some (record c { lru_max_elem_size = i }) ])) [
          | none ↦ tt
          | some i ↦ record {
            db_name = f.db_name;
            ip = f.ip;
            file_path = f.file_path;
            servers = f.servers;
            files = f.files;
          }
        ]

set_conf_param-Fits : (c : ConfData) (p v : Bytes) → Fits c → IfSet (set_conf_param c p v)
unfolding set_conf_param
set_conf_param-Fits c p v f =
    elim (param_of p) as (λ o. IfSet (elim o [ none ↦ none | some q ↦ set_param c q v ])) [
      | none ↦ tt
      | some q ↦ set_param-Fits c q v f
    ]

-- The configuration of the database and those of all servers fit.
abbrev ServersFit : List (ℕ × ConfData) → Type 0
ServersFit [] = Unit {0}
ServersFit ((id, c) ∷ confs) = Fits c × ServersFit confs

pub record AllFit (conf : KvConf) : Type 0 where
  pub database : Fits conf.global_conf
  pub every : ServersFit conf.server_conf

-- The state after a call, which may have failed.
abbrev pub OutcomeFits : Outcome → Type 0
OutcomeFits (done conf) = AllFit conf
OutcomeFits (failed conf) = AllFit conf
OutcomeFits thrown = Unit {0}
OutcomeFits undefined = Unit {0}

put_server-Fits :
    (id : ℕ) (c : ConfData) (cs : List (ℕ × ConfData))
    → Fits c
    → ServersFit cs
    → ServersFit (put_server id c cs)
unfolding put_server
put_server-Fits id c [] f fs = (f, tt)
put_server-Fits id c ((k, c') ∷ cs) f (f', fs) =
    if_holds ServersFit (k == id) (f, fs) λ _. (f', put_server-Fits id c cs f fs)

server_or_global-Fits : (conf : KvConf) (id : ℕ) → AllFit conf → Fits (server_or_global conf id)
unfolding find_server
server_or_global-Fits conf id a = found conf.server_conf a.every
  where
    found :
        (cs : List (ℕ × ConfData))
        → ServersFit cs
        → Fits (elim (find_server id cs) [ none ↦ conf.global_conf | some c ↦ c ])
    found [] fs = a.database
    found ((k, c) ∷ cs) (f, fs) =
        if_holds {A = Option ConfData}
          (λ o. Fits (elim o [ none ↦ conf.global_conf | some c' ↦ c' ])) (k == id) f
          λ _. found cs fs

set_local_param-Fits :
    (conf : KvConf) (p v : Bytes) → AllFit conf → OutcomeFits (set_local_param conf p v)
unfolding set_local_param
set_local_param-Fits conf p v a = if_holds OutcomeFits (length p == 0 || length v == 0) a λ _.
    if_holds OutcomeFits (bytes_eq p (codes "server_id"))
      (if_holds OutcomeFits (not (is_num v)) a
        λ _. record { database = a.database; every = a.every })
      λ _. a

set_global_param-Fits :
    (conf : KvConf) (p v : Bytes) → AllFit conf → OutcomeFits (set_global_param conf p v)
unfolding set_global_param
set_global_param-Fits conf p v a = if_holds OutcomeFits (length p == 0 || length v == 0) a λ _.
    elim (Option-cases (set_conf_param conf.global_conf p v)) [
      | inl refused ↦ rw refused a
      | inr (c, e) ↦
          let f : Fits c = rw e at (set_conf_param-Fits conf.global_conf p v a.database) in
          rw e (record { database = f; every = a.every })
    ]

module _ (regex : Regex) where
  set_server_param-Fits :
      (conf : KvConf) (p v : Bytes) → AllFit conf → OutcomeFits (set_server_param regex conf p v)
  unfolding set_server_param
  set_server_param-Fits conf p v a = if_holds OutcomeFits (length p == 0 || length v == 0) a λ _.
      elim (Option-cases (regex.split_servid_param p)) [
        | inl unnamed ↦ rw unnamed a
        | inr ((id, q), e) ↦
            let old = server_or_global conf id in
            let old_fits : Fits old = server_or_global-Fits conf id a in
            rw e (
              if_holds OutcomeFits (length q == 0) a λ _.
                elim (Option-cases (set_conf_param old q v)) [
                  | inl refused ↦ rw refused (record {
                    database = a.database;
                    every = put_server-Fits id old conf.server_conf old_fits a.every;
                  })
                  | inr (c, e') ↦
                      let f : Fits c = rw e' at (set_conf_param-Fits old q v old_fits) in
                      rw e' (record {
                        database = a.database;
                        every = put_server-Fits id c conf.server_conf f a.every;
                      })
                ])
      ]

  set_type_param-Fits :
      (t : ConfType) (conf : KvConf) (p v : Bytes)
      → AllFit conf
      → OutcomeFits (set_type_param regex t conf p v)
  unfolding set_type_param
  set_type_param-Fits global = set_global_param-Fits
  set_type_param-Fits server = set_server_param-Fits
  set_type_param-Fits local = set_local_param-Fits

  load_line-Fits :
      (t : ConfType) (conf : KvConf) (line : Bytes)
      → AllFit conf
      → OutcomeFits (load_line regex t conf line)
  unfolding load_line
  load_line-Fits t conf line a =
      let h = line_head t in
      let (p, v) = regex.get_param_val line in
      if_holds OutcomeFits (not (bytes_eq (take (length h) line) h)) a λ _.
        if_holds OutcomeFits (ltb (length p) (length h)) tt λ _.
          if_holds OutcomeFits (length (drop (length h) p) == 0 || length v == 0) a
            λ _. set_type_param-Fits t conf (drop (length h) p) v a

  load_conf-Fits :
      (t : ConfType) (conf : KvConf) (lines : List Bytes)
      → AllFit conf
      → OutcomeFits (load_conf regex t conf lines)
  unfolding load_conf
  load_conf-Fits t conf [] a = a
  load_conf-Fits t conf (read ∷ lines) a =
      let text = c_string read in
      let line = take (length text - 1) text in
      if_holds OutcomeFits (length text == 0) tt λ _.
        next line (load_line regex t conf line) (load_line-Fits t conf line a)
          (λ conf' a'. load_conf-Fits t conf' lines a')
    where
      next :
          (line : Bytes) (o : Outcome)
          → OutcomeFits o
          → ((conf' : KvConf) → AllFit conf' → OutcomeFits (load_conf regex t conf' lines))
          → OutcomeFits (elim o [
            | done conf' ↦ load_conf regex t conf' lines
            | failed conf' ↦ reported line conf'
            | thrown ↦ thrown
            | undefined ↦ undefined
          ])
      next line (done conf') a' k = k conf' a'
      next line (failed conf') a' k = if_holds OutcomeFits (ltb 8167 (length line)) tt λ _. a'
      next line thrown a' k = tt
      next line undefined a' k = tt

  and_load-Fits :
      (o : Outcome) (t : ConfType) (lines : List Bytes)
      → OutcomeFits o
      → OutcomeFits (and_load regex o t lines)
  and_load-Fits (done conf) t lines a = load_conf-Fits t conf lines a
  and_load-Fits (failed conf) t lines a = a
  and_load-Fits thrown t lines a = tt
  and_load-Fits undefined t lines a = tt

  checked-Fits : (o : Outcome) → OutcomeFits o → OutcomeFits (checked o)
  checked-Fits (done conf) a = a
  checked-Fits (failed conf) a = tt
  checked-Fits thrown a = tt
  checked-Fits undefined a = tt

  finish-Fits : (o : Outcome) → OutcomeFits o → OutcomeFits (finish o)
  finish-Fits (done conf) a = record { database = a.database; every = a.every }
  finish-Fits (failed conf) a = record { database = a.database; every = a.every }
  finish-Fits thrown a = tt
  finish-Fits undefined a = tt

  new_conf-Fits : AllFit new_conf
  new_conf-Fits = record {
    database = record {
      db_name = omega arith;
      ip = omega arith;
      file_path = omega arith;
      servers = omega arith;
      files = omega arith;
    };
    every = tt;
  }

  -- Whenever `read_conf` returns, without an exception or undefined behaviour, every text of the
  -- database and of each server fits in its buffer, and each has at least one server and one file.
  pub read_conf-Fits : (file : Option (List Bytes)) → OutcomeFits (read_conf regex new_conf file)
  unfolding read_conf
  read_conf-Fits none = finish-Fits (failed new_conf) new_conf-Fits
  read_conf-Fits (some lines) = finish-Fits _ (
      checked-Fits _ (
        and_load-Fits _ local lines
          (and_load-Fits _ server lines (load_conf-Fits global new_conf lines new_conf-Fits))))
