-- ===== src/Conf/Params.antt =====
-- The parameters of kv_conf.cc: what a parameter's name and text do to a configuration.
use pingkv.Base.{
  Bool, true, false, Option, none, some, Bytes, length, ◌||◌, not, ltb, ◌==◌, if◌then◌else◌, codes,
  bytes_eq,
}
use pingkv.Conf.{ConfData, is_num, atoi, str_to_bytes}

-- The names that `_set_server_param` tests for, in its order.
pub data Param : Type 0 where
  server_id db_name file_path ip port create_file server_count file_count lru_cache_size
        lru_max_elem_size :
      Param

unfoldable pub param_of : Bytes → Option Param
param_of p =
    if bytes_eq p (codes "server_id")
    then some server_id
    else if bytes_eq p (codes "db_name")
    then some db_name
    else if bytes_eq p (codes "file_path")
    then some file_path
    else if bytes_eq p (codes "ip")
    then some ip
    else if bytes_eq p (codes "port")
    then some port
    else if bytes_eq p (codes "create_file")
    then some create_file
    else if bytes_eq p (codes "server_count")
    then some server_count
    else if bytes_eq p (codes "file_count")
    then some file_count
    else if bytes_eq p (codes "lru_cache_size")
    then some lru_cache_size
    else if bytes_eq p (codes "lru_max_elem_size")
    then some lru_max_elem_size
    else none

-- The value of `create_file`: the `else` of the source belongs to the inner `if`, so that a text
-- that is not a number and not "yes", such as "no", changes nothing.
unfoldable pub create_file_of : Bytes → Bool → Bool
unfolding is_num atoi
create_file_of v old =
    if bytes_eq v (codes "yes") || bytes_eq v (codes "YES") || bytes_eq v (codes "Yes")
    then true
    else if is_num v
    then (if ltb 0 (atoi v) then true else false)
    else old

-- One branch of `_set_server_param`; `none` is -1.
unfoldable pub set_param : ConfData → Param → Bytes → Option ConfData
unfolding is_num atoi str_to_bytes create_file_of
set_param conf server_id v =
    if not (is_num v) then none else some (record conf { server_id = atoi v })
set_param conf db_name v =
    if ltb 127 (length v) || length v == 0 then none else some (record conf { db_name = v })
set_param conf file_path v =
    if ltb 127 (length v) || length v == 0 then none else some (record conf { file_path = v })
set_param conf ip v =
    if ltb 15 (length v) || ltb (length v) 7 then none else some (record conf { ip = v })
set_param conf port v = if not (is_num v) then none else some (record conf { port = atoi v })
set_param conf create_file v =
    some (record conf { create_file = create_file_of v conf.create_file })
set_param conf server_count v =
    if not (is_num v) || ltb (atoi v) 1 then none else some (record conf { server_count = atoi v })
set_param conf file_count v =
    if not (is_num v) || ltb (atoi v) 1 then none else some (record conf { file_count = atoi v })
set_param conf lru_cache_size v = elim (str_to_bytes v) [
  | none ↦ none
  | some i ↦ some (record conf { lru_cache_size = i })
]
set_param conf lru_max_elem_size v = elim (str_to_bytes v) [
  | none ↦ none
  | some i ↦ some (record conf { lru_max_elem_size = i })
]

-- `_set_server_param(kv_conf_data*, p, v)`
unfoldable pub set_conf_param : ConfData → Bytes → Bytes → Option ConfData
unfolding param_of set_param
set_conf_param conf p v = elim (param_of p) [ none ↦ none | some q ↦ set_param conf q v ]
