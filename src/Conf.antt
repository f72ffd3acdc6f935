-- ===== src/Conf.antt =====
-- pingkv/src/conf/kv_conf.h and kv_conf.cc: the configuration of a database and its servers.
--
-- The two regular expressions of boost are a parameter `Regex` of the model: what `_get_param_val`
-- and `_split_servid_param` take out of a text. The file is the list of its lines, as `fgets` gives
-- them and with the last byte of each taken off; `fseek` and `feof` succeed. `atoi` of a text of
-- digits is its number; it is used on other texts only where the result is thrown away. `int` is a
-- number without a width.
pub mod Params
pub mod Read
pub mod Fits
mod Tests
use pingkv.Base.{
  ℕ, zero, suc, ◌+◌, ◌-◌, ◌*◌, Bool, true, false, Option, none, some, List, [], ◌∷◌, Bytes, length,
  ◌||◌, ◌&&◌, not, ltb, leb, ◌==◌, if◌then◌else◌, codes, bytes_eq, take, drop,
}

-- `kv_conf_data`
pub record ConfData : Type 0 where
  pub server_id : ℕ
  pub db_name : Bytes
  pub ip : Bytes
  pub port : ℕ
  pub create_file : Bool
  pub file_path : Bytes
  pub server_count : ℕ
  pub file_count : ℕ
  pub lru_cache_size : ℕ
  pub lru_max_elem_size : ℕ

-- The constructor.
abbrev pub default_conf : ConfData
default_conf = record {
  server_id = 0;
  db_name = [];
  ip = [];
  port = 7000;
  create_file = true;
  file_path = [];
  server_count = 1;
  file_count = 1;
  lru_cache_size = 1024 * 1024 * 10;
  lru_max_elem_size = 1024 * 256;
}

-- `_is_num`
abbrev pub digits : Bytes → Bool
digits [] = true
digits (c ∷ cs) = (if ltb 57 c || ltb c 48 then false else digits cs)

unfoldable pub is_num : Bytes → Bool
is_num s = if length s == 0 then false else digits s

-- `atoi` of a text of digits.
unfoldable pub atoi_from : ℕ → Bytes → ℕ
atoi_from n [] = n
atoi_from n (c ∷ cs) = atoi_from (n * 10 + (c - 48)) cs

unfoldable pub atoi : Bytes → ℕ
unfolding atoi_from
atoi s = atoi_from 0 s

-- The last byte of a text that is not empty.
abbrev pub last_byte : Bytes → ℕ
last_byte [] = 0
last_byte (c ∷ []) = c
last_byte (c ∷ d ∷ cs) = last_byte (d ∷ cs)

-- `_str_to_bytes`; `none` is -1.
unfoldable pub str_to_bytes : Bytes → Option ℕ
unfolding is_num atoi
str_to_bytes s =
    let unit = last_byte s in
    let num = take (length s - 1) s in
    if length s == 0
    then none
    else if is_num s
    then some (atoi s)
    else if not (is_num num)
    then none
    else if unit == 107 || unit == 75
    then some (atoi num * 1024)
    else if unit == 109 || unit == 77
    then some (atoi num * 1024 * 1024)
    else if unit == 103 || unit == 71
    then some (atoi num * 1024 * 1024 * 1024)
    else none
