-- ===== src/Conf/Tests.antt =====
-- A configuration of two servers, with regular expressions that take a line apart at its `=` and a
-- server's parameter at its first byte.
use pingkv.Base.{
  ℕ, ◌-◌, ◌≡◌, refl, Bool, true, Option, none, some, List, [], ◌∷◌, ◌++◌, Bytes, codes, ◌==◌,
  if◌then◌else◌,
}
use pingkv.Conf.{str_to_bytes}
use pingkv.Conf.Params.{set_conf_param}
use pingkv.Conf.Read.{
  Regex, new_conf, Outcome, done, failed, thrown, undefined, c_string, read_conf, load_line,
  find_server, put_server,
}
use pingkv.Conf.Fits.{OutcomeFits, read_conf-Fits}

split_at : Bytes → Bytes × Bytes
split_at [] = ([], [])
split_at (c ∷ cs) = let (p, v) = split_at cs in if c == 61 then ([], cs) else (c ∷ p, v)

server_of : Bytes → Option (ℕ × Bytes)
server_of [] = none
server_of (c ∷ []) = none
server_of (c ∷ d ∷ cs) = some (c - 48, cs)

abbrev regex : Regex
regex = record { get_param_val = split_at; split_servid_param = server_of }

abbrev line : Bytes → Bytes
line s = s ++ 10 ∷ []

abbrev lines : List Bytes
lines =
    line (codes "server.1.port=8001")
    ∷ line (codes "all.file_count=10")
    ∷ line (codes "all.create_file=no")
    ∷ line (codes "local.server_id=1")
    ∷ []

-- The port of server 1 and the number of its files, which comes from the configuration of the
-- database, and whether it creates its files.
abbrev seen : Outcome → Option (ℕ × ℕ × Bool)
seen (done conf) = elim (find_server 1 conf.server_conf) [
  | none ↦ none
  | some c ↦ some (c.port, c.file_count, c.create_file)
]
seen (failed conf) = none
seen thrown = none
seen undefined = none

-- The value "no" leaves `create_file` on.
server_one : seen (read_conf regex new_conf (some lines)) ≡ some (8001, 10, true)
unfolding read_conf c_string load_line find_server put_server set_conf_param split_at server_of
server_one = refl

size_with_unit : str_to_bytes (codes "10m") ≡ some 10485760
unfolding str_to_bytes
size_with_unit = refl

read_conf-Fits_example : OutcomeFits (read_conf regex new_conf (some lines))
read_conf-Fits_example = read_conf-Fits regex (some lines)
