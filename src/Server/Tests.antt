-- ===== src/Server/Tests.antt =====
-- The theorems on the division of the files at a database of 10 files and 3 servers.
use pingkv.Base.{◌/◌, ◌≡◌, ◌&&◌, ltb, ◌==◌, arith}
use pingkv.Server.Files.{per_server, opened, has, has-opened}

has-opened_example : has 9 (opened 3 10 2) ≡ (ltb 9 10 && (2 == 9 / per_server 3 10))
unfolding per_server
has-opened_example = has-opened 3 10 2 9 (omega arith) (omega arith) (omega arith)
