-- ===== src/Client/Exchange.antt =====
-- pingkv/src/client/kv_client.cc with server/kv_server.cc and server/kv_worker.cc: requests from the
-- client to the worker and back.
use pingkv.Base.Memory.{Memory}
use pingkv.Work.{Work}
