-- ===== src/Server.antt =====
-- pingkv/src/server/kv_server.cc: the division of the files among the servers.
pub mod Connections
pub mod Files
pub mod Socket
mod Tests
