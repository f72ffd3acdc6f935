-- ===== src/Lib.antt =====
-- A model of pingkv, a key-value server that keeps its data in files of blocks.
--
-- A client hashes a key to a server; the server hashes it to one of the data files that it opened.
-- A worker keeps the keys of a file in a tree of nodes, each a row of the data file, and the values
-- in rows beside them, behind a cache. Bytes of a connection go through a queue of blocks.
--
-- DataFile models pingkv/src/dbf/: the state and the commands over it (DataFile),
-- data_file_block.cc (DataFile/Block), data_file_row.cc (DataFile/Row) and data_file.cc
-- (DataFile/File). A method is a function from the state of the file to a result and the state
-- after it; an error, and undefined behaviour, are results of their own, such as a block whose
-- offset in the file is not an `int`. The system calls are the record `Os`, with what a read
-- through a pointer to freed memory gives. `_find_block_can_write` has a round for each block of
-- the file, `_read_row` for each record that the file can hold, and `_write_row` for each byte of
-- the row: each round uses up a block, a record or a byte.
-- IoBuf models pingkv/src/server/kv_io_buf.cc, Hash the hash of pingkv/src/tool/hash.cc and its
-- uses, and Server/Files the constructor of pingkv/src/server/kv_server.cc.
-- Conf models pingkv/src/conf/kv_conf.cc; the regular expressions that it uses are a parameter, and
-- the file is the list of what `fgets` reads. Lru models pingkv/src/cache/kv_lru.cc with pointers
-- into a store; what new memory holds is a parameter. Index models pingkv/src/index/kv_index.cc: a
-- node is its buffer of bytes (Index/Node), the tree is walked with a round for each block of the
-- file (Index/Tree), and Index/Keys has the interface. RowId models the row ids of
-- pingkv/src/dbf/data_file_tool.h.
-- Work models pingkv/src/server/kv_work.h, kv_work_queue.cc and `_do_send` of kv_sender.cc, with
-- the answers of `send` as values, Work/Results the map of results of kv_work_queue.cc, Work/Loop
-- the rounds of the sender's thread and Work/Worker kv_worker.cc. Server/Socket models what
-- `_cb_read_sock` of kv_server.cc reads, and Server/Connections the connections of a server, from
-- the start of the listening socket and `_cb_accept` to the queues of the workers, behind the
-- events of the poller. Client models pingkv/src/client/kv_client.cc. The answers of `accept`,
-- `recv` and `epoll_ctl` are values too.
-- LinkList models pingkv/src/tool/linklist.h and HashTable pingkv/src/tool/hashtable.h: pointers
-- are numbers into a store, and a table is compared with the rows of keys that it stores. A search
-- and `destroy_nodes` have a round for each node, `_make_bucket_count` one for each bit of an `int`
-- from 128 on.
-- Poller models pingkv/src/tool/kv_poller.cc, with the answers of `epoll_ctl` as values. An
-- `_unregist` that succeeds ends without a return statement, and is undefined.
-- Base has the lists, numbers, bytes, buffers and linked nodes that these share.
--
-- Not modelled: `init` of a hash table, which calls methods of objects that were never constructed,
-- the opening of a client's sockets, the server's destructor, threads, locks, logging, and the
-- programs' main functions.
pub mod Base
pub mod Client
pub mod Conf
pub mod DataFile
pub mod Hash
pub mod HashTable
pub mod Index
pub mod IoBuf
pub mod LinkList
pub mod Lru
pub mod Poller
pub mod RowId
pub mod Server
pub mod Work
