-- ===== src/Lib.antt =====
-- A model of the chats library (C): an event loop with timers, network servers and clients on it,
-- a packet protocol with its checksum, and the containers below them, with the theorems that make
-- them correct.
--
-- How the parts work together: `io-service/io-service.c` runs one event loop. Its clients register
-- a job for a descriptor and an operation, and the loop calls it when the descriptor is ready; the
-- timer in `timer/timer.c` is such a client, and so are the transfers in `network/network.c`,
-- which end with a callback. The servers in `network/one-to-many/server.c` and
-- `network/one-to-one/server.c` and the client in `network/client/client.c` own a socket and a
-- mutex, and hand their transfers to `network/network.c`. `chats/p2p/protocol/protocol.c` takes
-- apart the packets that arrive, and checks them with `chats/p2p/crc/crc16-ccitt.c`.
-- `common/avl-tree.c` is the ordered map that `common/hash-map.c` stands on; `common/list.c` is
-- the linked list that `common/queue.c`, `common/stack.c`, the one-to-many server and the two
-- files in `chats/p2p/server/dao/` stand on: `dao.c` keeps the clients in a table of SQLite, and
-- `dao-cache.c` holds them in memory, with maps that `common/hash-functions.c` hashes for.
-- `thread-pool/thread-pool.c` runs jobs in threads of its own.
--
-- Files and the code that they model:
--   Crc            chats/p2p/crc/crc16-ccitt.c: crc16_ccitt with its table.
--   Crc/Bitwise    an independent description of the same checksum, bit by bit.
--   Protocol       chats/p2p/protocol/protocol.c and protocol.h: p2p_validate_header,
--                  p2p_utilize_packet, p2p_skip_packet, on the packed layout of the header.
--   IoService      io-service/io-service.c: struct io_service and all operations on it but
--                  io_service_deinit. IoService/Elements is the job table.
--   Timer          timer/timer.c: the three setters, timer_cancel, tmr_job_tpl, timer_init.
--   Network        network/network.c and network.h: the records and the jobs of a transfer.
--                  Network/Operate: srb_operate and the operations that it chooses from.
--                  Network/Endpoints: network/endpoint.h and endpoint.c.
--   Sockets        what the three files below share: the loop over the addresses to bind, closing a
--                  socket, the mutex, and the request block that a transfer is started with;
--                  network/connection/connection.h.
--   OtmServer      network/one-to-many/server.c: every function, with `OtmServerTcp` as the server;
--                  OtmServer/Setup creates it.
--   OtoServer      network/one-to-one/server.c: every function, with `OtoServerTcp` as the server.
--   Client         network/client/client.c: every function: the TCP client here, its connections and
--                  transfers in Client/Connections, and the UDP client in Client/Udp.
--   AvlTree        common/avl-tree.c: insertion, removal, search, the least and greatest node.
--                  AvlTree/Nodes holds its nodes.
--   HashMap        common/hash-map.c: insertion, lookup and removal, with any hash function.
--   LinkedList     common/list.c: every function, those that add an element in
--                  LinkedList/Adding. LinkedList/Sequence is the interface of a container
--                  with a history of calls, which Queue and Stack implement.
--   Queue, Stack   common/queue.c and common/stack.c: every function.
--   HashFunctions  common/hash-functions.c: pearson_hash and pearson_hash_update.
--   Dao            chats/p2p/server/dao/dao.c: every function, with the requests as texts.
--   DaoCache       chats/p2p/server/dao/dao-cache.c: the client elements with their three maps. The
--                  lookups are here, what changes the cache in DaoCache/Changes.
--   ThreadPool     thread-pool/thread-pool.c: posting, the workers, stopping, and the wake-ups of the stop,
--                  signalled or spurious, as events.
--   Memory         common/memory.c: buffers.
--   Prelude        what the parts share: lists, options, integers, the laws of exclusive or, and in
--                  Prelude/Text what sprintf writes.
-- The files below these hold the proofs, and the Tests modules run them on concrete data.
--
-- State. A struct is a record, and an operation that changes it maps a record to a record. The
-- mutex of the I/O service is held by all its operations, and by the loop but while it waits in
-- epoll_wait and while a job runs; so operations are steps, and what other threads and the running
-- job do meanwhile is a list of requests, any list. The recursive mutex of a server or a client is
-- the number of locks held on it. An AVL tree is a tree of its nodes, each with its address and
-- its stored height and parent. Elements and lists are cells of a `Memory` by address, with what
-- was freed recorded. Memory behind a pointer to bytes is the list of the bytes that may be read;
-- reading behind it, through NULL or at a freed address is `none`, and so is an assertion that
-- fails.
--
-- What the code relies on and is not in the repository is an argument. The kernel's epoll instance
-- is `Epoll`, and its manual page's laws are `IsEpoll`. Packet handlers, jobs and callbacks are
-- functions or numbers. SQLite is `Sqlite` and the codes of its calls, and `shifted` what a shift
-- of an int gives where C does not say it. The results of malloc, getaddrinfo, socket, bind,
-- connect, accept, sendmsg, recvmsg and ioctl are arguments of the operations that call them: a
-- call moves no more than it is asked for (`Answers`), or, in the loops of the synchronous
-- operations, a byte at least or fails (`IsLively`), and those are given as many results as the
-- buffer has bytes, which is enough. In AvlTree, `uninit` is what the local variable holds that
-- tree_rotate_left reads before it is set. `fall_off` is what a caller gets from a body that ends
-- without a return: node_init, tree_insert and list_allocate end so, and the theorems on what they
-- add state as a hypothesis that the caller gets the pointer computed last.
--
-- Bounds. Machine integers wrap where the code can reach the wrap: the checksum at 16 bits, the
-- stored height at 8, the count of a list and the hashes at 64. A balanced tree of less than 2^64
-- nodes is less than 128 deep. Most loops follow a list or a tree, and the event loop follows the
-- list of its wakeups. The loops over a linked list in memory run on rounds: list_deinit has one
-- more than the count of the list, and otm_server_tcp_deinit takes them as an argument; a round
-- more than there are elements is enough.
--
-- Not modelled: avl_tree_next and avl_tree_prev, which follow the parent pointers that the
-- rotations leave unset, and the three functions of chats/p2p/server/dao/dao-cache.c that stand on
-- them; the freeing of trees, maps, timers and of the I/O service and the thread pool; what a
-- request does to the table, which is SQLite's; the empty programs in chats/p2p/server, and those
-- in tests/, which try the library by hand.
pub mod Prelude
pub mod Crc
pub mod Protocol
pub mod IoService
pub mod Timer
pub mod Network
pub mod ThreadPool
pub mod HashMap
pub mod Memory
pub mod AvlTree
pub mod LinkedList
pub mod Queue
pub mod Stack
pub mod Sockets
pub mod OtmServer
pub mod OtoServer
pub mod Client
pub mod Dao
pub mod HashFunctions
pub mod DaoCache
