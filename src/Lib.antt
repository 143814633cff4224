-- ===== src/Lib.antt =====
-- game-server-portfolio: an echo server on I/O completion ports, and two search trees.
--
-- The parts and how they interact. A `CRingBuffer` holds the bytes that a session has received or has
-- yet to send; a `CPacket` holds one message. A `Session` owns two rings and counts the operations in
-- flight on its socket; the `SessionManager` hands its slots out and takes them back; the `LanServer`
-- accepts clients and takes completed operations from the completion port, and calls the session's
-- handlers. The console stops the server. A handler takes whole messages off the receive ring, the
-- packet code dispatches them, and the `Lobby` sends the reply by way of the session. Two windows draw
-- the trees, and a benchmark fills and searches both. The profiler, the object pool and the parser of
-- a configuration stand alone.
--
-- The files, and what they model:
--   Base         tests and numbers, lists, `int` as ℤ; shared lemmas
--   Bytes        integers as bytes, least significant first, and writes into a storage
--   RingBuffer   iocp-chatting-server/Util/CRingBuffer.h and .cpp
--   Packet       iocp-chatting-server/Util/CPacket.h
--   Entries      what a tree promises: a list of entries in ascending order of their keys
--   BinaryTree   rb-tree-binary-tree/Tree-binary-tree/Tree-binary-tree/BinaryTree.h
--   RbTree       rb-tree-binary-tree/Tree-RB-tree/Tree-RB-tree/RBtree.h
--   Server       iocp-chatting-server/NetLib/Session.h and .cpp, SessionManager.cpp, LanServer.cpp
--                and Server.cpp, Contents/ and Packet/
--   SystemLogger iocp-chatting-server/Util/SystemLogger.h and .cpp
--   Console      iocp-chatting-server/ConsoleHandler.h and .cpp
--   Profiler     iocp-chatting-server/Util/Profiler.h
--   ObjectPool   util/Util/ObjectPool.h
--   CFileParser  util/Util/CFileParser.h and .cpp
--   Viewer       rb-tree-binary-tree/Tree-RB-tree/Tree-RB-tree/Tree-RB-tree.cpp
--   BinaryViewer rb-tree-binary-tree/Tree-binary-tree/Tree-binary-tree/Tree-binary-tree.cpp
--   Benchmark    rb-tree-binary-tree/BST-vs-RBT-benchmark/main.cpp and DataSetMaker.h
--
-- State and operations. A class is a record of its fields, and a method is a function of the same
-- name, in lower case, from the record and the arguments to what it returns and the record that it
-- leaves. The server's objects are the fields of one record, `Server.State.Server`, in which a session
-- is an index into the vector of sessions, as the session manager has them. Every method runs alone:
-- the mutexes and the SRW locks are left out, and the log is followed only in the console. A method
-- that can run into undefined behaviour returns an `Option`, and `none` is that behaviour.
--
-- Runs of the server. `Server.Sound.Reach` chains these steps: a client is accepted, an operation in
-- flight completes, bytes arrive in a receive queue, the sockets change their verdicts. A slot is
-- described by the operations in flight on it and those that a handler holds (`Server.Sound`). The
-- threads of `Server.Threads` take these steps: the worker threads take the completions off the port
-- in their order, after the accept thread. `Server.Stable` says what is kept by every operation that a
-- handler ends with, `Server.Frame` lifts a relation between sessions to the operations of a whole
-- server, and `Server.Stream` follows the rings of the sessions along the runs.
--
-- What is not in the repository. What `new char[]` and a variable without an initial value hold is an
-- argument (`fresh`, `garbage`), and so is what `std::shuffle` makes of a vector. A socket call is
-- answered by the next verdict of the list `accepted`. A key of a tree, an `int` that is only
-- compared, is taken by its distance from INT_MIN. The pointers of the red-black tree are a place in a
-- tree: a node, and the frames from it up to the root.
--
-- Bounds and fuel. `int` and `size_t` arithmetic is written out where it can wrap; the sizes of rings
-- and packets are taken to be less than 2 ^ 31. The loop of `OnRecv` takes two bytes at least off the
-- queue in each round, so that it is given one round more than there are bytes. The loop of
-- `RBtree::Insert` goes up two nodes in a round, or one round before it ends stays where it is: it is
-- given two rounds more than the path is long. That of `RBtree::RedBlackBalancing` is given three
-- rounds for each node on the path, and five more. The destructor of `ObjectPool` is given one round
-- more than there are nodes on its stack, and the loop of `SetSection` one more than the text has
-- characters.
--
-- Not modelled: the files that the profiler and the parser open; the calls of both windows that draw;
-- the tests and the packet code generator; and the copies of these files that other directories of the
-- repository hold, the benchmark's among them.
pub mod Base
pub mod Bytes
pub mod RingBuffer
pub mod Packet
pub mod Entries
pub mod BinaryTree
pub mod Server
pub mod RbTree
pub mod Profiler
pub mod ObjectPool
pub mod CFileParser
pub mod Viewer
pub mod SystemLogger
pub mod Console
pub mod Benchmark
pub mod BinaryViewer
