-- ===== src/Lib.antt =====
-- The RPC library of lab/rpc and the lock and file services on top of it: a client packs a call into
-- a pdu, the server unpacks it, runs a registered handler at most once and sends the reply back; the
-- extent server keeps named byte strings, the file system client stores directories in them, and the
-- lock server grants locks.
--
-- Parts:
--   Base        shared names of the libraries, Boolean tests, lists, maps and bit facts
--   Marshall    lab/rpc/marshall.h and the marshalling part of lab/rpc/rpc.cc: the buffer `marshall`,
--               the reader `unmarshall`, one function per operator (put_uint is `<<` of an unsigned
--               int, get_uint is `>>`), and the headers; Containers has vectors and maps over any element
--   RpcConst    rpc_const of lab/rpc/rpc.h; a status is its 32-bit pattern
--   Stub        the templates call, call_m and reg of lab/rpc/rpc.h: all arities as one function over
--               a list of typed items
--   RpcClient   class rpcc of lab/rpc/rpc.cc: call1 as begin_call and end_call, got_pdu and bind; XidWindow
--               holds update_xid_rep, the window of replies that have arrived, Wait the loop of call1,
--               over what each of its rounds meets, and Refconn get_refconn, on numbered connections
--   RpcServer   class rpcs of lab/rpc/rpc.cc: dispatch, cut at the call of the method, with reg1,
--               updatestat and rpcbind; ReplyWindow holds checkduplicate_and_update and add_reply
--   WholeCall   a call through the client and the server
--   OldServer   a request for an instance of the server that is no more, and what its client makes of it
--   Flight      a client with many calls at once and the window of the server, between them a network that
--               loses, repeats and reorders
--   Session     calls of one client on one server, rpcc::call and bind, on a network that delivers; Linked
--               says what a pair of peers keeps between two calls
--   ExtentService  lab/extent_smain.cc and lab/extent_client.cc: the extent server behind the RPC library;
--               Agreement sets the file system client over it against the one that calls directly
--   Connection  class connection of lab/rpc/connection.cc: Reading has read_cb; Sending, Receiving, and
--               Wire for both ends
--   PollMgr     lab/rpc/pollmgr.cc: PollMgr and SelectAIO, with the threads as a step relation; Epoll has
--               EPollAIO, and Managers the set of watched descriptors that both managers stand for
--   Listener    class tcpsconn of lab/rpc/connection.cc, on the numbered connections of Refconn
--   Fuse        lab/fuse.cc: the handlers and their replies; Paging is about the pages of a directory
--   ThrPool     lab/rpc/thr_pool.cc over Fifo, and rpcs::got_pdu, which hands it a pdu
--   Address     make_sockaddr and the order of addresses of lab/rpc/rpc.cc
--   Deadline    cmp_timespec, add_timespec and diff_timespec of lab/rpc/rpc.cc, in nanoseconds
--   Fifo        lab/rpc/fifo.h, the bounded queue
--   Extent      lab/extent_protocol.h and lab/extent_server.cc: serialize, deserialize and the server
--   Yfs         lab/yfs_client.h and lab/yfs_client.cc, over the extent client as an interface
--   Lock        lab/lock_server.h and lab/lock_server.cc: acquire and release as steps of threads;
--               Client has the calls of lab/lock_client.cc
--   LockTester  lab/lock_tester.cc: threads that run the tests on the lock server, one step at a time
--   RpcTest     lab/rpc/rpctest.cc: its handlers, testmarshall and the calls of client1
--   Examples    concrete inputs
--
-- Memory that the program does not set is an arbitrary function from positions to bytes: what malloc
-- leaves in a fresh buffer, and what stands behind the characters of a string. A handler is a method
-- over the state of the object that it serves. A failed assertion and a call through a null pointer
-- are `none`. The results of `rand` and of `isdead` are arguments.
--
-- Loops are by recursion on the list or the counter that they run over, so that no fuel is needed:
-- the loop of deserialize makes as many rounds as the count in front of the bytes says. The loop of
-- add_timespec has the seconds in its nanoseconds as a bound on its rounds; the bound on the result
-- shows that it suffices.
--
-- Not modelled: the ownership of buffers, logging, the destructors but for those of rpcc, tcpsconn and
-- the thread pool, checksums (RPC_CHECKSUMMING is not set), the system calls of constructors,
-- lab/gettime.cc, which is another project's, simple_tests and what is left of the tests, and the
-- main programs but for that of the extent server; threads that wait for their turn to send. What
-- `read`, `write`, `select`, `accept` and `epoll_ctl` answer, and what libfuse writes for a directory's
-- entry, are arguments. Session has one client that makes one call after another, and hands over
-- whole pdus; Flight has many calls at once, and of the server only its window. Of the
-- destructor of connection decref has the assertion that no pdu is half written, and not the close.
-- Sizes and positions of buffers are ints, and the buffers that are modelled stay below 2^31 bytes.
-- What process_accept does behind the increment of an erased iterator is undefined.
-- Between the two halves of dispatch other threads may run; ReplyWindow.AtMostOnce is about any order
-- of their accesses to the window, each of which is under its mutex.
pub mod Base
pub mod Marshall
pub mod RpcConst
pub mod Stub
pub mod Extent
pub mod Yfs
pub mod RpcClient
pub mod RpcServer
pub mod WholeCall
pub mod Flight
pub mod Session
pub mod ExtentService
pub mod RpcTest
pub mod Fuse
pub mod Connection
pub mod PollMgr
pub mod Address
pub mod Deadline
pub mod Listener
pub mod Fifo
pub mod ThrPool
pub mod Lock
pub mod OldServer
pub mod LockTester
pub mod Examples
