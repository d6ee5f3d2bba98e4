-- ===== src/Lib.antt =====
-- A model of transfer_server, a TCP server on an event loop of the muduo kind, with the theorems that
-- make its parts correct.
--
-- A server (include/TcpServer.h) accepts connections and gives each to one of a pool of event loops.
-- A loop (include/EventLoop.h) waits in a poller (include/Poller.h) for its channels
-- (include/Channel.h), hands their events to callbacks, then runs the functors that threads have
-- queued. Timers (include/TimerQueue.h) are one channel of the loop, a connection
-- (include/TcpConnection.h) is another: it reads into a buffer and sends from one (include/Buffer.h).
-- On top stand a parser of messages (include/codec.h), a table of clients
-- (include/RegisterTable.h) and the demo server with its handshake (src/test_multithreads.cc). All
-- parts log: a statement puts together a line (include/Logging.h, include/LogStream.h), a thread of
-- its own collects the lines (include/AsyncLogging.h) and writes them to files (include/LogFile.h).
--
-- Prelude, and the files under it: names of the libraries, Boolean tests, lists over native numbers,
-- `Checked` for code that may abort, 64-bit sizes, maps as association lists, signed integers.
-- Buffer: include/Buffer.h, src/Buffer.cpp. `readableBytes` is `readable_bytes`, and so for the
-- others; a pointer into the storage is its index. Buffer/Ranges, Space, Contents, Edges and Search
-- hold the lemmas, Buffer/Fifo the view as a queue.
-- Codec: include/codec.h, src/codec.cpp; Codec/Parse its theorems.
-- Register: include/RegisterTable.h, src/RegisterTable.cpp; Register/Value and Register/Refine.
-- Timestamp: include/Timestamp.h, src/Timestamp.cpp, and howMuchTimeFromNow of src/TimerQueue.cpp.
-- Timer: include/Timer.h, src/Timer.cpp, include/TimerId.h, include/TimerQueue.h,
-- src/TimerQueue.cpp; Timer/Set on the ordered set, Timer/Inv the invariant, Timer/Expiry, Reset,
-- Callbacks and Handle on addTimer, reset, the callbacks and handleRead.
-- Channel: include/Channel.h, src/Channel.cpp.
-- Poller: include/Poller.h, src/Poller.cpp; Poller/Inv, Poller/Update and Poller/Join on
-- updateChannel, Poller/Remove and Leave on removeChannel, Poller/Active and Polled on poll.
-- EventLoop: include/EventLoop.h, src/EventLoop.cpp; EventLoop/Functors on the queue,
-- EventLoop/Rounds on the turns of the loop, EventLoop/Wakeup on the threads, as a step relation,
-- EventLoop/Created on the constructor and the destructor, EventLoop/Dispatch on the callbacks
-- that a turn calls, with src/Poller.cpp and src/Channel.cpp.
-- TcpConnection: include/TcpConnection.h, src/TcpConnection.cpp; TcpConnection/Send, Write, Stream, Made,
-- and TcpConnection/Lifecycle with its files on a connection in the poller of its loop.
-- TcpServer: include/TcpServer.h, src/TcpServer.cpp, include/EventLoopThreadPool.h,
-- src/EventLoopThreadPool.cpp; TcpServer/Pool, TcpServer/Names, TcpServer/Started on
-- the constructor and `start`, and TcpServer/Turns on the calls that the server leaves to the loops.
-- LogStream: include/LogStream.h, src/LogStream.cpp; LogStream/Digits, Room and Line.
-- CerPacket: include/CerPacket.h, src/CerPacket.cpp.
-- AsyncLogging: include/AsyncLogging.h, src/AsyncLogging.cpp; AsyncLogging/Lines, Interleave
-- and Drain on the steps of the threads, AsyncLogging/Aliases on full buffers, AsyncLogging/Whole with
-- its files on the thread with its log file.
-- LogFile: include/LogFile.h, src/LogFile.cpp; LogFile/Write on the writing, Branches, Keep and Rolls on
-- the files.
-- Logging: include/Logging.h, src/Logging.cpp, and CurrentThread of src/Thread.cpp; Logging/LogLine and
-- Logging/Wording, over LogStream/Line and LogStream/Digits, and Logging/Macros.
-- FileUtil: include/FileUtil.h, src/FileUtil.cpp; FileUtil/Whole.
-- Acceptor: include/Acceptor.h, src/Acceptor.cpp, accept of src/SocketsOps.cpp; Acceptor/Accepted, with
-- the server's newConnection.
-- CountDownLatch: include/CountDownLatch.h; CountDownLatch/Waiting.
-- StringPiece: include/StringPiece.h; StringPiece/Order.
-- EventLoopThread: include/EventLoopThread.h, src/EventLoopThread.cpp; EventLoopThread/Starting and
-- EventLoopThread/Ending, on step relations.
-- Mutex: include/Mutex.h, include/Condition.h; Mutex/Holder and Mutex/Waits, on a step relation.
-- Thread: include/Thread.h, src/Thread.cpp, include/Atomic.h, src/Condition.cpp; Thread/Joined.
-- Sockets: include/SocketsOps.h, src/SocketsOps.cpp, include/Socket.h, src/Socket.cpp,
-- include/InetAddress.h, src/InetAddress.cpp; Sockets/Addresses.
-- ProcessInfo: include/ProcessInfo.h, src/ProcessInfo.cpp; ProcessInfo/Numbers, Tasks, Status, Host.
-- Demo: src/test_multithreads.cc; Demo/Packets and Demo/Relay on the handshake.
-- Tests: the theorems at concrete inputs.
--
-- Bytes are numbers; no theorem needs them below 256. Sizes are `size_t` with their wrap-around where
-- the code subtracts; a storage ends at 2^63 - 1 bytes, an `int` at 2^31 - 1, addresses below
-- UINTPTR_MAX, an eventfd at 2^64 - 2. A failed assertion, an exception that nobody catches and an
-- access that C++ leaves undefined are `abort`. What the system answers (readv, write, poll, accept4,
-- fwrite, fstat, the clock) is an argument. The loop of `convert` has fuel for 20 digits, enough for
-- 64 bits, that of `File::append` for as many calls as there are bytes left, and that of
-- `readToString` for as many as it may read bytes; every other function follows a list or a functor,
-- and the loop's `while` follows the list of the answers of poll. Threads are steps in any order
-- (EventLoop/Wakeup, EventLoopThread, CountDownLatch, AsyncLogging, Mutex); what happens under a mutex
-- is one step, but in Mutex.
--
-- Not modelled: what is written to the log by the other parts, which leaves their state alone; calls of
-- the system that nothing surrounds (connect, getpid, getuid); setters of callbacks; convertHex, whose
-- result is undefined; the format of times, which the C library makes. The range of the 64-bit count of
-- microseconds is not modelled.
pub mod Prelude
pub mod Buffer
pub mod Codec
pub mod Register
pub mod Timestamp
pub mod Timer
pub mod Channel
pub mod Poller
pub mod EventLoop
pub mod TcpConnection
pub mod TcpServer
pub mod LogStream
pub mod CerPacket
pub mod AsyncLogging
pub mod LogFile
pub mod Demo
pub mod FileUtil
pub mod Logging
pub mod EventLoopThread
pub mod Acceptor
pub mod StringPiece
pub mod CountDownLatch
pub mod Tests
pub mod Mutex
pub mod ProcessInfo
pub mod Sockets
pub mod Thread
