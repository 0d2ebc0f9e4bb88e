-- ===== src/Lib.antt =====
-- irono
--
-- A model of the network library under irono/net: a reactor with one loop per thread, an epoll
-- poller, TCP connections over byte buffers, an acceptor and a connector, timers, and a pool of I/O
-- loops, with its example programs (the echo server, the chat, ping-pong), and of irono/base the
-- asynchronous log, its line formatting and its file, threads, the latch and the pool of workers.
--
-- How the parts interact. The loop polls, runs the handlers of the ready channels, and then the functors
-- that were queued. A channel passes each change of its mask on to the poller. The acceptor hands new
-- sockets to the server, which gives each to a loop of the pool and makes a connection of it. A
-- connection reads into its input buffer and sends through its output buffer; the codec is its user.
-- The connector opens sockets and starts anew by timers.
--
-- The files:
--   Base                 shared names, lists and slices, `size_t` sums, runs that may stop at an assert
--   Buffer               irono/net/Buffer.h and Buffer.cc: `append`, `retrieve`, `prepend`, `readFd`, ...
--   Codec                irono/example/chat/codec.h: `onMessage` and `send`
--   Channel              irono/net/Channel.h and Channel.cc: masks, `handleEvent`
--   EPoller              irono/net/EPoller.h and EPoller.cc: `updateChannel`, `removeChannel`, `poll`
--   Poller               irono/net/Poller.h and Poller.cc: the same three for poll(2)
--   TcpConnection        irono/net/TcpConnection.h and TcpConnection.cc: every handler of a connection
--   EventLoop            irono/net/EventLoop.h and EventLoop.cc: `loop`, `queueInLoop`, `quit`, timers
--   Sockets              irono/net/SocketsOps.cc, Socket.cc and InetAddress.cc: `accept`, addresses
--   Acceptor             irono/net/Acceptor.h and Acceptor.cc: `listen`, `handleRead`
--   EventLoopThread      irono/net/EventLoopThread.h and .cc: `startLoop`, the destructor
--   EventLoopThreadPool  irono/net/EventLoopThreadPool.h and .cc: `start`, `getNextLoop`
--   Connector            irono/net/Connector.h and Connector.cc: attempts, their results, the back-off
--   TimerQueue           irono/net/TimerQueue.h and .cc, Timer.h and .cc, TimerId.h
--   TcpServer            irono/net/TcpServer.h and .cc: `start`, `newConnection`, `removeConnection`
--   TcpClient            irono/net/TcpClient.h and .cc: `newConnection`, `removeConnection`, reconnecting
--   Echo                 irono/example/echo/echo.h and echo.cc: the timing wheel of idle connections
--   ChatServer           irono/example/chat/server_threaded_efficient.cc: the shared set of connections
--   ChatRoom             irono/example/chat/server.cc and client.cc: one loop, one set of connections
--   ChatRelay            irono/example/chat/server_threaded_highperformance.cc: one set for each thread
--   PingPong             irono/example/pingpong: the sessions of the client, the replies of the server
--   AsyncLogging         irono/base/AsyncLogging.h and .cc, and `FixedBuffer` of irono/base/LogStream.h
--   LogStream            irono/base/LogStream.h and LogStream.cc: `operator<<`, `convert`, `convertHex`
--   Logger               irono/base/Logging.h and Logging.cc: a statement, its header, its output
--   LogFile              irono/base/LogFile.h and .cc, FileUtil.h and .cc: `append`, `flush`
--   Thread               irono/base/Thread.h and Thread.cc: `start`, `join`, the destructor
--   CountDownLatch       irono/base/CountDownLatch.h and CountDownLatch.cc
--   ThreadPool           irono/base/ThreadPool.h and ThreadPool.cc, Condition.h: `run`, `take`, `stop`
--
-- How code is rendered. A function that contains an `assert` or a `LOG_FATAL` returns an option,
-- and `none` is the abort. A `size_t` is a number below 2^64 with its wrap-around written out
-- (`add_size`, `sub_size`). A byte is a number. A pointer is an index, an address, or the object
-- itself where nothing else refers to it. What system calls return is an argument; epoll_ctl(2) is
-- an interface with its documented laws (EPoller/Kernel), as are the stdio stream of a log file
-- (LogFile/Stream), timerfd_settime(2), which succeeds with nanoseconds below a second
-- (TimerQueue/Add), and the printing and parsing of addresses (Sockets/Libc). Calls that a thread
-- makes on a loop that is not its own are functors in that loop's queue, and EventLoop/Schedule has
-- all interleavings.
--
-- Bounds and fuel. Array sizes are below 2^63, which a 64-bit process cannot exceed. The loop of
-- `onMessage` runs on fuel, one more than the readable bytes, and every round that goes on takes at
-- least four of them. The loops of `convert` and `convertHex` run on twenty and sixteen digits,
-- which hold any number of 64 bits. The loop of `AppendFile::append` runs on one more than the
-- bytes of the line, and every round that goes on writes one. The loop of the ping-pong client's
-- constructor runs once for each session. All other loops are recursion on lists.
--
-- Not modelled: the wrappers of socket calls that only forward and log, and those of mutexes and of the
-- clock, which are system calls; the main programs; and irono/example/chat/server_threaded.cc, whose
-- sends from one loop to the connections of another are queued.
pub mod Base
pub mod Buffer
pub mod ChatRelay
pub mod ChatRoom
pub mod PingPong
pub mod ChatServer
pub mod Codec
pub mod Channel
pub mod Echo
pub mod EPoller
pub mod Sockets
pub mod TcpConnection
pub mod EventLoop
pub mod Acceptor
pub mod EventLoopThread
pub mod EventLoopThreadPool
pub mod CountDownLatch
pub mod Connector
pub mod TimerQueue
pub mod Poller
pub mod TcpServer
pub mod TcpClient
pub mod AsyncLogging
pub mod LogFile
pub mod Logger
pub mod LogStream
pub mod Thread
pub mod ThreadPool
