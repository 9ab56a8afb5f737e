-- ===== src/Lib.antt =====
-- MyTinyRPC: a small RPC framework over TCP, with an epoll reactor, a byte buffer for each
-- direction of a connection, a packet format for protobuf messages, and a dispatcher that calls
-- the registered services.
--
-- A server's accept loop hands each connection to the loop of an I/O thread. When the socket is
-- readable the connection copies bytes into its read buffer, the coder cuts packets out of them,
-- the dispatcher calls the service that a packet names, and the responses are encoded into the
-- write buffer, which goes out when the socket is writable. A client's channel encodes a request,
-- waits for the packet with the same message id, and a timer of its loop bounds the wait.
--
-- Which file models which code:
--   * Base: Boolean tests, lists indexed by native numbers, texts as bytes, and `Outcome`, in which
--     `fault` is undefined behaviour of C++ (or an exception that nothing catches) and `stuck` says
--     that the fuel of a loop ran out.
--   * TcpBuffer: tinyrpc/net/tcp/tcp_buffer.{h,cc}. A buffer is a record of its vector, its size and
--     its two indices; each method of the class is a function on it. TcpBuffer/Inv has the
--     invariant and the unread bytes, Append and Queue what each operation does to them.
--   * Coder/Word: `htonl` and `getInt32FromNetByte` of tinyrpc/common/util.cc.
--   * Coder/TinyPb: tinyrpc/net/coder/tinypb_coder.cc and tinypb_protocol.{h,cc}. `encodeTinyPB`
--     writes through a cursor into the block it allocates; `decode` is a search for start and end
--     codes around a parser of one packet. Below it: Layout and Encode (what is written), Parse
--     (one packet), Search, Locate and RoundTrip (whole streams), Consume, Progress and Spin (the
--     loop's end).
--   * Rpc/Controller: tinyrpc/net/rpc/rpc_controller.{h,cc}.
--   * Rpc/Dispatcher: tinyrpc/net/rpc/rpc_dispatcher.{h,cc} and the error codes of
--     tinyrpc/common/error_code.h. A protobuf service is a record of functions.
--   * Timer: tinyrpc/net/timer.{h,cc} and time_event.{h,cc}. The multimap is a list in the order of
--     the keys; the clock is a function that gives each reading.
--   * FdEvent: tinyrpc/net/fd_event.{h,cc}, the events a descriptor listens for and their callbacks.
--   * EventLoop: tinyrpc/net/eventloop.{h,cc}: registration with epoll, the queue of tasks, and the
--     rounds of the loop. The kernel's interest list is part of the state, and so are the
--     descriptors that `epoll_ctl` refuses.
--   * TcpConnection: tinyrpc/net/tcp/tcp_connection.{h,cc}. Input has `onRead` and `excute`, Output
--     `onWrite`; below them Read (the read loop), Idle and Serve (requests to responses), Answer
--     (responses to callbacks), Write, and Moves and States (the state machine as a step relation).
--   * Rpc/Channel: tinyrpc/net/rpc/rpc_channel.{h,cc}, the client's side of a call: `CallMethod` and
--     its callbacks. Replies has a call that succeeds.
--   * TcpClient: tinyrpc/net/tcp/tcp_client.{h,cc}: connecting, and handing messages to the connection.
--   * MsgUtil: tinyrpc/common/msg_util.{h,cc}, the decimal counter of message ids.
--   * NetAddr: tinyrpc/net/tcp/net_addr.{h,cc}. Text has what is printed and read back.
--   * FdEventPool: tinyrpc/net/fd_event_pool.{h,cc}, a vector of pointers to events; Grow has its
--     invariant.
--   * IoThread, IoThreadPool: tinyrpc/net/io_thread.{h,cc} and io_thread_pool.{h,cc}. The two threads
--     of an I/O thread's start are sequences of actions in any order (Handshake); Rotation has the
--     turns of the pool.
--   * TcpAcceptor, TcpServer: tinyrpc/net/tcp/tcp_acceptor.{h,cc} and tcp_server.{h,cc}. Listen has
--     the server's start, Accept and Clear its clients.
--   * EventLoop/Start, TcpClient/Start: the constructors, with the results of system calls.
--   * WakeUp: tinyrpc/net/wakeup_fd_event.{h,cc} and the reader of eventloop.cc.
--   * Log/Level, Log/Logger, Log/AsyncLogger: tinyrpc/common/log.{h,cc}: levels and lines, the two
--     buffers (Pending), and the thread that writes files (Write, Roll).
--   * Rpc/Closure: tinyrpc/net/rpc/rpc_closure.h and rpc_interface.{h,cc}; Steps has what
--     may happen to them, Once counts the owners.
--   * Coder/StringCoder: tinyrpc/net/coder/string_coder.h.
--   * Locker: tinyrpc/common/locker.h; Scope has one block.
--   * Config: tinyrpc/common/config.{h,cc}, TinyXML an argument.
--   * Exchange: both ends of a connection, with a network between them that takes all that is written
--     and brings it in one read; Answers has what comes back.
--   * TcpConnection/Echo: connections of an echo service, for the tests.
--   * EventLoop/Queue: the loop with the steps of other threads, and the queue it promises; Fifo proves
--     that it keeps the promise.
--   * RpcCall: a whole call, from `CallMethod` over client and server to the closure. Start, Served and
--     Carry have its parts; Succeeds and Unanswered what the caller gets.
--   * Timer/Entries, Timer/Kept, Timer/Armed: what every sequence of operations keeps of the entries, and
--     when the descriptor expires.
--   * Log/Delivery: a logger with its thread, one turn after the other; InOrder and Flush have what
--     reaches the files.
--   * Deadline: a call together with its client's timer. Entry and Round have what a round does to one
--     event, Start, Callbacks and Standing the rest; Over and Once what it comes to.
--   * Rpc/Dispatcher/Registry: the map of services as a quotient that forgets the order of its entries.
--   * Coder/TinyPb/Fragment, TcpConnection/Fragment: a packet that arrives in two reads.
--
-- Bounds and fuel: an `int` is a number below 2 ^ 31, and an operation whose sum leaves the type
-- faults; an `int32_t` field of a packet is its bit pattern below 2 ^ 32. The loop of `decode` takes
-- fuel, since the program's loop need not end; the theorems on it say which fuel is enough.
--
-- Not modelled: condition variables and the locks between threads (a thread's steps are one operation
-- at a time, except where IoThread interleaves them), epoll and the system calls, whose results are
-- arguments, what `close` and `socket` do to the descriptors that epoll takes, protobuf, TinyXML, the
-- destructors at the end of the program, and the generated code of the tests.
pub mod Base
pub mod TcpBuffer
pub mod Coder
pub mod Rpc
pub mod Timer
pub mod NetAddr
pub mod FdEvent
pub mod FdEventPool
pub mod EventLoop
pub mod TcpConnection
pub mod TcpClient
pub mod IoThread
pub mod IoThreadPool
pub mod TcpAcceptor
pub mod TcpServer
pub mod MsgUtil
pub mod Log
pub mod Locker
pub mod Config
pub mod WakeUp
pub mod Exchange
pub mod RpcCall
pub mod Deadline
