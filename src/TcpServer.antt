-- ===== src/TcpServer.antt =====
-- tinyrpc/net/tcp/tcp_server.{h,cc}: the server's clients, and the I/O threads they belong to.
-- `std::shared_ptr<TcpConnection>` is an identifier into `heap`; the set of clients holds just
-- identifiers, and only its elements matter. `loops` are the loops of the I/O threads; a new
-- connection is bound to one of them. `onAccept` and `clearClient` run in the main thread.
pub mod Listen
pub mod Accept
pub mod Clear
pub mod Tests
use my_tiny_rpc.Base.{ℕ, suc, Bytes, Bool, true, false, Option, none, some, List, [], ◌∷◌, ◌++◌}
use my_tiny_rpc.Base.Outcome.{Outcome, done, fault, ◌>>=◌}
use my_tiny_rpc.FdEvent.{in_event, FdEvent, new_fd_event, listen}
use my_tiny_rpc.FdEventPool.{FdEventPool, get_fd_event}
use my_tiny_rpc.EventLoop.{EventLoop, update, add_epoll_event}
use my_tiny_rpc.IoThread.{IoThread}
use my_tiny_rpc.IoThreadPool.{IoThreadPool, new_io_thread_pool, get_io_thread, start_pool}
use my_tiny_rpc.Timer.{Timer, new_time_event, add_time_event}
use my_tiny_rpc.NetAddr.{SockAddrIn, IpNetAddr}
use my_tiny_rpc.TcpAcceptor.{TcpAcceptor, ListenCalls, new_tcp_acceptor, accept_client}
use my_tiny_rpc.TcpConnection.{
  connected, not_connected, half_closed, closed, TcpState, by_server, Handler, TcpConnection,
  new_tcp_connection, set_state,
}

-- What the main thread's loop calls on the listening descriptor.
pub data ServerHandler : Type 0 where
  on_accept_handler : ServerHandler

-- `fd_event_pool` is the global pool, `timer` that of the main loop. `threads` says on which I/O thread a connection is.
pub record TcpServer : Type 0 where
  pub main_event_loop : EventLoop ServerHandler
  pub timer : Timer
  pub acceptor : TcpAcceptor
  pub io_thread_pool : IoThreadPool
  pub loops : ℕ → EventLoop Handler
  pub fd_event_pool : FdEventPool Handler
  pub clients : List ℕ
  pub heap : ℕ → TcpConnection
  pub threads : ℕ → ℕ
  pub next : ℕ

-- `init` behind the acceptor: the listening descriptor and the timer event `id` are added to the
-- main loop. `memory` is what stands in the event's `m_is_cancel`.
unfoldable pub listen_for_clients : ℕ → Bool → TcpServer → TcpServer
listen_for_clients id memory s =
    let e = listen (new_fd_event s.acceptor.listen_fd) in_event (some on_accept_handler) none in
    record s {
      main_event_loop = add_epoll_event true s.main_event_loop e;
      timer = add_time_event (new_time_event s.timer id 5000 true memory) id;
    }

-- What the program has made before the server: the loops, the timer and the pools.
pub record World : Type 0 where
  pub main_event_loop : EventLoop ServerHandler
  pub timer : Timer
  pub loops : ℕ → EventLoop Handler
  pub fd_event_pool : FdEventPool Handler
  pub heap : ℕ → TcpConnection

-- The members as `init` begins: the I/O threads are made, and nothing is accepted.
abbrev pub fresh_server : TcpAcceptor → IoThread → ℕ → World → TcpServer
fresh_server acceptor created io_threads w = record {
  main_event_loop = w.main_event_loop;
  timer = w.timer;
  acceptor = acceptor;
  io_thread_pool = new_io_thread_pool created io_threads;
  loops = w.loops;
  fd_event_pool = w.fd_event_pool;
  clients = [];
  heap = w.heap;
  threads = λ connection. 0;
  next = 0;
}

abbrev pub server_with : IoThread → ℕ → ℕ → Bool → World → Option TcpAcceptor → Option TcpServer
server_with created io_threads id memory w none = none
server_with created io_threads id memory w (some acceptor) =
    some (listen_for_clients id memory (fresh_server acceptor created io_threads w))

-- The constructor, which calls `init`. It is `none` where the program ends.
unfoldable pub new_tcp_server :
    (Bytes → ℕ) → ListenCalls → IpNetAddr → IoThread → ℕ → ℕ → Bool → World → Option TcpServer
new_tcp_server inet_addr calls local_addr created io_threads id memory w =
    server_with created io_threads id memory w (new_tcp_acceptor inet_addr calls local_addr)

-- `getFdEvent` of a descriptor that is -1 reads in front of the vector.
abbrev pub event_of : Option ℕ → FdEventPool Handler → FdEventPool Handler × Outcome ℕ
event_of none pool = (pool, fault)
event_of (some fd) pool = get_fd_event pool fd

-- `std::make_shared<TcpConnection>` on the I/O thread `thread`, `setState`, and `m_clients.insert`.
unfoldable pub add_client : ℕ → ℕ → TcpServer → TcpServer
add_client thread pointer s =
    let c =
      new_tcp_connection (s.loops thread) false (s.fd_event_pool.heap pointer) 128 by_server in
    record s {
      loops = update s.loops thread c.event_loop;
      fd_event_pool = record s.fd_event_pool {
        heap = update s.fd_event_pool.heap pointer c.fd_event;
      };
      clients = s.clients ++ s.next ∷ [];
      heap = update s.heap s.next (set_state c connected);
      threads = update s.threads s.next thread;
      next = suc s.next;
    }

-- `onAccept`, with what `accept` returns.
unfoldable pub on_accept : (ℕ → Bytes) → Option (ℕ × SockAddrIn) → TcpServer → Outcome TcpServer
on_accept inet_ntoa result s =
    let (fd, peer_addr) = accept_client inet_ntoa result s.acceptor in
    get_io_thread s.io_thread_pool >>= λ (thread, io_threads).
    let (pool, pointer) = event_of fd s.fd_event_pool in
    pointer >>= λ p.
    done (add_client thread p (record s { io_thread_pool = io_threads; fd_event_pool = pool }))

-- The connections that are accepted one after another.
unfoldable pub accept_all : (ℕ → Bytes) → List (ℕ × SockAddrIn) → TcpServer → Outcome TcpServer
accept_all inet_ntoa [] s = done s
accept_all inet_ntoa (result ∷ results) s =
    on_accept inet_ntoa (some result) s >>= λ s'. accept_all inet_ntoa results s'

abbrev pub unless_closed : TcpState → ℕ → List ℕ → List ℕ
unless_closed closed id rest = rest
unless_closed not_connected id rest = id ∷ rest
unless_closed connected id rest = id ∷ rest
unless_closed half_closed id rest = id ∷ rest

-- The loop of `clearClient`. A pointer of the set is never empty.
unfoldable pub clear_clients : (ℕ → TcpConnection) → List ℕ → List ℕ
clear_clients heap [] = []
clear_clients heap (id ∷ rest) = unless_closed (heap id).state id (clear_clients heap rest)

unfoldable pub clear_client : TcpServer → TcpServer
clear_client s = record s { clients = clear_clients s.heap s.clients }

-- `start`, as far as the loop of the main thread.
unfoldable pub start_server : TcpServer → TcpServer
start_server s = record s { io_thread_pool = start_pool s.io_thread_pool }
