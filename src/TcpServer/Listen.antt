-- ===== src/TcpServer/Listen.antt =====
-- The server's start: what its main loop watches.
use my_tiny_rpc.Base.{ℕ, ◌≡◌, refl, ap, Bytes, Bool, true, false, none, some, []}
use my_tiny_rpc.FdEvent.{in_event, FdEvent, new_fd_event, listen, listen_for}
use my_tiny_rpc.EventLoop.{add_epoll_event}
use my_tiny_rpc.EventLoop.InSync.{InSync, add_to_epoll_watches, add_to_epoll-InSync}
use my_tiny_rpc.IoThread.{IoThread}
use my_tiny_rpc.NetAddr.{IpNetAddr, check_valid}
use my_tiny_rpc.TcpAcceptor.{ListenCalls, new_tcp_acceptor}
use my_tiny_rpc.TcpServer.{
  ServerHandler, on_accept_handler, World, TcpServer, new_tcp_server, listen_for_clients,
  fresh_server, server_with,
}

-- The main loop reports new clients on the descriptor `fd`, and nothing else of it.
pub record IsListening (fd : ℕ) (s : TcpServer) : Type 0 where
  pub listen_fd_eq : s.acceptor.listen_fd ≡ fd
  pub watched : s.main_event_loop.interest fd ≡ some (record { epoll_in = true; epoll_out = false })
  pub in_sync : InSync s.main_event_loop

acceptor-made :
    (inet_addr : Bytes → ℕ) (calls : ListenCalls) (local_addr : IpNetAddr) (fd : ℕ)
    → check_valid inet_addr local_addr ≡ true
    → calls.socket ≡ some fd
    → calls.bind_ok ≡ true
    → calls.listen_ok ≡ true
    → new_tcp_acceptor inet_addr calls local_addr
      ≡ some (record { local_addr = local_addr; family = 2; listen_fd = fd })
unfolding new_tcp_acceptor
acceptor-made inet_addr calls local_addr fd valid socket bound listens =
    rw (valid, socket, bound, listens)

-- The start of the server: with a valid address, system calls that succeed, and a descriptor that
-- `epoll_ctl` takes, the constructor gives a server without clients whose main loop reports new ones on the listening descriptor.
pub new_tcp_server_listens :
    (inet_addr : Bytes → ℕ) (calls : ListenCalls) (local_addr : IpNetAddr) (created : IoThread)
    (io_threads id fd : ℕ) (memory : Bool) (w : World)
    → check_valid inet_addr local_addr ≡ true
    → calls.socket ≡ some fd
    → calls.bind_ok ≡ true
    → calls.listen_ok ≡ true
    → InSync w.main_event_loop
    → w.main_event_loop.refuses fd ≡ false
    → (s : TcpServer) × (new_tcp_server inet_addr calls local_addr created io_threads id memory w
        ≡ some s)
      × IsListening fd s
      × (s.clients ≡ [])
unfolding new_tcp_server listen_for_clients add_epoll_event listen listen_for
new_tcp_server_listens inet_addr calls local_addr created io_threads id fd memory w valid socket
      bound listens sync accepted =
    let e : FdEvent ServerHandler =
      listen (new_fd_event fd) in_event (some on_accept_handler) none in
    (
      listen_for_clients id memory (
          fresh_server (record { local_addr = local_addr; family = 2; listen_fd = fd }) created
            io_threads w),
      ap (server_with created io_threads id memory w)
          (acceptor-made inet_addr calls local_addr fd valid socket bound listens),
      record {
        listen_fd_eq = refl;
        watched = add_to_epoll_watches w.main_event_loop e sync accepted;
        in_sync = add_to_epoll-InSync w.main_event_loop e sync;
      },
      refl,
    )
