-- ===== src/TcpClient/Start.antt =====
-- tinyrpc/net/tcp/tcp_client.cc: how a client is made, and how it ends. What `socket` and
-- `getsockname` return is an argument.
use my_tiny_rpc.Base.{ℕ, ◌≡◌, refl, Bytes, true, Option, none, some, [], ◌==◌, if◌then◌else◌}
use my_tiny_rpc.Base.Outcome.{Outcome, done, ◌>>=◌}
use my_tiny_rpc.EventLoop.{EventLoop, stop}
use my_tiny_rpc.FdEventPool.{FdEventPool, get_fd_event}
use my_tiny_rpc.FdEventPool.Grow.{Inv, get_fd_event-Inv}
use my_tiny_rpc.NetAddr.{SockAddrIn, IpNetAddr, from_sock_addr}
use my_tiny_rpc.TcpConnection.{by_client, not_connected, Handler, new_tcp_connection}
use my_tiny_rpc.TcpClient.{TcpClient}

abbrev pub client_of : EventLoop Handler → ℕ → FdEventPool Handler → ℕ → TcpClient
client_of event_loop fd pool pointer = record {
  connection = new_tcp_connection event_loop true (pool.heap pointer) 128 by_client;
  socket_fd = fd;
  error_code = 0;
  error_info = [];
}

-- The constructor, in the thread of the client's loop. Without a socket there is no connection, and
-- no client that could be used.
unfoldable pub new_tcp_client :
    EventLoop Handler
    → FdEventPool Handler
    → Option ℕ
    → Outcome (Option TcpClient × FdEventPool Handler)
new_tcp_client event_loop pool none = done (none, pool)
new_tcp_client event_loop pool (some fd) =
    let (pool', pointer) = get_fd_event pool fd in
    pointer >>= λ p. done (some (client_of event_loop fd pool' p), pool')

-- `initLocalAddr`: the local address, as it was where `getsockname` fails.
unfoldable pub init_local_addr :
    (ℕ → Bytes) → Option SockAddrIn → Option IpNetAddr → Option IpNetAddr
init_local_addr inet_ntoa none local_addr = local_addr
init_local_addr inet_ntoa (some addr) local_addr = some (from_sock_addr inet_ntoa addr)

-- The destructor: the descriptor that it closes, unless that is 0, and the loop before it is deleted.
unfoldable pub end_client : TcpClient → Option ℕ × EventLoop Handler
end_client c = (
  if c.socket_fd == 0 then none else some c.socket_fd,
  if c.connection.event_loop.is_looping
      then stop c.connection.event_loop
      else c.connection.event_loop,
)

-- A new client: its connection is a client's, not connected yet, on the descriptor's own event of a
-- pool that stays in order.
pub new_tcp_client-IsFresh :
    (event_loop : EventLoop Handler) (pool : FdEventPool Handler) (fd : ℕ)
    → Inv pool
    → (c : TcpClient) × (pool' : FdEventPool Handler) × (new_tcp_client event_loop pool (some fd)
        ≡ done (some c, pool'))
      × Inv pool'
      × (c.connection.state ≡ not_connected)
      × (c.connection.fd_event.fd ≡ fd)
unfolding new_tcp_client new_tcp_connection
new_tcp_client-IsFresh event_loop pool fd inv =
    let (p, found, at, inv', kept) = get_fd_event-Inv pool fd inv in
    let pool' = (get_fd_event pool fd).0 in
    (client_of event_loop fd pool' p, pool', rw found, inv', refl, at.own_fd)
