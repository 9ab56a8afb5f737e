-- ===== src/TcpServer/Tests.antt =====
-- A server of two I/O threads, and the theorems at it.
use mathlib.Core.List.{Mem, mem-cons}
use my_tiny_rpc.Base.{
  if◌then◌else◌, ◌==◌, ◌↔◌, ◌≢◌, ℕ, Bytes, ◌≡◌, ◌<◌, refl, true, false, none, some, [], ◌∷◌, map,
  codes, arith, inl,
}
use my_tiny_rpc.Base.Outcome.{done}
use my_tiny_rpc.FdEvent.{new_fd_event}
use my_tiny_rpc.FdEventPool.{new_fd_event_pool}
use my_tiny_rpc.FdEventPool.Grow.{new_fd_event_pool-Inv}
use my_tiny_rpc.EventLoop.{EventLoop}
use my_tiny_rpc.IoThread.{waiting, IoThread}
use my_tiny_rpc.IoThreadPool.{new_io_thread_pool}
use my_tiny_rpc.IoThreadPool.Rotation.{new_io_thread_pool-Taken}
use my_tiny_rpc.NetAddr.{SockAddrIn, from_ip_port}
use my_tiny_rpc.TcpAcceptor.{ListenCalls}
use my_tiny_rpc.TcpConnection.{
  closed, connected, by_server, TcpConnection, new_tcp_connection, set_state, shut_down,
}
use my_tiny_rpc.TcpConnection.States.{at_rest}
use my_tiny_rpc.TcpServer.{World, TcpServer, on_accept, accept_all, clear_client}
use my_tiny_rpc.TcpServer.Accept.{IsServing, Added, on_accept-Added, accept_all_rotates}
use my_tiny_rpc.TcpServer.Clear.{clear_client_iff, shut_down_never_cleared}

abbrev new_loop : {A : Type 0} → EventLoop A
new_loop = record {
  listen_fds = λ fd. false;
  interest = λ fd. none;
  refuses = λ fd. false;
  pending_tasks = [];
  woken = false;
  stop_flag = false;
  is_looping = true;
}

abbrev write_ip : ℕ → Bytes
write_ip n = codes "127.0.0.1"

abbrev peer : SockAddrIn
peer = record { sin_family = 2; sin_port = 14640; s_addr = 16777343 }

abbrev created : IoThread
created = record {
  has_event_loop = true;
  init_sem = 0;
  start_sem = 0;
  stop_flag = false;
  run_point = waiting;
  is_created = true;
}

abbrev connection : TcpConnection
connection = set_state (new_tcp_connection new_loop false (new_fd_event 7) 128 by_server) connected

abbrev server : TcpServer
server = record {
  main_event_loop = new_loop;
  timer = record {
    events = λ id. record { arrive_time = 0; interval = 0; is_repeated = false; is_cancel = false };
    pending = [];
    armed = none;
    clock = λ n. n;
    reads = 0;
  };
  acceptor = record {
    local_addr = from_ip_port (λ s. 16777343) (codes "127.0.0.1") 12345;
    family = 2;
    listen_fd = 5;
  };
  io_thread_pool = new_io_thread_pool created 2;
  loops = λ thread. new_loop;
  fd_event_pool = new_fd_event_pool new_fd_event 0 4;
  clients = [];
  heap = λ id. shut_down connection;
  threads = λ id. 0;
  next = 0;
}

server-IsServing : IsServing 0 server
unfolding new_io_thread_pool
server-IsServing = record {
  family_eq = refl;
  some_thread = omega arith;
  taken = new_io_thread_pool-Taken created 2 (omega arith);
  pool_inv = new_fd_event_pool-Inv new_fd_event 0 4 (omega arith);
}

abbrev read_ip : Bytes → ℕ
read_ip s = 16777343

abbrev calls : ListenCalls
calls = record { socket = some 5; bind_ok = true; listen_ok = true }

abbrev world : World
world = record {
  main_event_loop = new_loop;
  timer = server.timer;
  loops = server.loops;
  fd_event_pool = server.fd_event_pool;
  heap = server.heap;
}

on_accept-Added_example :
    (s' : TcpServer) × (on_accept write_ip (some (7, peer)) server ≡ done s')
    × Added 0 7 server s'
    × IsServing 1 s'
    × (s'.io_thread_pool.size ≡ 2)
unfolding new_io_thread_pool
on_accept-Added_example = on_accept-Added write_ip 0 7 peer server server-IsServing

accept_all_rotates_example :
    (s' : TcpServer) × (accept_all write_ip ((7, peer) ∷ (8, peer) ∷ (9, peer) ∷ []) server
      ≡ done s')
    × (s'.clients ≡ 0 ∷ 1 ∷ 2 ∷ [])
    × (map s'.threads (0 ∷ 1 ∷ 2 ∷ []) ≡ 0 ∷ 1 ∷ 0 ∷ [])
    × ((id : ℕ) → id < 0 → s'.threads id ≡ 0)
unfolding new_io_thread_pool
accept_all_rotates_example =
    accept_all_rotates write_ip 0 ((7, peer) ∷ (8, peer) ∷ (9, peer) ∷ []) server server-IsServing

shut_down_never_cleared_example :
    Mem {A = ℕ} 3 (clear_client (record server { clients = 3 ∷ [] })).clients
unfolding set_state
shut_down_never_cleared_example =
    shut_down_never_cleared {Addr = ℕ} none none [] (record server { clients = 3 ∷ [] }) 3
      connection (mem-cons.1 ∣ inl refl ∣₁) refl at_rest

-- Client 4 is closed, and client 3 is not.
abbrev one_closed : TcpServer
one_closed = record server {
  clients = 3 ∷ 4 ∷ [];
  heap = λ id. record connection { state = if id == 4 then closed else connected };
}

clear_client_iff_example :
    Mem {A = ℕ} 4 (clear_client one_closed).clients
    ↔ (Mem {A = ℕ} 4 (3 ∷ 4 ∷ []) × ((one_closed.heap 4).state ≢ closed))
clear_client_iff_example = clear_client_iff one_closed 4
