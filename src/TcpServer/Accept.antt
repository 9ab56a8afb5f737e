-- ===== src/TcpServer/Accept.antt =====
-- What accepting a client does, and on which I/O thread each client comes.
use my_tiny_rpc.Base.{
  ℕ, zero, suc, ◌%◌, ◌<◌, ◌≡◌, ◌≢◌, refl, sym, ap, ap₂, ◌∙◌, Bytes, true, none, some, List, [], ◌∷◌,
  ◌++◌, append-nil, append_assoc, map, arith, ==_iff, length,
}
use my_tiny_rpc.Base.Outcome.{done, fault}
use my_tiny_rpc.FdEvent.{in_event, FdEvent, listen, listen_for}
use my_tiny_rpc.FdEventPool.{FdEventPool, get_fd_event}
use my_tiny_rpc.FdEventPool.Grow.{Inv, get_fd_event-Inv, store-Inv}
use my_tiny_rpc.EventLoop.{add_event, add_epoll_event, add_task}
use my_tiny_rpc.IoThreadPool.{IoThreadPool}
use my_tiny_rpc.IoThreadPool.Rotation.{turns, Taken, get_io_thread-Taken}
use my_tiny_rpc.NetAddr.{af_inet, SockAddrIn}
use my_tiny_rpc.TcpAcceptor.{accept_client}
use my_tiny_rpc.TcpConnection.{
  connected, on_read_handler, Handler, new_tcp_connection, listen_read, set_state,
}
use my_tiny_rpc.TcpServer.{TcpServer, add_client, on_accept, accept_all}

-- A server after `k` connections.
pub record IsServing (k : ℕ) (s : TcpServer) : Type 0 where
  pub family_eq : s.acceptor.family ≡ af_inet
  pub some_thread : 0 < s.io_thread_pool.size
  pub taken : Taken k s.io_thread_pool
  pub pool_inv : Inv s.fd_event_pool

-- The new client of the descriptor `fd` on the I/O thread `thread`: it is connected, the last of
-- the clients, and the loop of its thread has been woken to listen for what it sends.
pub record Added (thread fd : ℕ) (s s' : TcpServer) : Type 0 where
  pub event : FdEvent Handler
  pub clients_eq : s'.clients ≡ s.clients ++ s.next ∷ []
  pub is_connected : (s'.heap s.next).state ≡ connected
  pub thread_eq : s'.threads s.next ≡ thread
  pub waits :
      (s'.loops thread).pending_tasks ≡ (s.loops thread).pending_tasks ++ add_event event.fd ∷ []
  pub woken : (s'.loops thread).woken ≡ true
  pub of_client : (s'.heap s.next).fd_event ≡ event
  pub event_fd : event.fd ≡ fd
  pub listens : event.listen_events.epoll_in ≡ true
  pub reads : event.read_callback ≡ some on_read_handler
  pub others : (id : ℕ) → id ≢ s.next → s'.threads id ≡ s.threads id
  pub next_eq : s'.next ≡ suc s.next

add_client-Added :
    (thread fd p : ℕ) (s : TcpServer)
    → (s.fd_event_pool.heap p).fd ≡ fd
    → Added thread fd s (add_client thread p s)
unfolding add_client new_tcp_connection listen_read add_epoll_event add_task listen listen_for
    set_state
add_client-Added thread fd p s e = record {
  event = listen (s.fd_event_pool.heap p) in_event (some on_read_handler) none;
  clients_eq = refl;
  is_connected = ground arith;
  thread_eq = ground arith;
  waits = ground arith;
  woken = ground arith;
  of_client = ground arith;
  event_fd = e;
  listens = refl;
  reads = refl;
  others = λ id other. ground arith;
  next_eq = refl;
}

add_client-IsServing :
    (k thread p : ℕ) (s : TcpServer) → IsServing k s → IsServing k (add_client thread p s)
unfolding add_client new_tcp_connection listen_read listen listen_for
add_client-IsServing k thread p s h = record {
  family_eq = h.family_eq;
  some_thread = h.some_thread;
  taken = h.taken;
  pool_inv = store-Inv s.fd_event_pool p _ refl h.pool_inv;
}

-- The pools are not among what `Added` compares.
Added-pools :
    {thread fd : ℕ} {s s' : TcpServer} (io_threads : IoThreadPool) (pool : FdEventPool Handler)
    → Added thread fd (record s { io_thread_pool = io_threads; fd_event_pool = pool }) s'
    → Added thread fd s s'
Added-pools io_threads pool a = record {
  event = a.event;
  clients_eq = a.clients_eq;
  is_connected = a.is_connected;
  thread_eq = a.thread_eq;
  waits = a.waits;
  woken = a.woken;
  of_client = a.of_client;
  event_fd = a.event_fd;
  listens = a.listens;
  reads = a.reads;
  others = a.others;
  next_eq = a.next_eq;
}

-- A client is accepted: on a server of at least one I/O thread, the connection number `k` comes on
-- the thread `k % size`. It is connected, stands behind the other clients, whose threads do not
-- change, and the loop of its thread is woken to listen for what it sends.
pub on_accept-Added :
    (inet_ntoa : ℕ → Bytes) (k fd : ℕ) (addr : SockAddrIn) (s : TcpServer)
    → IsServing k s
    → (s' : TcpServer) × (on_accept inet_ntoa (some (fd, addr)) s ≡ done s')
      × Added (k % s.io_thread_pool.size) fd s s'
      × IsServing (suc k) s'
      × (s'.io_thread_pool.size ≡ s.io_thread_pool.size)
unfolding on_accept accept_client add_client
on_accept-Added inet_ntoa k fd addr s h =
    let (threads, first, taken, size_eq) =
      get_io_thread-Taken k s.io_thread_pool h.some_thread h.taken in
    let (p, found, at, pool_inv, kept) = get_fd_event-Inv s.fd_event_pool fd h.pool_inv in
    let s0 : TcpServer = record s {
      io_thread_pool = threads;
      fd_event_pool = (get_fd_event s.fd_event_pool fd).0;
    } in
    let serving : IsServing (suc k) s0 = record {
      family_eq = h.family_eq;
      some_thread = omega (arith, size_eq, h.some_thread);
      taken = taken;
      pool_inv = pool_inv;
    } in
    let thread = k % s.io_thread_pool.size in
    (
      add_client thread p s0,
      rw ((==_iff s.acceptor.family af_inet).1 h.family_eq, first, found),
      Added-pools threads s0.fd_event_pool (add_client-Added thread fd p s0 at.own_fd),
      add_client-IsServing (suc k) thread p s0 serving,
      size_eq,
    )

-- A failed `accept` is not looked at: on every server that serves, the pool of events is asked for
-- the descriptor -1, which stands in front of its vector.
pub on_accept_failed :
    (inet_ntoa : ℕ → Bytes) (k : ℕ) (s : TcpServer)
    → IsServing k s
    → on_accept inet_ntoa none s ≡ fault
unfolding on_accept accept_client
on_accept_failed inet_ntoa k s h =
    let (threads, first, taken, size_eq) =
      get_io_thread-Taken k s.io_thread_pool h.some_thread h.taken in
    rw ((==_iff s.acceptor.family af_inet).1 h.family_eq, first)

-- The identifiers of `n` clients from `id` on.
abbrev pub ids : ℕ → ℕ → List ℕ
ids zero id = []
ids (suc n) id = id ∷ ids n (suc id)

-- The clients take turns: a server that has had `k` connections accepts every list of clients; each
-- becomes a client behind those before, on the thread after that of the one before it, and after the
-- last thread comes the first again.
pub accept_all_rotates :
    (inet_ntoa : ℕ → Bytes) (k : ℕ) (results : List (ℕ × SockAddrIn)) (s : TcpServer)
    → IsServing k s
    → (s' : TcpServer) × (accept_all inet_ntoa results s ≡ done s')
      × (s'.clients ≡ s.clients ++ ids (length results) s.next)
      × (map s'.threads (ids (length results) s.next)
          ≡ turns s.io_thread_pool.size (length results) k)
      × ((id : ℕ) → id < s.next → s'.threads id ≡ s.threads id)
unfolding accept_all
accept_all_rotates inet_ntoa k [] s h = (s, refl, sym (append-nil s.clients), refl, (λ id le. refl))
accept_all_rotates inet_ntoa k ((fd, addr) ∷ results) s h =
    let (s1, first, added, serving, size_eq) = on_accept-Added inet_ntoa k fd addr s h in
    let (s', later, clients_eq, threads_eq, same) =
      accept_all_rotates inet_ntoa (suc k) results s1 serving in
    (
      s',
      rw first later,
      clients_eq
          ∙ ap₂ (λ cs n. cs ++ ids (length results) n) added.clients_eq added.next_eq
          ∙ append_assoc s.clients (s.next ∷ []) (ids (length results) (suc s.next)),
      ap₂ ◌∷◌ (same s.next (omega (arith, added.next_eq)) ∙ added.thread_eq) (
          ap (λ n. map s'.threads (ids (length results) n)) (sym added.next_eq)
          ∙ threads_eq
          ∙ ap (λ size. turns size (length results) (suc k)) size_eq),
      (λ id le.
          same id (omega (arith, added.next_eq)) ∙ added.others id (λ e. absurd (omega arith))),
    )
