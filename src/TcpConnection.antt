-- ===== src/TcpConnection.antt =====
-- tinyrpc/net/tcp/tcp_connection.{h,cc}: a connection between the socket and the coder.
-- Its state, and what changes it outside the two handlers. The callbacks of requests are numbers;
-- what they do is not in this class. Log lines are left out.
pub mod Input
pub mod Output
pub mod Read
pub mod Idle
pub mod Serve
pub mod Fragment
pub mod Answer
pub mod Write
pub mod Moves
pub mod States
pub mod Echo
pub mod Tests
use my_tiny_rpc.Base.{
  ◌≡◌, ap, ℕ, suc, ◌+◌, ◌-◌, ◌*◌, Bytes, Bool, true, false, Option, none, some, List, [], ◌∷◌, ◌++◌,
  leb, ◌==◌, if◌then◌else◌, length, bytes_eq, take, drop, map,
}
use my_tiny_rpc.Base.Outcome.{Outcome, done, fault, stuck, ◌>>=◌, ◌>>◌, demand}
use my_tiny_rpc.TcpBuffer.{
  TcpBuffer, fits_int, new_tcp_buffer, read_able, write_able, copy_in, copy_out, resize_buffer,
  move_write_index,
}
use my_tiny_rpc.Coder.TinyPb.{TinyPbProtocol, new_protocol, encode, decode}
use my_tiny_rpc.FdEvent.{TriggerEvent, in_event, out_event, FdEvent, listen, cancel}
use my_tiny_rpc.EventLoop.{EventLoop, add_epoll_event, delete_epoll_event}
use my_tiny_rpc.Rpc.Dispatcher.{ServiceMap, RunTime, Dispatched, dispatch}

pub data TcpState : Type 0 where
  not_connected : TcpState
  connected : TcpState
  half_closed : TcpState
  closed : TcpState

pub data TcpConnectionType : Type 0 where
  by_server : TcpConnectionType
  by_client : TcpConnectionType

-- The tests of the handlers on the state, and on the type.
abbrev pub if_connected : {A : Type 0} → TcpState → A → A → A
if_connected connected x y = x
if_connected not_connected x y = y
if_connected half_closed x y = y
if_connected closed x y = y

abbrev pub by_type : {A : Type 0} → TcpConnectionType → A → A → A
by_type by_server server client = server
by_type by_client server client = client

pub if_connected_lem :
    {A : Type 0} {s : TcpState} (x y : A) → s ≡ connected → if_connected s x y ≡ x
if_connected_lem x y e = ap (λ s. if_connected s x y) e

pub by_type-server :
    {A : Type 0} {t : TcpConnectionType} (x y : A) → t ≡ by_server → by_type t x y ≡ x
by_type-server x y e = ap (λ t. by_type t x y) e

pub by_type-client :
    {A : Type 0} {t : TcpConnectionType} (x y : A) → t ≡ by_client → by_type t x y ≡ y
by_type-client x y e = ap (λ t. by_type t x y) e

-- The functions that a connection, or the client that owns it, binds to its descriptor.
pub data Handler : Type 0 where
  on_read_handler : Handler
  on_write_handler : Handler
  on_connect_handler : Handler

-- `event_loop` is the loop of the connection's I/O thread, `in_loop` whether that thread runs now.
pub record TcpConnection : Type 0 where
  pub event_loop : EventLoop Handler
  pub in_loop : Bool
  pub state : TcpState
  pub fd_event : FdEvent Handler
  pub in_buffer : TcpBuffer
  pub out_buffer : TcpBuffer
  pub connection_type : TcpConnectionType
  pub write_dones : List (TinyPbProtocol × ℕ)
  pub read_dones : List (Bytes × ℕ)

unfoldable pub listen_read : TcpConnection → TcpConnection
listen_read c =
    let e = listen c.fd_event in_event (some on_read_handler) none in
    record c { fd_event = e; event_loop = add_epoll_event c.in_loop c.event_loop e }

unfoldable pub listen_write : TcpConnection → TcpConnection
listen_write c =
    let e = listen c.fd_event out_event (some on_write_handler) none in
    record c { fd_event = e; event_loop = add_epoll_event c.in_loop c.event_loop e }

-- The constructor. The descriptor's event comes from the pool as it was left there.
abbrev pub listen_at_start : TcpConnectionType → TcpConnection → TcpConnection
listen_at_start by_server c = listen_read c
listen_at_start by_client c = c

unfoldable pub new_tcp_connection :
    EventLoop Handler → Bool → FdEvent Handler → ℕ → TcpConnectionType → TcpConnection
new_tcp_connection event_loop in_loop fd_event buffer_size connection_type =
    listen_at_start connection_type (record {
      event_loop = event_loop;
      in_loop = in_loop;
      state = not_connected;
      fd_event = fd_event;
      in_buffer = new_tcp_buffer buffer_size;
      out_buffer = new_tcp_buffer buffer_size;
      connection_type = connection_type;
      write_dones = [];
      read_dones = [];
    })

unfoldable pub clear : TcpConnection → TcpConnection
clear c = elim c.state [
  | closed ↦ c
  | _ ↦
      let e = cancel (cancel c.fd_event in_event) out_event in
      record c {
        fd_event = e;
        event_loop = delete_epoll_event c.in_loop c.event_loop e;
        state = closed;
      }
]

-- `shutDown`, without the system call that shuts the socket down.
unfoldable pub shut_down : TcpConnection → TcpConnection
shut_down c = elim c.state [ not_connected ↦ c | closed ↦ c | _ ↦ record c { state = half_closed } ]

unfoldable pub set_state : TcpConnection → TcpState → TcpConnection
set_state c state = record c { state = state }

unfoldable pub push_send_message : TcpConnection → TinyPbProtocol → ℕ → TcpConnection
push_send_message c message callback = record c {
  write_dones = c.write_dones ++ (message, callback) ∷ [];
}

unfoldable pub find_done : List (Bytes × ℕ) → Bytes → Option ℕ
find_done [] msg_id = none
find_done ((key, callback) ∷ dones) msg_id =
    if bytes_eq key msg_id then some callback else find_done dones msg_id

-- `map::insert`, which leaves an entry that is there as it is.
abbrev pub insert_done : Option ℕ → List (Bytes × ℕ) → Bytes → ℕ → List (Bytes × ℕ)
insert_done none dones msg_id callback = dones ++ (msg_id, callback) ∷ []
insert_done (some old) dones msg_id callback = dones

unfoldable pub push_read_message : TcpConnection → Bytes → ℕ → TcpConnection
push_read_message c msg_id callback = record c {
  read_dones = insert_done (find_done c.read_dones msg_id) c.read_dones msg_id callback;
}

-- A connection after a handler, the thread's `RunTime`, and the callbacks that ran, in order, each
-- with its message.
pub record Effect : Type 0 where
  pub connection : TcpConnection
  pub run_time : RunTime
  pub calls : List (ℕ × TinyPbProtocol)
