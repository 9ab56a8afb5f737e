-- ===== src/TcpClient.antt =====
-- tinyrpc/net/tcp/tcp_client.{h,cc}: how a client connects, and what it hands to its connection.
-- The client and its connection share the descriptor's event. What `connect` returns is an argument;
-- the log lines are left out, and so is the start of the loop, which runs the callbacks from then on.
pub mod Start
pub mod Connect
pub mod Tests
use my_tiny_rpc.Base.{ℕ, Bytes, Bool, true, false, Option, none, some, ◌++◌, codes}
use my_tiny_rpc.Coder.TinyPb.{TinyPbProtocol}
use my_tiny_rpc.FdEvent.{out_event, listen}
use my_tiny_rpc.EventLoop.{add_epoll_event, delete_epoll_event, stop}
use my_tiny_rpc.TcpConnection.{
  connected, Handler, on_connect_handler, TcpConnection, listen_read, listen_write, set_state,
  push_send_message, push_read_message,
}

abbrev pub error_peer_close : ℕ
error_peer_close = 10000000

abbrev pub error_failed_connect : ℕ
error_failed_connect = 10000001

-- 0, or -1 with EINPROGRESS, EISCONN, ECONNREFUSED, or another error. The text is `strerror`'s.
pub data ConnectResult : Type 0 where
  connect_ok : ConnectResult
  connect_in_progress : Bytes → ConnectResult
  connect_is_connected : Bytes → ConnectResult
  connect_refused : Bytes → ConnectResult
  connect_failed : Bytes → ConnectResult

-- `socket_fd` is the client's own copy of the descriptor.
pub record TcpClient : Type 0 where
  pub connection : TcpConnection
  pub socket_fd : ℕ
  pub error_code : ℕ
  pub error_info : Bytes

unfoldable pub connection_made : TcpClient → TcpClient
connection_made c = record c { connection = set_state c.connection connected }

unfoldable pub connect_error : TcpClient → ℕ → Bytes → TcpClient
connect_error c error_code error_info = record c {
  error_code = error_code;
  error_info = error_info;
}

-- `connect` goes on in the background: the loop waits for a writable socket.
unfoldable pub wait_for_connection : TcpClient → TcpClient
wait_for_connection c =
    let e = listen c.connection.fd_event out_event (some on_connect_handler) none in
    record c {
      connection = record c.connection {
        fd_event = e;
        event_loop = add_epoll_event c.connection.in_loop c.connection.event_loop e;
      };
    }

unfoldable pub failed_at_once : TcpClient → Bytes → TcpClient
failed_at_once c text =
    connect_error c error_failed_connect (codes "connect error, sys error: " ++ text)

-- `onConnect`: the client, and whether the callback `done` ran.
unfoldable pub on_connect : ConnectResult → TcpClient → TcpClient × Bool
on_connect connect_ok c = (connection_made c, true)
on_connect (connect_in_progress text) c = (wait_for_connection c, false)
on_connect (connect_is_connected text) c = (failed_at_once c text, true)
on_connect (connect_refused text) c = (failed_at_once c text, true)
on_connect (connect_failed text) c = (failed_at_once c text, true)

-- The second `connect`, on a writable socket. After a failure the client has a new socket, while
-- its connection keeps the number of the one that was closed.
unfoldable pub try_again : ConnectResult → ℕ → TcpClient → TcpClient
try_again connect_ok new_fd c = connection_made c
try_again (connect_is_connected text) new_fd c = connection_made c
try_again (connect_refused text) new_fd c =
    record (connect_error c error_peer_close (codes "connect refused, sys error = " ++ text)) {
      socket_fd = new_fd;
    }
try_again (connect_failed text) new_fd c =
    record (connect_error c error_failed_connect
      (codes "connect unkonwn error, sys error = " ++ text)) { socket_fd = new_fd }
try_again (connect_in_progress text) new_fd c =
    record (connect_error c error_failed_connect
      (codes "connect unkonwn error, sys error = " ++ text)) { socket_fd = new_fd }

-- The callback of the writable socket, which runs `done` at its end.
unfoldable pub on_connect_writable : ConnectResult → ℕ → TcpClient → TcpClient
on_connect_writable result new_fd c =
    let c' = try_again result new_fd c in
    record c' {
      connection = record c'.connection {
        event_loop =
            delete_epoll_event c'.connection.in_loop c'.connection.event_loop
              c'.connection.fd_event;
      };
    }

unfoldable pub write_message : TcpClient → TinyPbProtocol → ℕ → TcpClient
write_message c request callback = record c {
  connection = listen_write (push_send_message c.connection request callback);
}

unfoldable pub read_message : TcpClient → Bytes → ℕ → TcpClient
read_message c msg_id callback = record c {
  connection = listen_read (push_read_message c.connection msg_id callback);
}

-- `TcpClient::stop`
unfoldable pub stop_client : TcpClient → TcpClient
stop_client c = elim c.connection.event_loop.is_looping [
  | true ↦ record c {
    connection = record c.connection { event_loop = stop c.connection.event_loop };
  }
  | false ↦ c
]
