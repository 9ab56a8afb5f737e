-- ===== src/TcpConnection/Idle.antt =====
-- A connection of the server between two packets, and what keeps it so.
use my_tiny_rpc.Base.{◌≡◌, subst, sym, true, false, some, none, []}
use my_tiny_rpc.TcpBuffer.Inv.{IsValid, contents}
use my_tiny_rpc.FdEvent.{FdEvent, listen_for, listen, out_event, cancel}
use my_tiny_rpc.EventLoop.{add_epoll_event, add_to_epoll}
use my_tiny_rpc.EventLoop.InSync.{InSync, add_to_epoll-InSync}
use my_tiny_rpc.TcpConnection.{
  connected, by_server, TcpConnection, Handler, listen_write, on_write_handler,
}
use my_tiny_rpc.TcpConnection.Output.{stop_writing}

-- A connection of the server, between two packets, in the thread of its loop, with a descriptor that
-- `epoll_ctl` takes.
pub record IsIdleServer (c : TcpConnection) : Type 0 where
  pub is_connected : c.state ≡ connected
  pub is_server : c.connection_type ≡ by_server
  pub in_valid : IsValid c.in_buffer
  pub in_empty : contents c.in_buffer ≡ []
  pub out_valid : IsValid c.out_buffer
  pub own_thread : c.in_loop ≡ true
  pub in_sync : InSync c.event_loop
  pub accepted : c.event_loop.refuses c.fd_event.fd ≡ false

-- Another event for its descriptor leaves the connection idle.
module _ (c : TcpConnection) (i : IsIdleServer c) where
  event-InSync : (e : FdEvent Handler) → InSync (add_epoll_event c.in_loop c.event_loop e)
  unfolding add_epoll_event
  event-InSync e =
      subst (λ b. InSync (add_epoll_event b c.event_loop e)) (sym i.own_thread)
        (add_to_epoll-InSync c.event_loop e i.in_sync)

  event-accepted :
      (e : FdEvent Handler)
      → (add_epoll_event c.in_loop c.event_loop e).refuses c.fd_event.fd ≡ false
  unfolding add_epoll_event add_to_epoll
  event-accepted e =
      subst (λ b. (add_epoll_event b c.event_loop e).refuses c.fd_event.fd ≡ false)
        (sym i.own_thread) i.accepted

  pub listen_write-IsIdleServer : IsIdleServer (listen_write c)
  unfolding listen_write listen listen_for
  listen_write-IsIdleServer = record {
    is_connected = i.is_connected;
    is_server = i.is_server;
    in_valid = i.in_valid;
    in_empty = i.in_empty;
    out_valid = i.out_valid;
    own_thread = i.own_thread;
    in_sync = event-InSync (listen c.fd_event out_event (some on_write_handler) none);
    accepted = event-accepted (listen c.fd_event out_event (some on_write_handler) none);
  }

  pub stop_writing-IsIdleServer : IsIdleServer (stop_writing true c)
  unfolding stop_writing cancel
  stop_writing-IsIdleServer = record {
    is_connected = i.is_connected;
    is_server = i.is_server;
    in_valid = i.in_valid;
    in_empty = i.in_empty;
    out_valid = i.out_valid;
    own_thread = i.own_thread;
    in_sync = event-InSync (cancel c.fd_event out_event);
    accepted = event-accepted (cancel c.fd_event out_event);
  }
