-- ===== src/TcpClient/Tests.antt =====
-- A client that connects in the background, and the theorems at it.
use my_tiny_rpc.Base.{◌≡◌, refl, true, false, none, [], ◌∷◌, arith, codes, replicate}
use my_tiny_rpc.TcpBuffer.{TcpBuffer}
use my_tiny_rpc.TcpBuffer.Inv.{IsValid}
use my_tiny_rpc.Coder.TinyPb.{TinyPbProtocol, new_protocol}
use my_tiny_rpc.FdEvent.{new_fd_event}
use my_tiny_rpc.TcpConnection.{not_connected, connected, by_client}
use my_tiny_rpc.TcpClient.{
  connect_refused, TcpClient, on_connect_writable, try_again, connect_error,
}

abbrev room_for_128 : TcpBuffer
room_for_128 = record { buffer = replicate 128 0; size = 128; read_idx = 0; write_idx = 0 }

room_for_128-IsValid : IsValid room_for_128
room_for_128-IsValid = record {
  ordered = omega arith;
  inside = omega arith;
  sized = refl;
  small = omega arith;
}

abbrev new_client : TcpClient
new_client = record {
  connection = record {
    event_loop = record {
      listen_fds = λ _. false;
      interest = λ _. none;
      refuses = λ _. false;
      pending_tasks = [];
      woken = false;
      stop_flag = false;
      is_looping = true;
    };
    in_loop = true;
    state = not_connected;
    fd_event = new_fd_event 6;
    in_buffer = room_for_128;
    out_buffer = room_for_128;
    connection_type = by_client;
    write_dones = [];
    read_dones = [];
  };
  socket_fd = 6;
  error_code = 0;
  error_info = [];
}

-- After a refused connection the client's socket is 8, and its connection still has 6.
refused_socket : (on_connect_writable (connect_refused []) 8 new_client).socket_fd ≡ 8
unfolding on_connect_writable try_again connect_error
refused_socket = refl

refused_fd_event :
    (on_connect_writable (connect_refused []) 8 new_client).connection.fd_event.fd ≡ 6
unfolding on_connect_writable try_again connect_error
refused_fd_event = refl

-- The client after it has connected.
abbrev ready_client : TcpClient
ready_client = record new_client { connection = record new_client.connection { state = connected } }

abbrev first_request : TinyPbProtocol
first_request = record new_protocol {
  msg_id = codes "7";
  method_name = codes "Echo.m";
  pb_data = 1 ∷ 2 ∷ [];
}
