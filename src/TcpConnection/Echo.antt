-- ===== src/TcpConnection/Echo.antt =====
-- Connections of an echo service, for the tests.
use my_tiny_rpc.Base.{
  ℕ, refl, Bytes, true, false, none, some, [], ◌∷◌, arith, bytes_eq, codes, if◌then◌else◌,
  replicate,
}
use my_tiny_rpc.TcpBuffer.{TcpBuffer}
use my_tiny_rpc.TcpBuffer.Inv.{IsValid}
use my_tiny_rpc.Coder.TinyPb.{TinyPbProtocol, new_protocol, packet_length}
use my_tiny_rpc.Coder.TinyPb.Parse.{IsWellFormed}
use my_tiny_rpc.FdEvent.{new_fd_event}
use my_tiny_rpc.Rpc.Dispatcher.{Service, ServiceMap, RunTime}
use my_tiny_rpc.TcpConnection.{connected, by_server, by_client, TcpConnection}
use my_tiny_rpc.TcpConnection.Idle.{IsIdleServer}

abbrev pub buffer_128 : TcpBuffer
buffer_128 = record { buffer = replicate 128 0; size = 128; read_idx = 0; write_idx = 0 }

pub buffer_128-IsValid : IsValid buffer_128
buffer_128-IsValid = record {
  ordered = omega arith;
  inside = omega arith;
  sized = refl;
  small = omega arith;
}

-- A connection on descriptor 9 that waits to be read.
abbrev pub server : TcpConnection
server = record {
  event_loop = record {
    listen_fds = λ _. false;
    interest = λ _. none;
    refuses = λ _. false;
    pending_tasks = [];
    woken = false;
    stop_flag = false;
    is_looping = true;
  };
  in_loop = true;
  state = connected;
  fd_event = new_fd_event 9;
  in_buffer = buffer_128;
  out_buffer = buffer_128;
  connection_type = by_server;
  write_dones = [];
  read_dones = [];
}

pub server-IsIdleServer : IsIdleServer server
server-IsIdleServer = record {
  is_connected = refl;
  is_server = refl;
  in_valid = buffer_128-IsValid;
  in_empty = refl;
  out_valid = buffer_128-IsValid;
  own_thread = refl;
  in_sync = λ fd _. refl;
  accepted = refl;
}

-- A service with the method "m", which sends the request's bytes back.
unfoldable pub echo_service : Service ℕ
echo_service = record {
  Method = Unit;
  Request = Bytes;
  Response = Bytes;
  full_name = codes "Echo";
  find_method_by_name = λ m. if bytes_eq m (codes "m") then some tt else none;
  parse_from_string = λ _ bytes. some bytes;
  call_method = λ _ _ req. req;
  serialize_to_string = λ _ rsp. (true, rsp);
}

abbrev pub services : ServiceMap ℕ
services = (codes "Echo", echo_service) ∷ []

abbrev pub idle_run_time : RunTime
idle_run_time = record { run_msgid = []; run_method_name = [] }

abbrev pub echo_request : TinyPbProtocol
echo_request = record new_protocol {
  msg_id = codes "7";
  method_name = codes "Echo.m";
  pb_data = 1 ∷ 2 ∷ [];
}

pub echo_request-IsWellFormed : IsWellFormed echo_request
unfolding packet_length
echo_request-IsWellFormed = record {
  id_text = record { short = omega arith; plain = refl };
  method_text = record { short = omega arith; plain = refl };
  error_text = record { short = omega arith; plain = refl };
  code_int32 = omega arith;
  length_int = omega arith;
}

-- The same connection on the side of a client that waits for the message "7" with callback 4.
abbrev pub client : TcpConnection
client = record server { connection_type = by_client; read_dones = (codes "7", 4) ∷ [] }

-- A client that has the echo request to send, with callback 5.
abbrev pub asking : TcpConnection
asking = record client { write_dones = (echo_request, 5) ∷ [] }
