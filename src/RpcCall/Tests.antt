-- ===== src/RpcCall/Tests.antt =====
-- A call of the echo service, from the channel to its closure.
use my_tiny_rpc.Base.{ℕ, Bytes, true, false, none, [], ◌∷◌, codes}
use my_tiny_rpc.Rpc.Channel.{RpcChannel}
use my_tiny_rpc.TcpConnection.{not_connected, by_client, TcpConnection}
use my_tiny_rpc.TcpConnection.Echo.{echo_request, server}
use my_tiny_rpc.TcpClient.{TcpClient}
use my_tiny_rpc.RpcCall.Start.{asking}

-- A channel that `Init` has set up.
abbrev ready : RpcChannel ℕ Bytes
ready = record {
  is_init = true;
  controller = record {
    error_code = 0;
    error_info = [];
    msg_id = [];
    is_failed = false;
    is_canceled = false;
    is_finished = false;
    local_addr = none;
    peer_addr = none;
    timeout = 1000;
  };
  has_closure = true;
  closure_runs = 0;
  response = none;
  req_protocol = record echo_request { msg_id = [] };
  timer = none;
  connecting = false;
  writing = false;
  reading = false;
  held = false;
}

abbrev client : TcpClient
client = record {
  connection = record server { state = not_connected; connection_type = by_client };
  socket_fd = 9;
  error_code = 0;
  error_info = [];
}

abbrev asking_echo : TcpConnection
asking_echo = (asking ready client true (codes "7") (codes "Echo.m") (1 ∷ 2 ∷ [])).connection
