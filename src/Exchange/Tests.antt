-- ===== src/Exchange/Tests.antt =====
-- A client that asks the echo service, over both connections.
use my_tiny_rpc.Base.{
  ◌≡◌, refl, some, [], ◌∷◌, ◌++◌, List, replicate, codes, ap, bytes_eq, find_first_of,
}
use my_tiny_rpc.TcpBuffer.{TcpBuffer}
use my_tiny_rpc.Coder.TinyPb.{TinyPbProtocol, new_protocol, with_msg_id}
use my_tiny_rpc.Coder.TinyPb.Encode.{packets, seal_all}
use my_tiny_rpc.Coder.TinyPb.Layout.{sealed}
use my_tiny_rpc.Coder.TinyPb.RoundTrip.{IsSendable}
use my_tiny_rpc.Rpc.Dispatcher.{
  dispatch, dispatch_named, dispatch_found, dispatch_to, call_found, call_parsed, answer,
  find_service, parse_service_full_name,
}
use my_tiny_rpc.TcpConnection.{TcpConnection, find_done}
use my_tiny_rpc.TcpConnection.Input.{serve_all, answer_calls}
use my_tiny_rpc.TcpConnection.Echo.{
  echo_service, services, idle_run_time, echo_request, echo_request-IsWellFormed, server, asking,
}
use my_tiny_rpc.Exchange.{answers}

abbrev pub echo_response : TinyPbProtocol
echo_response = record new_protocol {
  msg_id = codes "7";
  method_name = codes "Echo.m";
  pb_data = 1 ∷ 2 ∷ [];
}

-- What the echo service answers to the request.
pub answers-echo :
    answers (some 1) (some 2) services (echo_request ∷ []) idle_run_time ≡ echo_response ∷ []
unfolding serve_all seal_all dispatch dispatch_named dispatch_found dispatch_to call_found
    call_parsed answer find_service parse_service_full_name find_first_of echo_service sealed
    bytes_eq with_msg_id
answers-echo = refl

-- What the server has answered before, and what it answers now.
abbrev all_responses : List TinyPbProtocol
all_responses =
    (echo_response ∷ []) ++ answers (some 1) (some 2) services (echo_request ∷ []) idle_run_time

all_responses_lem : all_responses ≡ echo_response ∷ echo_response ∷ []
all_responses_lem = ap (λ l. echo_response ∷ l) answers-echo

pub request-IsSendable : IsSendable echo_request
unfolding with_msg_id
request-IsSendable = echo_request-IsWellFormed

pub response-IsSendable : IsSendable echo_response
unfolding with_msg_id
response-IsSendable = echo_request-IsWellFormed

-- The write buffer of a server that has sent the response once.
abbrev sent_once : TcpBuffer
sent_once = record {
  buffer = packets (echo_response ∷ []) ++ replicate 93 0;
  size = 128;
  read_idx = 0;
  write_idx = 35;
}

abbrev answering : TcpConnection
answering = record server { out_buffer = sent_once }

-- The callback 4, which waits for the id "7", is given the old response and the new one.
asking_calls :
    answer_calls asking.read_dones (seal_all all_responses)
    ≡ (4, sealed echo_response) ∷ (4, sealed echo_response) ∷ []
unfolding answer_calls find_done seal_all sealed bytes_eq with_msg_id
asking_calls = ap (λ l. answer_calls asking.read_dones (seal_all l)) all_responses_lem
