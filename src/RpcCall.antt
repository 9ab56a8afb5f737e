-- ===== src/RpcCall.antt =====
-- A whole call: tinyrpc/net/rpc/rpc_channel.cc on a client of tinyrpc/net/tcp/tcp_client.cc, and a
-- server's connection. The client connects at once; between the two stands a network that takes all
-- that is written, and brings it in one read.
pub mod Served
pub mod Start
pub mod Carry
pub mod Succeeds
pub mod Unanswered
pub mod Tests
use my_tiny_rpc.Base.{ℕ, Bytes, Bool, true, Option, some, List, [], ◌∷◌, ◌==◌, if◌then◌else◌}
use my_tiny_rpc.Base.Outcome.{Outcome, done, ◌>>=◌}
use my_tiny_rpc.Coder.TinyPb.{TinyPbProtocol}
use my_tiny_rpc.Rpc.Dispatcher.{ServiceMap, RunTime}
use my_tiny_rpc.Rpc.Channel.{RpcChannel, call_method, on_connected, on_sent, on_response}
use my_tiny_rpc.TcpConnection.{TcpConnection}
use my_tiny_rpc.TcpConnection.Input.{received, on_read}
use my_tiny_rpc.TcpConnection.Output.{written, on_write}
use my_tiny_rpc.TcpClient.{TcpClient, connect_ok, on_connect, write_message, read_message}

-- The callbacks that the channel hands to its client: of `writeMessage`, and of `readMessage`.
abbrev pub sent_callback : ℕ
sent_callback = 0

abbrev pub response_callback : ℕ
response_callback = 1

-- The channel and its client.
pub record Caller (Addr Response : Type 0) : Type 0 where
  pub channel : RpcChannel Addr Response
  pub client : TcpClient

-- Both ends afterwards.
pub record Called (Addr Response : Type 0) : Type 0 where
  pub caller : Caller Addr Response
  pub server : TcpConnection

module _ {Addr Response : Type 0} where
  -- The callback of `onConnect`: where there is no error, `writeMessage` follows.
  unfoldable pub connected_call : TcpClient → RpcChannel Addr Response → Caller Addr Response
  connected_call client started =
      let channel = on_connected client.error_code client.error_info started in
      record {
        channel = channel;
        client =
            if client.error_code == 0
            then write_message client channel.req_protocol sent_callback
            else client;
      }

  -- The callbacks of `onWrite`: `readMessage` waits for the id of what was sent.
  unfoldable pub run_sent : List (ℕ × TinyPbProtocol) → Caller Addr Response → Caller Addr Response
  run_sent [] c = c
  run_sent ((callback, message) ∷ calls) c = run_sent calls (record {
    channel = on_sent c.channel;
    client = read_message c.client message.msg_id response_callback;
  })

  -- The callbacks of `onRead`, one after the other.
  unfoldable pub run_responses :
      (Bytes → Option Response)
      → List (ℕ × TinyPbProtocol)
      → RpcChannel Addr Response
      → Outcome (RpcChannel Addr Response)
  run_responses parse_from_string [] ch = done ch
  run_responses parse_from_string ((callback, message) ∷ calls) ch =
      on_response parse_from_string message ch >>= λ ch'. run_responses parse_from_string calls ch'

module _ {Addr Response : Type 0} (local_addr peer_addr : Option Addr) (services : ServiceMap Addr)
    (parse_from_string : Bytes → Option Response) (n fuel : ℕ) (run_time : RunTime) where
  -- From the client's writable socket on: `n` is what one `write` can take, and `fuel` is for the
  -- loops of `decode`.
  unfoldable pub carry_call : Caller Addr Response → TcpConnection → Outcome (Called Addr Response)
  carry_call c s = on_write (written n ∷ []) c.client.connection >>= λ (connection, request, sent).
      let c' = run_sent sent (record c { client = record c.client { connection = connection } }) in
      on_read local_addr peer_addr services fuel (received request ∷ []) s run_time >>= λ e.
      on_write (written n ∷ []) e.connection >>= λ (s', response, _).
      on_read local_addr peer_addr services fuel (received response ∷ []) c'.client.connection
        run_time
      >>= λ e'. run_responses parse_from_string e'.calls c'.channel >>= λ channel. done (record {
        caller = record {
          channel = channel;
          client = record c'.client { connection = e'.connection };
        };
        server = s';
      })

  -- The call of a method by its full name, with the serialized request.
  unfoldable pub rpc_call :
      Bool
      → Bytes
      → Bytes
      → Bytes
      → RpcChannel Addr Response
      → TcpClient
      → TcpConnection
      → Outcome (Called Addr Response)
  rpc_call memory new_id full_name pb_data ch client s =
      call_method true true true memory new_id full_name (some pb_data) ch >>= λ started.
      carry_call (connected_call (on_connect connect_ok client).0 started) s
