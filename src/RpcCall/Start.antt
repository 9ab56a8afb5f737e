-- ===== src/RpcCall/Start.antt =====
-- A call from `CallMethod` to the message that waits to be sent.
use my_tiny_rpc.Base.{◌≡◌, ap, Bytes, Bool, true, false, some, [], ◌∷◌, ◌++◌, ◌==◌, if◌then◌else◌}
use my_tiny_rpc.Coder.TinyPb.{TinyPbProtocol, new_protocol}
use my_tiny_rpc.Rpc.Channel.{on_connected, RpcChannel, choose_msg_id, start_call}
use my_tiny_rpc.TcpConnection.{push_send_message, listen_write, set_state}
use my_tiny_rpc.TcpClient.{connection_made, on_connect, connect_ok, write_message, TcpClient}
use my_tiny_rpc.RpcCall.{sent_callback, connected_call}

-- What a channel and its client are when a call starts: the channel was set up with a closure and the
-- call is not cancelled, and the client is new.
pub record CanCall {Addr Response : Type 0} (ch : RpcChannel Addr Response) (client : TcpClient)
    : Type 0 where
  pub is_init : ch.is_init ≡ true
  pub closure : ch.has_closure ≡ true
  pub live : ch.controller.is_canceled ≡ false
  pub no_error : client.error_code ≡ 0
  pub nothing_pushed : client.connection.write_dones ≡ []
  pub none_waits : client.connection.read_dones ≡ []

module _ {Addr Response : Type 0} (ch : RpcChannel Addr Response) (client : TcpClient)
    (memory : Bool) (new_id full_name pb_data : Bytes) where
  -- The message that goes out.
  abbrev pub request : TinyPbProtocol
  request = record new_protocol {
    msg_id = (choose_msg_id new_id ch.controller).msg_id;
    method_name = full_name;
    pb_data = pb_data;
  }

  -- The client's connection, when `writeMessage` has been told of it.
  abbrev pub asking : TcpClient
  asking = write_message (connection_made client) request sent_callback

  -- The call as `CallMethod` starts it.
  abbrev pub started : RpcChannel Addr Response
  started = start_call memory new_id full_name (some pb_data) ch

  pub connected_lem :
      client.error_code ≡ 0
      → connected_call (on_connect connect_ok client).0 started
        ≡ record { channel = on_connected 0 client.error_info started; client = asking }
  unfolding connected_call on_connect connection_made on_connected start_call
  connected_lem e =
      ap
        (λ k. record {
          channel = on_connected k client.error_info started;
          client =
              if k == 0
              then write_message (connection_made client)
                  (on_connected k client.error_info started).req_protocol sent_callback
              else connection_made client;
        })
        e

  pub asking_lem :
      CanCall ch client
      → (asking.connection.write_dones ≡ (request, sent_callback) ∷ [])
        × (asking.connection.read_dones ≡ [])
  unfolding write_message push_send_message listen_write connection_made set_state
  asking_lem can = (ap (λ l. l ++ (request, sent_callback) ∷ []) can.nothing_pushed, can.none_waits)
