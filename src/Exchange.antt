-- ===== src/Exchange.antt =====
-- Both ends of tinyrpc/net/tcp/tcp_connection.cc: a client's requests to a server and back. Between
-- them stands a network that takes all that is written at once, and brings it in one read.
pub mod Answers
pub mod Tests
use my_tiny_rpc.Base.{
  ℕ, suc, ◌+◌, ◌*◌, ◌/◌, ◌<◌, ◌≤◌, ◌^◌, ◌≡◌, refl, sym, subst, ap, ◌∙◌, Bytes, All, Option, List,
  [], ◌∷◌, ◌++◌, length, arith, All-append,
}
use my_tiny_rpc.Base.Outcome.{Outcome, done, ◌>>=◌}
use my_tiny_rpc.TcpBuffer.Inv.{IsValid, contents}
use my_tiny_rpc.Coder.TinyPb.{TinyPbProtocol}
use my_tiny_rpc.Coder.TinyPb.Encode.{packets, seal_all, Fits}
use my_tiny_rpc.Coder.TinyPb.RoundTrip.{
  stream, messages, IsSendable, bare, bare_lem, All-Fits, packets-append,
}
use my_tiny_rpc.Rpc.Dispatcher.{ServiceMap, RunTime}
use my_tiny_rpc.TcpConnection.{connected, by_client, TcpConnection, Effect}
use my_tiny_rpc.TcpConnection.Input.{received, serve_all, answer_calls, on_read}
use my_tiny_rpc.TcpConnection.Output.{written, write_calls, on_write}
use my_tiny_rpc.TcpConnection.Write.{to_send, Sent, on_write_sends, on_write_keeps}
use my_tiny_rpc.TcpConnection.Idle.{IsIdleServer}
use my_tiny_rpc.TcpConnection.Serve.{Served, responses_to, on_read_serves}
use my_tiny_rpc.TcpConnection.Answer.{on_read_calls}

-- The two connections afterwards, what went over the network, and the callbacks of the responses.
pub record Exchanged : Type 0 where
  pub client : TcpConnection
  pub server : TcpConnection
  pub request_bytes : Bytes
  pub response_bytes : Bytes
  pub calls : List (ℕ × TinyPbProtocol)

module _ {Addr : Type 0} (local_addr peer_addr : Option Addr) (services : ServiceMap Addr) where
  -- The client writes, the server reads and writes, and the client reads; `n` is what one `write`
  -- can take, and `fuel` is for the loops of `decode`.
  unfoldable pub exchange : ℕ → ℕ → RunTime → TcpConnection → TcpConnection → Outcome Exchanged
  exchange n fuel run_time c s = on_write (written n ∷ []) c >>= λ (c', sent, _).
      on_read local_addr peer_addr services fuel (received sent ∷ []) s run_time >>= λ e.
      on_write (written n ∷ []) e.connection >>= λ (s', back, _).
      on_read local_addr peer_addr services fuel (received back ∷ []) c' run_time >>= λ e'.
      done (record {
        client = e'.connection;
        server = s';
        request_bytes = sent;
        response_bytes = back;
        calls = e'.calls;
      })

  -- What the server answers to messages, one after the other.
  abbrev pub answers : List TinyPbProtocol → RunTime → List TinyPbProtocol
  answers ms run_time = (serve_all local_addr peer_addr services (seal_all ms) run_time).0

  -- A connected client with requests to send and nothing unread, an idle server whose write buffer
  -- has the packets of `old` messages, and room in the buffers.
  pub record CanExchange (n : ℕ) (run_time : RunTime) (old : List TinyPbProtocol)
      (c s : TcpConnection) : Type 0 where
    pub is_connected : c.state ≡ connected
    pub is_client : c.connection_type ≡ by_client
    pub out_valid : IsValid c.out_buffer
    pub out_empty : contents c.out_buffer ≡ []
    pub in_valid : IsValid c.in_buffer
    pub in_empty : contents c.in_buffer ≡ []
    pub server_idle : IsIdleServer s
    pub server_holds : contents s.out_buffer ≡ packets old
    pub requests : All IsSendable (to_send c)
    pub old_responses : All IsSendable old
    pub responses : All IsSendable (answers (to_send c) run_time)
    pub some_request : 0 < length (packets (to_send c))
    pub some_response : 0 < length (packets (old ++ answers (to_send c) run_time))
    pub writes_requests : length (packets (to_send c)) ≤ n
    pub writes_responses : length (packets (old ++ answers (to_send c) run_time)) ≤ n
    pub client_out_room : 3 * (c.out_buffer.write_idx + length (packets (to_send c))) / 2 < 2 ^ 31
    pub server_in_room : s.in_buffer.write_idx + length (packets (to_send c)) < s.in_buffer.size
    pub server_out_room :
        3 * (s.out_buffer.write_idx + length (packets (answers (to_send c) run_time))) / 2 < 2 ^ 31
    pub client_in_room :
        c.in_buffer.write_idx + length (packets (old ++ answers (to_send c) run_time))
        < c.in_buffer.size
