-- ===== src/RpcCall/Carry.antt =====
-- A request that was pushed goes out, is served, and its response reaches the channel.
use my_tiny_rpc.Base.{
  ℕ, ◌<◌, ◌≡◌, ◌≢◌, refl, ap, ◌∙◌, Bytes, Option, List, [], ◌∷◌, length, arith, map,
}
use my_tiny_rpc.Base.Outcome.{done}
use my_tiny_rpc.Coder.TinyPb.{TinyPbProtocol, with_msg_id}
use my_tiny_rpc.Coder.TinyPb.Encode.{packets, seal_all}
use my_tiny_rpc.Coder.TinyPb.Layout.{sealed}
use my_tiny_rpc.Rpc.Dispatcher.{ServiceMap, RunTime}
use my_tiny_rpc.Rpc.Channel.{RpcChannel, on_sent}
use my_tiny_rpc.TcpConnection.{
  TcpConnection, find_done, insert_done, push_read_message, listen_read,
}
use my_tiny_rpc.TcpConnection.Input.{answer_calls}
use my_tiny_rpc.TcpConnection.Output.{write_calls}
use my_tiny_rpc.TcpConnection.Write.{to_send}
use my_tiny_rpc.TcpClient.{TcpClient, read_message}
use my_tiny_rpc.Exchange.{answers, CanExchange}
use my_tiny_rpc.Exchange.Answers.{client_writes, server_reads, server_writes, client_reads}
use my_tiny_rpc.RpcCall.{
  sent_callback, response_callback, Caller, Called, run_sent, run_responses, carry_call,
}
use my_tiny_rpc.RpcCall.Served.{with_msg_id-named}

waits :
    (dones : List (Bytes × ℕ)) (msg_id : Bytes) (callback : ℕ)
    → dones ≡ []
    → insert_done (find_done dones msg_id) dones msg_id callback ≡ (msg_id, callback) ∷ []
unfolding find_done
waits dones msg_id callback e = rw e refl

-- The connection that waits for the response to `m`, when `readMessage` has told it.
after_sent : TcpClient → TcpConnection → TinyPbProtocol → TcpConnection
after_sent client c m =
    (read_message (record client { connection = c }) m.msg_id response_callback).connection

after_sent_lem :
    (client : TcpClient) (c : TcpConnection) (m : TinyPbProtocol)
    → ((after_sent client c m).state ≡ c.state)
      × ((after_sent client c m).connection_type ≡ c.connection_type)
      × ((after_sent client c m).in_buffer ≡ c.in_buffer)
unfolding after_sent read_message push_read_message listen_read
after_sent_lem client c m = (refl, refl, refl)

after_sent_waits :
    (client : TcpClient) (c : TcpConnection) (m : TinyPbProtocol)
    → c.read_dones ≡ []
    → (after_sent client c m).read_dones ≡ (m.msg_id, response_callback) ∷ []
unfolding after_sent read_message push_read_message listen_read
after_sent_waits client c m e = waits c.read_dones m.msg_id response_callback e

-- The one callback of a request that was sent.
sent_call :
    (dones : List (TinyPbProtocol × ℕ)) (request : TinyPbProtocol)
    → request.msg_id ≢ []
    → dones ≡ (request, sent_callback) ∷ []
    → write_calls dones (seal_all (map (λ d. d.0) dones)) ≡ (sent_callback, sealed request) ∷ []
unfolding write_calls seal_all
sent_call dones request named e =
    ap (λ l. write_calls l (seal_all (map (λ d. d.0) l))) e
    ∙ ap (λ m. (sent_callback, sealed m) ∷ []) (with_msg_id-named request named)

module _ {Addr Response : Type 0} (local_addr peer_addr : Option Addr) (services : ServiceMap Addr)
    (parse_from_string : Bytes → Option Response) (n fuel : ℕ) (run_time : RunTime)
    (enough : 1 < fuel) (caller : Caller Addr Response) (s : TcpConnection)
    (request response : TinyPbProtocol) (named : request.msg_id ≢ [])
    (pushed : caller.client.connection.write_dones ≡ (request, sent_callback) ∷ [])
    (none_waits : caller.client.connection.read_dones ≡ [])
    (answered : answers local_addr peer_addr services (request ∷ []) run_time ≡ response ∷ [])
    (can : CanExchange local_addr peer_addr services n run_time [] caller.client.connection s) where
  abbrev c : TcpConnection
  c = caller.client.connection

  to_send-request : to_send c ≡ request ∷ []
  to_send-request = ap (map (λ d. d.0)) pushed

  answers-response : answers local_addr peer_addr services (to_send c) run_time ≡ response ∷ []
  answers-response =
      ap (λ ms. answers local_addr peer_addr services ms run_time) to_send-request ∙ answered

  -- The callbacks that the response runs.
  abbrev pub response_calls : List (ℕ × TinyPbProtocol)
  response_calls =
      answer_calls ((request.msg_id, response_callback) ∷ []) (sealed (with_msg_id response) ∷ [])

  waiting_calls :
      (c' : TcpConnection)
      → c'.read_dones ≡ []
      → answer_calls
          (after_sent caller.client c' (sealed request)).read_dones
          (seal_all (answers local_addr peer_addr services (to_send c) run_time))
        ≡ response_calls
  unfolding seal_all sealed
  waiting_calls c' none_left =
      ap
        (λ l.
          answer_calls l (seal_all (answers local_addr peer_addr services (to_send c) run_time)))
        (after_sent_waits caller.client c' (sealed request) none_left)
      ∙ ap (λ rs. answer_calls ((request.msg_id, response_callback) ∷ []) (seal_all rs))
          answers-response

  pub carry_call_lem :
      (channel : RpcChannel Addr Response)
      → run_responses parse_from_string response_calls (on_sent caller.channel) ≡ done channel
      → (b : Called Addr Response) × (carry_call local_addr peer_addr services parse_from_string n
            fuel run_time caller s
          ≡ done b)
        × (b.caller.channel ≡ channel)
  unfolding carry_call run_sent after_sent
  carry_call_lem channel taken =
      let (c', writes, sent) =
        client_writes local_addr peer_addr services n fuel run_time [] c s can in
      let writes_one =
        writes
        ∙ ap (λ l. done (c', packets (to_send c), l))
            (sent_call c.write_dones request named pushed) in
      let waiting = after_sent caller.client c' (sealed request) in
      let (same_state, same_type, same_in_buffer) =
        after_sent_lem caller.client c' (sealed request) in
      let (e, reads, served) =
        server_reads local_addr peer_addr services n fuel run_time [] c s can
          (omega (arith, ap length to_send-request, enough)) in
      let (s', answers_back, _, _) =
        server_writes local_addr peer_addr services n fuel run_time [] c s can e served in
      let (e', ends, calls, _) =
        client_reads local_addr peer_addr services n fuel run_time [] c s can waiting
          (same_state ∙ sent.same_state) (same_type ∙ sent.same_type)
          (same_in_buffer ∙ sent.same_in_buffer)
          (omega (arith, ap length answers-response, enough)) in
      let responds =
        ap (λ l. run_responses parse_from_string l (on_sent caller.channel))
          (calls ∙ waiting_calls c' (sent.same_read_dones ∙ none_waits))
        ∙ taken in
      (
        record {
          caller = record {
            channel = channel;
            client =
                record (read_message (record caller.client { connection = c' })
                  (sealed request).msg_id response_callback) { connection = e'.connection };
          };
          server = s';
        },
        rw (writes_one, reads, answers_back, ends, responds) refl,
        refl,
      )
