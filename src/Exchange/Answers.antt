-- ===== src/Exchange/Answers.antt =====
-- A whole exchange between a client and an idle server, from the theorems on each handler.
use my_tiny_rpc.Base.{
  ℕ, ◌+◌, ◌*◌, ◌/◌, ◌<◌, ◌^◌, ◌≡◌, sym, subst, ap, ◌∙◌, All, Option, List, [], ◌∷◌, ◌++◌, length,
  arith, All-append, true,
}
use my_tiny_rpc.Base.Outcome.{done}
use my_tiny_rpc.TcpBuffer.Inv.{IsValid, contents}
use my_tiny_rpc.Coder.TinyPb.{TinyPbProtocol}
use my_tiny_rpc.Coder.TinyPb.Encode.{packets, seal_all, Fits}
use my_tiny_rpc.Coder.TinyPb.RoundTrip.{IsSendable, bare, bare_lem, All-Fits, packets-append}
use my_tiny_rpc.Rpc.Dispatcher.{ServiceMap, RunTime}
use my_tiny_rpc.TcpConnection.{TcpConnection, Effect}
use my_tiny_rpc.TcpConnection.Idle.{IsIdleServer, stop_writing-IsIdleServer}
use my_tiny_rpc.TcpConnection.Input.{received, serve_all, answer_calls, on_read}
use my_tiny_rpc.TcpConnection.Output.{stop_writing, written, write_calls, on_write}
use my_tiny_rpc.TcpConnection.Write.{to_send, Sent, on_write_sends, on_write_keeps}
use my_tiny_rpc.TcpConnection.Serve.{Served, responses_to, on_read_serves}
use my_tiny_rpc.TcpConnection.Answer.{on_read_calls}
use my_tiny_rpc.Exchange.{answers, CanExchange}

module _ {Addr : Type 0} (local_addr peer_addr : Option Addr) (services : ServiceMap Addr)
    (n fuel : ℕ) (run_time : RunTime) (old : List TinyPbProtocol) (c s : TcpConnection)
    (can : CanExchange local_addr peer_addr services n run_time old c s) where
  abbrev pub ms : List TinyPbProtocol
  ms = to_send c

  abbrev pub rs : List TinyPbProtocol
  rs = answers local_addr peer_addr services ms run_time

  same_responses : responses_to local_addr peer_addr services (bare ms) run_time ≡ rs
  same_responses =
      let (_, _, messages_eq, _) = bare_lem ms can.requests in
      ap (λ l. (serve_all local_addr peer_addr services l run_time).0) messages_eq

  pub client_writes :
      (c' : TcpConnection) × (on_write (written n ∷ []) c
        ≡ done (c', packets ms, write_calls c.write_dones (seal_all ms)))
      × Sent c c'
  client_writes =
      let total : length (contents c.out_buffer ++ packets ms) ≡ length (packets ms) =
        ap (λ l. length (l ++ packets ms)) can.out_empty in
      let (c', runs, sent) =
        on_write_sends c can.is_connected n [] can.is_client can.out_valid
          (All-Fits ms can.requests) can.client_out_room (omega (arith, total, can.some_request))
          (omega (arith, total, can.writes_requests)) in
      (
        c',
        runs
            ∙ ap (λ l. done (c', l ++ packets ms, write_calls c.write_dones (seal_all ms)))
                can.out_empty,
        sent,
      )

  pub server_reads :
      length ms < fuel
      → (e : Effect) × (on_read local_addr peer_addr services fuel
            (received (packets ms) ∷ [])
            s
            run_time
          ≡ done e)
        × Served local_addr peer_addr services s run_time (bare ms) e
  server_reads enough =
      let (is_stream, stream_eq, messages_eq, length_eq) = bare_lem ms can.requests in
      let (e, runs, served) =
        on_read_serves local_addr peer_addr services s run_time (bare ms) [] fuel [] can.server_idle
          is_stream tt (omega (arith, ap length stream_eq, can.server_in_room))
          (omega (arith, length_eq))
          (subst (All Fits) (sym same_responses) (All-Fits rs can.responses))
          (subst (λ l. 3 * (s.out_buffer.write_idx + length (packets l)) / 2 < 2 ^ 31)
            (sym same_responses) can.server_out_room) in
      (
        e,
        subst
            (λ p. on_read local_addr peer_addr services fuel (received p ∷ []) s run_time ≡ done e)
            stream_eq runs,
        served,
      )

  old-append-IsSendable : All IsSendable (old ++ rs)
  old-append-IsSendable = All-append IsSendable old rs can.old_responses can.responses

  pub server_writes :
      (e : Effect)
      → Served local_addr peer_addr services s run_time (bare ms) e
      → (s' : TcpConnection) × (on_write (written n ∷ []) e.connection
          ≡ done (s', packets (old ++ rs), []))
        × (contents s'.out_buffer ≡ packets (old ++ rs))
        × IsIdleServer s'
  server_writes e served =
      let here : contents e.connection.out_buffer ≡ packets (old ++ rs) =
        served.answered
        ∙ ap (λ l. contents s.out_buffer ++ packets l) same_responses
        ∙ ap (λ l. l ++ packets rs) can.server_holds
        ∙ sym (packets-append old rs) in
      let idle = served.still_idle in
      let (runs, kept) =
        on_write_keeps e.connection idle.is_connected n [] idle.is_server idle.out_valid
          (omega (arith, ap length here, can.some_response))
          (omega (arith, ap length here, can.writes_responses)) in
      (
        stop_writing true e.connection,
        runs ∙ ap (λ l. done (stop_writing true e.connection, l, [])) here,
        kept ∙ here,
        stop_writing-IsIdleServer e.connection idle,
      )

  pub client_reads :
      (c' : TcpConnection)
      → c'.state ≡ c.state
      → c'.connection_type ≡ c.connection_type
      → c'.in_buffer ≡ c.in_buffer
      → length (old ++ rs) < fuel
      → (e : Effect) × (on_read local_addr peer_addr services fuel
            (received (packets (old ++ rs)) ∷ [])
            c'
            run_time
          ≡ done e)
        × (e.calls ≡ answer_calls c'.read_dones (seal_all (old ++ rs)))
        × (e.connection.read_dones ≡ c'.read_dones)
  client_reads c' same_state same_type same_in_buffer enough =
      let (is_stream, stream_eq, messages_eq, length_eq) =
        bare_lem (old ++ rs) old-append-IsSendable in
      let (e, runs, calls, _, still) =
        on_read_calls local_addr peer_addr services c' run_time (bare (old ++ rs)) [] fuel []
          (same_state ∙ can.is_connected) (same_type ∙ can.is_client)
          (subst IsValid (sym same_in_buffer) can.in_valid)
          (ap contents same_in_buffer ∙ can.in_empty) is_stream tt
          (omega (
            arith,
            ap length stream_eq,
            ap (λ b. b.write_idx) same_in_buffer,
            ap (λ b. b.size) same_in_buffer,
            can.client_in_room,
          ))
          (omega (arith, length_eq)) in
      (
        e,
        subst
            (λ p. on_read local_addr peer_addr services fuel (received p ∷ []) c' run_time ≡ done e)
            stream_eq runs,
        calls ∙ ap (answer_calls c'.read_dones) messages_eq,
        still,
      )
