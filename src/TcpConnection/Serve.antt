-- ===== src/TcpConnection/Serve.antt =====
-- From the bytes that arrive on a connection to the responses that wait to be written.
use my_tiny_rpc.Base.{
  false, ℕ, ◌+◌, ◌*◌, ◌/◌, ◌<◌, ◌^◌, ◌≡◌, refl, ap, ◌∙◌, true, Option, some, List, [], ◌∷◌, ◌++◌,
  length, All, Bytes,
}
use my_tiny_rpc.Base.Outcome.{done}
use my_tiny_rpc.TcpBuffer.{TcpBuffer}
use my_tiny_rpc.TcpBuffer.Inv.{IsValid, contents}
use my_tiny_rpc.Coder.TinyPb.{TinyPbProtocol}
use my_tiny_rpc.Coder.TinyPb.Encode.{packets, Fits, encode_appends}
use my_tiny_rpc.Coder.TinyPb.Search.{HasNoStart}
use my_tiny_rpc.Coder.TinyPb.RoundTrip.{stream, IsStream, messages, DecodesTo, decode-stream}
use my_tiny_rpc.FdEvent.{listen, listen_for}
use my_tiny_rpc.EventLoop.{add_epoll_event}
use my_tiny_rpc.EventLoop.InSync.{InSync, add_to_epoll_watches}
use my_tiny_rpc.Rpc.Dispatcher.{ServiceMap, RunTime}
use my_tiny_rpc.TcpConnection.{connected, by_server, TcpConnection, Effect, listen_write}
use my_tiny_rpc.TcpConnection.Idle.{IsIdleServer, listen_write-IsIdleServer}
use my_tiny_rpc.TcpConnection.Input.{ReadResult, received, serve_all, execute_server, on_read}
use my_tiny_rpc.TcpConnection.Read.{read_loop_takes, on_read-executes, execute-server}

module _ {Addr : Type 0} (local_addr peer_addr : Option Addr) (services : ServiceMap Addr) where
  -- The responses to the messages of a stream.
  abbrev pub responses_to : List (Bytes × TinyPbProtocol) → RunTime → List TinyPbProtocol
  responses_to frames run_time =
      (serve_all local_addr peer_addr services (messages frames) run_time).0

  module _ (c : TcpConnection) (run_time : RunTime) (frames : List (Bytes × TinyPbProtocol)) where
    -- What a connection of the server has done with the packets in its buffer.
    pub record Served (e : Effect) : Type 0 where
      pub read_all : contents e.connection.in_buffer ≡ []
      pub answered :
          contents e.connection.out_buffer
          ≡ contents c.out_buffer ++ packets (responses_to frames run_time)
      pub waits_to_write :
          e.connection.event_loop.interest c.fd_event.fd
          ≡ some (record c.fd_event.listen_events { epoll_out = true })
      pub still_idle : IsIdleServer e.connection

    after_serving : TcpBuffer → TcpBuffer → Effect
    after_serving in_buffer out_buffer = record {
      connection = listen_write (record c { in_buffer = in_buffer; out_buffer = out_buffer });
      run_time = (serve_all local_addr peer_addr services (messages frames) run_time).1;
      calls = [];
    }

    watched :
        c.in_loop ≡ true
        → InSync c.event_loop
        → c.event_loop.refuses c.fd_event.fd ≡ false
        → (listen_write c).event_loop.interest c.fd_event.fd
          ≡ some (record c.fd_event.listen_events { epoll_out = true })
    unfolding listen_write listen listen_for add_epoll_event
    watched here sync accepted =
        ap (λ b. (add_epoll_event b c.event_loop (listen_write c).fd_event).interest c.fd_event.fd)
          here
        ∙ add_to_epoll_watches c.event_loop (listen_write c).fd_event sync accepted

    execute_server_lem :
        (fuel : ℕ)
        → c.state ≡ connected
        → c.connection_type ≡ by_server
        → DecodesTo fuel c.in_buffer (messages frames)
        → IsValid c.out_buffer
        → All Fits (responses_to frames run_time)
        → 3 * (c.out_buffer.write_idx + length (packets (responses_to frames run_time))) / 2
          < 2 ^ 31
        → c.in_loop ≡ true
        → InSync c.event_loop
        → c.event_loop.refuses c.fd_event.fd ≡ false
        → (e : Effect) × (execute_server local_addr peer_addr services fuel c run_time ≡ done e)
          × Served e
    unfolding execute_server after_serving listen_write listen listen_for
    execute_server_lem fuel is_connected is_server (in', decodes, v', empty) w fit room in_loop sync
          accepted =
        let (out', encodes, w', grew) =
          encode_appends (responses_to frames run_time) c.out_buffer w fit room in
        (
          after_serving in' out',
          rw (decodes, encodes) refl,
          record {
            read_all = empty;
            answered = grew;
            waits_to_write = watched in_loop sync accepted;
            still_idle =
                listen_write-IsIdleServer (record c { in_buffer = in'; out_buffer = out' })
                  (record {
                    is_connected = is_connected;
                    is_server = is_server;
                    in_valid = v';
                    in_empty = empty;
                    out_valid = w';
                    own_thread = in_loop;
                    in_sync = sync;
                    accepted = accepted;
                  });
          },
        )

module _ {Addr : Type 0} (local_addr peer_addr : Option Addr) (services : ServiceMap Addr) where
  -- What `onRead` does with bytes that are decoded to the messages of some frames.
  pub on_read_decodes :
      (c : TcpConnection) (run_time : RunTime) (frames : List (Bytes × TinyPbProtocol))
      (bytes : Bytes) (fuel : ℕ) (reads : List ReadResult)
      → IsIdleServer c
      → ((b : TcpBuffer) → IsValid b → contents b ≡ bytes → DecodesTo fuel b (messages frames))
      → c.in_buffer.write_idx + length bytes < c.in_buffer.size
      → All Fits (responses_to local_addr peer_addr services frames run_time)
      → 3
          * (c.out_buffer.write_idx
              + length (packets (responses_to local_addr peer_addr services frames run_time)))
          / 2
        < 2 ^ 31
      → (e : Effect) × (on_read local_addr peer_addr services fuel
            (received bytes ∷ reads)
            c
            run_time
          ≡ done e)
        × Served local_addr peer_addr services c run_time frames e
  on_read_decodes c run_time frames bytes fuel reads i decodes room fit out_room =
      let (b', reading, v', grew) = read_loop_takes i.in_valid bytes reads room in
      let here : contents b' ≡ bytes = grew ∙ ap (λ l. l ++ bytes) i.in_empty in
      let (e, runs, served) =
        execute_server_lem local_addr peer_addr services (record c { in_buffer = b' }) run_time
          frames fuel i.is_connected i.is_server (decodes b' v' here) i.out_valid fit out_room
          i.own_thread i.in_sync i.accepted in
      (
        e,
        on_read-executes local_addr peer_addr services fuel run_time c _ reading i.is_connected
            ∙ execute-server local_addr peer_addr services fuel run_time
                (record c { in_buffer = b' }) i.is_server
            ∙ runs,
        record {
          read_all = served.read_all;
          answered = served.answered;
          waits_to_write = served.waits_to_write;
          still_idle = served.still_idle;
        },
      )

  pub on_read_serves :
      (c : TcpConnection) (run_time : RunTime) (frames : List (Bytes × TinyPbProtocol))
      (tail : Bytes) (fuel : ℕ) (reads : List ReadResult)
      → IsIdleServer c
      → IsStream frames
      → HasNoStart tail
      → c.in_buffer.write_idx + length (stream frames tail) < c.in_buffer.size
      → length frames < fuel
      → All Fits (responses_to local_addr peer_addr services frames run_time)
      → 3
          * (c.out_buffer.write_idx
              + length (packets (responses_to local_addr peer_addr services frames run_time)))
          / 2
        < 2 ^ 31
      → (e : Effect) × (on_read local_addr peer_addr services fuel
            (received (stream frames tail) ∷ reads)
            c
            run_time
          ≡ done e)
        × Served local_addr peer_addr services c run_time frames e
  on_read_serves c run_time frames tail fuel reads i h ht room enough fit out_room =
      on_read_decodes c run_time frames (stream frames tail) fuel reads i
        (λ b v here. decode-stream frames tail b fuel h ht v here enough) room fit out_room
