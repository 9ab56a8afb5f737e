-- ===== src/TcpConnection/Input.antt =====
-- `TcpConnection::onRead` and `excute`. What the calls of `read` return is a list, one entry for each
-- call; a loop that needs more calls than there are entries is `stuck`.
use my_tiny_rpc.Base.{
  ℕ, ◌*◌, Bytes, Bool, true, false, Option, none, some, List, [], ◌∷◌, ◌==◌, if◌then◌else◌, length,
}
use my_tiny_rpc.Base.Outcome.{Outcome, done, stuck, ◌>>=◌, ◌>>◌, demand}
use my_tiny_rpc.TcpBuffer.{
  TcpBuffer, fits_int, write_able, copy_in, resize_buffer, move_write_index,
}
use my_tiny_rpc.Coder.TinyPb.{TinyPbProtocol, new_protocol, encode, decode}
use my_tiny_rpc.Rpc.Dispatcher.{ServiceMap, RunTime, dispatch}
use my_tiny_rpc.TcpConnection.{
  if_connected, by_type, TcpConnection, Effect, listen_write, clear, find_done,
}

-- What a `read` returns: bytes that it has copied, 0, -1 with EAGAIN, or -1 with another error.
pub data ReadResult : Type 0 where
  received : Bytes → ReadResult
  end_of_stream : ReadResult
  read_again : ReadResult
  read_failed : ReadResult

-- A buffer without room doubles before the `read`.
unfoldable pub make_room : TcpBuffer → Outcome TcpBuffer
make_room b = do
  room ← write_able b
  (if room == 0 then (demand (fits_int (2 * b.size)) >> resize_buffer b (2 * b.size)) else done b)

-- The loop of `onRead`: the buffer, and whether the peer has closed. `rest` is what the loop goes on
-- to do. A count of bytes that is just the count asked for means that there may be more.
unfoldable pub take_received :
    Bytes → TcpBuffer → (TcpBuffer → Outcome (TcpBuffer × Bool)) → Outcome (TcpBuffer × Bool)
take_received bytes b rest = do
  read_count ← write_able b
  buf ← copy_in b.buffer b.write_idx bytes
  b' ← move_write_index (record b { buffer = buf }) (length bytes)
  (if length bytes == read_count then rest b' else done (b', false))

unfoldable pub read_loop : List ReadResult → TcpBuffer → Outcome (TcpBuffer × Bool)
read_loop [] b = stuck
read_loop (received bytes ∷ reads) b =
    make_room b >>= λ b'. take_received bytes b' (read_loop reads)
read_loop (end_of_stream ∷ reads) b = make_room b >>= λ b'. done (b', true)
read_loop (read_again ∷ reads) b = make_room b >>= λ b'. done (b', false)
read_loop (read_failed ∷ reads) b = make_room b >>= read_loop reads

-- The client's half of `excute`: a message whose id nothing waits for is dropped.
abbrev pub add_call :
    Option ℕ → TinyPbProtocol → List (ℕ × TinyPbProtocol) → List (ℕ × TinyPbProtocol)
add_call none message calls = calls
add_call (some callback) message calls = (callback, message) ∷ calls

unfoldable pub answer_calls : List (Bytes × ℕ) → List TinyPbProtocol → List (ℕ × TinyPbProtocol)
answer_calls dones [] = []
answer_calls dones (m ∷ ms) = add_call (find_done dones m.msg_id) m (answer_calls dones ms)

module _ {Addr : Type 0} (local_addr peer_addr : Option Addr) (services : ServiceMap Addr) where
  -- The requests go to the dispatcher one by one, each with a new response.
  unfoldable pub serve_all : List TinyPbProtocol → RunTime → List TinyPbProtocol × RunTime
  serve_all [] run_time = ([], run_time)
  serve_all (request ∷ requests) run_time =
      let d =
        dispatch local_addr peer_addr services
          (record { request = request; response = new_protocol; run_time = run_time }) in
      let (responses, run_time') = serve_all requests d.run_time in
      (d.response ∷ responses, run_time')

  unfoldable pub execute_server : ℕ → TcpConnection → RunTime → Outcome Effect
  execute_server fuel c run_time = do
    (in_buffer, requests) ← decode fuel c.in_buffer
    let (responses, run_time') = serve_all requests run_time
    (out_buffer, sealed) ← encode responses c.out_buffer
    done (record {
      connection = listen_write (record c { in_buffer = in_buffer; out_buffer = out_buffer });
      run_time = run_time';
      calls = [];
    })

  unfoldable pub execute_client : ℕ → TcpConnection → RunTime → Outcome Effect
  execute_client fuel c run_time = do
    (in_buffer, messages) ← decode fuel c.in_buffer
    done (record {
      connection = record c { in_buffer = in_buffer };
      run_time = run_time;
      calls = answer_calls c.read_dones messages;
    })

  -- `excute`; `fuel` is for the loop of `decode`.
  unfoldable pub execute : ℕ → TcpConnection → RunTime → Outcome Effect
  execute fuel c run_time =
      by_type c.connection_type (execute_server fuel c run_time) (execute_client fuel c run_time)

  unfoldable pub read_connected : ℕ → List ReadResult → TcpConnection → RunTime → Outcome Effect
  read_connected fuel reads c run_time = do
    (in_buffer, is_close) ← read_loop reads c.in_buffer
    let c' = record c { in_buffer = in_buffer }
    (if is_close
        then done (record { connection = clear c'; run_time = run_time; calls = [] })
        else execute fuel c' run_time)

  unfoldable pub on_read : ℕ → List ReadResult → TcpConnection → RunTime → Outcome Effect
  on_read fuel reads c run_time =
      if_connected c.state (read_connected fuel reads c run_time)
        (done (record { connection = c; run_time = run_time; calls = [] }))
