-- ===== src/TcpConnection/Output.antt =====
-- `TcpConnection::onWrite`. What the calls of `write` return is a list, one entry for each call; a loop
-- that needs more calls than there are entries is `stuck`.
use my_tiny_rpc.Base.{
  ℕ, Bytes, Bool, true, false, List, [], ◌∷◌, ◌++◌, leb, ◌==◌, if◌then◌else◌, take, map,
}
use my_tiny_rpc.Base.Outcome.{Outcome, done, stuck, ◌>>=◌}
use my_tiny_rpc.TcpBuffer.{TcpBuffer, read_able, copy_out}
use my_tiny_rpc.Coder.TinyPb.{TinyPbProtocol, encode}
use my_tiny_rpc.FdEvent.{out_event, cancel}
use my_tiny_rpc.EventLoop.{add_epoll_event}
use my_tiny_rpc.TcpConnection.{if_connected, by_type, TcpConnection}

-- What a `write` returns: a count, -1 with EAGAIN, or -1 with another error.
pub data WriteResult : Type 0 where
  written : ℕ → WriteResult
  write_again : WriteResult
  write_failed : WriteResult

-- The loop of `onWrite`: whether all was written, and the bytes that went to the socket. Nothing in
-- it moves the buffer's read index, so each `write` starts with the first unread byte again.
unfoldable pub after_write :
    WriteResult → ℕ → Bytes → Outcome (Bool × Bytes) → Outcome (Bool × Bytes)
after_write (written n) write_count unread rest =
    if leb write_count n
    then done (true, unread)
    else (rest >>= λ r. done (r.0, take n unread ++ r.1))
after_write write_again write_count unread rest = done (false, [])
after_write write_failed write_count unread rest = rest

unfoldable pub write_loop : List WriteResult → TcpBuffer → Outcome (Bool × Bytes)
write_loop [] b = read_able b >>= λ n. if n == 0 then done (true, []) else stuck
write_loop (w ∷ ws) b =
    let rest = write_loop ws b in
    read_able b >>= λ n.
    if n == 0
    then done (true, [])
    else (copy_out b.buffer b.read_idx n >>= λ unread. after_write w n unread rest)

-- The client encodes its messages before it writes.
unfoldable pub encode_messages : TcpConnection → Outcome (TcpBuffer × List TinyPbProtocol)
encode_messages c =
    by_type c.connection_type (done (c.out_buffer, []))
      (encode (map (λ d. d.0) c.write_dones) c.out_buffer)

unfoldable pub stop_writing : Bool → TcpConnection → TcpConnection
stop_writing true c =
    let e = cancel c.fd_event out_event in
    record c { fd_event = e; event_loop = add_epoll_event c.in_loop c.event_loop e }
stop_writing false c = c

-- The callbacks of the messages, which `encode` has completed.
unfoldable pub write_calls :
    List (TinyPbProtocol × ℕ) → List TinyPbProtocol → List (ℕ × TinyPbProtocol)
write_calls ((old, callback) ∷ dones) (m ∷ ms) = (callback, m) ∷ write_calls dones ms
write_calls dones ms = []

unfoldable pub run_write_dones :
    TcpConnection → List TinyPbProtocol → TcpConnection × List (ℕ × TinyPbProtocol)
run_write_dones c messages =
    by_type c.connection_type (c, [])
      (record c { write_dones = [] }, write_calls c.write_dones messages)

-- `onWrite`: the connection, the bytes that went out, and the callbacks.
unfoldable pub write_connected :
    List WriteResult → TcpConnection → Outcome (TcpConnection × Bytes × List (ℕ × TinyPbProtocol))
write_connected writes c = do
  (out_buffer, messages) ← encode_messages c
  (is_write_all, sent) ← write_loop writes out_buffer
  let c' = stop_writing is_write_all (record c { out_buffer = out_buffer })
  let (c'', calls) = run_write_dones c' messages
  done (c'', sent, calls)

unfoldable pub on_write :
    List WriteResult → TcpConnection → Outcome (TcpConnection × Bytes × List (ℕ × TinyPbProtocol))
on_write writes c = if_connected c.state (write_connected writes c) (done (c, [], []))
