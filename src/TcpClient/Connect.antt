-- ===== src/TcpClient/Connect.antt =====
-- How connecting ends, and what is sent after it.
use my_tiny_rpc.Base.{
  length-append, map, subst, ℕ, ◌+◌, ◌*◌, ◌/◌, ◌<◌, ◌≤◌, ◌^◌, ◌≡◌, ◌⊎◌, inl, inr, refl, ap, ◌∙◌,
  List, [], ◌∷◌, ◌++◌, arith, length, All,
}
use my_tiny_rpc.Base.Outcome.{done}
use my_tiny_rpc.TcpBuffer.Inv.{IsValid, contents}
use my_tiny_rpc.Coder.TinyPb.{packet_length, TinyPbProtocol, with_msg_id}
use my_tiny_rpc.Coder.TinyPb.Encode.{packets, seal_all, Fits}
use my_tiny_rpc.Coder.TinyPb.Layout.{length-packet, packet, sealed}
use my_tiny_rpc.TcpConnection.{
  connected, by_client, TcpConnection, listen_write, push_send_message, set_state,
}
use my_tiny_rpc.TcpConnection.Output.{WriteResult, written, on_write, write_calls}
use my_tiny_rpc.TcpConnection.Write.{to_send, on_write_sends}
use my_tiny_rpc.TcpClient.{
  ConnectResult, connect_ok, connect_in_progress, connect_is_connected, connect_refused,
  connect_failed, TcpClient, connection_made, connect_error, try_again, on_connect_writable,
  write_message,
}

-- The client is connected, or has an error and keeps the state that its connection had.
abbrev pub HasSettled : TcpClient → TcpClient → Type 0
HasSettled c r =
    ((r.connection.state ≡ connected) × (r.error_code ≡ c.error_code))
    ⊎ ((r.connection.state ≡ c.connection.state) × (10000000 ≤ r.error_code))

try_again-HasSettled :
    (result : ConnectResult) (new_fd : ℕ) (c : TcpClient) → HasSettled c (try_again result new_fd c)
unfolding try_again connection_made set_state connect_error
try_again-HasSettled connect_ok new_fd c = inl (refl, refl)
try_again-HasSettled (connect_is_connected text) new_fd c = inl (refl, refl)
try_again-HasSettled (connect_refused text) new_fd c = inr (refl, omega arith)
try_again-HasSettled (connect_failed text) new_fd c = inr (refl, omega arith)
try_again-HasSettled (connect_in_progress text) new_fd c = inr (refl, omega arith)

-- When the socket of a client that connects becomes writable, the client is connected or has an
-- error code.
pub on_connect_writable-HasSettled :
    (result : ConnectResult) (new_fd : ℕ) (c : TcpClient)
    → HasSettled c (on_connect_writable result new_fd c)
unfolding on_connect_writable
on_connect_writable-HasSettled result new_fd c = try_again-HasSettled result new_fd c

pushed_messages :
    (c : TcpClient) (m : TinyPbProtocol) (callback : ℕ)
    → c.connection.write_dones ≡ []
    → (write_message c m callback).connection.write_dones ≡ (m, callback) ∷ []
unfolding write_message listen_write push_send_message
pushed_messages c m callback none_yet = ap (λ l. l ++ (m, callback) ∷ []) none_yet

-- `on_write_sends`, where the messages to send are known.
sends :
    (d : TcpConnection) (n : ℕ) (ws : List WriteResult) (ms : List TinyPbProtocol)
    → d.state ≡ connected
    → d.connection_type ≡ by_client
    → IsValid d.out_buffer
    → contents d.out_buffer ≡ []
    → to_send d ≡ ms
    → All Fits ms
    → 3 * (d.out_buffer.write_idx + length (packets ms)) / 2 < 2 ^ 31
    → 0 < length (packets ms)
    → length (packets ms) ≤ n
    → (c' : TcpConnection) × (on_write (written n ∷ ws) d
        ≡ done (c', packets ms, write_calls d.write_dones (seal_all ms)))
sends d n ws ms is_connected is_client v empty p =
    subst
      (λ ms.
        All Fits ms
        → 3 * (d.out_buffer.write_idx + length (packets ms)) / 2 < 2 ^ 31
        → 0 < length (packets ms)
        → length (packets ms) ≤ n
        → (c' : TcpConnection) × (on_write (written n ∷ ws) d
            ≡ done (c', packets ms, write_calls d.write_dones (seal_all ms))))
      p
      (λ fit room some_bytes all.
        let total : length (contents d.out_buffer ++ packets (to_send d))
            ≡ length (packets (to_send d)) =
          ap (λ l. length (l ++ packets (to_send d))) empty in
        let (c', runs, cleared) =
          on_write_sends d is_connected n ws is_client v fit room (omega (arith, total))
            (omega (arith, total)) in
        (
          c',
          runs
              ∙ ap
                  (λ l. done (
                    c',
                    l ++ packets (to_send d),
                    write_calls d.write_dones (seal_all (to_send d)),
                  ))
                  empty,
        ))

some_bytes : (m : TinyPbProtocol) → 0 < length (packets (m ∷ []))
unfolding packets packet_length
some_bytes m =
    omega (arith, length-append (packet (with_msg_id m)) [], length-packet (with_msg_id m))

-- A request that is written on a connected client with nothing else to send goes out as its packet,
-- and then its callback runs.
pub write_message_sends :
    (c : TcpClient) (m : TinyPbProtocol) (callback n : ℕ) (ws : List WriteResult)
    → c.connection.state ≡ connected
    → c.connection.connection_type ≡ by_client
    → c.connection.write_dones ≡ []
    → IsValid c.connection.out_buffer
    → contents c.connection.out_buffer ≡ []
    → Fits m
    → 3 * (c.connection.out_buffer.write_idx + length (packets (m ∷ []))) / 2 < 2 ^ 31
    → length (packets (m ∷ [])) ≤ n
    → (c' : TcpConnection) × (on_write (written n ∷ ws) (write_message c m callback).connection
        ≡ done (c', packets (m ∷ []), (callback, sealed (with_msg_id m)) ∷ []))
unfolding write_message listen_write push_send_message write_calls seal_all
write_message_sends c m callback n ws is_connected is_client none_yet v empty fit room all =
    let d = (write_message c m callback).connection in
    let pushed = pushed_messages c m callback none_yet in
    let (c', runs) =
      sends d n ws (m ∷ []) is_connected is_client v empty (ap (map (λ p. p.0)) pushed) (fit, tt)
        room (some_bytes m) all in
    (c', runs ∙ ap (λ w. done (c', packets (m ∷ []), write_calls w (seal_all (m ∷ [])))) pushed)
