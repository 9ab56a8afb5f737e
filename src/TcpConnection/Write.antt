-- ===== src/TcpConnection/Write.antt =====
-- What `onWrite` sends, and what it leaves in the buffer.
use my_tiny_rpc.Base.{
  ℕ, ◌+◌, ◌*◌, ◌/◌, ◌≤◌, ◌<◌, ◌^◌, ◌≡◌, refl, ap, ◌∙◌, true, false, List, [], ◌∷◌, ◌++◌, arith,
  ◌==◌, lt→leb, le→leb, length, take, drop, All, map, Bytes,
}
use my_tiny_rpc.Base.Outcome.{done}
use my_tiny_rpc.TcpBuffer.{TcpBuffer, copy_out}
use my_tiny_rpc.TcpBuffer.Inv.{IsValid, contents, length-contents, read_able_lem, copy_out_lem}
use my_tiny_rpc.Coder.TinyPb.{TinyPbProtocol, encode}
use my_tiny_rpc.Coder.TinyPb.Encode.{packets, seal_all, Fits, encode_appends}
use my_tiny_rpc.TcpConnection.{
  connected, by_server, by_client, TcpConnection, if_connected_lem, by_type-server, by_type-client,
}
use my_tiny_rpc.TcpConnection.Output.{
  WriteResult, written, after_write, write_loop, encode_messages, stop_writing, write_calls,
  run_write_dones, write_connected, on_write,
}

module _ {b : TcpBuffer} (v : IsValid b) (some_unread : 0 < length (contents b)) where
  copy_all : copy_out b.buffer b.read_idx (length (contents b)) ≡ done (contents b)
  copy_all =
      copy_out_lem b.buffer b.read_idx (length (contents b))
        (omega (arith, length-contents v, v.ordered, v.inside, v.sized))
      ∙ ap (λ k. done (take k (drop b.read_idx b.buffer))) (length-contents v)

  not_empty : (length (contents b) == 0) ≡ false
  not_empty = ground arith

  write_loop_all :
      (n : ℕ) (ws : List WriteResult)
      → length (contents b) ≤ n
      → write_loop (written n ∷ ws) b ≡ done (true, contents b)
  unfolding write_loop after_write
  write_loop_all n ws all =
      rw (read_able_lem v, not_empty, copy_all, le→leb (length (contents b)) n all)

  -- After a `write` that takes only the first bytes, the next one starts at the first byte again:
  -- those bytes go out twice.
  pub write_loop_resends :
      (k n : ℕ) (ws : List WriteResult)
      → k < length (contents b)
      → length (contents b) ≤ n
      → write_loop (written k ∷ written n ∷ ws) b ≡ done (true, take k (contents b) ++ contents b)
  unfolding write_loop after_write
  write_loop_resends k n ws part all = rw (
    read_able_lem v,
    not_empty,
    copy_all,
    lt→leb k (length (contents b)) part,
    le→leb (length (contents b)) n all,
  )

abbrev pub to_send : TcpConnection → List TinyPbProtocol
to_send c = map (λ d. d.0) c.write_dones

stopped_type : (c : TcpConnection) → (stop_writing true c).connection_type ≡ c.connection_type
unfolding stop_writing
stopped_type c = refl

encode_messages-server :
    (c : TcpConnection)
    → c.connection_type ≡ by_server
    → encode_messages c ≡ done (c.out_buffer, [])
unfolding encode_messages
encode_messages-server c h = by_type-server _ _ h

encode_messages-client :
    (c : TcpConnection)
    → c.connection_type ≡ by_client
    → encode_messages c ≡ encode (to_send c) c.out_buffer
unfolding encode_messages
encode_messages-client c h = by_type-client _ _ h

run_write_dones-server :
    (c : TcpConnection) (ms : List TinyPbProtocol)
    → c.connection_type ≡ by_server
    → run_write_dones c ms ≡ (c, [])
unfolding run_write_dones
run_write_dones-server c ms h = by_type-server _ _ h

run_write_dones-client :
    (c : TcpConnection) (ms : List TinyPbProtocol)
    → c.connection_type ≡ by_client
    → run_write_dones c ms ≡ (record c { write_dones = [] }, write_calls c.write_dones ms)
unfolding run_write_dones
run_write_dones-client c ms h = by_type-client _ _ h

-- What `onWrite` comes to, from its parts.
write_connected_lem :
    (c : TcpConnection) (ws : List WriteResult) {b : TcpBuffer} {ms : List TinyPbProtocol}
    {sent : Bytes}
    → encode_messages c ≡ done (b, ms)
    → write_loop ws b ≡ done (true, sent)
    → let r = run_write_dones (stop_writing true (record c { out_buffer = b })) ms in
      write_connected ws c ≡ done (r.0, sent, r.1)
unfolding write_connected
write_connected_lem c ws encodes writes = rw (encodes, writes)

-- A connection that has sent its messages: nothing is left to send, and what it reads with is as it
-- was.
pub record Sent (c c' : TcpConnection) : Type 0 where
  pub none_left : c'.write_dones ≡ []
  pub same_state : c'.state ≡ c.state
  pub same_type : c'.connection_type ≡ c.connection_type
  pub same_in_buffer : c'.in_buffer ≡ c.in_buffer
  pub same_read_dones : c'.read_dones ≡ c.read_dones

module _ (c : TcpConnection) (is_connected : c.state ≡ connected) (n : ℕ)
    (ws : List WriteResult) where
  on_write-connected : on_write (written n ∷ ws) c ≡ write_connected (written n ∷ ws) c
  unfolding on_write
  on_write-connected = if_connected_lem _ _ is_connected

  -- The connection of a server sends all that waits, and keeps it: the same bytes are still unread
  -- afterwards, and the next `onWrite` sends them again before what was added.
  pub on_write_keeps :
      c.connection_type ≡ by_server
      → IsValid c.out_buffer
      → 0 < length (contents c.out_buffer)
      → length (contents c.out_buffer) ≤ n
      → (on_write (written n ∷ ws) c ≡ done (stop_writing true c, contents c.out_buffer, []))
        × (contents (stop_writing true c).out_buffer ≡ contents c.out_buffer)
  unfolding stop_writing
  on_write_keeps is_server v some_unread all = (
    on_write-connected
        ∙ write_connected_lem c (written n ∷ ws) (encode_messages-server c is_server)
            (write_loop_all v some_unread n ws all)
        ∙ ap (λ r. done (r.0, contents c.out_buffer, r.1))
            (run_write_dones-server (stop_writing true c) [] (stopped_type c ∙ is_server)),
    refl,
  )

  pub on_write_sends :
      c.connection_type ≡ by_client
      → IsValid c.out_buffer
      → All Fits (to_send c)
      → 3 * (c.out_buffer.write_idx + length (packets (to_send c))) / 2 < 2 ^ 31
      → 0 < length (contents c.out_buffer ++ packets (to_send c))
      → length (contents c.out_buffer ++ packets (to_send c)) ≤ n
      → (c' : TcpConnection) × (on_write (written n ∷ ws) c
          ≡ done (
            c',
            contents c.out_buffer ++ packets (to_send c),
            write_calls c.write_dones (seal_all (to_send c)),
          ))
        × Sent c c'
  unfolding stop_writing
  on_write_sends is_client v fit room some_unread all =
      let (b, encodes, v', grew) = encode_appends (to_send c) c.out_buffer v fit room in
      let c' = stop_writing true (record c { out_buffer = b }) in
      (
        record c' { write_dones = [] },
        on_write-connected
            ∙ write_connected_lem c (written n ∷ ws) (encode_messages-client c is_client ∙ encodes)
                (write_loop_all v' (omega (arith, ap length grew, some_unread)) n ws
                    (omega (arith, ap length grew, all))
                  ∙ ap (λ l. done (true, l)) grew)
            ∙ ap (λ r. done (r.0, contents c.out_buffer ++ packets (to_send c), r.1))
                (run_write_dones-client c' (seal_all (to_send c))
                  (stopped_type (record c { out_buffer = b }) ∙ is_client)),
        record {
          none_left = refl;
          same_state = refl;
          same_type = refl;
          same_in_buffer = refl;
          same_read_dones = refl;
        },
      )
