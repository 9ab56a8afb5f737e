-- ===== src/TcpConnection/Read.antt =====
-- What the loop of `onRead` puts into the buffer.
use my_tiny_rpc.Base.{
  Option, ℕ, zero, suc, ◌+◌, ◌-◌, ◌≤◌, ◌<◌, ◌^◌, ◌≡◌, refl, ap, ◌∙◌, Bool, true, false, List, [],
  ◌∷◌, ◌++◌, arith, ◌==◌, lt→ltb, lt→leb, le→leb, length, take, drop, replicate, All, map, Bytes,
  length-take, take-append, drop-append_left, drop-take,
}
use my_tiny_rpc.Base.Outcome.{Outcome, done, stuck}
use my_tiny_rpc.TcpBuffer.{TcpBuffer, write_able, move_write_index}
use my_tiny_rpc.TcpBuffer.Inv.{IsValid, contents, length-contents, copy_in_lem}
use my_tiny_rpc.TcpBuffer.Append.{appended, appended-IsValid, contents-appended}
use my_tiny_rpc.Rpc.Dispatcher.{ServiceMap, RunTime}
use my_tiny_rpc.TcpConnection.{
  connected, by_server, by_client, TcpConnection, if_connected_lem, by_type-server, by_type-client,
}
use my_tiny_rpc.TcpConnection.Input.{
  execute_server, execute_client, execute, read_connected, on_read, ReadResult, received,
  read_again, read_failed, make_room, take_received, read_loop,
}

-- The bytes behind the write index are overwritten, and the index stays.
overwritten : TcpBuffer → List ℕ → TcpBuffer
overwritten b bytes = record b {
  buffer = take b.write_idx b.buffer ++ (bytes ++ drop (b.write_idx + length bytes) b.buffer);
}

write_able_lem : {b : TcpBuffer} → IsValid b → write_able b ≡ done (b.size - b.write_idx)
unfolding write_able
write_able_lem {b} v = rw (le→leb b.write_idx b.size v.inside)

module _ {b : TcpBuffer} (v : IsValid b) where
  make_room_lem : b.write_idx < b.size → make_room b ≡ done b
  unfolding make_room
  make_room_lem room =
      let some_room : (b.size - b.write_idx == 0) ≡ false = ground arith in
      rw (write_able_lem v, some_room)

  overwritten-IsValid :
      (bytes : List ℕ) → b.write_idx + length bytes ≤ b.size → IsValid (overwritten b bytes)
  unfolding overwritten appended
  overwritten-IsValid bytes fits = record {
    ordered = v.ordered;
    inside = v.inside;
    sized = (appended-IsValid v bytes fits).sized;
    small = v.small;
  }

  contents-overwritten : (bytes : List ℕ) → contents (overwritten b bytes) ≡ contents b
  unfolding overwritten
  contents-overwritten bytes =
      ap (take (b.write_idx - b.read_idx)) (
        drop-append_left (take b.write_idx b.buffer) _ b.read_idx
          (omega (arith, length-take b.write_idx b.buffer, v.ordered, v.inside, v.sized))
        ∙ ap (λ l. l ++ (bytes ++ drop (b.write_idx + length bytes) b.buffer))
            (drop-take b.write_idx b.read_idx b.buffer))
      ∙ take-append (contents b) (bytes ++ drop (b.write_idx + length bytes) b.buffer)
          (omega (arith, length-contents v))

  take_received_fits :
      (bytes : List ℕ) (rest : TcpBuffer → Outcome (TcpBuffer × Bool))
      → b.write_idx + length bytes < b.size
      → take_received bytes b rest ≡ done (appended b bytes, false)
  unfolding take_received move_write_index appended
  take_received_fits bytes rest room =
      let less : (length bytes == b.size - b.write_idx) ≡ false = ground arith in
      rw (
        write_able_lem v,
        copy_in_lem b.buffer b.write_idx bytes (omega (arith, v.sized)),
        lt→ltb (b.write_idx + length bytes) (2 ^ 31) (omega (arith, v.small)),
        lt→leb (b.write_idx + length bytes) b.size room,
        less,
      )

  take_received_fills :
      (bytes : List ℕ) (rest : TcpBuffer → Outcome (TcpBuffer × Bool))
      → b.write_idx + length bytes ≡ b.size
      → take_received bytes b rest ≡ rest (overwritten b bytes)
  unfolding take_received move_write_index overwritten
  take_received_fills bytes rest full =
      let all : (length bytes == b.size - b.write_idx) ≡ true = ground arith in
      rw (
        write_able_lem v,
        copy_in_lem b.buffer b.write_idx bytes (omega (arith, v.sized)),
        lt→ltb (b.write_idx + length bytes) (2 ^ 31) (omega (arith, v.small)),
        le→leb b.size (b.write_idx + length bytes) (omega arith),
        all,
      )

  -- A `read` that leaves room in the buffer ends the loop, and its bytes follow those that waited.
  pub read_loop_takes :
      (bytes : Bytes) (reads : List ReadResult)
      → b.write_idx + length bytes < b.size
      → (b' : TcpBuffer) × (read_loop (received bytes ∷ reads) b ≡ done (b', false))
        × IsValid b'
        × (contents b' ≡ contents b ++ bytes)
  unfolding read_loop
  read_loop_takes bytes reads room = (
    appended b bytes,
    rw (make_room_lem (omega arith), take_received_fits bytes (read_loop reads) room),
    appended-IsValid v bytes (omega arith),
    contents-appended v bytes (omega arith),
  )

  -- An error other than EAGAIN, on every call, keeps `onRead` in its loop for ever.
  pub read_loop-spins :
      (n : ℕ) → b.write_idx < b.size → read_loop (replicate n read_failed) b ≡ stuck
  unfolding read_loop
  read_loop-spins zero room = refl
  read_loop-spins (suc n) room = rw (make_room_lem room, read_loop-spins n room)

-- Reads that each fill the buffer to its last byte leave nothing in it: each overwrites the one
-- before, and the bytes of the last are not taken in either.
pub read_loop_loses :
    (chunks : List Bytes) (b : TcpBuffer) (reads : List ReadResult)
    → IsValid b
    → b.write_idx < b.size
    → All (λ bytes. b.write_idx + length bytes ≡ b.size) chunks
    → (b' : TcpBuffer) × (read_loop (map received chunks ++ read_again ∷ reads) b
        ≡ done (b', false))
      × IsValid b'
      × (contents b' ≡ contents b)
unfolding read_loop overwritten
read_loop_loses [] b reads v room h = (b, rw (make_room_lem v room), v, refl)
read_loop_loses (bytes ∷ chunks) b reads v room h =
    let w = overwritten-IsValid v bytes (omega (arith, h.0)) in
    let (b', runs, v', same) = read_loop_loses chunks (overwritten b bytes) reads w room h.1 in
    (
      b',
      rw (make_room_lem v room, take_received_fills v bytes _ h.0) runs,
      v',
      same ∙ contents-overwritten v bytes,
    )

module _ {Addr : Type 0} (local_addr peer_addr : Option Addr) (services : ServiceMap Addr)
    (fuel : ℕ) (run_time : RunTime) (c : TcpConnection) where
  -- After its loop `onRead` goes on to `excute`.
  pub on_read-executes :
      (reads : List ReadResult) {b' : TcpBuffer}
      → read_loop reads c.in_buffer ≡ done (b', false)
      → c.state ≡ connected
      → on_read local_addr peer_addr services fuel reads c run_time
        ≡ execute local_addr peer_addr services fuel (record c { in_buffer = b' }) run_time
  unfolding on_read read_connected
  on_read-executes reads reading is_connected = if_connected_lem _ _ is_connected ∙ rw reading refl

  pub execute-server :
      c.connection_type ≡ by_server
      → execute local_addr peer_addr services fuel c run_time
        ≡ execute_server local_addr peer_addr services fuel c run_time
  unfolding execute
  execute-server is_server = by_type-server _ _ is_server

  pub execute-client :
      c.connection_type ≡ by_client
      → execute local_addr peer_addr services fuel c run_time
        ≡ execute_client local_addr peer_addr services fuel c run_time
  unfolding execute
  execute-client is_client = by_type-client _ _ is_client
