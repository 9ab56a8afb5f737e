-- ===== src/TcpConnection/Fragment/Tests.antt =====
-- A request in two reads, and the theorem at it.
use my_tiny_rpc.Base.{
  Bool, inl, inr, sym, true-ne-false, Bool-cases, ==_iff, ◌==◌, ◌≡◌, refl, Bytes, true, false, some,
  [], ◌∷◌, ◌++◌, arith, codes, if◌then◌else◌,
}
use my_tiny_rpc.Base.Outcome.{Outcome, done, fault, stuck}
use my_tiny_rpc.Coder.Word.{net_bytes}
use my_tiny_rpc.Coder.TinyPb.{TinyPbProtocol, packet_length, pb_start}
use my_tiny_rpc.Coder.TinyPb.Parse.{IsWellFormed}
use my_tiny_rpc.Coder.TinyPb.Layout.{packet}
use my_tiny_rpc.Coder.TinyPb.Search.{HasNoStart}
use my_tiny_rpc.Coder.TinyPb.Fragment.{front_of}
use my_tiny_rpc.TcpConnection.{Effect}
use my_tiny_rpc.TcpConnection.Input.{
  received, on_read, read_connected, read_loop, make_room, take_received, execute, execute_server,
  serve_all,
}
use my_tiny_rpc.TcpConnection.{listen_write}
use my_tiny_rpc.TcpBuffer.{
  write_able, copy_in, move_write_index, read_able, read_from_buffer, copy_out, adjust_buffer,
}
use my_tiny_rpc.Coder.TinyPb.{decode, decode_loop, scan, scan_at, byte_at, end_code_index, encode}
use my_tiny_rpc.Coder.Word.{get_int32_from_net_byte}
use my_tiny_rpc.TcpConnection.Echo.{
  server, server-IsIdleServer, services, idle_run_time, echo_request,
}
use my_tiny_rpc.TcpConnection.Fragment.{AnswersNothing, split_request_lost}

-- A request with no start code behind its first byte, in two pieces.
abbrev plain_request : TinyPbProtocol
plain_request = record echo_request { pb_data = 1 ∷ 1 ∷ [] }

plain_request-IsWellFormed : IsWellFormed plain_request
unfolding packet_length
plain_request-IsWellFormed = record {
  id_text = record { short = omega arith; plain = refl };
  method_text = record { short = omega arith; plain = refl };
  error_text = record { short = omega arith; plain = refl };
  code_int32 = omega arith;
  length_int = omega arith;
}

abbrev first_part : Bytes
first_part = net_bytes 1 ++ codes "7"

abbrev last_part : Bytes
last_part =
    net_bytes 6
    ++ (codes "Echo.m" ++ (net_bytes 0 ++ (net_bytes 0 ++ (1 ∷ 1 ∷ (net_bytes 1 ++ (3 ∷ []))))))

abbrev effect_or : Effect → Outcome Effect → Effect
effect_or d (done e) = e
effect_or d fault = d
effect_or d stuck = d

abbrev untouched : Effect
untouched = record { connection = server; run_time = idle_run_time; calls = [] }

abbrev half_read : Effect
half_read = effect_or untouched (
    on_read (some 1) (some 2) services 2 (received (front_of plain_request first_part) ∷ []) server
      idle_run_time)

half_read-done :
    on_read
      (some 1)
      (some 2)
      services
      2
      (received (front_of plain_request first_part) ∷ [])
      server
      idle_run_time
    ≡ done half_read
unfolding on_read read_connected read_loop make_room write_able take_received copy_in
    move_write_index execute execute_server decode read_able read_from_buffer copy_out adjust_buffer
    decode_loop scan scan_at byte_at get_int32_from_net_byte end_code_index packet_length encode
    serve_all listen_write
half_read-done = refl

abbrev no_start : Bytes → Bool
no_start [] = true
no_start (c ∷ s) = if c == pb_start then false else no_start s

no_start-HasNoStart : (s : Bytes) → no_start s ≡ true → HasNoStart s
no_start-HasNoStart [] e = tt
no_start-HasNoStart (c ∷ s) e = elim (Bool-cases (c == pb_start)) [
  | inl same ↦ absurd (true-ne-false (sym (rw same at e)))
  | inr apart ↦ ((λ q. cc (apart, (==_iff c pb_start).1 q)), no_start-HasNoStart s (rw apart at e))
]

-- The buffers after the first read.
half_read_indices :
    (half_read.connection.in_buffer.write_idx ≡ 10)
    × (half_read.connection.in_buffer.size ≡ 128)
    × (half_read.connection.out_buffer.write_idx ≡ 0)
unfolding on_read read_connected read_loop make_room write_able take_received copy_in
    move_write_index execute execute_server decode read_able read_from_buffer copy_out adjust_buffer
    decode_loop scan scan_at byte_at get_int32_from_net_byte end_code_index packet_length encode
    serve_all listen_write
half_read_indices = (refl, refl, refl)

split_request_lost_example :
    AnswersNothing (some 1) (some 2) services server half_read
    × (e' : Effect) × (on_read
          (some 1)
          (some 2)
          services
          2
          (received last_part ∷ [])
          half_read.connection
          half_read.run_time
        ≡ done e')
    × AnswersNothing (some 1) (some 2) services server e'
split_request_lost_example =
    split_request_lost (some 1) (some 2) services server half_read idle_run_time plain_request
      first_part last_part 1 server-IsIdleServer plain_request-IsWellFormed
      (unfold packet packet_length in refl) (omega arith)
      (no_start-HasNoStart (net_bytes (packet_length plain_request) ++ first_part)
        (unfold packet_length in refl))
      (no_start-HasNoStart last_part refl) (unfold packet_length in omega arith) (omega arith)
      half_read-done (omega (arith, half_read_indices)) (omega (arith, half_read_indices))
