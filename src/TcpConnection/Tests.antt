-- ===== src/TcpConnection/Tests.antt =====
-- The theorems on connections at those of an echo service.
use my_tiny_rpc.Base.{true, ℕ, ◌≡◌, refl, Bytes, false, none, List, [], ◌∷◌, arith, bytes_eq}
use my_tiny_rpc.Base.Outcome.{done}
use my_tiny_rpc.TcpBuffer.{TcpBuffer}
use my_tiny_rpc.TcpBuffer.Inv.{IsValid, contents}
use my_tiny_rpc.Coder.TinyPb.{TinyPbProtocol, packet_length}
use my_tiny_rpc.Coder.TinyPb.Layout.{packet, sealed}
use my_tiny_rpc.Coder.TinyPb.RoundTrip.{stream, messages}
use my_tiny_rpc.TcpConnection.{connected, TcpConnection, Effect, shut_down, find_done}
use my_tiny_rpc.TcpConnection.Input.{received, read_again, read_loop, on_read, answer_calls}
use my_tiny_rpc.TcpConnection.Output.{stop_writing, written, on_write}
use my_tiny_rpc.TcpConnection.Read.{read_loop_loses}
use my_tiny_rpc.TcpConnection.Answer.{GivenTo, on_read_answers}
use my_tiny_rpc.TcpConnection.Write.{on_write_keeps}
use my_tiny_rpc.TcpConnection.States.{at_rest, then_step, shut_down_step, Reaches, states_reached}
use my_tiny_rpc.TcpConnection.Echo.{
  buffer_128-IsValid, server, idle_run_time, echo_request, echo_request-IsWellFormed, client,
}

-- Three unread bytes.
abbrev filled : TcpBuffer
filled = record { buffer = 5 ∷ 6 ∷ 7 ∷ 0 ∷ []; size = 4; read_idx = 0; write_idx = 3 }

filled-IsValid : IsValid filled
filled-IsValid = omega arith

abbrev echo_frames : List (Bytes × TinyPbProtocol)
echo_frames = ([], echo_request) ∷ []

-- Two bytes that each fill the buffer: the second overwrites the first, and neither is taken in.
read_loop_loses_example :
    (b' : TcpBuffer) × (read_loop (received (8 ∷ []) ∷ received (9 ∷ []) ∷ read_again ∷ []) filled
      ≡ done (b', false))
    × IsValid b'
    × (contents b' ≡ 5 ∷ 6 ∷ 7 ∷ [])
read_loop_loses_example =
    read_loop_loses ((8 ∷ []) ∷ (9 ∷ []) ∷ []) filled [] filled-IsValid (omega arith)
      (refl, (refl, tt))

on_read_answers_example :
    (e : Effect) × (on_read {Addr = ℕ} none none [] 2
        (received (stream echo_frames []) ∷ [])
        client
        idle_run_time
      ≡ done e)
    × GivenTo client.read_dones (messages echo_frames) e.calls
    × (contents e.connection.in_buffer ≡ [])
    × (e.connection.read_dones ≡ client.read_dones)
on_read_answers_example =
    on_read_answers none none [] client idle_run_time echo_frames [] 2 [] refl refl
      buffer_128-IsValid refl ((tt, echo_request-IsWellFormed), tt) tt
      (unfold stream packet packet_length in omega arith) (omega arith)

client_calls : answer_calls client.read_dones (messages echo_frames) ≡ (4, sealed echo_request) ∷ []
unfolding answer_calls find_done messages bytes_eq sealed
client_calls = refl

abbrev answering : TcpConnection
answering = record server { out_buffer = filled }

on_write_keeps_example :
    (on_write (written 3 ∷ []) answering ≡ done (stop_writing true answering, 5 ∷ 6 ∷ 7 ∷ [], []))
    × (contents (stop_writing true answering).out_buffer ≡ 5 ∷ 6 ∷ 7 ∷ [])
on_write_keeps_example =
    on_write_keeps answering refl 3 [] refl filled-IsValid (omega arith) (omega arith)

states_reached_example : Reaches connected (shut_down server).state
states_reached_example =
    states_reached {Addr = ℕ} none none [] (then_step at_rest (shut_down_step server))
