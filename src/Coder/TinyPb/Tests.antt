-- ===== src/Coder/TinyPb/Tests.antt =====
-- Packets of concrete messages, and the theorems at them.
use my_tiny_rpc.Base.{◌≡◌, refl, [], ◌∷◌, arith}
use my_tiny_rpc.Base.Outcome.{done, stuck}
use my_tiny_rpc.TcpBuffer.{TcpBuffer}
use my_tiny_rpc.TcpBuffer.Inv.{IsValid}
use my_tiny_rpc.Coder.TinyPb.{
  Bytes, TinyPbProtocol, new_protocol, packet_length, with_msg_id, encode_tiny_pb, encode, decode,
}
use my_tiny_rpc.Coder.TinyPb.Encode.{packets, seal_all}
use my_tiny_rpc.Coder.TinyPb.Layout.{packet, sealed, encode_tiny_pb_lem}
use my_tiny_rpc.Coder.TinyPb.Parse.{IsWellFormed}
use my_tiny_rpc.Coder.TinyPb.RoundTrip.{stream, messages, DecodesTo, decode-stream, decode-encode}
use my_tiny_rpc.Coder.TinyPb.Spin.{decode-spins}

-- A request without an id: method "a.b", data 1 2 3.
abbrev request : TinyPbProtocol
request = record new_protocol { method_name = 97 ∷ 46 ∷ 98 ∷ []; pb_data = 1 ∷ 2 ∷ 3 ∷ [] }

request_packet : Bytes
request_packet =
    2 ∷ 0 ∷ 0 ∷ 0 ∷ 40 ∷ 0 ∷ 0 ∷ 0 ∷ 8 ∷ 49 ∷ 50 ∷ 51 ∷ 52 ∷ 53 ∷ 54 ∷ 55 ∷ 56 ∷ 0 ∷ 0 ∷ 0 ∷ 3 ∷ 97
    ∷ 46 ∷ 98 ∷ 0 ∷ 0 ∷ 0 ∷ 0 ∷ 0 ∷ 0 ∷ 0 ∷ 0 ∷ 1 ∷ 2 ∷ 3 ∷ 0 ∷ 0 ∷ 0 ∷ 1 ∷ 3 ∷ []

packet-request : packet (with_msg_id request) ≡ request_packet
unfolding packet request_packet with_msg_id packet_length
packet-request = refl

abbrev empty_buffer : TcpBuffer
empty_buffer = record { buffer = 0 ∷ 0 ∷ []; size = 2; read_idx = 0; write_idx = 0 }

empty_buffer-IsValid : IsValid empty_buffer
empty_buffer-IsValid = omega arith

request-IsWellFormed : IsWellFormed (with_msg_id request)
unfolding with_msg_id packet_length
request-IsWellFormed = record {
  id_text = record { short = omega arith; plain = refl };
  method_text = record { short = omega arith; plain = refl };
  error_text = record { short = omega arith; plain = refl };
  code_int32 = omega arith;
  length_int = omega arith;
}

encode_tiny_pb_lem_example :
    encode_tiny_pb request ≡ done (sealed (with_msg_id request), packet (with_msg_id request))
encode_tiny_pb_lem_example = encode_tiny_pb_lem request request-IsWellFormed.length_int

decode-encode_example :
    (b' : TcpBuffer) × (encode (request ∷ []) empty_buffer ≡ done (b', seal_all (request ∷ [])))
    × DecodesTo 2 b' (seal_all (request ∷ []))
decode-encode_example =
    decode-encode (request ∷ []) empty_buffer 2 (request-IsWellFormed, tt) empty_buffer-IsValid refl
      (unfold packets packet with_msg_id packet_length in omega arith) (omega arith)

-- The packet behind two bytes that start none, and one such byte behind it.
abbrev noisy : TcpBuffer
noisy = record {
  buffer =
      8 ∷ 9 ∷ 2 ∷ 0 ∷ 0 ∷ 0 ∷ 40 ∷ 0 ∷ 0 ∷ 0 ∷ 8 ∷ 49 ∷ 50 ∷ 51 ∷ 52 ∷ 53 ∷ 54 ∷ 55 ∷ 56 ∷ 0 ∷ 0 ∷ 0
      ∷ 3 ∷ 97 ∷ 46 ∷ 98 ∷ 0 ∷ 0 ∷ 0 ∷ 0 ∷ 0 ∷ 0 ∷ 0 ∷ 0 ∷ 1 ∷ 2 ∷ 3 ∷ 0 ∷ 0 ∷ 0 ∷ 1 ∷ 3 ∷ 7 ∷ [];
  size = 43;
  read_idx = 0;
  write_idx = 43;
}

noisy-IsValid : IsValid noisy
noisy-IsValid = omega arith

decode-stream_example : DecodesTo 2 noisy (messages ((8 ∷ 9 ∷ [], with_msg_id request) ∷ []))
decode-stream_example =
    decode-stream ((8 ∷ 9 ∷ [], with_msg_id request) ∷ []) (7 ∷ []) noisy 2
      ((((λ e. absurd (omega arith)), ((λ e. absurd (omega arith)), tt)), request-IsWellFormed), tt)
      ((λ e. absurd (omega arith)), tt) noisy-IsValid
      (unfold stream packet with_msg_id packet_length in refl) (omega arith)

-- An end code, then a start code with the length 0.
abbrev endless : TcpBuffer
endless = record { buffer = 1 ∷ 3 ∷ 2 ∷ 0 ∷ 0 ∷ 0 ∷ 0 ∷ []; size = 7; read_idx = 0; write_idx = 7 }

decode-spins_example : decode 1000 endless ≡ stuck
decode-spins_example =
    decode-spins (1 ∷ []) [] endless 1000 ((λ e. absurd (omega arith)), tt) (omega arith) refl

-- A packet that is cut off: its length is 9, and two bytes behind the length are there.
abbrev cut_off : TcpBuffer
cut_off = record { buffer = 5 ∷ 2 ∷ 0 ∷ 0 ∷ 0 ∷ 9 ∷ 1 ∷ []; size = 7; read_idx = 0; write_idx = 7 }
