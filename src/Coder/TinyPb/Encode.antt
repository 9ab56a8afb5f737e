-- ===== src/Coder/TinyPb/Encode.antt =====
-- What `encode` does with its messages: their packets, behind what the buffer held.
use my_tiny_rpc.Base.{
  ◌+◌, ◌*◌, ◌/◌, ◌^◌, ◌<◌, ◌≡◌, refl, sym, ap, ◌∙◌, false, List, [], ◌∷◌, ◌++◌, arith, length,
  append_assoc, append-nil, length-append, All, ◌==◌,
}
use my_tiny_rpc.Base.Outcome.{done}
use my_tiny_rpc.TcpBuffer.{TcpBuffer, write_to_buffer}
use my_tiny_rpc.TcpBuffer.Inv.{IsValid, contents}
use my_tiny_rpc.TcpBuffer.Append.{write_to_buffer_appends}
use my_tiny_rpc.Coder.TinyPb.{Bytes, TinyPbProtocol, with_msg_id, packet_length, encode}
use my_tiny_rpc.Coder.TinyPb.Layout.{packet, sealed, encode_tiny_pb_lem}

-- What a message must be for its packet to have a length that is an `int`.
abbrev pub Fits : TinyPbProtocol → Type 0
Fits m = packet_length (with_msg_id m) < 2 ^ 31

unfoldable pub packets : List TinyPbProtocol → Bytes
packets [] = []
packets (m ∷ ms) = packet (with_msg_id m) ++ packets ms

unfoldable pub seal_all : List TinyPbProtocol → List TinyPbProtocol
seal_all [] = []
seal_all (m ∷ ms) = sealed (with_msg_id m) ∷ seal_all ms

packet-nonempty : (m : TinyPbProtocol) → (length (packet m) == 0) ≡ false
unfolding packet
packet-nonempty m = ground arith

-- `encode ms b` succeeds: the messages are sealed, and their packets follow what `b` held.
abbrev pub Encodes : List TinyPbProtocol → TcpBuffer → Type 0
Encodes ms b =
    (b' : TcpBuffer) × (encode ms b ≡ done (b', seal_all ms))
    × IsValid b'
    × (contents b' ≡ contents b ++ packets ms)

Encodes-cons :
    (m : TinyPbProtocol) (ms : List TinyPbProtocol) (b : TcpBuffer) {b' : TcpBuffer}
    → Fits m
    → write_to_buffer b (packet (with_msg_id m)) ≡ done b'
    → contents b' ≡ contents b ++ packet (with_msg_id m)
    → Encodes ms b'
    → Encodes (m ∷ ms) b
unfolding encode packets seal_all
Encodes-cons m ms b fits w grew rest = (
  rest.0,
  rw (encode_tiny_pb_lem m fits, packet-nonempty (with_msg_id m), w, rest.1),
  rest.2,
  rest.3
      ∙ ap (λ l. l ++ packets ms) grew
      ∙ append_assoc (contents b) (packet (with_msg_id m)) (packets ms),
)

length-packets_cons :
    (m : TinyPbProtocol) (ms : List TinyPbProtocol)
    → length (packets (m ∷ ms)) ≡ length (packet (with_msg_id m)) + length (packets ms)
unfolding packets
length-packets_cons m ms = length-append (packet (with_msg_id m)) (packets ms)

-- `encode` appends the packets of the messages to the buffer, in order.
pub encode_appends :
    (ms : List TinyPbProtocol) (b : TcpBuffer)
    → IsValid b
    → All Fits ms
    → 3 * (b.write_idx + length (packets ms)) / 2 < 2 ^ 31
    → Encodes ms b
encode_appends [] b v h room =
    unfold encode packets seal_all in (b, refl, v, sym (append-nil (contents b)))
encode_appends (m ∷ ms) b v h room =
    let split = length-packets_cons m ms in
    let (b', w, v', grew, le) = write_to_buffer_appends v (packet (with_msg_id m)) (omega arith) in
    Encodes-cons m ms b h.0 w grew (encode_appends ms b' v' h.1 (omega arith))
