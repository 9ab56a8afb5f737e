-- ===== src/Coder/StringCoder.antt =====
-- tinyrpc/net/coder/string_coder.h: a coder that takes the whole buffer as one text.
pub mod RoundTrip
pub mod Tests
use my_tiny_rpc.Base.{Bytes, List, [], ◌∷◌, ◌++◌, codes}
use my_tiny_rpc.Base.Outcome.{Outcome, done, ◌>>=◌}
use my_tiny_rpc.TcpBuffer.{TcpBuffer, write_to_buffer, read_from_buffer, read_able}

pub record StringProtocol : Type 0 where
  pub info : Bytes
  pub msg_id : Bytes

-- `StringCoder::encode`
unfoldable pub string_encode : List StringProtocol → TcpBuffer → Outcome TcpBuffer
string_encode [] out_buffer = done out_buffer
string_encode (msg ∷ rest) out_buffer =
    write_to_buffer out_buffer msg.info >>= λ b. string_encode rest b

-- `StringCoder::decode`
unfoldable pub string_decode :
    List StringProtocol → TcpBuffer → Outcome (TcpBuffer × List StringProtocol)
string_decode out_messages buffer = read_able buffer >>= λ n.
    read_from_buffer buffer [] n >>= λ (b, str).
    done (b, out_messages ++ (record { info = str; msg_id = codes "123456" }) ∷ [])
