-- ===== src/Coder/StringCoder/Tests.antt =====
-- Two texts through a buffer.
use my_tiny_rpc.Base.{◌≡◌, refl, List, [], ◌∷◌, codes}
use my_tiny_rpc.Base.Outcome.{done, ◌>>=◌}
use my_tiny_rpc.TcpBuffer.{
  new_tcp_buffer, write_to_buffer, read_from_buffer, read_able, copy_in, copy_out, resize_buffer,
  adjust_buffer,
}
use my_tiny_rpc.Coder.StringCoder.{StringProtocol, string_encode, string_decode}

abbrev two_texts : List StringProtocol
two_texts =
    (record { info = codes "one"; msg_id = [] }) ∷ (record { info = codes "two"; msg_id = [] }) ∷ []

as_one :
    (string_encode two_texts (new_tcp_buffer 4) >>= λ b. string_decode [] b >>= λ (b', ms). done ms)
    ≡ done ((record { info = codes "onetwo"; msg_id = codes "123456" }) ∷ [])
unfolding string_encode string_decode new_tcp_buffer write_to_buffer read_from_buffer read_able
    copy_in copy_out resize_buffer adjust_buffer
as_one = refl
