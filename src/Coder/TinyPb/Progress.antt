-- ===== src/Coder/TinyPb/Progress.antt =====
-- When the loop of `decode` ends, and the input on which it never does.
use my_tiny_rpc.Base.{ℕ, ◌+◌, ◌^◌, ◌<◌, ◌≤◌, ◌≡◌, length}
use my_tiny_rpc.Base.Outcome.{Outcome, done}
use my_tiny_rpc.TcpBuffer.{TcpBuffer}
use my_tiny_rpc.Coder.Word.{get_int32_from_net_byte}
use my_tiny_rpc.Coder.TinyPb.{Bytes, pb_start, end_code_index, byte_at}

-- What holds of a packet that the search finds.
record Found (tmp : Bytes) (next start pkg_len end_index : ℕ) : Type 0 where
  after : next ≤ start
  starts : byte_at tmp start ≡ done pb_start
  sized : get_int32_from_net_byte tmp (start + 1) ≡ done pkg_len
  placed : end_code_index start pkg_len ≡ done end_index
  inside : end_index < length tmp

-- Every start code is followed by a length that is positive as an `int32_t`.
abbrev pub HasPositiveSizes : Bytes → Type 0
HasPositiveSizes tmp =
    (i n : ℕ)
    → byte_at tmp i ≡ done pb_start
    → get_int32_from_net_byte tmp (i + 1) ≡ done n
    → (0 < n) × (n < 2 ^ 31)
