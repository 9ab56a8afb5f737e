-- ===== src/Coder/TinyPb.antt =====
-- tinyrpc/net/coder/tinypb_coder.cc and tinypb_protocol.{h,cc}: packets of the TinyPB protocol.
-- Bytes are numbers below 256. An `int32_t` field is its bit pattern. The field `m_check_sum` is
-- never read or written by the source and is left out; log lines are left out too.
pub mod Layout
pub mod Encode
pub mod Parse
pub mod Consume
pub mod Search
pub mod Locate
pub mod RoundTrip
pub mod Fragment
pub mod Progress
pub mod Spin
pub mod Tests
pub use my_tiny_rpc.Base.{Bytes}
use my_tiny_rpc.Base.{
  ℕ, zero, suc, ◌+◌, ◌-◌, ◌*◌, ◌%◌, ◌^◌, Bool, true, false, ◌&&◌, ◌||◌, Option, none, some, List,
  [], ◌∷◌, ◌++◌, ltb, leb, ◌==◌, if◌then◌else◌, length, get_elem?, replicate,
}
use my_tiny_rpc.Base.Outcome.{Outcome, done, fault, stuck, ◌>>=◌, ◌>>◌, demand}
use my_tiny_rpc.TcpBuffer.{
  TcpBuffer, fits_int, read_able, copy_out, copy_in, write_to_buffer, read_from_buffer,
}
use my_tiny_rpc.Coder.Word.{int32_mod, net_bytes, get_int32_from_net_byte}

pub record TinyPbProtocol : Type 0 where
  pub msg_id : Bytes
  pub pk_len : ℕ
  pub msg_id_len : ℕ
  pub method_name_len : ℕ
  pub method_name : Bytes
  pub error_code : ℕ
  pub error_msg_len : ℕ
  pub error_msg : Bytes
  pub pb_data : Bytes
  pub parse_success : Bool

-- What `std::make_shared<TinyPBProtocol>()` gives.
abbrev pub new_protocol : TinyPbProtocol
new_protocol = record {
  msg_id = [];
  pk_len = 0;
  msg_id_len = 0;
  method_name_len = 0;
  method_name = [];
  error_code = 0;
  error_msg_len = 0;
  error_msg = [];
  pb_data = [];
  parse_success = false;
}

abbrev pub pb_start : ℕ
pb_start = 0x02

abbrev pub pb_end : ℕ
pb_end = 0x03

-- "12345678"
abbrev pub default_msg_id : Bytes
default_msg_id = 49 ∷ 50 ∷ 51 ∷ 52 ∷ 53 ∷ 54 ∷ 55 ∷ 56 ∷ []

-- The block that `malloc` gave, and the index at which `tmp` points into it.
pub record Cursor : Type 0 where
  pub block : Bytes
  pub tmp : ℕ

-- `memcpy(tmp, bytes, n); tmp += n;`, which stays inside the block.
unfoldable pub emit : Cursor → Bytes → Outcome Cursor
emit c bytes = do
  block ← copy_in c.block c.tmp bytes
  done (record { block = block; tmp = c.tmp + length bytes })

-- The copies that are made only of a text that is not empty.
unfoldable pub emit_text : Cursor → Bytes → Outcome Cursor
emit_text c [] = done c
emit_text c (x ∷ text) = emit c (x ∷ text)

unfoldable pub with_msg_id : TinyPbProtocol → TinyPbProtocol
with_msg_id m = elim m.msg_id [ [] ↦ record m { msg_id = default_msg_id } | _ ↦ m ]

unfoldable pub packet_length : TinyPbProtocol → ℕ
packet_length m =
    2 + 24 + length m.msg_id + length m.method_name + length m.error_msg + length m.pb_data

-- `encodeTinyPB`: the message with its length fields set, and the packet. A length that is no `int`
-- makes `malloc` fail, and the first write goes to a null pointer.
unfoldable pub encode_tiny_pb : TinyPbProtocol → Outcome (TinyPbProtocol × Bytes)
encode_tiny_pb message = do
  let m = with_msg_id message
  let pkg_len = packet_length m
  demand (fits_int pkg_len)
  let start : Cursor = record { block = replicate pkg_len 0; tmp = 0 }
  c ← emit start (pb_start ∷ [])
  c ← emit c (net_bytes pkg_len)
  let msg_id_len = length m.msg_id % int32_mod
  c ← emit c (net_bytes msg_id_len)
  c ← emit_text c m.msg_id
  let method_name_len = length m.method_name % int32_mod
  c ← emit c (net_bytes method_name_len)
  c ← emit_text c m.method_name
  c ← emit c (net_bytes m.error_code)
  let error_info_len = length m.error_msg % int32_mod
  c ← emit c (net_bytes error_info_len)
  c ← emit_text c m.error_msg
  c ← emit_text c m.pb_data
  c ← emit c (net_bytes 1)
  block ← copy_in c.block c.tmp (pb_end ∷ [])
  done (
    record m {
      pk_len = pkg_len;
      msg_id_len = msg_id_len;
      method_name_len = method_name_len;
      error_msg_len = error_info_len;
      parse_success = true;
    },
    block,
  )

-- `encode`: each packet goes to the end of the buffer. The messages keep what was set in them.
unfoldable pub encode : List TinyPbProtocol → TcpBuffer → Outcome (TcpBuffer × List TinyPbProtocol)
encode [] out_buffer = done (out_buffer, [])
encode (message ∷ rest) out_buffer = do
  (m, buf) ← encode_tiny_pb message
  b ← (if length buf == 0 then done out_buffer else write_to_buffer out_buffer buf)
  (b', ms) ← encode rest b
  done (b', m ∷ ms)

-- A `char` array of `cap` zeros into which `bytes` were copied, read back as a C string.
-- Bytes that overrun the array, or fill it without a zero, are undefined behaviour.
abbrev pub has_nul : Bytes → Bool
has_nul [] = false
has_nul (c ∷ rest) = c == 0 || has_nul rest

abbrev pub until_nul : Bytes → Bytes
until_nul [] = []
until_nul (c ∷ rest) = let more = until_nul rest in if c == 0 then [] else c ∷ more

unfoldable pub c_string : ℕ → Bytes → Outcome Bytes
c_string cap bytes =
    if ltb (length bytes) cap || (length bytes == cap && has_nul bytes)
    then done (until_nul bytes)
    else fault

-- `memcpy` of `n` bytes from `&tmp[at]` into such an array. A negative `n` is a huge size.
unfoldable pub read_c_string : ℕ → Bytes → ℕ → ℕ → Outcome Bytes
read_c_string cap tmp at n = do demand (fits_int n); bytes ← copy_out tmp at n; c_string cap bytes

-- `int j = i + pkg_len - 1`, the index of the end code. The sum may overflow, and at a negative
-- index the vector is read out of bounds.
unfoldable pub end_code_index : ℕ → ℕ → Outcome ℕ
end_code_index i pkg_len =
    if fits_int pkg_len
    then (if fits_int (i + pkg_len)
        then (if i + pkg_len == 0 then fault else done (i + pkg_len - 1))
        else fault)
    else (if leb (i + pkg_len) int32_mod then fault else done (i + pkg_len - int32_mod - 1))

-- How the search for a packet ends.
pub data Scan : Type 0 where
  exhausted : Scan
  found : ℕ → ℕ → ℕ → Scan

unfoldable pub byte_at : Bytes → ℕ → Outcome ℕ
byte_at tmp i = elim (get_elem? tmp i) [ none ↦ fault | some c ↦ done c ]

-- One round of the inner `for` loop; `rest` is what the later rounds come to.
-- `found start pkg_len end` is the packet's start code, its length field, and its end code.
unfoldable pub scan_at : Bytes → ℕ → Outcome Scan → Outcome Scan
scan_at tmp i rest = byte_at tmp i >>= λ c.
    if c == pb_start && ltb (i + 1) (length tmp)
    then (do
      pkg_len ← get_int32_from_net_byte tmp (i + 1)
      j ← end_code_index i pkg_len
      (if leb (length tmp) j
          then rest
          else (byte_at tmp j >>= λ e. if e == pb_end then done (found i pkg_len j) else rest)))
    else rest

-- The inner `for` loop, with `k` rounds left.
unfoldable pub scan : ℕ → Bytes → ℕ → Outcome Scan
scan zero tmp i = done exhausted
scan (suc k) tmp i = let rest = scan k tmp (i + 1) in scan_at tmp i rest

-- The last part of a packet: `pb_data` has what the length fields leave. A negative length is a
-- `std::length_error` that nothing catches.
unfoldable pub parse_pb_data : Bytes → TinyPbProtocol → ℕ → Outcome (Option TinyPbProtocol)
parse_pb_data tmp m pb_data_index = do
  let used = m.msg_id_len + m.method_name_len + m.error_msg_len + 2 + 24
  demand (leb used m.pk_len)
  pb_data ← copy_out tmp pb_data_index (m.pk_len - used)
  done (some (record m { pb_data = pb_data; parse_success = true }))

unfoldable pub parse_error_msg : Bytes → ℕ → TinyPbProtocol → ℕ → Outcome (Option TinyPbProtocol)
parse_error_msg tmp end_index m error_info_len_index =
    if leb end_index error_info_len_index then done none else (do
      error_msg_len ← get_int32_from_net_byte tmp error_info_len_index
      let error_info_index = error_info_len_index + 4
      error_msg ← read_c_string 512 tmp error_info_index error_msg_len
      parse_pb_data tmp (record m { error_msg_len = error_msg_len; error_msg = error_msg })
          (error_info_index + error_msg_len))

unfoldable pub parse_error_code : Bytes → ℕ → TinyPbProtocol → ℕ → Outcome (Option TinyPbProtocol)
parse_error_code tmp end_index m error_code_index =
    if leb end_index error_code_index then done none else (do
      error_code ← get_int32_from_net_byte tmp error_code_index
      parse_error_msg tmp end_index (record m { error_code = error_code }) (error_code_index + 4))

unfoldable pub parse_method_name : Bytes → ℕ → TinyPbProtocol → ℕ → Outcome (Option TinyPbProtocol)
parse_method_name tmp end_index m method_name_len_index =
    if leb end_index method_name_len_index then done none else (do
      method_name_len ← get_int32_from_net_byte tmp method_name_len_index
      let method_name_index = method_name_len_index + 4
      method_name ← read_c_string 512 tmp method_name_index method_name_len
      parse_error_code tmp end_index
          (record m { method_name_len = method_name_len; method_name = method_name })
          (method_name_index + method_name_len))

-- The fields of a packet in their order. `none` is the `continue` on a field that starts too late.
unfoldable pub parse_packet : Bytes → ℕ → ℕ → ℕ → Outcome (Option TinyPbProtocol)
parse_packet tmp start_index pkg_len end_index =
    let msg_id_len_index = start_index + 1 + 4 in
    if ltb end_index msg_id_len_index then done none else (do
      msg_id_len ← get_int32_from_net_byte tmp msg_id_len_index
      let msg_id_index = msg_id_len_index + 4
      msg_id ← read_c_string 128 tmp msg_id_index msg_id_len
      parse_method_name tmp end_index
          (record new_protocol { pk_len = pkg_len; msg_id_len = msg_id_len; msg_id = msg_id })
          (msg_id_index + msg_id_len))

abbrev pub push_found : List TinyPbProtocol → Option TinyPbProtocol → List TinyPbProtocol
push_found out none = out
push_found out (some m) = out ++ (m ∷ [])

-- The outer `while (i < len)`, on fuel. `next` is `end_index + 1`, where the search starts again.
unfoldable pub decode_loop : ℕ → Bytes → ℕ → ℕ → List TinyPbProtocol → Outcome (List TinyPbProtocol)
decode_loop zero tmp i next out = stuck
decode_loop (suc fuel) tmp i next out =
    if ltb i (length tmp)
    then (scan (length tmp - next) tmp next >>= elim [
      | exhausted ↦ done out
      | found start pkg_len end_index ↦ parse_packet tmp start pkg_len end_index >>= λ m.
          decode_loop fuel tmp start (end_index + 1) (push_found out m)
    ])
    else done out

-- `decode`: all that can be read is taken out of the buffer first.
unfoldable pub decode : ℕ → TcpBuffer → Outcome (TcpBuffer × List TinyPbProtocol)
decode fuel in_buffer = do
  len ← read_able in_buffer
  (b, tmp) ← read_from_buffer in_buffer [] len
  messages ← decode_loop fuel tmp 0 0 []
  done (b, messages)
