-- ===== src/Coder/TinyPb/Parse.antt =====
-- The parser on a packet that the encoder wrote: each field is read back.
use my_tiny_rpc.Base.{
  ℕ, ◌+◌, ◌-◌, ◌^◌, ◌<◌, ◌≤◌, ◌≡◌, refl, sym, ap, ◌∙◌, false, [], ◌∷◌, ◌++◌, some, arith, length,
  drop, take-append, drop-append, append_assoc, length-append, length-drop, lt→ltb, le→leb, lt→leb,
  le→ltb, drop-drop,
}
use my_tiny_rpc.Base.Outcome.{done}
use my_tiny_rpc.TcpBuffer.Inv.{copy_out_lem}
use my_tiny_rpc.Coder.Word.{int32_mod, net_bytes, get_int32_from_net_byte, get_int32-net_bytes}
use my_tiny_rpc.Coder.TinyPb.{
  Bytes, TinyPbProtocol, new_protocol, pb_start, pb_end, packet_length, has_nul, until_nul,
  c_string, read_c_string, parse_pb_data, parse_error_msg, parse_error_code, parse_method_name,
  parse_packet,
}
use my_tiny_rpc.Coder.TinyPb.Layout.{packet, sealed}

-- A text that a `char` array of `room` can hold with its closing zero.
pub record IsText (room : ℕ) (s : Bytes) : Type 0 where
  pub short : length s < room
  pub plain : has_nul s ≡ false

-- A message that the decoder can read back.
pub record IsWellFormed (m : TinyPbProtocol) : Type 0 where
  pub id_text : IsText 128 m.msg_id
  pub method_text : IsText 512 m.method_name
  pub error_text : IsText 512 m.error_msg
  pub code_int32 : m.error_code < int32_mod
  pub length_int : packet_length m < 2 ^ 31

until_nul_plain : (s : Bytes) → has_nul s ≡ false → until_nul s ≡ s
until_nul_plain [] h = refl
until_nul_plain (c ∷ s) h = ground (arith, until_nul_plain s)

c_string_lem : (room : ℕ) (s : Bytes) → IsText room s → c_string room s ≡ done s
unfolding c_string
c_string_lem room s t = rw (lt→ltb (length s) room t.short, until_nul_plain s t.plain)

module _ (tmp xs ys : Bytes) (at : ℕ) (here : drop at tmp ≡ xs ++ ys) where
  pub drop_part : drop (at + length xs) tmp ≡ ys
  drop_part =
      sym (drop-drop at (length xs) tmp) ∙ ap (drop (length xs)) here ∙ drop-append xs ys refl

  part_inside : 0 < length ys → at + length xs ≤ length tmp
  part_inside h = omega (arith, ap length here, length-drop at tmp, length-append xs ys)

  read_c_string_lem :
      (room : ℕ)
      → IsText room xs
      → room ≤ 512
      → 0 < length ys
      → read_c_string room tmp at (length xs) ≡ done xs
  unfolding read_c_string
  read_c_string_lem room t small more = rw (
    lt→ltb (length xs) (2 ^ 31) (omega (arith, t.short)),
    copy_out_lem tmp at (length xs) (part_inside more),
    here,
    take-append xs ys {n = length xs} refl,
    c_string_lem room xs t,
  )

-- What of a packet and of the bytes behind it is left from each field on.
module _ (m : TinyPbProtocol) (rest : Bytes) where
  abbrev from_data : Bytes
  from_data = m.pb_data ++ (net_bytes 1 ++ (pb_end ∷ rest))

  abbrev from_error_msg : Bytes
  from_error_msg = net_bytes (length m.error_msg) ++ (m.error_msg ++ from_data)

  abbrev from_error_code : Bytes
  from_error_code = net_bytes m.error_code ++ from_error_msg

  abbrev from_method_name : Bytes
  from_method_name = net_bytes (length m.method_name) ++ (m.method_name ++ from_error_code)

  abbrev from_msg_id : Bytes
  from_msg_id = net_bytes (length m.msg_id) ++ (m.msg_id ++ from_method_name)

packet_fields :
    (m : TinyPbProtocol) (rest : Bytes)
    → packet m ++ rest ≡ pb_start ∷ (net_bytes (packet_length m) ++ from_msg_id m rest)
unfolding packet
packet_fields m rest = simp append_assoc

module _ (m : TinyPbProtocol) (w : IsWellFormed m) (tmp rest : Bytes) (end_index : ℕ) where
  parse_pb_data_lem :
      (at : ℕ)
      → drop at tmp ≡ from_data m rest
      → parse_pb_data tmp (record (sealed m) { pb_data = []; parse_success = false }) at
        ≡ done (some (sealed m))
  unfolding parse_pb_data sealed packet_length
  parse_pb_data_lem at here = rw (
    le→leb (length m.msg_id + length m.method_name + length m.error_msg + 2 + 24) (packet_length m)
        (omega arith),
    data_len,
    copy_out_lem tmp at (length m.pb_data)
        (part_inside tmp m.pb_data behind_data at here (ground arith)),
    here,
    take-append m.pb_data behind_data {n = length m.pb_data} refl,
  )
    where
      behind_data : Bytes
      behind_data = net_bytes 1 ++ (pb_end ∷ rest)

      data_len :
          packet_length m - (length m.msg_id + length m.method_name + length m.error_msg + 2 + 24)
          ≡ length m.pb_data
      data_len = omega arith

  parse_error_msg_lem :
      (at : ℕ)
      → drop at tmp ≡ from_error_msg m rest
      → at + 4 + length m.error_msg + length m.pb_data + 4 ≡ end_index
      → parse_error_msg tmp end_index
          (record (sealed m) {
            error_msg_len = 0;
            error_msg = [];
            pb_data = [];
            parse_success = false;
          })
          at
        ≡ done (some (sealed m))
  unfolding parse_error_msg sealed
  parse_error_msg_lem at here len =
      rw
        (
          lt→leb at end_index (omega arith),
          get_int32-net_bytes tmp (m.error_msg ++ from_data m rest) at (length m.error_msg)
              (omega (arith, w.error_text.short)) here,
          read_c_string_lem tmp m.error_msg (from_data m rest) (at + 4) text 512 w.error_text
              (omega arith)
              (ground (arith, length-append m.pb_data (net_bytes 1 ++ (pb_end ∷ rest)))),
        )
        (parse_pb_data_lem (at + 4 + length m.error_msg)
          (drop_part tmp m.error_msg (from_data m rest) (at + 4) text))
    where
      text : drop (at + 4) tmp ≡ m.error_msg ++ from_data m rest
      text = drop_part tmp (net_bytes (length m.error_msg)) _ at here

  parse_error_code_lem :
      (at : ℕ)
      → drop at tmp ≡ from_error_code m rest
      → at + 8 + length m.error_msg + length m.pb_data + 4 ≡ end_index
      → parse_error_code tmp end_index
          (record (sealed m) {
            error_code = 0;
            error_msg_len = 0;
            error_msg = [];
            pb_data = [];
            parse_success = false;
          })
          at
        ≡ done (some (sealed m))
  unfolding parse_error_code sealed
  parse_error_code_lem at here len =
      rw
        (
          lt→leb at end_index (omega arith),
          get_int32-net_bytes tmp (from_error_msg m rest) at m.error_code w.code_int32 here,
        )
        (parse_error_msg_lem (at + 4)
          (drop_part tmp (net_bytes m.error_code) (from_error_msg m rest) at here) (omega arith))

  parse_method_name_lem :
      (at : ℕ)
      → drop at tmp ≡ from_method_name m rest
      → at + 12 + length m.method_name + length m.error_msg + length m.pb_data + 4 ≡ end_index
      → parse_method_name tmp end_index
          (record new_protocol {
            pk_len = packet_length m;
            msg_id_len = length m.msg_id;
            msg_id = m.msg_id;
          })
          at
        ≡ done (some (sealed m))
  unfolding parse_method_name sealed
  parse_method_name_lem at here len =
      rw
        (
          lt→leb at end_index (omega arith),
          get_int32-net_bytes tmp (m.method_name ++ from_error_code m rest) at
              (length m.method_name) (omega (arith, w.method_text.short)) here,
          read_c_string_lem tmp m.method_name (from_error_code m rest) (at + 4) text 512
              w.method_text (omega arith) (omega arith),
        )
        (parse_error_code_lem (at + 4 + length m.method_name)
          (drop_part tmp m.method_name (from_error_code m rest) (at + 4) text) (omega arith))
    where
      text : drop (at + 4) tmp ≡ m.method_name ++ from_error_code m rest
      text = drop_part tmp (net_bytes (length m.method_name)) _ at here

-- A packet that stands at `start` is parsed to the message that was encoded.
pub parse_packet-packet :
    (m : TinyPbProtocol) (tmp rest : Bytes) (start : ℕ)
    → IsWellFormed m
    → drop start tmp ≡ packet m ++ rest
    → parse_packet tmp start (packet_length m) (start + packet_length m - 1)
      ≡ done (some (sealed m))
unfolding parse_packet
parse_packet-packet m tmp rest start w here =
    rw
      (
        le→ltb (start + packet_length m - 1) (start + 1 + 4) (omega (arith, total)),
        get_int32-net_bytes tmp (m.msg_id ++ from_method_name m rest) (start + 1 + 4)
            (length m.msg_id) (omega (arith, w.id_text.short)) id_len,
        read_c_string_lem tmp m.msg_id (from_method_name m rest) (start + 1 + 4 + 4) text 128
            w.id_text (omega arith) (omega arith),
      )
      (parse_method_name_lem m w tmp rest (start + packet_length m - 1)
        (start + 1 + 4 + 4 + length m.msg_id)
        (drop_part tmp m.msg_id (from_method_name m rest) (start + 1 + 4 + 4) text)
        (omega (arith, total)))
  where
    total :
        packet_length m
        ≡ 26 + length m.msg_id + length m.method_name + length m.error_msg + length m.pb_data
    total = unfold packet_length in omega arith

    fields : drop start tmp ≡ (pb_start ∷ []) ++ (net_bytes (packet_length m) ++ from_msg_id m rest)
    fields = here ∙ packet_fields m rest

    id_len : drop (start + 1 + 4) tmp ≡ from_msg_id m rest
    id_len =
        drop_part tmp (net_bytes (packet_length m)) (from_msg_id m rest) (start + 1)
          (drop_part tmp (pb_start ∷ []) _ start fields)

    text : drop (start + 1 + 4 + 4) tmp ≡ m.msg_id ++ from_method_name m rest
    text = drop_part tmp (net_bytes (length m.msg_id)) _ (start + 1 + 4) id_len

pub packet_length_field :
    (m : TinyPbProtocol) (tmp rest : Bytes) (start : ℕ)
    → IsWellFormed m
    → drop start tmp ≡ packet m ++ rest
    → get_int32_from_net_byte tmp (start + 1) ≡ done (packet_length m)
packet_length_field m tmp rest start w here =
    get_int32-net_bytes tmp (from_msg_id m rest) (start + 1) (packet_length m)
      (omega (arith, w.length_int))
      (drop_part tmp (pb_start ∷ []) _ start (here ∙ packet_fields m rest))
