-- ===== src/Coder/TinyPb/Locate.antt =====
-- A packet that stands somewhere in the bytes, and the search at its start code.
use my_tiny_rpc.Base.{
  ℕ, ◌+◌, ◌-◌, ◌^◌, ◌<◌, ◌≤◌, ◌≡◌, ap, ◌∙◌, [], ◌∷◌, ◌++◌, arith, length, drop, append_assoc,
  length-append, length-drop, lt→ltb, lt→leb,
}
use my_tiny_rpc.Base.Outcome.{Outcome, done}
use my_tiny_rpc.Coder.TinyPb.{
  Bytes, TinyPbProtocol, pb_start, pb_end, packet_length, end_code_index, Scan, found, byte_at,
  scan_at,
}
use my_tiny_rpc.Coder.TinyPb.Layout.{
  packet, packet_body, packet-packet_body, packet_front, length-packet,
}
use my_tiny_rpc.Coder.TinyPb.Parse.{IsWellFormed, packet_length_field, drop_part}
use my_tiny_rpc.Coder.TinyPb.Search.{byte_at_front}

module _ (m : TinyPbProtocol) (tmp rest : Bytes) (i : ℕ) (w : IsWellFormed m)
    (small : length tmp < 2 ^ 31) (here : drop i tmp ≡ packet m ++ rest) where
  pub total : 26 ≤ packet_length m
  unfolding packet_length
  total = omega arith

  pub inside : i + packet_length m ≤ length tmp
  inside = omega (
    arith,
    total,
    ap length here,
    length-drop i tmp,
    length-append (packet m) rest,
    length-packet m,
  )

  start_code : byte_at tmp i ≡ done pb_start
  start_code =
      byte_at_front tmp ((packet_front m).0 ++ rest) i pb_start
        (here ∙ ap (λ l. l ++ rest) (packet_front m).1)

  body_length : length (packet_body m) ≡ packet_length m - 1
  body_length = omega (
    arith,
    length-packet m,
    ap length (packet-packet_body m),
    length-append (packet_body m) (pb_end ∷ []),
  )

  -- What follows the packet, and the end code in front of it.
  after_body : drop (i + packet_length m - 1) tmp ≡ pb_end ∷ rest
  after_body =
      ap (λ k. drop k tmp) (omega (arith, body_length, total))
      ∙ drop_part tmp (packet_body m) (pb_end ∷ rest) i (
          here
          ∙ ap (λ l. l ++ rest) (packet-packet_body m)
          ∙ append_assoc (packet_body m) (pb_end ∷ []) rest)

  pub after_packet : drop (i + packet_length m - 1 + 1) tmp ≡ rest
  after_packet = drop_part tmp (pb_end ∷ []) rest (i + packet_length m - 1) after_body

  end_index : end_code_index i (packet_length m) ≡ done (i + packet_length m - 1)
  unfolding end_code_index
  end_index = ground (arith, inside, total, w.length_int)

  pub scan_at-packet :
      (later : Outcome Scan)
      → scan_at tmp i later ≡ done (found i (packet_length m) (i + packet_length m - 1))
  unfolding scan_at
  scan_at-packet later = rw (
    start_code,
    lt→ltb (i + 1) (length tmp) (omega (arith, inside, total)),
    packet_length_field m tmp rest i w here,
    end_index,
    lt→leb (i + packet_length m - 1) (length tmp) (omega (arith, inside, total)),
    byte_at_front tmp rest (i + packet_length m - 1) pb_end after_body,
  )
