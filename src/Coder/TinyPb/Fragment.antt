-- ===== src/Coder/TinyPb/Fragment.antt =====
-- A packet of which only the front has arrived.
use my_tiny_rpc.Base.{
  ℕ, suc, ◌-◌, ◌<◌, ◌≤◌, ◌≡◌, refl, sym, ap, ◌∙◌, [], ◌∷◌, ◌++◌, arith, length, drop, append-nil,
  length-append, lt→ltb, le→leb,
}
use my_tiny_rpc.Base.Outcome.{Outcome, done}
use my_tiny_rpc.TcpBuffer.{TcpBuffer}
use my_tiny_rpc.TcpBuffer.Inv.{IsValid, contents}
use my_tiny_rpc.Coder.Word.{net_bytes, get_int32-net_bytes}
use my_tiny_rpc.Coder.TinyPb.{
  Bytes, TinyPbProtocol, pb_start, packet_length, end_code_index, Scan, exhausted, scan_at, scan,
  decode_loop,
}
use my_tiny_rpc.Coder.TinyPb.Layout.{packet, length-packet}
use my_tiny_rpc.Coder.TinyPb.Parse.{IsWellFormed}
use my_tiny_rpc.Coder.TinyPb.Search.{HasNoStart, byte_at_front, scan-suc, scan_junk}
use my_tiny_rpc.Coder.TinyPb.Consume.{decode-Consumes}
use my_tiny_rpc.Coder.TinyPb.RoundTrip.{DecodesTo}

-- The start code, the length field, and `part` of what follows.
abbrev pub front_of : TinyPbProtocol → Bytes → Bytes
front_of m part = pb_start ∷ (net_bytes (packet_length m) ++ part)

module _ (m : TinyPbProtocol) (part later tmp : Bytes) (w : IsWellFormed m)
    (cut : packet m ≡ front_of m part ++ later) (more : 0 < length later)
    (plain : HasNoStart (net_bytes (packet_length m) ++ part)) (here : tmp ≡ front_of m part) where
  shorter : length tmp < packet_length m
  shorter =
      omega (
        arith,
        length-packet m,
        ap length cut,
        length-append (front_of m part) later,
        ap length here,
      )

  size : length tmp ≡ suc (length (net_bytes (packet_length m) ++ part))
  size = ap length here

  total : 26 ≤ packet_length m
  unfolding packet_length
  total = omega arith

  end_index : end_code_index 0 (packet_length m) ≡ done (packet_length m - 1)
  unfolding end_code_index
  end_index = ground (arith, total, w.length_int)

  scan_at-front : (rest : Outcome Scan) → scan_at tmp 0 rest ≡ rest
  unfolding scan_at
  scan_at-front rest = rw (
    byte_at_front tmp (net_bytes (packet_length m) ++ part) 0 pb_start here,
    lt→ltb 1 (length tmp) (omega (arith, size)),
    get_int32-net_bytes tmp part 1 (packet_length m) (omega (arith, w.length_int))
        (ap (drop 1) here),
    end_index,
    le→leb (length tmp) (packet_length m - 1) (omega (arith, shorter, total)),
  )

  scan-front : scan (length tmp - 0) tmp 0 ≡ done exhausted
  unfolding scan
  scan-front =
      let body = net_bytes (packet_length m) ++ part in
      ap (λ k. scan k tmp 0) {y = suc (length body)} (omega (arith, size))
      ∙ scan-suc (length body) tmp 0
      ∙ scan_at-front (scan (length body) tmp 1)
      ∙ ap (λ k. scan k tmp 1) {x = length body} (omega arith)
      ∙ scan_junk tmp body [] 1 0 plain (ap (drop 1) here ∙ sym (append-nil body))

  decode_loop-front : (fuel : ℕ) → decode_loop (suc fuel) tmp 0 0 [] ≡ done []
  unfolding decode_loop
  decode_loop-front fuel = rw (lt→ltb 0 (length tmp) (omega (arith, size)), scan-front) refl

module _ (m : TinyPbProtocol) (part later : Bytes) where
  -- The front of a packet is taken out of the buffer, and no message is found.
  pub decode-front :
      (b : TcpBuffer) (fuel : ℕ)
      → IsWellFormed m
      → packet m ≡ front_of m part ++ later
      → 0 < length later
      → HasNoStart (net_bytes (packet_length m) ++ part)
      → IsValid b
      → contents b ≡ front_of m part
      → DecodesTo (suc fuel) b []
  decode-front b fuel w cut more plain v here =
      let (b', runs, v', empty) = decode-Consumes (suc fuel) b v in
      (
        b',
        runs ∙ rw (decode_loop-front m part later (contents b) w cut more plain here fuel) refl,
        v',
        empty,
      )
