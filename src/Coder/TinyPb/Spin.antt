-- ===== src/Coder/TinyPb/Spin.antt =====
-- The input on which `decode` never returns: a start code with length 0 behind an end code.
use my_tiny_rpc.Base.{
  ℕ, zero, suc, ◌+◌, ◌-◌, ◌^◌, ◌<◌, ◌≤◌, ◌≡◌, refl, sym, ap, ◌∙◌, ◌≢◌, List, [], ◌∷◌, ◌++◌, none,
  arith, length, drop, append_assoc, length-append, length-drop, lt→ltb, lt→leb, All-append,
}
use my_tiny_rpc.Base.Outcome.{Outcome, done, stuck}
use my_tiny_rpc.TcpBuffer.{TcpBuffer}
use my_tiny_rpc.TcpBuffer.Inv.{IsValid, contents, length-contents}
use my_tiny_rpc.Coder.Word.{net_bytes, get_int32-net_bytes}
use my_tiny_rpc.Coder.TinyPb.{
  Bytes, TinyPbProtocol, pb_start, pb_end, end_code_index, Scan, found, byte_at, scan_at, scan,
  parse_packet, decode_loop, decode,
}
use my_tiny_rpc.Coder.TinyPb.Parse.{drop_part}
use my_tiny_rpc.Coder.TinyPb.Consume.{decode-Consumes}
use my_tiny_rpc.Coder.TinyPb.Search.{HasNoStart, byte_at_front, scan-suc, scan_junk}

-- A start code and the length 0.
abbrev pub empty_packet : Bytes → Bytes
empty_packet post = pb_start ∷ (net_bytes 0 ++ post)

module _ (tmp post : Bytes) (s : ℕ) (behind_end : byte_at tmp s ≡ done pb_end)
    (here : drop (s + 1) tmp ≡ empty_packet post) (small : length tmp < 2 ^ 31) where
  room : s + 6 ≤ length tmp
  room = omega (arith, ap length here, length-drop (s + 1) tmp)

  end_index : end_code_index (s + 1) 0 ≡ done s
  unfolding end_code_index
  end_index = ground (arith, room, small)

  scan_at-empty_packet :
      (later : Outcome Scan) → scan_at tmp (s + 1) later ≡ done (found (s + 1) 0 s)
  unfolding scan_at
  scan_at-empty_packet later = rw (
    byte_at_front tmp (net_bytes 0 ++ post) (s + 1) pb_start here,
    lt→ltb (s + 1 + 1) (length tmp) (omega (arith, room)),
    get_int32-net_bytes tmp post (s + 1 + 1) 0 (omega arith)
        (drop_part tmp (pb_start ∷ []) (net_bytes 0 ++ post) (s + 1) here),
    end_index,
    lt→leb s (length tmp) (omega (arith, room)),
    behind_end,
  )

  parse_packet-empty_packet : parse_packet tmp (s + 1) 0 s ≡ done none
  unfolding parse_packet
  parse_packet-empty_packet = rw (lt→ltb s (s + 1 + 1 + 4) (omega arith))

  -- Found at any index that leads to it, the empty packet is found again and again.
  decode_loop-spins :
      (junk : Bytes) (fuel i next : ℕ) (out : List TinyPbProtocol)
      → HasNoStart junk
      → drop next tmp ≡ junk ++ empty_packet post
      → next + length junk ≡ s + 1
      → i < length tmp
      → decode_loop fuel tmp i next out ≡ stuck
  unfolding decode_loop
  decode_loop-spins junk zero i next out h at_next meets lt = refl
  decode_loop-spins junk (suc fuel) i next out h at_next meets lt =
      rw (lt→ltb i (length tmp) lt, finds, parse_packet-empty_packet)
        (decode_loop-spins [] fuel (s + 1) (s + 1) out tt here (omega arith) (omega (arith, room)))
    where
      k : ℕ
      k = length tmp - s - 2

      rounds : length tmp - next ≡ length junk + suc k
      rounds = omega (arith, room)

      finds : scan (length tmp - next) tmp next ≡ done (found (s + 1) 0 s)
      finds =
          ap (λ n. scan n tmp next) rounds
          ∙ scan_junk tmp junk (empty_packet post) next (suc k) h at_next
          ∙ ap (λ n. scan (suc k) tmp n) meets
          ∙ scan-suc k tmp (s + 1)
          ∙ scan_at-empty_packet _

loop-spins :
    (pre post tmp : Bytes) (fuel : ℕ)
    → HasNoStart pre
    → length tmp < 2 ^ 31
    → tmp ≡ pre ++ (pb_end ∷ empty_packet post)
    → decode_loop fuel tmp 0 0 [] ≡ stuck
loop-spins pre post tmp fuel h small e =
    let front : tmp ≡ (pre ++ (pb_end ∷ [])) ++ empty_packet post =
      e ∙ sym (append_assoc pre (pb_end ∷ []) (empty_packet post)) in
    let length_front = length-append pre (pb_end ∷ []) in
    let at_packet = drop_part tmp (pre ++ (pb_end ∷ [])) (empty_packet post) 0 front in
    decode_loop-spins tmp post (length pre)
      (byte_at_front tmp (empty_packet post) (length pre) pb_end (
        ap (λ k. drop k tmp) {x = length pre} {y = 0 + length pre} (omega arith)
        ∙ drop_part tmp pre (pb_end ∷ empty_packet post) 0 e))
      (ap (λ k. drop k tmp) (omega (arith, length_front)) ∙ at_packet) small (pre ++ (pb_end ∷ []))
      fuel 0 0 [] (All-append (λ c. c ≢ pb_start) pre (pb_end ∷ []) h ((λ q. cc q), tt)) front
      (omega (arith, length_front))
      (omega (arith, ap length e, length-append pre (pb_end ∷ empty_packet post)))

-- Where an end code stands before a start code with the length 0, and no other start code before
-- them, `decode` does not return, whatever follows: no fuel is enough for its loop.
pub decode-spins :
    (pre post : Bytes) (b : TcpBuffer) (fuel : ℕ)
    → HasNoStart pre
    → IsValid b
    → contents b ≡ pre ++ (pb_end ∷ empty_packet post)
    → decode fuel b ≡ stuck
decode-spins pre post b fuel h v e =
    let (b', runs, v', empty) = decode-Consumes fuel b v in
    let spins : decode_loop fuel (contents b) 0 0 [] ≡ stuck =
      loop-spins pre post (contents b) fuel h (omega (arith, length-contents v, v.inside, v.small))
        e in
    runs ∙ rw spins
