-- ===== src/Coder/TinyPb/RoundTrip.antt =====
-- Decoding what was encoded: a stream of packets, with bytes between them that start no packet.
use my_tiny_rpc.Base.{
  ℕ, zero, suc, ◌+◌, ◌-◌, ◌*◌, ◌/◌, ◌^◌, ◌<◌, ◌≡◌, refl, sym, subst, ap, ◌∙◌, List, [], ◌∷◌, ◌++◌,
  arith, length, drop, append_assoc, append-nil, length-append, length-drop, lt→ltb, All,
}
use my_tiny_rpc.Base.Outcome.{done}
use my_tiny_rpc.TcpBuffer.{TcpBuffer}
use my_tiny_rpc.TcpBuffer.Inv.{IsValid, contents, length-contents}
use my_tiny_rpc.Coder.TinyPb.{
  Bytes, TinyPbProtocol, packet_length, exhausted, found, scan, decode_loop, decode, encode,
  with_msg_id,
}
use my_tiny_rpc.Coder.TinyPb.Encode.{packets, seal_all, Fits, encode_appends}
use my_tiny_rpc.Coder.TinyPb.Layout.{packet, sealed, length-packet}
use my_tiny_rpc.Coder.TinyPb.Parse.{IsWellFormed, parse_packet-packet, drop_part}
use my_tiny_rpc.Coder.TinyPb.Consume.{decode-Consumes}
use my_tiny_rpc.Coder.TinyPb.Search.{HasNoStart, scan-suc, scan_junk}
use my_tiny_rpc.Coder.TinyPb.Locate.{total, inside, after_packet, scan_at-packet}

-- Packets with bytes in front of each that start no packet, and such bytes behind the last.
unfoldable pub stream : List (Bytes × TinyPbProtocol) → Bytes → Bytes
stream [] tail = tail
stream ((junk, m) ∷ frames) tail = junk ++ (packet m ++ stream frames tail)

abbrev pub IsStream : List (Bytes × TinyPbProtocol) → Type 0
IsStream = All (λ f. HasNoStart f.0 × IsWellFormed f.1)

unfoldable pub messages : List (Bytes × TinyPbProtocol) → List TinyPbProtocol
messages [] = []
messages ((junk, m) ∷ frames) = sealed m ∷ messages frames

-- The search for the next packet, from any index where a stream stands.
scan-stream :
    (junk : Bytes) (m : TinyPbProtocol) (rest tmp : Bytes) (next : ℕ)
    → HasNoStart junk
    → IsWellFormed m
    → length tmp < 2 ^ 31
    → drop next tmp ≡ junk ++ (packet m ++ rest)
    → let start = next + length junk in
      scan (length tmp - next) tmp next
      ≡ done (found start (packet_length m) (start + packet_length m - 1))
scan-stream junk m rest tmp next h w small here =
    let start = next + length junk in
    let at_start = drop_part tmp junk (packet m ++ rest) next here in
    let k : ℕ = length tmp - next - length junk - 1 in
    let e : length tmp - next ≡ length junk + suc k =
      omega (
        arith,
        inside m tmp rest start w small at_start,
        total m tmp rest start w small at_start,
      ) in
    ap (λ n. scan n tmp next) e
    ∙ scan_junk tmp junk (packet m ++ rest) next (suc k) h here
    ∙ scan-suc k tmp start
    ∙ scan_at-packet m tmp rest start w small at_start _

scan_tail :
    (tail tmp : Bytes) (next : ℕ)
    → HasNoStart tail
    → drop next tmp ≡ tail
    → scan (length tmp - next) tmp next ≡ done exhausted
scan_tail tail tmp next h here =
    let e : length tmp - next ≡ length tail + 0 =
      omega (arith, ap length here, length-drop next tmp) in
    ap (λ n. scan n tmp next) e
    ∙ scan_junk tmp tail [] next 0 h (here ∙ sym (append-nil tail))
    ∙ (let z : scan 0 tmp (next + length tail) ≡ done exhausted = unfold scan in refl in z)

decode_loop-stream :
    (frames : List (Bytes × TinyPbProtocol)) (tail tmp : Bytes) (fuel i next : ℕ)
    (out : List TinyPbProtocol)
    → IsStream frames
    → HasNoStart tail
    → length tmp < 2 ^ 31
    → i < length tmp
    → drop next tmp ≡ stream frames tail
    → length frames < fuel
    → decode_loop fuel tmp i next out ≡ done (out ++ messages frames)
unfolding decode_loop stream messages
decode_loop-stream frames tail tmp zero i next out h ht small lt here enough = absurd (omega arith)
decode_loop-stream [] tail tmp (suc fuel) i next out h ht small lt here enough =
    rw (lt→ltb i (length tmp) lt, scan_tail tail tmp next ht here) (ap done (sym (append-nil out)))
decode_loop-stream ((junk, m) ∷ frames) tail tmp (suc fuel) i next out h ht small lt here enough =
    let start = next + length junk in
    let rest = stream frames tail in
    let at_start = drop_part tmp junk (packet m ++ rest) next here in
    rw
      (
        lt→ltb i (length tmp) lt,
        scan-stream junk m rest tmp next h.0.0 h.0.1 small here,
        parse_packet-packet m tmp rest start h.0.1 at_start,
      )
      (decode_loop-stream frames tail tmp fuel start (start + packet_length m - 1 + 1)
          (out ++ (sealed m ∷ [])) h.1 ht small
          (omega (
            arith,
            inside m tmp rest start h.0.1 small at_start,
            total m tmp rest start h.0.1 small at_start,
          ))
          (after_packet m tmp rest start h.0.1 small at_start) (omega arith)
        ∙ ap done (append_assoc out (sealed m ∷ []) (messages frames)))

-- `decode` on `fuel` returns the messages `ms` and leaves a valid, empty buffer.
abbrev pub DecodesTo : ℕ → TcpBuffer → List TinyPbProtocol → Type 0
DecodesTo fuel b ms =
    (b' : TcpBuffer) × (decode fuel b ≡ done (b', ms)) × IsValid b' × (contents b' ≡ [])

stream-nonempty :
    (junk : Bytes) (m : TinyPbProtocol) (frames : List (Bytes × TinyPbProtocol)) (tail : Bytes)
    → 0 < length (stream ((junk, m) ∷ frames) tail)
unfolding stream packet_length
stream-nonempty junk m frames tail = omega (
  arith,
  length-append junk (packet m ++ stream frames tail),
  length-append (packet m) (stream frames tail),
  length-packet m,
)

loop-stream :
    (frames : List (Bytes × TinyPbProtocol)) (tail xs : Bytes) (fuel : ℕ)
    → IsStream frames
    → HasNoStart tail
    → length xs < 2 ^ 31
    → xs ≡ stream frames tail
    → length frames < fuel
    → decode_loop fuel xs 0 0 [] ≡ done (messages frames)
loop-stream frames tail [] zero h ht small e enough = absurd (omega arith)
loop-stream [] tail [] (suc fuel) h ht small e enough = unfold decode_loop messages in refl
loop-stream ((junk, m) ∷ frames) tail [] (suc fuel) h ht small e enough =
    absurd (omega (arith, ap length e, stream-nonempty junk m frames tail))
loop-stream frames tail (x ∷ xs) fuel h ht small e enough =
    decode_loop-stream frames tail (x ∷ xs) fuel 0 0 [] h ht small (omega arith) e enough

-- From a buffer that holds packets of well-formed messages, with any bytes in front of each and
-- behind the last that are no start code, `decode` reads exactly those messages, in order, and
-- empties the buffer. One round of the loop for each packet and one more are enough.
pub decode-stream :
    (frames : List (Bytes × TinyPbProtocol)) (tail : Bytes) (b : TcpBuffer) (fuel : ℕ)
    → IsStream frames
    → HasNoStart tail
    → IsValid b
    → contents b ≡ stream frames tail
    → length frames < fuel
    → DecodesTo fuel b (messages frames)
decode-stream frames tail b fuel h ht v e enough =
    let (b', runs, v', empty) = decode-Consumes fuel b v in
    let read : decode_loop fuel (contents b) 0 0 [] ≡ done (messages frames) =
      loop-stream frames tail (contents b) fuel h ht
        (omega (arith, length-contents v, v.inside, v.small)) e enough in
    (b', runs ∙ rw read, v', empty)

abbrev pub IsSendable : TinyPbProtocol → Type 0
IsSendable m = IsWellFormed (with_msg_id m)

-- The packets of `encode` as a stream with nothing between them.
abbrev pub bare : List TinyPbProtocol → List (Bytes × TinyPbProtocol)
bare [] = []
bare (m ∷ ms) = ([], with_msg_id m) ∷ bare ms

pub bare_lem :
    (ms : List TinyPbProtocol)
    → All IsSendable ms
    → IsStream (bare ms)
      × (stream (bare ms) [] ≡ packets ms)
      × (messages (bare ms) ≡ seal_all ms)
      × (length (bare ms) ≡ length ms)
unfolding stream packets messages seal_all
bare_lem [] h = (tt, refl, refl, refl)
bare_lem (m ∷ ms) h =
    let (a, b, c, d) = bare_lem ms h.1 in
    (
      ((tt, h.0), a),
      ap (λ l. packet (with_msg_id m) ++ l) b,
      ap (λ l. sealed (with_msg_id m) ∷ l) c,
      ap suc d,
    )

-- The packets of two lists of messages, one behind the other.
pub packets-append : (ms ns : List TinyPbProtocol) → packets (ms ++ ns) ≡ packets ms ++ packets ns
unfolding packets
packets-append [] ns = refl
packets-append (m ∷ ms) ns =
    ap (λ l. packet (with_msg_id m) ++ l) (packets-append ms ns)
    ∙ sym (append_assoc (packet (with_msg_id m)) (packets ms) (packets ns))

pub All-Fits : (ms : List TinyPbProtocol) → All IsSendable ms → All Fits ms
All-Fits [] h = tt
All-Fits (m ∷ ms) h = (h.0.length_int, All-Fits ms h.1)

-- Messages that are encoded into an empty buffer and decoded from it come back in order, each as
-- `encode` left it.
pub decode-encode :
    (ms : List TinyPbProtocol) (b : TcpBuffer) (fuel : ℕ)
    → All IsSendable ms
    → IsValid b
    → contents b ≡ []
    → 3 * (b.write_idx + length (packets ms)) / 2 < 2 ^ 31
    → length ms < fuel
    → (b' : TcpBuffer) × (encode ms b ≡ done (b', seal_all ms)) × DecodesTo fuel b' (seal_all ms)
decode-encode ms b fuel h v empty room enough =
    let (b', e, v', c) = encode_appends ms b v (All-Fits ms h) room in
    let (s, p, q, n) = bare_lem ms h in
    (
      b',
      e,
      subst (DecodesTo fuel b') q (
          decode-stream (bare ms) [] b' fuel s tt v' (c ∙ ap (λ l. l ++ packets ms) empty ∙ sym p)
            (omega (arith, n))),
    )
