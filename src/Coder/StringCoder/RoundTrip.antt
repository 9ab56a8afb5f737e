-- ===== src/Coder/StringCoder/RoundTrip.antt =====
-- The texts that are encoded come back as one text.
use my_tiny_rpc.Base.{
  ◌+◌, ◌*◌, ◌/◌, ◌^◌, ◌<◌, ◌≡◌, refl, sym, ap, ◌∙◌, Bytes, List, [], ◌∷◌, ◌++◌, append-nil,
  append_assoc, flat, map, length, length-append, arith, codes, take_all, drop_all,
}
use my_tiny_rpc.Base.Outcome.{done}
use my_tiny_rpc.TcpBuffer.{TcpBuffer}
use my_tiny_rpc.TcpBuffer.Inv.{IsValid, contents, read_able_lem}
use my_tiny_rpc.TcpBuffer.Append.{write_to_buffer_appends}
use my_tiny_rpc.TcpBuffer.Queue.{read_from_buffer_takes, read_from_buffer_empty}
use my_tiny_rpc.Coder.StringCoder.{StringProtocol, string_encode, string_decode}

abbrev pub infos : List StringProtocol → List Bytes
infos ms = map (λ (m : StringProtocol). m.info) ms

string_encode_appends :
    (ms : List StringProtocol) (b : TcpBuffer)
    → IsValid b
    → 3 * (b.write_idx + length (flat (infos ms))) / 2 < 2 ^ 31
    → (b' : TcpBuffer) × (string_encode ms b ≡ done b')
      × IsValid b'
      × (contents b' ≡ contents b ++ flat (infos ms))
unfolding string_encode
string_encode_appends [] b v room = (b, refl, v, sym (append-nil (contents b)))
string_encode_appends (m ∷ ms) b v room =
    let split = length-append m.info (flat (infos ms)) in
    let (b', w, v', grew, le) = write_to_buffer_appends v m.info (omega (arith, split)) in
    let (b'', later, v'', rest) = string_encode_appends ms b' v' (omega (arith, split)) in
    (
      b'',
      rw w later,
      v'',
      rest
          ∙ ap (λ z. z ++ flat (infos ms)) grew
          ∙ append_assoc (contents b) m.info (flat (infos ms)),
    )

string_decode_takes :
    (out : List StringProtocol) (b : TcpBuffer) (s : Bytes)
    → IsValid b
    → contents b ≡ s
    → (b' : TcpBuffer) × (string_decode out b
        ≡ done (b', out ++ (record { info = s; msg_id = codes "123456" }) ∷ []))
      × (contents b' ≡ [])
unfolding string_decode
string_decode_takes out b [] v e =
    (b, rw (read_able_lem v, read_from_buffer_empty v [] (length (contents b)) e), e)
string_decode_takes out b (c ∷ s) v e =
    let n = length (contents b) in
    let (b', r, v', left, size) = read_from_buffer_takes v [] n (λ none_left. cc (e, none_left)) in
    (
      b',
      rw (read_able_lem v, r)
          (ap (λ info. done (b', out ++ (record { info = info; msg_id = codes "123456" }) ∷ []))
            (take_all n (contents b) (omega arith) ∙ e)),
      left ∙ drop_all n (contents b) (omega arith),
    )

-- Texts that are encoded into an empty buffer come back from it as one, and the buffer is empty.
pub string_decode-string_encode :
    (ms : List StringProtocol) (b : TcpBuffer)
    → IsValid b
    → contents b ≡ []
    → 3 * (b.write_idx + length (flat (infos ms))) / 2 < 2 ^ 31
    → (b' b'' : TcpBuffer) × (string_encode ms b ≡ done b')
      × (string_decode [] b'
          ≡ done (b'', (record { info = flat (infos ms); msg_id = codes "123456" }) ∷ []))
      × (contents b'' ≡ [])
string_decode-string_encode ms b v empty room =
    let (b', w, v', grew) = string_encode_appends ms b v room in
    let (b'', r, left) =
      string_decode_takes [] b' (flat (infos ms)) v'
        (grew ∙ ap (λ z. z ++ flat (infos ms)) empty) in
    (b', b'', w, r, left)
