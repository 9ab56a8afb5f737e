-- ===== src/Coder/TinyPb/Layout.antt =====
-- What `encodeTinyPB` writes: the layout of a packet, inside the block it allocates.
use my_tiny_rpc.Base.{
  ℕ, zero, ◌+◌, ◌-◌, ◌%◌, ◌^◌, ◌<◌, ◌≤◌, ◌≡◌, refl, sym, ap, ◌∙◌, true, [], ◌∷◌, ◌++◌, arith,
  length, replicate, drop, take-append, drop-append, drop-replicate, append_assoc, append-nil,
  length-append, length-replicate, lt→ltb, drop-drop,
}
use my_tiny_rpc.Base.Outcome.{Outcome, done, ◌>>=◌}
use my_tiny_rpc.TcpBuffer.{copy_in}
use my_tiny_rpc.TcpBuffer.Inv.{copy_in_lem}
use my_tiny_rpc.Coder.Word.{int32_mod, net_bytes}
use my_tiny_rpc.Coder.TinyPb.{
  Bytes, TinyPbProtocol, Cursor, pb_start, pb_end, emit, emit_text, with_msg_id, packet_length,
  encode_tiny_pb,
}

-- A cursor behind the bytes `w`, in a block of `n`.
behind : ℕ → Bytes → Cursor
behind n w = record { block = w ++ replicate (n - length w) 0; tmp = length w }

copy_behind :
    (n : ℕ) (w bytes : Bytes)
    → length w + length bytes ≤ n
    → copy_in (behind n w).block (behind n w).tmp bytes
      ≡ done ((w ++ bytes) ++ replicate (n - length (w ++ bytes)) 0)
unfolding behind
copy_behind n w bytes h =
    copy_in_lem (w ++ zeros) (length w) bytes
      (omega (arith, length-append w zeros, length-replicate (n - length w) zero))
    ∙ rw (take-append w zeros {n = length w} refl, tail) (ap done (sym (append_assoc w bytes _)))
  where
    zeros : Bytes
    zeros = replicate (n - length w) 0

    tail : drop (length w + length bytes) (w ++ zeros) ≡ replicate (n - length (w ++ bytes)) 0
    tail =
        sym (drop-drop (length w) (length bytes) (w ++ zeros))
        ∙ ap (drop (length bytes)) (drop-append w zeros {n = length w} refl)
        ∙ drop-replicate (length bytes) (n - length w) 0
        ∙ ap (λ k. replicate k 0) (omega (arith, length-append w bytes))

fresh : (n : ℕ) → record { block = replicate n 0; tmp = 0 } ≡ behind n []
unfolding behind
fresh n = ap (λ k. record { block = replicate k 0; tmp = 0 }) (omega arith)

module _ (n : ℕ) (w bytes : Bytes) (room : length w + length bytes ≤ n) where
  emit_lem : emit (behind n w) bytes ≡ done (behind n (w ++ bytes))
  unfolding emit behind
  emit_lem = rw (copy_behind n w bytes room, length-append w bytes)

emit_text_lem :
    (n : ℕ) (w bytes : Bytes)
    → length w + length bytes ≤ n
    → emit_text (behind n w) bytes ≡ done (behind n (w ++ bytes))
unfolding emit_text
emit_text_lem n w [] room = ap (λ l. done (behind n l)) (sym (append-nil w))
emit_text_lem n w (x ∷ text) room = emit_lem n w (x ∷ text) room

-- The layout of a packet.
unfoldable pub packet : TinyPbProtocol → Bytes
packet m =
    (pb_start ∷ [])
    ++ (net_bytes (packet_length m)
        ++ (net_bytes (length m.msg_id)
            ++ (m.msg_id
                ++ (net_bytes (length m.method_name)
                    ++ (m.method_name
                        ++ (net_bytes m.error_code
                            ++ (net_bytes (length m.error_msg)
                                ++ (m.error_msg
                                    ++ (m.pb_data ++ (net_bytes 1 ++ (pb_end ∷ [])))))))))))

-- All of a packet but its end code.
unfoldable pub packet_body : TinyPbProtocol → Bytes
packet_body m =
    (pb_start ∷ [])
    ++ (net_bytes (packet_length m)
        ++ (net_bytes (length m.msg_id)
            ++ (m.msg_id
                ++ (net_bytes (length m.method_name)
                    ++ (m.method_name
                        ++ (net_bytes m.error_code
                            ++ (net_bytes (length m.error_msg)
                                ++ (m.error_msg ++ (m.pb_data ++ net_bytes 1)))))))))

pub packet-packet_body : (m : TinyPbProtocol) → packet m ≡ packet_body m ++ (pb_end ∷ [])
unfolding packet packet_body
packet-packet_body m = simp append_assoc

pub packet_front : (m : TinyPbProtocol) → (tail : Bytes) × (packet m ≡ pb_start ∷ tail)
unfolding packet
packet_front m = (_, refl)

-- The message with the fields that encoding sets.
unfoldable pub sealed : TinyPbProtocol → TinyPbProtocol
sealed m = record m {
  pk_len = packet_length m;
  msg_id_len = length m.msg_id;
  method_name_len = length m.method_name;
  error_msg_len = length m.error_msg;
  parse_success = true;
}

mod_small : (n : ℕ) → n < 2 ^ 31 → n % int32_mod ≡ n
mod_small n h = omega arith

pub length-packet : (m : TinyPbProtocol) → length (packet m) ≡ packet_length m
unfolding packet packet_length
length-packet m = omega (arith, length-append {A = ℕ})

module _ {ℓ} {B : Type ℓ} (n : ℕ) (w bytes : Bytes) (k : Cursor → Outcome B) {r : Outcome B} where
  emit_then :
      length w + length bytes ≤ n
      → k (behind n (w ++ bytes)) ≡ r
      → (emit (behind n w) bytes >>= k) ≡ r
  emit_then room rest = rw (emit_lem n w bytes room) rest

  emit_text_then :
      length w + length bytes ≤ n
      → k (behind n (w ++ bytes)) ≡ r
      → (emit_text (behind n w) bytes >>= k) ≡ r
  emit_text_then room rest = rw (emit_text_lem n w bytes room) rest

finish_then {ℓ} :
    {B : Type ℓ} (n : ℕ) (w : Bytes) (k : Bytes → Outcome B) {r : Outcome B}
    → length w + 1 ≡ n
    → k (w ++ (pb_end ∷ [])) ≡ r
    → (copy_in (behind n w).block (behind n w).tmp (pb_end ∷ []) >>= k) ≡ r
finish_then n w k full rest =
    rw (copy_behind n w (pb_end ∷ []) (omega arith), no_zeros, append-nil) rest
  where
    no_zeros : replicate (n - length (w ++ (pb_end ∷ []))) zero ≡ []
    no_zeros =
        let e : n - length (w ++ (pb_end ∷ [])) ≡ 0 =
          omega (arith, length-append w (pb_end ∷ [])) in
        ap (λ k. replicate k zero) e

-- `encodeTinyPB` never writes past the block it allocates, and fills it with the packet.
pub encode_tiny_pb_lem :
    (message : TinyPbProtocol)
    → packet_length (with_msg_id message) < 2 ^ 31
    → encode_tiny_pb message ≡ done (sealed (with_msg_id message), packet (with_msg_id message))
unfolding encode_tiny_pb packet sealed
encode_tiny_pb_lem message fits =
    let m = with_msg_id message in
    let n = packet_length m in
    let room : n
        ≡ 26 + length m.msg_id + length m.method_name + length m.error_msg + length m.pb_data =
      unfold packet_length in omega arith in
    rw
      (
        lt→ltb n (2 ^ 31) fits,
        mod_small (length m.msg_id) (omega arith),
        mod_small (length m.method_name) (omega arith),
        mod_small (length m.error_msg) (omega arith),
        (fresh n),
      )
      (emit_then n _ _ _ (omega arith) (
        emit_then n _ _ _ (omega arith) (
          emit_then n _ _ _ (omega arith) (
            emit_text_then n _ _ _ (omega arith) (
              emit_then n _ _ _ (simp length-append (omega arith)) (
                emit_text_then n _ _ _ (simp length-append (omega arith)) (
                  emit_then n _ _ _ (simp length-append (omega arith)) (
                    emit_then n _ _ _ (simp length-append (omega arith)) (
                      emit_text_then n _ _ _ (simp length-append (omega arith)) (
                        emit_text_then n _ _ _ (simp length-append (omega arith)) (
                          emit_then n _ _ _ (simp length-append (omega arith)) (
                            finish_then n _ _ (simp length-append (omega arith))
                              (simp append_assoc)))))))))))))
