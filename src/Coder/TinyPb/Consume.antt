-- ===== src/Coder/TinyPb/Consume.antt =====
-- What `decode` does to the buffer: it takes everything out before it looks at it.
use my_tiny_rpc.Base.{ℕ, ◌≡◌, refl, ◌∙◌, [], ◌∷◌, arith, length, take_all, drop_all}
use my_tiny_rpc.Base.Outcome.{done, ◌>>=◌}
use my_tiny_rpc.TcpBuffer.{TcpBuffer}
use my_tiny_rpc.TcpBuffer.Inv.{IsValid, contents, read_able_lem}
use my_tiny_rpc.TcpBuffer.Queue.{read_from_buffer_takes, read_from_buffer_empty}
use my_tiny_rpc.Coder.TinyPb.{Bytes, decode_loop, decode}

-- The loop runs over all unread bytes, and the buffer is left valid and empty.
abbrev pub Consumes : ℕ → TcpBuffer → Type 0
Consumes fuel b =
    (b' : TcpBuffer) × (decode fuel b
      ≡ (decode_loop fuel (contents b) 0 0 [] >>= λ ms. done (b', ms)))
    × IsValid b'
    × (contents b' ≡ [])

Consumes-bytes :
    (fuel : ℕ) (b : TcpBuffer) (xs : Bytes) → IsValid b → contents b ≡ xs → Consumes fuel b
unfolding decode
Consumes-bytes fuel b [] v e =
    (b, rw (read_able_lem v, read_from_buffer_empty v [] (length (contents b)) e, e), v, e)
Consumes-bytes fuel b (x ∷ xs) v e =
    let (b', read, v', rest, same) =
      read_from_buffer_takes v [] (length (contents b)) (λ n. cc (n, e)) in
    (
      b',
      rw (read_able_lem v, read, take_all (length (contents b)) (contents b) (omega arith)),
      v',
      rest ∙ drop_all (length (contents b)) (contents b) (omega arith),
    )

-- `decode` empties the buffer whatever the bytes are, also those of a packet whose end has not
-- arrived yet.
pub decode-Consumes : (fuel : ℕ) (b : TcpBuffer) → IsValid b → Consumes fuel b
decode-Consumes fuel b v = Consumes-bytes fuel b (contents b) v refl
