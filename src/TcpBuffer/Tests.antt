-- ===== src/TcpBuffer/Tests.antt =====
-- Runs of `TcpBuffer` and its theorems at concrete buffers.
use my_tiny_rpc.Base.{take, drop, ◌≤◌, ◌≡◌, refl, [], ◌∷◌, arith}
use my_tiny_rpc.Base.Outcome.{done, fault}
use my_tiny_rpc.TcpBuffer.{
  TcpBuffer, new_tcp_buffer, read_able, copy_out, copy_in, resize_buffer, write_to_buffer,
  adjust_buffer, read_from_buffer,
}
use my_tiny_rpc.TcpBuffer.Inv.{IsValid, contents}
use my_tiny_rpc.TcpBuffer.Queue.{read_from_buffer_takes}
use my_tiny_rpc.TcpBuffer.Append.{new_tcp_buffer_lem, write_to_buffer_appends}

-- Two unread bytes, and room for one more.
abbrev sample : TcpBuffer
sample = record { buffer = 5 ∷ 7 ∷ 8 ∷ 0 ∷ []; size = 4; read_idx = 1; write_idx = 3 }

sample-IsValid : IsValid sample
sample-IsValid = omega arith

write_grows :
    write_to_buffer sample (1 ∷ 2 ∷ [])
    ≡ done
        (record { buffer = 7 ∷ 8 ∷ 1 ∷ 2 ∷ 0 ∷ 0 ∷ 0 ∷ []; size = 7; read_idx = 0; write_idx = 4 })
unfolding write_to_buffer resize_buffer read_able copy_out copy_in
write_grows = refl

read_packs :
    read_from_buffer sample [] 1
    ≡ done (record { buffer = 8 ∷ 0 ∷ 0 ∷ 0 ∷ []; size = 4; read_idx = 0; write_idx = 1 }, 7 ∷ [])
unfolding read_from_buffer adjust_buffer read_able copy_out copy_in
read_packs = refl

-- A read index behind the write index is a negative count.
read_past_write : resize_buffer (record sample { read_idx = 4 }) 8 ≡ fault
unfolding resize_buffer read_able
read_past_write = refl

new_buffer_128 : IsValid (new_tcp_buffer 128) × (contents (new_tcp_buffer 128) ≡ [])
new_buffer_128 = new_tcp_buffer_lem 128 (omega arith)

write_to_buffer_appends_example :
    (b' : TcpBuffer) × (write_to_buffer sample (1 ∷ 2 ∷ []) ≡ done b')
    × IsValid b'
    × (contents b' ≡ 7 ∷ 8 ∷ 1 ∷ 2 ∷ [])
    × (b'.write_idx ≤ 5)
write_to_buffer_appends_example = write_to_buffer_appends sample-IsValid (1 ∷ 2 ∷ []) (omega arith)

read_from_buffer_takes_example :
    (b' : TcpBuffer) × (read_from_buffer sample [] 1 ≡ done (b', take 1 (contents sample)))
    × IsValid b'
    × (contents b' ≡ drop 1 (contents sample))
    × (b'.size ≡ 4)
read_from_buffer_takes_example = read_from_buffer_takes sample-IsValid [] 1 (λ e. cc e)
