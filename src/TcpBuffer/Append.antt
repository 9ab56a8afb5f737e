-- ===== src/TcpBuffer/Append.antt =====
-- Writing to a buffer.
use my_tiny_rpc.Base.{
  ℕ, zero, ◌+◌, ◌-◌, ◌*◌, ◌/◌, ltb, ◌≤◌, ◌<◌, ◌^◌, ◌≡◌, refl, sym, ap, ◌∙◌, List, [], ◌++◌, arith,
  length, take, drop, append_assoc, length-append, length-take, length-drop, length-replicate,
  take-append, Bool-cases, inl, inr, lt→ltb, le→ltb, ltb→le, ltb→lt, take_all, drop-append_left,
  drop-take,
}
use my_tiny_rpc.Base.Outcome.{done}
use my_tiny_rpc.TcpBuffer.{TcpBuffer, new_tcp_buffer, write_to_buffer}
use my_tiny_rpc.TcpBuffer.Inv.{
  IsValid, contents, length-contents, copy_in_lem, packed, packed-IsValid, contents-packed,
  resize_buffer_lem,
}

pub new_tcp_buffer_lem :
    (n : ℕ) → n < 2 ^ 31 → IsValid (new_tcp_buffer n) × (contents (new_tcp_buffer n) ≡ [])
unfolding new_tcp_buffer
new_tcp_buffer_lem n h = (
  record {
    ordered = omega arith;
    inside = omega arith;
    sized = length-replicate n zero;
    small = h;
  },
  refl,
)

-- The bytes behind the write index are overwritten.
unfoldable pub appended : TcpBuffer → List ℕ → TcpBuffer
appended b bytes = record b {
  buffer = take b.write_idx b.buffer ++ (bytes ++ drop (b.write_idx + length bytes) b.buffer);
  write_idx = b.write_idx + length bytes;
}

module _ {b : TcpBuffer} (v : IsValid b) (bytes : List ℕ)
    (room : b.write_idx + length bytes ≤ b.size) where
  pub appended-IsValid : IsValid (appended b bytes)
  unfolding appended
  appended-IsValid = record {
    ordered = omega (arith, v.ordered);
    inside = room;
    sized = omega (
      arith,
      length-append (take b.write_idx b.buffer)
          (bytes ++ drop (b.write_idx + length bytes) b.buffer),
      length-append bytes (drop (b.write_idx + length bytes) b.buffer),
      length-take b.write_idx b.buffer,
      length-drop (b.write_idx + length bytes) b.buffer,
      v.sized,
    );
    small = v.small;
  }

  pub contents-appended : contents (appended b bytes) ≡ contents b ++ bytes
  unfolding appended
  contents-appended =
      ap (take (b.write_idx + length bytes - b.read_idx)) front
      ∙ take-append (contents b ++ bytes) (drop (b.write_idx + length bytes) b.buffer)
          (omega (arith, length-append (contents b) bytes, length-contents v, v.ordered))
    where
      front :
          drop b.read_idx
            (take b.write_idx b.buffer ++ (bytes ++ drop (b.write_idx + length bytes) b.buffer))
          ≡ (contents b ++ bytes) ++ drop (b.write_idx + length bytes) b.buffer
      front =
          drop-append_left (take b.write_idx b.buffer) _ b.read_idx
            (omega (arith, length-take b.write_idx b.buffer, v.ordered, v.inside, v.sized))
          ∙ ap (λ l. l ++ (bytes ++ drop (b.write_idx + length bytes) b.buffer))
              (drop-take b.write_idx b.read_idx b.buffer)
          ∙ sym (append_assoc (contents b) bytes _)

  append_in_place : write_to_buffer b bytes ≡ done (appended b bytes)
  unfolding write_to_buffer appended
  append_in_place = rw (
    lt→ltb (b.write_idx + length bytes) (2 ^ 31) (omega (arith, v.small)),
    le→ltb b.size (b.write_idx + length bytes) room,
    copy_in_lem b.buffer b.write_idx bytes (omega (arith, v.sized)),
  )

grown : TcpBuffer → List ℕ → TcpBuffer
grown b bytes = packed (contents b) (3 * (b.write_idx + length bytes) / 2)

module _ {b : TcpBuffer} (v : IsValid b) (bytes : List ℕ)
    (fits : 3 * (b.write_idx + length bytes) / 2 < 2 ^ 31) where
  grown-IsValid : IsValid (grown b bytes)
  unfolding grown
  grown-IsValid = packed-IsValid (contents b) _ (omega (arith, length-contents v)) fits

  grown_room : (grown b bytes).write_idx + length bytes ≤ (grown b bytes).size
  unfolding grown packed
  grown_room = omega (arith, length-contents v)

  append_grown :
      b.size < b.write_idx + length bytes
      → write_to_buffer b bytes ≡ done (appended (grown b bytes) bytes)
  unfolding write_to_buffer appended grown
  append_grown full = rw (
    lt→ltb (b.write_idx + length bytes) (2 ^ 31) (omega arith),
    lt→ltb b.size (b.write_idx + length bytes) full,
    lt→ltb (3 * (b.write_idx + length bytes) / 2) (2 ^ 31) fits,
    resize_buffer_lem v (3 * (b.write_idx + length bytes) / 2),
    take_all (3 * (b.write_idx + length bytes) / 2) (contents b) (omega (arith, length-contents v)),
    copy_in_lem (grown b bytes).buffer (grown b bytes).write_idx bytes
        (omega (arith, grown_room, grown-IsValid.sized)),
  )

  -- Writing appends the bytes to the unread ones, whether or not the buffer has to grow.
  pub write_to_buffer_appends :
      (b' : TcpBuffer) × (write_to_buffer b bytes ≡ done b')
      × IsValid b'
      × (contents b' ≡ contents b ++ bytes)
      × (b'.write_idx ≤ b.write_idx + length bytes)
  unfolding grown packed appended
  write_to_buffer_appends = elim (Bool-cases (ltb b.size (b.write_idx + length bytes))) [
    | inl full ↦ (
      appended (grown b bytes) bytes,
      append_grown (ltb→lt _ _ full),
      appended-IsValid grown-IsValid bytes grown_room,
      contents-appended grown-IsValid bytes grown_room
          ∙ ap (λ l. l ++ bytes) (contents-packed (contents b) _),
      omega (arith, length-contents v),
    )
    | inr room ↦ (
      appended b bytes,
      append_in_place v bytes (ltb→le _ _ room),
      appended-IsValid v bytes (ltb→le _ _ room),
      contents-appended v bytes (ltb→le _ _ room),
      omega arith,
    )
  ]
