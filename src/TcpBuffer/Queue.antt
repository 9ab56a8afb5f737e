-- ===== src/TcpBuffer/Queue.antt =====
-- Reading from a buffer, and moving its indices.
use my_tiny_rpc.Base.{
  ℕ, ◌+◌, ◌-◌, ◌/◌, if◌then◌else◌, ltb, ◌≤◌, ◌<◌, ◌^◌, min, ◌≡◌, refl, sym, ap, ◌∙◌, ◌≢◌, List, [],
  ◌∷◌, ◌++◌, arith, length, take, drop, length-take, Bool-cases, inl, inr, lt→leb, le→leb, lt→ltb,
  ltb→le, ltb→lt, drop_all, drop-take, drop-drop, take-add, ◌==◌, false,
}
use my_tiny_rpc.Base.Outcome.{done}
use my_tiny_rpc.TcpBuffer.{
  TcpBuffer, resize_buffer, adjust_buffer, read_from_buffer, move_read_index, move_write_index,
}
use my_tiny_rpc.TcpBuffer.Inv.{
  IsValid, contents, copy_unread, length-contents, packed, packed-IsValid, contents-packed,
  resize_buffer_lem, adjust_buffer_lem, read_able_lem, length-contents-le,
}

adjust_buffer_keeps :
    {b : TcpBuffer}
    → IsValid b
    → (b' : TcpBuffer) × (adjust_buffer b ≡ done b')
      × IsValid b'
      × (contents b' ≡ contents b)
      × (b'.size ≡ b.size)
adjust_buffer_keeps {b} v = elim (Bool-cases (ltb b.read_idx (b.size / 3))) [
  | inl early ↦ (b, rw (adjust_buffer_lem v, early), v, refl, refl)
  | inr late ↦ (
    packed (contents b) b.size,
    rw (adjust_buffer_lem v, late),
    packed-IsValid (contents b) b.size (length-contents-le v) v.small,
    contents-packed (contents b) b.size,
    unfold packed in refl,
  )
]

advanced : TcpBuffer → ℕ → TcpBuffer
advanced b n = record b { read_idx = b.read_idx + n }

module _ {b : TcpBuffer} (v : IsValid b) (n : ℕ) (enough : n ≤ length (contents b)) where
  advanced-IsValid : IsValid (advanced b n)
  unfolding advanced
  advanced-IsValid = record {
    ordered = omega (arith, length-contents v, v.ordered);
    inside = v.inside;
    sized = v.sized;
    small = v.small;
  }

  contents-advanced : contents (advanced b n) ≡ drop n (contents b)
  unfolding advanced
  contents-advanced =
      ap (λ k. take k (drop (b.read_idx + n) b.buffer)) (omega arith)
      ∙ ap (take (b.write_idx - b.read_idx - n)) (sym (drop-drop b.read_idx n b.buffer))
      ∙ sym (drop-take (b.write_idx - b.read_idx) n (drop b.read_idx b.buffer))

smaller-eq-min : (m n : ℕ) → (if ltb m n then m else n) ≡ min m n
smaller-eq-min m n = ground arith

drop-min : (n : ℕ) (xs : List ℕ) → drop (min n (length xs)) xs ≡ drop n xs
drop-min n xs = elim (Bool-cases (ltb n (length xs))) [
  | inl lt ↦ ap (λ k. drop k xs) (omega (arith, ltb→lt _ _ lt))
  | inr ge ↦ drop_all _ xs (omega (arith, ltb→le _ _ ge)) ∙ sym (drop_all n xs (ltb→le _ _ ge))
]

nonempty : (xs : List ℕ) → xs ≢ [] → (length xs == 0) ≡ false
nonempty [] h = absurd (h refl)
nonempty (x ∷ xs) h = ground arith

module _ {b : TcpBuffer} (v : IsValid b) where
  -- On a buffer with unread bytes, reading at most `n` takes them from the front; the rest stays
  -- unread, in order, and the buffer valid and as large.
  pub read_from_buffer_takes :
      (res : List ℕ) (n : ℕ)
      → contents b ≢ []
      → (b' : TcpBuffer) × (read_from_buffer b res n ≡ done (b', take n (contents b)))
        × IsValid b'
        × (contents b' ≡ drop n (contents b))
        × (b'.size ≡ b.size)
  unfolding read_from_buffer advanced
  read_from_buffer_takes res n some_left = (
    kept.0,
    rw (
      read_able_lem v,
      nonempty (contents b) some_left,
      smaller-eq-min n (length (contents b)),
      copy_unread v n,
      kept.1,
    ),
    kept.2,
    kept.3 ∙ contents-advanced v count enough ∙ drop-min n (contents b),
    kept.4,
  )
    where
      count : ℕ
      count = min n (length (contents b))

      enough : count ≤ length (contents b)
      enough = omega arith

      kept :
          (b' : TcpBuffer) × (adjust_buffer (advanced b count) ≡ done b')
          × IsValid b'
          × (contents b' ≡ contents (advanced b count))
          × (b'.size ≡ (advanced b count).size)
      kept = adjust_buffer_keeps (advanced-IsValid v count enough)

  -- Nothing is read from an empty buffer, and the result vector keeps its value.
  pub read_from_buffer_empty :
      (res : List ℕ) (n : ℕ) → contents b ≡ [] → read_from_buffer b res n ≡ done (b, res)
  unfolding read_from_buffer
  read_from_buffer_empty res n e = rw (read_able_lem v, e)

  -- The write index moves over bytes that were put behind it, unless they fill the buffer.
  pub move_write_index_lem :
      (n : ℕ)
      → b.write_idx + n < b.size
      → (b' : TcpBuffer) × (move_write_index b n ≡ done b')
        × IsValid b'
        × (contents b' ≡ contents b ++ take n (drop b.write_idx b.buffer))
  unfolding move_write_index
  move_write_index_lem n room = (
    record b { write_idx = b.write_idx + n },
    rw (lt→ltb (b.write_idx + n) (2 ^ 31) (omega (arith, v.small)), lt→leb _ _ room),
    record {
      ordered = omega (arith, v.ordered);
      inside = omega arith;
      sized = v.sized;
      small = v.small;
    },
    ap (λ k. take k (drop b.read_idx b.buffer)) regroup
        ∙ take-add (b.write_idx - b.read_idx) n (drop b.read_idx b.buffer)
        ∙ ap (λ l. contents b ++ take n l)
            (drop-drop b.read_idx (b.write_idx - b.read_idx) b.buffer
              ∙ ap (λ k. drop k b.buffer) (omega (arith, v.ordered))),
  )
    where
      regroup : b.write_idx + n - b.read_idx ≡ b.write_idx - b.read_idx + n
      regroup = omega (arith, v.ordered)

  -- A count that fills the buffer to its last byte is refused, and the buffer stays as it was.
  pub move_write_index_full :
      (n : ℕ) → b.size ≤ b.write_idx + n → b.write_idx + n < 2 ^ 31 → move_write_index b n ≡ done b
  unfolding move_write_index
  move_write_index_full n full fits = rw (lt→ltb _ _ fits, le→leb _ _ full)

  -- The read index moves over unread bytes, unless it would leave the buffer.
  pub move_read_index_drops :
      (n : ℕ)
      → n ≤ length (contents b)
      → b.read_idx + n < b.size
      → (b' : TcpBuffer) × (move_read_index b n ≡ done b')
        × IsValid b'
        × (contents b' ≡ drop n (contents b))
  move_read_index_drops n enough room = (
    kept.0,
    unfold move_read_index in
        rw (lt→ltb (b.read_idx + n) (2 ^ 31) (omega (arith, v.small)), lt→leb _ _ room)
          (unfold advanced in kept.1),
    kept.2,
    kept.3 ∙ contents-advanced v n enough,
  )
    where
      kept :
          (b' : TcpBuffer) × (adjust_buffer (advanced b n) ≡ done b')
          × IsValid b'
          × (contents b' ≡ contents (advanced b n))
          × (b'.size ≡ (advanced b n).size)
      kept = adjust_buffer_keeps (advanced-IsValid v n enough)

  -- Resizing keeps the unread bytes, the first `n` of them where there are more.
  pub resize_buffer_keeps :
      (n : ℕ)
      → n < 2 ^ 31
      → (b' : TcpBuffer) × (resize_buffer b n ≡ done b')
        × IsValid b'
        × (contents b' ≡ take n (contents b))
        × (b'.size ≡ n)
  unfolding packed
  resize_buffer_keeps n fits = (
    packed (take n (contents b)) n,
    resize_buffer_lem v n,
    packed-IsValid (take n (contents b)) n (omega (arith, length-take n (contents b))) fits,
    contents-packed (take n (contents b)) n,
    refl,
  )
