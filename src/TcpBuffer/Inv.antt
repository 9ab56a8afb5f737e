-- ===== src/TcpBuffer/Inv.antt =====
-- The invariant of `TcpBuffer`, what a buffer holds, and the cases in which the copies do not fault.
use my_tiny_rpc.Base.{
  ℕ, zero, ◌+◌, ◌-◌, ◌/◌, if◌then◌else◌, ltb, ◌≤◌, ◌<◌, ◌^◌, min, ◌≡◌, sym, ap, ◌∙◌, List, ◌++◌,
  arith, length, take, drop, replicate, length-append, length-take, length-drop, length-replicate,
  take-append, take-take, drop-replicate,
}
use my_tiny_rpc.Base.Outcome.{done}
use my_tiny_rpc.TcpBuffer.{TcpBuffer, read_able, copy_out, copy_in, resize_buffer, adjust_buffer}

pub record IsValid (b : TcpBuffer) : Type 0 where
  pub ordered : b.read_idx ≤ b.write_idx
  pub inside : b.write_idx ≤ b.size
  pub sized : length b.buffer ≡ b.size
  pub small : b.size < 2 ^ 31

-- The unread bytes, oldest first.
abbrev pub contents : TcpBuffer → List ℕ
contents b = take (b.write_idx - b.read_idx) (drop b.read_idx b.buffer)

pub length-contents : {b : TcpBuffer} → IsValid b → length (contents b) ≡ b.write_idx - b.read_idx
length-contents {b} v = omega (
  arith,
  length-take (b.write_idx - b.read_idx) (drop b.read_idx b.buffer),
  length-drop b.read_idx b.buffer,
  v.ordered,
  v.inside,
  v.sized,
)

pub copy_out_lem :
    (buf : List ℕ) (at count : ℕ)
    → at + count ≤ length buf
    → copy_out buf at count ≡ done (take count (drop at buf))
unfolding copy_out
copy_out_lem buf at count h = ground arith

pub copy_in_lem :
    (buf : List ℕ) (at : ℕ) (bytes : List ℕ)
    → at + length bytes ≤ length buf
    → copy_in buf at bytes ≡ done (take at buf ++ (bytes ++ drop (at + length bytes) buf))
unfolding copy_in
copy_in_lem buf at bytes h = ground arith

unfoldable pub zero_padded : List ℕ → ℕ → List ℕ
zero_padded bytes n = bytes ++ replicate (n - length bytes) 0

pub copy_in_fresh :
    (n : ℕ) (bytes : List ℕ)
    → length bytes ≤ n
    → copy_in (replicate n 0) 0 bytes ≡ done (zero_padded bytes n)
unfolding zero_padded
copy_in_fresh n bytes h =
    copy_in_lem (replicate n 0) 0 bytes (omega (arith, length-replicate n zero))
    ∙ ap (λ r. done (bytes ++ r))
        (drop-replicate (0 + length bytes) n 0 ∙ ap (λ k. replicate k 0) (omega arith))

-- A buffer whose bytes stand at the front of a vector of `n`.
unfoldable pub packed : List ℕ → ℕ → TcpBuffer
packed bytes n = record {
  buffer = zero_padded bytes n;
  size = n;
  read_idx = 0;
  write_idx = length bytes;
}

pub packed-IsValid :
    (bytes : List ℕ) (n : ℕ) → length bytes ≤ n → n < 2 ^ 31 → IsValid (packed bytes n)
unfolding packed zero_padded
packed-IsValid bytes n h k = record {
  ordered = omega arith;
  inside = h;
  sized = omega (
    arith,
    length-append bytes (replicate (n - length bytes) 0),
    length-replicate (n - length bytes) zero,
  );
  small = k;
}

pub contents-packed : (bytes : List ℕ) (n : ℕ) → contents (packed bytes n) ≡ bytes
unfolding packed zero_padded
contents-packed bytes n = take-append bytes (replicate (n - length bytes) 0) (omega arith)

-- Both ways to move the unread bytes end in a packed buffer.
module _ {b : TcpBuffer} (v : IsValid b) where
  pub read_able_lem : read_able b ≡ done (length (contents b))
  unfolding read_able
  read_able_lem = ground (arith, length-contents v)

  pub copy_unread :
      (n : ℕ)
      → copy_out b.buffer b.read_idx (min n (length (contents b))) ≡ done (take n (contents b))
  copy_unread n =
      copy_out_lem b.buffer b.read_idx (min n (length (contents b)))
        (omega (arith, length-contents v))
      ∙ ap done (
          sym (
            take-take n (b.write_idx - b.read_idx) (drop b.read_idx b.buffer)
            ∙ ap (λ k. take (min n k) (drop b.read_idx b.buffer)) (sym (length-contents v))))

  pub length-contents-le : length (contents b) ≤ b.size
  length-contents-le = omega (arith, length-contents v, v.inside)

  -- Resizing keeps the first `n` unread bytes.
  pub resize_buffer_lem : (n : ℕ) → resize_buffer b n ≡ done (packed (take n (contents b)) n)
  unfolding resize_buffer packed
  resize_buffer_lem n =
      rw (read_able_lem, copy_unread n, copy_in_fresh n (take n (contents b)) short)
        (rw (length-take n (contents b)))
    where
      short : length (take n (contents b)) ≤ n
      short = omega (arith, length-take n (contents b))

  pub adjust_buffer_lem :
      adjust_buffer b
      ≡ (if ltb b.read_idx (b.size / 3) then done b else done (packed (contents b) b.size))
  unfolding adjust_buffer packed
  adjust_buffer_lem = rw (
    read_able_lem,
    copy_out_lem b.buffer b.read_idx (length (contents b)) (omega (arith, length-contents v)),
    whole,
    copy_in_fresh b.size (contents b) length-contents-le,
  )
    where
      whole : take (length (contents b)) (drop b.read_idx b.buffer) ≡ contents b
      whole = ap (λ k. take k (drop b.read_idx b.buffer)) (length-contents v)
