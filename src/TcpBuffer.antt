-- ===== src/TcpBuffer.antt =====
-- tinyrpc/net/tcp/tcp_buffer.{h,cc}: a byte buffer with a read and a write index.
-- Sizes and indices are C++ `int`s: they are numbers here, a sum that leaves the type faults, and
-- so does a copy that leaves a vector.
pub mod Inv
pub mod Append
pub mod Queue
pub mod Tests
use my_tiny_rpc.Base.{
  ℕ, ◌+◌, ◌-◌, ◌*◌, ◌/◌, ◌^◌, min, Bool, List, [], ◌++◌, ltb, leb, ◌==◌, if◌then◌else◌, length,
  take, drop, replicate,
}
use my_tiny_rpc.Base.Outcome.{Outcome, done, fault, stuck, ◌>>=◌, ◌>>◌, demand}

pub record TcpBuffer : Type 0 where
  pub buffer : List ℕ
  pub size : ℕ
  pub read_idx : ℕ
  pub write_idx : ℕ

-- `2 ^ 31 - 1` is the largest `int`.
abbrev pub fits_int : ℕ → Bool
fits_int n = ltb n (2 ^ 31)

unfoldable pub new_tcp_buffer : ℕ → TcpBuffer
new_tcp_buffer size = record { buffer = replicate size 0; size = size; read_idx = 0; write_idx = 0 }

-- `readAble` where it is used as a count: `memcpy` and `vector` fault on a negative one.
unfoldable pub read_able : TcpBuffer → Outcome ℕ
read_able b = if leb b.read_idx b.write_idx then done (b.write_idx - b.read_idx) else fault

unfoldable pub write_able : TcpBuffer → Outcome ℕ
write_able b = if leb b.write_idx b.size then done (b.size - b.write_idx) else fault

-- `memcpy(dst, &buf[at], count)`, which stays inside the vector.
unfoldable pub copy_out : List ℕ → ℕ → ℕ → Outcome (List ℕ)
copy_out buf at count =
    if leb (at + count) (length buf) then done (take count (drop at buf)) else fault

-- `memcpy(&buf[at], bytes, n)`.
unfoldable pub copy_in : List ℕ → ℕ → List ℕ → Outcome (List ℕ)
copy_in buf at bytes =
    if leb (at + length bytes) (length buf)
    then done (take at buf ++ (bytes ++ drop (at + length bytes) buf))
    else fault

-- The unread bytes move to the front of a fresh vector of `new_size` zeros.
unfoldable pub resize_buffer : TcpBuffer → ℕ → Outcome TcpBuffer
resize_buffer b new_size = do
  readable ← read_able b
  let count = min new_size readable
  unread ← copy_out b.buffer b.read_idx count
  tmp ← copy_in (replicate new_size 0) 0 unread
  done (record { buffer = tmp; size = new_size; read_idx = 0; write_idx = count })

unfoldable pub write_to_buffer : TcpBuffer → List ℕ → Outcome TcpBuffer
write_to_buffer b bytes = do
  demand (fits_int (b.write_idx + length bytes))
  b' ←
      (if ltb b.size (b.write_idx + length bytes)
        then (do
          let new_size = 3 * (b.write_idx + length bytes) / 2
          demand (fits_int new_size)
          resize_buffer b new_size)
        else done b)
  buf ← copy_in b'.buffer b'.write_idx bytes
  done (record b' { buffer = buf; write_idx = b'.write_idx + length bytes })

-- From a third of the buffer on, the unread bytes move back to the front.
unfoldable pub adjust_buffer : TcpBuffer → Outcome TcpBuffer
adjust_buffer b = if ltb b.read_idx (b.size / 3) then done b else (do
  count ← read_able b
  unread ← copy_out b.buffer b.read_idx count
  tmp ← copy_in (replicate b.size 0) 0 unread
  done (record b { buffer = tmp; read_idx = 0; write_idx = count }))

-- The vector `res` is swapped with what was read, and left alone where nothing can be read.
unfoldable pub read_from_buffer : TcpBuffer → List ℕ → ℕ → Outcome (TcpBuffer × List ℕ)
read_from_buffer b res size = do
  readable ← read_able b
  (if readable == 0 then done (b, res) else (do
    let read_size = if ltb size readable then size else readable
    tmp ← copy_out b.buffer b.read_idx read_size
    b' ← adjust_buffer (record b { read_idx = b.read_idx + read_size })
    done (b', tmp)))

-- The callers pass counts of bytes, which are not negative.
unfoldable pub move_read_index : TcpBuffer → ℕ → Outcome TcpBuffer
move_read_index b size = do
  demand (fits_int (b.read_idx + size))
  (if leb b.size (b.read_idx + size)
      then done b
      else adjust_buffer (record b { read_idx = b.read_idx + size }))

unfoldable pub move_write_index : TcpBuffer → ℕ → Outcome TcpBuffer
move_write_index b size = do
  demand (fits_int (b.write_idx + size))
  (if leb b.size (b.write_idx + size)
      then done b
      else done (record b { write_idx = b.write_idx + size }))
