-- ===== src/WakeUp.antt =====
-- tinyrpc/net/wakeup_fd_event.{h,cc}, and the reader of tinyrpc/net/eventloop.cc: the descriptor
-- that wakes a loop. It is an `eventfd`, a counter of 64 bits that does not block.
pub mod Tests
use my_tiny_rpc.Base.{
  ℕ, zero, suc, ◌+◌, ◌-◌, ◌≤◌, ◌<◌, ◌^◌, ◌≡◌, refl, Bool, true, false, arith, leb, ltb,
  if◌then◌else◌,
}

-- The largest value of an `eventfd`.
abbrev pub max_counter : ℕ
max_counter = 2 ^ 64 - 2

-- `wakeup` writes the bytes 'a', 0, …, 0, which are the number 97. A write that would overflow fails,
-- and is logged.
unfoldable pub write_wakeup : ℕ → ℕ
write_wakeup counter = if leb (counter + 97) max_counter then counter + 97 else counter

-- The reader goes on while `read` does not fail and `errno` is not EAGAIN, which a read that goes
-- well leaves as it was: `is_eagain` is what it says before. A read of 0 fails with EAGAIN, and any
-- other takes the whole counter, so that the next one fails.
unfoldable pub read_wakeup : ℕ → Bool → ℕ × Bool
read_wakeup zero is_eagain = (zero, true)
read_wakeup (suc n) true = (zero, true)
read_wakeup (suc n) false = (zero, true)

-- Whether `epoll_wait` reports the descriptor as readable.
abbrev pub is_readable : ℕ → Bool
is_readable counter = ltb 0 counter

-- A wake-up is not lost, and is over when it has been read: whatever the counter was, the descriptor
-- is readable after `wakeup`, and within its bounds, and not readable after the reader has run.
pub wakeup-IsSeen :
    (counter : ℕ) (is_eagain : Bool)
    → counter ≤ max_counter
    → (is_readable (write_wakeup counter) ≡ true)
      × (write_wakeup counter ≤ max_counter)
      × (is_readable (read_wakeup counter is_eagain).0 ≡ false)
unfolding write_wakeup read_wakeup
wakeup-IsSeen zero is_eagain h = ground arith
wakeup-IsSeen (suc n) true h = ground arith
wakeup-IsSeen (suc n) false h = ground arith
