-- ===== src/FdEventPool.antt =====
-- tinyrpc/net/fd_event_pool.{h,cc}: one `FdEvent` for each descriptor, made when it is first asked
-- for. Sizes stay below `2 ^ 31`, so the product with 1.5 is exact before it is cut.
-- The pool is a vector of pointers; `heap` has the events that they point to, which the rest of the
-- program changes. The destructor, which frees them, is left out.
pub mod Grow
pub mod Tests
use my_tiny_rpc.Base.{
  ℕ, zero, suc, ◌+◌, ◌-◌, ◌*◌, ◌/◌, Option, none, some, List, [], ◌∷◌, ◌++◌, ltb, if◌then◌else◌,
  get_elem?,
}
use my_tiny_rpc.Base.Outcome.{Outcome, done, fault}
use my_tiny_rpc.EventLoop.{update}
use my_tiny_rpc.FdEvent.{FdEvent, new_fd_event}

pub record FdEventPool (Callback : Type 0) : Type 0 where
  pub size : ℕ
  pub fd_event_pool : List ℕ
  pub heap : ℕ → FdEvent Callback
  pub allocated : ℕ

-- `m_fd_event_pool[fd]`
abbrev pub event_at : Option ℕ → Outcome ℕ
event_at none = fault
event_at (some pointer) = done pointer

module _ {Callback : Type 0} where
  -- `m_fd_event_pool.push_back(new FdEvent(i))`
  unfoldable pub push_event : ℕ → FdEventPool Callback → FdEventPool Callback
  push_event i pool = record pool {
    fd_event_pool = pool.fd_event_pool ++ pool.allocated ∷ [];
    heap = update pool.heap pool.allocated (new_fd_event i);
    allocated = suc pool.allocated;
  }

  -- The loops that push an event for each of `n` numbers from `i` on.
  unfoldable pub push_events : ℕ → ℕ → FdEventPool Callback → FdEventPool Callback
  push_events zero i pool = pool
  push_events (suc n) i pool = push_events n (i + 1) (push_event i pool)

  -- The constructor, with the heap that it finds.
  unfoldable pub new_fd_event_pool : (ℕ → FdEvent Callback) → ℕ → ℕ → FdEventPool Callback
  new_fd_event_pool heap allocated size =
      push_events size 0
        (record { size = size; fd_event_pool = []; heap = heap; allocated = allocated })

  -- `GetFdEventPool`, with what the global pointer holds.
  unfoldable pub get_fd_event_pool :
      (ℕ → FdEvent Callback) → ℕ → Option (FdEventPool Callback) → FdEventPool Callback
  get_fd_event_pool heap allocated none = new_fd_event_pool heap allocated 128
  get_fd_event_pool heap allocated (some pool) = pool

  -- The pool with room for the descriptor. The new size is stored behind the loop.
  unfoldable pub grow : FdEventPool Callback → ℕ → FdEventPool Callback
  grow pool fd =
      let new_size = fd * 3 / 2 in
      record (push_events (new_size - pool.size) pool.size pool) { size = new_size }

  unfoldable pub pool_for : FdEventPool Callback → ℕ → FdEventPool Callback
  pool_for pool fd = if ltb fd pool.size then pool else grow pool fd

  -- `getFdEvent`: the pointer, and the pool.
  unfoldable pub get_fd_event : FdEventPool Callback → ℕ → FdEventPool Callback × Outcome ℕ
  get_fd_event pool fd =
      let pool' = pool_for pool fd in (pool', event_at (get_elem? pool'.fd_event_pool fd))
