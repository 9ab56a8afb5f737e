-- ===== src/FdEvent.antt =====
-- tinyrpc/net/fd_event.{h,cc}: the events that a descriptor listens for, and their callbacks.
-- `EPOLLIN` and `EPOLLOUT` are two Booleans. A callback is an element of a type that the model takes;
-- `none` is an empty `std::function`.
use my_tiny_rpc.Base.{
  ℕ, ◌/◌, ◌%◌, ◌≡◌, ◌==◌, if◌then◌else◌, arith, Bool, true, false, Option, none, some,
}

pub data TriggerEvent : Type 0 where
  in_event : TriggerEvent
  out_event : TriggerEvent
  error_event : TriggerEvent

-- The `events` of an `epoll_event`.
pub record Events : Type 0 where
  pub epoll_in : Bool
  pub epoll_out : Bool

pub record FdEvent (Callback : Type 0) : Type 0 where
  pub fd : ℕ
  pub listen_events : Events
  pub read_callback : Option Callback
  pub write_callback : Option Callback
  pub error_callback : Option Callback

-- `O_NONBLOCK`
abbrev pub o_nonblock : ℕ
o_nonblock = 2048

-- `setNonBlock`, on the flags that `fcntl` gives, a number: where the flag is missing, it is set
-- alone.
unfoldable pub set_non_block : ℕ → ℕ
set_non_block flag = if flag / o_nonblock % 2 == 1 then flag else o_nonblock

pub set_non_block-sets : (flag : ℕ) → set_non_block flag / o_nonblock % 2 ≡ 1
unfolding set_non_block
set_non_block-sets flag = ground arith

module _ {Callback : Type 0} where
  abbrev pub new_fd_event : ℕ → FdEvent Callback
  new_fd_event fd = record {
    fd = fd;
    listen_events = record { epoll_in = false; epoll_out = false };
    read_callback = none;
    write_callback = none;
    error_callback = none;
  }

  unfoldable pub handler : FdEvent Callback → TriggerEvent → Option Callback
  handler e in_event = e.read_callback
  handler e out_event = e.write_callback
  handler e error_event = e.error_callback

  -- Only the first two events are set.
  unfoldable pub listen_for : FdEvent Callback → TriggerEvent → Option Callback → FdEvent Callback
  listen_for e in_event callback = record e {
    listen_events = record e.listen_events { epoll_in = true };
    read_callback = callback;
  }
  listen_for e out_event callback = record e {
    listen_events = record e.listen_events { epoll_out = true };
    write_callback = callback;
  }
  listen_for e error_event callback = e

  -- An error callback that is set already is dropped, and the new one is not taken.
  abbrev pub next_error_callback : Option Callback → Option Callback → Option Callback
  next_error_callback none error_callback = error_callback
  next_error_callback (some old) error_callback = none

  unfoldable pub listen :
      FdEvent Callback → TriggerEvent → Option Callback → Option Callback → FdEvent Callback
  listen e event_type callback error_callback =
      let e' = listen_for e event_type callback in
      record e' { error_callback = next_error_callback e'.error_callback error_callback }

  unfoldable pub cancel : FdEvent Callback → TriggerEvent → FdEvent Callback
  cancel e in_event = record e { listen_events = record e.listen_events { epoll_in = false } }
  cancel e out_event = record e { listen_events = record e.listen_events { epoll_out = false } }
  cancel e error_event = record e { listen_events = record e.listen_events { epoll_out = false } }
