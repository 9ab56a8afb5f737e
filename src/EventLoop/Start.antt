-- ===== src/EventLoop/Start.antt =====
-- tinyrpc/net/eventloop.cc: how a loop is made. What the system calls return is an argument.
use my_tiny_rpc.Base.{
  ℕ, ◌≡◌, ◌≢◌, refl, ◌∙◌, Bool, true, false, Option, none, some, [], if◌then◌else◌, ==_iff, arith,
}
use my_tiny_rpc.FdEvent.{in_event, FdEvent, new_fd_event, listen, listen_for}
use my_tiny_rpc.EventLoop.{EventLoop, control, add_epoll_event, add_to_epoll}
use my_tiny_rpc.EventLoop.InSync.{InSync, add_to_epoll-InSync, add_to_epoll_watches}

-- `epoll_create`, `eventfd` and `timerfd_create`; the last is not looked at. `refuses` has the
-- descriptors that `epoll_ctl` fails for.
pub record LoopCalls : Type 0 where
  pub epoll_ok : Bool
  pub wakeup_fd : Option ℕ
  pub timer_fd : ℕ
  pub refuses : ℕ → Bool

module _ {Callback : Type 0} where
  -- The members of a new loop.
  abbrev pub empty_loop : (ℕ → Bool) → EventLoop Callback
  empty_loop refuses = record {
    listen_fds = λ fd. false;
    interest = λ fd. none;
    refuses = refuses;
    pending_tasks = [];
    woken = false;
    stop_flag = false;
    is_looping = false;
  }

  -- A descriptor that is listened to for reading, as `initWakeUpFdEevent` and `initTimer` add one.
  abbrev pub reading_event : ℕ → Callback → FdEvent Callback
  reading_event fd callback = listen (new_fd_event fd) in_event (some callback) none

  unfoldable pub init_wake_up_fd_event : Callback → ℕ → EventLoop Callback → EventLoop Callback
  init_wake_up_fd_event read_all fd l = add_epoll_event true l (reading_event fd read_all)

  unfoldable pub init_timer : Callback → ℕ → EventLoop Callback → EventLoop Callback
  init_timer on_timer fd l = add_epoll_event true l (reading_event fd on_timer)

  abbrev pub with_wakeup :
      Callback → Callback → ℕ → Option ℕ → EventLoop Callback → Option (EventLoop Callback)
  with_wakeup read_all on_timer timer_fd none l = none
  with_wakeup read_all on_timer timer_fd (some fd) l =
      some (init_timer on_timer timer_fd (init_wake_up_fd_event read_all fd l))

  -- The constructor, in a thread that has a loop or none. It is `none` where the program ends.
  unfoldable pub new_event_loop :
      Callback → Callback → LoopCalls → Option (EventLoop Callback) → Option (EventLoop Callback)
  new_event_loop read_all on_timer calls (some current) = none
  new_event_loop read_all on_timer calls none =
      if calls.epoll_ok
      then with_wakeup read_all on_timer calls.timer_fd calls.wakeup_fd (empty_loop calls.refuses)
      else none

  -- `GetCurrentEventLoop`
  unfoldable pub get_current_event_loop :
      Callback → Callback → LoopCalls → Option (EventLoop Callback) → Option (EventLoop Callback)
  get_current_event_loop read_all on_timer calls (some current) = some current
  get_current_event_loop read_all on_timer calls none = new_event_loop read_all on_timer calls none

  -- What a new loop watches.
  pub record IsReady (wakeup_fd timer_fd : ℕ) (l : EventLoop Callback) : Type 0 where
    pub in_sync : InSync l
    pub wakeup_watched : l.interest wakeup_fd ≡ some (record { epoll_in = true; epoll_out = false })
    pub timer_watched : l.interest timer_fd ≡ some (record { epoll_in = true; epoll_out = false })

  interest-other :
      (l : EventLoop Callback) (e : FdEvent Callback) (fd : ℕ)
      → fd ≢ e.fd
      → (add_to_epoll l e).interest fd ≡ l.interest fd
  unfolding add_to_epoll control
  interest-other l e fd other = ground (arith, ==_iff fd e.fd)

  -- A thread's first loop watches its wake-up descriptor and its timer, where the system calls
  -- succeed and give two descriptors that `epoll_ctl` takes; and that loop is the thread's loop from then on.
  pub new_event_loop-IsReady :
      (read_all on_timer : Callback) (calls : LoopCalls) (fd : ℕ)
      → calls.epoll_ok ≡ true
      → calls.wakeup_fd ≡ some fd
      → fd ≢ calls.timer_fd
      → calls.refuses fd ≡ false
      → calls.refuses calls.timer_fd ≡ false
      → (l : EventLoop Callback) × (get_current_event_loop read_all on_timer calls none ≡ some l)
        × IsReady fd calls.timer_fd l
        × (get_current_event_loop read_all on_timer calls (some l) ≡ some l)
  unfolding get_current_event_loop new_event_loop init_wake_up_fd_event init_timer add_epoll_event
      listen listen_for add_to_epoll
  new_event_loop-IsReady read_all on_timer calls fd made wakeup apart wakeup_taken timer_taken =
      let first = reading_event fd read_all in
      let second = reading_event calls.timer_fd on_timer in
      let new : EventLoop Callback = empty_loop calls.refuses in
      let empty : InSync new = λ fd _. refl in
      let sync = add_to_epoll-InSync new first empty in
      (
        init_timer on_timer calls.timer_fd (init_wake_up_fd_event read_all fd new),
        rw (made, wakeup),
        record {
          in_sync = add_to_epoll-InSync (add_to_epoll new first) second sync;
          wakeup_watched =
              interest-other (add_to_epoll new first) second fd apart
              ∙ add_to_epoll_watches new first empty wakeup_taken;
          timer_watched = add_to_epoll_watches (add_to_epoll new first) second sync timer_taken;
        },
        refl,
      )
