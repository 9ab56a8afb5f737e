-- ===== src/EventLoop.antt =====
-- tinyrpc/net/eventloop.{h,cc}: the descriptors of a loop, and its queue of tasks.
-- `interest` is the kernel's side: which events `epoll_wait` reports, for each descriptor. The
-- callbacks are elements of a type that the model takes, with a function `run` for what they do to
-- the loop and to the rest of the program, whose state is of the type `S`. A pointer to an `FdEvent` is
-- named by the descriptor, and `event_at` reads it. `epoll_ctl` fails for the descriptors of `refuses`,
-- such as a closed one; what `close` and `socket` do to them is up to the rest of the program.
-- The timer and the wake-up descriptor are descriptors like others; log lines are left out.
pub mod InSync
pub mod Queue
pub mod Fifo
pub mod Start
pub mod Tests
use my_tiny_rpc.Base.{
  ℕ, Bool, true, false, ◌&&◌, Option, none, some, List, [], ◌∷◌, ◌++◌, ◌==◌, if◌then◌else◌,
}
use my_tiny_rpc.FdEvent.{TriggerEvent, in_event, out_event, error_event, Events, FdEvent, handler}

abbrev pub update : {A : Type 0} → (ℕ → A) → ℕ → A → ℕ → A
update f key value fd = if fd == key then value else f fd

-- What waits in the queue: a callback, which may be empty, or one of the two lambdas of
-- `addEpollEvent` and `deleteEpollEvent`, which hold the pointer to the event.
pub data Task (Callback : Type 0) : Type 0 where
  call : Option Callback → Task Callback
  add_event : ℕ → Task Callback
  delete_event : ℕ → Task Callback

pub record EventLoop (Callback : Type 0) : Type 0 where
  pub listen_fds : ℕ → Bool
  pub interest : ℕ → Option Events
  pub refuses : ℕ → Bool
  pub pending_tasks : List (Task Callback)
  pub woken : Bool
  pub stop_flag : Bool
  pub is_looping : Bool

-- What `epoll_wait` reports of one descriptor: the pointer, which may be null, and `EPOLLIN`,
-- `EPOLLOUT` and `EPOLLERR`.
pub record Triggered (Callback : Type 0) : Type 0 where
  pub fd_event : Option (FdEvent Callback)
  pub triggered_in : Bool
  pub triggered_out : Bool
  pub triggered_err : Bool

-- `epoll_ctl` on a descriptor that is not refused: it cannot be added twice, and only one that is
-- there can be changed or deleted. An error is logged and nothing else.
pub data EpollOp : Type 0 where
  epoll_ctl_add : EpollOp
  epoll_ctl_mod : EpollOp
  epoll_ctl_del : EpollOp

unfoldable pub epoll_ctl : EpollOp → Option Events → Events → Option Events
epoll_ctl epoll_ctl_add none events = some events
epoll_ctl epoll_ctl_add (some old) events = some old
epoll_ctl epoll_ctl_mod none events = none
epoll_ctl epoll_ctl_mod (some old) events = some events
epoll_ctl epoll_ctl_del old events = none

module _ {Callback : Type 0} where
  -- What the kernel watches after `epoll_ctl`, which may fail.
  unfoldable pub control : EventLoop Callback → EpollOp → ℕ → Events → ℕ → Option Events
  control l op fd events =
      if l.refuses fd
      then l.interest
      else update l.interest fd (epoll_ctl op (l.interest fd) events)

  -- `ADD_TO_EPOLL`: the set gets the descriptor, whether or not `epoll_ctl` failed.
  unfoldable pub add_to_epoll : EventLoop Callback → FdEvent Callback → EventLoop Callback
  add_to_epoll l event =
      let op = if l.listen_fds event.fd then epoll_ctl_mod else epoll_ctl_add in
      record l {
        interest = control l op event.fd event.listen_events;
        listen_fds = update l.listen_fds event.fd true;
      }

  -- `DEL_FROM_EPOLL`, which in the same way does not look at the result
  unfoldable pub del_from_epoll : EventLoop Callback → FdEvent Callback → EventLoop Callback
  del_from_epoll l event =
      if l.listen_fds event.fd
      then record l {
        interest = control l epoll_ctl_del event.fd event.listen_events;
        listen_fds = update l.listen_fds event.fd false;
      }
      else l

  unfoldable pub add_task : EventLoop Callback → Task Callback → Bool → EventLoop Callback
  add_task l task is_wake_up =
      let l' = record l { pending_tasks = l.pending_tasks ++ task ∷ [] } in
      if is_wake_up then record l' { woken = true } else l'

  -- `is_in_loop_thread` is whether the caller runs in the loop's own thread.
  unfoldable pub add_epoll_event : Bool → EventLoop Callback → FdEvent Callback → EventLoop Callback
  add_epoll_event is_in_loop_thread l event =
      if is_in_loop_thread then add_to_epoll l event else add_task l (add_event event.fd) true

  unfoldable pub delete_epoll_event :
      Bool → EventLoop Callback → FdEvent Callback → EventLoop Callback
  delete_epoll_event is_in_loop_thread l event =
      if is_in_loop_thread then del_from_epoll l event else add_task l (delete_event event.fd) true

  unfoldable pub wakeup : EventLoop Callback → EventLoop Callback
  wakeup l = record l { woken = true }

  unfoldable pub stop : EventLoop Callback → EventLoop Callback
  stop l = wakeup (record l { stop_flag = true; is_looping = false })

  abbrev pub add_task_if : Bool → Option Callback → EventLoop Callback → EventLoop Callback
  add_task_if true cb l = add_task l (call cb) false
  add_task_if false cb l = l

  abbrev pub add_error_task : Option Callback → EventLoop Callback → EventLoop Callback
  add_error_task none l = l
  add_error_task (some cb) l = add_task l (call (some cb)) false

  -- The events of one descriptor become tasks.
  unfoldable pub handle_event :
      FdEvent Callback → Triggered Callback → EventLoop Callback → EventLoop Callback
  handle_event fd_event t l =
      let l' = add_task_if t.triggered_in (handler fd_event in_event) l in
      let l'' = add_task_if t.triggered_out (handler fd_event out_event) l' in
      if t.triggered_err
      then add_error_task (handler fd_event error_event) (del_from_epoll l'' fd_event)
      else l''

  -- One report of `epoll_wait`; a null pointer is passed over.
  unfoldable pub handle_trigger : Triggered Callback → EventLoop Callback → EventLoop Callback
  handle_trigger t l = elim t.fd_event [ none ↦ l | some fd_event ↦ handle_event fd_event t l ]

  unfoldable pub handle_triggers :
      List (Triggered Callback) → EventLoop Callback → EventLoop Callback
  handle_triggers [] l = l
  handle_triggers (t ∷ ts) l = handle_triggers ts (handle_trigger t l)

  module _ {S : Type 0} (event_at : S → ℕ → FdEvent Callback)
      (run : Callback → EventLoop Callback → S → EventLoop Callback × S) where
    unfoldable pub run_task : Task Callback → EventLoop Callback → S → EventLoop Callback × S
    run_task (call none) l s = (l, s)
    run_task (call (some cb)) l s = run cb l s
    run_task (add_event fd) l s = (add_to_epoll l (event_at s fd), s)
    run_task (delete_event fd) l s = (del_from_epoll l (event_at s fd), s)

    unfoldable pub run_tasks :
        List (Task Callback) → EventLoop Callback → S → EventLoop Callback × S
    run_tasks [] l s = (l, s)
    run_tasks (task ∷ tasks) l s = let (l', s') = run_task task l s in run_tasks tasks l' s'

    -- One round of `loop`: the tasks that wait run first, and then what `epoll_wait` reports becomes
    -- the tasks of the next round. `epoll_wait` takes the wake-up.
    unfoldable pub loop_once :
        List (Triggered Callback) → EventLoop Callback → S → EventLoop Callback × S
    loop_once triggers l s =
        let (l', s') = run_tasks l.pending_tasks (record l { pending_tasks = [] }) s in
        (handle_triggers triggers (record l' { woken = false }), s')

    -- The rounds of `loop`, with what each `epoll_wait` reports.
    unfoldable pub loop_rounds :
        List (List (Triggered Callback)) → EventLoop Callback → S → EventLoop Callback × S
    loop_rounds [] l s = (l, s)
    loop_rounds (triggers ∷ rounds) l s =
        let (l', s') = loop_once triggers l s in
        let rest = loop_rounds rounds l' s' in if l.stop_flag then (l, s) else rest

    unfoldable pub loop :
        List (List (Triggered Callback)) → EventLoop Callback → S → EventLoop Callback × S
    loop rounds l s = loop_rounds rounds (record l { is_looping = true }) s
