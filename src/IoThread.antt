-- ===== src/IoThread.antt =====
-- tinyrpc/net/io_thread.{h,cc}: an I/O thread, and the thread that makes it.
-- The two run at the same time: an `Action` is what one of them does between two points where the
-- other may go on. `sem_wait` on a semaphore at 0, and the end of a loop that is not stopped, are
-- actions that are not possible yet: `none`. The loop itself is modelled in EventLoop.
pub mod Handshake
pub mod Tests
use my_tiny_rpc.Base.{ℕ, zero, suc, Bool, true, false, Option, none, some, List, [], ◌∷◌}

-- Where the thread stands in `Run`: before it makes its loop, before it posts `m_init_sem`, at the
-- wait for `m_start_sem`, in `loop`, or at the end.
pub data RunPoint : Type 0 where
  starting : RunPoint
  loop_made : RunPoint
  waiting : RunPoint
  looping : RunPoint
  ended : RunPoint

-- `has_event_loop` is whether `m_event_loop` is set, `is_created` whether the constructor has
-- returned, and `stop_flag` is that of the loop.
pub record IoThread : Type 0 where
  pub has_event_loop : Bool
  pub init_sem : ℕ
  pub start_sem : ℕ
  pub stop_flag : Bool
  pub run_point : RunPoint
  pub is_created : Bool

-- The constructor, as far as `pthread_create`.
abbrev pub new_io_thread : IoThread
new_io_thread = record {
  has_event_loop = false;
  init_sem = 0;
  start_sem = 0;
  stop_flag = false;
  run_point = starting;
  is_created = false;
}

pub data Action : Type 0 where
  make_loop : Action
  post_init : Action
  wait_init : Action
  start_thread : Action
  wait_start : Action
  stop_loop : Action
  end_loop : Action

-- `sem_wait`: what the semaphore holds behind it.
abbrev pub sem_wait : {A : Type 0} → ℕ → (ℕ → A) → Option A
sem_wait zero next = none
sem_wait (suc n) next = some (next n)

-- What the new thread does in `Run`, at each point.
unfoldable pub make_loop_at : RunPoint → IoThread → Option IoThread
make_loop_at starting t = some (record t { has_event_loop = true; run_point = loop_made })
make_loop_at _ t = none

unfoldable pub post_init_at : RunPoint → IoThread → Option IoThread
post_init_at loop_made t = some (record t { init_sem = suc t.init_sem; run_point = waiting })
post_init_at _ t = none

unfoldable pub wait_start_at : RunPoint → IoThread → Option IoThread
wait_start_at waiting t =
    sem_wait t.start_sem (λ n. record t { start_sem = n; run_point = looping })
wait_start_at _ t = none

unfoldable pub end_loop_at : RunPoint → Bool → IoThread → Option IoThread
end_loop_at looping true t = some (record t { run_point = ended })
end_loop_at _ _ t = none

-- What the thread that makes it does: the end of the constructor, and then `start`, and the `stop`
-- of the loop with which the destructor begins.
unfoldable pub wait_init_from : Bool → IoThread → Option IoThread
wait_init_from false t = sem_wait t.init_sem (λ n. record t { init_sem = n; is_created = true })
wait_init_from true t = none

unfoldable pub start_from : Bool → IoThread → Option IoThread
start_from true t = some (record t { start_sem = suc t.start_sem })
start_from false t = none

unfoldable pub stop_from : Bool → IoThread → Option IoThread
stop_from true t = some (record t { stop_flag = true })
stop_from false t = none

unfoldable pub act : Action → IoThread → Option IoThread
act make_loop t = make_loop_at t.run_point t
act post_init t = post_init_at t.run_point t
act wait_init t = wait_init_from t.is_created t
act start_thread t = start_from t.is_created t
act wait_start t = wait_start_at t.run_point t
act stop_loop t = stop_from t.is_created t
act end_loop t = end_loop_at t.run_point t.stop_flag t

-- One order of the actions of both threads.
unfoldable pub run : List Action → IoThread → Option IoThread
run [] t = some t
run (a ∷ rest) t = elim (act a t) [ none ↦ none | some t' ↦ run rest t' ]

-- `pthread_join` returns when `Run` has.
abbrev pub join_returns : RunPoint → Bool
join_returns ended = true
join_returns _ = false
