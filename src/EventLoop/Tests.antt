-- ===== src/EventLoop/Tests.antt =====
-- Runs of a loop and its theorems at concrete descriptors.
use my_tiny_rpc.Base.{ℕ, ◌+◌, ◌≡◌, refl, true, false, none, some, List, [], ◌∷◌, ◌++◌}
use my_tiny_rpc.FdEvent.{in_event, out_event, FdEvent, new_fd_event, listen, listen_for, handler}
use my_tiny_rpc.EventLoop.{
  call, EventLoop, Triggered, add_task, handle_event, handle_trigger, handle_triggers, run_task,
  run_tasks, loop_once, loop_rounds,
}
use my_tiny_rpc.EventLoop.Start.{LoopCalls, new_event_loop}
use my_tiny_rpc.EventLoop.Queue.{
  LoopStep, queued, queued-append, round, other_adds, loop_step, loop_steps, queue_step,
  queue_steps, trigger_calls,
}
use my_tiny_rpc.EventLoop.Fifo.{loop-Refines}

abbrev empty_loop : EventLoop ℕ
empty_loop = record {
  listen_fds = λ _. false;
  interest = λ _. none;
  refuses = λ _. false;
  pending_tasks = [];
  woken = false;
  stop_flag = false;
  is_looping = false;
}

-- Descriptor 7 is readable by callback 3.
abbrev readable : FdEvent ℕ
readable = record (new_fd_event 7) {
  listen_events = record { epoll_in = true; epoll_out = false };
  read_callback = some 3;
}

-- Each callback adds its number to a sum.
abbrev run_sum : ℕ → EventLoop ℕ → ℕ → EventLoop ℕ × ℕ
run_sum cb l sum = (l, sum + cb)

abbrev rounds : List (List (Triggered ℕ))
rounds =
    (record {
      fd_event = some readable;
      triggered_in = true;
      triggered_out = false;
      triggered_err = false;
    }
      ∷ [])
    ∷ []
    ∷ []

loop_calls : (loop_rounds (λ _ fd. new_fd_event fd) run_sum rounds empty_loop 10).1 ≡ 13
unfolding loop_rounds loop_once run_tasks run_task handle_triggers handle_trigger handle_event
    handler add_task
loop_calls = refl

listen_twice :
    (listen
      (listen (new_fd_event {Callback = ℕ} 7) in_event (some 3) (some 4))
      out_event
      (some 5)
      (some 6)).error_callback
    ≡ none
unfolding listen listen_for
listen_twice = refl

abbrev calls : LoopCalls
calls = record { epoll_ok = true; wakeup_fd = some 4; timer_fd = 5; refuses = λ _. false }

-- A second loop in the same thread ends the program.
second_loop : new_event_loop 1 2 calls (some empty_loop) ≡ none
unfolding new_event_loop
second_loop = refl

-- A callback that adds the next one, while another thread adds callback 8.
abbrev run_adds : ℕ → EventLoop ℕ → ℕ → EventLoop ℕ × ℕ
run_adds cb l s = (add_task l (call (some (cb + 1))) false, s)

abbrev events : ℕ → ℕ → FdEvent ℕ
events s fd = new_fd_event fd

abbrev waiting : EventLoop ℕ
waiting = record empty_loop { pending_tasks = call (some 5) ∷ call none ∷ call (some 2) ∷ [] }

only_adds :
    (cb : ℕ) (l : EventLoop ℕ) (s : ℕ)
    → queued (run_adds cb l s).0.pending_tasks ≡ queued l.pending_tasks ++ (cb + 1) ∷ []
unfolding add_task
only_adds cb l s = queued-append l.pending_tasks (call (some (cb + 1)) ∷ [])

abbrev some_steps : List (LoopStep ℕ)
some_steps = other_adds (call (some 8)) true ∷ round [] ∷ other_adds (call (some 9)) false ∷ []

loop-Refines_example :
    (
      queued (loop_steps events run_adds some_steps waiting (0, 1 ∷ [])).0.pending_tasks,
      (loop_steps events run_adds some_steps waiting (0, 1 ∷ [])).1.1,
    )
    ≡ queue_steps (λ cb. (cb + 1) ∷ []) some_steps (5 ∷ 2 ∷ [], 1 ∷ [])
loop-Refines_example =
    loop-Refines events run_adds (λ cb. (cb + 1) ∷ []) only_adds some_steps waiting (0, 1 ∷ [])

queue_runs :
    queue_steps (λ cb. (cb + 1) ∷ []) some_steps (5 ∷ 2 ∷ [], 1 ∷ [])
    ≡ (6 ∷ 3 ∷ 9 ∷ 9 ∷ [], 1 ∷ 5 ∷ 2 ∷ 8 ∷ [])
unfolding queue_steps queue_step trigger_calls
queue_runs = refl

run_twice :
    (loop_steps events run_adds
      (other_adds (call (some 8)) true ∷ round [] ∷ round [] ∷ [])
      waiting
      (0, [])).1.1
    ≡ 5 ∷ 2 ∷ 8 ∷ 6 ∷ 3 ∷ 9 ∷ []
unfolding loop_steps loop_step loop_once run_tasks run_task handle_triggers add_task
run_twice = refl
