-- ===== src/IoThread/Tests.antt =====
-- Two orders of the threads' actions, and the theorems at them.
use my_tiny_rpc.Base.{◌≤◌, ◌≡◌, ◌≢◌, ◌↔◌, refl, true, false, none, some, List, [], ◌∷◌}
use my_tiny_rpc.IoThread.{
  waiting, looping, ended, IoThread, new_io_thread, Action, make_loop, post_init, wait_init,
  start_thread, wait_start, stop_loop, end_loop, make_loop_at, post_init_at, wait_start_at,
  end_loop_at, wait_init_from, start_from, stop_from, act, run, join_returns,
}
use my_tiny_rpc.IoThread.Handshake.{starts, run-Ordered, wait_start_iff}

-- The thread is started before it comes to wait for it.
abbrev early : List Action
early = make_loop ∷ post_init ∷ wait_init ∷ start_thread ∷ []

abbrev early_thread : IoThread
early_thread = record {
  has_event_loop = true;
  init_sem = 0;
  start_sem = 1;
  stop_flag = false;
  run_point = waiting;
  is_created = true;
}

early_runs : run early new_io_thread ≡ some early_thread
unfolding run act make_loop_at post_init_at wait_init_from start_from
early_runs = refl

-- A thread that is stopped but was never started waits for ever, and its destructor with it.
stopped_unstarted :
    run (make_loop ∷ post_init ∷ wait_init ∷ stop_loop ∷ wait_start ∷ []) new_io_thread ≡ none
unfolding run act make_loop_at post_init_at wait_init_from wait_start_at stop_from
stopped_unstarted = refl

whole_life :
    run
      (make_loop ∷ post_init ∷ wait_init ∷ start_thread ∷ wait_start ∷ stop_loop ∷ end_loop ∷ [])
      new_io_thread
    ≡ some (record early_thread { start_sem = 0; stop_flag = true; run_point = ended })
unfolding run act make_loop_at post_init_at wait_init_from start_from wait_start_at stop_from
    end_loop_at
whole_life = refl

run-Ordered_example :
    (true ≡ true → true ≡ true)
    × (waiting ≡ looping → 1 ≤ starts early)
    × (join_returns waiting ≡ true → 1 ≤ starts early)
run-Ordered_example = run-Ordered early early_thread early_runs

wait_start_iff_example : (act wait_start early_thread ≢ none) ↔ (1 ≤ starts early)
wait_start_iff_example = wait_start_iff early early_thread early_runs refl
