-- ===== src/IoThreadPool/Tests.antt =====
-- Three threads in turn, a pool without a thread, and the theorem at a pool.
use my_tiny_rpc.Base.{◌≡◌, refl, true, false, [], ◌∷◌}
use my_tiny_rpc.Base.Outcome.{fault}
use my_tiny_rpc.IoThread.{waiting, IoThread}
use my_tiny_rpc.IoThreadPool.{new_io_thread_pool, get_io_thread}
use my_tiny_rpc.IoThreadPool.Rotation.{turns}

abbrev created : IoThread
created = record {
  has_event_loop = true;
  init_sem = 0;
  start_sem = 0;
  stop_flag = false;
  run_point = waiting;
  is_created = true;
}

five_turns : turns 3 5 0 ≡ 0 ∷ 1 ∷ 2 ∷ 0 ∷ 1 ∷ []
five_turns = refl

-- `m_io_threads` of the default configuration is 0.
no_thread : get_io_thread (new_io_thread_pool created 0) ≡ fault
unfolding get_io_thread new_io_thread_pool
no_thread = refl
