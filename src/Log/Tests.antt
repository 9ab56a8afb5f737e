-- ===== src/Log/Tests.antt =====
-- Lines, loggers and files, and the theorems at some of them.
use my_tiny_rpc.Base.{
  ◌≡◌, refl, Bytes, Bool, true, false, some, List, [], ◌∷◌, ◌++◌, codes, bytes_eq,
}
use my_tiny_rpc.Base.Outcome.{done}
use my_tiny_rpc.Base.Decimal.{to_string, digits}
use my_tiny_rpc.Rpc.Dispatcher.{RunTime}
use my_tiny_rpc.Log.Level.{
  LogLevel, debug, info, error, log_level_to_string, string_to_log_level, is_logged, Now,
  log_event_text, LogCall, log_line,
}
use my_tiny_rpc.Log.Logger.{new_logger}
use my_tiny_rpc.Log.Logger.Pending.{
  LogStep, log_step, app_step, timer_step, steps, pending_lines, pending_app_lines,
  steps_keep_lines,
}
use my_tiny_rpc.Log.AsyncLogger.{AsyncLogger, new_async_logger, Disk}
use my_tiny_rpc.Log.AsyncLogger.Write.{Journal, replay}
use my_tiny_rpc.Log.Delivery.{
  Logging, Turn, program, thread_round, take_turns, waiting, journal_text,
}
use my_tiny_rpc.Log.Delivery.InOrder.{Goes, lines_are_delivered}
use my_tiny_rpc.Log.Delivery.Flush.{flush, flush_writes_all}

abbrev now : Now
now = record { time_text = codes "24-05-06 07:08:09"; usec = 5000; pid = 17; tid = 18 }

abbrev no_request : RunTime
no_request = record { run_msgid = []; run_method_name = [] }

abbrev failed : LogCall
failed = record { level = error; file = codes "a.cc"; line = 7; text = codes "failed" }

-- A line of ERRORLOG. It says DEBUG, and five milliseconds are written like half a second.
error_line :
    log_line now no_request failed
    ≡ codes "[DEBUG]\t[24-05-06 07:08:09.5]\t[17:18]\t[a.cc:7]\tfailed\n"
unfolding log_line log_event_text log_level_to_string to_string digits
error_line = refl

level_of_name : (l : LogLevel) → string_to_log_level (log_level_to_string l) ≡ l
unfolding string_to_log_level log_level_to_string bytes_eq
level_of_name LogLevel.unknown = refl
level_of_name debug = refl
level_of_name info = refl
level_of_name error = refl

abbrev log_steps : List LogStep
log_steps =
    log_step now no_request failed
    ∷ log_step now no_request (record failed { level = debug })
    ∷ timer_step
    ∷ app_step now no_request failed
    ∷ []

steps_keep_lines_example :
    (pending_lines (steps log_steps (new_logger info 1)) ≡ log_line now no_request failed ∷ [])
    × (pending_app_lines (steps log_steps (new_logger info 1))
        ≡ log_line now no_request failed ∷ [])
unfolding new_logger is_logged
steps_keep_lines_example = steps_keep_lines log_steps (new_logger info 1)

abbrev any_file : Bytes → Bool
any_file name = true

abbrev empty_disk : Disk
empty_disk name = []

abbrev logger : AsyncLogger
logger = record (new_async_logger (codes "rpc") (codes "/tmp/") 4) {
  batches = (codes "one" ∷ codes "two" ∷ []) ∷ (codes "three" ∷ []) ∷ [];
}

abbrev full_disk : Disk
full_disk name = codes "onetwo"

abbrev later : AsyncLogger
later = record {
  batches = [];
  file_name = codes "rpc";
  file_path = codes "/tmp/";
  max_file_size = 4;
  date = codes "20240506";
  file = some (codes "/tmp/rpc_20240506_0.log");
  reopen_flag = false;
  no = 0;
  stop_flag = false;
}

-- The program logs, and the thread has a round before and after the timer has one.
abbrev turns : List Turn
turns =
    program (log_step now no_request failed)
    ∷ thread_round (codes "20240506")
    ∷ program timer_step
    ∷ thread_round (codes "20240507")
    ∷ program (log_step now no_request failed)
    ∷ []

abbrev busy : Logging
busy = record {
  logger = record (new_logger info 1) {
    queue = (codes "one" ∷ codes "two" ∷ []) ∷ [];
    buffer = codes "three" ∷ [];
  };
  thread = new_async_logger (codes "rpc") (codes "/tmp/") 4;
  disk = empty_disk;
}

lines_are_delivered_example :
    Goes busy
      (take_turns any_file turns busy)
      (log_line now no_request failed ++ log_line now no_request failed)
unfolding new_async_logger new_logger is_logged log_line log_event_text log_level_to_string
    to_string digits
lines_are_delivered_example = lines_are_delivered any_file (λ name. refl) turns busy refl

flush_writes_all_example :
    (y' : Logging) × (journal : Journal) × (take_turns any_file
        (flush (codes "20240506") busy.logger)
        busy
      ≡ done y')
    × (y'.disk ≡ replay journal empty_disk)
    × (journal_text journal ≡ codes "onetwothree")
    × (waiting y'.logger ≡ [])
unfolding new_async_logger new_logger
flush_writes_all_example = flush_writes_all any_file (λ name. refl) (codes "20240506") busy refl
