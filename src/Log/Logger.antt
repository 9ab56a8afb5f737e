-- ===== src/Log/Logger.antt =====
-- tinyrpc/common/log.{h,cc}: `Logger`, its two buffers, and the macros that fill them.
-- The queues of the two `AsyncLogger`s are part of the state; the mutexes are left out, since each
-- operation is one step.
pub mod Pending
use my_tiny_rpc.Base.{ℕ, Bytes, Bool, true, false, List, [], ◌∷◌, ◌++◌, ◌==◌, if◌then◌else◌}
use my_tiny_rpc.Rpc.Dispatcher.{RunTime}
use my_tiny_rpc.Log.Level.{LogLevel, is_logged, Now, LogCall, log_line}

-- `queue` and `app_queue` are the `m_buffer`s of the two asynchronous loggers, `printed` what has
-- been given to `printf`.
pub record Logger : Type 0 where
  pub set_level : LogLevel
  pub logger_type : ℕ
  pub buffer : List Bytes
  pub app_buffer : List Bytes
  pub queue : List (List Bytes)
  pub app_queue : List (List Bytes)
  pub printed : List Bytes

unfoldable pub new_logger : LogLevel → ℕ → Logger
new_logger level logger_type = record {
  set_level = level;
  logger_type = logger_type;
  buffer = [];
  app_buffer = [];
  queue = [];
  app_queue = [];
  printed = [];
}

unfoldable pub push_log : Bytes → Logger → Logger
push_log msg l = record l {
  printed = if l.logger_type == 0 then l.printed ++ msg ∷ [] else l.printed;
  buffer = l.buffer ++ msg ∷ [];
}

unfoldable pub push_app_log : Bytes → Logger → Logger
push_app_log msg l = record l { app_buffer = l.app_buffer ++ msg ∷ [] }

-- `pushLogBuffer`, where there is something to push.
abbrev pub push_log_buffer : List (List Bytes) → List Bytes → List (List Bytes)
push_log_buffer queue [] = queue
push_log_buffer queue (msg ∷ msgs) = queue ++ (msg ∷ msgs) ∷ []

-- `asyncLoop`
unfoldable pub async_loop : Logger → Logger
async_loop l = record l {
  buffer = [];
  app_buffer = [];
  queue = push_log_buffer l.queue l.buffer;
  app_queue = push_log_buffer l.app_queue l.app_buffer;
}

-- DEBUGLOG, INFOLOG and ERRORLOG, and the three macros of the application.
unfoldable pub log : Now → RunTime → LogCall → Logger → Logger
log now run_time call l =
    if is_logged l.set_level call.level then push_log (log_line now run_time call) l else l

unfoldable pub app_log : Now → RunTime → LogCall → Logger → Logger
app_log now run_time call l =
    if is_logged l.set_level call.level then push_app_log (log_line now run_time call) l else l
