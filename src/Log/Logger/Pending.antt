-- ===== src/Log/Logger/Pending.antt =====
-- The lines of a logger reach its asynchronous loggers in order, and none is lost.
use my_tiny_rpc.Base.{
  Bytes, ◌≡◌, refl, sym, ap, ap₂, ◌∙◌, Bool, true, false, List, [], ◌∷◌, ◌++◌, append-nil, flat,
  flat-append, append_assoc, if◌then◌else◌,
}
use my_tiny_rpc.Rpc.Dispatcher.{RunTime}
use my_tiny_rpc.Log.Level.{LogLevel, is_logged, Now, LogCall, log_line}
use my_tiny_rpc.Log.Logger.{
  Logger, push_log, push_app_log, push_log_buffer, async_loop, log, app_log,
}

-- What the program does with its logger: a macro of the library, one of the application, or a round
-- of the timer.
pub data LogStep : Type 0 where
  log_step : Now → RunTime → LogCall → LogStep
  app_step : Now → RunTime → LogCall → LogStep
  timer_step : LogStep

unfoldable pub step : LogStep → Logger → Logger
step (log_step now run_time call) l = log now run_time call l
step (app_step now run_time call) l = app_log now run_time call l
step timer_step l = async_loop l

unfoldable pub steps : List LogStep → Logger → Logger
steps [] l = l
steps (s ∷ rest) l = steps rest (step s l)

-- The lines that are on their way to the two files, the oldest first.
abbrev pub pending_lines : Logger → List Bytes
pending_lines l = flat l.queue ++ l.buffer

abbrev pub pending_app_lines : Logger → List Bytes
pending_app_lines l = flat l.app_queue ++ l.app_buffer

abbrev if_logged : Bool → Bytes → List Bytes
if_logged true line = line ∷ []
if_logged false line = []

-- The line that a step adds for the library's file, and the one for the application's.
abbrev pub line_of : LogLevel → LogStep → List Bytes
line_of level (log_step now run_time call) =
    if_logged (is_logged level call.level) (log_line now run_time call)
line_of level (app_step now run_time call) = []
line_of level timer_step = []

abbrev pub app_line_of : LogLevel → LogStep → List Bytes
app_line_of level (log_step now run_time call) = []
app_line_of level (app_step now run_time call) =
    if_logged (is_logged level call.level) (log_line now run_time call)
app_line_of level timer_step = []

abbrev pub lines_of : (LogStep → List Bytes) → List LogStep → List Bytes
lines_of f [] = []
lines_of f (s ∷ rest) = f s ++ lines_of f rest

flat-push_log_buffer :
    (queue : List (List Bytes)) (buffer : List Bytes)
    → flat (push_log_buffer queue buffer) ++ [] ≡ flat queue ++ buffer
flat-push_log_buffer queue [] = refl
flat-push_log_buffer queue (msg ∷ msgs) =
    append-nil (flat (queue ++ (msg ∷ msgs) ∷ []))
    ∙ flat-append queue ((msg ∷ msgs) ∷ [])
    ∙ ap (λ z. flat queue ++ z) (append-nil (msg ∷ msgs))

-- A logger, and the lines that come to it.
pub record Adds (l l' : Logger) (lines app_lines : List Bytes) : Type 0 where
  pub lines_eq : pending_lines l' ≡ pending_lines l ++ lines
  pub app_lines_eq : pending_app_lines l' ≡ pending_app_lines l ++ app_lines
  pub level_eq : l'.set_level ≡ l.set_level

log-Adds :
    (c : Bool) (line : Bytes) (l : Logger)
    → Adds l (if c then push_log line l else l) (if_logged c line) []
unfolding push_log
log-Adds true line l = record {
  lines_eq = sym (append_assoc (flat l.queue) l.buffer (line ∷ []));
  app_lines_eq = sym (append-nil (pending_app_lines l));
  level_eq = refl;
}
log-Adds false line l = record {
  lines_eq = sym (append-nil (pending_lines l));
  app_lines_eq = sym (append-nil (pending_app_lines l));
  level_eq = refl;
}

app_log-Adds :
    (c : Bool) (line : Bytes) (l : Logger)
    → Adds l (if c then push_app_log line l else l) [] (if_logged c line)
unfolding push_app_log
app_log-Adds true line l = record {
  lines_eq = sym (append-nil (pending_lines l));
  app_lines_eq = sym (append_assoc (flat l.app_queue) l.app_buffer (line ∷ []));
  level_eq = refl;
}
app_log-Adds false line l = record {
  lines_eq = sym (append-nil (pending_lines l));
  app_lines_eq = sym (append-nil (pending_app_lines l));
  level_eq = refl;
}

pub step-Adds :
    (s : LogStep) (l : Logger)
    → Adds l (step s l) (line_of l.set_level s) (app_line_of l.set_level s)
unfolding step log app_log async_loop
step-Adds (log_step now run_time call) l =
    log-Adds (is_logged l.set_level call.level) (log_line now run_time call) l
step-Adds (app_step now run_time call) l =
    app_log-Adds (is_logged l.set_level call.level) (log_line now run_time call) l
step-Adds timer_step l = record {
  lines_eq = flat-push_log_buffer l.queue l.buffer ∙ sym (append-nil (pending_lines l));
  app_lines_eq =
      flat-push_log_buffer l.app_queue l.app_buffer ∙ sym (append-nil (pending_app_lines l));
  level_eq = refl;
}

-- No line is lost, and none is out of order: whatever the program does with its logger, in whatever
-- order with the timer's rounds, the lines on their way to each of the two files are those from
-- before and behind them the lines that pass the level.
pub steps_keep_lines :
    (rest : List LogStep) (l : Logger)
    → (pending_lines (steps rest l) ≡ pending_lines l ++ lines_of (line_of l.set_level) rest)
      × (pending_app_lines (steps rest l)
          ≡ pending_app_lines l ++ lines_of (app_line_of l.set_level) rest)
unfolding steps
steps_keep_lines [] l = (sym (append-nil (pending_lines l)), sym (append-nil (pending_app_lines l)))
steps_keep_lines (s ∷ rest) l =
    let first = step-Adds s l in
    let later = steps_keep_lines rest (step s l) in
    (
      later.0
          ∙ ap₂ (λ x level. x ++ lines_of (line_of level) rest) first.lines_eq first.level_eq
          ∙ append_assoc (pending_lines l) (line_of l.set_level s)
              (lines_of (line_of l.set_level) rest),
      later.1
          ∙ ap₂ (λ x level. x ++ lines_of (app_line_of level) rest) first.app_lines_eq
              first.level_eq
          ∙ append_assoc (pending_app_lines l) (app_line_of l.set_level s)
              (lines_of (app_line_of l.set_level) rest),
    )
