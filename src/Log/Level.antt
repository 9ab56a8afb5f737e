-- ===== src/Log/Level.antt =====
-- tinyrpc/common/log.{h,cc}: levels, and the text of a line.
-- What the program asks the system for, and what `snprintf` makes of the format, are arguments.
use my_tiny_rpc.Base.{
  ℕ, ◌/◌, Bytes, Bool, not, ◌&&◌, [], ◌∷◌, ◌++◌, leb, ◌==◌, if◌then◌else◌, codes, bytes_eq,
}
use my_tiny_rpc.Base.Decimal.{to_string}
use my_tiny_rpc.Rpc.Dispatcher.{RunTime}

pub data LogLevel : Type 0 where
  unknown : LogLevel
  debug : LogLevel
  info : LogLevel
  error : LogLevel

-- The value of the enumerator.
abbrev pub level_number : LogLevel → ℕ
level_number unknown = 0
level_number debug = 1
level_number info = 2
level_number error = 3

unfoldable pub log_level_to_string : LogLevel → Bytes
log_level_to_string debug = codes "DEBUG"
log_level_to_string info = codes "INFO"
log_level_to_string error = codes "ERROR"
log_level_to_string unknown = codes "UNKNOWN"

unfoldable pub string_to_log_level : Bytes → LogLevel
unfolding bytes_eq
string_to_log_level s =
    if bytes_eq s (codes "DEBUG")
    then debug
    else if bytes_eq s (codes "INFO")
    then info
    else if bytes_eq s (codes "ERROR")
    then error
    else unknown

-- The test of the macros for a line of a level.
unfoldable pub is_logged : LogLevel → LogLevel → Bool
is_logged set_level level =
    not (level_number set_level == 0) && leb (level_number set_level) (level_number level)

-- `time_text` is what `strftime` writes, `usec` the microseconds.
pub record Now : Type 0 where
  pub time_text : Bytes
  pub usec : ℕ
  pub pid : ℕ
  pub tid : ℕ

-- A part in brackets, with a tab behind it.
abbrev pub bracketed : Bytes → Bytes
bracketed s = codes "[" ++ s ++ codes "]\t"

abbrev pub unless_empty : Bytes → Bytes
unless_empty [] = []
unless_empty (c ∷ s) = bracketed (c ∷ s)

-- `LogEvent::toString`
unfoldable pub log_event_text : LogLevel → Now → RunTime → Bytes
log_event_text level now run_time =
    bracketed (log_level_to_string level)
    ++ bracketed (now.time_text ++ codes "." ++ to_string (now.usec / 1000))
    ++ bracketed (to_string now.pid ++ codes ":" ++ to_string now.tid)
    ++ unless_empty run_time.run_msgid
    ++ unless_empty run_time.run_method_name

-- The place and the text of a call of one of the macros.
pub record LogCall : Type 0 where
  pub level : LogLevel
  pub file : Bytes
  pub line : ℕ
  pub text : Bytes

-- The line that a macro makes. Each of them makes a `LogEvent` of the level DEBUG.
unfoldable pub log_line : Now → RunTime → LogCall → Bytes
log_line now run_time call =
    log_event_text debug now run_time
    ++ bracketed (call.file ++ codes ":" ++ to_string call.line)
    ++ call.text
    ++ codes "\n"
