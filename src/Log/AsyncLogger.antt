-- ===== src/Log/AsyncLogger.antt =====
-- tinyrpc/common/log.{h,cc}: `AsyncLogger`, whose thread writes the batches to files.
-- A disk gives each file's content by the file's name. `can_open` says whether `fopen` succeeds, and
-- `today` is what `strftime` writes at the time. A size is a number that is not negative.
pub mod Write
pub mod Roll
use my_tiny_rpc.Base.{
  ℕ, suc, Bytes, Bool, true, false, not, ◌||◌, Option, none, some, List, [], ◌∷◌, ◌++◌, flat, leb,
  if◌then◌else◌, length, codes, bytes_eq,
}
use my_tiny_rpc.Base.Outcome.{Outcome, done, fault, ◌>>=◌}
use my_tiny_rpc.Base.Decimal.{to_string}

-- `file` is the name of the open file; `none` is a handler that is NULL.
pub record AsyncLogger : Type 0 where
  pub batches : List (List Bytes)
  pub file_name : Bytes
  pub file_path : Bytes
  pub max_file_size : ℕ
  pub date : Bytes
  pub file : Option Bytes
  pub reopen_flag : Bool
  pub no : ℕ
  pub stop_flag : Bool

unfoldable pub new_async_logger : Bytes → Bytes → ℕ → AsyncLogger
new_async_logger file_name file_path max_file_size = record {
  batches = [];
  file_name = file_name;
  file_path = file_path;
  max_file_size = max_file_size;
  date = [];
  file = none;
  reopen_flag = false;
  no = 0;
  stop_flag = false;
}

abbrev pub Disk : Type 0
Disk = Bytes → Bytes

unfoldable pub log_file_name : AsyncLogger → ℕ → Bytes
log_file_name l number =
    l.file_path
    ++ l.file_name
    ++ codes "_"
    ++ l.date
    ++ codes "_"
    ++ to_string number
    ++ codes ".log"

-- A new day starts with the number 0.
unfoldable pub check_date : Bytes → AsyncLogger → AsyncLogger
check_date today l =
    if bytes_eq today l.date then l else record l { reopen_flag = true; date = today; no = 0 }

abbrev pub is_null : Option Bytes → Bool
is_null none = true
is_null (some name) = false

-- `fwrite` at the end of the file. A handler that is NULL is undefined behaviour.
abbrev pub append_to : Disk → Bytes → Bytes → Disk
append_to disk name text other = if bytes_eq other name then disk other ++ text else disk other

abbrev pub write_batch : Option Bytes → List Bytes → Disk → Outcome Disk
write_batch none batch disk = fault
write_batch (some name) batch disk = done (append_to disk name (flat batch))

module _ (can_open : Bytes → Bool) where
  abbrev pub fopen : Bytes → Option Bytes
  fopen name = if can_open name then some name else none

  -- The file is opened again where the day is new, or no file is open.
  unfoldable pub reopen : AsyncLogger → AsyncLogger
  reopen l =
      if l.reopen_flag || is_null l.file
      then record l { file = fopen (log_file_name l l.no); reopen_flag = false }
      else l

  -- `ftell` at the end of the open file, and the step to another file if it is too large. The name
  -- is made of the number before it goes up.
  abbrev pub roll_over : Option Bytes → Disk → AsyncLogger → Outcome AsyncLogger
  roll_over none disk l = fault
  roll_over (some name) disk l =
      if leb l.max_file_size (length (disk name))
      then done
          (record l { file = fopen (log_file_name l l.no); no = suc l.no; reopen_flag = false })
      else done l

  -- With the file that is open: the step to another one, and the batch.
  unfoldable pub write_opened :
      Option Bytes → List Bytes → AsyncLogger → Disk → Outcome (AsyncLogger × Disk)
  write_opened file batch l disk = roll_over file disk l >>= λ rolled.
      write_batch rolled.file batch disk >>= λ disk'. done (rolled, disk')

  -- What `Loop` does with the first batch.
  unfoldable pub log_batch : Bytes → List Bytes → AsyncLogger → Disk → Outcome (AsyncLogger × Disk)
  log_batch today batch l disk =
      let opened = reopen (check_date today l) in write_opened opened.file batch opened disk

  -- The loop over the batches that wait; it waits when there is none.
  unfoldable pub log_batches :
      Bytes → List (List Bytes) → AsyncLogger → Disk → Outcome (AsyncLogger × Disk)
  log_batches today [] l disk = done (record l { batches = [] }, disk)
  log_batches today (batch ∷ rest) l disk =
      log_batch today batch (record l { batches = rest }) disk >>= λ (l', disk').
      if l'.stop_flag then done (l', disk') else log_batches today rest l' disk'

  unfoldable pub log_loop : Bytes → AsyncLogger → Disk → Outcome (AsyncLogger × Disk)
  log_loop today l disk = log_batches today l.batches l disk

-- `AsyncLogger::stop`, which does not wake the thread.
unfoldable pub stop_logging : AsyncLogger → AsyncLogger
stop_logging l = record l { stop_flag = true }
