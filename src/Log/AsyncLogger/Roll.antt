-- ===== src/Log/AsyncLogger/Roll.antt =====
-- The first step to another file leads to the same one.
use my_tiny_rpc.Base.{
  flat, suc, ◌≤◌, ◌≡◌, refl, ap, ap₂, ◌∙◌, Bytes, Bool, true, false, ◌||◌, some, List,
  if◌then◌else◌, length, bytes_eq_iff, le→leb,
}
use my_tiny_rpc.Base.Outcome.{done, ◌>>=◌}
use my_tiny_rpc.Log.AsyncLogger.{
  AsyncLogger, Disk, log_file_name, check_date, is_null, append_to, write_batch, fopen, reopen,
  write_opened, log_batch,
}
use my_tiny_rpc.Log.AsyncLogger.Write.{fopen-some}

module _ (can_open : Bytes → Bool) (opens : (name : Bytes) → can_open name ≡ true) where
  same_date : (l : AsyncLogger) → check_date l.date l ≡ l
  unfolding check_date
  same_date l =
      ap (λ b. if b then l else record l { reopen_flag = true; no = 0 })
        ((bytes_eq_iff l.date l.date).1 refl)

  stays_open :
      (l : AsyncLogger) {name : Bytes}
      → l.file ≡ some name
      → l.reopen_flag ≡ false
      → reopen can_open l ≡ l
  unfolding reopen
  stays_open l e keep =
      ap₂
        (λ flag o.
          if flag || is_null o
          then record l { file = fopen can_open (log_file_name l l.no); reopen_flag = false }
          else l)
        keep e

  write_opened-same :
      (batch : List Bytes) (l : AsyncLogger) (disk : Disk) (name : Bytes)
      → log_file_name l l.no ≡ name
      → l.max_file_size ≤ length (disk name)
      → write_opened can_open (some name) batch l disk
        ≡ done (
          record l {
            file = fopen can_open (log_file_name l l.no);
            no = suc l.no;
            reopen_flag = false;
          },
          append_to disk name (flat batch),
        )
  unfolding write_opened
  write_opened-same batch l disk name same large =
      let rolled = record l {
        file = fopen can_open (log_file_name l l.no);
        no = suc l.no;
        reopen_flag = false;
      } in
      ap
        (λ b. (if b then done rolled else done l) >>= λ (l' : AsyncLogger).
          write_batch l'.file batch disk >>= λ disk'. done (l', disk'))
        (le→leb l.max_file_size (length (disk name)) large)
      ∙ ap (λ file. write_batch file batch disk >>= λ disk'. done (rolled, disk'))
          (fopen-some can_open opens (log_file_name l l.no) ∙ ap some same)

  -- The first step to another file opens the same one: when the first file of the day is too large,
  -- the next batch is appended to it all the same.
  pub log_batch_rolls_to_same :
      (batch : List Bytes) (l : AsyncLogger) (disk : Disk)
      → l.no ≡ 0
      → l.file ≡ some (log_file_name l 0)
      → l.reopen_flag ≡ false
      → l.max_file_size ≤ length (disk (log_file_name l 0))
      → (l' : AsyncLogger) × (log_batch can_open l.date batch l disk
          ≡ done (l', append_to disk (log_file_name l 0) (flat batch)))
        × (l'.no ≡ 1)
  unfolding log_batch
  log_batch_rolls_to_same batch l disk first open_eq keep large = (
    record l { file = fopen can_open (log_file_name l l.no); no = suc l.no; reopen_flag = false },
    ap
          (λ (x : AsyncLogger).
            write_opened can_open (reopen can_open x).file batch (reopen can_open x) disk)
          (same_date l)
        ∙ ap (λ (x : AsyncLogger). write_opened can_open x.file batch x disk)
            (stays_open l open_eq keep)
        ∙ ap (λ file. write_opened can_open file batch l disk) open_eq
        ∙ write_opened-same batch l disk (log_file_name l 0) (ap (log_file_name l) first) large,
    ap suc first,
  )
