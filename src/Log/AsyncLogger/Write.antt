-- ===== src/Log/AsyncLogger/Write.antt =====
-- What the thread of an asynchronous logger writes, and into which file.
use my_tiny_rpc.Base.{
  flat, ◌≡◌, refl, ap, ◌∙◌, Bytes, Bool, true, false, ◌||◌, Option, none, some, List, [], ◌∷◌, map,
  leb, if◌then◌else◌, if_intro, length, bytes_eq,
}
use my_tiny_rpc.Base.Outcome.{done, ◌>>=◌}
use my_tiny_rpc.Log.AsyncLogger.{
  AsyncLogger, Disk, log_file_name, check_date, is_null, append_to, write_batch, fopen, reopen,
  roll_over, write_opened, log_batch, log_batches, log_loop,
}

-- `l'` has a file open, and has kept what the loop over the batches reads.
pub record Opened (l l' : AsyncLogger) : Type 0 where
  pub name : Bytes
  pub file_eq : l'.file ≡ some name
  pub batches_eq : l'.batches ≡ l.batches
  pub stop_eq : l'.stop_flag ≡ l.stop_flag

Opened-trans :
    (a b c : AsyncLogger)
    → (b.batches ≡ a.batches)
    → (b.stop_flag ≡ a.stop_flag)
    → Opened b c
    → Opened a c
Opened-trans a b c same stop o = record {
  name = o.name;
  file_eq = o.file_eq;
  batches_eq = o.batches_eq ∙ same;
  stop_eq = o.stop_eq ∙ stop;
}

open_file :
    (flag : Bool) (o : Option Bytes)
    → (flag || is_null o) ≡ false
    → (name : Bytes) × (o ≡ some name)
open_file true o e = absurd (cc e)
open_file false none e = absurd (cc e)
open_file false (some name) e = (name, refl)

-- A file name and what is written to it, one after the other.
abbrev pub Journal : Type 0
Journal = List (Bytes × Bytes)

abbrev pub replay : Journal → Disk → Disk
replay [] disk = disk
replay ((name, text) ∷ rest) disk = replay rest (append_to disk name text)

abbrev pub texts : Journal → List Bytes
texts [] = []
texts ((name, text) ∷ rest) = text ∷ texts rest

module _ (can_open : Bytes → Bool) (opens : (name : Bytes) → can_open name ≡ true) where
  pub fopen-some : (name : Bytes) → fopen can_open name ≡ some name
  fopen-some name = ap (λ b. if b then some name else none) (opens name)

  reopen-Opened : (l : AsyncLogger) → Opened l (reopen can_open l)
  unfolding reopen
  reopen-Opened l =
      if_intro (Opened l) (l.reopen_flag || is_null l.file) _ _
        (λ again. record {
          name = log_file_name l l.no;
          file_eq = fopen-some (log_file_name l l.no);
          batches_eq = refl;
          stop_eq = refl;
        })
        (λ keep.
          let (name, e) = open_file l.reopen_flag l.file keep in
          record { name = name; file_eq = e; batches_eq = refl; stop_eq = refl })

  check_date-keeps :
      (today : Bytes) (l : AsyncLogger)
      → ((check_date today l).batches ≡ l.batches) × ((check_date today l).stop_flag ≡ l.stop_flag)
  unfolding check_date
  check_date-keeps today l =
      if_intro (λ (l' : AsyncLogger). (l'.batches ≡ l.batches) × (l'.stop_flag ≡ l.stop_flag))
        (bytes_eq today l.date) _ _ (λ same. (refl, refl)) (λ new. (refl, refl))

  roll_over-Opened :
      (disk : Disk) (l : AsyncLogger) (name : Bytes)
      → l.file ≡ some name
      → (l' : AsyncLogger) × (roll_over can_open (some name) disk l ≡ done l') × Opened l l'
  roll_over-Opened disk l name e =
      if_intro (λ o. (l' : AsyncLogger) × (o ≡ done l') × Opened l l')
        (leb l.max_file_size (length (disk name))) _ _
        (λ large. (
          _,
          refl,
          record {
            name = log_file_name l l.no;
            file_eq = fopen-some (log_file_name l l.no);
            batches_eq = refl;
            stop_eq = refl;
          },
        ))
        (λ small. (l, refl, record { name = name; file_eq = e; batches_eq = refl; stop_eq = refl }))

  write_opened-Opened :
      (batch : List Bytes) (l : AsyncLogger) (disk : Disk) (name : Bytes)
      → l.file ≡ some name
      → (l' : AsyncLogger) × (o : Opened l l') × (write_opened can_open l.file batch l disk
          ≡ done (l', append_to disk o.name (flat batch)))
  unfolding write_opened
  write_opened-Opened batch l disk name e =
      let (l', rolled, o) = roll_over-Opened disk l name e in
      (
        l',
        o,
        ap (λ file. write_opened can_open file batch l disk) e
            ∙ ap
                (λ r. r >>= λ rolled.
                  write_batch rolled.file batch disk >>= λ disk'. done (rolled, disk'))
                rolled
            ∙ ap (λ file. write_batch file batch disk >>= λ disk'. done (l', disk')) o.file_eq,
      )

  -- A batch goes to one file, as a whole.
  pub log_batch-Opened :
      (today : Bytes) (batch : List Bytes) (l : AsyncLogger) (disk : Disk)
      → (l' : AsyncLogger) × (o : Opened l l') × (log_batch can_open today batch l disk
          ≡ done (l', append_to disk o.name (flat batch)))
  unfolding log_batch Opened-trans
  log_batch-Opened today batch l disk =
      let dated = check_date today l in
      let kept = check_date-keeps today l in
      let opened = reopen-Opened dated in
      let (l', o, wrote) =
        write_opened-Opened batch (reopen can_open dated) disk opened.name opened.file_eq in
      (
        l',
        Opened-trans l dated l' kept.0 kept.1
            (Opened-trans dated (reopen can_open dated) l' opened.batches_eq opened.stop_eq o),
        wrote,
      )

  log_batches-writes :
      (today : Bytes) (batches : List (List Bytes)) (l : AsyncLogger) (disk : Disk)
      → l.stop_flag ≡ false
      → (l' : AsyncLogger) × (journal : Journal) × (log_batches can_open today batches l disk
          ≡ done (l', replay journal disk))
        × (texts journal ≡ map flat batches)
        × (l'.batches ≡ [])
  unfolding log_batches
  log_batches-writes today [] l disk e = (record l { batches = [] }, [], refl, refl, refl)
  log_batches-writes today (batch ∷ rest) l disk e =
      let (l', o, first) = log_batch-Opened today batch (record l { batches = rest }) disk in
      let (l'', journal, later, written, empty) =
        log_batches-writes today rest l' (append_to disk o.name (flat batch)) (o.stop_eq ∙ e) in
      (
        l'',
        (o.name, flat batch) ∷ journal,
        rw (first, o.stop_eq ∙ e) later,
        ap (λ x. flat batch ∷ x) written,
        empty,
      )

  -- The batches are written in order: where files can be opened, and the logger is not stopped, the
  -- thread's loop appends each batch that waits, as a whole, to some file, one after the other, and
  -- then waits with none left.
  pub log_loop_writes :
      (today : Bytes) (l : AsyncLogger) (disk : Disk)
      → l.stop_flag ≡ false
      → (l' : AsyncLogger) × (journal : Journal) × (log_loop can_open today l disk
          ≡ done (l', replay journal disk))
        × (texts journal ≡ map flat l.batches)
        × (l'.batches ≡ [])
  unfolding log_loop
  log_loop_writes today l disk e = log_batches-writes today l.batches l disk e
