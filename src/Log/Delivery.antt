-- ===== src/Log/Delivery.antt =====
-- tinyrpc/common/log.cc: a logger together with the thread that writes the library's lines. The
-- program, the timer and the thread take turns in any order.
pub mod InOrder
pub mod Flush
use my_tiny_rpc.Base.{
  ◌≡◌, refl, sym, subst, ap, ap₂, ◌∙◌, Bytes, Bool, true, false, List, [], ◌∷◌, ◌++◌, append-nil,
  append_assoc, flat, flat-append,
}
use my_tiny_rpc.Base.Outcome.{Outcome, done, ◌>>=◌}
use my_tiny_rpc.Log.Level.{LogLevel}
use my_tiny_rpc.Log.Logger.{Logger}
use my_tiny_rpc.Log.Logger.Pending.{LogStep, step, pending_lines, line_of, lines_of, step-Adds}
use my_tiny_rpc.Log.AsyncLogger.{AsyncLogger, Disk, append_to, log_batch}
use my_tiny_rpc.Log.AsyncLogger.Write.{Opened, log_batch-Opened, Journal, replay, texts}

-- The batches that wait for the thread are those in the logger's `queue`.
pub record Logging : Type 0 where
  pub logger : Logger
  pub thread : AsyncLogger
  pub disk : Disk

-- A step of the program or the timer, or one round of the thread's loop on a day.
pub data Turn : Type 0 where
  program : LogStep → Turn
  thread_round : Bytes → Turn

-- The text that a turn adds, and several.
abbrev pub turn_text : LogLevel → Turn → Bytes
turn_text level (program s) = flat (line_of level s)
turn_text level (thread_round today) = []

abbrev pub turns_text : LogLevel → List Turn → Bytes
turns_text level [] = []
turns_text level (t ∷ turns) = turn_text level t ++ turns_text level turns

module _ (can_open : Bytes → Bool) where
  -- One round of `Loop`: it waits where there is no batch, or takes the first one.
  unfoldable pub loop_round : Bytes → List (List Bytes) → Logging → Outcome Logging
  loop_round today [] y = done y
  loop_round today (batch ∷ rest) y =
      log_batch can_open today batch (record y.thread { batches = rest }) y.disk
      >>= λ (thread, disk). done (record {
        logger = record y.logger { queue = thread.batches };
        thread = thread;
        disk = disk;
      })

  unfoldable pub take_turn : Turn → Logging → Outcome Logging
  take_turn (program s) y = done (record y { logger = step s y.logger })
  take_turn (thread_round today) y = loop_round today y.logger.queue y

  unfoldable pub take_turns : List Turn → Logging → Outcome Logging
  take_turns [] y = done y
  take_turns (t ∷ turns) y = take_turn t y >>= λ y'. take_turns turns y'

-- The text that waits.
abbrev pub waiting : Logger → Bytes
waiting l = flat (pending_lines l)

abbrev pub journal_text : Journal → Bytes
journal_text journal = flat (texts journal)

-- What `y` and then `y'` have on the disk, and what comes from the program in between.
pub record Moved (y y' : Logging) (added : Bytes) : Type 0 where
  pub journal : Journal
  pub disk_eq : y'.disk ≡ replay journal y.disk
  pub text_eq : journal_text journal ++ waiting y'.logger ≡ waiting y.logger ++ added
  pub level_eq : y'.logger.set_level ≡ y.logger.set_level

replay-append :
    (xs ys : Journal) (disk : Disk) → replay (xs ++ ys) disk ≡ replay ys (replay xs disk)
replay-append [] ys disk = refl
replay-append ((name, text) ∷ xs) ys disk = replay-append xs ys (append_to disk name text)

texts-append : (xs ys : Journal) → texts (xs ++ ys) ≡ texts xs ++ texts ys
texts-append [] ys = refl
texts-append ((name, text) ∷ xs) ys = ap (λ x. text ∷ x) (texts-append xs ys)

journal_text-append :
    (xs ys : Journal) → journal_text (xs ++ ys) ≡ journal_text xs ++ journal_text ys
journal_text-append xs ys = ap flat (texts-append xs ys) ∙ flat-append (texts xs) (texts ys)

pub Moved-trans :
    (a b c : Logging) (xs ys : Bytes) → Moved a b xs → Moved b c ys → Moved a c (xs ++ ys)
Moved-trans a b c xs ys m n = record {
  journal = m.journal ++ n.journal;
  disk_eq =
      n.disk_eq ∙ ap (replay n.journal) m.disk_eq ∙ sym (replay-append m.journal n.journal a.disk);
  text_eq =
      ap (λ z. z ++ waiting c.logger) (journal_text-append m.journal n.journal)
      ∙ append_assoc (journal_text m.journal) (journal_text n.journal) (waiting c.logger)
      ∙ ap (λ z. journal_text m.journal ++ z) n.text_eq
      ∙ sym (append_assoc (journal_text m.journal) (waiting b.logger) ys)
      ∙ ap (λ z. z ++ ys) m.text_eq
      ∙ append_assoc (waiting a.logger) xs ys;
  level_eq = n.level_eq ∙ m.level_eq;
}

pub Moved-program :
    (s : LogStep) (y : Logging)
    → Moved y (record y { logger = step s y.logger }) (flat (line_of y.logger.set_level s))
Moved-program s y =
    let added = step-Adds s y.logger in
    record {
      journal = [];
      disk_eq = refl;
      text_eq =
          ap flat added.lines_eq
          ∙ flat-append (pending_lines y.logger) (line_of y.logger.set_level s);
      level_eq = added.level_eq;
    }
