-- ===== src/Log/Delivery/InOrder.antt =====
-- What the program logs comes to the files in order, whoever takes which turn.
use my_tiny_rpc.Base.{
  ◌≡◌, refl, sym, subst, ap, ◌∙◌, Bytes, Bool, true, false, List, [], ◌∷◌, ◌++◌, append-nil,
  append_assoc, flat, flat-append,
}
use my_tiny_rpc.Base.Outcome.{Outcome, done, ◌>>=◌}
use my_tiny_rpc.Log.Logger.Pending.{step}
use my_tiny_rpc.Log.AsyncLogger.{AsyncLogger, append_to}
use my_tiny_rpc.Log.AsyncLogger.Write.{Opened, log_batch-Opened}
use my_tiny_rpc.Log.Delivery.{
  Logging, Turn, program, thread_round, turn_text, turns_text, loop_round, take_turn, take_turns,
  waiting, Moved, Moved-trans, Moved-program,
}

-- A batch that the thread writes is the first of the text that waits.
text-first :
    (batch : List Bytes) (rest : List (List Bytes)) (buffer : List Bytes)
    → (flat batch ++ []) ++ flat (flat rest ++ buffer) ≡ flat (flat (batch ∷ rest) ++ buffer)
text-first batch rest buffer =
    ap (λ z. z ++ flat (flat rest ++ buffer)) (append-nil (flat batch))
    ∙ sym (flat-append batch (flat rest ++ buffer))
    ∙ ap flat (sym (append_assoc batch (flat rest) buffer))

-- A turn goes through, and the thread is not stopped by it.
abbrev pub Goes : Logging → Outcome Logging → Bytes → Type 0
Goes y o added = (y' : Logging) × (o ≡ done y') × (y'.thread.stop_flag ≡ false) × Moved y y' added

module _ (can_open : Bytes → Bool) (opens : (name : Bytes) → can_open name ≡ true) where
  -- A round writes the first batch, and the others still wait.
  pub loop_round-Opened :
      (today : Bytes) (batch : List Bytes) (rest : List (List Bytes)) (y : Logging)
      → (l' : AsyncLogger) × (o : Opened (record y.thread { batches = rest }) l') × (loop_round
            can_open today
            (batch ∷ rest)
            y
          ≡ done (record {
            logger = record y.logger { queue = l'.batches };
            thread = l';
            disk = append_to y.disk o.name (flat batch);
          }))
  unfolding loop_round
  loop_round-Opened today batch rest y =
      let (l', o, wrote) =
        log_batch-Opened can_open opens today batch (record y.thread { batches = rest }) y.disk in
      (
        l',
        o,
        ap
            (λ r. r >>= λ (thread, disk). done (record {
              logger = record y.logger { queue = thread.batches };
              thread = thread;
              disk = disk;
            }))
            wrote,
      )

  loop_round-Goes :
      (today : Bytes) (queue : List (List Bytes)) (y : Logging)
      → y.logger.queue ≡ queue
      → y.thread.stop_flag ≡ false
      → Goes y (loop_round can_open today queue y) []
  unfolding loop_round
  loop_round-Goes today [] y e running = (
    y,
    refl,
    running,
    record {
      journal = [];
      disk_eq = refl;
      text_eq = sym (append-nil (waiting y.logger));
      level_eq = refl;
    },
  )
  loop_round-Goes today (batch ∷ rest) y e running =
      let (l', o, wrote) = loop_round-Opened today batch rest y in
      (
        _,
        wrote,
        o.stop_eq ∙ running,
        record {
          journal = (o.name, flat batch) ∷ [];
          disk_eq = refl;
          text_eq =
              ap (λ batches. (flat batch ++ []) ++ flat (flat batches ++ y.logger.buffer))
                o.batches_eq
              ∙ text-first batch rest y.logger.buffer
              ∙ ap (λ queue. flat (flat queue ++ y.logger.buffer)) (sym e)
              ∙ sym (append-nil (waiting y.logger));
          level_eq = refl;
        },
      )

  take_turn-Goes :
      (t : Turn) (y : Logging)
      → y.thread.stop_flag ≡ false
      → Goes y (take_turn can_open t y) (turn_text y.logger.set_level t)
  unfolding take_turn
  take_turn-Goes (program s) y running =
      (record y { logger = step s y.logger }, refl, running, Moved-program s y)
  take_turn-Goes (thread_round today) y running =
      loop_round-Goes today y.logger.queue y refl running

  -- Every line reaches the disk in order: where files can be opened, and the logger's thread is not
  -- stopped, all turns of program, timer and thread, in any order, go through; the thread has
  -- appended to its files, in order, what waited before and the lines that pass the level, but for
  -- what still waits, which comes last.
  pub lines_are_delivered :
      (turns : List Turn) (y : Logging)
      → y.thread.stop_flag ≡ false
      → Goes y (take_turns can_open turns y) (turns_text y.logger.set_level turns)
  unfolding take_turns
  lines_are_delivered [] y running = (
    y,
    refl,
    running,
    record {
      journal = [];
      disk_eq = refl;
      text_eq = sym (append-nil (waiting y.logger));
      level_eq = refl;
    },
  )
  lines_are_delivered (t ∷ turns) y running =
      let (y', first, running', m) = take_turn-Goes t y running in
      let (y'', later, running'', n) = lines_are_delivered turns y' running' in
      (
        y'',
        rw (first) later,
        running'',
        Moved-trans y y' y'' (turn_text y.logger.set_level t) (turns_text y.logger.set_level turns)
            m (subst (λ level. Moved y' y'' (turns_text level turns)) m.level_eq n),
      )
