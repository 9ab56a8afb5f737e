-- ===== src/Log/Delivery/Flush.antt =====
-- What waits is written, once the timer and then the thread have had their turns.
use my_tiny_rpc.Base.{
  ℕ, suc, zero, length, replicate, ◌≡◌, refl, sym, ap, ap₂, ◌∙◌, Bytes, Bool, true, false, List, [],
  ◌∷◌, ◌++◌, append-nil, flat,
}
use my_tiny_rpc.Base.Outcome.{done, ◌>>=◌}
use my_tiny_rpc.Log.Level.{LogLevel}
use my_tiny_rpc.Log.Logger.{Logger}
use my_tiny_rpc.Log.Logger.Pending.{step}
use my_tiny_rpc.Log.AsyncLogger.{append_to}
use my_tiny_rpc.Log.AsyncLogger.Write.{Journal, replay}
use my_tiny_rpc.Log.Delivery.{
  Logging, Turn, program, thread_round, turns_text, loop_round, take_turn, take_turns, waiting,
  journal_text,
}
use my_tiny_rpc.Log.Delivery.InOrder.{loop_round-Opened, lines_are_delivered}
use my_tiny_rpc.Base.Outcome.{done-injective}
use my_tiny_rpc.Log.Logger.Pending.{timer_step}
use my_tiny_rpc.Log.Logger.{push_log_buffer, async_loop}

-- The timer's turn, and then one round of the thread for each batch.
abbrev pub flush : Bytes → Logger → List Turn
flush today l =
    program timer_step ∷ replicate (length (push_log_buffer l.queue l.buffer)) (thread_round today)

rounds-add_nothing :
    (level : LogLevel) (n : ℕ) (today : Bytes)
    → turns_text level (replicate n (thread_round today)) ≡ []
rounds-add_nothing level zero today = refl
rounds-add_nothing level (suc n) today = rounds-add_nothing level n today

module _ (can_open : Bytes → Bool) (opens : (name : Bytes) → can_open name ≡ true)
    (today : Bytes) where
  rounds-drain :
      (queue : List (List Bytes)) (y : Logging)
      → y.logger.queue ≡ queue
      → y.logger.buffer ≡ []
      → y.thread.stop_flag ≡ false
      → (y' : Logging) × (take_turns can_open (replicate (length queue) (thread_round today)) y
          ≡ done y')
        × (waiting y'.logger ≡ [])
  unfolding take_turns take_turn
  rounds-drain [] y e empty running =
      (y, refl, ap₂ (λ queue buffer. flat (flat queue ++ buffer)) e empty)
  rounds-drain (batch ∷ rest) y e empty running =
      let (l', o, wrote) = loop_round-Opened can_open opens today batch rest y in
      let (y', later, none_left) =
        rounds-drain rest
          (record {
            logger = record y.logger { queue = l'.batches };
            thread = l';
            disk = append_to y.disk o.name (flat batch);
          })
          o.batches_eq empty (o.stop_eq ∙ running) in
      (
        y',
        ap
              (λ queue. loop_round can_open today queue y >>= λ y'.
                take_turns can_open (replicate (length rest) (thread_round today)) y')
              e
            ∙ rw (wrote) later,
        none_left,
      )

  flush-drains :
      (y : Logging)
      → y.thread.stop_flag ≡ false
      → (y' : Logging) × (take_turns can_open (flush today y.logger) y ≡ done y')
        × (waiting y'.logger ≡ [])
  unfolding take_turns take_turn step async_loop
  flush-drains y running =
      rounds-drain (push_log_buffer y.logger.queue y.logger.buffer)
        (record y { logger = async_loop y.logger }) refl refl running

  -- Nothing is left behind: where files can be opened, and the logger's thread is not stopped, the
  -- timer's turn and then one round of the thread for each batch write all text that waits, in
  -- order, and none waits any more.
  pub flush_writes_all :
      (y : Logging)
      → y.thread.stop_flag ≡ false
      → (y' : Logging) × (journal : Journal) × (take_turns can_open (flush today y.logger) y
          ≡ done y')
        × (y'.disk ≡ replay journal y.disk)
        × (journal_text journal ≡ waiting y.logger)
        × (waiting y'.logger ≡ [])
  flush_writes_all y running =
      let (y', goes, running', m) =
        lines_are_delivered can_open opens (flush today y.logger) y running in
      let none_left = flush-drains y running in
      let (z, drained, none_left) = flush-drains y running in
      let same : y' ≡ z = done-injective (sym goes ∙ drained) in
      let none_waits : waiting y'.logger ≡ [] =
        ap (λ (x : Logging). waiting x.logger) same ∙ none_left in
      (
        y',
        m.journal,
        goes,
        m.disk_eq,
        sym (append-nil (journal_text m.journal))
            ∙ ap (λ z. journal_text m.journal ++ z) (sym none_waits)
            ∙ m.text_eq
            ∙ ap (λ z. waiting y.logger ++ z)
                (rounds-add_nothing y.logger.set_level
                  (length (push_log_buffer y.logger.queue y.logger.buffer)) today)
            ∙ append-nil (waiting y.logger),
        none_waits,
      )
