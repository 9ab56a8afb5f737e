-- ===== src/Deadline/Once.antt =====
-- A call is over after its deadline, whatever comes when, and stays so.
use my_tiny_rpc.Base.{ℕ, ◌+◌, ◌≤◌, ◌≡◌, ◌⊎◌, inl, inr, Bytes, false, Option}
use my_tiny_rpc.Timer.Entries.{Absent}
use my_tiny_rpc.Timer.Kept.{Kept}
use my_tiny_rpc.Rpc.Channel.{RpcChannel}
use my_tiny_rpc.Deadline.{TimedCall, timer_round, start_timed, TimedSteps}
use my_tiny_rpc.Deadline.Round.{waits}
use my_tiny_rpc.Deadline.Callbacks.{IsTimedOut, IsReplied, IsFailing, IsAnswered}
use my_tiny_rpc.Deadline.Standing.{
  IsReplied-IsKept, IsAnswered-IsKept, IsTimedOut-IsKept, steps-Rest,
}
use my_tiny_rpc.Deadline.Over.{CanBegin, overdue_call}

-- How a call ended at some time, and what has become of it later.
abbrev pub Ended :
    {Addr Response : Type 0} → ℕ → RpcChannel Addr Response → RpcChannel Addr Response → Type 0
Ended runs at_end later =
    (IsReplied runs at_end × IsReplied runs later)
    ⊎ ((IsFailing runs at_end × IsAnswered runs later)
        ⊎ (IsTimedOut runs at_end × IsTimedOut runs later))

-- A call does not wait for ever, and ends once: after the first call of a channel with a closure has
-- started, whose event counts as not cancelled, let its callbacks, rounds of the timer and what others
-- do with the timer come in any order in which no callback runs that has let go of its channel. After
-- a round at or after the time of the start plus the timeout, whatever such steps follow, the timer
-- does not run the event any more, and one of three holds. The response was taken: the closure has run
-- just once more, and never runs again. Or a response came that could not be parsed or carries an
-- error: the controller is marked as failed, and the closure has not run; it still runs, once, if a
-- response that is fine follows. Or the call is timed out: the controller says that it was cancelled
-- and failed, and the closure has run just once more, and never runs again.
pub call_ends_once :
    {Addr Response : Type 0} (parse_from_string : Bytes → Option Response) (id interval : ℕ)
    (timeout new_id full_name pb_data : Bytes) (y0 y z : TimedCall Addr Response)
    → Kept y0.timer
    → Absent id y0.timer.pending
    → CanBegin y0.channel
    → TimedSteps parse_from_string id timeout
        (start_timed id interval false new_id full_name pb_data y0)
        y
    → y0.timer.clock y0.timer.reads + interval ≤ y.timer.clock y.timer.reads
    → TimedSteps parse_from_string id timeout (timer_round id timeout y) z
    → (waits z.timer id ≡ false)
      × Ended y0.channel.closure_runs (timer_round id timeout y).channel z.channel
call_ends_once parse id interval timeout new_id full_name pb_data y0 y z kept absent begins steps
      late after =
    let arrive = y0.timer.clock y0.timer.reads + interval in
    let runs = y0.channel.closure_runs in
    let (k, w, over) =
      overdue_call parse id interval timeout new_id full_name pb_data y0 y kept absent begins steps
        late in
    elim over [
      | inl (inl replied) ↦
          let (_, (w', r)) =
            steps-Rest parse id timeout arrive (IsReplied runs) (IsReplied-IsKept runs) after k
              (w, replied) in
          (w', inl (replied, r))
      | inl (inr failing) ↦
          let (_, (w', a)) =
            steps-Rest parse id timeout arrive (IsAnswered runs) (IsAnswered-IsKept runs) after k
              (w, inr failing) in
          (w', inr (inl (failing, a)))
      | inr timed_out ↦
          let (_, (w', o)) =
            steps-Rest parse id timeout arrive (IsTimedOut runs) (IsTimedOut-IsKept runs) after k
              (w, timed_out) in
          (w', inr (inr (timed_out, o)))
    ]
