-- ===== src/Deadline/Over.antt =====
-- Where a call stands after any steps, and at its deadline.
use my_tiny_rpc.Base.{
  ℕ, ◌+◌, ◌≤◌, ◌≡◌, ◌⊎◌, inl, inr, refl, sym, ◌∙◌, Bytes, true, false, Option, ◌==◌, if_intro,
  subst, true-ne-false,
}
use my_tiny_rpc.Rpc.Controller.{set_error}
use my_tiny_rpc.Rpc.Channel.{RpcChannel, start_call, fail, on_connected, on_sent}
use my_tiny_rpc.Rpc.Channel.Replies.{choose_msg_id_keeps}
use my_tiny_rpc.Timer.{on_timer}
use my_tiny_rpc.Timer.Entries.{Absent}
use my_tiny_rpc.Timer.Kept.{Kept}
use my_tiny_rpc.Deadline.{
  TimedCall, timer_round, start_timed, TimedStep, timed_connect, timed_sent, timed_response,
  timed_round, other_made, other_added, other_cancelled, TimedSteps, no_step, then_timed,
}
use my_tiny_rpc.Deadline.Round.{
  waits, Known, SameEvent-waits, on_timer-Distinct, on_timer-either, on_timer-overdue, gone-waits,
  cancel-waits, other_added-SameEvent, other_made-SameEvent, other_cancelled-SameEvent,
}
use my_tiny_rpc.Deadline.Start.{with_event-waits, with_event-Known, step-Known}
use my_tiny_rpc.Deadline.Callbacks.{
  run_due-none, run_due-once, Keeps, on_connected-Keeps, on_sent-Keeps, on_timeout-IsTimedOut,
  IsTimedOut, CanReply, IsReading, parsed-IsAnswered,
}
use my_tiny_rpc.Deadline.Standing.{IsOver, IsOver-IsKept, take_response_done, step-Rests}

-- The callbacks come one after the other: connected, sent, response.
record InOrder {Addr Response : Type 0} (ch : RpcChannel Addr Response) : Type 0 where
  reads_last : ch.reading ≡ true → IsReading ch
  writes_second : ch.writing ≡ true → ch.connecting ≡ false

-- A channel before its first call.
pub record CanBegin {Addr Response : Type 0} (ch : RpcChannel Addr Response) : Type 0 where
  pub closure : ch.has_closure ≡ true
  pub live : ch.controller.is_canceled ≡ false
  pub no_write : ch.writing ≡ false
  pub no_read : ch.reading ≡ false

module _ {Addr Response : Type 0} where
  on_connected-InOrder :
      (code : ℕ) (info : Bytes) (ch : RpcChannel Addr Response)
      → ch.connecting ≡ true
      → InOrder ch
      → InOrder (on_connected code info ch)
  unfolding on_connected fail set_error
  on_connected-InOrder code info ch on o =
      let first : ¬ (ch.reading ≡ true) =
        λ h. true-ne-false (sym on ∙ (o.reads_last h).no_connect) in
      if_intro InOrder (code == 0) _ _
        (λ _. record { reads_last = λ h. absurd (first h); writes_second = λ _. refl })
        (λ _. record { reads_last = λ h. absurd (first h); writes_second = λ _. refl })

  on_sent-InOrder :
      (ch : RpcChannel Addr Response) → ch.writing ≡ true → InOrder ch → InOrder (on_sent ch)
  unfolding on_sent
  on_sent-InOrder ch on o = record {
    reads_last = λ _. record { no_connect = o.writes_second on; no_write = refl };
    writes_second = λ h. absurd (true-ne-false (sym h));
  }

  Keeps-CanReply :
      (runs : ℕ) (a b : RpcChannel Addr Response) → Keeps a b → CanReply runs a → CanReply runs b
  Keeps-CanReply runs a b k c = record {
    closure = k.closure_eq ∙ c.closure;
    live = k.canceled_eq ∙ c.live;
    runs_still = k.runs_kept ∙ c.runs_still;
  }

module _ {Addr Response : Type 0} (parse_from_string : Bytes → Option Response) (id : ℕ)
    (timeout : Bytes) (arrive runs : ℕ) where
  -- A call waits for its response or its timeout, or it is over.
  abbrev Waiting : TimedCall Addr Response → Type 0
  Waiting y = (waits y.timer id ≡ true) × CanReply runs y.channel × InOrder y.channel

  abbrev Stands : TimedCall Addr Response → Type 0
  Stands y = Waiting y ⊎ ((waits y.timer id ≡ false) × IsOver runs y.channel)

  Waiting-Stands :
      (y y' : TimedCall Addr Response)
      → TimedStep parse_from_string id timeout y y'
      → Known id arrive y.timer
      → Waiting y
      → Stands y'
  unfolding timer_round
  Waiting-Stands _ _ (timed_connect y code info h) k (w, c, o) = inl (
    w,
    Keeps-CanReply runs y.channel _ (on_connected-Keeps code info y.channel) c,
    on_connected-InOrder code info y.channel h o,
  )
  Waiting-Stands _ _ (timed_sent y h) k (w, c, o) = inl (
    w,
    Keeps-CanReply runs y.channel _ (on_sent-Keeps y.channel) c,
    on_sent-InOrder y.channel h o,
  )
  Waiting-Stands _ _ (timed_response y y' m h taken) k (w, c, o) =
      let (_, same) = take_response_done parse_from_string id m y y' taken in
      subst Stands (sym same) (
        inr (
          cancel-waits id y.timer,
          inl (parsed-IsAnswered m runs (parse_from_string m.pb_data) y.channel c (o.reads_last h)),
        ))
  Waiting-Stands _ _ (timed_round y) k (w, c, o) = elim (on_timer-either y.timer id k.once k.kept) [
    | inl (_, run, gone) ↦ inr (
      gone-waits (on_timer y.timer).1 id gone,
      inr (
          subst (IsTimedOut runs)
            (sym (
              run_due-once id timeout (on_timer y.timer).0 y.channel
                (on_timer-Distinct y.timer k.kept) run))
            (on_timeout-IsTimedOut timeout runs y.channel c.closure c.runs_still)),
    )
    | inr (quiet, same) ↦ inl (
      same ∙ w,
      subst (CanReply runs) (sym (run_due-none id timeout (on_timer y.timer).0 y.channel quiet)) c,
      subst InOrder (sym (run_due-none id timeout (on_timer y.timer).0 y.channel quiet)) o,
    )
  ]
  Waiting-Stands _ _ (other_made y j interval repeats memory apart absent) k (w, c, o) = inl (
    SameEvent-waits id y.timer _ (other_made-SameEvent id j interval repeats memory y.timer apart)
        ∙ w,
    c,
    o,
  )
  Waiting-Stands _ _ (other_added y j apart absent) k (w, c, o) =
      inl (SameEvent-waits id y.timer _ (other_added-SameEvent id j y.timer apart) ∙ w, c, o)
  Waiting-Stands _ _ (other_cancelled y j apart) k (w, c, o) =
      inl (SameEvent-waits id y.timer _ (other_cancelled-SameEvent id j y.timer apart) ∙ w, c, o)

  step-Stands :
      (y y' : TimedCall Addr Response)
      → TimedStep parse_from_string id timeout y y'
      → Known id arrive y.timer
      → Stands y
      → Stands y'
  step-Stands y y' step k (inl waiting) = Waiting-Stands y y' step k waiting
  step-Stands y y' step k (inr over) = inr (
      step-Rests parse_from_string id timeout arrive (IsOver runs) (IsOver-IsKept runs) y y' step k
        over)

  steps-Stand :
      {y y' : TimedCall Addr Response}
      → TimedSteps parse_from_string id timeout y y'
      → Known id arrive y.timer
      → Stands y
      → Known id arrive y'.timer × Stands y'
  steps-Stand no_step k s = (k, s)
  steps-Stand (then_timed {b} {c} steps step) k s =
      let (k', s') = steps-Stand steps k s in
      (step-Known arrive step k', step-Stands b c step k' s')

  -- Once its time has come, the call waits no more.
  overdue-IsOver :
      (y : TimedCall Addr Response)
      → Known id arrive y.timer
      → arrive ≤ y.timer.clock y.timer.reads
      → Stands (timer_round id timeout y)
      → (waits (timer_round id timeout y).timer id ≡ false)
        × IsOver runs (timer_round id timeout y).channel
  unfolding timer_round
  overdue-IsOver y k h (inr over) = over
  overdue-IsOver y k h (inl (w, _, _)) =
      let late = subst (λ a. a ≤ y.timer.clock y.timer.reads) (sym k.arrives) h in
      absurd (
        true-ne-false (
          sym w
          ∙ gone-waits (on_timer y.timer).1 id (on_timer-overdue y.timer id k.once k.kept late)))

begun-CanReply :
    {Addr Response : Type 0} (new_id full_name pb_data : Bytes) (ch : RpcChannel Addr Response)
    → CanBegin ch
    → CanReply ch.closure_runs (start_call false new_id full_name (Option.some pb_data) ch)
      × InOrder (start_call false new_id full_name (Option.some pb_data) ch)
unfolding start_call
begun-CanReply new_id full_name pb_data ch b = (
  record {
    closure = b.closure;
    live = (choose_msg_id_keeps new_id ch.controller).0 ∙ b.live;
    runs_still = refl;
  },
  record {
    reads_last = λ h. absurd (true-ne-false (sym h ∙ b.no_read));
    writes_second = λ h. absurd (true-ne-false (sym h ∙ b.no_write));
  },
)

-- What a call that has started comes to at its deadline.
pub overdue_call :
    {Addr Response : Type 0} (parse_from_string : Bytes → Option Response) (id interval : ℕ)
    (timeout new_id full_name pb_data : Bytes) (y0 y : TimedCall Addr Response)
    → Kept y0.timer
    → Absent id y0.timer.pending
    → CanBegin y0.channel
    → TimedSteps parse_from_string id timeout
        (start_timed id interval false new_id full_name pb_data y0)
        y
    → y0.timer.clock y0.timer.reads + interval ≤ y.timer.clock y.timer.reads
    → Known id (y0.timer.clock y0.timer.reads + interval) (timer_round id timeout y).timer
      × (waits (timer_round id timeout y).timer id ≡ false)
      × IsOver y0.channel.closure_runs (timer_round id timeout y).channel
unfolding start_timed
overdue_call parse id interval timeout new_id full_name pb_data y0 y kept absent begins steps late =
    let arrive = y0.timer.clock y0.timer.reads + interval in
    let runs = y0.channel.closure_runs in
    let (can, ordered) = begun-CanReply new_id full_name pb_data y0.channel begins in
    let (k, s) =
      steps-Stand parse id timeout arrive runs steps
        (with_event-Known y0.timer id interval absent kept)
        (inl (with_event-waits y0.timer id interval, can, ordered)) in
    let (quiet, over) =
      overdue-IsOver parse id timeout arrive runs y k late (
        step-Stands parse id timeout arrive runs y (timer_round id timeout y) (timed_round y) k
          s) in
    (
      step-Known {parse_from_string = parse} {id = id} {timeout = timeout} arrive (timed_round y) k,
      quiet,
      over,
    )
