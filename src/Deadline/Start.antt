-- ===== src/Deadline/Start.antt =====
-- The call's event: how it starts, and what is known of it after any steps.
use my_tiny_rpc.Base.{ℕ, ◌+◌, ◌≡◌, refl, sym, ap, ◌∙◌, Bytes, true, false, arith, subst, Option}
use my_tiny_rpc.Base.Outcome.{done, done-injective, bind-eq-done}
use my_tiny_rpc.Coder.TinyPb.{TinyPbProtocol}
use my_tiny_rpc.Rpc.Channel.{on_response}
use my_tiny_rpc.Timer.{
  TimeEvent, Timer, set_cancel, get_now_ms, reset_event, new_time_event, add_time_event,
}
use my_tiny_rpc.Timer.Order.{pending-add_time_event}
use my_tiny_rpc.Timer.Fire.{events-add_time_event}
use my_tiny_rpc.Timer.Entries.{Absent}
use my_tiny_rpc.Timer.Kept.{Kept, new_time_event-Kept, add_time_event-Kept, set_cancel-Kept}
use my_tiny_rpc.Deadline.{
  TimedCall, timer_round, take_response, TimedStep, timed_connect, timed_sent, timed_response,
  timed_round, other_made, other_added, other_cancelled,
}
use my_tiny_rpc.Deadline.Entry.{emplace-has}
use my_tiny_rpc.Deadline.Round.{
  waits, Known, event-Known, cancel-Known, on_timer-event, on_timer-Kept, other_added-SameEvent,
  other_made-SameEvent, other_cancelled-SameEvent,
}

-- A new event that is added.
event_of : ℕ → ℕ → TimeEvent
event_of arrive interval = record {
  arrive_time = arrive;
  interval = interval;
  is_repeated = false;
  is_cancel = false;
}

module _ (t : Timer) (id interval : ℕ) where
  abbrev pub with_event : Timer
  with_event = add_time_event (new_time_event t id interval false false) id

  made-event :
      (new_time_event t id interval false false).events id
      ≡ event_of (t.clock t.reads + interval) interval
  unfolding new_time_event reset_event get_now_ms event_of
  made-event = ground arith

  pending-made : (new_time_event t id interval false false).pending ≡ t.pending
  unfolding new_time_event reset_event get_now_ms
  pending-made = refl

  with_event-event : with_event.events id ≡ event_of (t.clock t.reads + interval) interval
  with_event-event =
      ap (λ (h : ℕ → TimeEvent). h id)
        (events-add_time_event (new_time_event t id interval false false) id)
      ∙ made-event

  pub with_event-waits : waits with_event id ≡ true
  unfolding waits event_of
  with_event-waits =
      let u = new_time_event t id interval false false in
      rw
        (
          with_event-event,
          pending-add_time_event u id,
          emplace-has id (u.events id).arrive_time u.pending,
        )
        refl

  pub with_event-Known :
      Absent id t.pending → Kept t → Known id (t.clock t.reads + interval) with_event
  unfolding event_of
  with_event-Known absent k = record {
    kept =
        add_time_event-Kept (new_time_event t id interval false false) id
          (subst (Absent id) (sym pending-made) absent)
          (new_time_event-Kept t id interval false false absent k);
    once = ap (λ (e : TimeEvent). e.is_repeated) with_event-event;
    arrives = ap (λ (e : TimeEvent). e.arrive_time) with_event-event;
  }

module _ {Addr Response : Type 0} (parse_from_string : Bytes → Option Response) (id : ℕ) where
  take_response-timer :
      (rsp : TinyPbProtocol) (y y' : TimedCall Addr Response)
      → take_response id parse_from_string rsp y ≡ done y'
      → y'.timer ≡ set_cancel y.timer id true
  unfolding take_response
  take_response-timer rsp y y' e =
      let (channel, _, same) = bind-eq-done (on_response parse_from_string rsp y.channel) _ e in
      sym (ap (λ (x : TimedCall Addr Response). x.timer) (done-injective same))

module _ {Addr Response : Type 0} {parse_from_string : Bytes → Option Response} {id : ℕ}
    {timeout : Bytes} (arrive : ℕ) where
  pub step-Known :
      {y y' : TimedCall Addr Response}
      → TimedStep parse_from_string id timeout y y'
      → Known id arrive y.timer
      → Known id arrive y'.timer
  unfolding timer_round take_response
  step-Known (timed_connect y code info h) k = k
  step-Known (timed_sent y h) k = k
  step-Known (timed_response y y' rsp h taken) k =
      subst (Known id arrive) (sym (take_response-timer parse_from_string id rsp y y' taken))
        (cancel-Known id arrive y.timer k)
  step-Known (timed_round y) k =
      event-Known id arrive y.timer _ (on_timer-event y.timer id k.once)
        (on_timer-Kept y.timer k.kept) k
  step-Known (other_made y j interval repeats memory apart absent) k =
      event-Known id arrive y.timer _
        (other_made-SameEvent id j interval repeats memory y.timer apart).event_eq
        (new_time_event-Kept y.timer j interval repeats memory absent k.kept) k
  step-Known (other_added y j apart absent) k =
      event-Known id arrive y.timer _ (other_added-SameEvent id j y.timer apart).event_eq
        (add_time_event-Kept y.timer j absent k.kept) k
  step-Known (other_cancelled y j apart) k =
      event-Known id arrive y.timer _ (other_cancelled-SameEvent id j y.timer apart).event_eq
        (set_cancel-Kept y.timer j k.kept) k
