-- ===== src/Deadline/Tests.antt =====
-- A call that gets its response too late, and the theorems at it.
use my_tiny_rpc.Base.{
  ℕ, ◌+◌, ◌≤◌, ◌*◌, ◌≡◌, refl, Bytes, true, false, Option, none, some, [], codes, arith,
}
use my_tiny_rpc.Coder.TinyPb.{new_protocol}
use my_tiny_rpc.Rpc.Channel.{
  start_call, fail, run_closure, on_timeout, on_connected, on_sent, on_response,
}
use my_tiny_rpc.Timer.{
  get_now_ms, reset_event, new_time_event, emplace, comes_first, add_time_event, reset_arrive_time,
  take_due, on_timer,
}
use my_tiny_rpc.Deadline.{
  TimedCall, run_due, timer_round, take_response, start_timed, TimedSteps, no_step, then_timed,
  timed_connect, timed_sent, timed_response,
}
use my_tiny_rpc.Base.Outcome.{done}
use my_tiny_rpc.Deadline.Round.{waits}
use my_tiny_rpc.Deadline.Standing.{responded}
use my_tiny_rpc.Deadline.Over.{CanBegin}
use my_tiny_rpc.Deadline.Once.{Ended, call_ends_once}

abbrev idle : TimedCall ℕ Bytes
idle = record {
  channel = record {
    is_init = true;
    controller = record {
      error_code = 0;
      error_info = [];
      msg_id = codes "7";
      is_failed = false;
      is_canceled = false;
      is_finished = false;
      local_addr = none;
      peer_addr = none;
      timeout = 50;
    };
    has_closure = true;
    closure_runs = 0;
    response = none;
    req_protocol = new_protocol;
    timer = none;
    connecting = false;
    writing = false;
    reading = false;
    held = false;
  };
  timer = record {
    events = λ _. record { arrive_time = 0; interval = 0; is_repeated = false; is_cancel = false };
    pending = [];
    armed = none;
    clock = λ n. 30 * n;
    reads = 0;
  };
}

abbrev begun : TimedCall ℕ Bytes
begun = start_timed 1 50 false (codes "8") (codes "Order.make") (codes "request") idle

abbrev sent : TimedCall ℕ Bytes
sent = record begun { channel = on_sent (on_connected 0 [] begun.channel) }

parse : Bytes → Option Bytes
parse bytes = some bytes

sent-TimedSteps : TimedSteps parse 1 (codes "50") begun sent
unfolding start_timed start_call on_connected on_sent
sent-TimedSteps =
    then_timed (then_timed no_step (timed_connect begun 0 [] refl))
      (timed_sent (record begun { channel = on_connected 0 [] begun.channel }) refl)

abbrev late : TimedCall ℕ Bytes
late = responded parse 1 new_protocol (timer_round 1 (codes "50") sent)

-- What the timer and the loop over the due entries compute at this call.
round_time : begun.timer.clock begun.timer.reads ≡ 60
unfolding start_timed new_time_event reset_event get_now_ms add_time_event comes_first
    reset_arrive_time emplace
round_time = refl

overdue : idle.timer.clock idle.timer.reads + 50 ≤ sent.timer.clock sent.timer.reads
overdue = omega (arith, round_time)

reading : (timer_round 1 (codes "50") sent).channel.reading ≡ true
unfolding timer_round on_timer take_due run_due start_timed new_time_event reset_event get_now_ms
    add_time_event comes_first reset_arrive_time emplace on_timeout run_closure fail on_sent
    on_connected start_call
reading = refl

holds : (timer_round 1 (codes "50") sent).channel.held ≡ true
unfolding timer_round on_timer take_due run_due start_timed new_time_event reset_event get_now_ms
    add_time_event comes_first reset_arrive_time emplace on_timeout run_closure fail on_sent
    on_connected start_call
holds = refl

taken : take_response 1 parse new_protocol (timer_round 1 (codes "50") sent) ≡ done late
unfolding take_response on_response
taken = rw holds refl

late-TimedSteps : TimedSteps parse 1 (codes "50") (timer_round 1 (codes "50") sent) late
late-TimedSteps =
    then_timed no_step
      (timed_response (timer_round 1 (codes "50") sent) late new_protocol reading taken)

idle-CanBegin : CanBegin idle.channel
idle-CanBegin = record { closure = refl; live = refl; no_write = refl; no_read = refl }

call_ends_once_example :
    (waits late.timer 1 ≡ false) × Ended 0 (timer_round 1 (codes "50") sent).channel late.channel
call_ends_once_example =
    call_ends_once parse 1 50 (codes "50") (codes "8") (codes "Order.make") (codes "request") idle
      sent late (record { sorted = tt; in_step = tt; distinct = tt }) tt idle-CanBegin
      sent-TimedSteps overdue late-TimedSteps
