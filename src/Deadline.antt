-- ===== src/Deadline.antt =====
-- tinyrpc/net/rpc/rpc_channel.cc and timer.cc: a call together with the timer of its client's loop,
-- which has the call's time event and those of others. Nothing in the program calls
-- `deleteTimeEvent`, so the others do not either.
pub mod Entry
pub mod Round
pub mod Start
pub mod Callbacks
pub mod Standing
pub mod Over
pub mod Once
pub mod Tests
use my_tiny_rpc.Base.{ℕ, Bytes, ◌≡◌, ◌≢◌, Bool, true, false, Option, [], ◌∷◌, ◌==◌, if◌then◌else◌}
use my_tiny_rpc.Base.Outcome.{Outcome, done, ◌>>=◌}
use my_tiny_rpc.Coder.TinyPb.{TinyPbProtocol}
use my_tiny_rpc.Rpc.Channel.{RpcChannel, start_call, on_timeout, on_connected, on_sent, on_response}
use my_tiny_rpc.Timer.{Pending, Timer, set_cancel, new_time_event, add_time_event, on_timer}
use my_tiny_rpc.Timer.Entries.{Absent}

pub record TimedCall (Addr Response : Type 0) : Type 0 where
  pub channel : RpcChannel Addr Response
  pub timer : Timer

-- The call's event is the one at `id`, and `timeout` is the text of its interval.
module _ {Addr Response : Type 0} (id : ℕ) (timeout : Bytes) where
  -- The callbacks that `onTimer` runs, as far as they are the call's.
  unfoldable pub run_due : Pending → RpcChannel Addr Response → RpcChannel Addr Response
  run_due [] ch = ch
  run_due ((key, j) ∷ due) ch = run_due due (if j == id then on_timeout timeout ch else ch)

  unfoldable pub timer_round : TimedCall Addr Response → TimedCall Addr Response
  timer_round y =
      let (due, timer) = on_timer y.timer in
      record { channel = run_due due y.channel; timer = timer }

module _ {Addr Response : Type 0} (id : ℕ) where
  -- The callback of `readMessage` cancels the event.
  unfoldable pub take_response :
      (Bytes → Option Response)
      → TinyPbProtocol
      → TimedCall Addr Response
      → Outcome (TimedCall Addr Response)
  take_response parse_from_string rsp_protocol y =
      on_response parse_from_string rsp_protocol y.channel >>= λ channel.
      done (record { channel = channel; timer = set_cancel y.timer id true })

  -- From the serialized request on: the event is made, and added. `memory` is what stands where
  -- the constructor leaves `m_is_cancel`.
  unfoldable pub start_timed :
      ℕ → Bool → Bytes → Bytes → Bytes → TimedCall Addr Response → TimedCall Addr Response
  start_timed interval memory new_id full_name pb_data y = record {
    channel = start_call memory new_id full_name (Option.some pb_data) y.channel;
    timer = add_time_event (new_time_event y.timer id interval false memory) id;
  }

module _ {Addr Response : Type 0} (parse_from_string : Bytes → Option Response) (id : ℕ)
    (timeout : Bytes) where
  -- One callback of the call, a round of the timer, or what others do with the timer.
  pub data TimedStep : TimedCall Addr Response → TimedCall Addr Response → Type 0 where
    timed_connect :
        (y : TimedCall Addr Response) (error_code : ℕ) (error_info : Bytes)
        → y.channel.connecting ≡ true
        → TimedStep y (record y { channel = on_connected error_code error_info y.channel })
    timed_sent :
        (y : TimedCall Addr Response)
        → y.channel.writing ≡ true
        → TimedStep y (record y { channel = on_sent y.channel })
    timed_response :
        (y y' : TimedCall Addr Response) (rsp_protocol : TinyPbProtocol)
        → y.channel.reading ≡ true
        → take_response id parse_from_string rsp_protocol y ≡ done y'
        → TimedStep y y'
    timed_round : (y : TimedCall Addr Response) → TimedStep y (timer_round id timeout y)
    other_made :
        (y : TimedCall Addr Response) (j interval : ℕ) (is_repeated memory : Bool)
        → j ≢ id
        → Absent j y.timer.pending
        → TimedStep y (record y { timer = new_time_event y.timer j interval is_repeated memory })
    other_added :
        (y : TimedCall Addr Response) (j : ℕ)
        → j ≢ id
        → Absent j y.timer.pending
        → TimedStep y (record y { timer = add_time_event y.timer j })
    other_cancelled :
        (y : TimedCall Addr Response) (j : ℕ)
        → j ≢ id
        → TimedStep y (record y { timer = set_cancel y.timer j true })

  pub data TimedSteps : TimedCall Addr Response → TimedCall Addr Response → Type 0 where
    no_step : {y : TimedCall Addr Response} → TimedSteps y y
    then_timed : {a b c : TimedCall Addr Response} → TimedSteps a b → TimedStep b c → TimedSteps a c
