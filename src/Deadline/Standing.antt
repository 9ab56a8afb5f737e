-- ===== src/Deadline/Standing.antt =====
-- Where a call stands, and what stays of it whatever comes.
use my_tiny_rpc.Base.{
  ℕ, ◌≡◌, ◌⊎◌, inl, inr, refl, sym, ◌∙◌, Bytes, Bool, true, false, Option, subst, true-ne-false,
  if◌then◌else◌,
}
use my_tiny_rpc.Base.Outcome.{done, fault, done-injective, ◌>>=◌}
use my_tiny_rpc.Coder.TinyPb.{TinyPbProtocol}
use my_tiny_rpc.Rpc.Channel.{RpcChannel, on_connected, on_sent, on_parsed, on_response}
use my_tiny_rpc.Timer.{Timer, on_timer, set_cancel}
use my_tiny_rpc.Deadline.{
  TimedCall, timer_round, take_response, TimedStep, timed_connect, timed_sent, timed_response,
  timed_round, other_made, other_added, other_cancelled, TimedSteps, no_step, then_timed,
}
use my_tiny_rpc.Deadline.Round.{
  waits, Known, SameEvent-waits, on_timer-either, cancel-waits, other_added-SameEvent,
  other_made-SameEvent, other_cancelled-SameEvent,
}
use my_tiny_rpc.Deadline.Start.{step-Known}
use my_tiny_rpc.Deadline.Callbacks.{
  run_due-none, IsTimedOut, Keeps, on_connected-Keeps, on_sent-Keeps, IsReplied, IsAnswered,
  parsed-IsAnswered, parsed-IsTimedOut,
}

module _ {Addr Response : Type 0} (parse_from_string : Bytes → Option Response) (id : ℕ) where
  -- What the call is after a response that it could take.
  abbrev pub responded : TinyPbProtocol → TimedCall Addr Response → TimedCall Addr Response
  responded m y = record {
    channel = on_parsed (parse_from_string m.pb_data) m y.channel;
    timer = set_cancel y.timer id true;
  }

  taken_if :
      (timer : Timer) (ch : RpcChannel Addr Response) (y' : TimedCall Addr Response)
      → (held : Bool)
      → ((if held then done ch else fault) >>= λ channel.
          done (record { channel = channel; timer = timer }))
        ≡ done y'
      → (held ≡ true) × (y' ≡ record { channel = ch; timer = timer })
  taken_if timer ch y' true e = (refl, sym (done-injective e))
  taken_if timer ch y' false e = absurd (cc e)

  pub take_response_done :
      (m : TinyPbProtocol) (y y' : TimedCall Addr Response)
      → take_response id parse_from_string m y ≡ done y'
      → (y.channel.held ≡ true) × (y' ≡ responded m y)
  unfolding take_response on_response
  take_response_done m y y' e =
      taken_if (set_cancel y.timer id true) (on_parsed (parse_from_string m.pb_data) m y.channel) y'
        y.channel.held e

-- A property of a channel that its callbacks keep, where the timer does not run its timeout.
pub record IsKept {Addr Response : Type 0} (parse_from_string : Bytes → Option Response)
    (P : RpcChannel Addr Response → Type 0) : Type 0 where
  pub connects :
      (code : ℕ) (info : Bytes) (ch : RpcChannel Addr Response)
      → ch.connecting ≡ true
      → P ch
      → P (on_connected code info ch)
  pub sends : (ch : RpcChannel Addr Response) → ch.writing ≡ true → P ch → P (on_sent ch)
  pub responds :
      (m : TinyPbProtocol) (ch : RpcChannel Addr Response)
      → ch.held ≡ true
      → P ch
      → P (on_parsed (parse_from_string m.pb_data) m ch)

module _ {Addr Response : Type 0} (runs : ℕ) where
  Keeps-IsTimedOut :
      (a b : RpcChannel Addr Response) → Keeps a b → IsTimedOut runs a → IsTimedOut runs b
  Keeps-IsTimedOut a b k o = record {
    is_canceled = k.canceled_eq ∙ o.is_canceled;
    is_failed = k.failed o.is_failed;
    runs_eq = k.runs_kept ∙ o.runs_eq;
  }

module _ {Addr Response : Type 0} {parse_from_string : Bytes → Option Response} (runs : ℕ) where
  pub IsReplied-IsKept : IsKept {Addr = Addr} parse_from_string (IsReplied runs)
  IsReplied-IsKept = record {
    connects = λ code info ch on p. absurd (true-ne-false (sym on ∙ p.past.no_connect));
    sends = λ ch on p. absurd (true-ne-false (sym on ∙ p.past.no_write));
    responds = λ m ch held p. absurd (true-ne-false (sym held ∙ p.let_go));
  }

  pub IsAnswered-IsKept : IsKept {Addr = Addr} parse_from_string (IsAnswered runs)
  IsAnswered-IsKept =
      let replied = IsReplied-IsKept in
      record {
        connects = λ code info ch on p. elim p [
          | inl r ↦ inl (replied.connects code info ch on r)
          | inr f ↦ absurd (true-ne-false (sym on ∙ f.past.no_connect))
        ];
        sends = λ ch on p. elim p [
          | inl r ↦ inl (replied.sends ch on r)
          | inr f ↦ absurd (true-ne-false (sym on ∙ f.past.no_write))
        ];
        responds = λ m ch held p. elim p [
          | inl r ↦ inl (replied.responds m ch held r)
          | inr f ↦ parsed-IsAnswered m runs (parse_from_string m.pb_data) ch f.can_reply f.past
        ];
      }

  pub IsTimedOut-IsKept : IsKept {Addr = Addr} parse_from_string (IsTimedOut runs)
  IsTimedOut-IsKept = record {
    connects = λ code info ch on o. Keeps-IsTimedOut runs ch _ (on_connected-Keeps code info ch) o;
    sends = λ ch on o. Keeps-IsTimedOut runs ch _ (on_sent-Keeps ch) o;
    responds = λ m ch held o. parsed-IsTimedOut m runs (parse_from_string m.pb_data) ch o;
  }

-- A call that waits no more: it was answered, or timed out.
abbrev pub IsOver : {Addr Response : Type 0} → ℕ → RpcChannel Addr Response → Type 0
IsOver runs ch = IsAnswered runs ch ⊎ IsTimedOut runs ch

pub IsOver-IsKept :
    {Addr Response : Type 0} {parse_from_string : Bytes → Option Response} (runs : ℕ)
    → IsKept {Addr = Addr} parse_from_string (IsOver runs)
IsOver-IsKept {parse_from_string} runs =
    let answered = IsAnswered-IsKept {parse_from_string = parse_from_string} runs in
    let timed_out = IsTimedOut-IsKept {parse_from_string = parse_from_string} runs in
    record {
      connects = λ code info ch on p. elim p [
        | inl a ↦ inl (answered.connects code info ch on a)
        | inr o ↦ inr (timed_out.connects code info ch on o)
      ];
      sends = λ ch on p. elim p [
        | inl a ↦ inl (answered.sends ch on a)
        | inr o ↦ inr (timed_out.sends ch on o)
      ];
      responds = λ m ch held p. elim p [
        | inl a ↦ inl (answered.responds m ch held a)
        | inr o ↦ inr (timed_out.responds m ch held o)
      ];
    }

module _ {Addr Response : Type 0} (parse_from_string : Bytes → Option Response) (id : ℕ)
    (timeout : Bytes) (arrive : ℕ) (P : RpcChannel Addr Response → Type 0)
    (kept : IsKept parse_from_string P) where
  -- The property holds, and the timer is not going to run the event.
  abbrev pub Rests : TimedCall Addr Response → Type 0
  Rests y = (waits y.timer id ≡ false) × P y.channel

  pub step-Rests :
      (y y' : TimedCall Addr Response)
      → TimedStep parse_from_string id timeout y y'
      → Known id arrive y.timer
      → Rests y
      → Rests y'
  unfolding timer_round
  step-Rests _ _ (timed_connect y code info h) k (w, p) = (w, kept.connects code info y.channel h p)
  step-Rests _ _ (timed_sent y h) k (w, p) = (w, kept.sends y.channel h p)
  step-Rests _ _ (timed_response y y' m h taken) k (w, p) =
      let (held, same) = take_response_done parse_from_string id m y y' taken in
      subst Rests (sym same) (cancel-waits id y.timer, kept.responds m y.channel held p)
  step-Rests _ _ (timed_round y) k (w, p) = elim (on_timer-either y.timer id k.once k.kept) [
    | inl (again, run, gone) ↦ absurd (true-ne-false (sym again ∙ w))
    | inr (quiet, same) ↦
        (same ∙ w, subst P (sym (run_due-none id timeout (on_timer y.timer).0 y.channel quiet)) p)
  ]
  step-Rests _ _ (other_made y j interval repeats memory apart absent) k (w, p) = (
    SameEvent-waits id y.timer _ (other_made-SameEvent id j interval repeats memory y.timer apart)
        ∙ w,
    p,
  )
  step-Rests _ _ (other_added y j apart absent) k (w, p) =
      (SameEvent-waits id y.timer _ (other_added-SameEvent id j y.timer apart) ∙ w, p)
  step-Rests _ _ (other_cancelled y j apart) k (w, p) =
      (SameEvent-waits id y.timer _ (other_cancelled-SameEvent id j y.timer apart) ∙ w, p)

  pub steps-Rest :
      {y y' : TimedCall Addr Response}
      → TimedSteps parse_from_string id timeout y y'
      → Known id arrive y.timer
      → Rests y
      → Known id arrive y'.timer × Rests y'
  steps-Rest no_step k r = (k, r)
  steps-Rest (then_timed {b} {c} steps step) k r =
      let (k', r') = steps-Rest steps k r in (step-Known arrive step k', step-Rests b c step k' r')
