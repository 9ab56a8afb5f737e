-- ===== src/Deadline/Callbacks.antt =====
-- What the callbacks of a call do to its channel.
use my_tiny_rpc.Base.{
  ℕ, suc, ◌≡◌, ◌⊎◌, not, not-true, Option, none, some, inl, inr, refl, sym, ap, ◌∙◌, Bytes, true,
  false, [], ◌∷◌, ◌==◌, if_intro, subst, true-ne-false, Bool-cases, ==_iff,
}
use my_tiny_rpc.Rpc.Controller.{set_error, start_cancel}
use my_tiny_rpc.Rpc.Channel.{
  RpcChannel, fail, run_closure, on_timeout, on_connected, on_sent, accept, on_parsed,
}
use my_tiny_rpc.Coder.TinyPb.{TinyPbProtocol}
use my_tiny_rpc.Timer.{Pending}
use my_tiny_rpc.Timer.Entries.{Absent, Distinct}
use my_tiny_rpc.Deadline.{run_due}
use my_tiny_rpc.Deadline.Entry.{has, Absent-has}

-- The caller was told that the call took too long: the closure has run once more than `runs`.
pub record IsTimedOut {Addr Response : Type 0} (runs : ℕ) (ch : RpcChannel Addr Response)
    : Type 0 where
  pub is_canceled : ch.controller.is_canceled ≡ true
  pub is_failed : ch.controller.is_failed ≡ true
  pub runs_eq : ch.closure_runs ≡ suc runs

module _ {Addr Response : Type 0} (id : ℕ) (timeout : Bytes) where
  pub run_due-none :
      (due : Pending) (ch : RpcChannel Addr Response)
      → has id due ≡ false
      → run_due id timeout due ch ≡ ch
  unfolding run_due has
  run_due-none [] ch e = refl
  run_due-none ((k, j) ∷ due) ch e = elim (Bool-cases (j == id)) [
    | inl same ↦ absurd (true-ne-false (rw same at e))
    | inr apart ↦ rw apart (run_due-none due ch (rw apart at e))
  ]

  pub run_due-once :
      (due : Pending) (ch : RpcChannel Addr Response)
      → Distinct due
      → has id due ≡ true
      → run_due id timeout due ch ≡ on_timeout timeout ch
  unfolding run_due has
  run_due-once [] ch d e = absurd (true-ne-false (sym e))
  run_due-once ((k, j) ∷ due) ch d e = elim (Bool-cases (j == id)) [
    | inl same ↦
        let absent = subst (λ i. Absent i due) ((==_iff j id).0 same) d.0 in
        rw same (run_due-none due (on_timeout timeout ch) (Absent-has id due absent))
    | inr apart ↦ rw apart (run_due-once due ch d.1 (rw apart at e))
  ]

-- What the callbacks of connecting and sending leave alone.
pub record Keeps {Addr Response : Type 0} (a b : RpcChannel Addr Response) : Type 0 where
  pub closure_eq : b.has_closure ≡ a.has_closure
  pub runs_kept : b.closure_runs ≡ a.closure_runs
  pub canceled_eq : b.controller.is_canceled ≡ a.controller.is_canceled
  pub failed : a.controller.is_failed ≡ true → b.controller.is_failed ≡ true

module _ {Addr Response : Type 0} where
  pub on_connected-Keeps :
      (code : ℕ) (info : Bytes) (ch : RpcChannel Addr Response)
      → Keeps ch (on_connected code info ch)
  unfolding on_connected fail set_error
  on_connected-Keeps code info ch =
      if_intro (Keeps ch) (code == 0) _ _
        (λ _. record { closure_eq = refl; runs_kept = refl; canceled_eq = refl; failed = λ h. h })
        (λ _. record {
          closure_eq = refl;
          runs_kept = refl;
          canceled_eq = refl;
          failed = λ h. refl;
        })

  pub on_sent-Keeps : (ch : RpcChannel Addr Response) → Keeps ch (on_sent ch)
  unfolding on_sent
  on_sent-Keeps ch = record {
    closure_eq = refl;
    runs_kept = refl;
    canceled_eq = refl;
    failed = λ h. h;
  }

  pub on_timeout-IsTimedOut :
      (timeout : Bytes) (runs : ℕ) (ch : RpcChannel Addr Response)
      → ch.has_closure ≡ true
      → ch.closure_runs ≡ runs
      → IsTimedOut runs (on_timeout timeout ch)
  unfolding on_timeout run_closure fail set_error start_cancel
  on_timeout-IsTimedOut timeout runs ch closure e =
      if_intro (IsTimedOut runs) ch.has_closure _ _
        (λ _. record { is_canceled = refl; is_failed = refl; runs_eq = ap suc e })
        (λ none. absurd (true-ne-false (sym closure ∙ none)))

-- A call whose closure is still to run: it has run `runs` times, and the call is not cancelled.
pub record CanReply {Addr Response : Type 0} (runs : ℕ) (ch : RpcChannel Addr Response)
    : Type 0 where
  pub closure : ch.has_closure ≡ true
  pub live : ch.controller.is_canceled ≡ false
  pub runs_still : ch.closure_runs ≡ runs

-- The call is past connecting and sending.
pub record IsReading {Addr Response : Type 0} (ch : RpcChannel Addr Response) : Type 0 where
  pub no_connect : ch.connecting ≡ false
  pub no_write : ch.writing ≡ false

-- The response was taken: the closure has run once more, and the callback is used up.
pub record IsReplied {Addr Response : Type 0} (runs : ℕ) (ch : RpcChannel Addr Response)
    : Type 0 where
  pub once_more : ch.closure_runs ≡ suc runs
  pub let_go : ch.held ≡ false
  pub past : IsReading ch

-- A response came that could not be parsed, or carries an error: the closure has not run.
pub record IsFailing {Addr Response : Type 0} (runs : ℕ) (ch : RpcChannel Addr Response)
    : Type 0 where
  pub can_reply : CanReply runs ch
  pub marked : ch.controller.is_failed ≡ true
  pub past : IsReading ch

abbrev pub IsAnswered : {Addr Response : Type 0} → ℕ → RpcChannel Addr Response → Type 0
IsAnswered runs ch = IsReplied runs ch ⊎ IsFailing runs ch

module _ {Addr Response : Type 0} (m : TinyPbProtocol) (runs : ℕ) where
  pub parsed-IsAnswered :
      (parsed : Option Response) (ch : RpcChannel Addr Response)
      → CanReply runs ch
      → IsReading ch
      → IsAnswered runs (on_parsed parsed m ch)
  unfolding on_parsed accept run_closure fail set_error
  parsed-IsAnswered none ch c p = inr (record {
    can_reply = record { closure = c.closure; live = c.live; runs_still = c.runs_still };
    marked = refl;
    past = record { no_connect = p.no_connect; no_write = p.no_write };
  })
  parsed-IsAnswered (some rsp) ch c p =
      if_intro (IsAnswered runs) (not (m.error_code == 0)) _ _
        (λ bad. inr (record {
          can_reply = record { closure = c.closure; live = c.live; runs_still = c.runs_still };
          marked = refl;
          past = record { no_connect = p.no_connect; no_write = p.no_write };
        }))
        (λ ok.
          if_intro (λ (b : RpcChannel Addr Response). IsAnswered runs (record b { held = false }))
            (not ch.controller.is_canceled) _ _
            (λ go.
              if_intro
                (λ (b : RpcChannel Addr Response). IsAnswered runs (record b { held = false }))
                ch.has_closure _ _
                (λ some_closure. inl (record {
                  once_more = ap suc c.runs_still;
                  let_go = refl;
                  past = record { no_connect = p.no_connect; no_write = p.no_write };
                }))
                (λ no_closure. absurd (true-ne-false (sym c.closure ∙ no_closure))))
            (λ no. absurd (true-ne-false (sym (ap not c.live) ∙ no))))

  pub parsed-IsTimedOut :
      (parsed : Option Response) (ch : RpcChannel Addr Response)
      → IsTimedOut runs ch
      → IsTimedOut runs (on_parsed parsed m ch)
  unfolding on_parsed accept fail set_error
  parsed-IsTimedOut none ch o = record {
    is_canceled = o.is_canceled;
    is_failed = refl;
    runs_eq = o.runs_eq;
  }
  parsed-IsTimedOut (some rsp) ch o =
      if_intro (IsTimedOut runs) (not (m.error_code == 0)) _ _
        (λ bad. record { is_canceled = o.is_canceled; is_failed = refl; runs_eq = o.runs_eq })
        (λ ok.
          if_intro (λ (b : RpcChannel Addr Response). IsTimedOut runs (record b { held = false }))
            (not ch.controller.is_canceled) _ _
            (λ go.
              absurd (true-ne-false (sym o.is_canceled ∙ not-true ch.controller.is_canceled go)))
            (λ no. record {
              is_canceled = o.is_canceled;
              is_failed = o.is_failed;
              runs_eq = o.runs_eq;
            }))
