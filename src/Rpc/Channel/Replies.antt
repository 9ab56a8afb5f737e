-- ===== src/Rpc/Channel/Replies.antt =====
-- What a response does to a call, and a call from its start to its response.
use my_tiny_rpc.Base.{
  true-ne-false, not-true, if_intro, codes, not, if◌then◌else◌, suc, Bytes, ◌≡◌, refl, sym, ap, ◌∙◌,
  Bool, true, false, Option, none, some, ◌==◌, ==_iff, is_empty,
}
use my_tiny_rpc.Base.Outcome.{done}
use my_tiny_rpc.Coder.TinyPb.{TinyPbProtocol}
use my_tiny_rpc.Rpc.Controller.{RpcController, set_msg_id}
use my_tiny_rpc.Rpc.Channel.{
  error_init_rpc_channel, RpcChannel, cancel_timer, fail, run_closure, choose_msg_id, start_call,
  call_method, on_connected, on_sent, accept, on_parsed,
}

pub choose_msg_id_keeps :
    {Addr : Type 0} (new_id : Bytes) (c : RpcController Addr)
    → ((choose_msg_id new_id c).is_canceled ≡ c.is_canceled)
      × ((choose_msg_id new_id c).is_failed ≡ c.is_failed)
unfolding choose_msg_id set_msg_id
choose_msg_id_keeps {Addr} new_id c =
    if_intro
      (λ (d : RpcController Addr). (d.is_canceled ≡ c.is_canceled) × (d.is_failed ≡ c.is_failed))
      (is_empty c.msg_id) _ _ (λ e. (refl, refl)) (λ e. (refl, refl))

module _ {Addr Response : Type 0} (parse_from_string : Bytes → Option Response) where
  -- What a call that goes through comes to.
  pub record Succeeded (ch b : RpcChannel Addr Response) (rsp : Response) : Type 0 where
    pub answered : b.response ≡ some rsp
    pub ran : b.closure_runs ≡ suc ch.closure_runs
    pub timer_cancelled : b.timer ≡ some true
    pub not_failed : b.controller.is_failed ≡ ch.controller.is_failed

  parsed-Succeeded :
      (memory : Bool) (parsed : Option Response) (m : TinyPbProtocol)
      (ch : RpcChannel Addr Response) (rsp : Response)
      → parsed ≡ some rsp
      → (m.error_code == 0) ≡ true
      → ch.has_closure ≡ true
      → ch.controller.is_canceled ≡ false
      → ch.timer ≡ some memory
      → Succeeded ch (on_parsed parsed m ch) rsp
  unfolding on_parsed accept run_closure
  parsed-Succeeded memory none m ch rsp e ok closure live armed = absurd (cc e)
  parsed-Succeeded memory (some got) m ch rsp e ok closure live armed =
      if_intro (λ b. Succeeded ch b rsp) (not (m.error_code == 0)) _ _
        (λ bad. absurd (true-ne-false (sym ok ∙ not-true (m.error_code == 0) bad)))
        (λ fine.
          if_intro (λ b. Succeeded ch (record b { held = false }) rsp)
            (not ch.controller.is_canceled) _ _
            (λ go.
              if_intro (λ b. Succeeded ch (record b { held = false }) rsp) ch.has_closure _ _
                (λ c. record {
                  answered = e;
                  ran = refl;
                  timer_cancelled = ap cancel_timer armed;
                  not_failed = refl;
                })
                (λ c. absurd (true-ne-false (sym closure ∙ c))))
            (λ no. absurd (true-ne-false (sym (ap not live) ∙ no))))

  -- The call as `CallMethod` starts it.
  pub call_starts :
      (ch : RpcChannel Addr Response) (memory : Bool) (new_id full_name pb_data : Bytes)
      → ch.is_init ≡ true
      → call_method true true true memory new_id full_name (some pb_data) ch
        ≡ done (start_call memory new_id full_name (some pb_data) ch)
  unfolding call_method
  call_starts ch memory new_id full_name pb_data init =
      ap
        (λ b.
          if not b
          then done
              (fail ch error_init_rpc_channel (codes "failed callmethod, RpcChannel not init"))
          else done (start_call memory new_id full_name (some pb_data) ch))
        init

  -- A started call whose request goes out, and whose response can be parsed.
  pub started-Succeeded :
      (ch : RpcChannel Addr Response) (memory : Bool) (new_id full_name pb_data info : Bytes)
      (m : TinyPbProtocol) (rsp : Response)
      → ch.has_closure ≡ true
      → ch.controller.is_canceled ≡ false
      → parse_from_string m.pb_data ≡ some rsp
      → m.error_code ≡ 0
      → Succeeded ch
          (on_parsed
            (parse_from_string m.pb_data)
            m
            (on_sent (on_connected 0 info (start_call memory new_id full_name (some pb_data) ch))))
          rsp
  unfolding start_call on_connected on_sent
  started-Succeeded ch memory new_id full_name pb_data info m rsp closure live parses ok =
      let sent =
        on_sent (on_connected 0 info (start_call memory new_id full_name (some pb_data) ch)) in
      let same = choose_msg_id_keeps new_id ch.controller in
      let s =
        parsed-Succeeded memory (parse_from_string m.pb_data) m sent rsp parses
          ((==_iff m.error_code 0).1 ok) closure (same.0 ∙ live) refl in
      record {
        answered = s.answered;
        ran = s.ran;
        timer_cancelled = s.timer_cancelled;
        not_failed = s.not_failed ∙ same.1;
      }
