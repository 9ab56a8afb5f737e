-- ===== src/Rpc/Channel.antt =====
-- tinyrpc/net/rpc/rpc_channel.{h,cc}: one call of a client, from `CallMethod` to the response.
-- The callbacks that `CallMethod` hands to the client and to its timer are the functions below it;
-- which of them run, and in which order, is up to the loop. What protobuf does, the text of a number
-- and a new message id are arguments. The addresses and the log lines are left out.
pub mod Replies
use my_tiny_rpc.Base.{
  ℕ, suc, Bytes, Bool, true, false, not, ◌&&◌, ◌||◌, Option, none, some, List, [], ◌∷◌, ◌++◌, ◌==◌,
  if◌then◌else◌, codes, is_empty,
}
use my_tiny_rpc.Base.Outcome.{Outcome, done, fault}
use my_tiny_rpc.Coder.TinyPb.{TinyPbProtocol, new_protocol}
use my_tiny_rpc.Rpc.Controller.{RpcController, set_error, set_msg_id, start_cancel}
use my_tiny_rpc.Rpc.Dispatcher.{error_failed_deserialize, error_failed_serialize}

abbrev pub error_rpc_call_timeout : ℕ
error_rpc_call_timeout = 10000007

abbrev pub error_init_rpc_channel : ℕ
error_init_rpc_channel = 10000011

-- `controller` is the one given to `Init` and to `CallMethod`. `req_protocol` is what the callbacks share. `timer` is the time event: none before `CallMethod`,
-- then whether it was cancelled. `connecting`, `writing` and `reading` say which callbacks the
-- client holds; `held` says that the one of `readMessage` still has its pointer to the channel;
-- `closure_runs` counts the calls of the closure.
pub record RpcChannel (Addr Response : Type 0) : Type 0 where
  pub is_init : Bool
  pub controller : RpcController Addr
  pub has_closure : Bool
  pub closure_runs : ℕ
  pub response : Option Response
  pub req_protocol : TinyPbProtocol
  pub timer : Option Bool
  pub connecting : Bool
  pub writing : Bool
  pub reading : Bool
  pub held : Bool

-- `setCancel`.
abbrev pub cancel_timer : Option Bool → Option Bool
cancel_timer none = none
cancel_timer (some cancelled) = some true

-- The message id of the controller, or a new one, which the controller gets.
unfoldable pub choose_msg_id : {Addr : Type 0} → Bytes → RpcController Addr → RpcController Addr
choose_msg_id new_id controller =
    if is_empty controller.msg_id then set_msg_id controller new_id else controller

module _ {Addr Response : Type 0} where
  unfoldable pub channel_init :
      RpcChannel Addr Response → RpcController Addr → Bool → RpcChannel Addr Response
  channel_init ch controller has_closure =
      if ch.is_init
      then ch
      else record ch { is_init = true; controller = controller; has_closure = has_closure }

  unfoldable pub fail : RpcChannel Addr Response → ℕ → Bytes → RpcChannel Addr Response
  fail ch error_code error_info = record ch {
    controller = set_error ch.controller error_code error_info;
  }

  -- `getClosure()->Run()`, where there is a closure.
  unfoldable pub run_closure : RpcChannel Addr Response → RpcChannel Addr Response
  run_closure ch = if ch.has_closure then record ch { closure_runs = suc ch.closure_runs } else ch

  -- From the serialized request on: the time event, and the connection. `memory` is what stands
  -- where the constructor of the event leaves `m_is_cancel`.
  unfoldable pub start_call :
      Bool → Bytes → Bytes → Option Bytes → RpcChannel Addr Response → RpcChannel Addr Response
  start_call memory new_id full_name request ch =
      let controller = choose_msg_id new_id ch.controller in
      let ch' = record ch { controller = controller } in
      elim request [
        | none ↦ fail ch' error_failed_serialize (codes "failed to serialize")
        | some pb_data ↦ record ch' {
          req_protocol = record new_protocol {
            msg_id = controller.msg_id;
            method_name = full_name;
            pb_data = pb_data;
          };
          timer = some memory;
          connecting = true;
        }
      ]

  -- `CallMethod`. The first three arguments are whether the pointers are not null; a controller that
  -- is null is used all the same.
  unfoldable pub call_method :
      Bool
      → Bool
      → Bool
      → Bool
      → Bytes
      → Bytes
      → Option Bytes
      → RpcChannel Addr Response
      → Outcome (RpcChannel Addr Response)
  call_method false has_request has_response memory new_id full_name request ch = fault
  call_method true has_request has_response memory new_id full_name request ch =
      if not (has_request && has_response)
      then done (fail ch error_init_rpc_channel (codes "controller or request or response NULL"))
      else if not ch.is_init
      then done (fail ch error_init_rpc_channel (codes "failed callmethod, RpcChannel not init"))
      else done (start_call memory new_id full_name request ch)

  -- The time event's callback; the timer runs it only if it is not cancelled, and once.
  unfoldable pub on_timeout : Bytes → RpcChannel Addr Response → RpcChannel Addr Response
  on_timeout timeout ch = run_closure (
      fail (record ch { controller = start_cancel ch.controller }) error_rpc_call_timeout
        (codes "rpc call timeout" ++ timeout))

  -- The callback of `onConnect`, with the client's error.
  unfoldable pub on_connected : ℕ → Bytes → RpcChannel Addr Response → RpcChannel Addr Response
  on_connected error_code error_info ch =
      if error_code == 0
      then record ch { connecting = false; writing = true }
      else fail (record ch { connecting = false }) error_code error_info

  -- The callback of `writeMessage`.
  unfoldable pub on_sent : RpcChannel Addr Response → RpcChannel Addr Response
  on_sent ch = record ch { writing = false; reading = true; held = true }

  -- A response that could be parsed. The callback resets its pointer at its end, which the returns
  -- before it do not reach.
  unfoldable pub accept :
      Response → TinyPbProtocol → RpcChannel Addr Response → RpcChannel Addr Response
  accept rsp rsp_protocol ch =
      let ch' = record ch { response = some rsp } in
      if not (rsp_protocol.error_code == 0)
      then fail ch' rsp_protocol.error_code rsp_protocol.error_msg
      else record (if not ch'.controller.is_canceled then run_closure ch' else ch') { held = false }

  -- A response that cannot be parsed leaves the object as `ParseFromString` does, which is not
  -- modelled.
  unfoldable pub on_parsed :
      Option Response → TinyPbProtocol → RpcChannel Addr Response → RpcChannel Addr Response
  on_parsed none rsp_protocol ch =
      fail (record ch { timer = cancel_timer ch.timer }) error_failed_deserialize
        (codes "deserialized error")
  on_parsed (some rsp) rsp_protocol ch =
      accept rsp rsp_protocol (record ch { timer = cancel_timer ch.timer })

  -- The callback of `readMessage`, which reads the channel through its pointer; the client keeps it
  -- after it ran.
  unfoldable pub on_response :
      (Bytes → Option Response)
      → TinyPbProtocol
      → RpcChannel Addr Response
      → Outcome (RpcChannel Addr Response)
  on_response parse_from_string rsp_protocol ch =
      if ch.held
      then done (on_parsed (parse_from_string rsp_protocol.pb_data) rsp_protocol ch)
      else fault
