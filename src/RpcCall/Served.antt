-- ===== src/RpcCall/Served.antt =====
-- What a server's dispatcher makes of one request.
use my_tiny_rpc.Base.{ℕ, ◌≡◌, ◌≢◌, ap, ◌∙◌, Bytes, true, Option, some, [], ◌∷◌, arith}
use my_tiny_rpc.Coder.TinyPb.{TinyPbProtocol, new_protocol, with_msg_id}
use my_tiny_rpc.Coder.TinyPb.Encode.{seal_all}
use my_tiny_rpc.Coder.TinyPb.Layout.{sealed}
use my_tiny_rpc.Rpc.Dispatcher.{
  Service, ServiceMap, RunTime, Dispatched, find_service, parse_service_full_name, call_controller,
  dispatch, dispatch_named, dispatch_found,
}
use my_tiny_rpc.Rpc.Dispatcher.Dispatch.{Why, Why-Refused, dispatch_to_succeeds}
use my_tiny_rpc.TcpConnection.Input.{serve_all}
use my_tiny_rpc.Exchange.{answers}

pub with_msg_id-named : (m : TinyPbProtocol) → m.msg_id ≢ [] → with_msg_id m ≡ m
unfolding with_msg_id
with_msg_id-named m h = ground arith

-- What goes back for a request.
abbrev pub response_to : TinyPbProtocol → Bytes → TinyPbProtocol
response_to request out = record new_protocol {
  msg_id = request.msg_id;
  method_name = request.method_name;
  pb_data = out;
}

module _ {Addr : Type 0} (local_addr peer_addr : Option Addr) (services : ServiceMap Addr) where
  -- A service that answers a method by its full name.
  pub record Serves (full_name pb_data msg_id out : Bytes) : Type 1 where
    pub service_name : Bytes
    pub method_name : Bytes
    pub service : Service Addr
    pub method : service.Method
    pub req : service.Request
    pub named : parse_service_full_name full_name ≡ some (service_name, method_name)
    pub registered : find_service services service_name ≡ some service
    pub found : service.find_method_by_name method_name ≡ some method
    pub parsed : service.parse_from_string method pb_data ≡ some req
    pub answered :
        service.serialize_to_string method
          (service.call_method method (call_controller local_addr peer_addr msg_id) req)
        ≡ (true, out)

  dispatch_succeeds :
      (d : Dispatched) (out : Bytes)
      → (h : Serves d.request.method_name d.request.pb_data d.request.msg_id out)
      → (dispatch local_addr peer_addr services d).response ≡ record d.response {
        msg_id = d.request.msg_id;
        method_name = d.request.method_name;
        pb_data = out;
        error_code = 0;
      }
  unfolding dispatch dispatch_named dispatch_found
  dispatch_succeeds d out h =
      rw (h.named, h.registered)
        (ap (λ (r : Dispatched). r.response)
          (dispatch_to_succeeds local_addr peer_addr h.service h.method_name d h.method h.req out
            h.found h.parsed h.answered))

  serve_one :
      (m : TinyPbProtocol) (out : Bytes) (run_time : RunTime)
      → Serves m.method_name m.pb_data m.msg_id out
      → (serve_all local_addr peer_addr services (sealed m ∷ []) run_time).0
        ≡ response_to m out ∷ []
  unfolding serve_all sealed
  serve_one m out run_time h =
      ap (λ r. r ∷ [])
        (dispatch_succeeds
          (record { request = sealed m; response = new_protocol; run_time = run_time }) out h)

  pub answers_one :
      (request : TinyPbProtocol) (out : Bytes) (run_time : RunTime)
      → request.msg_id ≢ []
      → Serves request.method_name request.pb_data request.msg_id out
      → answers local_addr peer_addr services (request ∷ []) run_time ≡ response_to request out ∷ []
  unfolding seal_all
  answers_one request out run_time named h =
      ap (λ m. (serve_all local_addr peer_addr services (sealed m ∷ []) run_time).0)
        (with_msg_id-named request named)
      ∙ serve_one request out run_time h

  -- The response to a request that reaches no method has no id, no method and no error.
  pub answers_none :
      (request : TinyPbProtocol) (code : ℕ) (run_time : RunTime)
      → request.msg_id ≢ []
      → Why services request.method_name request.pb_data code
      → answers local_addr peer_addr services (request ∷ []) run_time ≡ new_protocol ∷ []
  unfolding seal_all serve_all sealed
  answers_none request code run_time named why =
      ap (λ m. (serve_all local_addr peer_addr services (sealed m ∷ []) run_time).0)
        (with_msg_id-named request named)
      ∙ ap (λ r. r ∷ [])
          (Why-Refused local_addr peer_addr services code
            (record { request = sealed request; response = new_protocol; run_time = run_time })
            why).same_response
